-- ===== src/Provider/Owns.antt =====
-- The contexts of the phonebooks of a provider (provider.c) against those that the backends have
-- allocated: the invariant, and the lists behind it.
use phonebook.Base.{
  ◌≡◌, refl, ◌∙◌, true, false, none, some, List, [], ◌∷◌, ◌++◌, arith, map, Bool-cases, inl, inr,
}
use mathlib.Core.List.{map-append}
use phonebook.Common.{PhonebookId, id_eq}
use phonebook.Backend.{Ptr}
use phonebook.Backend.Contract.{
  Contract, All, All-append, Apart, Apart-append, Apart-erase, holds, erase,
}
use phonebook.Uthash.{Uthash}
use phonebook.Uthash.Items.{Phonebook, lookup, remove}
use phonebook.Provider.{Provider}
use phonebook.Provider.Valid.{
  IsValid, entries, added, removed, added-IsValid, removed-IsValid, entries-added, entries-removed,
}

module _ {W : Type 0} where
  abbrev pub ctxs : List (Phonebook W) → List Ptr
  ctxs = map (λ b. b.ctx)

  pub holds-lookup :
      (k : PhonebookId) (l : List (Phonebook W)) {b : Phonebook W}
      → lookup k l ≡ some b
      → holds b.ctx (ctxs l) ≡ true
  unfolding lookup holds
  holds-lookup k [] h = cc
  holds-lookup k (q ∷ l) {b} h = ground (arith, holds-lookup k l {b = b})

  pub erase-remove :
      (k : PhonebookId) (l : List (Phonebook W)) {b : Phonebook W}
      → lookup k l ≡ some b
      → Apart (ctxs l)
      → erase b.ctx (ctxs l) ≡ ctxs (remove k l)
  unfolding lookup erase remove
  erase-remove k [] h d = cc
  erase-remove k (q ∷ l) {b} h d =
      ground (arith, erase-remove k l {b = b}, holds-lookup k l {b = b})

  module _ (P : Phonebook W → Type 0) where
    pub All-lookup :
        (k : PhonebookId) (l : List (Phonebook W)) {b : Phonebook W}
        → lookup k l ≡ some b
        → All P l
        → P b
    unfolding lookup
    All-lookup k [] h a = cc
    All-lookup k (q ∷ l) {b} h a = elim (Bool-cases (id_eq q.id k)) [
      | inl e ↦ let same : q ≡ b = ground arith in rw (← same) a.0
      | inr e ↦ All-lookup k l {b = b} (ground arith) a.1
    ]

    pub All-remove : (k : PhonebookId) (l : List (Phonebook W)) → All P l → All P (remove k l)
    unfolding remove
    All-remove k [] a = tt
    All-remove k (q ∷ l) a = elim (Bool-cases (id_eq q.id k)) [
      | inl e ↦ rw e a.1
      | inr e ↦ rw e (a.0, All-remove k l a.1)
    ]

module _ {W T : Type 0} ⦃H : Uthash W T⦄ (alive : W → List Ptr) where
  -- The contexts that are alive are those of the phonebooks of the provider, in their order, each
  -- belonging to one phonebook; the backends keep their contract.
  pub record Owns (p : Provider W T) (w : W) : Type 0 where
    pub valid : IsValid p
    pub live : alive w ≡ ctxs (entries p)
    pub apart : Apart (ctxs (entries p))
    pub known : All (λ b. Contract alive b.fn) (entries p)
    pub types : All (Contract alive) p.backend_types

  -- The memory changed, and its live contexts did not.
  pub Owns-same : {p : Provider W T} {w : W} (w' : W) → alive w' ≡ alive w → Owns p w → Owns p w'
  Owns-same w' e o = record {
    valid = o.valid;
    live = e ∙ o.live;
    apart = o.apart;
    known = o.known;
    types = o.types;
  }

  pub Owns-added :
      {p : Provider W T} {w : W} (w' : W) (b : Phonebook W)
      → lookup b.id (entries p) ≡ none
      → holds b.ctx (alive w) ≡ false
      → alive w' ≡ alive w ++ b.ctx ∷ []
      → Contract alive b.fn
      → Owns p w
      → Owns (added p b) w'
  Owns-added {p} {w} w' b new fresh e c o = record {
    valid = added-IsValid p b o.valid new;
    live = rw (entries-added p b o.valid new, map-append, e, o.live) refl;
    apart =
        rw (entries-added p b o.valid new, map-append)
          (Apart-append (ctxs (entries p)) b.ctx (rw o.live at fresh) o.apart);
    known =
        rw (entries-added p b o.valid new)
          (All-append (λ b. Contract alive b.fn) (entries p) b o.known c);
    types = o.types;
  }

  pub Owns-removed :
      {p : Provider W T} {w : W} (w' : W) (b : Phonebook W)
      → lookup b.id (entries p) ≡ some b
      → alive w' ≡ erase b.ctx (alive w)
      → Owns p w
      → Owns (removed p b) w'
  Owns-removed {p} {w} w' b found e o = record {
    valid = removed-IsValid p b o.valid found;
    live =
        rw (entries-removed p b o.valid found, e, o.live)
          (erase-remove b.id (entries p) found o.apart);
    apart =
        rw (entries-removed p b o.valid found, ← erase-remove b.id (entries p) found o.apart)
          (Apart-erase (ctxs (entries p)) b.ctx o.apart);
    known =
        rw (entries-removed p b o.valid found)
          (All-remove (λ b. Contract alive b.fn) b.id (entries p) o.known);
    types = o.types;
  }
