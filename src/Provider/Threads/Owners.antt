-- ===== src/Provider/Threads/Owners.antt =====
-- The phonebooks that own the contexts of the backends while requests of provider.c are in flight.
use phonebook.Base.{◌≡◌, ◌∙◌, refl, false, none, some, List, [], ◌∷◌, ◌++◌}
use mathlib.Core.List.{map-append}
use phonebook.Common.{PhonebookId}
use phonebook.Backend.{Ptr}
use phonebook.Backend.Contract.{
  Contract, All, All-append, Apart, Apart-append, Apart-erase, holds, erase,
}
use phonebook.Uthash.Items.{
  Phonebook, lookup, remove, Distinct, Distinct-append_new, Distinct-remove,
}
use phonebook.Provider.Owns.{ctxs, erase-remove, All-remove}

module _ {W : Type 0} (alive : W → List Ptr) where
  -- The live contexts are those of these phonebooks, which have distinct ids, each the context of
  -- one phonebook; their backends keep the contract.
  pub record Held (owners : List (Phonebook W)) (w : W) : Type 0 where
    pub live : alive w ≡ ctxs owners
    pub apart : Apart (ctxs owners)
    pub distinct : Distinct owners
    pub known : All (λ b. Contract alive b.fn) owners

  pub Held-same :
      {owners : List (Phonebook W)} {w : W} (w' : W)
      → alive w' ≡ alive w
      → Held owners w
      → Held owners w'
  Held-same w' e h = record {
    live = e ∙ h.live;
    apart = h.apart;
    distinct = h.distinct;
    known = h.known;
  }

  pub Held-added :
      {owners : List (Phonebook W)} {w : W} (w' : W) (b : Phonebook W)
      → lookup b.id owners ≡ none
      → holds b.ctx (alive w) ≡ false
      → alive w' ≡ alive w ++ b.ctx ∷ []
      → Contract alive b.fn
      → Held owners w
      → Held (owners ++ b ∷ []) w'
  Held-added {owners} w' b new fresh e c h = record {
    live = rw (map-append, e, h.live) refl;
    apart = rw map-append (Apart-append (ctxs owners) b.ctx (rw h.live at fresh) h.apart);
    distinct = Distinct-append_new owners b new h.distinct;
    known = All-append (λ b. Contract alive b.fn) owners b h.known c;
  }

  pub Held-removed :
      {owners : List (Phonebook W)} {w : W} (w' : W) (k : PhonebookId) (b : Phonebook W)
      → lookup k owners ≡ some b
      → alive w' ≡ erase b.ctx (alive w)
      → Held owners w
      → Held (remove k owners) w'
  Held-removed {owners} w' k b found e h = record {
    live = rw (e, h.live) (erase-remove k owners found h.apart);
    apart = rw (← erase-remove k owners found h.apart) (Apart-erase (ctxs owners) b.ctx h.apart);
    distinct = Distinct-remove k owners h.distinct;
    known = All-remove (λ b. Contract alive b.fn) k owners h.known;
  }
