-- ===== src/Uthash/Items.antt =====
-- Phonebooks (struct YP_phonebook of provider.h) and lists of them with distinct ids.
use phonebook.Base.{
  suc, ◌≡◌, refl, sym, subst, Option, none, some, List, [], ◌∷◌, ◌++◌, arith, length, if◌then◌else◌,
}
use phonebook.Common.{PhonebookId, id_eq, id_eq_iff}
use phonebook.Backend.{BackendImpl, Ptr}

-- `fn` points to a backend that stays valid, so the model holds the backend; `hh` belongs to uthash.
pub record Phonebook (W : Type 0) : Type 0 where
  pub fn : BackendImpl W
  pub ctx : Ptr
  pub id : PhonebookId

module _ {W : Type 0} where
  unfoldable pub lookup : PhonebookId → List (Phonebook W) → Option (Phonebook W)
  lookup k [] = none
  lookup k (p ∷ l) = if id_eq p.id k then some p else lookup k l

  unfoldable pub remove : PhonebookId → List (Phonebook W) → List (Phonebook W)
  remove k [] = []
  remove k (p ∷ l) = if id_eq p.id k then l else p ∷ remove k l

  abbrev pub Distinct : List (Phonebook W) → Type 0
  Distinct [] = Unit {0}
  Distinct (p ∷ l) = (lookup p.id l ≡ none) × Distinct l

  pub lookup-id :
      (k : PhonebookId) (l : List (Phonebook W)) {p : Phonebook W} → lookup k l ≡ some p → p.id ≡ k
  unfolding lookup
  lookup-id k [] h = cc
  lookup-id k (q ∷ l) {p} h = ground (arith, lookup-id k l {p = p}, id_eq_iff q.id k)

  pub lookup-own_id :
      (k : PhonebookId) (l : List (Phonebook W)) {p : Phonebook W}
      → lookup k l ≡ some p
      → lookup p.id l ≡ some p
  lookup-own_id k l {p} h = subst (λ j. lookup j l ≡ some p) (sym (lookup-id k l h)) h

  pub lookup-append_new :
      (k : PhonebookId) (l : List (Phonebook W)) (p : Phonebook W)
      → lookup p.id l ≡ none
      → lookup k (l ++ p ∷ []) ≡ (if id_eq p.id k then some p else lookup k l)
  unfolding lookup
  lookup-append_new k [] p h = refl
  lookup-append_new k (q ∷ l) p h =
      ground
        (arith, lookup-append_new k l p, id_eq_iff q.id k, id_eq_iff p.id k, id_eq_iff q.id p.id)

  pub Distinct-append_new :
      (l : List (Phonebook W)) (p : Phonebook W)
      → lookup p.id l ≡ none
      → Distinct l
      → Distinct (l ++ p ∷ [])
  unfolding lookup
  Distinct-append_new [] p h d = (refl, tt)
  Distinct-append_new (q ∷ l) p h d = ground (
    arith,
    Distinct-append_new l p,
    lookup-append_new q.id l p,
    id_eq_iff p.id q.id,
    id_eq_iff q.id p.id,
  )

  pub length-remove :
      (k : PhonebookId) (l : List (Phonebook W)) {p : Phonebook W}
      → lookup k l ≡ some p
      → suc (length (remove k l)) ≡ length l
  unfolding lookup remove
  length-remove k [] h = cc
  length-remove k (q ∷ l) {p} h = ground (arith, length-remove k l {p = p})

  pub lookup-remove :
      (k j : PhonebookId) (l : List (Phonebook W))
      → Distinct l
      → lookup j (remove k l) ≡ (if id_eq k j then none else lookup j l)
  unfolding lookup remove
  lookup-remove k j [] d = ground arith
  lookup-remove k j (q ∷ l) d =
      ground (arith, lookup-remove k j l, id_eq_iff q.id k, id_eq_iff k j, id_eq_iff q.id j)

  pub Distinct-remove :
      (k : PhonebookId) (l : List (Phonebook W)) → Distinct l → Distinct (remove k l)
  unfolding lookup remove
  Distinct-remove k [] d = tt
  Distinct-remove k (q ∷ l) d = ground (arith, Distinct-remove k l, lookup-remove k q.id l, d.1)

  pub remove-append_new :
      (k : PhonebookId) (l : List (Phonebook W)) (p : Phonebook W)
      → p.id ≡ k
      → lookup p.id l ≡ none
      → remove k (l ++ p ∷ []) ≡ l
  unfolding lookup remove
  remove-append_new k [] p e h = ground (arith, id_eq_iff p.id k)
  remove-append_new k (q ∷ l) p e h =
      ground (arith, remove-append_new k l p e, id_eq_iff q.id p.id, id_eq_iff q.id k)
