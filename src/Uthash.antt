-- ===== src/Uthash.antt =====
-- provider.h, struct YP_phonebook, and what provider.c uses of uthash.h (a copy of a library): the
-- operations on the hash of phonebooks, with their documented behaviour.
pub mod Items
pub mod Order
use phonebook.Base.{◌≡◌, Option, none, some, List, [], ◌∷◌, ◌++◌}
use phonebook.Common.{PhonebookId}
use Items.{Phonebook, lookup, remove, Distinct}

-- HASH_FIND, HASH_ADD, HASH_DEL and HASH_ITER on a hash of phonebooks by id; `items` are the
-- entries in the order in which HASH_ITER visits them. The manual says of them: a search gives the
-- entry with the key, keys are unique, an added entry is visited last, a deletion takes one entry
-- out. `empty` is the NULL head.
pub record Uthash (W T : Type 0) : Type 0 where
  pub empty : T
  pub find : T → PhonebookId → Option (Phonebook W)
  pub add : T → Phonebook W → T
  pub del : T → Phonebook W → T
  pub items : T → List (Phonebook W)
  pub items-empty : items empty ≡ []
  pub find-items : (t : T) (k : PhonebookId) → Distinct (items t) → find t k ≡ lookup k (items t)
  pub items-add :
      (t : T) (p : Phonebook W)
      → Distinct (items t)
      → find t p.id ≡ none
      → items (add t p) ≡ items t ++ p ∷ []
  pub items-del :
      (t : T) (p : Phonebook W)
      → Distinct (items t)
      → find t p.id ≡ some p
      → items (del t p) ≡ remove p.id (items t)
