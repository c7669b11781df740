-- ===== src/Client/Heap.antt =====
-- The objects of client.h at their addresses. An address that no list holds is free.
use phonebook.Base.{ℕ, ◌≡◌, refl, Option, none, some, List, [], ◌∷◌, arith, ◌==◌, if◌then◌else◌}
use phonebook.Backend.{Ptr}
use phonebook.Common.{PhonebookId}

-- struct YP_client
pub record Client : Type 0 where
  pub mid : ℕ
  pub hello_id : ℕ
  pub sum_id : ℕ
  pub num_phonebook_handles : ℕ

-- struct YP_phonebook_handle
pub record PhonebookHandle : Type 0 where
  pub client : Ptr
  pub addr : ℕ
  pub provider_id : ℕ
  pub refcount : ℕ
  pub phonebook_id : PhonebookId

pub record ClientHeap : Type 0 where
  pub clients : List (Ptr × Client)
  pub handles : List (Ptr × PhonebookHandle)

module _ {A : Type 0} where
  unfoldable pub find : Ptr → List (Ptr × A) → Option A
  find a [] = none
  find a ((b, x) ∷ l) = if b == a then some x else find a l

  -- a write through a pointer
  unfoldable pub put : Ptr → A → List (Ptr × A) → List (Ptr × A)
  put a y [] = []
  put a y ((b, x) ∷ l) = if b == a then (b, y) ∷ l else (b, x) ∷ put a y l

  -- free
  unfoldable pub drop_key : Ptr → List (Ptr × A) → List (Ptr × A)
  drop_key a [] = []
  drop_key a ((b, x) ∷ l) = if b == a then l else (b, x) ∷ drop_key a l

  -- Each address is held once.
  abbrev pub Keyed : List (Ptr × A) → Type 0
  Keyed [] = Unit {0}
  Keyed ((b, x) ∷ l) = (find b l ≡ none) × Keyed l

  pub find-put :
      (a b : Ptr) (y : A) (l : List (Ptr × A)) {x : A}
      → find a l ≡ some x
      → find b (put a y l) ≡ (if a == b then some y else find b l)
  unfolding find put
  find-put a b y [] h = cc
  find-put a b y ((c, z) ∷ l) {x} h = ground (arith, find-put a b y l {x = x})

  pub find-drop_key :
      (a b : Ptr) (l : List (Ptr × A))
      → Keyed l
      → find b (drop_key a l) ≡ (if a == b then none else find b l)
  unfolding find drop_key
  find-drop_key a b [] k = ground arith
  find-drop_key a b ((c, z) ∷ l) k = ground (arith, find-drop_key a b l)

  pub Keyed-put : (a : Ptr) (y : A) (l : List (Ptr × A)) → Keyed l → Keyed (put a y l)
  unfolding find put
  Keyed-put a y [] k = tt
  Keyed-put a y ((c, z) ∷ l) k = ground (arith, Keyed-put a y l, find_none-put c l)
    where
      find_none-put : (d : Ptr) (m : List (Ptr × A)) → find d m ≡ none → find d (put a y m) ≡ none
      find_none-put d [] h = refl
      find_none-put d ((e, x) ∷ m) h = ground (arith, find_none-put d m)

  pub Keyed-drop_key : (a : Ptr) (l : List (Ptr × A)) → Keyed l → Keyed (drop_key a l)
  unfolding drop_key
  Keyed-drop_key a [] k = tt
  Keyed-drop_key a ((c, z) ∷ l) k = ground (arith, Keyed-drop_key a l, find-drop_key a c l)

  -- The object that was allocated last.
  module _ (a : Ptr) (x : A) (l : List (Ptr × A)) where
    pub find-head : find a ((a, x) ∷ l) ≡ some x
    unfolding find
    find-head = ground arith

    pub put-head : (y : A) → put a y ((a, x) ∷ l) ≡ (a, y) ∷ l
    unfolding put
    put-head y = ground arith

    pub drop_key-head : drop_key a ((a, x) ∷ l) ≡ l
    unfolding drop_key
    drop_key-head = ground arith
