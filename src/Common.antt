-- ===== src/Common.antt =====
-- include/YP/YP-common.h: the error codes and the phonebook ids.
use phonebook.Base.{
  ◌^◌, ◌<◌, ◌<◌, if◌then◌else◌, ℕ, ◌≡◌, refl, ◌↔◌, Bool, true, false, ◌&&◌, List, [], ◌∷◌, arith,
  ◌==◌, Option, none, some, String,
}

-- enum YP_return_t, in the order of the header.
pub data Return : Type 0 where
  success err_allocation err_invalid_args err_invalid_provider err_invalid_phonebook
        err_invalid_backend err_invalid_config err_invalid_token err_from_mercury err_from_argobots
        err_op_unsupported err_op_forbidden err_other :
      Return

-- `ret == YP_SUCCESS`
unfoldable pub is_success : Return → Bool
is_success success = true
is_success _ = false

-- The number of an enumerator, which travels as an int32_t.
unfoldable pub to_code : Return → ℕ
to_code success = 0
to_code err_allocation = 1
to_code err_invalid_args = 2
to_code err_invalid_provider = 3
to_code err_invalid_phonebook = 4
to_code err_invalid_backend = 5
to_code err_invalid_config = 6
to_code err_invalid_token = 7
to_code err_from_mercury = 8
to_code err_from_argobots = 9
to_code err_op_unsupported = 10
to_code err_op_forbidden = 11
to_code err_other = 12

-- struct YP_phonebook_id_t: the 16 bytes of a uuid_t.
pub record PhonebookId : Type 0 where
  pub uuid : List ℕ

-- YP_phonebook_id_to_string; `uuid_unparse` is the function of libuuid.
unfoldable pub phonebook_id_to_string : (uuid_unparse : List ℕ → String) → PhonebookId → String
phonebook_id_to_string uuid_unparse id = uuid_unparse id.uuid

-- YP_phonebook_id_from_string; where the function uuid_parse of libuuid fails, `*id` keeps its value,
-- and the code of the failure is dropped.
unfoldable pub phonebook_id_from_string :
    (uuid_parse : String → Option (List ℕ)) → String → (id : PhonebookId) → PhonebookId
phonebook_id_from_string uuid_parse text id = elim (uuid_parse text) [
  | none ↦ id
  | some bytes ↦ record { uuid = bytes }
]

-- memcmp on the bytes of two ids.
unfoldable pub bytes_eq : List ℕ → List ℕ → Bool
bytes_eq [] [] = true
bytes_eq (a ∷ as') (b ∷ bs) = a == b && bytes_eq as' bs
bytes_eq _ _ = false

unfoldable pub id_eq : PhonebookId → PhonebookId → Bool
unfolding bytes_eq
id_eq a b = bytes_eq a.uuid b.uuid

bytes_eq→eq : (a b : List ℕ) → bytes_eq a b ≡ true → a ≡ b
unfolding bytes_eq
bytes_eq→eq [] [] h = refl
bytes_eq→eq [] (y ∷ b) h = ground arith
bytes_eq→eq (x ∷ a) [] h = ground arith
bytes_eq→eq (x ∷ a) (y ∷ b) h = ground (arith, bytes_eq→eq a b)

bytes_eq_refl : (a : List ℕ) → bytes_eq a a ≡ true
unfolding bytes_eq
bytes_eq_refl [] = refl
bytes_eq_refl (x ∷ a) = ground (arith, bytes_eq_refl a)

pub id_eq_iff : (a b : PhonebookId) → (id_eq a b ≡ true) ↔ (a ≡ b)
unfolding id_eq
id_eq_iff a b = (λ h. cc (bytes_eq→eq a.uuid b.uuid h), λ h. rw h (bytes_eq_refl b.uuid))

unfoldable find_code : ℕ → List Return → Return
find_code n [] = err_other
find_code n (r ∷ rs) = if to_code r == n then r else find_code n rs

-- The enumerator with a number; a number that is none of theirs is read as the last one.
unfoldable pub of_code : ℕ → Return
unfolding find_code to_code
of_code n = find_code n (
    success ∷ err_allocation ∷ err_invalid_args ∷ err_invalid_provider ∷ err_invalid_phonebook
    ∷ err_invalid_backend ∷ err_invalid_config ∷ err_invalid_token ∷ err_from_mercury
    ∷ err_from_argobots ∷ err_op_unsupported ∷ err_op_forbidden ∷ [])

pub of_code-to_code : (r : Return) → of_code (to_code r) ≡ r
unfolding of_code
of_code-to_code success = refl
of_code-to_code _ = refl

pub to_code-lt : (r : Return) → to_code r < 2 ^ 32
unfolding to_code
to_code-lt success = omega arith
to_code-lt _ = omega arith
