-- ===== src/Provider/Backends.antt =====
-- The array of backend types of a provider (find_backend_impl and add_backend_impl of provider.c)
-- against the list of the backends in the order of their registration.
use text.Mathlib.Text.{◌==◌ as str_eq}
use phonebook.Base.{
  leb, ◌≤◌, fault, ◌*◌, ◌<◌, suc, ℕ, ◌+◌, ◌≡◌, refl, ◌∙◌, ap, true, Option, none, some, List, [],
  ◌∷◌, ◌++◌, ok, arith, length, take-length, get_elem?, if◌then◌else◌, String, Bool-cases, inl, inr,
}
use phonebook.Base.Words.{u64_mod, incr64}
use phonebook.Common.{Return, success}
use phonebook.Backend.{BackendImpl}
use phonebook.Backend.Contract.{All}
use phonebook.Uthash.{Uthash}
use phonebook.Provider.{
  pointer_size, Provider, strcmp_eq, find_backend_from, find_backend_impl, add_backend_impl,
}
use phonebook.Provider.Valid.{IsValid}

-- The oldest backend of a name.
unfoldable pub first_named : {W : Type 0} → String → List (BackendImpl W) → Option (BackendImpl W)
first_named name [] = none
first_named name (b ∷ bs) = if str_eq name b.name then some b else first_named name bs

module _ {W : Type 0} (name : String) (types : List (BackendImpl W)) where
  find_backend_from-first_named :
      (i : ℕ) (after : List (BackendImpl W))
      → ((j : ℕ) → get_elem? types (i + j) ≡ get_elem? after j)
      → find_backend_from (length after) i types (some name) ≡ ok (first_named name after)
  unfolding find_backend_from first_named strcmp_eq
  find_backend_from-first_named i [] h = refl
  find_backend_from-first_named i (b ∷ after) h =
      let here : get_elem? types i ≡ some b = ap (get_elem? types) (omega arith) ∙ h 0 in
      let later : (j : ℕ) → get_elem? types (i + 1 + j) ≡ get_elem? after j =
        λ j. ap (get_elem? types) (omega arith) ∙ h (suc j) in
      ground (arith, here, find_backend_from-first_named (i + 1) after later)

module _ {W T : Type 0} ⦃H : Uthash W T⦄ where
  -- In a well-formed provider a search by name, with no NULL in it, ends and gives the backend
  -- that was registered first among those of that name.
  pub find_backend_impl-first_named :
      (p : Provider W T) (name : String)
      → IsValid p
      → find_backend_impl p (some name) ≡ ok (first_named name p.backend_types)
  unfolding find_backend_impl
  find_backend_impl-first_named p name v = rw v.types_counted (
      find_backend_from-first_named name p.backend_types 0 p.backend_types
        (λ j. ap (get_elem? p.backend_types) (omega arith)))

  -- In a well-formed provider whose number of backends does not wrap, and where the block that
  -- realloc gives has room for the pointers, a backend that is registered goes to the end.
  pub add_backend_impl-append :
      (p : Provider W T) (b : BackendImpl W) (room : ℕ)
      → IsValid p
      → length p.backend_types + 1 < u64_mod
      → pointer_size * (length p.backend_types + 1) ≤ room
      → add_backend_impl (some room) p b
        ≡ ok (
          success,
          record p {
            num_backend_types = length p.backend_types + 1;
            backend_types_bytes = length p.backend_types + 1;
            backend_types = p.backend_types ++ b ∷ [];
          },
        )
  unfolding add_backend_impl
  add_backend_impl-append p b room v h enough =
      let fits : leb (pointer_size * (length p.backend_types + 1)) room ≡ true =
        ground (arith, enough) in
      let n : incr64 (length p.backend_types) ≡ length p.backend_types + 1 = omega arith in
      rw (v.types_counted, fits, take-length, n) refl

-- Where the number of backends does not wrap and add_backend_impl ends without a fault, the bytes that
-- it asked realloc for are fewer than those of its entries, each of the size of a pointer, and fewer than
-- those of the block that realloc gave; where realloc gives a block of just the bytes that it is asked for,
-- the write of the new entry is a fault.
pub add_backend_impl-overrun :
    {W T : Type 0} (p q : Provider W T) (b : BackendImpl W) (room : ℕ) {ret : Return}
    → suc p.num_backend_types < u64_mod
    → add_backend_impl (some room) p b ≡ ok (ret, q)
    → (q.backend_types_bytes < pointer_size * q.num_backend_types)
      × (q.backend_types_bytes < room)
      × (add_backend_impl (some q.backend_types_bytes) p b ≡ fault)
unfolding add_backend_impl
add_backend_impl-overrun p q b room small e =
    (ground (arith, small, e), ground (arith, small, e), ground (arith, small, e))

pub first_named-append :
    {W : Type 0} (name : String) (bs : List (BackendImpl W)) (b : BackendImpl W)
    → first_named name (bs ++ b ∷ []) ≡ elim (first_named name bs) [
      | some old ↦ some old
      | none ↦ if str_eq name b.name then some b else none
    ]
unfolding first_named
first_named-append name [] b = refl
first_named-append name (c ∷ bs) b = ground (arith, first_named-append name bs b)

pub first_named-All :
    {W : Type 0} (P : BackendImpl W → Type 0) (name : String) (bs : List (BackendImpl W))
    {b : BackendImpl W}
    → first_named name bs ≡ some b
    → All P bs
    → P b
unfolding first_named
first_named-All P name [] h a = cc
first_named-All P name (c ∷ bs) {b} h a = elim (Bool-cases (str_eq name c.name)) [
  | inl e ↦ let same : c ≡ b = ground arith in rw (← same) a.0
  | inr e ↦ first_named-All P name bs {b = b} (ground arith) a.1
]
