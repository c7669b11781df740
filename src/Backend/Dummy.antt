-- ===== src/Backend/Dummy.antt =====
-- src/dummy/dummy-backend.c: the backend that keeps its configuration and adds two numbers.
pub mod Contract
use phonebook.Base.{
  ℕ, ◌+◌, ◌%◌, ◌^◌, ◌≡◌, ◌≢◌, refl, Bool, true, false, Option, none, some, List, [], ◌∷◌, ◌++◌, Run,
  ok, fault, map, arith, ◌==◌, if◌then◌else◌, String, Bool-cases, Option-cases, inl, inr,
}
use mathlib.Core.List.{map-append}
use phonebook.Common.{Return, success, err_invalid_config, is_success}
use phonebook.Backend.{BackendImpl, Ptr, null, Cmd}
use phonebook.Backend.Contract.{holds}
use phonebook.Json.{Json}

-- The memory and the output of the process, as far as the backend touches them: the addresses of
-- its live contexts, each with its `config`, and the lines printed.
pub record Memory (J : Type 0) : Type 0 where
  pub contexts : List (Ptr × J)
  pub stdout : List String

abbrev pub addresses : {J : Type 0} → Memory J → List Ptr
addresses w = map (λ c. c.0) w.contexts

-- calloc, given the addresses in use; NULL where memory is out.
pub record Allocator : Type 0 where
  pub calloc : List Ptr → Ptr
  pub fresh : (used : List Ptr) → holds (calloc used) used ≡ false

-- drops the context at an address
unfoldable pub drop_context : {J : Type 0} → Ptr → List (Ptr × J) → List (Ptr × J)
drop_context a [] = []
drop_context a (c ∷ l) = if c.0 == a then l else c ∷ drop_context a l

-- int32_t x + y on bit patterns; the sum wraps.
unfoldable pub add32 : ℕ → ℕ → ℕ
add32 x y = (x + y) % 2 ^ 32

module _ {J : Type 0} (json : Json J) (a : Allocator) where
  -- From the calloc of the context to the end; a failed calloc is written through.
  unfoldable pub new_context : J → Cmd (Memory J) (Return × Ptr)
  new_context config w =
      let ctx = a.calloc (addresses w) in
      if ctx == null
      then fault
      else ok ((success, ctx), record w { contexts = w.contexts ++ (ctx, config) ∷ [] })

  -- `*context` is left NULL on an error.
  unfoldable pub dummy_create_phonebook : Option String → Cmd (Memory J) (Return × Ptr)
  unfolding new_context
  dummy_create_phonebook none w = new_context json.new_object w
  dummy_create_phonebook (some config_str) w = elim (json.parse config_str) [
    | none ↦ ok ((err_invalid_config, null), w)
    | some config ↦ new_context config w
  ]

  unfoldable pub dummy_open_phonebook : Option String → Cmd (Memory J) (Return × Ptr)
  unfolding new_context
  dummy_open_phonebook none w = new_context json.new_object w
  dummy_open_phonebook (some config_str) w = elim (json.parse config_str) [
    | none ↦ ok ((err_invalid_config, null), w)
    | some config ↦ new_context config w
  ]

-- A context that is not live is read through a dangling pointer.
module _ {J : Type 0} where
  unfoldable pub dummy_close_phonebook : Ptr → Cmd (Memory J) Return
  unfolding drop_context
  dummy_close_phonebook ctx w =
      if holds ctx (addresses w)
      then ok (success, record w { contexts = drop_context ctx w.contexts })
      else fault

  unfoldable pub dummy_destroy_phonebook : Ptr → Cmd (Memory J) Return
  unfolding drop_context
  dummy_destroy_phonebook ctx w =
      if holds ctx (addresses w)
      then ok (success, record w { contexts = drop_context ctx w.contexts })
      else fault

  unfoldable pub dummy_get_config : Ptr → Cmd (Memory J) String
  dummy_get_config ctx w = ok ("{}", w)

  unfoldable pub dummy_say_hello : Ptr → Cmd (Memory J) (Unit {0})
  dummy_say_hello ctx w =
      ok (tt, record w { stdout = w.stdout ++ "Hello World from Dummy phonebook\n" ∷ [] })

  unfoldable pub dummy_compute_sum : Ptr → ℕ → ℕ → Cmd (Memory J) ℕ
  unfolding add32
  dummy_compute_sum ctx x y w = ok (add32 x y, w)

module _ {J : Type 0} (json : Json J) (a : Allocator) where
  abbrev pub dummy_backend : BackendImpl (Memory J)
  dummy_backend = record {
    name = "dummy";
    create_phonebook = dummy_create_phonebook json a;
    open_phonebook = dummy_open_phonebook json a;
    close_phonebook = dummy_close_phonebook;
    destroy_phonebook = dummy_destroy_phonebook;
    get_config = dummy_get_config;
    hello = dummy_say_hello;
    sum = dummy_compute_sum;
  }
