-- ===== src/Backend/Dummy/Contract.antt =====
-- The dummy backend (dummy-backend.c) and the contract of a backend.
use phonebook.Base.{
  ◌≡◌, ◌≢◌, refl, none, some, List, [], ◌∷◌, ok, arith, map, ◌==◌, Bool-cases, Option-cases, inl,
  inr,
}
use mathlib.Core.List.{map-append}
use phonebook.Common.{Return, is_success}
use phonebook.Backend.{Run, Ptr, null}
use phonebook.Backend.Contract.{Contract, Makes, MadeIf, erase}
use phonebook.Json.{Json}
use phonebook.Backend.Dummy.{
  Memory, addresses, Allocator, drop_context, new_context, dummy_create_phonebook,
  dummy_open_phonebook, dummy_close_phonebook, dummy_destroy_phonebook, dummy_get_config,
  dummy_say_hello, dummy_compute_sum, dummy_backend,
}

pub drop_context-erase :
    {J : Type 0} (ctx : Ptr) (l : List (Ptr × J))
    → map (λ c. c.0) (drop_context ctx l) ≡ erase ctx (map (λ c. c.0) l)
unfolding drop_context erase
drop_context-erase ctx [] = refl
drop_context-erase ctx (c ∷ l) = ground (arith, drop_context-erase ctx l)

module _ {J : Type 0} (json : Json J) (a : Allocator)
    (memory : (used : List Ptr) → a.calloc used ≢ null) where
  abbrev Made : Memory J → Run ((Return × Ptr) × Memory J) → Type 0
  Made w r =
      (s : (Return × Ptr) × Memory J) × (r ≡ ok s)
      × MadeIf (is_success s.0.0) (addresses w) s.0.1 (addresses s.1)

  new_context-Made : (config : J) (w : Memory J) → Made w (new_context json a config w)
  unfolding new_context is_success
  new_context-Made config w = elim (Bool-cases (a.calloc (addresses w) == null)) [
    | inl e ↦ absurd (memory (addresses w) (ground arith))
    | inr e ↦ rw e (_, refl, (a.fresh (addresses w), map-append _ _ _))
  ]

  create-Makes : Makes addresses (dummy_create_phonebook json a)
  unfolding dummy_create_phonebook is_success
  create-Makes none w = new_context-Made json.new_object w
  create-Makes (some s) w = elim (Option-cases (json.parse s)) [
    | inl e ↦ rw (e, dummy_create_phonebook) (_, refl, refl)
    | inr (config, e) ↦ rw (e, dummy_create_phonebook) (new_context-Made config w)
  ]

  open-Makes : Makes addresses (dummy_open_phonebook json a)
  unfolding dummy_open_phonebook is_success
  open-Makes none w = new_context-Made json.new_object w
  open-Makes (some s) w = elim (Option-cases (json.parse s)) [
    | inl e ↦ rw (e, dummy_open_phonebook) (_, refl, refl)
    | inr (config, e) ↦ rw (e, dummy_open_phonebook) (new_context-Made config w)
  ]

  -- Where calloc never returns NULL, the dummy backend keeps the contract: a context is made exactly
  -- when YP_SUCCESS is returned, at an address not in use; close and destroy give one back; and the
  -- other functions change no context.
  pub dummy_backend-Contract : Contract addresses (dummy_backend json a)
  unfolding dummy_close_phonebook dummy_destroy_phonebook dummy_get_config dummy_say_hello
      dummy_compute_sum
  dummy_backend-Contract = record {
    creates = create-Makes;
    opens = open-Makes;
    closes = λ ctx w h. rw h (_, refl, drop_context-erase ctx w.contexts);
    destroys = λ ctx w h. rw h (_, refl, drop_context-erase ctx w.contexts);
    configures = λ ctx w h. (_, refl, refl);
    greets = λ ctx w h. (_, refl, refl);
    sums = λ x y ctx w h. (_, refl, refl);
  }
