-- ===== src/Remote/Handled.antt =====
-- What the handlers of provider.c, of a provider of dummy phonebooks, are to do for a request.
pub mod Making
pub mod Freeing
pub mod Asking
use Prim.Native.Nat.{min}
use phonebook.Base.{
  ℕ, ◌+◌, ◌*◌, ◌^◌, ◌%◌, ◌≤◌, ◌<◌, ◌≡◌, ◌≢◌, refl, ◌∙◌, true, false, Option, none, some, String,
  List, [], ◌∷◌, ◌++◌, Run, ok, fault, arith, length, length-map, take, ◌==◌, if◌then◌else◌,
  Run-cases, Bool-cases, inl, inr,
}
use phonebook.Base.Words.{u64_mod}
use phonebook.Common.{
  Return, success, err_invalid_phonebook, err_from_mercury, PhonebookId, is_success,
}
use phonebook.Backend.{Ptr, BackendImpl, Cmd, null}
use phonebook.Backend.Contract.{All, holds}
use phonebook.Backend.Dummy.{
  Memory, Allocator, addresses, dummy_create_phonebook, dummy_close_phonebook,
  dummy_destroy_phonebook, dummy_say_hello, dummy_compute_sum, add32, drop_context,
}
use phonebook.Backend.Dummy.Contract.{drop_context-erase}
use phonebook.Json.{Json}
use phonebook.Uthash.{Uthash}
use phonebook.Uthash.Items.{Phonebook, lookup}
use phonebook.Types.Wire.{has_bytes}
use phonebook.Types.RoundTrip.{IsUuid}
use phonebook.Provider.{Provider, close_if}
use phonebook.Provider.Valid.{
  entries, removed, add_phonebook_new, find_phonebook-lookup, remove_phonebook_absent,
  remove_phonebook_found,
}
use phonebook.Provider.Handlers.{
  Action, respond, free_input, destroy_handle, make_phonebook_ult, make_context, store_phonebook,
  close_phonebook_ult, destroy_phonebook_ult, list_phonebooks_ult, hello_ult, sum_ult,
}
use phonebook.Provider.Listing.{list_phonebooks_ult-listed}
use phonebook.Provider.Owns.{holds-lookup, All-lookup}
use phonebook.Admin.{create_in, close_in}
use phonebook.Remote.{Reply, made, freed, listed, summed, handler_of, list_command}
use phonebook.Remote.Spec.{Directory, knows, without, allows, is_dummy, accepts, make, free, act}
use phonebook.Remote.Stands.{
  Stands, dummy, parses, check_token-allows, find_backend_impl-is_dummy, found_phonebook,
  no_phonebook, dummy_create_phonebook-accepted, dummy_create_phonebook-refused,
}
use phonebook.Remote.Moves.{made-Stands, freed-Stands, printed-Stands}

-- An id comes with YP_SUCCESS, and with nothing else.
abbrev pub IsMade : Return → Option PhonebookId → Type 0
IsMade ret none = is_success ret ≡ false
IsMade ret (some id) = (ret ≡ success) × IsUuid id

-- A sum comes with YP_SUCCESS, and with nothing else.
abbrev pub IsSummed : Return → Option ℕ → Type 0
IsSummed ret none = is_success ret ≡ false
IsSummed ret (some n) = (ret ≡ success) × (n < 2 ^ 32)

-- A list comes with YP_SUCCESS, at most as many ids as were asked for.
abbrev pub IsListed : (capacity : ℕ) → Return → Option ℕ → Option (List PhonebookId) → Type 0
IsListed capacity ret none none = is_success ret ≡ false
IsListed capacity ret (some n) (some ids) =
    (ret ≡ success) × (n ≤ capacity) × (n ≤ length ids) × (16 * n < u64_mod) × All IsUuid ids
IsListed capacity ret _ _ = ⊥

-- The reply that a client makes of a list answer; `unset` is a count that was not assigned.
abbrev pub list_shown : (unset : ℕ) → Return → Option ℕ → Option (List PhonebookId) → Reply
list_shown unset ret (some n) (some ids) =
    listed ret (some (record { count = n; ids = take n ids }))
list_shown unset ret _ _ = listed (if has_bytes unset then err_from_mercury else ret) none

module _ {J T : Type 0} ⦃H : Uthash (Memory J) T⦄ (json : Json J) (a : Allocator) where
  -- A handler faults where the directory does, or it answers what the directory replies, and what it
  -- leaves stands for the directory afterwards.
  abbrev pub Agrees :
      {Out : Type 0} (shown : Out → Reply) (Good : Out → Type 0)
      → Run (List (Action Out) × (Provider (Memory J) T × Memory J))
      → Run (Reply × Directory)
      → Type 0
  Agrees shown Good r fault = r ≡ fault
  Agrees {Out} shown Good r (ok (reply, d)) =
      (out : Out) × (s : Provider (Memory J) T × Memory J) × (r
        ≡ ok (respond out ∷ free_input ∷ destroy_handle ∷ [], s))
      × (shown out ≡ reply)
      × Good out
      × Stands json a s d
