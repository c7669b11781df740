-- ===== src/Remote/Handled/Asking.antt =====
-- The handlers of provider.c that list, greet and add, of a provider of dummy phonebooks.
use Prim.Native.Nat.{min}
use phonebook.Base.{
  ℕ, ◌+◌, ◌*◌, ◌^◌, ◌%◌, ◌≤◌, ◌<◌, ◌≡◌, ◌≢◌, refl, ◌∙◌, true, Option, none, some, String, List, [],
  ◌∷◌, ◌++◌, ok, arith, length, length-map, if◌then◌else◌, Run-cases, Bool-cases, inl, inr,
}
use phonebook.Base.Words.{u64_mod}
use phonebook.Common.{success, err_invalid_phonebook, PhonebookId, is_success}
use phonebook.Backend.{Ptr, null}
use phonebook.Backend.Dummy.{Memory, Allocator, dummy_say_hello, dummy_compute_sum, add32}
use phonebook.Json.{Json}
use phonebook.Uthash.{Uthash}
use phonebook.Provider.{Provider}
use phonebook.Provider.Valid.{entries, find_phonebook-lookup}
use phonebook.Provider.Handlers.{
  respond, free_input, destroy_handle, list_phonebooks_ult, hello_ult, sum_ult,
}
use phonebook.Provider.Listing.{list_phonebooks_ult-listed}
use phonebook.Provider.Owns.{All-lookup}
use phonebook.Remote.{Reply, summed, handler_of, list_command}
use phonebook.Remote.Spec.{Directory, knows, allows, act}
use phonebook.Remote.Stands.{
  Stands, dummy, parses, check_token-allows, found_phonebook, no_phonebook,
}
use phonebook.Remote.Moves.{printed-Stands}
use phonebook.Remote.Handled.{IsSummed, IsListed, list_shown, Agrees}

module _ {J T : Type 0} ⦃H : Uthash (Memory J) T⦄ (json : Json J) (a : Allocator) where
  module _ (memory : (used : List Ptr) → a.calloc used ≢ null)
      (s : Provider (Memory J) T × Memory J) (d : Directory) (r : Stands json a s d) where
    -- The reply to a sum.
    abbrev pub sum_reply : PhonebookId → (x y : ℕ) → Reply
    sum_reply k x y =
        if knows k d.ids
        then summed success (some ((x + y) % 2 ^ 32))
        else summed err_invalid_phonebook none

    pub sum-Agrees :
        (uuid k : PhonebookId) (x y : ℕ)
        → Agrees json a
            (λ out. summed out.ret out.result)
            (λ out. IsSummed out.ret out.result)
            (handler_of sum_ult uuid (some (record { phonebook_id = k; x = x; y = y })) s)
            (ok (sum_reply k x y, d))
    unfolding sum_ult dummy_compute_sum add32 is_success
    sum-Agrees uuid k x y = elim (Bool-cases (knows k d.ids)) [
      | inr n ↦
          rw (n, sum_ult, find_phonebook-lookup s.0 k r.owns.valid, no_phonebook json a r k n)
            (_, _, refl, refl, refl, r)
      | inl y' ↦
          let (b, found) = found_phonebook json a r k y' in
          let same = All-lookup (λ b. b.fn ≡ dummy json a) k (entries s.0) found r.dummies in
          rw (y', sum_ult, find_phonebook-lookup s.0 k r.owns.valid, found, same)
            (_, _, refl, refl, (refl, omega arith), r)
    ]

    list_accepted :
        (capacity : ℕ) (token : Option String) (uuid : PhonebookId)
        → length d.ids < u64_mod
        → allows d.token token ≡ ok true
        → handler_of list_phonebooks_ult uuid
            (some (record { token = token; max_ids = capacity }))
            s
          ≡ ok (
            respond (record {
              ret = success;
              count = some (min (length d.ids) capacity);
              ids = some d.ids;
            })
                ∷ free_input
                ∷ destroy_handle
                ∷ [],
            s,
          )
    list_accepted capacity token uuid small allowed =
        let size : length (entries s.0) ≡ length d.ids =
          rw (← r.ids, length-map (entries s.0) (λ b. b.id)) refl in
        rw
          (
            list_phonebooks_ult-listed
                (record {
                  input = some (record { token = token; max_ids = capacity });
                  uuid = uuid;
                  calloc_ok = true;
                })
                _ s.0 s.1 r.owns.valid (rw size small) refl refl
                (check_token-allows json a r token ∙ allowed),
            size,
            r.ids,
          )
          refl

    pub list-Agrees :
        (unset capacity : ℕ) (token : Option String) (uuid : PhonebookId)
        → 16 * length d.ids < u64_mod
        → Agrees json a
            (λ out. list_shown unset out.ret out.count out.ids)
            (λ out. IsListed capacity out.ret out.count out.ids)
            (handler_of list_phonebooks_ult uuid
              (some (record { token = token; max_ids = capacity }))
              s)
            (act (parses json) unset (list_command token capacity) d)
    unfolding list_phonebooks_ult act is_success
    list-Agrees unset capacity token uuid small =
        let checked = check_token-allows json a r token in
        elim (Run-cases (allows d.token token)) [
          | inr e ↦ rw (checked, e, act) refl
          | inl (allowed, e) ↦ elim (Bool-cases allowed) [
            | inr n ↦ rw (checked, e, n, act) (_, _, refl, refl, refl, r)
            | inl y ↦
                let size : min (length d.ids) capacity ≤ length d.ids = omega arith in
                let room : min (length d.ids) capacity ≤ capacity = omega arith in
                rw (list_accepted capacity token uuid (omega arith) (rw y at e), act, e, y)
                  (_, _, refl, refl, (refl, room, size, omega arith, r.uuids), r)
          ]
        ]

    pub hello-Agrees :
        (uuid k : PhonebookId)
        → (s' : Provider (Memory J) T × Memory J) × (handler_of hello_ult uuid
              (some (record { phonebook_id = k }))
              s
            ≡ ok (destroy_handle ∷ [], s'))
          × Stands json a s' (
              if knows k d.ids
              then record d { printed = d.printed ++ "Hello World from Dummy phonebook\n" ∷ [] }
              else d)
    unfolding hello_ult dummy_say_hello
    hello-Agrees uuid k = elim (Bool-cases (knows k d.ids)) [
      | inr n ↦
          rw (n, hello_ult, find_phonebook-lookup s.0 k r.owns.valid, no_phonebook json a r k n)
            (_, refl, r)
      | inl y' ↦
          let (b, found) = found_phonebook json a r k y' in
          let same = All-lookup (λ b. b.fn ≡ dummy json a) k (entries s.0) found r.dummies in
          rw (y', hello_ult, find_phonebook-lookup s.0 k r.owns.valid, found, same)
            (_, refl, printed-Stands json a memory r _)
    ]
