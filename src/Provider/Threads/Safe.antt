-- ===== src/Provider/Threads/Safe.antt =====
-- The handlers of provider.c interleaved, turn by turn.
use phonebook.Base.{◌≡◌, refl, false, none, List, Option-cases, Bool-cases, inl, inr}
use phonebook.Backend.{Ptr}
use phonebook.Uthash.{Uthash}
use phonebook.Uthash.Items.{lookup, lookup-own_id}
use phonebook.Types.{ListPhonebooksIn, HelloIn, SumIn}
use phonebook.Provider.{close_if}
use phonebook.Provider.Valid.{
  entries, add_phonebook_new, find_phonebook-lookup, remove_phonebook_found,
}
use phonebook.Provider.Listing.{collect_ids_all}
use phonebook.Provider.Handlers.{Call, list_phonebooks_ult, hello_ult, sum_ult}
use phonebook.Provider.Lifecycle.{check_token-total}
use phonebook.Provider.Threads.{
  Threads, Turn, turn, begin_create_turn, begin_open_turn, end_create_turn, begin_destroy_turn,
  begin_close_turn, end_destroy_turn, end_close_turn, list_turn, hello_turn, sum_turn,
}
use phonebook.Provider.Threads.Moves.{
  Safe, Safe-same, entry_alive, end_adding-Safe, end_leaving-Safe,
}
use phonebook.Provider.Threads.Begins.{
  ListReady, HelloReady, SumReady, Ready, SafeRun, begin_make-Safe, begin_destroy-Safe,
  begin_close-Safe,
}

module _ {W T : Type 0} ⦃H : Uthash W T⦄ where
  module _ (alive : W → List Ptr) where
    module _ (s : Threads W T) (i : Safe alive s) where
      list-Safe :
          (c : Call ListPhonebooksIn) → ListReady s c c.input → SafeRun alive (turn (list_turn c) s)
      unfolding turn list_phonebooks_ult
      list-Safe c h = elim (Option-cases c.input) [
        | inl e ↦ rw (e, turn) (_, refl, i)
        | inr (input, e) ↦
            let (token, calloc, small) = rw e at h in
            let (valid, checked) = check_token-total s.provider input.token token in
            elim (Bool-cases valid) [
              | inl v ↦
                  rw (e, turn, checked, v, calloc, collect_ids_all s.provider i.valid small)
                    (_, refl, i)
              | inr v ↦ rw (e, turn, checked, v) (_, refl, i)
            ]
      ]

      hello-Safe : (c : Call HelloIn) → HelloReady s c.input → SafeRun alive (turn (hello_turn c) s)
      unfolding turn hello_ult
      hello-Safe c h = elim (Option-cases c.input) [
        | inl e ↦ rw (e, turn) (_, refl, i)
        | inr (input, e) ↦
            let g = rw e at h in
            elim (Option-cases (lookup input.phonebook_id (entries s.provider))) [
              | inl missing ↦
                  rw
                    (
                      e,
                      turn,
                      hello_ult,
                      find_phonebook-lookup s.provider input.phonebook_id i.valid,
                      missing,
                    )
                    (_, refl, i)
              | inr (b, found) ↦
                  let (k, live) = entry_alive alive s i input.phonebook_id g found in
                  let (r, run, same) = k.greets b.ctx s.world live in
                  rw
                    (
                      e,
                      turn,
                      hello_ult,
                      find_phonebook-lookup s.provider input.phonebook_id i.valid,
                      found,
                      run,
                    )
                    (_, refl, Safe-same alive r.1 same i)
            ]
      ]

      sum-Safe : (c : Call SumIn) → SumReady s c.input → SafeRun alive (turn (sum_turn c) s)
      unfolding turn sum_ult
      sum-Safe c h = elim (Option-cases c.input) [
        | inl e ↦ rw (e, turn) (_, refl, i)
        | inr (input, e) ↦
            let g = rw e at h in
            elim (Option-cases (lookup input.phonebook_id (entries s.provider))) [
              | inl missing ↦
                  rw
                    (
                      e,
                      turn,
                      sum_ult,
                      find_phonebook-lookup s.provider input.phonebook_id i.valid,
                      missing,
                    )
                    (_, refl, i)
              | inr (b, found) ↦
                  let (k, live) = entry_alive alive s i input.phonebook_id g found in
                  let (r, run, same) = k.sums input.x input.y b.ctx s.world live in
                  rw
                    (
                      e,
                      turn,
                      sum_ult,
                      find_phonebook-lookup s.provider input.phonebook_id i.valid,
                      found,
                      run,
                    )
                    (_, refl, Safe-same alive r.1 same i)
            ]
      ]

    -- Whatever the handlers have done so far, and in whatever order: in a safe state every ready turn
    -- ends, with no fault and no use of a context that is not alive, and the state is safe again.
    pub turn-Safe :
        (t : Turn) (s : Threads W T) → Safe alive s → Ready s t → SafeRun alive (turn t s)
    unfolding turn close_if
    turn-Safe (begin_create_turn c) s i h =
        begin_make-Safe alive s i (λ b. b.create_phonebook) c (λ b k. k.creates) h
    turn-Safe (begin_open_turn c) s i h =
        begin_make-Safe alive s i (λ b. b.open_phonebook) c (λ b k. k.opens) h
    turn-Safe (end_create_turn id) s i h = elim (Option-cases (lookup id s.adding)) [
      | inl e ↦ rw (turn, e) (_, refl, i)
      | inr (b, e) ↦
          let new : lookup b.id (entries s.provider) ≡ none =
            i.lists.waits b.id (lookup-own_id id s.adding e) in
          rw (turn, e, add_phonebook_new s.provider b i.valid new)
            (_, refl, end_adding-Safe alive s i id b e)
    ]
    turn-Safe (begin_destroy_turn c) s i h = begin_destroy-Safe alive s i c h
    turn-Safe (begin_close_turn c) s i h = begin_close-Safe alive s i c h
    turn-Safe (end_destroy_turn id) s i h = elim (Option-cases (lookup id s.leaving)) [
      | inl e ↦ rw (turn, e) (_, refl, i)
      | inr (b, e) ↦
          rw
            (
              turn,
              e,
              remove_phonebook_found s.provider id b false s.world i.valid (i.lists.leaves id e),
            )
            (_, refl, end_leaving-Safe alive s i id b e)
    ]
    turn-Safe (end_close_turn id) s i h = elim (Option-cases (lookup id s.leaving)) [
      | inl e ↦ rw (turn, e) (_, refl, i)
      | inr (b, e) ↦ rw (turn, e) (_, refl, end_leaving-Safe alive s i id b e)
    ]
    turn-Safe (list_turn c) s i h = list-Safe s i c h
    turn-Safe (hello_turn c) s i h = hello-Safe s i c h
    turn-Safe (sum_turn c) s i h = sum-Safe s i c h
