-- ===== src/Tests/Interleaved.antt =====
-- Requests whose handlers are interleaved, at a provider with one phonebook of the dummy backend.
use mathlib.Core.List.{Perm}
use phonebook.Base.{ℕ, ◌≡◌, refl, some, List, [], ◌∷◌, ok, fault, ◌>>=◌}
use phonebook.Common.{id_eq, is_success}
use phonebook.Backend.Contract.{holds}
use phonebook.Backend.Dummy.{
  Memory, addresses, dummy_create_phonebook, new_context, dummy_destroy_phonebook, drop_context,
}
use phonebook.Uthash.Items.{lookup, remove}
use phonebook.Provider.{
  check_token, strcmp_eq, find_backend_impl, find_backend_from, find_phonebook, add_phonebook,
  remove_phonebook, close_if,
}
use phonebook.Provider.Owns.{ctxs}
use phonebook.Provider.Valid.{entries}
use phonebook.Provider.Threads.{
  Threads, at_rest, turn, begin_create_turn, end_create_turn, begin_destroy_turn, end_destroy_turn,
  begin_make, begin_destroy,
}
use phonebook.Provider.Threads.Begins.{SafeRun}
use phonebook.Provider.Threads.Safe.{turn-Safe}
use phonebook.Provider.Threads.Flow.{StartsFreeing, flow}
use phonebook.Provider.Threads.Flow.Turns.{turn-MayMove}
use phonebook.Provider.Threads.History.{Runs, start, next, Owns-Safe, Runs-owns}
use phonebook.Provider.Threads.Race.{destroy_twice-faults}
use phonebook.Tests.Libraries.{list_hash, json, allocator}
use phonebook.Tests.Fixtures.{
  id_of, Book, book, dummy, provider, provider_with, memory, provider-Owns, create_call,
  destroy_call,
}

abbrev State : Type 0
State = Threads (Memory ℕ) (List Book)

abbrev resting : State
resting = at_rest provider memory

turn-Safe_example : SafeRun addresses (turn (begin_destroy_turn (destroy_call 1)) resting)
unfolding lookup
turn-Safe_example =
    turn-Safe addresses (begin_destroy_turn (destroy_call 1)) resting
      (Owns-Safe addresses provider memory provider-Owns) (tt, refl)

turn-MayMove_example :
    (s : State) × (turn (begin_destroy_turn (destroy_call 1)) resting ≡ ok s)
    × StartsFreeing (destroy_call 1) (flow resting) (flow s)
unfolding lookup
turn-MayMove_example =
    turn-MayMove addresses (begin_destroy_turn (destroy_call 1)) resting
      (Owns-Safe addresses provider memory provider-Owns) (tt, refl)

destroy_twice-faults_example :
    (turn (begin_destroy_turn (destroy_call 1)) resting
      >>= turn (begin_destroy_turn (destroy_call 1)))
    ≡ fault
unfolding lookup check_token strcmp_eq id_eq
destroy_twice-faults_example =
    destroy_twice-faults json allocator (destroy_call 1) (destroy_call 1)
      (record { token = some "secret"; id = id_of 1 })
      (record { token = some "secret"; id = id_of 1 }) resting book
      (Owns-Safe addresses provider memory provider-Owns) refl refl refl refl refl refl refl refl

-- A phonebook is destroyed while another is created: the destruction begins first and ends last.
abbrev new_book : Book
new_book = record { fn = dummy; ctx = 1; id = id_of 2 }

abbrev state : List Book → List Book → List Book → ℕ → Memory ℕ → State
state l adding leaving n w = record {
  provider = provider_with l n;
  world = w;
  adding = adding;
  leaving = leaving;
}

abbrev memory_with : List (ℕ × ℕ) → Memory ℕ
memory_with l = record { contexts = l; stdout = [] }

abbrev final : State
final = state (new_book ∷ []) [] [] 1 (memory_with ((1, 0) ∷ []))

history : Runs resting final
unfolding turn begin_destroy begin_make check_token strcmp_eq find_phonebook lookup remove id_eq
    dummy_destroy_phonebook holds find_backend_impl find_backend_from dummy_create_phonebook
    new_context drop_context is_success add_phonebook remove_phonebook close_if
history =
    next (end_destroy_turn (id_of 1))
      (next (end_create_turn (id_of 2))
        (next (begin_create_turn create_call)
          (next (begin_destroy_turn (destroy_call 1)) start (tt, refl) refl)
          (tt, tt, refl, refl, refl) refl)
        tt refl)
      tt refl

Runs-owns_example : Perm (addresses final.world) (ctxs (entries final.provider))
Runs-owns_example = Runs-owns addresses provider memory final provider-Owns history refl refl
