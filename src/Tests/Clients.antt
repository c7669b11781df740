-- ===== src/Tests/Clients.antt =====
-- A client with one handle, and the sum that it asks for.
use phonebook.Base.{ℕ, ◌≡◌, ◌≢◌, refl, true, none, some, [], ◌∷◌, ok, fault, OnOk, arith}
use phonebook.Common.{success}
use phonebook.Client.Heap.{Client, PhonebookHandle, ClientHeap, find, drop_key}
use phonebook.Client.{client_finalize, phonebook_handle_release}
use phonebook.Client.Counted.{IsCounted, handles_of}
use phonebook.Client.Calls.{create, call, call-IsCounted}
use phonebook.Client.Sharing.{release_times, release_times-frees, release-client_finalize}
use phonebook.Tests.Libraries.{list_hash}
use phonebook.Tests.Fixtures.{id_of}

abbrev client : Client
client = record { mid = 1; hello_id = 5; sum_id = 6; num_phonebook_handles = 1 }

abbrev handle_with : ℕ → PhonebookHandle
handle_with n = record {
  client = 16;
  addr = 3;
  provider_id = 42;
  refcount = n;
  phonebook_id = id_of 1;
}

-- A client at the address 16 with a handle at 24, which has `n` users.
abbrev heap : ℕ → ClientHeap
heap n = record { clients = (16, client) ∷ []; handles = (24, handle_with n) ∷ [] }

live : ◌≢◌ {A = ℕ} 24 0
live e = omega arith

heap-IsCounted : IsCounted (heap 3)
unfolding find handles_of
heap-IsCounted = record {
  clients_keyed = (refl, tt);
  handles_keyed = (refl, tt);
  counted = λ c k e. ground arith;
}

call-IsCounted_example : OnOk IsCounted (call (create 32 true 16 3 42 (id_of 2)) (heap 3))
unfolding find
call-IsCounted_example =
    call-IsCounted (heap 3) heap-IsCounted (create 32 true 16 3 42 (id_of 2)) refl

release_times-frees_example :
    (h : ClientHeap) × (release_times 3 24 (heap 3) ≡ ok h)
    × (find 24 h.handles ≡ none)
    × (find 16 h.clients ≡ some (record client { num_phonebook_handles = 0 }))
    × (phonebook_handle_release 24 h ≡ fault)
unfolding find
release_times-frees_example =
    release_times-frees 24 live 2 (heap 3) (handle_with 3) client (refl, tt) refl refl (omega arith)
      refl

release-client_finalize_example :
    phonebook_handle_release 24 (record { clients = []; handles = (24, handle_with 1) ∷ [] })
    ≡ fault
unfolding find client_finalize drop_key
release-client_finalize_example =
    release-client_finalize 24 live (heap 1) _ (handle_with 1) {ret = success} (refl, tt) refl refl
      refl
