-- ===== src/Tests/Providers.antt =====
-- Requests to a provider that holds one phonebook of the dummy backend.
use phonebook.Base.{
  fault, ◌<◌, ◌∷◌, ◌≢◌, ◌*◌, ℕ, ◌≡◌, refl, some, List, [], ok, String, arith, if◌then◌else◌,
}
use phonebook.Common.{PhonebookId, is_success, success, err_invalid_token, id_eq}
use phonebook.Backend.Dummy.{dummy_create_phonebook, new_context, Memory, addresses}
use phonebook.Provider.{
  find_backend_from, add_phonebook, strcmp_eq, check_token, Provider, find_backend_impl,
  find_phonebook, add_backend_impl, pointer_size,
}
use phonebook.Provider.Valid.{entries, added}
use phonebook.Uthash.Items.{lookup}
use phonebook.Provider.Handlers.{
  make_phonebook_ult, make_context, store_phonebook, Served, finish, closed, listed,
  create_phonebook_ult, destroy_phonebook_ult, list_phonebooks_ult, respond, free_input,
  destroy_handle,
}
use phonebook.Provider.Owns.{Owns}
use phonebook.Provider.Requests.{create_phonebook, destroy_phonebook, handle, reply, handle-Owns}
use phonebook.Provider.Directory.{Allowed, Refines}
use phonebook.Provider.Refine.{handle-Refines}
use phonebook.Provider.RoundTrip.{create_phonebook_ult-created, destroy-create}
use phonebook.Provider.Access.{
  wrong_token_refused, error_keeps_provider, trace, trace-finish, is_hello,
}
use phonebook.Provider.Backends.{
  first_named, find_backend_impl-first_named, add_backend_impl-overrun,
}
use phonebook.Provider.Listing.{list_phonebooks_ult-listed}
use phonebook.Types.{ClosePhonebookOut}
use phonebook.Admin.Creating.{remote_create, remote_open, Creates, create_phonebook-Told}
use phonebook.Tests.Libraries.{list_hash}
use phonebook.Tests.Fixtures.{
  id_of, dummy, book, Book, provider, memory, provider_with, provider-IsValid, provider-Owns,
  create_call, destroy_call, bad_call, list_call,
}

abbrev State : Type 0
State = Provider (Memory ℕ) (List Book)

-- A creation, which takes the next address, and what it leaves.
abbrev new_book : Book
new_book = record { fn = dummy; ctx = 9; id = id_of 2 }

abbrev two_books : State
two_books = provider_with (book ∷ new_book ∷ []) 2

abbrev two_contexts : Memory ℕ
two_contexts = record { contexts = (8, 0) ∷ (9, 0) ∷ []; stdout = [] }

handle-Owns_example :
    (s : State × Memory ℕ) × (handle (create_phonebook create_call) provider memory ≡ ok s)
    × Owns addresses s.0 s.1
unfolding lookup id_eq
handle-Owns_example =
    handle-Owns addresses (create_phonebook create_call) provider memory provider-Owns
      (tt, tt, refl, refl)

create_step : handle (create_phonebook create_call) provider memory ≡ ok (two_books, two_contexts)
unfolding handle create_phonebook_ult make_phonebook_ult make_context store_phonebook add_phonebook
    find_phonebook lookup check_token strcmp_eq find_backend_impl find_backend_from
    dummy_create_phonebook new_context is_success id_eq
create_step = refl

handle-Refines_example : Refines (Allowed (create_phonebook create_call)) provider two_books
handle-Refines_example =
    handle-Refines (create_phonebook create_call) provider memory provider-IsValid create_step

create_phonebook_ult-created_example :
    (create_phonebook_ult create_call provider memory
      ≡ ok (
          finish
            (record { ret = success; id = some (id_of 2) })
            (added provider new_book)
            two_contexts))
    × (entries (added provider new_book) ≡ book ∷ new_book ∷ [])
    × ((k : PhonebookId)
        → find_phonebook (added provider new_book) k
          ≡ (if id_eq (id_of 2) k then some new_book else find_phonebook provider k))
unfolding lookup id_eq check_token strcmp_eq first_named dummy_create_phonebook
create_phonebook_ult-created_example =
    create_phonebook_ult-created provider memory provider-IsValid create_call _ "dummy" dummy 9
      two_contexts refl refl refl refl refl refl refl

destroy-create_example :
    (s : Served (Memory ℕ) (List Book) ClosePhonebookOut) × (destroy_phonebook_ult
        (destroy_call 2)
        (added provider new_book)
        two_contexts
      ≡ ok s)
    × (s.actions ≡ (finish (closed success) provider memory).actions)
    × (entries s.provider ≡ book ∷ [])
    × (addresses s.world ≡ 8 ∷ [])
unfolding lookup id_eq check_token strcmp_eq first_named dummy_create_phonebook
destroy-create_example =
    destroy-create provider memory provider-IsValid create_call _ "dummy" dummy 9 two_contexts refl
      refl refl refl refl refl refl addresses provider-Owns (destroy_call 2) refl

wrong_token_refused_example :
    (reply (destroy_phonebook bad_call) provider memory ≡ ok (some err_invalid_token))
    × (handle (destroy_phonebook bad_call) provider memory ≡ ok (provider, memory))
wrong_token_refused_example =
    wrong_token_refused (destroy_phonebook bad_call) provider memory "secret" "guess" refl refl
      other_token
  where
    other_token : ◌≢◌ {A = String} "secret" "guess"
    other_token e = cc

error_keeps_provider_example : provider ≡ provider
unfolding reply handle destroy_phonebook_ult check_token strcmp_eq is_success
error_keeps_provider_example =
    error_keeps_provider (destroy_phonebook bad_call) provider memory {ret = err_invalid_token}
      {v = memory} refl refl refl refl

trace-finish_example : respond tt ∷ free_input ∷ destroy_handle ∷ [] ≡ (
    if is_hello (destroy_phonebook bad_call)
    then destroy_handle ∷ []
    else respond tt ∷ free_input ∷ destroy_handle ∷ [])
unfolding trace destroy_phonebook_ult check_token strcmp_eq
trace-finish_example = trace-finish (destroy_phonebook bad_call) provider memory refl

find_backend_impl-first_named_example :
    find_backend_impl provider (some "dummy") ≡ ok (first_named "dummy" (dummy ∷ []))
find_backend_impl-first_named_example =
    find_backend_impl-first_named provider "dummy" provider-IsValid

add_backend_impl-overrun_example :
    (2 < pointer_size * 2) × (2 < 24) × (add_backend_impl (some 2) provider dummy ≡ fault)
unfolding add_backend_impl
add_backend_impl-overrun_example =
    add_backend_impl-overrun provider
      (record provider {
        num_backend_types = 2;
        backend_types_bytes = 2;
        backend_types = dummy ∷ dummy ∷ [];
      })
      dummy 24 (omega arith) refl

list_phonebooks_ult-listed_example :
    list_phonebooks_ult list_call provider memory
    ≡ ok (finish (listed 1 (some (id_of 1 ∷ []))) provider memory)
unfolding check_token strcmp_eq
list_phonebooks_ult-listed_example =
    list_phonebooks_ult-listed list_call _ provider memory provider-IsValid (omega arith) refl refl
      refl

create_phonebook-Told_example :
    Creates addresses
      (id_of 9)
      create_call
      provider
      memory
      provider-Owns
      (remote_create (id_of 9) create_call provider memory)
    × Creates addresses
        (id_of 9)
        create_call
        provider
        memory
        provider-Owns
        (remote_open (id_of 9) create_call provider memory)
unfolding lookup id_eq
create_phonebook-Told_example =
    create_phonebook-Told addresses (id_of 9) create_call provider memory provider-Owns
      (tt, tt, refl, refl) refl
