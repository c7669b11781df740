-- ===== src/Client.antt =====
-- src/client.h and src/client.c: clients and phonebook handles, which are counted by their users, on
-- an explicit heap. (The declarations are in include/YP/YP-client.h and include/YP/YP-phonebook.h.)
pub mod Heap
pub mod Counted
pub mod Calls
pub mod Sharing
pub mod Rpc
pub mod Init
use phonebook.Base.{
  ℕ, zero, suc, ◌≡◌, Bool, true, false, Option, none, some, List, [], ◌∷◌, Run, ok, fault, ◌>>=◌,
  ◌==◌, if◌then◌else◌,
}
use phonebook.Base.Words.{incr64, decr64}
use phonebook.Backend.{Ptr, null}
use phonebook.Common.{
  Return, success, err_allocation, err_invalid_args, err_from_mercury, PhonebookId,
}
use Heap.{Client, PhonebookHandle, ClientHeap, find, put, drop_key}

-- YP_client_init from the allocation on: `ptr` is what calloc returns, `hello_id` and `sum_id` the
-- ids that margo gives, found or registered. The result is the code and `*client`.
unfoldable pub client_init :
    (ptr : Ptr) (mid hello_id sum_id : ℕ) → ClientHeap → Run ((Return × Option Ptr) × ClientHeap)
client_init ptr mid hello_id sum_id h =
    if ptr == null
    then ok ((err_allocation, none), h)
    else ok (
      (success, some ptr),
      record h {
        clients =
            (
              ptr,
              record { mid = mid; hello_id = hello_id; sum_id = sum_id; num_phonebook_handles = 0 },
            )
            ∷ h.clients;
      },
    )

-- YP_client_finalize: a client with handles is freed too, after a warning.
unfoldable pub client_finalize : Ptr → ClientHeap → Run (Return × ClientHeap)
client_finalize client h = elim (find client h.clients) [
  | none ↦ fault
  | some c ↦ ok (success, record h { clients = drop_key client h.clients })
]

-- YP_phonebook_handle_create: `ptr` is what calloc returns, `dup_ok` whether margo_addr_dup gives
-- HG_SUCCESS.
unfoldable pub phonebook_handle_create :
    (ptr : Ptr) (dup_ok : Bool) (client : Ptr) (addr provider_id : ℕ)
    → PhonebookId
    → ClientHeap
    → Run ((Return × Option Ptr) × ClientHeap)
phonebook_handle_create ptr dup_ok client addr provider_id phonebook_id h =
    if client == null
    then ok ((err_invalid_args, none), h)
    else if ptr == null
    then ok ((err_allocation, none), h)
    else elim (find client h.clients) [
      | none ↦ fault
      | some c ↦
          if dup_ok
          then ok (
            (success, some ptr),
            record {
              clients =
                  put client (record c { num_phonebook_handles = incr64 c.num_phonebook_handles })
                    h.clients;
              handles =
                  (
                    ptr,
                    record {
                      client = client;
                      addr = addr;
                      provider_id = provider_id;
                      refcount = 1;
                      phonebook_id = phonebook_id;
                    },
                  )
                  ∷ h.handles;
            },
          )
          else ok ((err_from_mercury, none), h)
    ]

-- YP_phonebook_handle_ref_incr
unfoldable pub phonebook_handle_ref_incr : Ptr → ClientHeap → Run (Return × ClientHeap)
phonebook_handle_ref_incr handle h =
    if handle == null then ok (err_invalid_args, h) else elim (find handle h.handles) [
      | none ↦ fault
      | some rh ↦ ok (
        success,
        record h { handles = put handle (record rh { refcount = incr64 rh.refcount }) h.handles },
      )
    ]

-- The branch of YP_phonebook_handle_release for a count that has reached 0: the address is given
-- back to the margo instance of the client, the client counts one handle less, and the handle is
-- freed.
unfoldable pub free_handle : Ptr → PhonebookHandle → ClientHeap → Run (Return × ClientHeap)
free_handle handle rh h = elim (find rh.client h.clients) [
  | none ↦ fault
  | some c ↦ ok (
    success,
    record {
      clients =
          put rh.client (record c { num_phonebook_handles = decr64 c.num_phonebook_handles })
            h.clients;
      handles = drop_key handle h.handles;
    },
  )
]

-- YP_phonebook_handle_release
unfoldable pub phonebook_handle_release : Ptr → ClientHeap → Run (Return × ClientHeap)
unfolding free_handle
phonebook_handle_release handle h =
    if handle == null then ok (err_invalid_args, h) else elim (find handle h.handles) [
      | none ↦ fault
      | some rh ↦
          let n = decr64 rh.refcount in
          if n == 0
          then free_handle handle rh h
          else ok
              (success, record h { handles = put handle (record rh { refcount = n }) h.handles })
    ]
