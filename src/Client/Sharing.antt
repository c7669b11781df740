-- ===== src/Client/Sharing.antt =====
-- How long a handle of client.c lives, and what its users do to it.
use phonebook.Base.{
  ℕ, zero, suc, ◌+◌, ◌-◌, ◌<◌, ◌≡◌, ◌≢◌, refl, none, some, Run, ok, fault, ◌>>=◌, arith,
}
use phonebook.Base.Words.{u64_mod, incr64, decr64}
use phonebook.Backend.{Ptr, null}
use phonebook.Common.{Return}
use phonebook.Client.Heap.{
  Client, PhonebookHandle, ClientHeap, Keyed, find, put, drop_key, find-put, find-drop_key,
  Keyed-put,
}
use phonebook.Client.{
  free_handle, phonebook_handle_ref_incr, phonebook_handle_release, client_finalize,
}
use phonebook.Client.Calls.{heap_of}

unfoldable pub ref_incr_times : ℕ → Ptr → ClientHeap → Run ClientHeap
ref_incr_times zero handle h = ok h
ref_incr_times (suc n) handle h = do
  h' ← heap_of (phonebook_handle_ref_incr handle h)
  ref_incr_times n handle h'

unfoldable pub release_times : ℕ → Ptr → ClientHeap → Run ClientHeap
release_times zero handle h = ok h
release_times (suc n) handle h = do
  h' ← heap_of (phonebook_handle_release handle h)
  release_times n handle h'

module _ (handle : Ptr) (live : handle ≢ null) where
  -- Each call of YP_phonebook_handle_ref_incr on a live handle adds one user, as long as the
  -- counter does not wrap, and changes nothing else about the handle or the clients.
  pub ref_incr_times-refcount :
      (n : ℕ) (h : ClientHeap) (rh : PhonebookHandle)
      → find handle h.handles ≡ some rh
      → rh.refcount + n < u64_mod
      → (h' : ClientHeap) × (ref_incr_times n handle h ≡ ok h')
        × (find handle h'.handles ≡ some (record rh { refcount = rh.refcount + n }))
        × (h'.clients ≡ h.clients)
  unfolding ref_incr_times phonebook_handle_ref_incr
  ref_incr_times-refcount zero h rh e k = (h, refl, ground arith, refl)
  ref_incr_times-refcount (suc n) h rh e k =
      let rh' : PhonebookHandle = record rh { refcount = incr64 rh.refcount } in
      let next : incr64 rh.refcount ≡ rh.refcount + 1 = omega arith in
      let h1 : ClientHeap = record h { handles = put handle rh' h.handles } in
      let there : find handle h1.handles ≡ some rh' =
        ground (arith, find-put handle handle rh' h.handles e) in
      let (h', run, found, same) = ref_incr_times-refcount n h1 rh' there (omega arith) in
      (h', ground arith, ground arith, same)

  -- A live handle with more users than releases, and fewer than 2^64 users, stays: it loses that
  -- many users, and nothing else about it or the clients changes.
  pub release_times-keeps :
      (n : ℕ) (h : ClientHeap) (rh : PhonebookHandle)
      → find handle h.handles ≡ some rh
      → n < rh.refcount
      → rh.refcount < u64_mod
      → (h' : ClientHeap) × (release_times n handle h ≡ ok h')
        × (find handle h'.handles ≡ some (record rh { refcount = rh.refcount - n }))
        × (h'.clients ≡ h.clients)
  unfolding release_times phonebook_handle_release
  release_times-keeps zero h rh e k m = (h, refl, ground arith, refl)
  release_times-keeps (suc n) h rh e k m =
      let rh' : PhonebookHandle = record rh { refcount = decr64 rh.refcount } in
      let next : decr64 rh.refcount ≡ rh.refcount - 1 = omega arith in
      let h1 : ClientHeap = record h { handles = put handle rh' h.handles } in
      let there : find handle h1.handles ≡ some rh' =
        ground (arith, find-put handle handle rh' h.handles e) in
      let (h', run, found, same) = release_times-keeps n h1 rh' there (omega arith) (omega arith) in
      (h', ground arith, ground arith, same)

  release_last :
      (h : ClientHeap) (rh : PhonebookHandle) (c : Client)
      → Keyed h.handles
      → find handle h.handles ≡ some rh
      → rh.refcount ≡ 1
      → find rh.client h.clients ≡ some c
      → (h' : ClientHeap) × (heap_of (phonebook_handle_release handle h) ≡ ok h')
        × (find handle h'.handles ≡ none)
        × (find rh.client h'.clients
            ≡ some (record c { num_phonebook_handles = decr64 c.num_phonebook_handles }))
  unfolding phonebook_handle_release free_handle
  release_last h rh c keyed e one owner =
      let c' : Client = record c { num_phonebook_handles = decr64 c.num_phonebook_handles } in
      let h' : ClientHeap = record {
        clients = put rh.client c' h.clients;
        handles = drop_key handle h.handles;
      } in
      let zero_left : decr64 rh.refcount ≡ 0 = omega arith in
      (
        h',
        ground arith,
        ground (arith, find-drop_key handle handle h.handles keyed),
        ground (arith, find-put rh.client rh.client c' h.clients owner),
      )

  -- As many releases as a live handle has users, fewer than 2^64, where its client is live too,
  -- free the handle and take it off the count of its client; one more reads freed memory.
  pub release_times-frees :
      (n : ℕ) (h : ClientHeap) (rh : PhonebookHandle) (c : Client)
      → Keyed h.handles
      → find handle h.handles ≡ some rh
      → rh.refcount ≡ suc n
      → suc n < u64_mod
      → find rh.client h.clients ≡ some c
      → (h' : ClientHeap) × (release_times (suc n) handle h ≡ ok h')
        × (find handle h'.handles ≡ none)
        × (find rh.client h'.clients
            ≡ some (record c { num_phonebook_handles = decr64 c.num_phonebook_handles }))
        × (phonebook_handle_release handle h' ≡ fault)
  unfolding release_times phonebook_handle_release
  release_times-frees zero h rh c keyed e many m owner =
      let (h', run, gone, less) = release_last h rh c keyed e (omega arith) owner in
      (h', rw (run, release_times) refl, gone, less, ground arith)
  release_times-frees (suc n) h rh c keyed e many m owner =
      let rh' : PhonebookHandle = record rh { refcount = decr64 rh.refcount } in
      let next : decr64 rh.refcount ≡ rh.refcount - 1 = omega arith in
      let h1 : ClientHeap = record h { handles = put handle rh' h.handles } in
      let there : find handle h1.handles ≡ some rh' =
        ground (arith, find-put handle handle rh' h.handles e) in
      let (h', run, gone, less, dangling) =
        release_times-frees n h1 rh' c (Keyed-put handle rh' h.handles keyed) there (omega arith)
          (omega arith) owner in
      (h', ground arith, gone, less, dangling)

  -- If YP_client_finalize is called on the client of a live handle with one user, the release of
  -- that handle reads the freed client.
  pub release-client_finalize :
      (h h' : ClientHeap) (rh : PhonebookHandle) {ret : Return}
      → Keyed h.clients
      → find handle h.handles ≡ some rh
      → rh.refcount ≡ 1
      → client_finalize rh.client h ≡ ok (ret, h')
      → phonebook_handle_release handle h' ≡ fault
  unfolding client_finalize phonebook_handle_release free_handle
  release-client_finalize h h' rh keyed e one freed =
      let zero_left : decr64 rh.refcount ≡ 0 = omega arith in
      ground (arith, find-drop_key rh.client rh.client h.clients keyed)
