-- ===== src/Client/Calls.antt =====
-- Sequences of the calls of client.c that make, share and release handles.
use phonebook.Base.{
  ℕ, ◌≡◌, refl, Bool, none, Run, ok, fault, ◌>>=◌, OnOk, ◌==◌, Bool-cases, Option-cases, inl, inr,
}
use phonebook.Base.Words.{decr64}
use phonebook.Backend.{Ptr, null}
use phonebook.Common.{PhonebookId}
use phonebook.Client.Heap.{ClientHeap, find}
use phonebook.Client.{
  client_init, client_finalize, phonebook_handle_create, phonebook_handle_ref_incr, free_handle,
  phonebook_handle_release,
}
use phonebook.Client.Counted.{
  IsCounted, handles_of, client_init-IsCounted, client_finalize-IsCounted, created-IsCounted,
  released-IsCounted, rewritten-IsCounted,
}

-- A call, with what calloc, margo_addr_dup and margo deliver.
pub data HandleCall : Type 0 where
  init : (ptr : Ptr) (mid hello_id sum_id : ℕ) → HandleCall
  finalize : (client : Ptr) → HandleCall
  create :
      (ptr : Ptr) (dup_ok : Bool) (client : Ptr) (addr provider_id : ℕ) → PhonebookId → HandleCall
  ref_incr : (handle : Ptr) → HandleCall
  release : (handle : Ptr) → HandleCall

abbrev pub heap_of : {A : Type 0} → Run (A × ClientHeap) → Run ClientHeap
heap_of r = do (a, h) ← r; ok h

unfoldable pub call : HandleCall → ClientHeap → Run ClientHeap
call (init ptr mid hello_id sum_id) h = heap_of (client_init ptr mid hello_id sum_id h)
call (finalize client) h = heap_of (client_finalize client h)
call (create ptr dup_ok client addr provider_id id) h =
    heap_of (phonebook_handle_create ptr dup_ok client addr provider_id id h)
call (ref_incr handle) h = heap_of (phonebook_handle_ref_incr handle h)
call (release handle) h = heap_of (phonebook_handle_release handle h)

-- calloc gives memory that no live object has, and that no handle of a freed client names.
abbrev pub FreshFor : ClientHeap → HandleCall → Type 0
FreshFor h (init ptr mid hello_id sum_id) =
    (find ptr h.clients ≡ none) × (handles_of ptr h.handles ≡ 0)
FreshFor h (create ptr dup_ok client addr provider_id id) = find ptr h.handles ≡ none
FreshFor h _ = Unit {0}

module _ (h : ClientHeap) (v : IsCounted h) where
  create-IsCounted :
      (ptr : Ptr) (dup_ok : Bool) (client : Ptr) (addr provider_id : ℕ) (id : PhonebookId)
      → find ptr h.handles ≡ none
      → OnOk (λ r. IsCounted r.1) (phonebook_handle_create ptr dup_ok client addr provider_id id h)
  unfolding phonebook_handle_create
  create-IsCounted ptr dup_ok client addr provider_id id new = elim (Bool-cases (client == null)) [
    | inl a ↦ rw a v
    | inr a ↦ elim (Bool-cases (ptr == null)) [
      | inl b ↦ rw (a, b) v
      | inr b ↦ elim (Option-cases (find client h.clients)) [
        | inl e ↦ rw (a, b, e, phonebook_handle_create) tt
        | inr (k, e) ↦ elim (Bool-cases dup_ok) [
          | inl d ↦
              rw (a, b, e, d, phonebook_handle_create)
                (created-IsCounted h v ptr client k _ new e refl)
          | inr d ↦ rw (a, b, e, d, phonebook_handle_create) v
        ]
      ]
    ]
  ]

  ref_incr-IsCounted :
      (handle : Ptr) → OnOk (λ r. IsCounted r.1) (phonebook_handle_ref_incr handle h)
  unfolding phonebook_handle_ref_incr
  ref_incr-IsCounted handle = elim (Bool-cases (handle == null)) [
    | inl a ↦ rw a v
    | inr a ↦ elim (Option-cases (find handle h.handles)) [
      | inl e ↦ rw (a, e, phonebook_handle_ref_incr) tt
      | inr (rh, e) ↦
          rw (a, e, phonebook_handle_ref_incr) (rewritten-IsCounted h v handle rh _ e refl)
    ]
  ]

  release-IsCounted : (handle : Ptr) → OnOk (λ r. IsCounted r.1) (phonebook_handle_release handle h)
  unfolding phonebook_handle_release
  release-IsCounted handle = elim (Bool-cases (handle == null)) [
    | inl a ↦ rw a v
    | inr a ↦ elim (Option-cases (find handle h.handles)) [
      | inl e ↦ rw (a, e, phonebook_handle_release) tt
      | inr (rh, e) ↦ elim (Bool-cases (decr64 rh.refcount == 0)) [
        | inl z ↦ elim (Option-cases (find rh.client h.clients)) [
          | inl f ↦ rw (a, e, phonebook_handle_release, z, f, free_handle) tt
          | inr (k, f) ↦
              rw (a, e, phonebook_handle_release, z, f, free_handle)
                (released-IsCounted h v handle k rh e f)
        ]
        | inr z ↦
            rw (a, e, phonebook_handle_release, z) (rewritten-IsCounted h v handle rh _ e refl)
      ]
    ]
  ]

  heap-IsCounted :
      {A : Type 0} (r : Run (A × ClientHeap))
      → OnOk (λ s. IsCounted s.1) r
      → OnOk IsCounted (heap_of r)
  heap-IsCounted (ok s) k = k
  heap-IsCounted fault k = tt

  -- Where the count of each live client is the number of its live handles, up to the wrap-around
  -- of the counter, it is so again after every call that ends, if calloc gives addresses at which no
  -- live object is and, for a new client, that no live handle names as its client, as the handles
  -- may that were not released when their client was finalized.
  pub call-IsCounted : (c : HandleCall) → FreshFor h c → OnOk IsCounted (call c h)
  unfolding call
  call-IsCounted (init ptr mid hello_id sum_id) (new, unused) =
      heap-IsCounted _ (client_init-IsCounted h v ptr mid hello_id sum_id new unused)
  call-IsCounted (finalize client) f = heap-IsCounted _ (client_finalize-IsCounted h v client)
  call-IsCounted (create ptr dup_ok client addr provider_id id) new =
      heap-IsCounted _ (create-IsCounted ptr dup_ok client addr provider_id id new)
  call-IsCounted (ref_incr handle) f = heap-IsCounted _ (ref_incr-IsCounted handle)
  call-IsCounted (release handle) f = heap-IsCounted _ (release-IsCounted handle)
