-- ===== src/Examples/Session.antt =====
-- The program of examples/client.c against a provider: what it prints, and what it leaves behind.
use Prim.Native.String.{len}
use phonebook.Base.{
  Bool, Option, ◌∙◌, ℕ, ◌≡◌, ◌≢◌, refl, true, false, some, String, List, ◌∷◌, ok, arith, ◌==◌,
}
use phonebook.Common.{phonebook_id_from_string, success, PhonebookId, is_success}
use phonebook.Backend.{Ptr, null}
use phonebook.Backend.Contract.{Contract}
use phonebook.Exchange.{delivered}
use phonebook.Types.Wire.{Proc}
use phonebook.Uthash.{Uthash}
use phonebook.Uthash.Items.{Phonebook, lookup}
use phonebook.Margo.{MargoNames}
use phonebook.Provider.{Provider, find_phonebook}
use phonebook.Provider.Valid.{entries, find_phonebook-lookup}
use phonebook.Provider.Handlers.{hello_ult, sum_ult}
use phonebook.Provider.Owns.{Owns, Owns-same, holds-lookup, All-lookup}
use phonebook.Client.Heap.{Client, PhonebookHandle, ClientHeap, find-head, put-head, drop_key-head}
use phonebook.Client.{
  client_init, client_finalize, phonebook_handle_create, phonebook_handle_release, free_handle,
}
use phonebook.Client.Init.{client_ids, client_init_names}
use phonebook.Client.Rpc.{say_hello, compute_sum}
use phonebook.Examples.{done, use_handle, client_main}
use phonebook.Examples.Served.{serve_hello, serve_sum, provider_service, Garbage}

module _ {M : Type 0} (names : MargoNames M) (ptr handle : Ptr) (mid addr provider_id : ℕ)
    (id : PhonebookId) (m : M) (h : ClientHeap) (live : ptr ≢ null) (live' : handle ≢ null) where
  abbrev client_with : ℕ → Client
  client_with n = record {
    mid = mid;
    hello_id = (client_ids names m).0.0;
    sum_id = (client_ids names m).0.1;
    num_phonebook_handles = n;
  }

  abbrev the_handle : PhonebookHandle
  the_handle = record {
    client = ptr;
    addr = addr;
    provider_id = provider_id;
    refcount = 1;
    phonebook_id = id;
  }

  -- The heap with the new client, and with its handle too.
  abbrev with_client : ClientHeap
  with_client = record h { clients = (ptr, client_with 0) ∷ h.clients }

  abbrev with_handle : ClientHeap
  with_handle = record {
    clients = (ptr, client_with 1) ∷ h.clients;
    handles = (handle, the_handle) ∷ h.handles;
  }

  started :
      client_init_names names ptr mid m h
      ≡ ok ((success, some ptr), (client_ids names m).1, with_client)
  unfolding client_init_names client_init
  started = let set : (ptr == null) ≡ false = ground (arith, live) in rw set refl

  handled :
      phonebook_handle_create handle true ptr addr provider_id id with_client
      ≡ ok ((success, some handle), with_handle)
  unfolding phonebook_handle_create
  handled =
      let set : (ptr == null) ≡ false = ground (arith, live) in
      let set' : (handle == null) ≡ false = ground (arith, live') in
      rw
        (
          set,
          set',
          find-head ptr (client_with 0) h.clients,
          phonebook_handle_create,
          put-head ptr (client_with 0) h.clients,
        )
        refl

  released : phonebook_handle_release handle with_handle ≡ ok (success, with_client)
  unfolding phonebook_handle_release free_handle
  released =
      let set' : (handle == null) ≡ false = ground (arith, live') in
      rw
        (
          set',
          find-head handle the_handle h.handles,
          phonebook_handle_release,
          find-head ptr (client_with 1) h.clients,
          free_handle,
          put-head ptr (client_with 1) h.clients,
          drop_key-head handle the_handle h.handles,
        )
        refl

  finalized : client_finalize ptr with_client ≡ ok (success, h)
  unfolding client_finalize
  finalized =
      rw
        (
          find-head ptr (client_with 0) h.clients,
          client_finalize,
          drop_key-head ptr (client_with 0) h.clients,
        )
        refl

module _ {W T M : Type 0} ⦃H : Uthash W T⦄ (alive : W → List Ptr) (proc : Proc)
    (names : MargoNames M) (uuid : PhonebookId) (g : Garbage) where
  module _ (p : Provider W T) (w : W) (b : Phonebook W) (k : PhonebookId)
      (here : find_phonebook p k ≡ some b) where
    serve_hello-greets :
        (home : ℕ) (stray : Bool) (v : W)
        → b.fn.hello b.ctx w ≡ ok (tt, v)
        → serve_hello proc home stray uuid g home p.provider_id (record { phonebook_id = k }) (p, w)
          ≡ ok ((true, true), (p, v))
    unfolding serve_hello hello_ult
    serve_hello-greets home stray v greeted =
        let same : (home == home) ≡ true = ground arith in
        let same_id : (p.provider_id == p.provider_id) ≡ true = ground arith in
        rw (serve_hello, same, same_id, hello_ult, here, greeted) refl

    serve_sum-adds :
        (home : ℕ) (stray : Bool) (x y result : ℕ) (v : W)
        → b.fn.sum b.ctx x y w ≡ ok (result, v)
        → serve_sum proc home stray uuid g home p.provider_id
            (record { phonebook_id = k; x = x; y = y })
            (p, w)
          ≡ ok (delivered (record { result = result; ret = success }), (p, v))
    unfolding serve_sum sum_ult
    serve_sum-adds home stray x y result v summed =
        let same : (home == home) ≡ true = ground arith in
        let same_id : (p.provider_id == p.provider_id) ≡ true = ground arith in
        rw (serve_sum, same, same_id, sum_ult, here, summed) refl

  -- client.c, given the address and the id of a provider that owns its contexts and the text of the id of one
  -- of its phonebooks, and where the
  -- libraries give what they are asked for: the program ends well and prints what the backend of that
  -- phonebook gives for 45 and 23, after it has said hello. The client and its handle are freed, the
  -- provider is as it was, and it owns its contexts.
  pub client_main-prints :
      (uuid_parse : String → Option (List ℕ)) (unset : PhonebookId) (id_str : String)
      (ptr handle : Ptr) (mid home : ℕ) (stray : Bool) (m : M) (p : Provider W T) (w : W)
      (b : Phonebook W) (h : ClientHeap)
      → Owns alive p w
      → lookup (phonebook_id_from_string uuid_parse id_str unset) (entries p) ≡ some b
      → len id_str ≡ 36
      → ptr ≢ null
      → handle ≢ null
      → (result : ℕ) × (v v' : W) × (b.fn.hello b.ctx w ≡ ok (tt, v))
        × (b.fn.sum b.ctx 45 23 v ≡ ok (result, v'))
        × (client_main
              (provider_service proc home stray uuid g)
              names
              uuid_parse
              unset
              4
              id_str
              true
              true
              true
              ptr
              handle
              mid
              home
              p.provider_id
              m
              (p, w)
              h
            ≡ ok (done result, ((p, v'), h)))
        × Owns alive p v'
  unfolding client_main use_handle is_success say_hello compute_sum
  client_main-prints uuid_parse unset id_str ptr handle mid home stray m p w b h o found long live
        live' =
      let id = phonebook_id_from_string uuid_parse id_str unset in
      let known = All-lookup (λ b. Contract alive b.fn) id (entries p) found o.known in
      let ((unit, v), greeted, same) =
        known.greets b.ctx w (rw o.live (holds-lookup id (entries p) found)) in
      let o' = Owns-same alive v same o in
      let ((result, v'), summed, same') =
        known.sums 45 23 b.ctx v (rw o'.live (holds-lookup id (entries p) found)) in
      let long' : (len id_str == 36) ≡ true = ground arith in
      let here : find_phonebook p id ≡ some b = find_phonebook-lookup p id o.valid ∙ found in
      (
        result,
        v,
        v',
        greeted,
        summed,
        rw
            (
              long',
              started names ptr handle mid home p.provider_id id m h live live',
              handled names ptr handle mid home p.provider_id id m h live live',
              find-head handle
                  (the_handle names ptr handle mid home p.provider_id id m h live live') h.handles,
              use_handle,
              serve_hello-greets p w b id here home stray v greeted,
              serve_sum-adds p v b id here home stray 45 23 result v' summed,
              released names ptr handle mid home p.provider_id id m h live live',
              finalized names ptr handle mid home p.provider_id id m h live live',
            )
            refl,
        Owns-same alive v' same' o',
      )
