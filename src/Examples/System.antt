-- ===== src/Examples/System.antt =====
-- The three programs of examples/ one after the other: server.c starts a provider, admin.c creates a
-- phonebook of the dummy backend in it, and client.c uses that phonebook.
use Prim.Native.String.{len}
use phonebook.Base.{
  Bool, Option, ℕ, ◌≡◌, ◌≢◌, refl, true, false, none, some, String, List, [], ◌∷◌, ◌++◌, ok,
  OnOk-eq, arith, ◌==◌,
}
use mathlib.Core.List.{map-append}
use phonebook.Common.{
  phonebook_id_from_string, phonebook_id_to_string, id_eq_iff, success, PhonebookId,
}
use phonebook.Backend.{Ptr, null}
use phonebook.Backend.Dummy.{
  Memory, Allocator, addresses, dummy_backend, dummy_create_phonebook, new_context,
  dummy_compute_sum, add32,
}
use phonebook.Backend.Dummy.Contract.{dummy_backend-Contract}
use phonebook.Json.{Json}
use phonebook.Margo.{Margo, MargoNames}
use phonebook.Types.Wire.{Proc, ProcLaws}
use phonebook.Types.RoundTrip.{IsUuid}
use phonebook.Uthash.{Uthash}
use phonebook.Uthash.Items.{Phonebook, lookup}
use phonebook.Provider.{Provider}
use phonebook.Provider.Valid.{entries, added}
use phonebook.Provider.Backends.{first_named}
use phonebook.Provider.Owns.{Owns, Owns-added}
use phonebook.Provider.Configuration.{Resources, HasRoom, read_config, configured}
use phonebook.Provider.Register.{provider_args_init, register_rpcs, effective_token}
use phonebook.Provider.Setup.{fresh_provider, fresh_provider-Owns, provider_register_empty}
use phonebook.Client.Heap.{ClientHeap}
use phonebook.Examples.{done, server_main, admin_main, client_main}
use phonebook.Examples.Served.{provider_service, Garbage, admin_main-prints}
use phonebook.Examples.Session.{client_main-prints}

-- What json-c documents of an empty object: it has no members, and {} is its text.
pub record EmptyLaws (J : Type 0) (json : Json J) : Type 0 where
  pub no_members : (key : String) → json.object_get json.new_object key ≡ none
  pub empty_text : json.parse "{}" ≡ some json.new_object

module _ {J : Type 0} (json : Json J) (laws : EmptyLaws J json) (a : Allocator)
    (memory : (used : List Ptr) → a.calloc used ≢ null) where
  created_context :
      (w : Memory J)
      → dummy_create_phonebook json a (some "{}") w
        ≡ ok (
          (success, a.calloc (addresses w)),
          record w { contexts = w.contexts ++ (a.calloc (addresses w), json.new_object) ∷ [] },
        )
  unfolding dummy_create_phonebook new_context
  created_context w =
      let set : (a.calloc (addresses w) == null) ≡ false = ground (arith, memory (addresses w)) in
      rw (laws.empty_text, dummy_create_phonebook, set) refl

module _ {T J M N : Type 0} ⦃H : Uthash (Memory J) T⦄ (json : Json J) (laws : EmptyLaws J json)
    (a : Allocator) (memory : (used : List Ptr) → a.calloc used ≢ null) (margo : Margo M)
    (r : Resources) (proc : Proc) (proc_laws : ProcLaws proc) (names : MargoNames N) where
  -- The server starts on a listening margo instance that does not know provider 42, in a memory without
  -- contexts. The admin, given the address of the server and 42, then prints the one id that
  -- uuid_generate gave; and the client, given the address, 42 and the text
  -- of that id (phonebook_id_to_string), prints 68 and frees its client and its handle. All that the libraries are asked for is
  -- given, the block of realloc has room for a pointer, the id has 16 bytes, its text has 36, and uuid_parse reads it back.
  pub programs-print :
      (server_mid : ℕ) (m : M) (w : Memory J) (uuid : PhonebookId) (g : Garbage) (admin_mid : ℕ)
      (n : N) (uuid_parse : String → Option (List ℕ)) (uuid_unparse : List ℕ → String)
      (unset : PhonebookId) (ptr handle : Ptr) (client_mid home : ℕ) (stray : Bool) (n' : N)
      (h : ClientHeap)
      → r.calloc_ok ≡ true
      → HasRoom r.realloc_room
      → margo.is_listening m ≡ true
      → margo.provider_registered_name m "YP_sum" 42 ≡ none
      → addresses w ≡ []
      → IsUuid uuid
      → uuid_parse (uuid_unparse uuid.uuid) ≡ some uuid.uuid
      → len (uuid_unparse uuid.uuid) ≡ 36
      → ptr ≢ null
      → handle ≢ null
      → (p p' : Provider (Memory J) T) × (v v' : Memory J) × (server_main json a margo r server_mid
            m w
          ≡ ok (record {
            ret = success;
            provider = some p;
            instance_state = margo.push_finalize_callback (register_rpcs margo m 42 0).1;
            world = w;
          }))
        × (admin_main
              (provider_service proc home stray uuid g)
              names
              3
              true
              true
              true
              admin_mid
              home
              42
              n
              (p, w)
            ≡ ok (done (uuid ∷ []), (p', v)))
        × (client_main
              (provider_service proc home stray uuid g)
              names
              uuid_parse
              unset
              4
              (phonebook_id_to_string uuid_unparse uuid)
              true
              true
              true
              ptr
              handle
              client_mid
              home
              42
              n'
              (p', v)
              h
            ≡ ok (done 68, ((p', v'), h)))
        × Owns addresses p' v'
  unfolding dummy_compute_sum add32 server_main first_named lookup read_config configured
      effective_token phonebook_id_from_string phonebook_id_to_string
  programs-print server_mid m w uuid g admin_mid n uuid_parse uuid_unparse unset ptr handle
        client_mid home stray n' h co ro li un al good parsed long live live' =
      let p : Provider (Memory J) T =
        fresh_provider json a margo r server_mid 42 provider_args_init m in
      let o : Owns addresses p w =
        fresh_provider-Owns json a margo r server_mid 42 provider_args_init m w memory al in
      let none_yet : entries p ≡ [] = H.items-empty in
      let ctx = a.calloc (addresses w) in
      let book : Phonebook (Memory J) = record {
        fn = dummy_backend json a;
        ctx = ctx;
        id = uuid;
      } in
      let v : Memory J = record w { contexts = w.contexts ++ (ctx, json.new_object) ∷ [] } in
      let new : lookup uuid (entries p) ≡ none = rw none_yet refl in
      let (printed, valid, grown) =
        admin_main-prints proc proc_laws names home stray uuid g admin_mid n p w v
          (dummy_backend json a) ctx o.valid refl refl (created_context json laws a memory w) new
          (rw none_yet tt) good (rw none_yet (omega arith)) in
      let o' : Owns addresses (added p book) v =
        Owns-added addresses v book new (a.fresh (addresses w)) (map-append _ _ _)
          (dummy_backend-Contract json a memory) o in
      let read : phonebook_id_from_string uuid_parse (phonebook_id_to_string uuid_unparse uuid)
            unset
          ≡ uuid =
        rw (phonebook_id_from_string, parsed) refl in
      let found : lookup
            (phonebook_id_from_string uuid_parse (phonebook_id_to_string uuid_unparse uuid) unset)
            (entries (added p book))
          ≡ some book =
        rw (read, grown, none_yet) (ground (arith, id_eq_iff uuid uuid)) in
      let (result, u, u', greeted, summed, ran, o'') =
        client_main-prints addresses proc names uuid g uuid_parse unset
          (phonebook_id_to_string uuid_unparse uuid) ptr handle client_mid home stray n'
          (added p book) v book h o' found long live live' in
      let sum : result ≡ 68 = OnOk-eq (λ s. s.0 ≡ 68) (dummy_compute_sum ctx 45 23 u) refl summed in
      (
        p,
        added p book,
        v,
        u',
        provider_register_empty json a margo r server_mid 42 provider_args_init m json.new_object w
            co ro li un refl (rw (configured, laws.no_members "phonebooks") refl),
        rw none_yet at printed,
        rw sum at ran,
        o'',
      )
