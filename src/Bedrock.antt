-- ===== src/Bedrock.antt =====
-- src/bedrock-module.c: how Bedrock starts, asks and stops a provider and a client. (The struct of a
-- provider handle is in include/YP/YP-provider-handle.h.)
use phonebook.Base.{
  arith, ℕ, ◌≡◌, ◌≢◌, Bool, true, Option, none, some, String, List, [], ◌∷◌, Run, ok, fault,
  if◌then◌else◌, refl, ◌==◌, false,
}
use phonebook.Common.{Return, success, PhonebookId}
use phonebook.Backend.{Ptr, null}
use phonebook.Backend.Dummy.{Memory, Allocator, addresses}
use phonebook.Json.{Json}
use phonebook.Margo.{MargoLaws, Margo, MargoNames}
use phonebook.Client.{client_init, client_finalize}
use phonebook.Client.Init.{client_ids, client_init_names}
use phonebook.Uthash.{Uthash}
use phonebook.Client.Heap.{Client, ClientHeap, find, find-head, drop_key-head}
use phonebook.Provider.{Provider}
use phonebook.Provider.Configuration.{Resources, HasRoom, read_config}
use phonebook.Provider.GetConfig.{provider_get_config}
use phonebook.Provider.Register.{effective_token, Registered, provider_register, provider_destroy}
use phonebook.Provider.Names.{Named, Unnamed, provider_register-Named, provider_destroy-Unnamed}

-- struct YP_provider_handle; 0 is MARGO_INSTANCE_NULL.
pub record ProviderHandle : Type 0 where
  pub mid : ℕ
  pub addr : ℕ
  pub provider_id : ℕ

-- YP_create_provider_handle; `calloc_ok` is false where calloc returns NULL, which is written through,
-- and `addr` is what margo_addr_dup writes. A field that is not assigned keeps the 0 of calloc.
unfoldable pub create_provider_handle :
    (calloc_ok : Bool) (client : Ptr) (addr provider_id : ℕ) → ClientHeap → Run ProviderHandle
create_provider_handle calloc_ok client addr provider_id h = elim (find client h.clients) [
  | none ↦ fault
  | some c ↦
      if calloc_ok then ok (record { mid = 0; addr = addr; provider_id = provider_id }) else fault
]

-- YP_destroy_provider_handle: the instance and the address that margo_addr_free is called with.
unfoldable pub destroy_provider_handle : ProviderHandle → ℕ × ℕ
destroy_provider_handle ph = (ph.mid, ph.addr)

module _ {T J M : Type 0} ⦃H : Uthash (Memory J) T⦄ (json : Json J) (a : Allocator)
    (margo : Margo M) (r : Resources) where
  -- YP_register_provider: no token is given.
  unfoldable pub register_provider :
      (mid provider_id : ℕ) (config : Option String) (pool : ℕ)
      → M
      → Memory J
      → Run (Registered (Memory J) T M)
  register_provider mid provider_id config pool m w =
      provider_register json a margo r mid provider_id
        (some (record { token = none; config = config; pool = pool })) m w

  -- YP_deregister_provider
  unfoldable pub deregister_provider :
      Provider (Memory J) T → M → Memory J → Run (Return × M × Memory J)
  deregister_provider p m w = provider_destroy margo p m w

  -- YP_get_provider_config
  unfoldable pub get_provider_config :
      (PhonebookId → String) → Provider (Memory J) T → Memory J → Run (Option String × Memory J)
  get_provider_config unparse p w = provider_get_config json unparse (some p) w

  -- A provider that Bedrock starts, with a configuration that is missing or an object, on a listening
  -- margo instance that does not know its id, in a memory without contexts, with callocs and a realloc
  -- that give memory, the block of the realloc having room for a pointer, and with ids from uuid_generate
  -- that differ, has no token, and each of its RPCs is registered under its name. To stop it ends with
  -- YP_SUCCESS; then none of the names is registered for its id, and no context is alive.
  pub deregister_provider-register_provider :
      (laws : MargoLaws M margo) (mid provider_id pool : ℕ) (text : Option String) (config : J)
      (m : M) (w : Memory J)
      → ((used : List Ptr) → a.calloc used ≢ null)
      → r.calloc_ok ≡ true
      → HasRoom r.realloc_room
      → ((i : ℕ) → r.calloc_ok_at i ≡ true)
      → ((i j : ℕ) → r.uuid_at i ≡ r.uuid_at j → i ≡ j)
      → margo.is_listening m ≡ true
      → margo.provider_registered_name m "YP_sum" provider_id ≡ none
      → read_config json text ≡ some config
      → addresses w ≡ []
      → (p : Provider (Memory J) T) × (m1 m2 : M) × (v v' : Memory J) × (register_provider mid
            provider_id text pool m w
          ≡ ok (record { ret = success; provider = some p; instance_state = m1; world = v }))
        × (p.token ≡ none)
        × Named margo m1 provider_id p.rpc_ids
        × (deregister_provider p m1 v ≡ ok (success, m2, v'))
        × Unnamed margo m2 provider_id
        × (addresses v' ≡ [])
  unfolding register_provider deregister_provider effective_token
  deregister_provider-register_provider laws mid provider_id pool text config m w me co ro ca di li
        un rc al =
      let (p, m1, v, run, o, token, types, named) =
        provider_register-Named margo laws json a r mid provider_id
          (record { token = none; config = text; pool = pool }) config m w me co ro ca di li un rc
          al in
      let (v', m2, stopped, unnamed, gone) =
        provider_destroy-Unnamed margo laws addresses provider_id p v m1 o named in
      (p, m1, m2, v, v', run, token, named, stopped, unnamed, gone)

-- YP_init_client, `ptr` being what the calloc of YP_client_init returns.
unfoldable pub init_client :
    {N : Type 0} (names : MargoNames N) (ptr : Ptr) (mid : ℕ)
    → N
    → ClientHeap
    → Run ((Return × Option Ptr) × N × ClientHeap)
init_client names ptr mid n h = client_init_names names ptr mid n h

-- YP_finalize_client
unfoldable pub finalize_client : Ptr → ClientHeap → Run (Return × ClientHeap)
finalize_client client h = client_finalize client h

-- YP_get_client_config; `dup_ok` is false where strdup returns NULL.
unfoldable pub get_client_config : (dup_ok : Bool) → Option String
get_client_config dup_ok = if dup_ok then some "{}" else none

-- A client that Bedrock starts, uses for a provider handle and stops leaves the other clients and all
-- handles as they were, where calloc returns addresses that are not NULL.
pub finalize_client-init_client :
    {N : Type 0} (names : MargoNames N) (ptr : Ptr) (mid addr provider_id : ℕ) (n : N)
    (h : ClientHeap)
    → ptr ≢ null
    → (n' : N) × (h' : ClientHeap) × (ph : ProviderHandle) × (init_client names ptr mid n h
        ≡ ok ((success, some ptr), n', h'))
      × (create_provider_handle true ptr addr provider_id h' ≡ ok ph)
      × (finalize_client ptr h' ≡ ok (success, h))
unfolding init_client finalize_client client_init_names client_init client_finalize
    create_provider_handle
finalize_client-init_client names ptr mid addr provider_id n h live =
    let set : (ptr == null) ≡ false = ground (arith, live) in
    let ((hello, sum), n') = client_ids names n in
    let c : Client = record {
      mid = mid;
      hello_id = hello;
      sum_id = sum;
      num_phonebook_handles = 0;
    } in
    (
      n',
      record h { clients = (ptr, c) ∷ h.clients },
      record { mid = 0; addr = addr; provider_id = provider_id },
      rw set refl,
      rw (find-head ptr c h.clients, create_provider_handle) refl,
      rw
          (
            find-head ptr c h.clients,
            finalize_client,
            client_finalize,
            drop_key-head ptr c h.clients,
          )
          refl,
    )

-- The address of a provider handle is given back to no margo instance, whatever the client's is.
pub destroy_provider_handle-create_provider_handle :
    (calloc_ok : Bool) (client : Ptr) (addr provider_id : ℕ) (h : ClientHeap) {ph : ProviderHandle}
    → create_provider_handle calloc_ok client addr provider_id h ≡ ok ph
    → destroy_provider_handle ph ≡ (0, addr)
unfolding create_provider_handle destroy_provider_handle
destroy_provider_handle-create_provider_handle calloc_ok client addr provider_id h e = ground arith
