-- ===== src/Provider/Register.antt =====
-- The life of a provider in src/provider.c: YP_provider_register, YP_provider_register_backend,
-- YP_finalize_provider and YP_provider_destroy, with the arguments of include/YP/YP-server.h.
use phonebook.Base.{ℕ, Bool, Option, none, some, [], Run, ok, ◌>>=◌, String, if◌then◌else◌}
use mathlib.Core.Option
use text.Mathlib.Text.{◌==◌ as str_eq}
use phonebook.Common.{
  Return, success, err_allocation, err_invalid_args, err_invalid_provider, err_invalid_config,
}
use phonebook.Backend.{BackendImpl}
use phonebook.Backend.Dummy.{Memory, Allocator, dummy_backend}
use phonebook.Json.{Json}
use phonebook.Margo.{Margo}
use phonebook.Uthash.{Uthash}
use phonebook.Provider.{Provider, RpcIds, add_backend_impl, remove_all_phonebooks}
use phonebook.Provider.Configuration.{Resources, read_config, configured, load_phonebooks}

-- struct YP_provider_args of YP-server.h
pub record ProviderArgs : Type 0 where
  pub token : Option String
  pub config : Option String
  pub pool : ℕ

-- YP_PROVIDER_ARGS_INIT; 0 is ABT_POOL_NULL.
abbrev pub provider_args_init : ProviderArgs
provider_args_init = record { token = none; config = none; pool = 0 }

-- `(a.token && strlen(a.token)) ? strdup(a.token) : NULL`; strdup gives NULL where it gets no memory.
unfoldable pub effective_token : (strdup_ok : Bool) → Option String → Option String
effective_token strdup_ok none = none
effective_token strdup_ok (some t) =
    if str_eq t "" then none else if strdup_ok then some t else none

module _ {W T : Type 0} ⦃H : Uthash W T⦄ where
  -- YP_provider_register_backend
  unfoldable pub provider_register_backend :
      (room : Option ℕ) → Provider W T → BackendImpl W → Run (Return × Provider W T)
  provider_register_backend room p backend = add_backend_impl room p backend

module _ {M : Type 0} (margo : Margo M) where
  -- MARGO_REGISTER_PROVIDER and margo_register_data for one RPC.
  unfoldable pub register_rpc : M → String → (provider_id pool : ℕ) → ℕ × M
  register_rpc m name provider_id pool =
      let (id, m') = margo.register_provider m name provider_id pool in
      (id, margo.register_data m' id)

  -- The registrations of YP_provider_register, in their order.
  unfoldable pub register_rpcs : M → (provider_id pool : ℕ) → RpcIds × M
  unfolding register_rpc
  register_rpcs m provider_id pool =
      let (create, m1) = register_rpc m "YP_create_phonebook" provider_id pool in
      let (open_id, m2) = register_rpc m1 "YP_open_phonebook" provider_id pool in
      let (close, m3) = register_rpc m2 "YP_close_phonebook" provider_id pool in
      let (destroy, m4) = register_rpc m3 "YP_destroy_phonebook" provider_id pool in
      let (list, m5) = register_rpc m4 "YP_list_phonebooks" provider_id pool in
      let (hello, m6) = register_rpc m5 "YP_hello" provider_id pool in
      let m7 = margo.disable_response m6 hello in
      let (sum, m8) = register_rpc m7 "YP_sum" provider_id pool in
      (
        record {
          create_phonebook_id = create;
          open_phonebook_id = open_id;
          close_phonebook_id = close;
          destroy_phonebook_id = destroy;
          list_phonebooks_id = list;
          hello_id = hello;
          sum_id = sum;
        },
        m8,
      )

  -- The calls of margo_deregister in YP_finalize_provider.
  unfoldable pub deregister_rpcs : M → RpcIds → M
  deregister_rpcs m ids =
      let m1 = margo.deregister m ids.create_phonebook_id in
      let m2 = margo.deregister m1 ids.open_phonebook_id in
      let m3 = margo.deregister m2 ids.close_phonebook_id in
      let m4 = margo.deregister m3 ids.destroy_phonebook_id in
      let m5 = margo.deregister m4 ids.list_phonebooks_id in
      let m6 = margo.deregister m5 ids.hello_id in margo.deregister m6 ids.sum_id

-- The code of a registration, the new provider if there is one, and what the instance of margo and
-- the memory of the backends are afterwards.
pub record Registered (W T M : Type 0) : Type 0 where
  pub ret : Return
  pub provider : Option (Provider W T)
  pub instance_state : M
  pub world : W

abbrev pub refused : {W T M : Type 0} → Return → M → W → Registered W T M
refused ret m w = record { ret = ret; provider = none; instance_state = m; world = w }

module _ {T J M : Type 0} ⦃H : Uthash (Memory J) T⦄ (json : Json J) (a : Allocator)
    (margo : Margo M) (r : Resources) where
  -- YP_provider_register_dummy_backend of dummy-backend.c
  unfoldable pub provider_register_dummy_backend :
      Provider (Memory J) T → Run (Return × Provider (Memory J) T)
  unfolding provider_register_backend
  provider_register_dummy_backend p =
      provider_register_backend r.realloc_room p (dummy_backend json a)

  -- From the registration of the RPCs on, with the configuration that was read.
  unfoldable pub set_up :
      (mid provider_id : ℕ) → ProviderArgs → J → M → Memory J → Run (Registered (Memory J) T M)
  unfolding provider_register_dummy_backend register_rpcs effective_token
  set_up mid provider_id args config m w = do
    let (ids, m') = register_rpcs margo m provider_id args.pool
    (ignored, p) ← provider_register_dummy_backend (record {
      mid = mid;
      provider_id = provider_id;
      pool = args.pool;
      token = effective_token r.strdup_ok args.token;
      num_backend_types = 0;
      backend_types = [];
      backend_types_bytes = 0;
      num_phonebooks = 0;
      phonebooks = H.empty;
      rpc_ids = ids;
    })
    (p', w') ← load_phonebooks json r 0 (configured json config) p w
    ok (record {
      ret = success;
      provider = some p';
      instance_state = margo.push_finalize_callback m';
      world = w';
    })

  -- YP_provider_register; `none` for the arguments is a NULL pointer.
  unfoldable pub provider_register :
      (mid provider_id : ℕ) → Option ProviderArgs → M → Memory J → Run (Registered (Memory J) T M)
  unfolding set_up
  provider_register mid provider_id args m w =
      let arguments = Option.get_or args provider_args_init in
      if margo.is_listening m
      then elim (margo.provider_registered_name m "YP_sum" provider_id) [
        | some id ↦ ok (refused err_invalid_provider m w)
        | none ↦ elim (read_config json arguments.config) [
          | none ↦ ok (refused err_invalid_config m w)
          | some config ↦
              if r.calloc_ok
              then set_up mid provider_id arguments config m w
              else ok (refused err_allocation m w)
        ]
      ]
      else ok (refused err_invalid_args m w)

module _ {W T M : Type 0} ⦃H : Uthash W T⦄ (margo : Margo M) where
  -- YP_finalize_provider; the provider is freed, so only the instance of margo and the memory are left.
  unfoldable pub finalize_provider : Provider W T → M → W → Run (M × W)
  unfolding deregister_rpcs
  finalize_provider p m w = do
    let m' = deregister_rpcs margo m p.rpc_ids
    (p', w') ← remove_all_phonebooks p w
    ok (m', w')

  unfoldable pub provider_destroy : Provider W T → M → W → Run (Return × M × W)
  unfolding finalize_provider
  provider_destroy p m w = do
    (m', w') ← finalize_provider p (margo.pop_finalize_callback m) w
    ok (success, m', w')
