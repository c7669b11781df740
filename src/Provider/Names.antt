-- ===== src/Provider/Names.antt =====
-- The RPC names of a provider with margo, from YP_provider_register to YP_provider_destroy of provider.c.
use text.Mathlib.Text.{◌==◌ as str_eq}
use text.Mathlib.TextEquality.{eq_iff}
use phonebook.Base.{
  Bool-cases, inl, inr, ℕ, ◌≡◌, ◌≢◌, refl, ◌∙◌, true, none, some, List, [], ◌∷◌, ok, String, arith,
  if◌then◌else◌,
}
use phonebook.Common.{success}
use phonebook.Backend.{Ptr}
use phonebook.Uthash.{Uthash}
use phonebook.Margo.{Margo, MargoLaws, forget}
use phonebook.Provider.{Provider, RpcIds}
use phonebook.Provider.Owns.{Owns}
use phonebook.Provider.Register.{register_rpc, register_rpcs, deregister_rpcs, provider_destroy}
use phonebook.Backend.{null}
use phonebook.Backend.Dummy.{Memory, Allocator, addresses, dummy_backend}
use phonebook.Json.{Json}
use phonebook.Provider.Configuration.{Resources, HasRoom, read_config}
use phonebook.Provider.Register.{ProviderArgs, effective_token, provider_register}
use phonebook.Provider.Setup.{provider_register-Owns}
use phonebook.Provider.Shutdown.{provider_destroy-frees}

module _ {M : Type 0} (margo : Margo M) where
  -- Each RPC of a provider is registered under its name.
  abbrev pub Named : M → ℕ → RpcIds → Type 0
  Named m provider_id ids =
      (margo.provider_registered_name m "YP_create_phonebook" provider_id
        ≡ some ids.create_phonebook_id)
      × (margo.provider_registered_name m "YP_open_phonebook" provider_id
          ≡ some ids.open_phonebook_id)
      × (margo.provider_registered_name m "YP_close_phonebook" provider_id
          ≡ some ids.close_phonebook_id)
      × (margo.provider_registered_name m "YP_destroy_phonebook" provider_id
          ≡ some ids.destroy_phonebook_id)
      × (margo.provider_registered_name m "YP_list_phonebooks" provider_id
          ≡ some ids.list_phonebooks_id)
      × (margo.provider_registered_name m "YP_hello" provider_id ≡ some ids.hello_id)
      × (margo.provider_registered_name m "YP_sum" provider_id ≡ some ids.sum_id)

  -- None of the names is registered.
  abbrev pub Unnamed : M → ℕ → Type 0
  Unnamed m provider_id =
      (margo.provider_registered_name m "YP_create_phonebook" provider_id ≡ none)
      × (margo.provider_registered_name m "YP_open_phonebook" provider_id ≡ none)
      × (margo.provider_registered_name m "YP_close_phonebook" provider_id ≡ none)
      × (margo.provider_registered_name m "YP_destroy_phonebook" provider_id ≡ none)
      × (margo.provider_registered_name m "YP_list_phonebooks" provider_id ≡ none)
      × (margo.provider_registered_name m "YP_hello" provider_id ≡ none)
      × (margo.provider_registered_name m "YP_sum" provider_id ≡ none)

  module _ (laws : MargoLaws M margo) where
    open laws use {
      register_self, register_other, deregister_names, data_names, response_names, callback_names,
      pop_names,
    }

    registered_names :
        (m : M) (name other : String) (provider_id pool : ℕ)
        → margo.provider_registered_name
            (register_rpc margo m name provider_id pool).1
            other
            provider_id
          ≡ (if str_eq name other
              then some (register_rpc margo m name provider_id pool).0
              else margo.provider_registered_name m other provider_id)
    unfolding register_rpc
    registered_names m name other provider_id pool = elim (Bool-cases (str_eq name other)) [
      | inl e ↦
          let same : name ≡ other = (eq_iff name other).0 e in
          rw e
            (data_names _ _ other provider_id ∙ rw (← same) (register_self m name provider_id pool))
      | inr e ↦
          rw e (data_names _ _ other provider_id ∙ register_other m name other provider_id pool e)
    ]

    pub register_rpcs-Named :
        (m : M) (provider_id pool : ℕ)
        → let (ids, m') = register_rpcs margo m provider_id pool in
          Named (margo.push_finalize_callback m') provider_id ids
    unfolding register_rpcs
    register_rpcs-Named m provider_id pool = (
      simp (callback_names, registered_names, response_names) refl,
      simp (callback_names, registered_names, response_names) refl,
      simp (callback_names, registered_names, response_names) refl,
      simp (callback_names, registered_names, response_names) refl,
      simp (callback_names, registered_names, response_names) refl,
      simp (callback_names, registered_names, response_names) refl,
      simp (callback_names, registered_names) refl,
    )

    deregistered_names :
        (m : M) (ids : RpcIds) (name : String) (provider_id : ℕ)
        → margo.provider_registered_name (deregister_rpcs margo m ids) name provider_id
          ≡ forget ids.sum_id (
              forget ids.hello_id (
                forget ids.list_phonebooks_id (
                  forget ids.destroy_phonebook_id (
                    forget ids.close_phonebook_id (
                      forget ids.open_phonebook_id (
                        forget ids.create_phonebook_id
                          (margo.provider_registered_name m name provider_id)))))))
    unfolding deregister_rpcs
    deregistered_names m ids name provider_id = simp deregister_names refl

    pub deregister_rpcs-Unnamed :
        (m : M) (provider_id : ℕ) (ids : RpcIds)
        → Named m provider_id ids
        → Unnamed (deregister_rpcs margo m ids) provider_id
    deregister_rpcs-Unnamed m provider_id ids h =
        let (a, b, c, d, e, f, g) = h in
        (
          deregistered_names m ids _ provider_id ∙ rw a (ground arith),
          deregistered_names m ids _ provider_id ∙ rw b (ground arith),
          deregistered_names m ids _ provider_id ∙ rw c (ground arith),
          deregistered_names m ids _ provider_id ∙ rw d (ground arith),
          deregistered_names m ids _ provider_id ∙ rw e (ground arith),
          deregistered_names m ids _ provider_id ∙ rw f (ground arith),
          deregistered_names m ids _ provider_id ∙ rw g (ground arith),
        )

    pub pop-Named :
        (m : M) (provider_id : ℕ) (ids : RpcIds)
        → Named m provider_id ids
        → Named (margo.pop_finalize_callback m) provider_id ids
    pop-Named m provider_id ids (a, b, c, d, e, f, g) = (
      pop_names _ _ _ ∙ a,
      pop_names _ _ _ ∙ b,
      pop_names _ _ _ ∙ c,
      pop_names _ _ _ ∙ d,
      pop_names _ _ _ ∙ e,
      pop_names _ _ _ ∙ f,
      pop_names _ _ _ ∙ g,
    )

    -- To destroy a provider that owns its contexts, and whose RPCs are registered with margo under
    -- their names, ends with YP_SUCCESS. None of its seven names is registered for its id afterwards, and no
    -- context of a backend is alive.
    pub provider_destroy-Unnamed :
        {W T : Type 0} ⦃H : Uthash W T⦄ (alive : W → List Ptr) (provider_id : ℕ) (p : Provider W T)
        (w : W) (m : M)
        → Owns alive p w
        → Named m provider_id p.rpc_ids
        → (v : W) × (m' : M) × (provider_destroy margo p m w ≡ ok (success, m', v))
          × Unnamed m' provider_id
          × (alive v ≡ [])
    provider_destroy-Unnamed alive provider_id p w m o h =
        let (v, run, gone) = provider_destroy-frees alive p w o margo m in
        (
          v,
          _,
          run,
          deregister_rpcs-Unnamed _ provider_id p.rpc_ids (pop-Named m provider_id p.rpc_ids h),
          gone,
        )

    module _ {T J : Type 0} ⦃H : Uthash (Memory J) T⦄ (json : Json J) (a : Allocator)
        (r : Resources) where
      -- A registration with a listening margo instance that does not know the provider id, with a
      -- configuration that is missing or an object, in a memory without contexts, with callocs and
      -- a realloc that give memory, the block of the realloc having room for a pointer, and with ids from
      -- uuid_generate that differ, ends with YP_SUCCESS. The new provider owns the contexts of the
      -- phonebooks that its configuration made. Its token is the one that was given, and none where
      -- that is empty or strdup gives no copy of it, its only backend is the dummy one, and its seven
      -- RPCs are registered with margo, each id under its name.
      pub provider_register-Named :
          (mid provider_id : ℕ) (args : ProviderArgs) (config : J) (m : M) (w : Memory J)
          → ((used : List Ptr) → a.calloc used ≢ null)
          → r.calloc_ok ≡ true
          → HasRoom r.realloc_room
          → ((i : ℕ) → r.calloc_ok_at i ≡ true)
          → ((i j : ℕ) → r.uuid_at i ≡ r.uuid_at j → i ≡ j)
          → margo.is_listening m ≡ true
          → margo.provider_registered_name m "YP_sum" provider_id ≡ none
          → read_config json args.config ≡ some config
          → addresses w ≡ []
          → (p : Provider (Memory J) T) × (m' : M) × (v : Memory J) × (provider_register json a
                margo r mid provider_id
                (some args)
                m
                w
              ≡ ok (record { ret = success; provider = some p; instance_state = m'; world = v }))
            × Owns addresses p v
            × (p.token ≡ effective_token r.strdup_ok args.token)
            × (p.backend_types ≡ dummy_backend json a ∷ [])
            × Named m' provider_id p.rpc_ids
      provider_register-Named mid provider_id args config m w me co ro ca di li un rc al =
          let (p, v, run, o, token, types, ids) =
            provider_register-Owns json a margo r mid provider_id args config m w me co ro ca di li
              un rc al in
          (p, _, v, run, o, token, types, rw ids (register_rpcs-Named m provider_id args.pool))
