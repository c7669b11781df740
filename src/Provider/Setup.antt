-- ===== src/Provider/Setup.antt =====
-- The start of a provider (YP_provider_register of provider.c), and the phonebooks that its
-- configuration made.
use phonebook.Base.{
  ℕ, ◌≤◌, ◌≡◌, ◌≢◌, refl, ◌∙◌, Bool, true, false, none, some, List, [], ◌∷◌, ok, ◌>>=◌,
  if◌then◌else◌, Option-cases, inl, inr, leb, arith,
}
use phonebook.Common.{success}
use phonebook.Backend.{Ptr, null}
use phonebook.Backend.Dummy.{Memory, Allocator, addresses, dummy_backend}
use phonebook.Backend.Dummy.Contract.{dummy_backend-Contract}
use phonebook.Json.{Json}
use phonebook.Margo.{Margo}
use phonebook.Uthash.{Uthash}
use phonebook.Uthash.Items.{lookup}
use phonebook.Provider.{pointer_size, Provider, add_backend_impl}
use phonebook.Provider.Valid.{IsValid, entries}
use phonebook.Provider.Owns.{Owns}
use phonebook.Provider.Configuration.{Resources, HasRoom, read_config, configured, load_phonebooks}
use phonebook.Provider.Configuration.Loading.{load_phonebooks-Loaded}
use phonebook.Provider.Register.{
  ProviderArgs, effective_token, register_rpcs, set_up, provider_register,
  provider_register_dummy_backend, provider_register_backend,
}

if_true {ℓ} : {A : Type ℓ} (b : Bool) (x y : A) → b ≡ true → (if b then x else y) ≡ x
if_true true x y h = refl
if_true false x y h = cc

module _ {T J M : Type 0} ⦃H : Uthash (Memory J) T⦄ (json : Json J) (a : Allocator)
    (margo : Margo M) (r : Resources) where
  provider_register-set_up :
      (mid provider_id : ℕ) (args : ProviderArgs) (config : J) (m : M) (w : Memory J)
      → r.calloc_ok ≡ true
      → margo.is_listening m ≡ true
      → margo.provider_registered_name m "YP_sum" provider_id ≡ none
      → read_config json args.config ≡ some config
      → provider_register {T = T} json a margo r mid provider_id (some args) m w
        ≡ set_up {T = T} json a margo r mid provider_id args config m w
  unfolding provider_register
  provider_register-set_up mid provider_id args config m w co li un rc =
      rw (li, un, rc) (if_true r.calloc_ok _ _ co)

  module _ (mid provider_id : ℕ) (args : ProviderArgs) (m : M) where
    -- The provider before its configuration is read.
    abbrev pub fresh_provider : Provider (Memory J) T
    fresh_provider = record {
      mid = mid;
      provider_id = provider_id;
      pool = args.pool;
      token = effective_token r.strdup_ok args.token;
      num_backend_types = 1;
      backend_types = dummy_backend json a ∷ [];
      backend_types_bytes = 1;
      num_phonebooks = 0;
      phonebooks = H.empty;
      rpc_ids = (register_rpcs margo m provider_id args.pool).0;
    }

    registered_dummy :
        HasRoom r.realloc_room
        → add_backend_impl r.realloc_room
            (record fresh_provider {
              num_backend_types = 0;
              backend_types = [];
              backend_types_bytes = 0;
            })
            (dummy_backend json a)
          ≡ ok (success, fresh_provider)
    unfolding add_backend_impl
    registered_dummy enough = elim (Option-cases r.realloc_room) [
      | inl e ↦ absurd (rw e at enough)
      | inr (room, e) ↦
          let size : pointer_size ≤ room = rw e at enough in
          let fits : leb pointer_size room ≡ true = ground (arith, size) in
          rw (e, add_backend_impl, fits) refl
    ]

    fresh_provider-IsValid : IsValid fresh_provider
    fresh_provider-IsValid = record {
      distinct = rw H.items-empty tt;
      counted = rw H.items-empty refl;
      types_counted = refl;
    }

    pub fresh_provider-Owns :
        (w : Memory J)
        → ((used : List Ptr) → a.calloc used ≢ null)
        → addresses w ≡ []
        → Owns addresses fresh_provider w
    fresh_provider-Owns w mem al = record {
      valid = fresh_provider-IsValid;
      live = rw (al, H.items-empty) refl;
      apart = rw H.items-empty tt;
      known = rw H.items-empty tt;
      types = (dummy_backend-Contract json a mem, tt);
    }

    -- It gets the phonebooks that its configuration lists.
    pub provider_register-load_phonebooks :
        (config : J) (w : Memory J)
        → r.calloc_ok ≡ true
        → HasRoom r.realloc_room
        → margo.is_listening m ≡ true
        → margo.provider_registered_name m "YP_sum" provider_id ≡ none
        → read_config json args.config ≡ some config
        → provider_register {T = T} json a margo r mid provider_id (some args) m w ≡ (
            load_phonebooks json r 0 (configured json config) fresh_provider w >>= λ s. ok (record {
              ret = success;
              provider = some s.0;
              instance_state =
                  margo.push_finalize_callback (register_rpcs margo m provider_id args.pool).1;
              world = s.1;
            }))
    unfolding set_up provider_register_dummy_backend provider_register_backend add_backend_impl
    provider_register-load_phonebooks config w co ro li un rc =
        provider_register-set_up mid provider_id args config m w co li un rc
        ∙ rw (registered_dummy ro) refl

    -- With a configuration that lists no phonebooks it stays as it is.
    pub provider_register_empty :
        (config : J) (w : Memory J)
        → r.calloc_ok ≡ true
        → HasRoom r.realloc_room
        → margo.is_listening m ≡ true
        → margo.provider_registered_name m "YP_sum" provider_id ≡ none
        → read_config json args.config ≡ some config
        → configured json config ≡ []
        → provider_register json a margo r mid provider_id (some args) m w
          ≡ ok (record {
            ret = success;
            provider = some fresh_provider;
            instance_state =
                margo.push_finalize_callback (register_rpcs margo m provider_id args.pool).1;
            world = w;
          })
    unfolding set_up provider_register_dummy_backend provider_register_backend add_backend_impl
        load_phonebooks
    provider_register_empty config w co ro li un rc none_listed =
        provider_register-set_up mid provider_id args config m w co li un rc
        ∙ rw (registered_dummy ro, none_listed) refl

  -- A registration with a listening margo instance that does not know the provider id, with a
  -- configuration that is missing or an object, in a memory without contexts, with callocs and
  -- reallocs that succeed and ids from uuid_generate that differ, ends with YP_SUCCESS. The new
  -- provider owns the contexts of the phonebooks that its configuration made. Its token is the one
  -- that was given, and none where that is empty or strdup gives no copy of it, its only backend is the
  -- dummy one, and its RPC ids are those that margo gave.
  pub provider_register-Owns :
      (mid provider_id : ℕ) (args : ProviderArgs) (config : J) (m : M) (w : Memory J)
      → ((used : List Ptr) → a.calloc used ≢ null)
      → r.calloc_ok ≡ true
      → HasRoom r.realloc_room
      → ((i : ℕ) → r.calloc_ok_at i ≡ true)
      → ((i j : ℕ) → r.uuid_at i ≡ r.uuid_at j → i ≡ j)
      → margo.is_listening m ≡ true
      → margo.provider_registered_name m "YP_sum" provider_id ≡ none
      → read_config json args.config ≡ some config
      → addresses w ≡ []
      → (p : Provider (Memory J) T) × (v : Memory J) × (provider_register json a margo r mid
            provider_id
            (some args)
            m
            w
          ≡ ok (record {
            ret = success;
            provider = some p;
            instance_state =
                margo.push_finalize_callback (register_rpcs margo m provider_id args.pool).1;
            world = v;
          }))
        × Owns addresses p v
        × (p.token ≡ effective_token r.strdup_ok args.token)
        × (p.backend_types ≡ dummy_backend json a ∷ [])
        × (p.rpc_ids ≡ (register_rpcs margo m provider_id args.pool).0)
  unfolding set_up provider_register_dummy_backend provider_register_backend add_backend_impl
  provider_register-Owns mid provider_id args config m w mem co ro ca di li un rc al =
      let start : Provider (Memory J) T = fresh_provider mid provider_id args m in
      let o = fresh_provider-Owns mid provider_id args m w mem al in
      let fresh : (j : ℕ) → 0 ≤ j → lookup (r.uuid_at j) (entries start) ≡ none =
        λ j h. rw H.items-empty (unfold lookup in refl) in
      let (s, run, o', t, b, c) =
        load_phonebooks-Loaded json r addresses ca di (configured json config) 0 start w o fresh in
      (
        s.0,
        s.1,
        provider_register-set_up mid provider_id args config m w co li un rc
            ∙ rw (registered_dummy mid provider_id args m ro, run) refl,
        o',
        t,
        b,
        c,
      )
