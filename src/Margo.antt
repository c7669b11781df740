-- ===== src/Margo.antt =====
-- What the sources use of margo to register RPCs. `M` is the state of a margo instance.
use text.Mathlib.Text.{◌==◌ as str_eq}
use phonebook.Base.{◌≢◌, ℕ, ◌≡◌, Bool, false, Option, none, some, String, ◌==◌, if◌then◌else◌}

pub record Margo (M : Type 0) : Type 0 where
  -- margo_is_listening
  pub is_listening : M → Bool
  -- margo_provider_registered_name: the id of a name that is registered for a provider id
  pub provider_registered_name : M → String → ℕ → Option ℕ
  -- MARGO_REGISTER_PROVIDER with a name, a provider id and a pool
  pub register_provider : M → String → ℕ → ℕ → ℕ × M
  -- margo_register_data: the provider becomes the data of an id
  pub register_data : M → ℕ → M
  -- margo_registered_disable_response with HG_TRUE
  pub disable_response : M → ℕ → M
  -- margo_deregister
  pub deregister : M → ℕ → M
  -- margo_provider_push_finalize_callback and margo_provider_pop_finalize_callback
  pub push_finalize_callback : M → M
  pub pop_finalize_callback : M → M

-- What margo_deregister makes of the id that a name has.
abbrev pub forget : ℕ → Option ℕ → Option ℕ
forget id none = none
forget id (some other) = if other == id then none else some other

-- The documented behaviour: a name is registered once MARGO_REGISTER_PROVIDER has registered it, and
-- other names are as before; margo_deregister takes off the name of an id; the data, the responses and
-- the callbacks do not touch the names; and no call touches the mode of the instance.
pub record MargoLaws (M : Type 0) (margo : Margo M) : Type 0 where
  pub register_self :
      (m : M) (name : String) (provider_id pool : ℕ)
      → let (id, m') = margo.register_provider m name provider_id pool in
        margo.provider_registered_name m' name provider_id ≡ some id
  pub data_names :
      (m : M) (id : ℕ) (name : String) (provider_id : ℕ)
      → margo.provider_registered_name (margo.register_data m id) name provider_id
        ≡ margo.provider_registered_name m name provider_id
  pub register_other :
      (m : M) (name other : String) (provider_id pool : ℕ)
      → str_eq name other ≡ false
      → margo.provider_registered_name
          (margo.register_provider m name provider_id pool).1
          other
          provider_id
        ≡ margo.provider_registered_name m other provider_id
  pub deregister_names :
      (m : M) (id : ℕ) (name : String) (provider_id : ℕ)
      → margo.provider_registered_name (margo.deregister m id) name provider_id
        ≡ forget id (margo.provider_registered_name m name provider_id)
  pub response_names :
      (m : M) (id : ℕ) (name : String) (provider_id : ℕ)
      → margo.provider_registered_name (margo.disable_response m id) name provider_id
        ≡ margo.provider_registered_name m name provider_id
  pub pop_names :
      (m : M) (name : String) (provider_id : ℕ)
      → margo.provider_registered_name (margo.pop_finalize_callback m) name provider_id
        ≡ margo.provider_registered_name m name provider_id
  pub callback_names :
      (m : M) (name : String) (provider_id : ℕ)
      → margo.provider_registered_name (margo.push_finalize_callback m) name provider_id
        ≡ margo.provider_registered_name m name provider_id
  pub register_listening :
      (m : M) (name : String) (provider_id pool : ℕ)
      → margo.is_listening (margo.register_provider m name provider_id pool).1
        ≡ margo.is_listening m
  pub data_listening :
      (m : M) (id : ℕ) → margo.is_listening (margo.register_data m id) ≡ margo.is_listening m
  pub response_listening :
      (m : M) (id : ℕ) → margo.is_listening (margo.disable_response m id) ≡ margo.is_listening m
  pub callback_listening :
      (m : M) → margo.is_listening (margo.push_finalize_callback m) ≡ margo.is_listening m

-- What a client or an admin uses of it: names without a provider id.
pub record MargoNames (M : Type 0) : Type 0 where
  -- margo_registered_name: the id of a name, `none` where its flag is HG_FALSE
  pub registered_name : M → String → Option ℕ
  -- MARGO_REGISTER
  pub register : M → String → ℕ × M
  -- margo_registered_disable_response with HG_TRUE
  pub disable_response : M → ℕ → M

-- The documented behaviour: a name that is registered is found under its id, and the calls do not touch
-- other names.
pub record NamesLaws (M : Type 0) (names : MargoNames M) : Type 0 where
  pub register_self :
      (m : M) (name : String)
      → let (id, m') = names.register m name in names.registered_name m' name ≡ some id
  pub register_other :
      (m : M) (name other : String)
      → name ≢ other
      → names.registered_name (names.register m name).1 other ≡ names.registered_name m other
  pub response_names :
      (m : M) (id : ℕ) (name : String)
      → names.registered_name (names.disable_response m id) name ≡ names.registered_name m name
