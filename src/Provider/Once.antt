-- ===== src/Provider/Once.antt =====
-- The ids of providers (YP_provider_register of provider.c).
use phonebook.Base.{ℕ, ◌≡◌, refl, ◌∙◌, true, Option, some, ok, String}
use phonebook.Common.{err_invalid_provider}
use phonebook.Backend.Dummy.{Memory, Allocator}
use phonebook.Json.{Json}
use phonebook.Margo.{Margo, MargoLaws}
use phonebook.Uthash.{Uthash}
use phonebook.Provider.Configuration.{Resources}
use phonebook.Provider.Register.{
  ProviderArgs, register_rpc, register_rpcs, provider_register, refused,
}

module _ {M : Type 0} (margo : Margo M) (laws : MargoLaws M margo) where
  open laws use {
    register_self, data_names, callback_names, register_listening, data_listening,
    response_listening, callback_listening,
  }

  register_rpc_self :
      (m : M) (name : String) (provider_id pool : ℕ)
      → margo.provider_registered_name
          (register_rpc margo m name provider_id pool).1
          name
          provider_id
        ≡ some (register_rpc margo m name provider_id pool).0
  unfolding register_rpc
  register_rpc_self m name provider_id pool =
      data_names _ _ name provider_id ∙ register_self m name provider_id pool

  register_rpc-listening :
      (m : M) (name : String) (provider_id pool : ℕ)
      → margo.is_listening (register_rpc margo m name provider_id pool).1 ≡ margo.is_listening m
  unfolding register_rpc
  register_rpc-listening m name provider_id pool =
      data_listening _ _ ∙ register_listening m name provider_id pool

  -- After the RPC registrations for a provider id on a listening margo instance,
  -- YP_provider_register with that id is refused with YP_ERR_INVALID_PROVIDER, whatever its
  -- arguments, and changes neither margo nor the memory.
  pub provider_register_twice :
      {J T : Type 0} ⦃H : Uthash (Memory J) T⦄ (json : Json J) (a : Allocator) (r : Resources)
      (mid provider_id pool : ℕ) (args : Option ProviderArgs) (m : M) (w : Memory J)
      → margo.is_listening m ≡ true
      → let m' = margo.push_finalize_callback (register_rpcs margo m provider_id pool).1 in
        provider_register {T = T} json a margo r mid provider_id args m' w
        ≡ ok (refused err_invalid_provider m' w)
  unfolding provider_register register_rpcs
  provider_register_twice json a r mid provider_id pool args m w li =
      let m' = margo.push_finalize_callback (register_rpcs margo m provider_id pool).1 in
      let listens : margo.is_listening m' ≡ true =
        simp (register_rpc-listening, response_listening, callback_listening) li in
      let taken : margo.provider_registered_name m' "YP_sum" provider_id ≡ some _ =
        callback_names _ "YP_sum" provider_id ∙ register_rpc_self _ "YP_sum" provider_id pool in
      rw (listens, taken) refl
