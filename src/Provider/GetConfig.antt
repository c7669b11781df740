-- ===== src/Provider/GetConfig.antt =====
-- YP_provider_get_config of src/provider.c; uuid_unparse is a parameter.
pub mod Bounds
use phonebook.Base.{
  ℕ, zero, suc, ◌+◌, Option, none, some, List, [], ◌∷◌, Run, ok, fault, ◌>>=◌, String,
}
use phonebook.Common.{PhonebookId}
use phonebook.Json.{Json}
use phonebook.Uthash.{Uthash}
use phonebook.Uthash.Items.{Phonebook}
use phonebook.Provider.{Provider}

-- `&provider->phonebooks[i]`: the hash is not an array. `phonebooks` points to the entry at its head,
-- an object of its own, so there is an element at index 0 only.
unfoldable pub phonebook_at : {W : Type 0} → List (Phonebook W) → ℕ → Option (Phonebook W)
phonebook_at [] i = none
phonebook_at (b ∷ l) zero = some b
phonebook_at (b ∷ l) (suc i) = none

module _ {W J : Type 0} (json : Json J) (uuid_unparse : PhonebookId → String) where
  -- The body of the loop of YP_provider_get_config.
  unfoldable pub phonebook_config : Phonebook W → W → Run (J × W)
  phonebook_config phonebook w = do
    (phonebook_config_str, w') ← phonebook.fn.get_config phonebook.ctx w
    ok (
      json.object_of (
          ("__id__", some (json.new_string (uuid_unparse phonebook.id)))
          ∷ ("type", some (json.new_string phonebook.fn.name))
          ∷ ("config", json.parse phonebook_config_str)
          ∷ []),
      w',
    )

  -- The loop from index `i`, with the rounds that are left.
  unfoldable pub phonebook_configs : (rounds i : ℕ) → List (Phonebook W) → W → Run (List J × W)
  unfolding phonebook_config phonebook_at
  phonebook_configs zero i l w = ok ([], w)
  phonebook_configs (suc rounds) i l w = elim (phonebook_at l i) [
    | none ↦ fault
    | some phonebook ↦ do
      (config, w') ← phonebook_config phonebook w
      (rest, w'') ← phonebook_configs rounds (i + 1) l w'
      ok (config ∷ rest, w'')
  ]

module _ {W T J : Type 0} ⦃H : Uthash W T⦄ (json : Json J)
    (uuid_unparse : PhonebookId → String) where
  -- The object that YP_provider_get_config makes of a provider.
  unfoldable pub provider_config : Provider W T → W → Run (J × W)
  unfolding phonebook_configs
  provider_config p w = do
    (configs, w') ← phonebook_configs json uuid_unparse p.num_phonebooks 0 (H.items p.phonebooks) w
    ok (json.object_of (("phonebooks", some (json.array_of configs)) ∷ []), w')

  -- YP_provider_get_config; `none` is NULL.
  unfoldable pub provider_get_config : Option (Provider W T) → W → Run (Option String × W)
  unfolding provider_config
  provider_get_config none w = ok (none, w)
  provider_get_config (some p) w = do
    (config, w') ← provider_config p w
    ok (some (json.to_json_string (some config)), w')
