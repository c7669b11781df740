-- ===== src/Provider/GetConfig/Bounds.antt =====
-- YP_provider_get_config (provider.c) walks the hash of phonebooks as if it were an array.
use phonebook.Base.{
  true, ◌-◌, ℕ, suc, ◌<◌, ◌≡◌, refl, ap, some, List, [], ◌∷◌, ok, fault, ◌>>=◌, arith, length,
  String, Run-cases, inl, inr,
}
use phonebook.Base.Words.{u64_mod}
use phonebook.Backend.{Ptr}
use phonebook.Common.{PhonebookId}
use phonebook.Json.{Json}
use phonebook.Uthash.{Uthash}
use phonebook.Uthash.Items.{Phonebook}
use phonebook.Backend.Contract.{holds}
use phonebook.Provider.{Provider}
use phonebook.Provider.Valid.{IsValid, entries}
use phonebook.Provider.Owns.{Owns, ctxs}
use phonebook.Provider.GetConfig.{
  provider_config, phonebook_at, phonebook_config, phonebook_configs, provider_get_config,
}

head_holds :
    {W : Type 0} (alive : W → List Ptr) (l : List (Phonebook W)) (b : Phonebook W) (w : W)
    → l ≡ b ∷ []
    → alive w ≡ ctxs l
    → holds b.ctx (alive w) ≡ true
unfolding holds
head_holds alive l b w e f = rw (f, e) (ground arith)

module _ {W J : Type 0} (json : Json J) (unparse : PhonebookId → String) where
  past_head :
      (n i : ℕ) (l : List (Phonebook W)) (w : W)
      → phonebook_configs json unparse (suc n) (suc i) l w ≡ fault
  unfolding phonebook_configs phonebook_at
  past_head n i [] w = refl
  past_head n i (b ∷ l) w = refl

  two_rounds :
      (n : ℕ) (l : List (Phonebook W)) (w : W)
      → phonebook_configs json unparse (suc (suc n)) 0 l w ≡ fault
  unfolding phonebook_configs phonebook_at
  two_rounds n [] w = refl
  two_rounds n (b ∷ l) w = elim (Run-cases (phonebook_config json unparse b w)) [
    | inl (r, e) ↦ rw (e, ◌>>=◌, past_head n 0 (b ∷ l) r.1) refl
    | inr e ↦ rw e refl
  ]

module _ {W T J : Type 0} ⦃H : Uthash W T⦄ (json : Json J) (unparse : PhonebookId → String) where
  -- In a well-formed provider with two phonebooks or more, fewer than 2^64,
  -- YP_provider_get_config reads beyond the first entry of the hash.
  pub provider_get_config-fault :
      (p : Provider W T) (w : W)
      → IsValid p
      → 1 < length (entries p)
      → length (entries p) < u64_mod
      → provider_get_config json unparse (some p) w ≡ fault
  unfolding provider_get_config provider_config
  provider_get_config-fault p w v h k =
      let e : p.num_phonebooks ≡ suc (suc (p.num_phonebooks - 2)) = omega (arith, v.counted) in
      rw (e, two_rounds json unparse (p.num_phonebooks - 2) (entries p) w) refl

  -- For a provider that owns its contexts and has one phonebook, YP_provider_get_config gives the
  -- text of one entry: the id, the name of the backend and the configuration that the backend
  -- reports.
  pub provider_get_config_one :
      (alive : W → List Ptr) (p : Provider W T) (b : Phonebook W) (w : W)
      → Owns alive p w
      → entries p ≡ b ∷ []
      → (text : String) × (v : W) × (b.fn.get_config b.ctx w ≡ ok (text, v))
        × (alive v ≡ alive w)
        × (provider_get_config json unparse (some p) w
            ≡ ok (
              some (
                  json.to_json_string (
                    some (
                      json.object_of (
                        (
                          "phonebooks",
                          some (
                              json.array_of (
                                json.object_of (
                                  ("__id__", some (json.new_string (unparse b.id)))
                                  ∷ ("type", some (json.new_string b.fn.name))
                                  ∷ ("config", json.parse text)
                                  ∷ [])
                                ∷ [])),
                        )
                        ∷ [])))),
              v,
            ))
  unfolding provider_get_config provider_config phonebook_configs phonebook_config phonebook_at
  provider_get_config_one alive p b w o e =
      let known = rw e at o.known in
      let ((text, v), run, same) =
        known.0.configures b.ctx w (head_holds alive (entries p) b w e o.live) in
      let count : p.num_phonebooks ≡ 1 = omega (arith, o.valid.counted, ap length e) in
      (text, v, run, same, rw (count, e, run) refl)
