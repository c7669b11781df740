-- ===== src/Remote/Restart.antt =====
-- A provider that is registered with the configuration that another one wrote (YP_provider_get_config and
-- YP_provider_register of provider.c).
use phonebook.Base.{
  ℕ, suc, ◌+◌, ◌<◌, ◌++◌, length-append, ◌≡◌, ◌≢◌, refl, ◌∙◌, true, Option, none, some, String,
  List, [], ◌∷◌, ok, length, arith, map, ap, OnOk-eq, subst,
}
use phonebook.Common.{success, PhonebookId}
use phonebook.Backend.{Ptr, null}
use phonebook.Backend.Contract.{All}
use phonebook.Backend.Dummy.{Memory, Allocator, addresses, dummy_get_config}
use phonebook.Json.{Json, ObjectLaws, member}
use phonebook.Margo.{Margo}
use phonebook.Uthash.{Uthash}
use phonebook.Uthash.Items.{Phonebook}
use phonebook.Types.RoundTrip.{IsUuid}
use phonebook.Provider.{Provider}
use phonebook.Provider.Valid.{entries}
use phonebook.Provider.Listing.{ids_of}
use phonebook.Provider.GetConfig.{
  phonebook_at, phonebook_config, phonebook_configs, provider_config, provider_get_config,
}
use phonebook.Provider.Configuration.{Resources, HasRoom, read_config, configured}
use phonebook.Provider.Register.{ProviderArgs, effective_token, provider_register, register_rpcs}
use phonebook.Provider.Setup.{fresh_provider, provider_register-load_phonebooks}
use phonebook.Remote.Spec.{Directory, knows}
use phonebook.Remote.Stands.{Stands, parses, dummy}
use phonebook.Remote.Loads.{adds, with_entries, load_phonebooks-Stands}
use phonebook.Remote.Lifetime.{fresh_provider-Stands}

module _ {J : Type 0} (json : Json J) (laws : ObjectLaws J json) where
  -- The object with these entries, as YP_provider_get_config makes it.
  abbrev listing_of : List J → J
  listing_of configs = json.object_of (("phonebooks", some (json.array_of configs)) ∷ [])

  listing_of-configured :
      (configs : List J) → configured json (listing_of configs) ≡ map some configs
  unfolding configured member
  listing_of-configured configs =
      rw (configured, laws.members _ "phonebooks", laws.array_type configs) (laws.elements configs)

  -- The entry of a phonebook of the dummy backend.
  abbrev entry_of : String → J
  entry_of id = json.object_of (
      ("__id__", some (json.new_string id))
      ∷ ("type", some (json.new_string "dummy"))
      ∷ ("config", json.parse "{}")
      ∷ [])

  entry_of-adds :
      (id : String)
      → parses json (json.to_json_string (json.parse "{}")) ≡ true
      → adds json (some (entry_of id)) ≡ true
  unfolding adds member
  entry_of-adds id h =
      rw
        (
          adds,
          laws.object_type _,
          laws.members _ "type",
          laws.string_type "dummy",
          laws.string_value "dummy",
          laws.members _ "config",
        )
        h

  module _ (uuid_at : ℕ → PhonebookId) where
    -- Entries that all become phonebooks.
    with_entries-All :
        (configs : List J) (i : ℕ) (d : Directory)
        → All (λ c. adds json (some c) ≡ true) configs
        → let d' = with_entries json uuid_at i (map some configs) d in
          (length d'.ids ≡ length d.ids + length configs)
          × (d'.token ≡ d.token)
          × (d'.printed ≡ d.printed)
    unfolding with_entries
    with_entries-All [] i d h = (omega arith, refl, refl)
    with_entries-All (c ∷ configs) i d h =
        let (n, t, o) =
          with_entries-All configs (suc i) (record d { ids = d.ids ++ uuid_at i ∷ [] }) h.1 in
        rw (with_entries, h.0) (omega (arith, n, length-append d.ids (uuid_at i ∷ [])), t, o)

  module _ {T : Type 0} ⦃H : Uthash (Memory J) T⦄ (a : Allocator) (unparse : PhonebookId → String)
      (readable : parses json (json.to_json_string (json.parse "{}")) ≡ true) where
    abbrev Written : Provider (Memory J) T × Memory J → ℕ → Type 0
    Written s n =
        (configs : List J) × (provider_config json unparse s.0 s.1 ≡ ok (listing_of configs, s.1))
        × All (λ c. adds json (some c) ≡ true) configs
        × (length configs ≡ n)

    provider_config-Written :
        (s : Provider (Memory J) T × Memory J) (d : Directory)
        → Stands json a s d
        → length d.ids < 2
        → Written s (length d.ids)
    unfolding provider_config phonebook_configs phonebook_config phonebook_at dummy_get_config
    provider_config-Written s d r h = go (entries s.0) refl
      where
        go : (l : List (Phonebook (Memory J))) → entries s.0 ≡ l → Written s (length d.ids)
        go [] e =
            let ids : [] ≡ d.ids = rw e at r.ids in
            let count : s.0.num_phonebooks ≡ 0 = omega (arith, r.owns.valid.counted, ap length e) in
            rw (provider_config, count) ([], refl, tt, ap length ids)
        go (b ∷ []) e =
            let ids : b.id ∷ [] ≡ d.ids = rw e at r.ids in
            let count : s.0.num_phonebooks ≡ 1 = omega (arith, r.owns.valid.counted, ap length e) in
            let of_dummy : All (λ b. b.fn ≡ dummy json a) (b ∷ []) = rw e at r.dummies in
            rw (provider_config, count, e, phonebook_config, of_dummy.0)
              (
                entry_of (unparse b.id) ∷ [],
                refl,
                (entry_of-adds (unparse b.id) readable, tt),
                ap length ids,
              )
        go (b ∷ c ∷ l) e =
            let ids : b.id ∷ c.id ∷ ids_of l ≡ d.ids = rw e at r.ids in
            absurd (omega (arith, h, ap length ids))

    module _ {M : Type 0} (margo : Margo M) (r : Resources)
        (memory : (used : List Ptr) → a.calloc used ≢ null)
        (allocated : (i : ℕ) → r.calloc_ok_at i ≡ true)
        (distinct : (i j : ℕ) → r.uuid_at i ≡ r.uuid_at j → i ≡ j)
        (uuids : (i : ℕ) → IsUuid (r.uuid_at i)) where
      -- A provider of at most one dummy phonebook writes its configuration. Another one that is registered
      -- with that text, where json-c reads back what it wrote, in a memory without contexts, with callocs
      -- and a realloc that give memory, the block of the realloc having room for a pointer, ids from uuid_generate that differ, and a listening margo instance
      -- that does not know its id, has as many phonebooks of the dummy backend.
      pub provider_register-provider_get_config :
          (s : Provider (Memory J) T × Memory J) (d : Directory) (config : J)
          (mid provider_id pool : ℕ) (token : Option String) (m : M) (w : Memory J)
          → Stands json a s d
          → length d.ids < 2
          → provider_config json unparse s.0 s.1 ≡ ok (config, s.1)
          → json.parse (json.to_json_string (some config)) ≡ some config
          → r.calloc_ok ≡ true
          → HasRoom r.realloc_room
          → margo.is_listening m ≡ true
          → margo.provider_registered_name m "YP_sum" provider_id ≡ none
          → addresses w ≡ []
          → (text : String) × (q : Provider (Memory J) T) × (v : Memory J) × (ids : List
              PhonebookId)
            × (provider_get_config json unparse (some s.0) s.1 ≡ ok (some text, s.1))
            × (provider_register json a margo r mid provider_id
                  (some (record { token = token; config = some text; pool = pool }))
                  m
                  w
                ≡ ok (record {
                  ret = success;
                  provider = some q;
                  instance_state =
                      margo.push_finalize_callback (register_rpcs margo m provider_id pool).1;
                  world = v;
                }))
            × Stands json a
                (q, v)
                (record {
                  token = effective_token r.strdup_ok token;
                  ids = ids;
                  printed = w.stdout;
                })
            × (length ids ≡ length d.ids)
      unfolding provider_get_config read_config knows
      provider_register-provider_get_config s d config mid provider_id pool token m w st few written
            reads co ro li un none_alive =
          let (configs, shape, all, n) = provider_config-Written s d st few in
          let text = json.to_json_string (some config) in
          let args : ProviderArgs = record { token = token; config = some text; pool = pool } in
          let d0 : Directory = record {
            token = effective_token r.strdup_ok token;
            ids = [];
            printed = w.stdout;
          } in
          let same : config ≡ listing_of configs =
            OnOk-eq (λ x. x.0 ≡ listing_of configs) (provider_config json unparse s.0 s.1)
              (rw shape refl) written in
          let read : read_config json (some text) ≡ some config =
            rw (read_config, reads, same, laws.object_type) refl in
          let list : configured json config ≡ map some configs =
            rw same (listing_of-configured configs) in
          let (s', loaded, stands) =
            load_phonebooks-Stands json a memory r allocated distinct uuids (configured json config)
              0 (fresh_provider {T = T} json a margo r mid provider_id args m, w) d0
              (fresh_provider-Stands T json a memory margo r mid provider_id args m w none_alive)
              (λ j h. refl) in
          let st' : Stands json a s' (with_entries json r.uuid_at 0 (map some configs) d0) =
            subst (λ es. Stands json a s' (with_entries json r.uuid_at 0 es d0)) list stands in
          let (grown, same_token, same_printed) = with_entries-All r.uuid_at configs 0 d0 all in
          (
            text,
            s'.0,
            s'.1,
            (with_entries json r.uuid_at 0 (map some configs) d0).ids,
            rw (provider_get_config, written) refl,
            provider_register-load_phonebooks {T = T} json a margo r mid provider_id args m config w
                  co ro li un read
                ∙ rw loaded refl,
            record {
              owns = st'.owns;
              types = st'.types;
              dummies = st'.dummies;
              token = st'.token ∙ same_token;
              ids = st'.ids;
              uuids = st'.uuids;
              printed = st'.printed ∙ same_printed;
            },
            omega (arith, grown, n),
          )
