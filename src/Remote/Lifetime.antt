-- ===== src/Remote/Lifetime.antt =====
-- A provider from YP_provider_register over the requests of its users to YP_provider_destroy
-- (provider.c).
use phonebook.Base.{
  inr, inl, ℕ, ◌≡◌, ◌≢◌, refl, true, none, some, List, [], Run, ok, fault, ◌>>=◌, Run-cases, inl,
  inr,
}
use phonebook.Backend.{Ptr, null}
use phonebook.Backend.Dummy.{Memory, Allocator, addresses}
use phonebook.Json.{Json}
use phonebook.Margo.{Margo}
use phonebook.Uthash.{Uthash}
use phonebook.Types.Wire.{Proc, ProcLaws}
use phonebook.Types.Messages.{ProcStrings}
use phonebook.Provider.Configuration.{Resources, HasRoom, read_config, configured}
use phonebook.Provider.Register.{
  ProviderArgs, effective_token, provider_register, provider_destroy, register_rpcs,
}
use phonebook.Provider.Setup.{
  provider_register-load_phonebooks, fresh_provider, fresh_provider-Owns,
}
use phonebook.Provider.Shutdown.{provider_destroy-frees}
use phonebook.Examples.Served.{Garbage}
use phonebook.Remote.{Command, Reply, Fate, serve_all}
use phonebook.Types.RoundTrip.{IsUuid}
use phonebook.Remote.Loads.{with_entries, load_phonebooks-Stands}
use phonebook.Remote.Spec.{knows, Directory, AllFit, steps}
use phonebook.Remote.Stands.{Stands, parses}
use phonebook.Remote.Answered.{IsGarbage}
use phonebook.Remote.Refines.{serve_all-steps}

module _ {J M : Type 0} (T : Type 0) ⦃H : Uthash (Memory J) T⦄ (json : Json J) (a : Allocator)
    (margo : Margo M) (r : Resources) (proc : Proc) (strings : ProcStrings) (g : Garbage) where
  -- The replies of a provider that is started, used and stopped. A start that is refused has none.
  unfoldable pub lifetime :
      (mid provider_id : ℕ)
      → ProviderArgs
      → List (Fate × Command)
      → M
      → Memory J
      → Run (List Reply × Memory J)
  lifetime mid provider_id args l m w = do
    started ← provider_register {T = T} json a margo r mid provider_id (some args) m w
    elim started.provider [
      | none ↦ ok ([], started.world)
      | some p ↦ do
        (replies, s) ← serve_all proc strings g l (p, started.world)
        (ret, m', w') ← provider_destroy margo s.0 started.instance_state s.1
        ok (replies, w')
    ]

module _ {J M : Type 0} (T : Type 0) ⦃H : Uthash (Memory J) T⦄ (json : Json J) (a : Allocator)
    (memory : (used : List Ptr) → a.calloc used ≢ null) (margo : Margo M) (r : Resources) where
  pub fresh_provider-Stands :
      (mid provider_id : ℕ) (args : ProviderArgs) (m : M) (w : Memory J)
      → addresses w ≡ []
      → Stands json a
          (fresh_provider {T = T} json a margo r mid provider_id args m, w)
          (record { token = effective_token r.strdup_ok args.token; ids = []; printed = w.stdout })
  fresh_provider-Stands mid provider_id args m w none_alive = record {
    owns = fresh_provider-Owns json a margo r mid provider_id args m w memory none_alive;
    types = refl;
    dummies = rw H.items-empty tt;
    token = refl;
    ids = rw H.items-empty refl;
    uuids = tt;
    printed = refl;
  }

  module _ (proc : Proc) (laws : ProcLaws proc) (strings : ProcStrings) (g : Garbage)
      (k : IsGarbage g) where
    -- What a lifetime should do: reply as the directory, or fault where it does, and leave no context.
    abbrev pub Replies : Run (List Reply × Memory J) → Run (List Reply × Directory) → Type 0
    Replies run fault = run ≡ fault
    Replies run (ok (replies, d)) = (w : Memory J) × (run ≡ ok (replies, w)) × (addresses w ≡ [])

    -- What the users of the new provider find.
    abbrev pub at_first : ProviderArgs → J → Memory J → Directory
    at_first args config w =
        with_entries json r.uuid_at 0 (configured json config)
          (record { token = effective_token r.strdup_ok args.token; ids = []; printed = w.stdout })

    -- A provider that is registered with a listening margo instance that does not know its id, and a
    -- configuration that is missing or an object, in a memory without contexts, with callocs and
    -- a realloc that give memory, the block of the realloc having room for a pointer, and uuids from uuid_generate that differ, replies to all requests, whatever
    -- happens to them on their way, as a directory does, and faults where that does. The directory starts
    -- with one id for each entry of the configuration that is an object with the type "dummy" and a
    -- configuration that is JSON, and asks for the token that the provider was given, or for none where
    -- that is empty or strdup gives no copy of it. To destroy the provider then leaves no context of the
    -- backend alive. The requests are such that their values fit the C types and new ids are not in use.
    pub lifetime-steps :
        (mid provider_id : ℕ) (args : ProviderArgs) (config : J) (l : List (Fate × Command)) (m : M)
        (w : Memory J)
        → r.calloc_ok ≡ true
        → HasRoom r.realloc_room
        → ((i : ℕ) → r.calloc_ok_at i ≡ true)
        → ((i j : ℕ) → r.uuid_at i ≡ r.uuid_at j → i ≡ j)
        → ((i : ℕ) → IsUuid (r.uuid_at i))
        → margo.is_listening m ≡ true
        → margo.provider_registered_name m "YP_sum" provider_id ≡ none
        → read_config json args.config ≡ some config
        → addresses w ≡ []
        → AllFit (parses json) g.count l (at_first args config w)
        → Replies
            (lifetime T json a margo r proc strings g mid provider_id args l m w)
            (steps (parses json) g.count l (at_first args config w))
    unfolding lifetime knows
    lifetime-steps mid provider_id args config l m w co ro ca di uu li un rc none_alive fits =
        let p = fresh_provider {T = T} json a margo r mid provider_id args m in
        let (s0, loaded, stands0) =
          load_phonebooks-Stands json a memory r ca di uu (configured json config) 0 (p, w) _
            (fresh_provider-Stands mid provider_id args m w none_alive) (λ j h. refl) in
        let started =
          provider_register-load_phonebooks {T = T} json a margo r mid provider_id args m config w
            co ro li un rc in
        let served =
          serve_all-steps json a memory proc laws strings g k l s0 (at_first args config w) stands0
            fits in
        elim (Run-cases (steps (parses json) g.count l (at_first args config w))) [
          | inr e ↦
              let faults : serve_all proc strings g l s0 ≡ fault = rw e at served in
              rw (e, lifetime, started, loaded, faults) refl
          | inl ((replies, d'), e) ↦
              let (s, run, stands) = rw e at served in
              let m' =
                margo.push_finalize_callback (register_rpcs margo m provider_id args.pool).1 in
              let (v, stopped, gone) =
                provider_destroy-frees addresses s.0 s.1 stands.owns margo m' in
              rw (e, lifetime, started, loaded, run, stopped) (v, refl, gone)
        ]
