-- ===== src/Remote/Loads.antt =====
-- The phonebooks that a provider makes of its configuration (the loop of YP_provider_register in
-- provider.c) against the ids of the directory that it stands for.
use text.Mathlib.Text.{◌==◌ as str_eq}
use phonebook.Base.{
  ℕ, suc, ◌≤◌, ◌≡◌, ◌≢◌, refl, Bool, true, false, Option, none, some, String, List, [], ◌∷◌, ◌++◌,
  Run, ok, ◌>>=◌, arith, if◌then◌else◌, Bool-cases, Option-cases, inl, inr,
}
use phonebook.Common.{PhonebookId, id_eq_iff, is_success}
use phonebook.Backend.{Ptr, null}
use phonebook.Backend.Dummy.{Memory, Allocator}
use phonebook.Json.{Json}
use phonebook.Uthash.{Uthash}
use phonebook.Types.RoundTrip.{IsUuid}
use phonebook.Provider.{Provider}
use phonebook.Provider.Valid.{add_phonebook_new}
use phonebook.Provider.Configuration.{
  Resources, typed, load_context, load_phonebook, load_phonebooks,
}
use phonebook.Remote.Spec.{Directory, knows}
use phonebook.Remote.Stands.{
  Stands, parses, dummy, no_phonebook, find_backend_impl-is_dummy, dummy_create_phonebook-accepted,
  dummy_create_phonebook-refused,
}
use phonebook.Remote.Moves.{made-Stands}

module _ {J : Type 0} (json : Json J) where
  -- Whether an entry of the configuration is to become a phonebook: an object whose type is the name
  -- of the dummy backend and whose configuration, as text, is JSON.
  unfoldable pub adds : Option J → Bool
  adds entry = elim (typed json json.is_object entry) [
    | none ↦ false
    | some phonebook ↦ elim (typed json json.is_string (json.object_get phonebook "type")) [
      | none ↦ false
      | some type ↦
          if str_eq (json.get_string type) "dummy"
          then parses json (json.to_json_string (json.object_get phonebook "config"))
          else false
    ]
  ]

  module _ (uuid_at : ℕ → PhonebookId) where
    -- A directory with the ids that uuid_generate gives to the entries that become phonebooks.
    abbrev pub with_entry : ℕ → Option J → Directory → Directory
    with_entry i entry d = if adds entry then record d { ids = d.ids ++ uuid_at i ∷ [] } else d

    -- The ids of the rounds from `i` on are not in use.
    abbrev pub FreshFrom : ℕ → Directory → Type 0
    FreshFrom i d = (j : ℕ) → i ≤ j → knows (uuid_at j) d.ids ≡ false

    unfoldable pub with_entries : ℕ → List (Option J) → Directory → Directory
    with_entries i [] d = d
    with_entries i (entry ∷ rest) d = with_entries (suc i) rest (with_entry i entry d)

knows-append_new :
    (k j : PhonebookId) (l : List PhonebookId)
    → knows k l ≡ false
    → j ≢ k
    → knows k (l ++ j ∷ []) ≡ false
unfolding knows
knows-append_new k j [] h n = ground (arith, id_eq_iff j k)
knows-append_new k j (q ∷ l) h n = ground (arith, knows-append_new k j l, id_eq_iff q k)

module _ {J T : Type 0} ⦃H : Uthash (Memory J) T⦄ (json : Json J) (a : Allocator)
    (memory : (used : List Ptr) → a.calloc used ≢ null) (r : Resources)
    (allocated : (i : ℕ) → r.calloc_ok_at i ≡ true)
    (distinct : (i j : ℕ) → r.uuid_at i ≡ r.uuid_at j → i ≡ j)
    (uuids : (i : ℕ) → IsUuid (r.uuid_at i)) where
  abbrev Loads : Run (Provider (Memory J) T × Memory J) → Directory → Type 0
  Loads run d = (s : Provider (Memory J) T × Memory J) × (run ≡ ok s) × Stands json a s d

  module _ (i : ℕ) (s : Provider (Memory J) T × Memory J) (d : Directory) (st : Stands json a s d)
      (fresh : FreshFrom json r.uuid_at i d) where
    load_context-Stands :
        (text : String)
        → Loads
            (load_context json r i (dummy json a) text s.0 s.1)
            (if parses json text then record d { ids = d.ids ++ r.uuid_at i ∷ [] } else d)
    unfolding load_context is_success
    load_context-Stands text = elim (Bool-cases (parses json text)) [
      | inl e ↦
          let (ctx, w, run, new, grown, same) =
            dummy_create_phonebook-accepted json a (some text) s.1 (memory _) e in
          let unknown = no_phonebook json a st (r.uuid_at i) (fresh i (omega arith)) in
          rw (e, load_context, run, allocated i)
            (rw
              (add_phonebook_new s.0 (record { fn = dummy json a; ctx = ctx; id = r.uuid_at i })
                st.owns.valid unknown)
              (
                _,
                refl,
                made-Stands json a memory st w ctx (r.uuid_at i) (uuids i) (fresh i (omega arith))
                    new grown same,
              ))
      | inr e ↦
          rw (e, load_context, dummy_create_phonebook-refused json a (some text) s.1 e)
            (s, refl, st)
    ]

    load_phonebook-Stands :
        (entry : Option J)
        → Loads (load_phonebook json r i entry s.0 s.1) (with_entry json r.uuid_at i entry d)
    unfolding load_phonebook adds
    load_phonebook-Stands entry = elim (Option-cases (typed json json.is_object entry)) [
      | inl e ↦ rw (e, load_phonebook, adds) (s, refl, st)
      | inr (o, e) ↦ elim (Option-cases (typed json json.is_string (json.object_get o "type"))) [
        | inl n ↦ rw (e, load_phonebook, adds, n) (s, refl, st)
        | inr (t, n) ↦ elim (Bool-cases (str_eq (json.get_string t) "dummy")) [
          | inl y ↦
              rw
                (
                  e,
                  load_phonebook,
                  adds,
                  n,
                  find_backend_impl-is_dummy json a st (some (json.get_string t)),
                  y,
                )
                (load_context-Stands (json.to_json_string (json.object_get o "config")))
          | inr y ↦
              rw
                (
                  e,
                  load_phonebook,
                  adds,
                  n,
                  find_backend_impl-is_dummy json a st (some (json.get_string t)),
                  y,
                )
                (s, refl, st)
        ]
      ]
    ]

    with_entry-FreshFrom :
        (entry : Option J) → FreshFrom json r.uuid_at (suc i) (with_entry json r.uuid_at i entry d)
    with_entry-FreshFrom entry j h = elim (Bool-cases (adds json entry)) [
      | inl e ↦ rw e (
          knows-append_new (r.uuid_at j) (r.uuid_at i) d.ids (fresh j (omega arith))
            (λ same. let equal = distinct i j same in omega arith))
      | inr e ↦ rw e (fresh j (omega arith))
    ]

  pub load_phonebooks-Stands :
      (es : List (Option J)) (i : ℕ) (s : Provider (Memory J) T × Memory J) (d : Directory)
      → Stands json a s d
      → FreshFrom json r.uuid_at i d
      → Loads (load_phonebooks json r i es s.0 s.1) (with_entries json r.uuid_at i es d)
  unfolding load_phonebooks with_entries
  load_phonebooks-Stands [] i s d st fresh = (s, refl, st)
  load_phonebooks-Stands (e ∷ es) i s d st fresh =
      let (s1, run1, st1) = load_phonebook-Stands i s d st fresh e in
      let (s2, run2, st2) =
        load_phonebooks-Stands es (suc i) s1 (with_entry json r.uuid_at i e d) st1
          (with_entry-FreshFrom i s d st fresh e) in
      (s2, rw (run1, ◌>>=◌) run2, st2)
