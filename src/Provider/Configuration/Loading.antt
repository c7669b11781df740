-- ===== src/Provider/Configuration/Loading.antt =====
-- The phonebooks that a configuration lists (the loop of YP_provider_register in provider.c), and
-- the contexts of those that are made.
use phonebook.Base.{
  ℕ, suc, ◌≤◌, ◌≡◌, refl, ◌∙◌, true, Option, none, some, List, [], ◌∷◌, Run, ok, ◌>>=◌, arith,
  Bool-cases, Option-cases, inl, inr, String,
}
use phonebook.Common.{id_eq_iff, is_success}
use phonebook.Backend.{BackendImpl, Ptr}
use phonebook.Backend.Contract.{Contract}
use phonebook.Json.{Json}
use phonebook.Uthash.{Uthash}
use phonebook.Uthash.Items.{Phonebook, lookup, lookup-append_new}
use phonebook.Provider.{Provider}
use phonebook.Provider.Valid.{entries, added, add_phonebook_new, entries-added}
use phonebook.Provider.Backends.{first_named, first_named-All, find_backend_impl-first_named}
use phonebook.Provider.Owns.{Owns, Owns-same, Owns-added}
use phonebook.Provider.Configuration.{
  Resources, typed, load_context, load_phonebook, load_phonebooks,
}

module _ {W T J : Type 0} ⦃H : Uthash W T⦄ (json : Json J) (r : Resources) (alive : W → List Ptr)
    (memory : (i : ℕ) → r.calloc_ok_at i ≡ true)
    (distinct : (i j : ℕ) → r.uuid_at i ≡ r.uuid_at j → i ≡ j) where
  -- The ids of the rounds from `i` on are not in use.
  abbrev pub FreshFrom : ℕ → Provider W T → Type 0
  FreshFrom i p = (j : ℕ) → i ≤ j → lookup (r.uuid_at j) (entries p) ≡ none

  abbrev pub Loaded : ℕ → Run (Provider W T × W) → Provider W T → Type 0
  Loaded i run p =
      (s : Provider W T × W) × (run ≡ ok s)
      × Owns alive s.0 s.1
      × FreshFrom i s.0
      × (s.0.token ≡ p.token)
      × (s.0.backend_types ≡ p.backend_types)
      × (s.0.rpc_ids ≡ p.rpc_ids)

  module _ (i : ℕ) (p : Provider W T) (w : W) (o : Owns alive p w) (f : FreshFrom i p) where
    unchanged : (w' : W) → alive w' ≡ alive w → Loaded (suc i) (ok (p, w')) p
    unchanged w' e =
        ((p, w'), refl, Owns-same alive w' e o, λ j h. f j (omega arith), refl, refl, refl)

    load_context-Loaded :
        (b : BackendImpl W) (text : String)
        → Contract alive b
        → Loaded (suc i) (load_context json r i b text p w) p
    unfolding load_context
    load_context-Loaded b text k =
        let (((ret, ctx), w'), run, made) = k.creates (some text) w in
        elim (Bool-cases (is_success ret)) [
          | inl e ↦
              let made' = rw e at made in
              let phonebook : Phonebook W = record { fn = b; ctx = ctx; id = r.uuid_at i } in
              let new = f i (omega arith) in
              rw (run, e, memory i, add_phonebook_new p phonebook o.valid new)
                (
                  (added p phonebook, w'),
                  refl,
                  Owns-added alive w' phonebook new made'.0 made'.1 k o,
                  still_fresh phonebook refl new,
                  refl,
                  refl,
                  refl,
                )
          | inr e ↦ rw (run, e) (unchanged w' (rw e at made))
        ]
      where
        still_fresh :
            (b : Phonebook W)
            → b.id ≡ r.uuid_at i
            → lookup b.id (entries p) ≡ none
            → FreshFrom (suc i) (added p b)
        still_fresh b e new j h =
            rw (entries-added p b o.valid new, lookup-append_new (r.uuid_at j) (entries p) b new)
              (ground (arith, f j (omega arith), id_eq_iff b.id (r.uuid_at j), distinct i j))

    load_phonebook-Loaded :
        (entry : Option J) → Loaded (suc i) (load_phonebook json r i entry p w) p
    unfolding load_phonebook
    load_phonebook-Loaded entry = elim (Option-cases (typed json json.is_object entry)) [
      | inl e ↦ rw (e, load_phonebook) (unchanged w refl)
      | inr (o', e) ↦ elim (Option-cases (typed json json.is_string (json.object_get o' "type"))) [
        | inl n ↦ rw (e, load_phonebook, n) (unchanged w refl)
        | inr (t, n) ↦ elim (Option-cases (first_named (json.get_string t) p.backend_types)) [
          | inl m ↦
              rw
                (
                  e,
                  load_phonebook,
                  n,
                  find_backend_impl-first_named p (json.get_string t) o.valid,
                  m,
                )
                (unchanged w refl)
          | inr (b, m) ↦
              rw
                (
                  e,
                  load_phonebook,
                  n,
                  find_backend_impl-first_named p (json.get_string t) o.valid,
                  m,
                )
                (load_context-Loaded b _
                  (first_named-All (Contract alive) (json.get_string t) p.backend_types m o.types))
        ]
      ]
    ]

  pub load_phonebooks-Loaded :
      (es : List (Option J)) (i : ℕ) (p : Provider W T) (w : W)
      → Owns alive p w
      → FreshFrom i p
      → (s : Provider W T × W) × (load_phonebooks json r i es p w ≡ ok s)
        × Owns alive s.0 s.1
        × (s.0.token ≡ p.token)
        × (s.0.backend_types ≡ p.backend_types)
        × (s.0.rpc_ids ≡ p.rpc_ids)
  unfolding load_phonebooks
  load_phonebooks-Loaded [] i p w o f = ((p, w), refl, o, refl, refl, refl)
  load_phonebooks-Loaded (e ∷ es) i p w o f =
      let (s, run, o', f', a, b, c) = load_phonebook-Loaded i p w o f e in
      let (s', run', o'', a', b', c') = load_phonebooks-Loaded es (suc i) s.0 s.1 o' f' in
      (s', rw (run, ◌>>=◌) run', o'', a' ∙ a, b' ∙ b, c' ∙ c)
