-- ===== src/Provider/Lifecycle.antt =====
-- The handlers of provider.c and the contexts of the backends.
use text.Mathlib.Text.{◌==◌ as str_eq}
use phonebook.Base.{
  ◌<◌, length, ◌≡◌, refl, Bool, true, false, Option, none, some, List, Bool-cases, Option-cases,
  inl, inr, String, Run, ok,
}
use phonebook.Common.{Return, is_success}
use phonebook.Backend.{BackendImpl, Ptr, Cmd}
use phonebook.Backend.Contract.{Contract, Makes}
use phonebook.Uthash.{Uthash}
use phonebook.Uthash.Items.{Phonebook, lookup, lookup-own_id}
use phonebook.Types.{CreatePhonebookIn, ClosePhonebookIn, ListPhonebooksIn, HelloIn, SumIn}
use phonebook.Provider.{Provider, check_token, strcmp_eq, close_if}
use phonebook.Provider.Valid.{
  entries, add_phonebook_new, find_phonebook-lookup, remove_phonebook_absent,
  remove_phonebook_found,
}
use phonebook.Provider.Backends.{first_named, first_named-All, find_backend_impl-first_named}
use phonebook.Provider.Handlers.{
  Call, Served, store_phonebook, make_context, make_phonebook_ult, close_phonebook_ult,
  destroy_phonebook_ult, list_phonebooks_ult, hello_ult, sum_ult,
}
use phonebook.Base.Words.{u64_mod}
use phonebook.Provider.Listing.{collect_ids_all}
use phonebook.Provider.Owns.{Owns, Owns-same, Owns-added, Owns-removed, holds-lookup, All-lookup}

-- A string that the client sent, not NULL.
abbrev pub IsSent : Option String → Type 0
IsSent none = ⊥
IsSent (some s) = Unit {0}

pub check_token-total :
    {W T : Type 0} (p : Provider W T) (t : Option String)
    → IsSent t
    → (b : Bool) × (check_token p t ≡ ok b)
unfolding check_token strcmp_eq
check_token-total p (some t) h = elim (Option-cases p.token) [
  | inl e ↦ (true, rw e)
  | inr (u, e) ↦ (str_eq u t, rw e refl)
]
check_token-total p none h = elim h [ ]

module _ {W T : Type 0} ⦃H : Uthash W T⦄ (alive : W → List Ptr) where
  -- The handler ends, and what it leaves owns its contexts.
  abbrev pub Keeps : {Out : Type 0} → Run (Served W T Out) → Type 0
  Keeps {Out} r = (s : Served W T Out) × (r ≡ ok s) × Owns alive s.provider s.world

  module _ (p : Provider W T) (w : W) (o : Owns alive p w) where
    pub make_context-Keeps :
        (make : BackendImpl W → Option String → Cmd W (Return × Ptr)) (c : Call CreatePhonebookIn)
        (input : CreatePhonebookIn) (b : BackendImpl W)
        → Makes alive (make b)
        → Contract alive b
        → c.calloc_ok ≡ true
        → lookup c.uuid (entries p) ≡ none
        → Keeps (make_context make c input b p w)
    unfolding make_context store_phonebook
    make_context-Keeps make c input b makes k calloc new =
        let (((ret, ctx), w'), run, made) = makes input.config w in
        elim (Bool-cases (is_success ret)) [
          | inl e ↦
              let made' = rw e at made in
              let phonebook : Phonebook W = record { fn = b; ctx = ctx; id = c.uuid } in
              rw (run, e, calloc, add_phonebook_new p phonebook o.valid new)
                (_, refl, Owns-added alive w' phonebook new made'.0 made'.1 k o)
          | inr e ↦ rw (run, e) (_, refl, Owns-same alive w' (rw e at made) o)
        ]

    pub create-Keeps :
        (make : BackendImpl W → Option String → Cmd W (Return × Ptr)) (c : Call CreatePhonebookIn)
        (input : CreatePhonebookIn)
        → ((b : BackendImpl W) → Contract alive b → Makes alive (make b))
        → c.input ≡ some input
        → IsSent input.token
        → IsSent input.type
        → c.calloc_ok ≡ true
        → lookup c.uuid (entries p) ≡ none
        → Keeps (make_phonebook_ult make c p w)
    unfolding make_phonebook_ult
    create-Keeps make c input makes got token type calloc new =
        let (valid, checked) = check_token-total p input.token token in
        elim (Option-cases input.type) [
          | inl e ↦ absurd (rw e at type)
          | inr (name, e) ↦ elim (Bool-cases valid) [
            | inl t ↦ elim (Option-cases (first_named name p.backend_types)) [
              | inl missing ↦
                  rw (got, checked, t, e, find_backend_impl-first_named p name o.valid, missing)
                    (_, refl, o)
              | inr (b, found) ↦
                  let k = first_named-All (Contract alive) name p.backend_types found o.types in
                  rw (got, checked, t, e, find_backend_impl-first_named p name o.valid, found)
                    (make_context-Keeps make c input b (makes b k) k calloc new)
            ]
            | inr f ↦ rw (got, checked, f) (_, refl, o)
          ]
        ]

    pub close-Keeps :
        (c : Call ClosePhonebookIn) (input : ClosePhonebookIn)
        → c.input ≡ some input
        → IsSent input.token
        → Keeps (close_phonebook_ult c p w)
    unfolding close_phonebook_ult close_if
    close-Keeps c input got token =
        let (valid, checked) = check_token-total p input.token token in
        elim (Bool-cases valid) [
          | inl t ↦ elim (Option-cases (lookup input.id (entries p))) [
            | inl missing ↦
                rw (got, checked, t, remove_phonebook_absent p input.id true w o.valid missing)
                  (_, refl, o)
            | inr (b, found) ↦
                let found' = lookup-own_id input.id (entries p) found in
                let k = All-lookup (λ b. Contract alive b.fn) input.id (entries p) found o.known in
                let (r, run, freed) =
                  k.closes b.ctx w (rw o.live (holds-lookup input.id (entries p) found)) in
                rw (got, checked, t, remove_phonebook_found p input.id b true w o.valid found, run)
                  (_, refl, Owns-removed alive r.1 b found' freed o)
          ]
          | inr f ↦ rw (got, checked, f) (_, refl, o)
        ]

    pub destroy-Keeps :
        (c : Call ClosePhonebookIn) (input : ClosePhonebookIn)
        → c.input ≡ some input
        → IsSent input.token
        → Keeps (destroy_phonebook_ult c p w)
    unfolding destroy_phonebook_ult close_if
    destroy-Keeps c input got token =
        let (valid, checked) = check_token-total p input.token token in
        elim (Bool-cases valid) [
          | inl t ↦ elim (Option-cases (lookup input.id (entries p))) [
            | inl missing ↦
                rw (got, checked, t, find_phonebook-lookup p input.id o.valid, missing) (_, refl, o)
            | inr (b, found) ↦
                let found' = lookup-own_id input.id (entries p) found in
                let k = All-lookup (λ b. Contract alive b.fn) input.id (entries p) found o.known in
                let (r, run, freed) =
                  k.destroys b.ctx w (rw o.live (holds-lookup input.id (entries p) found)) in
                rw
                  (
                    got,
                    checked,
                    t,
                    find_phonebook-lookup p input.id o.valid,
                    found,
                    run,
                    remove_phonebook_found p input.id b false r.1 o.valid found,
                  )
                  (_, refl, Owns-removed alive r.1 b found' freed o)
          ]
          | inr f ↦ rw (got, checked, f) (_, refl, o)
        ]

    pub list-Keeps :
        (c : Call ListPhonebooksIn) (input : ListPhonebooksIn)
        → c.input ≡ some input
        → IsSent input.token
        → c.calloc_ok ≡ true
        → length (entries p) < u64_mod
        → Keeps (list_phonebooks_ult c p w)
    unfolding list_phonebooks_ult
    list-Keeps c input got token calloc small =
        let (valid, checked) = check_token-total p input.token token in
        elim (Bool-cases valid) [
          | inl t ↦ rw (got, checked, t, calloc, collect_ids_all p o.valid small) (_, refl, o)
          | inr f ↦ rw (got, checked, f) (_, refl, o)
        ]

    pub hello-Keeps : (c : Call HelloIn) → Keeps (hello_ult c p w)
    unfolding hello_ult
    hello-Keeps c = elim (Option-cases c.input) [
      | inl e ↦ rw e (_, refl, o)
      | inr (input, e) ↦ elim (Option-cases (lookup input.phonebook_id (entries p))) [
        | inl missing ↦
            rw (e, hello_ult, find_phonebook-lookup p input.phonebook_id o.valid, missing)
              (_, refl, o)
        | inr (b, found) ↦
            let k =
              All-lookup (λ b. Contract alive b.fn) input.phonebook_id (entries p) found o.known in
            let (r, run, same) =
              k.greets b.ctx w (rw o.live (holds-lookup input.phonebook_id (entries p) found)) in
            rw (e, hello_ult, find_phonebook-lookup p input.phonebook_id o.valid, found, run)
              (_, refl, Owns-same alive r.1 same o)
      ]
    ]

    pub sum-Keeps : (c : Call SumIn) → Keeps (sum_ult c p w)
    unfolding sum_ult
    sum-Keeps c = elim (Option-cases c.input) [
      | inl e ↦ rw e (_, refl, o)
      | inr (input, e) ↦ elim (Option-cases (lookup input.phonebook_id (entries p))) [
        | inl missing ↦
            rw (e, sum_ult, find_phonebook-lookup p input.phonebook_id o.valid, missing)
              (_, refl, o)
        | inr (b, found) ↦
            let k =
              All-lookup (λ b. Contract alive b.fn) input.phonebook_id (entries p) found o.known in
            let (r, run, same) =
              k.sums input.x input.y b.ctx w
                (rw o.live (holds-lookup input.phonebook_id (entries p) found)) in
            rw (e, sum_ult, find_phonebook-lookup p input.phonebook_id o.valid, found, run)
              (_, refl, Owns-same alive r.1 same o)
      ]
    ]
