-- ===== src/Provider/RoundTrip.antt =====
-- A phonebook from its creation (YP_create_phonebook_ult of provider.c) to its end.
use phonebook.Base.{
  ◌≡◌, refl, sym, ◌∙◌, true, false, none, some, List, [], ◌∷◌, ◌++◌, ok, arith, if◌then◌else◌,
  String, OnOk-eq,
}
use phonebook.Common.{success, PhonebookId, id_eq, id_eq_iff, is_success}
use phonebook.Backend.{BackendImpl, Ptr}
use phonebook.Backend.Contract.{Contract, MadeIf}
use phonebook.Uthash.{Uthash}
use phonebook.Uthash.Items.{Phonebook, lookup, lookup-append_new, remove-append_new}
use phonebook.Types.{CreatePhonebookIn, ClosePhonebookIn, ClosePhonebookOut}
use phonebook.Provider.{Provider, check_token, find_phonebook, close_if}
use phonebook.Provider.Valid.{
  IsValid, entries, added, removed, added-IsValid, add_phonebook_new, entries-added,
  entries-removed, find_phonebook-lookup, remove_phonebook_found,
}
use phonebook.Provider.Owns.{Owns, Owns-added, Owns-removed, holds-lookup}
use phonebook.Provider.Backends.{first_named, first_named-All, find_backend_impl-first_named}
use phonebook.Provider.Handlers.{
  Call, Served, finish, closed, store_phonebook, make_context, make_phonebook_ult,
  create_phonebook_ult, destroy_phonebook_ult,
}

module _ {W T : Type 0} ⦃H : Uthash W T⦄ (p : Provider W T) (w : W) (v : IsValid p)
    (c : Call CreatePhonebookIn) (input : CreatePhonebookIn) (name : String) (b : BackendImpl W)
    (ctx : Ptr) (w' : W) (got : c.input ≡ some input)
    (accepted : check_token p input.token ≡ ok true) (named : input.type ≡ some name)
    (known : first_named name p.backend_types ≡ some b)
    (made : b.create_phonebook input.config w ≡ ok ((success, ctx), w'))
    (calloc : c.calloc_ok ≡ true) (new : lookup c.uuid (entries p) ≡ none) where
  -- The phonebook that comes in.
  abbrev pub created : Phonebook W
  created = record { fn = b; ctx = ctx; id = c.uuid }

  -- A well-formed provider answers a create request with an accepted token, for a known backend
  -- that makes a context, where memory is given and the new id is not in use, by YP_SUCCESS and
  -- that id. Afterwards a search finds the new phonebook under its id, and under any other id
  -- what it found before; the new phonebook comes last.
  pub create_phonebook_ult-created :
      (create_phonebook_ult c p w
        ≡ ok (finish (record { ret = success; id = some c.uuid }) (added p created) w'))
      × (entries (added p created) ≡ entries p ++ created ∷ [])
      × ((k : PhonebookId)
          → find_phonebook (added p created) k
            ≡ (if id_eq c.uuid k then some created else find_phonebook p k))
  unfolding create_phonebook_ult make_phonebook_ult make_context store_phonebook is_success
  create_phonebook_ult-created = (
    rw
        (
          got,
          accepted,
          named,
          find_backend_impl-first_named p name v,
          known,
          made,
          calloc,
          add_phonebook_new p created v new,
        )
        refl,
    entries-added p created v new,
    λ k.
        rw
          (
            find_phonebook-lookup (added p created) k (added-IsValid p created v new),
            entries-added p created v new,
            lookup-append_new k (entries p) created new,
            find_phonebook-lookup p k v,
          )
          refl,
  )

  found_created : lookup c.uuid (entries (added p created)) ≡ some created
  found_created =
      rw (entries-added p created v new, lookup-append_new c.uuid (entries p) created new)
        (ground (arith, id_eq_iff c.uuid c.uuid))

  module _ (alive : W → List Ptr) (o : Owns alive p w) where
    owned : Owns alive (added p created) w'
    unfolding is_success
    owned =
        let k = first_named-All (Contract alive) name p.backend_types known o.types in
        let (s, run, m) = k.creates input.config w in
        let same : s ≡ ((success, ctx), w') =
          OnOk-eq (λ t. s ≡ t) (b.create_phonebook input.config w) (rw run refl) made in
        let m' : MadeIf true (alive w) ctx (alive w') = rw same at m in
        Owns-added alive w' created new m'.0 m'.1 k o

    -- Where a provider that owns its contexts creates a phonebook in this way, a destroy request
    -- with the same token for the new id undoes the creation: it is answered by YP_SUCCESS, and
    -- the directory and the live contexts are what they were.
    pub destroy-create :
        (d : Call ClosePhonebookIn)
        → d.input ≡ some (record { token = input.token; id = c.uuid })
        → (s : Served W T ClosePhonebookOut) × (destroy_phonebook_ult d (added p created) w' ≡ ok s)
          × (s.actions ≡ (finish (closed success) p w).actions)
          × (entries s.provider ≡ entries p)
          × (alive s.world ≡ alive w)
    unfolding destroy_phonebook_ult close_if check_token
    destroy-create d asked =
        let q = added p created in
        let k = first_named-All (Contract alive) name p.backend_types known o.types in
        let (r, run, freed) =
          k.destroys ctx w' (rw owned.live (holds-lookup c.uuid (entries q) found_created)) in
        let gone = Owns-removed alive r.1 created found_created freed owned in
        let back : entries (removed q created) ≡ entries p =
          entries-removed q created owned.valid found_created
          ∙ rw (entries-added p created v new)
              (remove-append_new c.uuid (entries p) created refl new) in
        (
          finish (closed success) (removed q created) r.1,
          rw
              (
                asked,
                accepted,
                find_phonebook-lookup q c.uuid owned.valid,
                found_created,
                run,
                remove_phonebook_found q c.uuid created false r.1 owned.valid found_created,
              )
              refl,
          refl,
          back,
          gone.live ∙ rw back (sym o.live),
        )
