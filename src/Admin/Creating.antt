-- ===== src/Admin/Creating.antt =====
-- YP_create_phonebook and YP_open_phonebook of admin.c against the handlers of provider.c.
use mathlib.Core.Option
use phonebook.Base.{
  ◌≡◌, refl, false, Option, none, some, String, List, [], ◌∷◌, ◌++◌, ◌⊎◌, inl, inr, Run, ok, ◌>>=◌,
  OnOk, OnOk-bind, OnOk-eq, Option-cases, Bool-cases,
}
use phonebook.Common.{Return, success, is_success, PhonebookId}
use phonebook.Backend.{BackendImpl, Ptr, Cmd}
use phonebook.Backend.Contract.{Contract, Makes}
use phonebook.Exchange.{Outcome, exchange, delivered, failed}
use phonebook.Types.Messages.{CreateRecord}
use phonebook.Admin.{take_id, cleaned}
use phonebook.Admin
use phonebook.Types.{CreatePhonebookIn, CreatePhonebookOut}
use phonebook.Uthash.{Uthash}
use phonebook.Uthash.Items.{Phonebook, lookup}
use phonebook.Provider.{Provider, check_token, find_backend_impl}
use phonebook.Provider.Valid.{IsValid, entries, add_phonebook_new, entries-added}
use phonebook.Provider.Handlers.{
  Call, Served, finish, respond, free_input, destroy_handle, store_phonebook, make_context,
  make_phonebook_ult, create_phonebook_ult, open_phonebook_ult, create_failed,
}
use phonebook.Provider.Owns.{Owns}
use phonebook.Provider.Requests.{MakeServable, make-Steps}

-- An answer as it is decoded; `garbage` stands in an id that was not assigned.
abbrev pub create_record : (garbage : PhonebookId) → CreatePhonebookOut → CreateRecord
create_record garbage out = record { ret = out.ret; id = Option.get_or out.id garbage }

module _ {W T : Type 0} where
  -- What an admin gets from the answer of a handler, with the provider and the memory afterwards.
  abbrev pub received :
      {Out A : Type 0} → (Out → Outcome A) → Served W T Out → Outcome A × Provider W T × W
  received use_answer s = elim s.actions [
    | respond out ∷ rest ↦ (use_answer out, s.provider, s.world)
    | _ ↦ (failed [], s.provider, s.world)
  ]

module _ {W T : Type 0} ⦃H : Uthash W T⦄ where
  -- YP_create_phonebook, served by a provider.
  unfoldable pub remote_create :
      (garbage : PhonebookId)
      → Call CreatePhonebookIn
      → Provider W T
      → W
      → Run (Outcome PhonebookId × Provider W T × W)
  remote_create garbage c p w = do
    s ← create_phonebook_ult c p w
    ok (received (λ out. Admin.create_phonebook (delivered (create_record garbage out))) s)

  -- YP_open_phonebook, served by a provider.
  unfoldable pub remote_open :
      (garbage : PhonebookId)
      → Call CreatePhonebookIn
      → Provider W T
      → W
      → Run (Outcome PhonebookId × Provider W T × W)
  remote_open garbage c p w = do
    s ← open_phonebook_ult c p w
    ok (received (λ out. Admin.open_phonebook (delivered (create_record garbage out))) s)

  -- Either an error, nothing written and the provider as it was; or YP_SUCCESS, the id written, and a
  -- phonebook with that id as the last one.
  abbrev pub Told : Provider W T → PhonebookId → Return → Option PhonebookId → Provider W T → Type 0
  Told p id ret written q =
      ((is_success ret ≡ false) × (written ≡ none) × (q ≡ p))
      ⊎ ((ret ≡ success)
          × (written ≡ some id)
          × ((b : Phonebook W) × (b.id ≡ id) × (entries q ≡ entries p ++ b ∷ [])))

  abbrev Answered : Provider W T → PhonebookId → Served W T CreatePhonebookOut → Type 0
  Answered p id s =
      (out : CreatePhonebookOut) × (s.actions ≡ respond out ∷ free_input ∷ destroy_handle ∷ [])
      × Told p id out.ret out.id s.provider

  module _ (p : Provider W T) (v : IsValid p) (c : Call CreatePhonebookIn)
      (new : lookup c.uuid (entries p) ≡ none) where
    error-Answered :
        (ret : Return) (w : W)
        → is_success ret ≡ false
        → Answered p c.uuid (finish (create_failed ret) p w)
    error-Answered ret w e = (create_failed ret, refl, inl (e, refl, refl))

    make_context-Answered :
        (make : BackendImpl W → Option String → Cmd W (Return × Ptr)) (input : CreatePhonebookIn)
        (b : BackendImpl W) (w : W)
        → OnOk (Answered p c.uuid) (make_context make c input b p w)
    unfolding make_context store_phonebook
    make_context-Answered make input b w =
        OnOk-bind _ (make b input.config w) _ λ ((ret, ctx), w') _.
          elim (Bool-cases (is_success ret)) [
            | inl e ↦ elim (Bool-cases c.calloc_ok) [
              | inl t ↦
                  let book : Phonebook W = record { fn = b; ctx = ctx; id = c.uuid } in
                  rw (e, t, add_phonebook_new p book v new)
                    (
                      record { ret = success; id = some c.uuid },
                      refl,
                      inr (refl, refl, (book, refl, entries-added p book v new)),
                    )
              | inr f ↦ rw (e, f) tt
            ]
            | inr e ↦ rw e (error-Answered ret w' e)
          ]

    make-Answered :
        (make : BackendImpl W → Option String → Cmd W (Return × Ptr)) (w : W)
        → OnOk (Answered p c.uuid) (make_phonebook_ult make c p w)
    unfolding make_phonebook_ult is_success
    make-Answered make w = elim (Option-cases c.input) [
      | inl e ↦ rw (e, make_phonebook_ult) (error-Answered _ w refl)
      | inr (input, e) ↦
          rw (e, make_phonebook_ult)
            (OnOk-bind _ (check_token p input.token) _ λ valid _. elim (Bool-cases valid) [
              | inl t ↦ rw t (
                  OnOk-bind _ (find_backend_impl p input.type) _ λ found _.
                    elim (Option-cases found) [
                      | inl n ↦ rw n (error-Answered _ w refl)
                      | inr (b, n) ↦ rw n (make_context-Answered make input b w)
                    ])
              | inr f ↦ rw f (error-Answered _ w refl)
            ])
    ]

    take_id-Told :
        (garbage : PhonebookId) (out : CreatePhonebookOut) (q : Provider W T)
        → Told p c.uuid out.ret out.id q
        → let o = take_id (create_record garbage out) in Told p c.uuid o.ret o.written q
    unfolding take_id is_success
    take_id-Told garbage out q (inl (e, written, same)) = rw e (inl (e, refl, same))
    take_id-Told garbage out q (inr (r, written, more)) = rw (r, written) (inr (refl, refl, more))

    received-Told :
        (garbage : PhonebookId) (take_answer : CreateRecord → Outcome PhonebookId)
        (s : Served W T CreatePhonebookOut)
        → ((r : CreateRecord) → take_answer r ≡ take_id r)
        → Answered p c.uuid s
        → let r = received (λ out. take_answer (create_record garbage out)) s in
          Told p c.uuid r.0.ret r.0.written r.1
    received-Told garbage take_answer s same (out, acts, told) =
        rw (acts, same (create_record garbage out)) (take_id-Told garbage out s.provider told)

  module _ (alive : W → List Ptr) (garbage : PhonebookId) (c : Call CreatePhonebookIn)
      (p : Provider W T) (w : W) (o : Owns alive p w) where
    abbrev pub Creates : Run (Outcome PhonebookId × Provider W T × W) → Type 0
    Creates run =
        (r : Outcome PhonebookId × Provider W T × W) × (run ≡ ok r)
        × Told p c.uuid r.0.ret r.0.written r.1
        × Owns alive r.1 r.2

    make-Creates :
        (make : BackendImpl W → Option String → Cmd W (Return × Ptr))
        (take_answer : CreateRecord → Outcome PhonebookId)
        → ((b : BackendImpl W) → Contract alive b → Makes alive (make b))
        → ((r : CreateRecord) → take_answer r ≡ take_id r)
        → MakeServable p c c.input
        → lookup c.uuid (entries p) ≡ none
        → Creates (
            make_phonebook_ult make c p w >>= λ s.
            ok (received (λ out. take_answer (create_record garbage out)) s))
    make-Creates make take_answer makes same servable new =
        let (s, run, owns) = make-Steps alive make c p w makes o servable in
        let answered = OnOk-eq (Answered p c.uuid) _ (make-Answered p o.valid c new make w) run in
        (
          received (λ out. take_answer (create_record garbage out)) s,
          rw (run, ◌>>=◌) refl,
          received-Told p o.valid c new garbage take_answer s same answered,
          received-Owns s answered owns,
        )
      where
        received-Owns :
            (s : Served W T CreatePhonebookOut)
            → Answered p c.uuid s
            → Owns alive s.provider s.world
            → let r = received (λ out. take_answer (create_record garbage out)) s in
              Owns alive r.1 r.2
        received-Owns s (out, acts, told) owns = rw acts owns

    -- A create or an open request, served by a provider that owns its contexts, where it is servable and
    -- the new id is not in use: the call of the admin library ends, and either returns an error, writes no
    -- id and leaves the provider as it was, or returns YP_SUCCESS, writes the new id, and the provider has
    -- a phonebook with that id as its last one. The provider owns its contexts again.
    pub create_phonebook-Told :
        MakeServable p c c.input
        → lookup c.uuid (entries p) ≡ none
        → Creates (remote_create garbage c p w) × Creates (remote_open garbage c p w)
    unfolding remote_create remote_open create_phonebook_ult open_phonebook_ult
        Admin.create_phonebook Admin.open_phonebook exchange
    create_phonebook-Told servable new = (
      make-Creates (λ b. b.create_phonebook) (λ r. Admin.create_phonebook (delivered r))
          (λ b k. k.creates) (λ r. refl) servable new,
      make-Creates (λ b. b.open_phonebook) (λ r. Admin.open_phonebook (delivered r))
          (λ b k. k.opens) (λ r. refl) servable new,
    )
