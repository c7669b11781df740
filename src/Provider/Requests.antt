-- ===== src/Provider/Requests.antt =====
-- The service of a provider as a state machine: one step for each RPC that margo hands to the
-- handlers of provider.c.
use phonebook.Base.{
  ◌∷◌, length, ◌<◌, List, String, ◌≡◌, refl, true, Option, none, some, Run, ok, ◌>>=◌, OnOk,
  OnOk-eq, Option-cases, inl, inr,
}
use phonebook.Base.Words.{u64_mod}
use phonebook.Common.{Return}
use phonebook.Backend.{Ptr, BackendImpl, Cmd}
use phonebook.Uthash.{Uthash}
use phonebook.Uthash.Items.{lookup}
use phonebook.Types.{
  CreatePhonebookIn, OpenPhonebookIn, ClosePhonebookIn, DestroyPhonebookIn, ListPhonebooksIn,
  HelloIn, SumIn,
}
use phonebook.Backend.Contract.{Contract, Makes}
use phonebook.Provider.{Provider}
use phonebook.Provider.Valid.{entries}
use phonebook.Provider.Handlers.{
  Call, Served, Action, respond, make_phonebook_ult, create_phonebook_ult, open_phonebook_ult,
  close_phonebook_ult, destroy_phonebook_ult, list_phonebooks_ult, hello_ult, sum_ult,
}
use phonebook.Provider.Owns.{Owns}
use phonebook.Provider.Lifecycle.{
  IsSent, Keeps, create-Keeps, close-Keeps, destroy-Keeps, list-Keeps, hello-Keeps, sum-Keeps,
}

-- The RPCs that YP_provider_register registers.
pub data Request : Type 0 where
  create_phonebook : Call CreatePhonebookIn → Request
  open_phonebook : Call OpenPhonebookIn → Request
  close_phonebook : Call ClosePhonebookIn → Request
  destroy_phonebook : Call DestroyPhonebookIn → Request
  list_phonebooks : Call ListPhonebooksIn → Request
  hello : Call HelloIn → Request
  sum : Call SumIn → Request

abbrev pub state_of : {W T Out : Type 0} → Run (Served W T Out) → Run (Provider W T × W)
state_of r = do s ← r; ok (s.provider, s.world)

abbrev pub CloseServable : Option ClosePhonebookIn → Type 0
CloseServable none = Unit {0}
CloseServable (some input) = IsSent input.token

abbrev pub answer : {Out : Type 0} → (Out → Return) → List (Action Out) → Option Return
answer ret (respond out ∷ rest) = some (ret out)
answer ret _ = none

abbrev pub answer_of :
    {W T Out : Type 0} → (Out → Return) → Run (Served W T Out) → Run (Option Return)
answer_of ret r = do s ← r; ok (answer ret s.actions)

module _ {W T : Type 0} ⦃H : Uthash W T⦄ where
  -- The handler that is registered for the RPC.
  unfoldable pub handle : Request → Provider W T → W → Run (Provider W T × W)
  handle (create_phonebook c) p w = state_of (create_phonebook_ult c p w)
  handle (open_phonebook c) p w = state_of (open_phonebook_ult c p w)
  handle (close_phonebook c) p w = state_of (close_phonebook_ult c p w)
  handle (destroy_phonebook c) p w = state_of (destroy_phonebook_ult c p w)
  handle (list_phonebooks c) p w = state_of (list_phonebooks_ult c p w)
  handle (hello c) p w = state_of (hello_ult c p w)
  handle (sum c) p w = state_of (sum_ult c p w)

  abbrev pub MakeServable :
      Provider W T → Call CreatePhonebookIn → Option CreatePhonebookIn → Type 0
  MakeServable p c none = Unit {0}
  MakeServable p c (some input) =
      IsSent input.token
      × IsSent input.type
      × (c.calloc_ok ≡ true)
      × (lookup c.uuid (entries p) ≡ none)

  abbrev pub ListServable : Provider W T → Call ListPhonebooksIn → Option ListPhonebooksIn → Type 0
  ListServable p c none = Unit {0}
  ListServable p c (some input) =
      IsSent input.token × (c.calloc_ok ≡ true) × (length (entries p) < u64_mod)

  -- The code in the answer of the handler; YP_hello_ult sends none.
  unfoldable pub reply : Request → Provider W T → W → Run (Option Return)
  reply (create_phonebook c) p w = answer_of (λ o. o.ret) (create_phonebook_ult c p w)
  reply (open_phonebook c) p w = answer_of (λ o. o.ret) (open_phonebook_ult c p w)
  reply (close_phonebook c) p w = answer_of (λ o. o.ret) (close_phonebook_ult c p w)
  reply (destroy_phonebook c) p w = answer_of (λ o. o.ret) (destroy_phonebook_ult c p w)
  reply (list_phonebooks c) p w = answer_of (λ o. o.ret) (list_phonebooks_ult c p w)
  reply (hello c) p w = do s ← hello_ult c p w; ok none
  reply (sum c) p w = answer_of (λ o. o.ret) (sum_ult c p w)

  -- The strings of the request are not NULL, calloc gives memory, uuid_generate gives an id that is
  -- not in use, and the phonebooks to list are as many as a size_t can count.
  abbrev pub Servable : Provider W T → Request → Type 0
  Servable p (create_phonebook c) = MakeServable p c c.input
  Servable p (open_phonebook c) = MakeServable p c c.input
  Servable p (close_phonebook c) = CloseServable c.input
  Servable p (destroy_phonebook c) = CloseServable c.input
  Servable p (list_phonebooks c) = ListServable p c c.input
  Servable p (hello c) = Unit {0}
  Servable p (sum c) = Unit {0}

  -- A history of the provider, in which each request is servable when it comes.
  pub data Reach (p : Provider W T) (w : W) : Provider W T → W → Type 0 where
    here : Reach p w p w
    next :
        {q q' : Provider W T} {v v' : W} (r : Request)
        → Reach p w q v
        → Servable q r
        → handle r q v ≡ ok (q', v')
        → Reach p w q' v'

  module _ (alive : W → List Ptr) where
    -- A step ends with a state that owns its contexts.
    abbrev pub Steps : Run (Provider W T × W) → Type 0
    Steps r = (s : Provider W T × W) × (r ≡ ok s) × Owns alive s.0 s.1

    Steps-Keeps : {Out : Type 0} (r : Run (Served W T Out)) → Keeps alive r → Steps (state_of r)
    Steps-Keeps r (s, e, o) = ((s.provider, s.world), rw e refl, o)

    pub make-Steps :
        (make : BackendImpl W → Option String → Cmd W (Return × Ptr)) (c : Call CreatePhonebookIn)
        (p : Provider W T) (w : W)
        → ((b : BackendImpl W) → Contract alive b → Makes alive (make b))
        → Owns alive p w
        → MakeServable p c c.input
        → Keeps alive (make_phonebook_ult make c p w)
    unfolding make_phonebook_ult
    make-Steps make c p w makes o h = elim (Option-cases c.input) [
      | inl e ↦ rw (e, make_phonebook_ult) (_, refl, o)
      | inr (i, e) ↦
          let (token, type, calloc, new) = rw e at h in
          create-Keeps alive p w o make c i makes e token type calloc new
    ]

    -- While a provider owns its contexts, every servable request is served: no handler faults,
    -- and the provider owns its contexts again, so the live contexts of the backends are those of
    -- its phonebooks, each the context of one phonebook.
    pub handle-Owns :
        (r : Request) (p : Provider W T) (w : W)
        → Owns alive p w
        → Servable p r
        → (s : Provider W T × W) × (handle r p w ≡ ok s) × Owns alive s.0 s.1
    unfolding handle create_phonebook_ult open_phonebook_ult close_phonebook_ult
        destroy_phonebook_ult list_phonebooks_ult
    handle-Owns (create_phonebook c) p w o h =
        Steps-Keeps _ (make-Steps (λ b. b.create_phonebook) c p w (λ b k. k.creates) o h)
    handle-Owns (open_phonebook c) p w o h =
        Steps-Keeps _ (make-Steps (λ b. b.open_phonebook) c p w (λ b k. k.opens) o h)
    handle-Owns (close_phonebook c) p w o h = elim (Option-cases c.input) [
      | inl e ↦ rw (e, close_phonebook_ult) (_, refl, o)
      | inr (i, e) ↦ Steps-Keeps _ (close-Keeps alive p w o c i e (rw e at h))
    ]
    handle-Owns (destroy_phonebook c) p w o h = elim (Option-cases c.input) [
      | inl e ↦ rw (e, destroy_phonebook_ult) (_, refl, o)
      | inr (i, e) ↦ Steps-Keeps _ (destroy-Keeps alive p w o c i e (rw e at h))
    ]
    handle-Owns (list_phonebooks c) p w o h = elim (Option-cases c.input) [
      | inl e ↦ rw (e, list_phonebooks_ult) (_, refl, o)
      | inr (i, e) ↦
          let (token, calloc, small) = rw e at h in
          Steps-Keeps _ (list-Keeps alive p w o c i e token calloc small)
    ]
    handle-Owns (hello c) p w o h = Steps-Keeps _ (hello-Keeps alive p w o c)
    handle-Owns (sum c) p w o h = Steps-Keeps _ (sum-Keeps alive p w o c)

    -- A provider that owns its contexts owns them after every history of servable requests.
    pub Reach-Owns :
        {p : Provider W T} {w : W} {q : Provider W T} {v : W}
        → Owns alive p w
        → Reach p w q v
        → Owns alive q v
    Reach-Owns o here = o
    Reach-Owns o (next {q = q} {v = v} r before servable step) =
        let (s, run, o') = handle-Owns r q v (Reach-Owns o before) servable in
        let kept : OnOk Owned (handle r q v) = rw run o' in OnOk-eq Owned (handle r q v) kept step
      where
        Owned : Provider W T × W → Type 0
        Owned s = Owns alive s.0 s.1
