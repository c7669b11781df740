-- ===== src/Provider/Handlers.antt =====
-- The RPC handlers of src/provider.c (the functions that end in _ult). Each is a function of what
-- the libraries deliver for one call, the provider and the memory of the backends.
use phonebook.Base.{
  suc, ℕ, zero, Bool, true, false, Option, none, some, List, [], ◌∷◌, Run, ok, fault, ◌>>=◌, ltb,
  if◌then◌else◌, String,
}
use phonebook.Common.{
  Return, success, err_from_mercury, err_invalid_token, err_invalid_backend, err_invalid_phonebook,
  PhonebookId, is_success,
}
use phonebook.Backend.{BackendImpl, Ptr, Cmd}
use phonebook.Uthash.{Uthash}
use phonebook.Uthash.Items.{Phonebook}
use phonebook.Types.{
  CreatePhonebookIn, CreatePhonebookOut, OpenPhonebookIn, OpenPhonebookOut, ClosePhonebookIn,
  ClosePhonebookOut, DestroyPhonebookIn, DestroyPhonebookOut, ListPhonebooksIn, ListPhonebooksOut,
  HelloIn, SumIn, SumOut,
}
use phonebook.Provider.{
  Provider, check_token, find_backend_impl, find_phonebook, add_phonebook, remove_phonebook,
}

-- What the libraries deliver for one call: the input of margo_get_input (`none` where it fails), the
-- id that uuid_generate writes, and whether calloc gives memory.
pub record Call (In : Type 0) : Type 0 where
  pub input : Option In
  pub uuid : PhonebookId
  pub calloc_ok : Bool

-- What a handler does with the handle of its call, in order.
pub data Action (Out : Type 0) : Type 0 where
  respond : Out → Action Out
  free_input : Action Out
  destroy_handle : Action Out

pub record Served (W T Out : Type 0) : Type 0 where
  pub actions : List (Action Out)
  pub provider : Provider W T
  pub world : W

-- The code behind the label `finish`, which all handlers share but YP_hello_ult.
abbrev pub finish : {W T Out : Type 0} → Out → Provider W T → W → Served W T Out
finish out p w = record {
  actions = respond out ∷ free_input ∷ destroy_handle ∷ [];
  provider = p;
  world = w;
}

-- The code behind the label `finish` of YP_hello_ult.
abbrev pub finish_hello : {W T : Type 0} → Provider W T → W → Served W T (Unit {0})
finish_hello p w = record { actions = destroy_handle ∷ []; provider = p; world = w }

-- A result of which only `ret` is assigned.
abbrev pub create_failed : Return → CreatePhonebookOut
create_failed ret = record { ret = ret; id = none }

abbrev pub closed : Return → ClosePhonebookOut
closed ret = record { ret = ret }

abbrev pub list_failed : Return → ListPhonebooksOut
list_failed ret = record { ret = ret; count = none; ids = none }

abbrev pub sum_failed : Return → SumOut
sum_failed ret = record { result = none; ret = ret }

abbrev pub listed : ℕ → Option (List PhonebookId) → ListPhonebooksOut
listed count ids = record { ret = success; count = some count; ids = ids }

-- The `n` ids of zero bytes that calloc gives.
unfoldable pub zero_ids : (n : ℕ) → List PhonebookId
zero_ids zero = []
zero_ids (suc n) =
    record { uuid = 0 ∷ 0 ∷ 0 ∷ 0 ∷ 0 ∷ 0 ∷ 0 ∷ 0 ∷ 0 ∷ 0 ∷ 0 ∷ 0 ∷ 0 ∷ 0 ∷ 0 ∷ 0 ∷ [] }
    ∷ zero_ids n

-- The loop of HASH_ITER that fills `out.ids` from its first element on; to write beyond the array is
-- a fault.
unfoldable pub fill_ids :
    {W : Type 0} → (array : List PhonebookId) → List (Phonebook W) → Run (List PhonebookId)
fill_ids array [] = ok array
fill_ids [] (r ∷ rest) = fault
fill_ids (x ∷ array) (r ∷ rest) = do ids ← fill_ids array rest; ok (r.id ∷ ids)

-- `out.ids`, an array of `n` elements; `calloc_ok` is false where calloc returned NULL, which the
-- loop writes through.
unfoldable pub collect_ids :
    {W : Type 0}
    → (calloc_ok : Bool) → (n : ℕ) → List (Phonebook W)
    → Run (Option (List PhonebookId))
unfolding zero_ids fill_ids
collect_ids true n l = do ids ← fill_ids (zero_ids n) l; ok (some ids)
collect_ids false n [] = ok none
collect_ids false n (r ∷ rest) = fault

module _ {W T : Type 0} ⦃H : Uthash W T⦄ where
  -- From the calloc of the phonebook to the end: the result of add_phonebook is not looked at, and
  -- a failed calloc is written through.
  unfoldable pub store_phonebook :
      Call CreatePhonebookIn
      → BackendImpl W
      → Ptr
      → Provider W T
      → W
      → Run (Served W T CreatePhonebookOut)
  store_phonebook c backend context p w =
      if c.calloc_ok
      then ok (
          finish (record { ret = success; id = some c.uuid })
            (add_phonebook p (record { fn = backend; ctx = context; id = c.uuid })).1 w)
      else fault

  -- From the creation of the context on.
  unfoldable pub make_context :
      (BackendImpl W → Option String → Cmd W (Return × Ptr))
      → Call CreatePhonebookIn
      → CreatePhonebookIn
      → BackendImpl W
      → Provider W T
      → W
      → Run (Served W T CreatePhonebookOut)
  unfolding store_phonebook
  make_context make c input backend p w = do
    ((ret, context), w') ← make backend input.config w
    if is_success ret
        then store_phonebook c backend context p w'
        else ok (finish (create_failed ret) p w')

  -- The body that YP_create_phonebook_ult and YP_open_phonebook_ult have in common; `make` is the
  -- function of the backend that they call.
  unfoldable pub make_phonebook_ult :
      (BackendImpl W → Option String → Cmd W (Return × Ptr))
      → Call CreatePhonebookIn
      → Provider W T
      → W
      → Run (Served W T CreatePhonebookOut)
  unfolding make_context
  make_phonebook_ult make c p w = elim c.input [
    | none ↦ ok (finish (create_failed err_from_mercury) p w)
    | some input ↦ do
      valid ← check_token p input.token
      if valid
          then (do
            found ← find_backend_impl p input.type
            elim found [
              | none ↦ ok (finish (create_failed err_invalid_backend) p w)
              | some backend ↦ make_context make c input backend p w
            ])
          else ok (finish (create_failed err_invalid_token) p w)
  ]

  unfoldable pub create_phonebook_ult :
      Call CreatePhonebookIn → Provider W T → W → Run (Served W T CreatePhonebookOut)
  unfolding make_phonebook_ult
  create_phonebook_ult = make_phonebook_ult (λ backend. backend.create_phonebook)

  unfoldable pub open_phonebook_ult :
      Call OpenPhonebookIn → Provider W T → W → Run (Served W T OpenPhonebookOut)
  unfolding make_phonebook_ult
  open_phonebook_ult = make_phonebook_ult (λ backend. backend.open_phonebook)

  unfoldable pub close_phonebook_ult :
      Call ClosePhonebookIn → Provider W T → W → Run (Served W T ClosePhonebookOut)
  close_phonebook_ult c p w = elim c.input [
    | none ↦ ok (finish (closed err_from_mercury) p w)
    | some input ↦ do
      valid ← check_token p input.token
      if valid
          then (do
            (ret, p', w') ← remove_phonebook p input.id true w
            ok (finish (closed ret) p' w'))
          else ok (finish (closed err_invalid_token) p w)
  ]

  unfoldable pub destroy_phonebook_ult :
      Call DestroyPhonebookIn → Provider W T → W → Run (Served W T DestroyPhonebookOut)
  destroy_phonebook_ult c p w = elim c.input [
    | none ↦ ok (finish (closed err_from_mercury) p w)
    | some input ↦ do
      valid ← check_token p input.token
      if valid
          then elim (find_phonebook p input.id) [
            | none ↦ ok (finish (closed err_invalid_phonebook) p w)
            | some phonebook ↦ do
              (ignored, w') ← phonebook.fn.destroy_phonebook phonebook.ctx w
              (ret, p', w'') ← remove_phonebook p input.id false w'
              ok (finish (closed ret) p' w'')
          ]
          else ok (finish (closed err_invalid_token) p w)
  ]

  -- `out.ids` has `num_phonebooks` elements, `out.count` is at most `max_ids`.
  unfoldable pub list_phonebooks_ult :
      Call ListPhonebooksIn → Provider W T → W → Run (Served W T ListPhonebooksOut)
  unfolding collect_ids
  list_phonebooks_ult c p w = elim c.input [
    | none ↦ ok (finish (list_failed err_from_mercury) p w)
    | some input ↦ do
      valid ← check_token p input.token
      if valid
          then (do
            ids ← collect_ids c.calloc_ok p.num_phonebooks (H.items p.phonebooks)
            ok (
                finish
                  (listed
                    (if ltb p.num_phonebooks input.max_ids then p.num_phonebooks else input.max_ids)
                    ids)
                  p w))
          else ok (finish (list_failed err_invalid_token) p w)
  ]

  unfoldable pub hello_ult : Call HelloIn → Provider W T → W → Run (Served W T (Unit {0}))
  hello_ult c p w = elim c.input [
    | none ↦ ok (finish_hello p w)
    | some input ↦ elim (find_phonebook p input.phonebook_id) [
      | none ↦ ok (finish_hello p w)
      | some phonebook ↦ do (_, w') ← phonebook.fn.hello phonebook.ctx w; ok (finish_hello p w')
    ]
  ]

  unfoldable pub sum_ult : Call SumIn → Provider W T → W → Run (Served W T SumOut)
  sum_ult c p w = elim c.input [
    | none ↦ ok (finish (sum_failed err_from_mercury) p w)
    | some input ↦ elim (find_phonebook p input.phonebook_id) [
      | none ↦ ok (finish (sum_failed err_invalid_phonebook) p w)
      | some phonebook ↦ do
        (result, w') ← phonebook.fn.sum phonebook.ctx input.x input.y w
        ok (finish (record { result = some result; ret = success }) p w')
    ]
  ]
