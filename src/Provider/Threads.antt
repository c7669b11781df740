-- ===== src/Provider/Threads.antt =====
-- The handlers of src/provider.c as Argobots runs them: a call of a backend may block, and then other
-- handlers run. A handler that creates, opens, closes or destroys is split after its call.
pub mod Owners
pub mod View
pub mod Moves
pub mod Begins
pub mod Safe
pub mod History
pub mod Race
pub mod Parts
pub mod Flow
use phonebook.Base.{
  ℕ, Bool, true, false, Option, none, some, String, List, [], ◌∷◌, Run, ok, fault, ◌>>=◌,
  if◌then◌else◌,
}
use phonebook.Base.Words.{decr64}
use phonebook.Common.{
  Return, success, err_from_mercury, err_invalid_token, err_invalid_backend, err_invalid_phonebook,
  PhonebookId, is_success,
}
use phonebook.Backend.{BackendImpl, Ptr, Cmd}
use phonebook.Uthash.{Uthash}
use phonebook.Uthash.Items.{Phonebook, lookup, remove}
use phonebook.Types.{
  CreatePhonebookIn, CreatePhonebookOut, ClosePhonebookIn, ClosePhonebookOut, ListPhonebooksIn,
  HelloIn, SumIn,
}
use phonebook.Provider.{
  Provider, check_token, find_backend_impl, find_phonebook, add_phonebook, remove_phonebook,
}
use phonebook.Provider.Handlers.{
  Call, create_failed, closed, list_phonebooks_ult, hello_ult, sum_ult,
}

-- A handler after its call of the backend: it has its answer, or it still has to add or to take out a
-- phonebook.
pub data Begun (W Out : Type 0) : Type 0 where
  ended : Out → Begun W Out
  pending : Phonebook W → Begun W Out

module _ {W T : Type 0} ⦃H : Uthash W T⦄ where
  -- YP_create_phonebook_ult and YP_open_phonebook_ult up to the call of the backend. (The calloc that
  -- follows it does not block.)
  unfoldable pub begin_make :
      (BackendImpl W → Option String → Cmd W (Return × Ptr))
      → Call CreatePhonebookIn
      → Provider W T
      → W
      → Run (Begun W CreatePhonebookOut × W)
  begin_make make c p w = elim c.input [
    | none ↦ ok (ended (create_failed err_from_mercury), w)
    | some input ↦ do
      valid ← check_token p input.token
      if valid
          then (do
            found ← find_backend_impl p input.type
            elim found [
              | none ↦ ok (ended (create_failed err_invalid_backend), w)
              | some backend ↦ do
                ((ret, context), w') ← make backend input.config w
                if is_success ret
                    then (if c.calloc_ok
                        then ok (pending (record { fn = backend; ctx = context; id = c.uuid }), w')
                        else fault)
                    else ok (ended (create_failed ret), w')
            ])
          else ok (ended (create_failed err_invalid_token), w)
  ]

  -- YP_destroy_phonebook_ult up to the call of the backend.
  unfoldable pub begin_destroy :
      Call ClosePhonebookIn → Provider W T → W → Run (Begun W ClosePhonebookOut × W)
  begin_destroy c p w = elim c.input [
    | none ↦ ok (ended (closed err_from_mercury), w)
    | some input ↦ do
      valid ← check_token p input.token
      if valid
          then elim (find_phonebook p input.id) [
            | none ↦ ok (ended (closed err_invalid_phonebook), w)
            | some phonebook ↦ do
              (ignored, w') ← phonebook.fn.destroy_phonebook phonebook.ctx w
              ok (pending phonebook, w')
          ]
          else ok (ended (closed err_invalid_token), w)
  ]

  -- YP_close_phonebook_ult up to the call of the backend, in remove_phonebook; with its code.
  unfoldable pub begin_close :
      Call ClosePhonebookIn → Provider W T → W → Run ((Return × Begun W ClosePhonebookOut) × W)
  begin_close c p w = elim c.input [
    | none ↦ ok ((err_from_mercury, ended (closed err_from_mercury)), w)
    | some input ↦ do
      valid ← check_token p input.token
      if valid
          then elim (find_phonebook p input.id) [
            | none ↦ ok ((err_invalid_phonebook, ended (closed err_invalid_phonebook)), w)
            | some phonebook ↦ do
              (ret, w') ← phonebook.fn.close_phonebook phonebook.ctx w
              ok ((ret, pending phonebook), w')
          ]
          else ok ((err_invalid_token, ended (closed err_invalid_token)), w)
  ]

  -- The rest of remove_phonebook after it closed the phonebook.
  unfoldable pub unlink : Phonebook W → Provider W T → Provider W T
  unlink phonebook p = record p {
    phonebooks = H.del p.phonebooks phonebook;
    num_phonebooks = decr64 p.num_phonebooks;
  }

-- A provider with the requests in flight: the phonebooks that are created and not yet added, and those
-- that are freed and not yet taken out.
pub record Threads (W T : Type 0) : Type 0 where
  pub provider : Provider W T
  pub world : W
  pub adding : List (Phonebook W)
  pub leaving : List (Phonebook W)

-- What Argobots may run next. A request in flight is named by the id of its phonebook; the end of a
-- request that is not in flight changes nothing.
pub data Turn : Type 0 where
  begin_create_turn begin_open_turn : Call CreatePhonebookIn → Turn
  end_create_turn : PhonebookId → Turn
  begin_destroy_turn begin_close_turn : Call ClosePhonebookIn → Turn
  end_destroy_turn end_close_turn : PhonebookId → Turn
  list_turn : Call ListPhonebooksIn → Turn
  hello_turn : Call HelloIn → Turn
  sum_turn : Call SumIn → Turn

module _ {W T : Type 0} where
  -- A provider that serves no request.
  abbrev pub at_rest : Provider W T → W → Threads W T
  at_rest p w = record { provider = p; world = w; adding = []; leaving = [] }

  abbrev pub add_pending : {Out : Type 0} → Threads W T → Begun W Out × W → Threads W T
  add_pending s (ended out, w) = record s { world = w }
  add_pending s (pending b, w) = record s { world = w; adding = b ∷ s.adding }

  abbrev pub leave_pending : {Out : Type 0} → Threads W T → Begun W Out × W → Threads W T
  leave_pending s (ended out, w) = record s { world = w }
  leave_pending s (pending b, w) = record s { world = w; leaving = b ∷ s.leaving }

module _ {W T : Type 0} ⦃H : Uthash W T⦄ where
  unfoldable pub turn : Turn → Threads W T → Run (Threads W T)
  unfolding begin_make begin_destroy begin_close unlink
  turn (begin_create_turn c) s = do
    b ← begin_make (λ f. f.create_phonebook) c s.provider s.world
    ok (add_pending s b)
  turn (begin_open_turn c) s = do
    b ← begin_make (λ f. f.open_phonebook) c s.provider s.world
    ok (add_pending s b)
  turn (end_create_turn id) s = elim (lookup id s.adding) [
    | none ↦ ok s
    | some book ↦
        ok (record s { provider = (add_phonebook s.provider book).1; adding = remove id s.adding })
  ]
  turn (begin_destroy_turn c) s = do b ← begin_destroy c s.provider s.world; ok (leave_pending s b)
  turn (begin_close_turn c) s = do
    ((ret, b), w) ← begin_close c s.provider s.world
    ok (leave_pending s (b, w))
  turn (end_destroy_turn id) s = elim (lookup id s.leaving) [
    | none ↦ ok s
    | some book ↦ do
      (ret, p, w) ← remove_phonebook s.provider id false s.world
      ok (record s { provider = p; world = w; leaving = remove id s.leaving })
  ]
  turn (end_close_turn id) s = elim (lookup id s.leaving) [
    | none ↦ ok s
    | some book ↦ ok (record s { provider = unlink book s.provider; leaving = remove id s.leaving })
  ]
  turn (list_turn c) s = do
    v ← list_phonebooks_ult c s.provider s.world
    ok (record s { provider = v.provider; world = v.world })
  turn (hello_turn c) s = do
    v ← hello_ult c s.provider s.world
    ok (record s { provider = v.provider; world = v.world })
  turn (sum_turn c) s = do
    v ← sum_ult c s.provider s.world
    ok (record s { provider = v.provider; world = v.world })
