-- ===== src/Provider/Threads/Flow.antt =====
-- The ids of a provider while requests of provider.c are in flight: those that are listed, those that are
-- being made, and those that are being freed.
pub mod Turns
use phonebook.Base.{
  ◌≡◌, ◌⊎◌, refl, ◌∙◌, ap, true, false, none, some, List, [], ◌∷◌, ◌++◌, if◌then◌else◌, Run, ok,
  fault, ◌>>=◌, OnOk, OnOk-eq, Option-cases, inl, inr, arith,
}
use mathlib.Core.List.{map-append}
use phonebook.Common.{PhonebookId, id_eq_iff}
use phonebook.Backend.{Ptr}
use phonebook.Uthash.{Uthash}
use phonebook.Uthash.Items.{Phonebook, lookup, remove, lookup-id, lookup-own_id}
use phonebook.Provider.Valid.{
  entries, added, removed, add_phonebook_new, entries-added, entries-removed,
  remove_phonebook_found,
}
use phonebook.Provider.{close_if}
use phonebook.Provider.Listing.{ids_of}
use phonebook.Types.{CreatePhonebookIn, ClosePhonebookIn}
use phonebook.Provider.Handlers.{Call, Served, list_phonebooks_ult, hello_ult, sum_ult}
use phonebook.Provider.Threads.{
  Threads, Turn, turn, Begun, ended, pending, begin_make, begin_destroy, begin_close, add_pending,
  leave_pending, begin_create_turn, begin_open_turn, end_create_turn, begin_destroy_turn,
  begin_close_turn, end_destroy_turn, end_close_turn, list_turn, hello_turn, sum_turn,
}
use phonebook.Provider.Threads.Moves.{Safe}
use phonebook.Provider.Threads.Begins.{Ready}
use phonebook.Provider.Threads.Safe.{turn-Safe}
use phonebook.Provider.Threads.Parts.{
  begin_make-id, begin_destroy-found, begin_close-found, named_id, list-keeps, hello-keeps,
  sum-keeps,
}
use phonebook.Remote.Spec.{knows, without}
use phonebook.Remote.Stands.{knows-lookup, ids_of-remove}

pub record Flow : Type 0 where
  pub listed : List PhonebookId
  pub making : List PhonebookId
  pub freeing : List PhonebookId

-- A request starts to make the id that uuid_generate gives, which is not known, or to free the id that it
-- names, which is listed and which no other request frees; or it changes nothing.
abbrev pub StartsMaking : Call CreatePhonebookIn → Flow → Flow → Type 0
StartsMaking c f f' =
    (f' ≡ f)
    ⊎ ((knows c.uuid f.listed ≡ false)
        × (knows c.uuid f.making ≡ false)
        × (f' ≡ record f { making = c.uuid ∷ f.making }))

abbrev pub StartsFreeing : Call ClosePhonebookIn → Flow → Flow → Type 0
StartsFreeing c f f' =
    (f' ≡ f)
    ⊎ ((input : ClosePhonebookIn) × (c.input ≡ some input)
        × (knows input.id f.listed ≡ true)
        × (knows input.id f.freeing ≡ false)
        × (f' ≡ record f { freeing = input.id ∷ f.freeing }))

-- What a turn may do to the ids.
abbrev pub MayMove : Turn → Flow → Flow → Type 0
MayMove (begin_create_turn c) f f' = StartsMaking c f f'
MayMove (begin_open_turn c) f f' = StartsMaking c f f'
MayMove (end_create_turn id) f f' = f' ≡ (
    if knows id f.making
    then record f { making = without id f.making; listed = f.listed ++ id ∷ [] }
    else f)
MayMove (begin_destroy_turn c) f f' = StartsFreeing c f f'
MayMove (begin_close_turn c) f f' = StartsFreeing c f f'
MayMove (end_destroy_turn id) f f' = f' ≡ (
    if knows id f.freeing
    then record f { freeing = without id f.freeing; listed = without id f.listed }
    else f)
MayMove (end_close_turn id) f f' = f' ≡ (
    if knows id f.freeing
    then record f { freeing = without id f.freeing; listed = without id f.listed }
    else f)
MayMove _ f f' = f' ≡ f

module _ {W : Type 0} where
  pub knows-none :
      (k : PhonebookId) (l : List (Phonebook W)) → lookup k l ≡ none → knows k (ids_of l) ≡ false
  knows-none k l e = rw (knows-lookup k l, e) refl

  pub knows-some :
      (k : PhonebookId) (l : List (Phonebook W)) {b : Phonebook W}
      → lookup k l ≡ some b
      → knows k (ids_of l) ≡ true
  knows-some k l e = rw (knows-lookup k l, e) refl

  lookup-head : (b : Phonebook W) (l : List (Phonebook W)) → lookup b.id (b ∷ l) ≡ some b
  unfolding lookup
  lookup-head b l = ground (arith, id_eq_iff b.id b.id)

module _ {W T : Type 0} ⦃H : Uthash W T⦄ where
  abbrev pub flow : Threads W T → Flow
  flow s = record {
    listed = ids_of (entries s.provider);
    making = ids_of s.adding;
    freeing = ids_of s.leaving;
  }

  module _ (alive : W → List Ptr) (s : Threads W T) where
    -- What is started leaves a safe state, which tells where the id was before.
    pub add_pending-StartsMaking :
        {Out : Type 0} (c : Call CreatePhonebookIn) (r : Begun W Out × W)
        → Safe alive (add_pending s r)
        → ((b : Phonebook W) (w : W) → r ≡ (pending b, w) → b.id ≡ c.uuid)
        → StartsMaking c (flow s) (flow (add_pending s r))
    add_pending-StartsMaking c (ended out, w) i k = inl refl
    add_pending-StartsMaking c (pending b, w) i k = rw (← k b w refl) (
        inr (
          knows-none b.id (entries s.provider) (i.lists.waits b.id (lookup-head b s.adding)),
          knows-none b.id s.adding i.lists.adding_ids.0,
          refl,
        ))

    pub leave_pending-StartsFreeing :
        {Out : Type 0} (c : Call ClosePhonebookIn) (r : Begun W Out × W)
        → Safe alive (leave_pending s r)
        → ((b : Phonebook W) (w : W)
            → r ≡ (pending b, w)
            → (input : ClosePhonebookIn) × (c.input ≡ some input) × (input.id ≡ b.id))
        → StartsFreeing c (flow s) (flow (leave_pending s r))
    leave_pending-StartsFreeing c (ended out, w) i k = inl refl
    leave_pending-StartsFreeing c (pending b, w) i k =
        let (input, e, same) = k b w refl in
        inr (
          input,
          e,
          rw same (
              knows-some b.id (entries s.provider) (i.lists.leaves b.id (lookup-head b s.leaving))),
          rw same (knows-none b.id s.leaving i.lists.leaving_ids.0),
          rw same refl,
        )
