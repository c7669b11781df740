-- ===== src/Provider/Threads/Flow/Turns.antt =====
-- What each turn of the handlers of provider.c does to the ids.
use phonebook.Base.{
  ◌≡◌, refl, ◌∙◌, ap, false, none, some, List, [], ◌∷◌, ◌++◌, if◌then◌else◌, Run, ok, fault, ◌>>=◌,
  OnOk, OnOk-eq, Option-cases, inl, inr,
}
use mathlib.Core.List.{map-append}
use phonebook.Common.{PhonebookId}
use phonebook.Backend.{Ptr}
use phonebook.Uthash.{Uthash}
use phonebook.Uthash.Items.{Phonebook, lookup, remove, lookup-id, lookup-own_id}
use phonebook.Provider.Valid.{
  entries, added, removed, add_phonebook_new, entries-added, entries-removed,
  remove_phonebook_found,
}
use phonebook.Provider.{close_if}
use phonebook.Types.{CreatePhonebookIn, ClosePhonebookIn}
use phonebook.Provider.Handlers.{Call, Served, list_phonebooks_ult, hello_ult, sum_ult}
use phonebook.Provider.Threads.{
  Threads, Turn, turn, Begun, pending, begin_make, begin_destroy, begin_close, add_pending,
  leave_pending, begin_create_turn, begin_open_turn, end_create_turn, begin_destroy_turn,
  begin_close_turn, end_destroy_turn, end_close_turn, list_turn, hello_turn, sum_turn,
}
use phonebook.Provider.Threads.Moves.{Safe}
use phonebook.Provider.Threads.Begins.{Ready}
use phonebook.Provider.Threads.Safe.{turn-Safe}
use phonebook.Provider.Threads.Parts.{
  begin_make-id, begin_destroy-found, begin_close-found, named_id, list-keeps, hello-keeps,
  sum-keeps,
}
use phonebook.Remote.Spec.{knows, without}
use phonebook.Remote.Stands.{ids_of-remove}
use phonebook.Provider.Threads.Flow.{
  StartsMaking, StartsFreeing, MayMove, flow, knows-none, knows-some, add_pending-StartsMaking,
  leave_pending-StartsFreeing,
}

module _ {W T : Type 0} ⦃H : Uthash W T⦄ where
  module _ (alive : W → List Ptr) where
    -- A turn that is ready in a safe state ends, and its next state.
    abbrev Moves : Turn → Threads W T → Type 0
    Moves t s = (s' : Threads W T) × (turn t s ≡ ok s') × MayMove t (flow s) (flow s')

    freed-Moves :
        (id : PhonebookId) (b : Phonebook W) (s : Threads W T)
        → Safe alive s
        → lookup id s.leaving ≡ some b
        → flow (record s { provider = removed s.provider b; leaving = remove id s.leaving }) ≡ (
            if knows id (flow s).freeing
            then record (flow s) {
              freeing = without id (flow s).freeing;
              listed = without id (flow s).listed;
            }
            else flow s)
    freed-Moves id b s i e =
        let known = i.lists.leaves id e in
        let own = lookup-own_id id (entries s.provider) known in
        let less : entries (removed s.provider b) ≡ remove id (entries s.provider) =
          rw (← lookup-id id s.leaving e) (entries-removed s.provider b i.valid own) in
        rw
          (
            knows-some id s.leaving e,
            less,
            ids_of-remove id (entries s.provider),
            ids_of-remove id s.leaving,
          )
          refl

    made-Moves :
        (id : PhonebookId) (b : Phonebook W) (s : Threads W T)
        → Safe alive s
        → lookup id s.adding ≡ some b
        → lookup b.id (entries s.provider) ≡ none
        → flow (record s { provider = added s.provider b; adding = remove id s.adding }) ≡ (
            if knows id (flow s).making
            then record (flow s) {
              making = without id (flow s).making;
              listed = (flow s).listed ++ id ∷ [];
            }
            else flow s)
    made-Moves id b s i e new =
        rw
          (
            knows-some id s.adding e,
            entries-added s.provider b i.valid new,
            ids_of-remove,
            map-append,
            lookup-id id s.adding e,
          )
          refl

    -- A turn is a run of a handler, or of its part, and what that changes.
    making-Moves :
        {Out : Type 0} (t : Turn) (s : Threads W T) (c : Call CreatePhonebookIn)
        (r : Run (Begun W Out × W))
        → Safe alive s
        → Ready s t
        → turn t s ≡ (r >>= λ b. ok (add_pending s b))
        → ((b : Phonebook W) (w : W) → r ≡ ok (pending b, w) → b.id ≡ c.uuid)
        → (s' : Threads W T) × (turn t s ≡ ok s') × StartsMaking c (flow s) (flow s')
    making-Moves t s c fault i h e k = let (s', run, i') = turn-Safe alive t s i h in cc
    making-Moves t s c (ok x) i h e k =
        let (s', run, i') = turn-Safe alive t s i h in
        let kept : OnOk (Safe alive) (turn t s) = rw run i' in
        (
          add_pending s x,
          e,
          add_pending-StartsMaking alive s c x (OnOk-eq (Safe alive) (turn t s) kept e)
              (λ b w same. k b w (ap ok same)),
        )

    freeing-Moves :
        {A Out : Type 0} (t : Turn) (s : Threads W T) (c : Call ClosePhonebookIn) (r : Run A)
        (part : A → Begun W Out × W)
        → Safe alive s
        → Ready s t
        → turn t s ≡ (r >>= λ x. ok (leave_pending s (part x)))
        → ((x : A) (b : Phonebook W) (w : W)
            → r ≡ ok x
            → part x ≡ (pending b, w)
            → (input : ClosePhonebookIn) × (c.input ≡ some input) × (input.id ≡ b.id))
        → (s' : Threads W T) × (turn t s ≡ ok s') × StartsFreeing c (flow s) (flow s')
    freeing-Moves t s c fault part i h e k = let (s', run, i') = turn-Safe alive t s i h in cc
    freeing-Moves t s c (ok x) part i h e k =
        let (s', run, i') = turn-Safe alive t s i h in
        let kept : OnOk (Safe alive) (turn t s) = rw run i' in
        (
          leave_pending s (part x),
          e,
          leave_pending-StartsFreeing alive s c (part x) (OnOk-eq (Safe alive) (turn t s) kept e)
              (λ b w same. k x b w refl same),
        )

    keeping-Moves :
        {Out : Type 0} (t : Turn) (s : Threads W T) (r : Run (Served W T Out))
        → Safe alive s
        → Ready s t
        → OnOk (λ v. v.provider ≡ s.provider) r
        → turn t s ≡ (r >>= λ v. ok (record s { provider = v.provider; world = v.world }))
        → (s' : Threads W T) × (turn t s ≡ ok s') × (flow s' ≡ flow s)
    keeping-Moves t s fault i h same e = let (s', run, i') = turn-Safe alive t s i h in cc
    keeping-Moves t s (ok v) i h same e = (_, e, ap (λ p. flow (record s { provider = p })) same)

    -- In a safe state every turn that is ready ends, whatever the backends answer. A turn that begins to
    -- create or to open starts to make the id from uuid_generate, which is neither listed nor being made,
    -- or changes none of the ids; one that begins to close or to destroy starts to free the id that it
    -- names, which is listed and which no other request frees, or changes none. The turn that ends a creation lists the id last; the one that ends
    -- a close or a destruction takes the id out. All other turns leave the ids as they are.
    pub turn-MayMove : (t : Turn) (s : Threads W T) → Safe alive s → Ready s t → Moves t s
    unfolding turn close_if
    turn-MayMove (begin_create_turn c) s i h =
        making-Moves (begin_create_turn c) s c
          (begin_make (λ f. f.create_phonebook) c s.provider s.world) i h refl
          (begin_make-id s.provider s.world (λ f. f.create_phonebook) c)
    turn-MayMove (begin_open_turn c) s i h =
        making-Moves (begin_open_turn c) s c
          (begin_make (λ f. f.open_phonebook) c s.provider s.world) i h refl
          (begin_make-id s.provider s.world (λ f. f.open_phonebook) c)
    turn-MayMove (begin_destroy_turn c) s i h =
        freeing-Moves (begin_destroy_turn c) s c (begin_destroy c s.provider s.world) (λ r. r) i h
          refl
          (λ x b w e same.
            named_id s.provider s.world c b i.valid
              (begin_destroy-found s.provider s.world c b w (e ∙ ap ok same)))
    turn-MayMove (begin_close_turn c) s i h =
        freeing-Moves (begin_close_turn c) s c (begin_close c s.provider s.world)
          (λ r. (r.0.1, r.1)) i h refl
          (λ x b w e same. named_id s.provider s.world c b i.valid (
            begin_close-found s.provider s.world c x.0.0 b w
              (e ∙ ap (λ y. ok ((x.0.0, y.0), y.1)) same)))
    turn-MayMove (end_create_turn id) s i h = elim (Option-cases (lookup id s.adding)) [
      | inl e ↦ rw (turn, e) (s, refl, rw (knows-none id s.adding e) refl)
      | inr (b, e) ↦
          let new : lookup b.id (entries s.provider) ≡ none =
            i.lists.waits b.id (lookup-own_id id s.adding e) in
          rw (turn, e, add_phonebook_new s.provider b i.valid new)
            (_, refl, made-Moves id b s i e new)
    ]
    turn-MayMove (end_destroy_turn id) s i h = elim (Option-cases (lookup id s.leaving)) [
      | inl e ↦ rw (turn, e) (s, refl, rw (knows-none id s.leaving e) refl)
      | inr (b, e) ↦
          rw
            (
              turn,
              e,
              remove_phonebook_found s.provider id b false s.world i.valid (i.lists.leaves id e),
            )
            (_, refl, freed-Moves id b s i e)
    ]
    turn-MayMove (end_close_turn id) s i h = elim (Option-cases (lookup id s.leaving)) [
      | inl e ↦ rw (turn, e) (s, refl, rw (knows-none id s.leaving e) refl)
      | inr (b, e) ↦ rw (turn, e) (_, refl, freed-Moves id b s i e)
    ]
    turn-MayMove (list_turn c) s i h =
        keeping-Moves (list_turn c) s (list_phonebooks_ult c s.provider s.world) i h
          (list-keeps s.provider s.world c) refl
    turn-MayMove (hello_turn c) s i h =
        keeping-Moves (hello_turn c) s (hello_ult c s.provider s.world) i h
          (hello-keeps s.provider s.world c) refl
    turn-MayMove (sum_turn c) s i h =
        keeping-Moves (sum_turn c) s (sum_ult c s.provider s.world) i h
          (sum-keeps s.provider s.world c) refl
