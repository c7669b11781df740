-- ===== src/Provider/Threads/Race.antt =====
-- Two requests to destroy one phonebook, interleaved (YP_destroy_phonebook_ult of provider.c and
-- dummy_destroy_phonebook of dummy-backend.c).
use phonebook.Base.{
  ◌≡◌, refl, ◌∙◌, true, false, some, none, List, [], ◌∷◌, ok, fault, ◌>>=◌, arith, if◌then◌else◌,
}
use phonebook.Backend.{Ptr}
use phonebook.Backend.Contract.{Apart, holds, erase}
use phonebook.Backend.Dummy.{
  Memory, addresses, Allocator, drop_context, dummy_backend, dummy_destroy_phonebook,
}
use phonebook.Backend.Dummy.Contract.{drop_context-erase}
use phonebook.Json.{Json}
use phonebook.Uthash.{Uthash}
use phonebook.Uthash.Items.{Phonebook, lookup}
use phonebook.Types.{ClosePhonebookIn}
use phonebook.Provider.{check_token}
use phonebook.Provider.Valid.{IsValid, entries, find_phonebook-lookup}
use phonebook.Provider.Handlers.{Call}
use phonebook.Provider.Threads.{Threads, turn, begin_destroy_turn, begin_destroy}
use phonebook.Provider.Threads.Moves.{Safe, entry_alive}

holds-erase_self : (a : Ptr) (l : List Ptr) → Apart l → holds a (erase a l) ≡ false
unfolding holds erase
holds-erase_self a [] d = refl
holds-erase_self a (x ∷ l) d = ground (arith, holds-erase_self a l)

module _ {J T : Type 0} ⦃H : Uthash (Memory J) T⦄ (json : Json J) (alloc : Allocator) where
  begin_destroy-dummy :
      (c : Call ClosePhonebookIn) {input : ClosePhonebookIn} (s : Threads (Memory J) T)
      {b : Phonebook (Memory J)}
      → IsValid s.provider
      → c.input ≡ some input
      → check_token s.provider input.token ≡ ok true
      → lookup input.id (entries s.provider) ≡ some b
      → b.fn ≡ dummy_backend json alloc
      → turn (begin_destroy_turn c) s ≡ (
          if holds b.ctx (addresses s.world)
          then ok (record s {
            world = record s.world { contexts = drop_context b.ctx s.world.contexts };
            leaving = b ∷ s.leaving;
          })
          else fault)
  unfolding turn begin_destroy dummy_destroy_phonebook
  begin_destroy-dummy c {input} s {b} v got valid found dummy =
      rw
        (got, turn, begin_destroy, valid, find_phonebook-lookup s.provider input.id v, found, dummy)
        (ground arith)

  -- In a safe state, two requests to destroy one phonebook of the dummy backend, both with a valid
  -- token: where the second one starts before the first one has taken the phonebook out of the hash,
  -- the backend is given the context that it has freed, which is a fault.
  pub destroy_twice-faults :
      (c d : Call ClosePhonebookIn) (first second : ClosePhonebookIn) (s : Threads (Memory J) T)
      (b : Phonebook (Memory J))
      → Safe addresses s
      → lookup first.id s.leaving ≡ none
      → c.input ≡ some first
      → d.input ≡ some second
      → second.id ≡ first.id
      → check_token s.provider first.token ≡ ok true
      → check_token s.provider second.token ≡ ok true
      → lookup first.id (entries s.provider) ≡ some b
      → b.fn ≡ dummy_backend json alloc
      → (turn (begin_destroy_turn c) s >>= turn (begin_destroy_turn d)) ≡ fault
  destroy_twice-faults c d first second s b i g got got' same valid valid' found dummy =
      let (k, live) = entry_alive addresses s i first.id g found in
      let gone : holds b.ctx
            (addresses (record s.world { contexts = drop_context b.ctx s.world.contexts }))
          ≡ false =
        rw (drop_context-erase b.ctx s.world.contexts)
          (holds-erase_self b.ctx (addresses s.world) (rw i.held.live i.held.apart)) in
      rw (begin_destroy-dummy c s i.valid got valid found dummy, live)
        (begin_destroy-dummy d
            (record s {
              world = record s.world { contexts = drop_context b.ctx s.world.contexts };
              leaving = b ∷ s.leaving;
            })
            {b = b} i.valid got' valid' (rw same found) dummy
          ∙ rw gone refl)
