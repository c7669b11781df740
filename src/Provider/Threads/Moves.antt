-- ===== src/Provider/Threads/Moves.antt =====
-- The states of a provider with requests in flight (provider.c), and what starting and ending a
-- request does to them.
use phonebook.Base.{◌≡◌, true, false, none, some, List, [], ◌∷◌, ◌++◌}
use phonebook.Common.{PhonebookId}
use phonebook.Backend.{Ptr}
use phonebook.Backend.Contract.{Contract, All, holds, erase}
use phonebook.Uthash.{Uthash}
use phonebook.Uthash.Items.{Phonebook, lookup, remove, lookup-id, lookup-own_id}
use phonebook.Provider.Valid.{
  IsValid, entries, added, added-IsValid, removed, removed-IsValid, entries-added, entries-removed,
}
use phonebook.Provider.Owns.{holds-lookup, All-lookup}
use phonebook.Provider.Threads.{Threads}
use phonebook.Provider.Threads.Owners.{Held, Held-same, Held-added, Held-removed}
use phonebook.Provider.Threads.View.{
  Lists, new_owner, entry_owner, begin_adding, end_adding, begin_leaving, end_leaving,
}

module _ {W T : Type 0} ⦃H : Uthash W T⦄ where
  module _ (alive : W → List Ptr) where
    -- Some phonebooks own the live contexts: those that are created and not yet added, and the entries
    -- that are not yet freed.
    pub record Safe (s : Threads W T) : Type 0 where
      pub owners : List (Phonebook W)
      pub held : Held alive owners s.world
      pub valid : IsValid s.provider
      pub lists : Lists s.adding s.leaving (entries s.provider) owners
      pub types : All (Contract alive) s.provider.backend_types

    pub Safe-same :
        {s : Threads W T} (w : W) → alive w ≡ alive s.world → Safe s → Safe (record s { world = w })
    Safe-same w e i = record {
      owners = i.owners;
      held = Held-same alive w e i.held;
      valid = i.valid;
      lists = i.lists;
      types = i.types;
    }

    module _ (s : Threads W T) (i : Safe s) where
      -- A new phonebook owns its context before it is added.
      pub adding-Safe :
          (w : W) (b : Phonebook W)
          → lookup b.id s.adding ≡ none
          → lookup b.id (entries s.provider) ≡ none
          → holds b.ctx (alive s.world) ≡ false
          → alive w ≡ alive s.world ++ b.ctx ∷ []
          → Contract alive b.fn
          → Safe (record s { world = w; adding = b ∷ s.adding })
      adding-Safe w b a new fresh e k = record {
        owners = i.owners ++ b ∷ [];
        held = Held-added alive w b (new_owner i.lists b.id a new) fresh e k i.held;
        valid = i.valid;
        lists = begin_adding i.lists b a new;
        types = i.types;
      }

      -- A phonebook that is freed owns its context no more, though it is still an entry.
      pub leaving-Safe :
          (w : W) (k : PhonebookId) (b : Phonebook W)
          → lookup k s.leaving ≡ none
          → lookup k (entries s.provider) ≡ some b
          → alive w ≡ erase b.ctx (alive s.world)
          → Safe (record s { world = w; leaving = b ∷ s.leaving })
      leaving-Safe w k b g found e = record {
        owners = remove k i.owners;
        held = Held-removed alive w k b (entry_owner i.lists k g found) e i.held;
        valid = i.valid;
        lists = begin_leaving i.lists k b g found i.held.distinct;
        types = i.types;
      }

      -- The context of an entry that is not freed is alive, and its backend keeps the contract.
      pub entry_alive :
          (k : PhonebookId) {b : Phonebook W}
          → lookup k s.leaving ≡ none
          → lookup k (entries s.provider) ≡ some b
          → Contract alive b.fn × (holds b.ctx (alive s.world) ≡ true)
      entry_alive k g found =
          let own = entry_owner i.lists k g found in
          (
            All-lookup (λ b. Contract alive b.fn) k i.owners own i.held.known,
            rw i.held.live (holds-lookup k i.owners own),
          )

      pub end_adding-Safe :
          (k : PhonebookId) (b : Phonebook W)
          → lookup k s.adding ≡ some b
          → Safe (record s { provider = added s.provider b; adding = remove k s.adding })
      end_adding-Safe k b found =
          let new : lookup b.id (entries s.provider) ≡ none =
            i.lists.waits b.id (lookup-own_id k s.adding found) in
          record {
            owners = i.owners;
            held = i.held;
            valid = added-IsValid s.provider b i.valid new;
            lists = end_adding i.lists k b _ found (entries-added s.provider b i.valid new);
            types = i.types;
          }

      pub end_leaving-Safe :
          (k : PhonebookId) (b : Phonebook W)
          → lookup k s.leaving ≡ some b
          → Safe (record s { provider = removed s.provider b; leaving = remove k s.leaving })
      end_leaving-Safe k b found =
          let known = i.lists.leaves k found in
          let own = lookup-own_id k (entries s.provider) known in
          record {
            owners = i.owners;
            held = i.held;
            valid = removed-IsValid s.provider b i.valid own;
            lists =
                end_leaving i.lists k b _ found
                  (rw (← lookup-id k s.leaving found) (entries-removed s.provider b i.valid own))
                  i.valid.distinct;
            types = i.types;
          }
