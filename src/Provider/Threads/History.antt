-- ===== src/Provider/Threads/History.antt =====
-- Every interleaving of the handlers of provider.c, from a provider at rest on.
use mathlib.Core.List.{Perm}
use mathlib.Core.List.Perm
use phonebook.Base.{◌≡◌, refl, ◌∙◌, ok, List, [], OnOk, OnOk-eq}
use phonebook.Common.{PhonebookId}
use phonebook.Backend.{Ptr}
use phonebook.Uthash.{Uthash}
use phonebook.Uthash.Items.{lookup}
use phonebook.Uthash.Order.{lookup-Perm}
use phonebook.Provider.{Provider}
use phonebook.Provider.Valid.{entries}
use phonebook.Provider.Owns.{Owns, ctxs}
use phonebook.Provider.Threads.{Threads, at_rest, Turn, turn}
use phonebook.Provider.Threads.Moves.{Safe}
use phonebook.Provider.Threads.View.{owner}
use phonebook.Provider.Threads.Begins.{Ready}
use phonebook.Provider.Threads.Safe.{turn-Safe}

module _ {W T : Type 0} ⦃H : Uthash W T⦄ where
  -- A history of turns, each ready when it comes.
  pub data Runs (s : Threads W T) : Threads W T → Type 0 where
    start : Runs s s
    next : {u v : Threads W T} (t : Turn) → Runs s u → Ready u t → turn t u ≡ ok v → Runs s v

  module _ (alive : W → List Ptr) where
    pub Owns-Safe : (p : Provider W T) (w : W) → Owns alive p w → Safe alive (at_rest p w)
    unfolding lookup owner
    Owns-Safe p w o = record {
      owners = entries p;
      held = record {
        live = o.live;
        apart = o.apart;
        distinct = o.valid.distinct;
        known = o.known;
      };
      valid = o.valid;
      lists = record {
        adding_ids = tt;
        leaving_ids = tt;
        owned = λ k. refl;
        waits = λ k h. cc;
        leaves = λ k h. cc;
      };
      types = o.types;
    }

    Runs-Safe : {s u : Threads W T} → Safe alive s → Runs s u → Safe alive u
    Runs-Safe i start = i
    Runs-Safe i (next {u = u} t before ready step) =
        let (v, run, i') = turn-Safe alive t u (Runs-Safe i before) ready in
        let kept : OnOk (Safe alive) (turn t u) = rw run i' in
        OnOk-eq (Safe alive) (turn t u) kept step

    -- However the handlers of a provider that owns its contexts are interleaved, as long as each turn is
    -- ready when it comes (so that no request names a phonebook that another has begun to free, and the
    -- libraries give what they are asked for), when every request has ended the contexts that are alive are, up to their order, those of the phonebooks of the
    -- provider: none leaked, and none was given back twice.
    pub Runs-owns :
        (p : Provider W T) (w : W) (s : Threads W T)
        → Owns alive p w
        → Runs (at_rest p w) s
        → s.adding ≡ []
        → s.leaving ≡ []
        → Perm (alive s.world) (ctxs (entries s.provider))
    unfolding owner lookup
    Runs-owns p w s o r a g =
        let i = Runs-Safe (Owns-Safe p w o) r in
        let same : (k : PhonebookId) → lookup k i.owners ≡ lookup k (entries s.provider) =
          λ k. i.lists.owned k ∙ rw (a, g) refl in
        rw i.held.live (
          Perm.map (λ b. b.ctx)
            (lookup-Perm i.owners (entries s.provider) i.held.distinct i.valid.distinct same))
