-- ===== src/Remote/Moves.antt =====
-- What happens to a provider and to the directory that it stands for when a phonebook comes or goes
-- (provider.c with the dummy backend).
use phonebook.Base.{◌≡◌, refl, ◌∙◌, some, String, List, [], ◌∷◌, ◌++◌, false}
use mathlib.Core.List.{map-append}
use phonebook.Common.{PhonebookId}
use phonebook.Backend.{Ptr}
use phonebook.Backend.Contract.{All-append, holds, erase}
use phonebook.Backend.Dummy.{Memory, Allocator, addresses}
use phonebook.Backend.Dummy.Contract.{dummy_backend-Contract}
use phonebook.Base.{◌≢◌}
use phonebook.Backend.{null}
use phonebook.Json.{Json}
use phonebook.Uthash.{Uthash}
use phonebook.Uthash.Items.{Phonebook, lookup, remove, lookup-id, lookup-own_id}
use phonebook.Types.RoundTrip.{IsUuid}
use phonebook.Provider.{Provider}
use phonebook.Provider.Valid.{entries, added, removed, entries-added, entries-removed}
use phonebook.Provider.Owns.{Owns-same, Owns-added, Owns-removed, All-remove}
use phonebook.Remote.Spec.{Directory, knows, without}
use phonebook.Remote.Stands.{Stands, dummy, no_phonebook, ids_of-remove, All-without}

module _ {J T : Type 0} ⦃H : Uthash (Memory J) T⦄ (json : Json J) (a : Allocator)
    (memory : (used : List Ptr) → a.calloc used ≢ null) {s : Provider (Memory J) T × Memory J}
    {d : Directory} (r : Stands json a s d) where
  pub made-Stands :
      (w : Memory J) (ctx : Ptr) (uuid : PhonebookId)
      → IsUuid uuid
      → knows uuid d.ids ≡ false
      → holds ctx (addresses s.1) ≡ false
      → addresses w ≡ addresses s.1 ++ ctx ∷ []
      → w.stdout ≡ s.1.stdout
      → Stands json a
          (added s.0 (record { fn = dummy json a; ctx = ctx; id = uuid }), w)
          (record d { ids = d.ids ++ uuid ∷ [] })
  made-Stands w ctx uuid good fresh new grown same =
      let b : Phonebook (Memory J) = record { fn = dummy json a; ctx = ctx; id = uuid } in
      let unknown = no_phonebook json a r uuid fresh in
      let more = entries-added s.0 b r.owns.valid unknown in
      record {
        owns =
            Owns-added addresses w b unknown new grown (dummy_backend-Contract json a memory)
              r.owns;
        types = r.types;
        dummies = rw more (All-append (λ b. b.fn ≡ dummy json a) (entries s.0) b r.dummies refl);
        token = r.token;
        ids = rw (more, map-append, r.ids) refl;
        uuids = All-append IsUuid d.ids uuid r.uuids good;
        printed = same ∙ r.printed;
      }

  pub freed-Stands :
      (w : Memory J) (k : PhonebookId) (b : Phonebook (Memory J))
      → lookup k (entries s.0) ≡ some b
      → addresses w ≡ erase b.ctx (addresses s.1)
      → w.stdout ≡ s.1.stdout
      → Stands json a (removed s.0 b, w) (record d { ids = without k d.ids })
  freed-Stands w k b found gone same =
      let own = lookup-own_id k (entries s.0) found in
      let less : entries (removed s.0 b) ≡ remove k (entries s.0) =
        rw (← lookup-id k (entries s.0) found) (entries-removed s.0 b r.owns.valid own) in
      record {
        owns = Owns-removed addresses w b own gone r.owns;
        types = r.types;
        dummies = rw less (All-remove (λ b. b.fn ≡ dummy json a) k (entries s.0) r.dummies);
        token = r.token;
        ids = rw (less, ids_of-remove, r.ids) refl;
        uuids = All-without IsUuid k d.ids r.uuids;
        printed = same ∙ r.printed;
      }

  pub printed-Stands :
      (line : String)
      → Stands json a
          (s.0, record s.1 { stdout = s.1.stdout ++ line ∷ [] })
          (record d { printed = d.printed ++ line ∷ [] })
  printed-Stands line = record {
    owns = Owns-same addresses (record s.1 { stdout = s.1.stdout ++ line ∷ [] }) refl r.owns;
    types = r.types;
    dummies = r.dummies;
    token = r.token;
    ids = r.ids;
    uuids = r.uuids;
    printed = rw r.printed refl;
  }
