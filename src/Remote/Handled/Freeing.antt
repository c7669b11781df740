-- ===== src/Remote/Handled/Freeing.antt =====
-- The handlers of provider.c that close and destroy, of a provider of dummy phonebooks.
use phonebook.Base.{
  ◌≡◌, ◌≢◌, refl, true, false, Option, some, String, List, ok, Run-cases, Bool-cases, inl, inr,
}
use phonebook.Common.{success, PhonebookId}
use phonebook.Backend.{Ptr, null}
use phonebook.Backend.Contract.{holds}
use phonebook.Backend.Dummy.{
  Memory, Allocator, addresses, dummy_close_phonebook, dummy_destroy_phonebook, drop_context,
}
use phonebook.Backend.Dummy.Contract.{drop_context-erase}
use phonebook.Json.{Json}
use phonebook.Uthash.{Uthash}
use phonebook.Uthash.Items.{Phonebook, lookup}
use phonebook.Provider.{Provider, close_if}
use phonebook.Provider.Valid.{
  entries, removed, find_phonebook-lookup, remove_phonebook_absent, remove_phonebook_found,
}
use phonebook.Provider.Handlers.{close_phonebook_ult, destroy_phonebook_ult}
use phonebook.Provider.Owns.{holds-lookup, All-lookup}
use phonebook.Admin.{close_in}
use phonebook.Remote.{freed, handler_of}
use phonebook.Remote.Spec.{Directory, knows, without, allows, free}
use phonebook.Remote.Stands.{Stands, dummy, check_token-allows, found_phonebook, no_phonebook}
use phonebook.Remote.Moves.{freed-Stands}
use phonebook.Remote.Handled.{Agrees}

module _ {J T : Type 0} ⦃H : Uthash (Memory J) T⦄ (json : Json J) (a : Allocator) where
  module _ (memory : (used : List Ptr) → a.calloc used ≢ null)
      (s : Provider (Memory J) T × Memory J) (d : Directory) (r : Stands json a s d) where
    -- The context of a known phonebook is alive, and to free it leaves the memory otherwise as it was.
    freed_context :
        (k : PhonebookId) {b : Phonebook (Memory J)}
        → lookup k (entries s.0) ≡ some b
        → let w = record s.1 { contexts = drop_context b.ctx s.1.contexts } in
          (b.fn.close_phonebook b.ctx s.1 ≡ ok (success, w))
          × (b.fn.destroy_phonebook b.ctx s.1 ≡ ok (success, w))
          × Stands json a (removed s.0 b, w) (record d { ids = without k d.ids })
    unfolding dummy_close_phonebook dummy_destroy_phonebook
    freed_context k {b} found =
        let live : holds b.ctx (addresses s.1) ≡ true =
          rw r.owns.live (holds-lookup k (entries s.0) found) in
        let same = All-lookup (λ b. b.fn ≡ dummy json a) k (entries s.0) found r.dummies in
        (
          rw (same, live) refl,
          rw (same, live) refl,
          freed-Stands json a memory r _ k b found (drop_context-erase b.ctx s.1.contexts) refl,
        )

    pub close-Agrees :
        (token : Option String) (uuid k : PhonebookId)
        → Agrees json a
            (λ out. freed out.ret)
            (λ out. Unit {0})
            (handler_of close_phonebook_ult uuid (some (close_in token k)) s)
            (free token k d)
    unfolding close_phonebook_ult free close_if
    close-Agrees token uuid k =
        let checked = check_token-allows json a r token in
        elim (Run-cases (allows d.token token)) [
          | inr e ↦ rw (checked, e, free) refl
          | inl (allowed, e) ↦ elim (Bool-cases allowed) [
            | inr n ↦ rw (checked, e, n, free) (_, _, refl, refl, tt, r)
            | inl y ↦ elim (Bool-cases (knows k d.ids)) [
              | inr n ↦
                  rw
                    (
                      checked,
                      e,
                      y,
                      free,
                      n,
                      remove_phonebook_absent s.0 k true s.1 r.owns.valid
                          (no_phonebook json a r k n),
                    )
                    (_, _, refl, refl, tt, r)
              | inl y' ↦
                  let (b, found) = found_phonebook json a r k y' in
                  let (closed, destroyed, less) = freed_context k found in
                  rw
                    (
                      checked,
                      e,
                      y,
                      free,
                      y',
                      remove_phonebook_found s.0 k b true s.1 r.owns.valid found,
                      closed,
                    )
                    (_, _, refl, refl, tt, less)
            ]
          ]
        ]

    pub destroy-Agrees :
        (token : Option String) (uuid k : PhonebookId)
        → Agrees json a
            (λ out. freed out.ret)
            (λ out. Unit {0})
            (handler_of destroy_phonebook_ult uuid (some (close_in token k)) s)
            (free token k d)
    unfolding destroy_phonebook_ult free close_if
    destroy-Agrees token uuid k =
        let checked = check_token-allows json a r token in
        elim (Run-cases (allows d.token token)) [
          | inr e ↦ rw (checked, e, free) refl
          | inl (allowed, e) ↦ elim (Bool-cases allowed) [
            | inr n ↦ rw (checked, e, n, free) (_, _, refl, refl, tt, r)
            | inl y ↦ elim (Bool-cases (knows k d.ids)) [
              | inr n ↦
                  rw
                    (
                      checked,
                      e,
                      y,
                      free,
                      n,
                      find_phonebook-lookup s.0 k r.owns.valid,
                      no_phonebook json a r k n,
                    )
                    (_, _, refl, refl, tt, r)
              | inl y' ↦
                  let (b, found) = found_phonebook json a r k y' in
                  let (closed, destroyed, less) = freed_context k found in
                  let w : Memory J = record s.1 { contexts = drop_context b.ctx s.1.contexts } in
                  rw
                    (
                      checked,
                      e,
                      y,
                      free,
                      y',
                      find_phonebook-lookup s.0 k r.owns.valid,
                      found,
                      destroyed,
                      remove_phonebook_found s.0 k b false w r.owns.valid found,
                    )
                    (_, _, refl, refl, tt, less)
            ]
          ]
        ]
