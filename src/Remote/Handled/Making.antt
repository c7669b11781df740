-- ===== src/Remote/Handled/Making.antt =====
-- The handlers of provider.c that create and open, of a provider of dummy phonebooks.
use phonebook.Base.{
  ◌≡◌, ◌≢◌, refl, false, Option, some, String, List, Run-cases, Bool-cases, inl, inr,
}
use phonebook.Common.{Return, PhonebookId, is_success}
use phonebook.Backend.{Ptr, BackendImpl, Cmd, null}
use phonebook.Backend.Dummy.{Memory, Allocator, addresses, dummy_create_phonebook}
use phonebook.Json.{Json}
use phonebook.Uthash.{Uthash}
use phonebook.Types.RoundTrip.{IsUuid}
use phonebook.Provider.{Provider}
use phonebook.Provider.Valid.{add_phonebook_new}
use phonebook.Provider.Handlers.{make_phonebook_ult, make_context, store_phonebook}
use phonebook.Admin.{create_in}
use phonebook.Remote.{made, handler_of}
use phonebook.Remote.Spec.{Directory, knows, allows, is_dummy, accepts, make}
use phonebook.Remote.Stands.{
  Stands, dummy, parses, check_token-allows, find_backend_impl-is_dummy, no_phonebook,
  dummy_create_phonebook-accepted, dummy_create_phonebook-refused,
}
use phonebook.Remote.Moves.{made-Stands}
use phonebook.Remote.Handled.{IsMade, Agrees}

module _ {J T : Type 0} ⦃H : Uthash (Memory J) T⦄ (json : Json J) (a : Allocator) where
  module _ (memory : (used : List Ptr) → a.calloc used ≢ null)
      (s : Provider (Memory J) T × Memory J) (d : Directory) (r : Stands json a s d) where
    pub make-Agrees :
        (mk : BackendImpl (Memory J) → Option String → Cmd (Memory J) (Return × Ptr))
        (token type config : Option String) (uuid : PhonebookId)
        → ((config : Option String) (w : Memory J)
            → mk (dummy json a) config w ≡ dummy_create_phonebook json a config w)
        → IsUuid uuid
        → knows uuid d.ids ≡ false
        → Agrees json a
            (λ out. made out.ret out.id)
            (λ out. IsMade out.ret out.id)
            (handler_of (make_phonebook_ult mk) uuid (some (create_in token type config)) s)
            (make (parses json) token type config uuid d)
    unfolding make_phonebook_ult make_context store_phonebook make is_success
    make-Agrees mk token type config uuid same good fresh =
        let checked = check_token-allows json a r token in
        let named = find_backend_impl-is_dummy json a r type in
        elim (Run-cases (allows d.token token)) [
          | inr e ↦ rw (checked, e, make) refl
          | inl (allowed, e) ↦ elim (Bool-cases allowed) [
            | inr n ↦ rw (checked, e, n, make) (_, _, refl, refl, refl, r)
            | inl y ↦ elim (Run-cases (is_dummy type)) [
              | inr k ↦ rw (checked, e, y, make, named, k) refl
              | inl (known, k) ↦ elim (Bool-cases known) [
                | inr n ↦ rw (checked, e, y, make, named, k, n) (_, _, refl, refl, refl, r)
                | inl y' ↦ elim (Bool-cases (accepts (parses json) config)) [
                  | inr n ↦
                      rw
                        (
                          checked,
                          e,
                          y,
                          make,
                          named,
                          k,
                          y',
                          n,
                          same,
                          dummy_create_phonebook-refused json a config s.1 n,
                        )
                        (_, _, refl, refl, refl, r)
                  | inl given ↦
                      let (ctx, w, run, new, grown, quiet) =
                        dummy_create_phonebook-accepted json a config s.1 (memory (addresses s.1))
                          given in
                      let unknown = no_phonebook json a r uuid fresh in
                      rw
                        (
                          checked,
                          e,
                          y,
                          make,
                          named,
                          k,
                          y',
                          given,
                          same,
                          run,
                          add_phonebook_new s.0 (record { fn = dummy json a; ctx = ctx; id = uuid })
                              r.owns.valid unknown,
                        )
                        (
                          _,
                          _,
                          refl,
                          refl,
                          (refl, good),
                          made-Stands json a memory r w ctx uuid good fresh new grown quiet,
                        )
                ]
              ]
            ]
          ]
        ]
