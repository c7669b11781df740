-- ===== src/Admin/Closing.antt =====
-- YP_close_phonebook and YP_destroy_phonebook of admin.c against the handlers of provider.c.
use phonebook.Base.{
  ◌≡◌, refl, true, false, Option, none, some, String, List, ◌⊎◌, inl, inr, Run, ok, ◌>>=◌,
  Option-cases, Bool-cases,
}
use phonebook.Common.{Return, success, err_invalid_token, err_invalid_phonebook, PhonebookId}
use phonebook.Backend.{BackendImpl, Ptr, Cmd}
use phonebook.Backend.Contract.{Contract, Frees}
use phonebook.Exchange.{Outcome, exchange, delivered}
use phonebook.Admin.{take_ret, close_in}
use phonebook.Admin
use phonebook.Admin.Creating.{received}
use phonebook.Types.{ClosePhonebookIn}
use phonebook.Uthash.{Uthash}
use phonebook.Uthash.Items.{Phonebook, lookup, remove, lookup-own_id, lookup-id}
use phonebook.Provider.{Provider, check_token, close_if}
use phonebook.Provider.Valid.{
  entries, removed, entries-removed, find_phonebook-lookup, remove_phonebook_absent,
  remove_phonebook_found,
}
use phonebook.Provider.Handlers.{Call, close_phonebook_ult, destroy_phonebook_ult}
use phonebook.Provider.Owns.{Owns, Owns-removed, holds-lookup, All-lookup}
use phonebook.Provider.Lifecycle.{IsSent, check_token-total}

module _ {W T : Type 0} ⦃H : Uthash W T⦄ where
  -- YP_close_phonebook, served by a provider.
  unfoldable pub remote_close :
      Call ClosePhonebookIn → Provider W T → W → Run (Outcome (Unit {0}) × Provider W T × W)
  remote_close c p w = do
    s ← close_phonebook_ult c p w
    ok (received (λ out. Admin.close_phonebook (delivered out.ret)) s)

  -- YP_destroy_phonebook, served by a provider.
  unfoldable pub remote_destroy :
      Call ClosePhonebookIn → Provider W T → W → Run (Outcome (Unit {0}) × Provider W T × W)
  remote_destroy c p w = do
    s ← destroy_phonebook_ult c p w
    ok (received (λ out. Admin.destroy_phonebook (delivered out.ret)) s)

  -- The three ends of a request for `id`: the token is refused; the phonebook is unknown; or the backend
  -- frees the context of the phonebook by `free`, whose code gives the answer, and the phonebook goes.
  abbrev pub Ended :
      (free : BackendImpl W → Ptr → Cmd W Return) (answer : Return → Return) (token : Option String)
      (id : PhonebookId) (p : Provider W T) (w : W)
      → Outcome (Unit {0}) × Provider W T × W
      → Type 0
  Ended free answer token id p w r =
      ((check_token p token ≡ ok false) × (r.0.ret ≡ err_invalid_token) × (r.1 ≡ p) × (r.2 ≡ w))
      ⊎ ((check_token p token ≡ ok true)
          × (((lookup id (entries p) ≡ none)
                × (r.0.ret ≡ err_invalid_phonebook)
                × (r.1 ≡ p)
                × (r.2 ≡ w))
              ⊎ ((b : Phonebook W) × (code : Return) × (lookup id (entries p) ≡ some b)
                  × (free b.fn b.ctx w ≡ ok (code, r.2))
                  × (r.0.ret ≡ answer code)
                  × (entries r.1 ≡ remove id (entries p)))))

  module _ (alive : W → List Ptr) (c : Call ClosePhonebookIn) (token : Option String)
      (id : PhonebookId) (p : Provider W T) (w : W) (o : Owns alive p w) where
    abbrev pub Ends :
        (BackendImpl W → Ptr → Cmd W Return)
        → (Return → Return)
        → Run (Outcome (Unit {0}) × Provider W T × W)
        → Type 0
    Ends free answer run =
        (r : Outcome (Unit {0}) × Provider W T × W) × (run ≡ ok r)
        × Ended free answer token id p w r
        × Owns alive r.1 r.2

    freed :
        (free : BackendImpl W → Ptr → Cmd W Return) (b : Phonebook W)
        → ((f : BackendImpl W) → Contract alive f → Frees alive (free f))
        → lookup id (entries p) ≡ some b
        → (r : Return × W) × (free b.fn b.ctx w ≡ ok r)
          × (entries (removed p b) ≡ remove id (entries p))
          × Owns alive (removed p b) r.1
    freed free b frees found =
        let own = lookup-own_id id (entries p) found in
        let known = All-lookup (λ b. Contract alive b.fn) id (entries p) found o.known in
        let (r, run, gone) =
          frees b.fn known b.ctx w (rw o.live (holds-lookup id (entries p) found)) in
        (
          r,
          run,
          rw (← lookup-id id (entries p) found) (entries-removed p b o.valid own),
          Owns-removed alive r.1 b own gone o,
        )

    close-Ends :
        c.input ≡ some (close_in token id)
        → IsSent token
        → Ends (λ f. f.close_phonebook) (λ code. code) (remote_close c p w)
    unfolding remote_close close_phonebook_ult close_if Admin.close_phonebook exchange take_ret
    close-Ends got sent =
        let (valid, checked) = check_token-total p token sent in
        elim (Bool-cases valid) [
          | inr f ↦ rw (got, checked, f) (_, refl, inl (refl, refl, refl, refl), o)
          | inl t ↦ elim (Option-cases (lookup id (entries p))) [
            | inl missing ↦
                rw (got, checked, t, remove_phonebook_absent p id true w o.valid missing)
                  (_, refl, inr (refl, inl (missing, refl, refl, refl)), o)
            | inr (b, found) ↦
                let (r, run, shorter, owns) =
                  freed (λ f. f.close_phonebook) b (λ f k. k.closes) found in
                rw (got, checked, t, remove_phonebook_found p id b true w o.valid found, run)
                  (_, refl, inr (refl, inr (b, r.0, found, run, refl, shorter)), owns)
          ]
        ]

    destroy-Ends :
        c.input ≡ some (close_in token id)
        → IsSent token
        → Ends (λ f. f.destroy_phonebook) (λ code. success) (remote_destroy c p w)
    unfolding remote_destroy destroy_phonebook_ult close_if Admin.destroy_phonebook exchange
        take_ret
    destroy-Ends got sent =
        let (valid, checked) = check_token-total p token sent in
        elim (Bool-cases valid) [
          | inr f ↦ rw (got, checked, f) (_, refl, inl (refl, refl, refl, refl), o)
          | inl t ↦ elim (Option-cases (lookup id (entries p))) [
            | inl missing ↦
                rw (got, checked, t, find_phonebook-lookup p id o.valid, missing)
                  (_, refl, inr (refl, inl (refl, refl, refl, refl)), o)
            | inr (b, found) ↦
                let (r, run, shorter, owns) =
                  freed (λ f. f.destroy_phonebook) b (λ f k. k.destroys) found in
                rw
                  (
                    got,
                    checked,
                    t,
                    find_phonebook-lookup p id o.valid,
                    found,
                    run,
                    remove_phonebook_found p id b false r.1 o.valid found,
                  )
                  (_, refl, inr (refl, inr (b, r.0, refl, run, refl, shorter)), owns)
          ]
        ]

    -- A close or a destroy call of the admin library with a token that is not NULL, served by a provider
    -- that owns its contexts, ends in one of three ways: the token is refused with
    -- YP_ERR_INVALID_TOKEN; the id is unknown, which gives YP_ERR_INVALID_PHONEBOOK; and in both nothing
    -- changes; or the backend closes or destroys the context and the phonebook goes, whereupon close
    -- returns the code of the backend, and destroy returns YP_SUCCESS whatever that code is. The provider
    -- owns its contexts again.
    pub close_phonebook-Ends :
        c.input ≡ some (close_in token id)
        → IsSent token
        → Ends (λ f. f.close_phonebook) (λ code. code) (remote_close c p w)
          × Ends (λ f. f.destroy_phonebook) (λ code. success) (remote_destroy c p w)
    close_phonebook-Ends got sent = (close-Ends got sent, destroy-Ends got sent)
