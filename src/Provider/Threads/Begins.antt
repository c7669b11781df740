-- ===== src/Provider/Threads/Begins.antt =====
-- When a part of a handler of provider.c may run, and the first parts of the handlers that create
-- and free.
use phonebook.Base.{
  ◌≡◌, ◌<◌, refl, true, Option, none, some, String, List, Run, ok, ◌>>=◌, length, Option-cases,
  Bool-cases, inl, inr,
}
use phonebook.Base.Words.{u64_mod}
use phonebook.Common.{Return, is_success}
use phonebook.Backend.{BackendImpl, Ptr, Cmd}
use phonebook.Backend.Contract.{Contract, Makes}
use phonebook.Uthash.{Uthash}
use phonebook.Uthash.Items.{lookup}
use phonebook.Types.{CreatePhonebookIn, ClosePhonebookIn, ListPhonebooksIn, HelloIn, SumIn}
use phonebook.Provider.Valid.{entries, find_phonebook-lookup}
use phonebook.Provider.Backends.{first_named, first_named-All, find_backend_impl-first_named}
use phonebook.Provider.Handlers.{Call}
use phonebook.Provider.Lifecycle.{IsSent, check_token-total}
use phonebook.Provider.Threads.{
  Threads, Turn, begin_make, begin_destroy, begin_close, add_pending, leave_pending,
  begin_create_turn, begin_open_turn, end_create_turn, begin_destroy_turn, begin_close_turn,
  end_destroy_turn, end_close_turn, list_turn, hello_turn, sum_turn,
}
use phonebook.Provider.Threads.Moves.{Safe, Safe-same, adding-Safe, leaving-Safe, entry_alive}

module _ {W T : Type 0} ⦃H : Uthash W T⦄ where
  abbrev pub MakeReady : Threads W T → Call CreatePhonebookIn → Option CreatePhonebookIn → Type 0
  MakeReady s c none = Unit {0}
  MakeReady s c (some input) =
      IsSent input.token
      × IsSent input.type
      × (c.calloc_ok ≡ true)
      × (lookup c.uuid s.adding ≡ none)
      × (lookup c.uuid (entries s.provider) ≡ none)

  abbrev pub FreeReady : Threads W T → Option ClosePhonebookIn → Type 0
  FreeReady s none = Unit {0}
  FreeReady s (some input) = IsSent input.token × (lookup input.id s.leaving ≡ none)

  abbrev pub ListReady : Threads W T → Call ListPhonebooksIn → Option ListPhonebooksIn → Type 0
  ListReady s c none = Unit {0}
  ListReady s c (some input) =
      IsSent input.token × (c.calloc_ok ≡ true) × (length (entries s.provider) < u64_mod)

  abbrev pub HelloReady : Threads W T → Option HelloIn → Type 0
  HelloReady s none = Unit {0}
  HelloReady s (some input) = lookup input.phonebook_id s.leaving ≡ none

  abbrev pub SumReady : Threads W T → Option SumIn → Type 0
  SumReady s none = Unit {0}
  SumReady s (some input) = lookup input.phonebook_id s.leaving ≡ none

  -- The strings of a request are not NULL, calloc gives memory, uuid_generate gives an id that is
  -- not in use, and no request names a phonebook that another is about to take out.
  abbrev pub Ready : Threads W T → Turn → Type 0
  Ready s (begin_create_turn c) = MakeReady s c c.input
  Ready s (begin_open_turn c) = MakeReady s c c.input
  Ready s (end_create_turn id) = Unit {0}
  Ready s (begin_destroy_turn c) = FreeReady s c.input
  Ready s (begin_close_turn c) = FreeReady s c.input
  Ready s (end_destroy_turn id) = Unit {0}
  Ready s (end_close_turn id) = Unit {0}
  Ready s (list_turn c) = ListReady s c c.input
  Ready s (hello_turn c) = HelloReady s c.input
  Ready s (sum_turn c) = SumReady s c.input

  module _ (alive : W → List Ptr) where
    abbrev pub SafeRun : Run (Threads W T) → Type 0
    SafeRun r = (s : Threads W T) × (r ≡ ok s) × Safe alive s

    module _ (s : Threads W T) (i : Safe alive s) where
      pub begin_make-Safe :
          (make : BackendImpl W → Option String → Cmd W (Return × Ptr)) (c : Call CreatePhonebookIn)
          → ((b : BackendImpl W) → Contract alive b → Makes alive (make b))
          → MakeReady s c c.input
          → SafeRun (begin_make make c s.provider s.world >>= λ b. ok (add_pending s b))
      unfolding begin_make
      begin_make-Safe make c makes h = elim (Option-cases c.input) [
        | inl e ↦ rw (e, begin_make) (_, refl, i)
        | inr (input, e) ↦
            let (token, type, calloc, new, unknown) = rw e at h in
            let (valid, checked) = check_token-total s.provider input.token token in
            elim (Option-cases input.type) [
              | inl t ↦ absurd (rw t at type)
              | inr (name, t) ↦ elim (Bool-cases valid) [
                | inl v ↦ elim (Option-cases (first_named name s.provider.backend_types)) [
                  | inl missing ↦
                      rw
                        (
                          e,
                          begin_make,
                          checked,
                          v,
                          t,
                          find_backend_impl-first_named s.provider name i.valid,
                          missing,
                        )
                        (_, refl, i)
                  | inr (b, found) ↦
                      let k =
                        first_named-All (Contract alive) name s.provider.backend_types found
                          i.types in
                      let (((ret, ctx), w), run, made) = makes b k input.config s.world in
                      elim (Bool-cases (is_success ret)) [
                        | inl r ↦
                            let (fresh, grown) = rw r at made in
                            rw
                              (
                                e,
                                begin_make,
                                checked,
                                v,
                                t,
                                find_backend_impl-first_named s.provider name i.valid,
                                found,
                                run,
                                r,
                                calloc,
                              )
                              (
                                _,
                                refl,
                                adding-Safe alive s i w (record { fn = b; ctx = ctx; id = c.uuid })
                                    new unknown fresh grown k,
                              )
                        | inr r ↦
                            rw
                              (
                                e,
                                begin_make,
                                checked,
                                v,
                                t,
                                find_backend_impl-first_named s.provider name i.valid,
                                found,
                                run,
                                r,
                              )
                              (_, refl, Safe-same alive w (rw r at made) i)
                      ]
                ]
                | inr v ↦ rw (e, begin_make, checked, v) (_, refl, i)
              ]
            ]
      ]

      pub begin_destroy-Safe :
          (c : Call ClosePhonebookIn)
          → FreeReady s c.input
          → SafeRun (begin_destroy c s.provider s.world >>= λ b. ok (leave_pending s b))
      unfolding begin_destroy
      begin_destroy-Safe c h = elim (Option-cases c.input) [
        | inl e ↦ rw (e, begin_destroy) (_, refl, i)
        | inr (input, e) ↦
            let (token, g) = rw e at h in
            let (valid, checked) = check_token-total s.provider input.token token in
            elim (Bool-cases valid) [
              | inl v ↦ elim (Option-cases (lookup input.id (entries s.provider))) [
                | inl missing ↦
                    rw
                      (
                        e,
                        begin_destroy,
                        checked,
                        v,
                        find_phonebook-lookup s.provider input.id i.valid,
                        missing,
                      )
                      (_, refl, i)
                | inr (b, found) ↦
                    let (k, live) = entry_alive alive s i input.id g found in
                    let (r, run, freed) = k.destroys b.ctx s.world live in
                    rw
                      (
                        e,
                        begin_destroy,
                        checked,
                        v,
                        find_phonebook-lookup s.provider input.id i.valid,
                        found,
                        run,
                      )
                      (_, refl, leaving-Safe alive s i r.1 input.id b g found freed)
              ]
              | inr v ↦ rw (e, begin_destroy, checked, v) (_, refl, i)
            ]
      ]

      pub begin_close-Safe :
          (c : Call ClosePhonebookIn)
          → FreeReady s c.input
          → SafeRun (begin_close c s.provider s.world >>= λ r. ok (leave_pending s (r.0.1, r.1)))
      unfolding begin_close
      begin_close-Safe c h = elim (Option-cases c.input) [
        | inl e ↦ rw (e, begin_close) (_, refl, i)
        | inr (input, e) ↦
            let (token, g) = rw e at h in
            let (valid, checked) = check_token-total s.provider input.token token in
            elim (Bool-cases valid) [
              | inl v ↦ elim (Option-cases (lookup input.id (entries s.provider))) [
                | inl missing ↦
                    rw
                      (
                        e,
                        begin_close,
                        checked,
                        v,
                        find_phonebook-lookup s.provider input.id i.valid,
                        missing,
                      )
                      (_, refl, i)
                | inr (b, found) ↦
                    let (k, live) = entry_alive alive s i input.id g found in
                    let (r, run, freed) = k.closes b.ctx s.world live in
                    rw
                      (
                        e,
                        begin_close,
                        checked,
                        v,
                        find_phonebook-lookup s.provider input.id i.valid,
                        found,
                        run,
                      )
                      (_, refl, leaving-Safe alive s i r.1 input.id b g found freed)
              ]
              | inr v ↦ rw (e, begin_close, checked, v) (_, refl, i)
            ]
      ]
