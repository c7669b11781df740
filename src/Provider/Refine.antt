-- ===== src/Provider/Refine.antt =====
-- The provider as an ordered directory of phonebooks: what each request may do to it, whatever the
-- backends do (provider.c).
use phonebook.Base.{
  ◌≡◌, refl, Bool, true, false, Option, none, List, Run, ok, fault, OnOk, OnOk-bind, OnOk-eq,
  String, Bool-cases, Option-cases, inl, inr,
}
use phonebook.Common.{Return, is_success, PhonebookId}
use phonebook.Backend.{BackendImpl, Ptr, Cmd}
use phonebook.Types.{CreatePhonebookIn, ClosePhonebookIn, ListPhonebooksIn, HelloIn, SumIn}
use phonebook.Uthash.{Uthash}
use phonebook.Uthash.Items.{Phonebook, lookup, lookup-own_id, lookup-id}
use phonebook.Provider.{
  Provider, check_token, find_backend_impl, find_phonebook, add_phonebook, remove_phonebook,
  close_if,
}
use phonebook.Provider.Valid.{
  IsValid, entries, added-IsValid, removed-IsValid, entries-added, entries-removed,
  add_phonebook_new, add_phonebook_old, remove_phonebook_absent, remove_phonebook_found,
}
use phonebook.Provider.Handlers.{
  Call, Served, collect_ids, store_phonebook, make_context, make_phonebook_ult,
  create_phonebook_ult, open_phonebook_ult, close_phonebook_ult, destroy_phonebook_ult,
  list_phonebooks_ult, hello_ult, sum_ult,
}
use phonebook.Provider.Directory.{MayAdd, MayRemove, RemoveOf, Allowed, Refines}
use phonebook.Provider.Requests.{
  Request, create_phonebook, open_phonebook, close_phonebook, destroy_phonebook, list_phonebooks,
  hello, sum, handle, state_of,
}

module _ {W T : Type 0} ⦃H : Uthash W T⦄ where
  module _ (p : Provider W T) (v : IsValid p) where
    stays :
        (R : List (Phonebook W) → List (Phonebook W) → Type 0)
        → R (entries p) (entries p)
        → Refines R p p
    stays R r = record { valid = v; change = r; token = refl; types = refl }

    add_phonebook-Refines : (b : Phonebook W) → Refines (MayAdd b.id) p (add_phonebook p b).1
    add_phonebook-Refines b = elim (Option-cases (lookup b.id (entries p))) [
      | inl new ↦ rw (add_phonebook_new p b v new) (record {
        valid = added-IsValid p b v new;
        change = inr (b, refl, new, entries-added p b v new);
        token = refl;
        types = refl;
      })
      | inr (old, e) ↦ rw (add_phonebook_old p b old v e) (stays (MayAdd b.id) (inl refl))
    ]

    remove_phonebook-Refines :
        (k : PhonebookId) (close : Bool) (w : W)
        → OnOk (λ r. Refines (MayRemove k) p r.1) (remove_phonebook p k close w)
    remove_phonebook-Refines k close w = elim (Option-cases (lookup k (entries p))) [
      | inl e ↦ rw (remove_phonebook_absent p k close w v e) (stays (MayRemove k) (inl refl))
      | inr (b, e) ↦
          let own = lookup-own_id k (entries p) e in
          rw (remove_phonebook_found p k b close w v e) (
            OnOk-bind _ (close_if close b w) _ λ r _. record {
              valid = removed-IsValid p b v own;
              change = inr (b, e, rw (← lookup-id k (entries p) e) (entries-removed p b v own));
              token = refl;
              types = refl;
            })
    ]

    make_context-Refines :
        (make : BackendImpl W → Option String → Cmd W (Return × Ptr)) (c : Call CreatePhonebookIn)
        (input : CreatePhonebookIn) (b : BackendImpl W) (w : W)
        → OnOk (λ s. Refines (MayAdd c.uuid) p s.provider) (make_context make c input b p w)
    unfolding make_context store_phonebook
    make_context-Refines make c input b w =
        OnOk-bind _ (make b input.config w) _ λ ((ret, ctx), w') _.
          elim (Bool-cases (is_success ret)) [
            | inl e ↦ elim (Bool-cases c.calloc_ok) [
              | inl t ↦
                  rw (e, t) (add_phonebook-Refines (record { fn = b; ctx = ctx; id = c.uuid }))
              | inr f ↦ rw (e, f) tt
            ]
            | inr e ↦ rw e (stays (MayAdd c.uuid) (inl refl))
          ]

    make-Refines :
        (make : BackendImpl W → Option String → Cmd W (Return × Ptr)) (c : Call CreatePhonebookIn)
        (w : W)
        → OnOk (λ s. Refines (MayAdd c.uuid) p s.provider) (make_phonebook_ult make c p w)
    unfolding make_phonebook_ult
    make-Refines make c w = elim (Option-cases c.input) [
      | inl e ↦ rw (e, make_phonebook_ult) (stays (MayAdd c.uuid) (inl refl))
      | inr (input, e) ↦
          rw (e, make_phonebook_ult)
            (OnOk-bind _ (check_token p input.token) _ λ valid _. elim (Bool-cases valid) [
              | inl t ↦ rw t (
                  OnOk-bind _ (find_backend_impl p input.type) _ λ found _.
                    elim (Option-cases found) [
                      | inl n ↦ rw n (stays (MayAdd c.uuid) (inl refl))
                      | inr (b, n) ↦ rw n (make_context-Refines make c input b w)
                    ])
              | inr f ↦ rw f (stays (MayAdd c.uuid) (inl refl))
            ])
    ]

    close-Refines :
        (c : Call ClosePhonebookIn) (w : W)
        → OnOk (λ s. Refines (RemoveOf c.input) p s.provider) (close_phonebook_ult c p w)
    unfolding close_phonebook_ult
    close-Refines c w = elim (Option-cases c.input) [
      | inl e ↦ rw (e, close_phonebook_ult) (stays (RemoveOf none) refl)
      | inr (input, e) ↦
          rw (e, close_phonebook_ult)
            (OnOk-bind _ (check_token p input.token) _ λ valid _. elim (Bool-cases valid) [
              | inl t ↦ rw t (
                  OnOk-bind _ (remove_phonebook p input.id true w) _ λ r run.
                    OnOk-eq (λ r. Refines (MayRemove input.id) p r.1) _
                      (remove_phonebook-Refines input.id true w) run)
              | inr f ↦ rw f (stays (MayRemove input.id) (inl refl))
            ])
    ]

    destroy-Refines :
        (c : Call ClosePhonebookIn) (w : W)
        → OnOk (λ s. Refines (RemoveOf c.input) p s.provider) (destroy_phonebook_ult c p w)
    unfolding destroy_phonebook_ult
    destroy-Refines c w = elim (Option-cases c.input) [
      | inl e ↦ rw (e, destroy_phonebook_ult) (stays (RemoveOf none) refl)
      | inr (input, e) ↦
          rw (e, destroy_phonebook_ult)
            (OnOk-bind _ (check_token p input.token) _ λ valid _. elim (Bool-cases valid) [
              | inl t ↦ elim (Option-cases (find_phonebook p input.id)) [
                | inl n ↦ rw (t, n) (stays (MayRemove input.id) (inl refl))
                | inr (b, n) ↦
                    rw (t, n)
                      (OnOk-bind _ (b.fn.destroy_phonebook b.ctx w) _ λ d _.
                        OnOk-bind _ (remove_phonebook p input.id false d.1) _ λ r run.
                          OnOk-eq (λ r. Refines (MayRemove input.id) p r.1) _
                            (remove_phonebook-Refines input.id false d.1) run)
              ]
              | inr f ↦ rw f (stays (MayRemove input.id) (inl refl))
            ])
    ]

    list-Refines :
        (c : Call ListPhonebooksIn) (w : W)
        → OnOk (λ s. Refines (λ l l'. l' ≡ l) p s.provider) (list_phonebooks_ult c p w)
    unfolding list_phonebooks_ult
    list-Refines c w = elim (Option-cases c.input) [
      | inl e ↦ rw (e, list_phonebooks_ult) (stays _ refl)
      | inr (input, e) ↦
          rw (e, list_phonebooks_ult)
            (OnOk-bind _ (check_token p input.token) _ λ valid _. elim (Bool-cases valid) [
              | inl t ↦ rw t (
                  OnOk-bind _ (collect_ids c.calloc_ok p.num_phonebooks (entries p)) _
                    λ ids _. stays _ refl)
              | inr f ↦ rw f (stays _ refl)
            ])
    ]

    hello-Refines :
        (c : Call HelloIn) (w : W)
        → OnOk (λ s. Refines (λ l l'. l' ≡ l) p s.provider) (hello_ult c p w)
    unfolding hello_ult
    hello-Refines c w = elim (Option-cases c.input) [
      | inl e ↦ rw (e, hello_ult) (stays _ refl)
      | inr (input, e) ↦ elim (Option-cases (find_phonebook p input.phonebook_id)) [
        | inl n ↦ rw (e, hello_ult, n) (stays _ refl)
        | inr (b, n) ↦ rw (e, hello_ult, n) (OnOk-bind _ (b.fn.hello b.ctx w) _ λ r _. stays _ refl)
      ]
    ]

    sum-Refines :
        (c : Call SumIn) (w : W) → OnOk (λ s. Refines (λ l l'. l' ≡ l) p s.provider) (sum_ult c p w)
    unfolding sum_ult
    sum-Refines c w = elim (Option-cases c.input) [
      | inl e ↦ rw (e, sum_ult) (stays _ refl)
      | inr (input, e) ↦ elim (Option-cases (find_phonebook p input.phonebook_id)) [
        | inl n ↦ rw (e, sum_ult, n) (stays _ refl)
        | inr (b, n) ↦
            rw (e, sum_ult, n)
              (OnOk-bind _ (b.fn.sum b.ctx input.x input.y w) _ λ r _. stays _ refl)
      ]
    ]

  from_state :
      {Out : Type 0} (P : Provider W T → Type 0) (r : Run (Served W T Out)) {q : Provider W T}
      {v : W}
      → OnOk (λ s. P s.provider) r
      → state_of r ≡ ok (q, v)
      → P q
  from_state P (ok s) h e = OnOk-eq (λ t. P t.0) (ok (s.provider, s.world)) h e
  from_state P fault h e = cc

  -- Whatever the backends and the libraries do, a request that a well-formed provider serves
  -- without a fault keeps it well-formed, with its token and its backends, and changes the
  -- directory only as the request may: create and open add at most one phonebook, last and with a
  -- new id; close and destroy take out at most the phonebook that was named; the others change
  -- nothing.
  pub handle-Refines :
      (r : Request) (p : Provider W T) (w : W) {q : Provider W T} {v : W}
      → IsValid p
      → handle r p w ≡ ok (q, v)
      → Refines (Allowed r) p q
  unfolding handle create_phonebook_ult open_phonebook_ult
  handle-Refines (create_phonebook c) p w h e =
      from_state (Refines (MayAdd c.uuid) p) _ (make-Refines p h (λ b. b.create_phonebook) c w) e
  handle-Refines (open_phonebook c) p w h e =
      from_state (Refines (MayAdd c.uuid) p) _ (make-Refines p h (λ b. b.open_phonebook) c w) e
  handle-Refines (close_phonebook c) p w h e =
      from_state (Refines (RemoveOf c.input) p) _ (close-Refines p h c w) e
  handle-Refines (destroy_phonebook c) p w h e =
      from_state (Refines (RemoveOf c.input) p) _ (destroy-Refines p h c w) e
  handle-Refines (list_phonebooks c) p w h e =
      from_state (Refines (λ l l'. l' ≡ l) p) _ (list-Refines p h c w) e
  handle-Refines (hello c) p w h e =
      from_state (Refines (λ l l'. l' ≡ l) p) _ (hello-Refines p h c w) e
  handle-Refines (sum c) p w h e = from_state (Refines (λ l l'. l' ≡ l) p) _ (sum-Refines p h c w) e
