-- ===== src/Provider/Threads/Parts.antt =====
-- What the parts of the handlers of provider.c do with the provider and with the ids of their requests.
use phonebook.Base.{String, ◌≡◌, sym, ◌∙◌, some, Option, ok, OnOk, Option-cases, inl, inr, arith}
use phonebook.Common.{Return}
use phonebook.Backend.{Ptr, BackendImpl, Cmd}
use phonebook.Uthash.{Uthash}
use phonebook.Uthash.Items.{Phonebook, lookup-id}
use phonebook.Provider.Valid.{IsValid, find_phonebook-lookup, entries}
use phonebook.Provider.{Provider, find_phonebook}
use phonebook.Types.{CreatePhonebookIn, ClosePhonebookIn, ListPhonebooksIn, HelloIn, SumIn}
use phonebook.Provider.Handlers.{Call, list_phonebooks_ult, hello_ult, sum_ult}
use phonebook.Provider.Threads.{pending, begin_make, begin_destroy, begin_close}

module _ {W T : Type 0} ⦃H : Uthash W T⦄ where
  module _ (p : Provider W T) (w : W) where
    pub begin_make-id :
        (make : BackendImpl W → Option String → Cmd W (Return × Ptr)) (c : Call CreatePhonebookIn)
        (b : Phonebook W) (w' : W)
        → begin_make make c p w ≡ ok (pending b, w')
        → b.id ≡ c.uuid
    unfolding begin_make
    begin_make-id make c b w' h = ground (arith, h)

    pub begin_destroy-found :
        (c : Call ClosePhonebookIn) (b : Phonebook W) (w' : W)
        → begin_destroy c p w ≡ ok (pending b, w')
        → (input : ClosePhonebookIn) × (c.input ≡ some input) × (find_phonebook p input.id ≡ some b)
    unfolding begin_destroy
    begin_destroy-found c b w' h = elim (Option-cases c.input) [
      | inl e ↦ ground (arith, h, e)
      | inr (input, e) ↦ (input, e, ground (arith, h, e))
    ]

    pub begin_close-found :
        (c : Call ClosePhonebookIn) (ret : Return) (b : Phonebook W) (w' : W)
        → begin_close c p w ≡ ok ((ret, pending b), w')
        → (input : ClosePhonebookIn) × (c.input ≡ some input) × (find_phonebook p input.id ≡ some b)
    unfolding begin_close
    begin_close-found c ret b w' h = elim (Option-cases c.input) [
      | inl e ↦ ground (arith, h, e)
      | inr (input, e) ↦ (input, e, ground (arith, h, e))
    ]

    pub named_id :
        (c : Call ClosePhonebookIn) (b : Phonebook W)
        → IsValid p
        → ((input : ClosePhonebookIn) × (c.input ≡ some input)
            × (find_phonebook p input.id ≡ some b))
        → (input : ClosePhonebookIn) × (c.input ≡ some input) × (input.id ≡ b.id)
    named_id c b v (input, e, found) = (
      input,
      e,
      sym (lookup-id input.id (entries p) (sym (find_phonebook-lookup p input.id v) ∙ found)),
    )

    pub list-keeps :
        (c : Call ListPhonebooksIn) → OnOk (λ v. v.provider ≡ p) (list_phonebooks_ult c p w)
    unfolding list_phonebooks_ult
    list-keeps c = ground arith

    pub hello-keeps : (c : Call HelloIn) → OnOk (λ v. v.provider ≡ p) (hello_ult c p w)
    unfolding hello_ult
    hello-keeps c = ground arith

    pub sum-keeps : (c : Call SumIn) → OnOk (λ v. v.provider ≡ p) (sum_ult c p w)
    unfolding sum_ult
    sum-keeps c = ground arith
