-- ===== src/Client/Rpc.antt =====
-- The RPCs of src/client.c, YP_say_hello and YP_compute_sum, and what they get from a provider.
use mathlib.Core.Option
use phonebook.Base.{
  Option-cases, Run-cases, inl, inr, ℕ, ◌≡◌, refl, Bool, true, Option, none, some, [], ◌∷◌, Run, ok,
  ◌>>=◌, if◌then◌else◌,
}
use phonebook.Common.{success, err_invalid_phonebook, is_success}
use phonebook.Exchange.{Exchange, Outcome, free_output, destroy_handle, failed, delivered}
use phonebook.Types.{HelloIn, SumIn, SumOut}
use phonebook.Types.Messages.{SumRecord}
use phonebook.Uthash.{Uthash}
use phonebook.Uthash.Items.{Phonebook, lookup}
use phonebook.Provider.{Provider}
use phonebook.Provider.Valid.{IsValid, entries, find_phonebook-lookup}
use phonebook.Provider.Handlers.{Call, respond, sum_ult}
use phonebook.Client.Heap.{PhonebookHandle}

-- The `in` of YP_say_hello and of YP_compute_sum.
abbrev pub hello_in : PhonebookHandle → HelloIn
hello_in handle = record { phonebook_id = handle.phonebook_id }

abbrev pub sum_in : PhonebookHandle → (x y : ℕ) → SumIn
sum_in handle x y = record { phonebook_id = handle.phonebook_id; x = x; y = y }

-- YP_say_hello; no answer is expected, so only two steps can fail.
unfoldable pub say_hello : (created forwarded : Bool) → Outcome (Unit {0})
say_hello created forwarded =
    if created
    then (if forwarded
        then record { ret = success; written = none; cleanup = destroy_handle ∷ [] }
        else failed (destroy_handle ∷ []))
    else failed []

-- An answer as it is decoded; `garbage` stands in a result that the handler did not assign.
abbrev pub sum_record : (garbage : ℕ) → SumOut → SumRecord
sum_record garbage out = record { result = Option.get_or out.result garbage; ret = out.ret }

-- YP_compute_sum. The label `finish` releases an output also where there was none.
unfoldable pub compute_sum : Exchange SumRecord → Outcome ℕ
compute_sum e =
    if e.created
    then (if e.forwarded
        then elim e.output [
          | none ↦ failed (free_output ∷ destroy_handle ∷ [])
          | some out ↦ record {
            ret = out.ret;
            written = if is_success out.ret then some out.result else none;
            cleanup = free_output ∷ destroy_handle ∷ [];
          }
        ]
        else failed (free_output ∷ destroy_handle ∷ []))
    else failed []

module _ {W : Type 0} where
  -- What YP_compute_sum should give for a handle: the sum of the phonebook with the id of the handle,
  -- or YP_ERR_INVALID_PHONEBOOK and nothing written.
  abbrev pub Summed : Option (Phonebook W) → (x y : ℕ) → W → Run (Outcome ℕ × W) → Type 0
  Summed none x y w r =
      r
      ≡ ok (
        record {
          ret = err_invalid_phonebook;
          written = none;
          cleanup = free_output ∷ destroy_handle ∷ [];
        },
        w,
      )
  Summed (some b) x y w r = r ≡ (
      b.fn.sum b.ctx x y w >>= λ s. ok (
        record { ret = success; written = some s.0; cleanup = free_output ∷ destroy_handle ∷ [] },
        s.1,
      ))

module _ {W T : Type 0} ⦃H : Uthash W T⦄ where
  -- The client's function on the answer of the provider's handler.
  unfoldable pub remote_sum : (garbage : ℕ) → Call SumIn → Provider W T → W → Run (Outcome ℕ × W)
  remote_sum garbage c p w = do
    s ← sum_ult c p w
    elim s.actions [
      | respond out ∷ rest ↦ ok (compute_sum (delivered (sum_record garbage out)), s.world)
      | _ ↦ ok (compute_sum (record { created = true; forwarded = true; output = none }), s.world)
    ]

  -- YP_compute_sum on a handle, served by a well-formed provider, gives the sum that the backend
  -- of the phonebook with the id of the handle computes, or YP_ERR_INVALID_PHONEBOOK where there
  -- is none, whatever stands in a result that was not assigned.
  pub compute_sum-sum_ult :
      (garbage x y : ℕ) (handle : PhonebookHandle) (c : Call SumIn) (p : Provider W T) (w : W)
      → IsValid p
      → c.input ≡ some (sum_in handle x y)
      → Summed (lookup handle.phonebook_id (entries p)) x y w (remote_sum garbage c p w)
  unfolding remote_sum compute_sum sum_ult is_success
  compute_sum-sum_ult garbage x y handle c p w v asked =
      elim (Option-cases (lookup handle.phonebook_id (entries p))) [
        | inl e ↦ rw (asked, sum_ult, find_phonebook-lookup p handle.phonebook_id v, e) refl
        | inr (b, e) ↦ elim (Run-cases (b.fn.sum b.ctx x y w)) [
          | inl (s, run) ↦
              rw (asked, sum_ult, find_phonebook-lookup p handle.phonebook_id v, e, run) refl
          | inr run ↦
              rw (asked, sum_ult, find_phonebook-lookup p handle.phonebook_id v, e, run) refl
        ]
      ]
