-- ===== src/Remote/Sums.antt =====
-- YP_compute_sum of client.c over the wire, sum_ult of provider.c and the sum of dummy-backend.c, on
-- values of type int32_t.
use phonebook.Base.{
  if◌then◌else◌, false, false, List, ℕ, ◌+◌, ◌%◌, ◌^◌, Bool, ◌≡◌, ◌≢◌, refl, true, none, some,
  String, ok, Bool-cases, inl, inr,
}
use phonebook.Base.Signed.{ℤ, ◌+ℤ◌, IsInt32, to_bits, of_bits, to_bits-lt, of_bits-sum}
use phonebook.Common.{success, err_from_mercury, PhonebookId}
use phonebook.Backend.{Ptr, null}
use phonebook.Backend.Dummy.{Memory, Allocator}
use phonebook.Json.{Json}
use phonebook.Uthash.{Uthash}
use phonebook.Types.RoundTrip.{IsUuid}
use phonebook.Types.Wire.{Proc, ProcLaws}
use phonebook.Types.Messages.{ProcStrings}
use phonebook.Provider.{Provider}
use phonebook.Examples.Served.{Garbage}
use phonebook.Remote.{Fate, sum_command, Reply, summed, serve}
use phonebook.Remote.Spec.{Directory, knows, act, lost, unanswered, step}
use phonebook.Remote.Stands.{Stands, parses}
use phonebook.Remote.Answered.{IsGarbage}
use phonebook.Remote.Refines.{serve-Follows}

-- Whether no step on the way of a request and of its answer fails.
abbrev pub is_delivered : Fate → Bool
is_delivered f =
    if f.created
    then (if f.forwarded then (if f.got_input then f.got_output else false) else false)
    else false

-- YP_SUCCESS with the sum where the exchange is delivered, and else YP_ERR_FROM_MERCURY with none.
abbrev pub IsSumOf : (delivered : Bool) → ℤ → Reply → Type 0
IsSumOf delivered z (summed ret (some n)) = (delivered ≡ true) × (ret ≡ success) × (of_bits n ≡ z)
IsSumOf delivered z (summed ret none) = (delivered ≡ false) × (ret ≡ err_from_mercury)
IsSumOf delivered z _ = ⊥

-- A sum that the directory is asked for, with what happens to the request.
step-sum :
    (reads : String → Bool) (unset : ℕ) (f : Fate) (id : PhonebookId) (x y : ℤ) (d : Directory)
    → knows id d.ids ≡ true
    → of_bits ((to_bits x + to_bits y) % 2 ^ 32) ≡ x +ℤ y
    → (reply : Reply) × (step reads unset f (sum_command id (to_bits x) (to_bits y)) d
        ≡ ok (reply, d))
      × IsSumOf (is_delivered f) (x +ℤ y) reply
unfolding step act lost unanswered
step-sum reads unset f id x y d known exact = elim (Bool-cases f.created) [
  | inr n ↦ rw (n, step) (_, refl, (refl, refl))
  | inl y1 ↦ elim (Bool-cases f.forwarded) [
    | inr n ↦ rw (y1, n, step) (_, refl, (refl, refl))
    | inl y2 ↦ elim (Bool-cases f.got_input) [
      | inr n ↦ rw (y1, y2, n, step) (_, refl, (refl, refl))
      | inl y3 ↦ elim (Bool-cases f.got_output) [
        | inl y4 ↦ rw (y1, y2, y3, y4, step, known) (_, refl, (refl, refl, exact))
        | inr n ↦ rw (y1, y2, y3, n, step) (_, refl, (refl, refl))
      ]
    ]
  ]
]

module _ {J T : Type 0} ⦃H : Uthash (Memory J) T⦄ (json : Json J) (a : Allocator)
    (memory : (used : List Ptr) → a.calloc used ≢ null) (proc : Proc) (laws : ProcLaws proc)
    (strings : ProcStrings) (g : Garbage) (k : IsGarbage g) where
  -- A client that asks a provider of dummy phonebooks for the sum of two values of type int32_t whose sum
  -- is an int32_t, by an id that the provider has, gets YP_SUCCESS and that sum if the request and the
  -- answer are delivered, and YP_ERR_FROM_MERCURY and no sum if a step on the way fails. The provider
  -- stands for the same directory afterwards.
  pub serve-sum :
      (f : Fate) (id : PhonebookId) (x y : ℤ) (s : Provider (Memory J) T × Memory J) (d : Directory)
      → Stands json a s d
      → IsUuid id
      → knows id d.ids ≡ true
      → IsInt32 x
      → IsInt32 y
      → IsInt32 (x +ℤ y)
      → (reply : Reply) × (s' : Provider (Memory J) T × Memory J) × (serve proc strings g f
            (sum_command id (to_bits x) (to_bits y))
            s
          ≡ ok (reply, s'))
        × Stands json a s' d
        × IsSumOf (is_delivered f) (x +ℤ y) reply
  serve-sum f id x y s d r good known h k1 l =
      let (reply, stepped, right) =
        step-sum (parses json) g.count f id x y d known (of_bits-sum x y h k1 l) in
      let follows =
        serve-Follows json a memory proc laws strings g k f (sum_command id (to_bits x) (to_bits y))
          s d r (good, to_bits-lt x h, to_bits-lt y k1) in
      let (s', run, r') = rw stepped at follows in (reply, s', run, r', right)
