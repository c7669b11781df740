-- ===== src/Remote/Total.antt =====
-- Requests whose strings are given (provider.c, admin.c, client.c).
use text.Mathlib.Text.{◌==◌ as str_eq}
use phonebook.Base.{
  ℕ, suc, ◌≡◌, ◌≢◌, refl, ap, true, Bool, Option, none, some, String, List, [], ◌∷◌, ok, length,
  Bool-cases, inl, inr,
}
use phonebook.Common.{PhonebookId}
use phonebook.Backend.{Ptr, null}
use phonebook.Backend.Dummy.{Memory, Allocator}
use phonebook.Json.{Json}
use phonebook.Uthash.{Uthash}
use phonebook.Types.Wire.{Proc, ProcLaws}
use phonebook.Types.Messages.{ProcStrings}
use phonebook.Provider.{Provider}
use phonebook.Examples.Served.{Garbage}
use phonebook.Remote.{
  Fate, Command, create_command, open_command, close_command, destroy_command, list_command,
  hello_command, sum_command, Reply, serve_all,
}
use phonebook.Remote.Spec.{Directory, AllFit, allows, is_dummy, make, free, act, step, steps}
use phonebook.Remote.Stands.{Stands, parses}
use phonebook.Remote.Answered.{IsGarbage}
use phonebook.Base.Signed.{◌+ℤ◌, IsInt32, of_bits}
use phonebook.Remote.Sums.{is_delivered}
use phonebook.Remote.Refines.{serve_all-steps}

abbrev IsGiven : Option String → Type 0
IsGiven none = ⊥
IsGiven (some s) = Unit {0}

-- The strings that the provider compares are not NULL.
abbrev pub HasStrings : Command → Type 0
HasStrings (create_command token type config uuid) = IsGiven token × IsGiven type
HasStrings (open_command token type config uuid) = IsGiven token × IsGiven type
HasStrings (close_command token id) = IsGiven token
HasStrings (destroy_command token id) = IsGiven token
HasStrings (list_command token capacity) = IsGiven token
HasStrings (hello_command id) = Unit {0}
HasStrings (sum_command id x y) = Unit {0}

abbrev pub AllHaveStrings : List (Fate × Command) → Type 0
AllHaveStrings [] = Unit {0}
AllHaveStrings ((f, c) ∷ l) = HasStrings c × AllHaveStrings l

-- The code releases nothing that it did not get, and adds no integers whose sum is no int32_t: the input
-- reaches every handler that releases it, and the answer to a sum, which YP_compute_sum always releases,
-- its client.
abbrev pub IsDefined : Fate → Command → Type 0
IsDefined f (hello_command id) = Unit {0}
IsDefined f (sum_command id x y) = (is_delivered f ≡ true) × IsInt32 (of_bits x +ℤ of_bits y)
IsDefined f c = f.got_input ≡ true

abbrev pub AllAreDefined : List (Fate × Command) → Type 0
AllAreDefined [] = Unit {0}
AllAreDefined ((f, c) ∷ l) = IsDefined f c × AllAreDefined l

allowed : (asked given : Option String) → IsGiven given → (b : Bool) × (allows asked given ≡ ok b)
allowed none given h = (true, refl)
allowed (some t) none h = absurd h
allowed (some t) (some s) h = (str_eq t s, refl)

named : (type : Option String) → IsGiven type → (b : Bool) × (is_dummy type ≡ ok b)
named none h = absurd h
named (some type) h = (str_eq type "dummy", refl)

module _ (reads : String → Bool) (unset : ℕ) where
  make-returns :
      (token type config : Option String) (uuid : PhonebookId) (d : Directory)
      → IsGiven token
      → IsGiven type
      → (r : Reply × Directory) × (make reads token type config uuid d ≡ ok r)
  unfolding make
  make-returns token type config uuid d h k =
      let (b, e) = allowed d.token token h in
      let (n, e') = named type k in
      elim (Bool-cases b) [
        | inl y ↦ rw (make, e, y, e') (_, refl)
        | inr y ↦ rw (make, e, y) (_, refl)
      ]

  free-returns :
      (token : Option String) (id : PhonebookId) (d : Directory)
      → IsGiven token
      → (r : Reply × Directory) × (free token id d ≡ ok r)
  unfolding free
  free-returns token id d h = let (b, e) = allowed d.token token h in rw (free, e) (_, refl)

  act-returns :
      (c : Command) (d : Directory)
      → HasStrings c
      → (r : Reply × Directory) × (act reads unset c d ≡ ok r)
  unfolding act
  act-returns (create_command token type config uuid) d h =
      make-returns token type config uuid d h.0 h.1
  act-returns (open_command token type config uuid) d h =
      make-returns token type config uuid d h.0 h.1
  act-returns (close_command token id) d h = free-returns token id d h
  act-returns (destroy_command token id) d h = free-returns token id d h
  act-returns (list_command token capacity) d h =
      let (b, e) = allowed d.token token h in rw (act, e) (_, refl)
  act-returns (hello_command id) d h = (_, refl)
  act-returns (sum_command id x y) d h = (_, refl)

  step-returns :
      (f : Fate) (c : Command) (d : Directory)
      → HasStrings c
      → (r : Reply × Directory) × (step reads unset f c d ≡ ok r)
  unfolding step
  step-returns f c d h =
      let (r, e) = act-returns c d h in
      elim (Bool-cases f.created) [
        | inr n ↦ rw (step, n) (_, refl)
        | inl y1 ↦ elim (Bool-cases f.forwarded) [
          | inr n ↦ rw (step, y1, n) (_, refl)
          | inl y2 ↦ elim (Bool-cases f.got_input) [
            | inr n ↦ rw (step, y1, y2, n) (_, refl)
            | inl y3 ↦ rw (step, y1, y2, y3, e) (_, refl)
          ]
        ]
      ]

  steps-returns :
      (l : List (Fate × Command)) (d : Directory)
      → AllHaveStrings l
      → (replies : List Reply) × (d' : Directory) × (steps reads unset l d ≡ ok (replies, d'))
        × (length replies ≡ length l)
  unfolding steps
  steps-returns [] d h = ([], d, refl, refl)
  steps-returns ((f, c) ∷ l) d h =
      let ((reply, d1), e) = step-returns f c d h.0 in
      let (replies, d2, e', n) = steps-returns l d1 h.1 in
      (reply ∷ replies, d2, rw (steps, e, e') refl, ap suc n)

module _ {J T : Type 0} ⦃H : Uthash (Memory J) T⦄ (json : Json J) (a : Allocator)
    (memory : (used : List Ptr) → a.calloc used ≢ null) (proc : Proc) (laws : ProcLaws proc)
    (strings : ProcStrings) (g : Garbage) (k : IsGarbage g) where
  -- Any sequence of requests to a provider of dummy phonebooks, with an allocator that gives memory,
  -- comes to its end with a reply to each, and without a fault: where token and type are not NULL, the
  -- values fit their C types, the new ids are not in use when they come, every input reaches its handler
  -- (of hello, it may be lost), every sum is an int32_t, and the exchanges of sums are delivered. The
  -- other requests may be lost before they are forwarded, and their answers on the way back.
  pub serve_all-returns :
      (l : List (Fate × Command)) (s : Provider (Memory J) T × Memory J) (d : Directory)
      → Stands json a s d
      → AllFit (parses json) g.count l d
      → AllHaveStrings l
      → AllAreDefined l
      → (replies : List Reply) × (s' : Provider (Memory J) T × Memory J) × (serve_all proc strings g
            l s
          ≡ ok (replies, s'))
        × (length replies ≡ length l)
  serve_all-returns l s d r fits given defined =
      let (replies, d', e, n) = steps-returns (parses json) g.count l d given in
      let follows = serve_all-steps json a memory proc laws strings g k l s d r fits in
      let (s', run, stands) = rw e at follows in (replies, s', run, n)
