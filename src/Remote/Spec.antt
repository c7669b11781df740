-- ===== src/Remote/Spec.antt =====
-- What a provider of dummy phonebooks is to its users: a list of ids behind a token. It says what the
-- requests of include/YP/YP-admin.h, YP-client.h and YP-phonebook.h do, with no hash, context or wire.
use Prim.Native.Nat.{min}
use text.Mathlib.Text.{◌==◌ as str_eq}
use phonebook.Base.{
  ℕ, ◌+◌, ◌*◌, ◌%◌, ◌^◌, ◌<◌, ◌≡◌, Bool, true, false, Option, none, some, String, List, [], ◌∷◌,
  ◌++◌, Run, ok, fault, ◌>>=◌, OnOk, length, take, if◌then◌else◌,
}
use phonebook.Base.Words.{u64_mod}
use phonebook.Common.{
  success, err_from_mercury, err_invalid_token, err_invalid_backend, err_invalid_phonebook,
  err_invalid_config, PhonebookId, id_eq,
}
use phonebook.Types.Wire.{has_bytes}
use phonebook.Types.RoundTrip.{IsUuid}
use phonebook.Remote.{
  Command, create_command, open_command, close_command, destroy_command, list_command,
  hello_command, sum_command, Reply, made, freed, listed, greeted, summed, Fate,
}

-- The token that is asked for, the ids in the order of their creation, and what was printed.
pub record Directory : Type 0 where
  pub token : Option String
  pub ids : List PhonebookId
  pub printed : List String

unfoldable pub knows : PhonebookId → List PhonebookId → Bool
knows id [] = false
knows id (k ∷ l) = if id_eq k id then true else knows id l

unfoldable pub without : PhonebookId → List PhonebookId → List PhonebookId
without id [] = []
without id (k ∷ l) = if id_eq k id then l else k ∷ without id l

-- To give no token to a provider that asks for one, or no type, is a fault.
abbrev pub allows : Option String → Option String → Run Bool
allows none given = ok true
allows (some t) none = fault
allows (some t) (some s) = ok (str_eq t s)

abbrev pub is_dummy : Option String → Run Bool
is_dummy none = fault
is_dummy (some type) = ok (str_eq type "dummy")

unfoldable pub free : (token : Option String) → PhonebookId → Directory → Run (Reply × Directory)
unfolding knows without
free token id d = do
  allowed ← allows d.token token
  ok (
      if allowed
      then (if knows id d.ids
          then (freed success, record d { ids = without id d.ids })
          else (freed err_invalid_phonebook, d))
      else (freed err_invalid_token, d))

-- The reply where a step on the way fails.
unfoldable pub lost : Command → Reply
lost (create_command token type config uuid) = made err_from_mercury none
lost (open_command token type config uuid) = made err_from_mercury none
lost (close_command token id) = freed err_from_mercury
lost (destroy_command token id) = freed err_from_mercury
lost (list_command token capacity) = listed err_from_mercury none
lost (hello_command id) = greeted err_from_mercury
lost (sum_command id x y) = summed err_from_mercury none

-- The reply where the request was forwarded, and its input or its answer was lost; a hello awaits no
-- answer.
unfoldable pub unanswered : Command → Reply
unfolding lost
unanswered (hello_command id) = greeted success
unanswered c = lost c

-- `parses` tells whether a text is JSON.
module _ (parses : String → Bool) where
  abbrev pub accepts : Option String → Bool
  accepts none = true
  accepts (some config) = parses config

  unfoldable pub make :
      (token type config : Option String) → PhonebookId → Directory → Run (Reply × Directory)
  make token type config uuid d = do
    allowed ← allows d.token token
    if allowed
        then (do
          known ← is_dummy type
          ok (
              if known
              then (if accepts config
                  then (made success (some uuid), record d { ids = d.ids ++ uuid ∷ [] })
                  else (made err_invalid_config none, d))
              else (made err_invalid_backend none, d)))
        else ok (made err_invalid_token none, d)

  -- `unset` is what stands in the count of a list answer that the provider did not assign.
  module _ (unset : ℕ) where
    -- What a request does that arrives. To a list request that is refused the client gets the code of the
    -- refusal only where the count that was never assigned stands for no bytes, or for too many.
    unfoldable pub act : Command → Directory → Run (Reply × Directory)
    unfolding make free knows
    act (create_command token type config uuid) d = make token type config uuid d
    act (open_command token type config uuid) d = make token type config uuid d
    act (close_command token id) d = free token id d
    act (destroy_command token id) d = free token id d
    act (list_command token capacity) d = do
      allowed ← allows d.token token
      let n = min (length d.ids) capacity
      ok (
        (if allowed
            then listed success (some (record { count = n; ids = take n d.ids }))
            else listed (if has_bytes unset then err_from_mercury else err_invalid_token) none),
        d,
      )
    act (hello_command id) d = ok (
      greeted success,
      (if knows id d.ids
          then record d { printed = d.printed ++ "Hello World from Dummy phonebook\n" ∷ [] }
          else d),
    )
    act (sum_command id x y) d = ok (
      (if knows id d.ids
          then summed success (some ((x + y) % 2 ^ 32))
          else summed err_invalid_phonebook none),
      d,
    )

    -- A request with what happens on its way. A request whose answer is lost is carried out all the same.
    unfoldable pub step : Fate → Command → Directory → Run (Reply × Directory)
    unfolding act lost unanswered
    step f c d =
        if f.created
        then (if f.forwarded
            then (if f.got_input
                then (do
                  (reply, d') ← act c d
                  ok ((if f.got_output then reply else unanswered c), d'))
                else ok (unanswered c, d))
            else ok (lost c, d))
        else ok (lost c, d)

    unfoldable pub steps : List (Fate × Command) → Directory → Run (List Reply × Directory)
    steps [] d = ok ([], d)
    steps ((f, c) ∷ l) d = do
      (reply, d1) ← step f c d
      (replies, d2) ← steps l d1
      ok (reply ∷ replies, d2)

-- The values that the C types of a request can hold, a new id that is not in use, and ids to list whose
-- size in bytes fits a size_t.
abbrev pub Fits : Command → Directory → Type 0
Fits (create_command token type config uuid) d = IsUuid uuid × (knows uuid d.ids ≡ false)
Fits (open_command token type config uuid) d = IsUuid uuid × (knows uuid d.ids ≡ false)
Fits (close_command token id) d = IsUuid id
Fits (destroy_command token id) d = IsUuid id
Fits (list_command token capacity) d = (capacity < u64_mod) × (16 * length d.ids < u64_mod)
Fits (hello_command id) d = IsUuid id
Fits (sum_command id x y) d = IsUuid id × (x < 2 ^ 32) × (y < 2 ^ 32)

-- Each request fits when it comes.
abbrev pub AllFit : (parses : String → Bool) → ℕ → List (Fate × Command) → Directory → Type 0
AllFit parses unset [] d = Unit {0}
AllFit parses unset ((f, c) ∷ l) d =
    Fits c d × OnOk (λ r. AllFit parses unset l r.1) (step parses unset f c d)
