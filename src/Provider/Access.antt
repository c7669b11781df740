-- ===== src/Provider/Access.antt =====
-- Who may use a provider, and what a refused request leaves behind (provider.c).
use mathlib.Core.Option
use text.Mathlib.TextEquality.{eq_iff}
use phonebook.Base.{
  ◌∷◌, List, [], if◌then◌else◌, Bool, ◌≡◌, ◌≢◌, true, false, Option, none, some, Run, ok, ◌>>=◌,
  arith, String,
}
use phonebook.Common.{Return, err_invalid_token, is_success}
use phonebook.Backend.{BackendImpl, Ptr, Cmd}
use phonebook.Types.{CreatePhonebookIn, ClosePhonebookIn}
use phonebook.Uthash.{Uthash}
use phonebook.Provider.{Provider, check_token, strcmp_eq, remove_phonebook, close_if}
use phonebook.Provider.Handlers.{
  Call, Served, Action, respond, free_input, destroy_handle, create_phonebook_ult,
  open_phonebook_ult, close_phonebook_ult, destroy_phonebook_ult, list_phonebooks_ult, hello_ult,
  sum_ult, make_phonebook_ult,
}
use phonebook.Provider.Requests.{
  Request, create_phonebook, open_phonebook, close_phonebook, destroy_phonebook, list_phonebooks,
  hello, sum, handle, reply, answer_of, state_of,
}

-- The token that came with an administrative request, NULL included; `none` where no input came or
-- the request takes no token.
abbrev pub token_of : Request → Option (Option String)
token_of (create_phonebook c) = Option.map (λ i. i.token) c.input
token_of (open_phonebook c) = Option.map (λ i. i.token) c.input
token_of (close_phonebook c) = Option.map (λ i. i.token) c.input
token_of (destroy_phonebook c) = Option.map (λ i. i.token) c.input
token_of (list_phonebooks c) = Option.map (λ i. i.token) c.input
token_of (hello c) = none
token_of (sum c) = none

abbrev pub is_hello : Request → Bool
is_hello (hello c) = true
is_hello _ = false

abbrev pub is_close : Request → Bool
is_close (close_phonebook c) = true
is_close _ = false

module _ {W T : Type 0} ⦃H : Uthash W T⦄ where
  check_token-refused :
      (p : Provider W T) (t s : String)
      → p.token ≡ some t
      → t ≢ s
      → check_token p (some s) ≡ ok false
  unfolding check_token strcmp_eq
  check_token-refused p t s e h = ground (arith, eq_iff t s)

  -- A provider with a token answers an administrative request that comes with another token by
  -- YP_ERR_INVALID_TOKEN, and neither it nor a backend changes.
  pub wrong_token_refused :
      (r : Request) (p : Provider W T) (w : W) (t s : String)
      → p.token ≡ some t
      → token_of r ≡ some (some s)
      → t ≢ s
      → (reply r p w ≡ ok (some err_invalid_token)) × (handle r p w ≡ ok (p, w))
  unfolding reply handle make_phonebook_ult create_phonebook_ult open_phonebook_ult
      close_phonebook_ult destroy_phonebook_ult list_phonebooks_ult
  wrong_token_refused (create_phonebook c) p w t s e f h =
      ground (arith, check_token-refused p t s e h)
  wrong_token_refused (open_phonebook c) p w t s e f h =
      ground (arith, check_token-refused p t s e h)
  wrong_token_refused (close_phonebook c) p w t s e f h =
      ground (arith, check_token-refused p t s e h)
  wrong_token_refused (destroy_phonebook c) p w t s e f h =
      ground (arith, check_token-refused p t s e h)
  wrong_token_refused (list_phonebooks c) p w t s e f h =
      ground (arith, check_token-refused p t s e h)
  wrong_token_refused (hello c) p w t s e f h = cc
  wrong_token_refused (sum c) p w t s e f h = cc

  make_error-keeps :
      (make : BackendImpl W → Option String → Cmd W (Return × Ptr)) (c : Call CreatePhonebookIn)
      (p : Provider W T) (w : W) {ret : Return} {q : Provider W T} {v : W}
      → answer_of (λ o. o.ret) (make_phonebook_ult make c p w) ≡ ok (some ret)
      → is_success ret ≡ false
      → state_of (make_phonebook_ult make c p w) ≡ ok (q, v)
      → q ≡ p
  unfolding make_phonebook_ult is_success
  make_error-keeps make c p w a e h = ground arith

  destroy_error-keeps :
      (c : Call ClosePhonebookIn) (p : Provider W T) (w : W) {ret : Return} {q : Provider W T}
      {v : W}
      → answer_of (λ o. o.ret) (destroy_phonebook_ult c p w) ≡ ok (some ret)
      → is_success ret ≡ false
      → state_of (destroy_phonebook_ult c p w) ≡ ok (q, v)
      → q ≡ p
  unfolding destroy_phonebook_ult is_success remove_phonebook close_if
  destroy_error-keeps c p w a e h = ground arith

  -- A request other than close that is served and whose answer is an error leaves the provider as
  -- it was.
  pub error_keeps_provider :
      (r : Request) (p : Provider W T) (w : W) {ret : Return} {q : Provider W T} {v : W}
      → is_close r ≡ false
      → reply r p w ≡ ok (some ret)
      → is_success ret ≡ false
      → handle r p w ≡ ok (q, v)
      → q ≡ p
  unfolding reply handle create_phonebook_ult open_phonebook_ult list_phonebooks_ult hello_ult
      sum_ult is_success
  error_keeps_provider (create_phonebook c) p w n a e h =
      make_error-keeps (λ b. b.create_phonebook) c p w a e h
  error_keeps_provider (open_phonebook c) p w n a e h =
      make_error-keeps (λ b. b.open_phonebook) c p w a e h
  error_keeps_provider (close_phonebook c) p w n a e h = cc
  error_keeps_provider (destroy_phonebook c) p w n a e h = destroy_error-keeps c p w a e h
  error_keeps_provider (list_phonebooks c) p w n a e h = ground arith
  error_keeps_provider (hello c) p w n a e h = ground arith
  error_keeps_provider (sum c) p w n a e h = ground arith

-- What a handler does with its handle, without the contents of the answer.
abbrev pub outline : {Out : Type 0} → List (Action Out) → List (Action (Unit {0}))
outline [] = []
outline (respond out ∷ l) = respond tt ∷ outline l
outline (free_input ∷ l) = free_input ∷ outline l
outline (destroy_handle ∷ l) = destroy_handle ∷ outline l

abbrev pub outline_of : {W T Out : Type 0} → Run (Served W T Out) → Run (List (Action (Unit {0})))
outline_of r = do s ← r; ok (outline s.actions)

module _ {W T : Type 0} ⦃H : Uthash W T⦄ where
  unfoldable pub trace : Request → Provider W T → W → Run (List (Action (Unit {0})))
  trace (create_phonebook c) p w = outline_of (create_phonebook_ult c p w)
  trace (open_phonebook c) p w = outline_of (open_phonebook_ult c p w)
  trace (close_phonebook c) p w = outline_of (close_phonebook_ult c p w)
  trace (destroy_phonebook c) p w = outline_of (destroy_phonebook_ult c p w)
  trace (list_phonebooks c) p w = outline_of (list_phonebooks_ult c p w)
  trace (hello c) p w = outline_of (hello_ult c p w)
  trace (sum c) p w = outline_of (sum_ult c p w)

  -- Every handler that ends, on whatever branch, answers exactly once, then frees its input and
  -- destroys its handle; but the handler of hello only destroys its handle, and never frees its input.
  pub trace-finish :
      (r : Request) (p : Provider W T) (w : W) {l : List (Action (Unit {0}))}
      → trace r p w ≡ ok l
      → l ≡ (
          if is_hello r then destroy_handle ∷ [] else respond tt ∷ free_input ∷ destroy_handle ∷ [])
  unfolding trace create_phonebook_ult open_phonebook_ult close_phonebook_ult destroy_phonebook_ult
      list_phonebooks_ult hello_ult sum_ult
  trace-finish (create_phonebook c) p w e = ground arith
  trace-finish (open_phonebook c) p w e = ground arith
  trace-finish (close_phonebook c) p w e = ground arith
  trace-finish (destroy_phonebook c) p w e = ground arith
  trace-finish (list_phonebooks c) p w e = ground arith
  trace-finish (hello c) p w e = ground arith
  trace-finish (sum c) p w e = ground arith
