-- ===== src/Tests/Texts.antt =====
-- A wire format for texts: a text is its characters' numbers, each raised by 2, up to a 0; NULL is a 1.
use Prim.Native.Nat.{Ordering, compare}
use Prim.Native.Char.{Char, char, code, nul, IsLt, IsScalar}
use Prim.Native.String.{[] as empty, ◌∷◌ as ◌∷ₛ◌}
use text.Mathlib.TextEquality.{Char-path}
use phonebook.Base.{zero, ℕ, suc, ◌≡◌, refl, Option, none, some, String, List, [], ◌∷◌, ◌++◌}
use phonebook.Types.Messages.{ProcStrings}

abbrev Both : Ordering → Ordering → Type 0
Both Ordering.lt o = IsLt o
Both Ordering.eq _ = ⊥
Both Ordering.gt _ = ⊥

abbrev Scalar : Ordering → Ordering → Ordering → Type 0
Scalar Ordering.lt _ _ = Unit
Scalar Ordering.eq o p = Both o p
Scalar Ordering.gt o p = Both o p

pub dec_both : (o p : Ordering) → Dec (Both o p)
dec_both Ordering.lt Ordering.lt = yes tt
dec_both Ordering.lt Ordering.eq = no (λ x. x)
dec_both Ordering.lt Ordering.gt = no (λ x. x)
dec_both Ordering.eq p = no (λ x. x)
dec_both Ordering.gt p = no (λ x. x)

pub dec_scalar : (o p q : Ordering) → Dec (Scalar o p q)
dec_scalar Ordering.lt p q = yes tt
dec_scalar Ordering.eq p q = dec_both p q
dec_scalar Ordering.gt p q = dec_both p q

unfoldable pub char_of : ℕ → Char
char_of n = elim (dec_scalar (compare n 55296) (compare 57343 n) (compare n 1114112)) [
  | yes p ↦ char n p
  | no _ ↦ nul
]

char_of-code : (c : Char) → char_of (code c) ≡ c
unfolding char_of
char_of-code (char n p) =
    chosen (dec_scalar (compare n 55296) (compare 57343 n) (compare n 1114112))
  where
    chosen : (d : Dec (IsScalar n)) → (elim d [ yes q ↦ char n q | no _ ↦ nul ]) ≡ char n p
    chosen (yes q) = Char-path (char n q) (char n p) refl
    chosen (no r) = absurd (r p)

abbrev put_chars : String → List ℕ
put_chars empty = 0 ∷ []
put_chars (c ∷ₛ s) = suc (suc (code c)) ∷ put_chars s

abbrev put_text : Option String → List ℕ
put_text none = 1 ∷ []
put_text (some s) = put_chars s

abbrev longer : ℕ → Option (String × List ℕ) → Option (String × List ℕ)
longer n none = none
longer n (some (s, rest)) = some (char_of n ∷ₛ s, rest)

abbrev get_chars : List ℕ → Option (String × List ℕ)
get_chars [] = none
get_chars (zero ∷ l) = some (empty, l)
get_chars (suc zero ∷ l) = none
get_chars (suc (suc n) ∷ l) = longer n (get_chars l)

abbrev sent : Option (String × List ℕ) → Option (Option String × List ℕ)
sent none = none
sent (some (s, rest)) = some (some s, rest)

abbrev get_text : List ℕ → Option (Option String × List ℕ)
get_text (suc zero ∷ l) = some (none, l)
get_text l = sent (get_chars l)

get_chars-put_chars :
    (s : String) (rest : List ℕ) → get_chars (put_chars s ++ rest) ≡ some (s, rest)
get_chars-put_chars empty rest = refl
get_chars-put_chars (c ∷ₛ s) rest = rw (get_chars-put_chars s rest, char_of-code c) refl

pub get_text-put_text :
    (s : Option String) (rest : List ℕ) → get_text (put_text s ++ rest) ≡ some (s, rest)
get_text-put_text none rest = refl
get_text-put_text (some empty) rest = refl
get_text-put_text (some (c ∷ₛ s)) rest = rw (get_chars-put_chars s rest, char_of-code c) refl

abbrev pub texts : ProcStrings
texts = record {
  string = record { put = put_text; get = get_text };
  string_back = get_text-put_text;
}
