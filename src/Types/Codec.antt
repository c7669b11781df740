-- ===== src/Types/Codec.antt =====
-- Serialisations as Mercury's hg_proc functions make them: a value becomes bytes, and a decoder gives
-- the value and the rest of the buffer, or fails. MERCURY_GEN_PROC puts the fields one after another.
use phonebook.Base.{ℕ, ◌≡◌, refl, Option, none, some, List, ◌++◌}
use mathlib.Core.List.{append_assoc}

pub record Codec (A : Type 0) : Type 0 where
  pub put : A → List ℕ
  pub get : List ℕ → Option (A × List ℕ)

-- A value is read back, whatever follows it.
abbrev pub Back : {A : Type 0} → Codec A → A → Type 0
Back c a = (rest : List ℕ) → c.get (c.put a ++ rest) ≡ some (a, rest)

module _ {A B : Type 0} where
  unfoldable pub read_second : Codec B → A → List ℕ → Option ((A × B) × List ℕ)
  read_second d a l = elim (d.get l) [ none ↦ none | some (b, rest) ↦ some ((a, b), rest) ]

  unfoldable pub read_pair : Codec A → Codec B → List ℕ → Option ((A × B) × List ℕ)
  unfolding read_second
  read_pair c d l = elim (c.get l) [ none ↦ none | some (a, rest) ↦ read_second d a rest ]

  -- One field after another.
  abbrev pub fields : Codec A → Codec B → Codec (A × B)
  fields c d = record { put = λ p. c.put p.0 ++ d.put p.1; get = read_pair c d }

  unfoldable pub read_as : Codec A → (A → B) → List ℕ → Option (B × List ℕ)
  read_as c make l = elim (c.get l) [ none ↦ none | some (a, rest) ↦ some (make a, rest) ]

  -- A struct made of fields.
  abbrev pub struct : Codec A → (A → B) → (B → A) → Codec B
  struct c make open_up = record { put = λ b. c.put (open_up b); get = read_as c make }

  pub fields-Back :
      (c : Codec A) (d : Codec B) (p : A × B) → Back c p.0 → Back d p.1 → Back (fields c d) p
  unfolding read_pair read_second
  fields-Back c d (a, b) first second rest =
      rw
        (
          append_assoc (c.put a) (d.put b) rest,
          read_pair,
          first (d.put b ++ rest),
          read_second,
          second rest,
        )
        refl

  pub struct-Back :
      (c : Codec A) (make : A → B) (open_up : B → A) (b : B)
      → make (open_up b) ≡ b
      → Back c (open_up b)
      → Back (struct c make open_up) b
  unfolding read_as
  struct-Back c make open_up b same back rest = rw (read_as, back rest, same) refl

  pub read_as-some :
      (c : Codec A) (make : A → B) (a : A) (rest : List ℕ)
      → Back c a
      → read_as c make (c.put a ++ rest) ≡ some (make a, rest)
  unfolding read_as
  read_as-some c make a rest back = rw (read_as, back rest) refl

-- A serialisation that reads back the values of a set.
pub record Sound (A : Type 0) : Type 1 where
  pub codec : Codec A
  pub Held : A → Type 0
  pub back : (a : A) → Held a → Back codec a

module _ {A B : Type 0} where
  abbrev pub sound_fields : Sound A → Sound B → Sound (A × B)
  sound_fields c d = record {
    codec = fields c.codec d.codec;
    Held = λ p. c.Held p.0 × d.Held p.1;
    back = λ p h. fields-Back c.codec d.codec p (c.back p.0 h.0) (d.back p.1 h.1);
  }

  abbrev pub sound_struct :
      Sound A → (make : A → B) (open_up : B → A) → ((b : B) → make (open_up b) ≡ b) → Sound B
  sound_struct c make open_up same = record {
    codec = struct c.codec make open_up;
    Held = λ b. c.Held (open_up b);
    back = λ b h. struct-Back c.codec make open_up b (same b) (c.back (open_up b) h);
  }
