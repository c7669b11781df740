-- ===== src/Backend/Contract.antt =====
-- What the provider relies on in a backend (YP-backend.h): the contexts that it hands out are
-- objects of memory, each made once and given back once.
use phonebook.Base.{
  ℕ, ◌≡◌, refl, Bool, true, false, Option, List, [], ◌∷◌, ◌++◌, ok, arith, ◌==◌, if◌then◌else◌,
  String,
}
use phonebook.Common.{Return, is_success}
use phonebook.Backend.{BackendImpl, Ptr, Cmd}

unfoldable pub holds : Ptr → List Ptr → Bool
holds a [] = false
holds a (x ∷ l) = if x == a then true else holds a l

unfoldable pub erase : Ptr → List Ptr → List Ptr
erase a [] = []
erase a (x ∷ l) = if x == a then l else x ∷ erase a l

abbrev pub Apart : List Ptr → Type 0
Apart [] = Unit {0}
Apart (x ∷ l) = (holds x l ≡ false) × Apart l

abbrev pub All {ℓ} : {A : Type ℓ} → (A → Type 0) → List A → Type 0
All P [] = Unit {0}
All P (x ∷ l) = P x × All P l

pub All-append {ℓ} :
    {A : Type ℓ} (P : A → Type 0) (l : List A) (x : A) → All P l → P x → All P (l ++ x ∷ [])
All-append P [] x h p = (p, tt)
All-append P (y ∷ l) x h p = (h.0, All-append P l x h.1 p)

pub Apart-append : (l : List Ptr) (a : Ptr) → holds a l ≡ false → Apart l → Apart (l ++ a ∷ [])
unfolding holds
Apart-append [] a h d = (refl, tt)
Apart-append (x ∷ l) a h d = ground (arith, Apart-append l a, holds-append x l a)
  where
    holds-append :
        (b : Ptr) (m : List Ptr) (c : Ptr)
        → holds b (m ++ c ∷ []) ≡ (if holds b m then true else c == b)
    holds-append b [] c = ground arith
    holds-append b (y ∷ m) c = ground (arith, holds-append b m c)

pub Apart-erase : (l : List Ptr) (a : Ptr) → Apart l → Apart (erase a l)
unfolding holds erase
Apart-erase [] a d = tt
Apart-erase (x ∷ l) a d = ground (arith, Apart-erase l a, holds-erase x l a)
  where
    holds-erase :
        (b : Ptr) (m : List Ptr) (c : Ptr) → holds b m ≡ false → holds b (erase c m) ≡ false
    holds-erase b [] c h = refl
    holds-erase b (y ∷ m) c h = ground (arith, holds-erase b m c)

-- After the attempt to make a context: a new one is alive exactly when the code is YP_SUCCESS.
abbrev pub MadeIf : Bool → List Ptr → Ptr → List Ptr → Type 0
MadeIf true before ctx after = (holds ctx before ≡ false) × (after ≡ before ++ ctx ∷ [])
MadeIf false before ctx after = after ≡ before

module _ {W : Type 0} (alive : W → List Ptr) where
  abbrev pub Makes : (Option String → Cmd W (Return × Ptr)) → Type 0
  Makes make =
      (config : Option String) (w : W)
      → (r : (Return × Ptr) × W) × (make config w ≡ ok r)
        × MadeIf (is_success r.0.0) (alive w) r.0.1 (alive r.1)

  abbrev pub Frees : (Ptr → Cmd W Return) → Type 0
  Frees free =
      (ctx : Ptr) (w : W)
      → holds ctx (alive w) ≡ true
      → (r : Return × W) × (free ctx w ≡ ok r) × (alive r.1 ≡ erase ctx (alive w))

  abbrev pub Uses : {A : Type 0} → (Ptr → Cmd W A) → Type 0
  Uses {A} use_ctx =
      (ctx : Ptr) (w : W)
      → holds ctx (alive w) ≡ true
      → (r : A × W) × (use_ctx ctx w ≡ ok r) × (alive r.1 ≡ alive w)

  -- `alive w` are the contexts, of all backends, that are allocated in the memory `w`.
  pub record Contract (b : BackendImpl W) : Type 0 where
    pub creates : Makes b.create_phonebook
    pub opens : Makes b.open_phonebook
    pub closes : Frees b.close_phonebook
    pub destroys : Frees b.destroy_phonebook
    pub configures : Uses b.get_config
    pub greets : Uses b.hello
    pub sums : (x y : ℕ) → Uses (λ ctx. b.sum ctx x y)
