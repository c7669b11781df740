-- ===== src/Provider/Directory.antt =====
-- A provider (provider.c) as an ordered directory of phonebooks: what each request may do to it.
use phonebook.Base.{◌⊎◌, ◌≡◌, Option, none, some, List, [], ◌∷◌, ◌++◌}
use phonebook.Common.{PhonebookId}
use phonebook.Types.{ClosePhonebookIn}
use phonebook.Uthash.{Uthash}
use phonebook.Uthash.Items.{Phonebook, lookup, remove}
use phonebook.Provider.{Provider}
use phonebook.Provider.Valid.{IsValid, entries}
use phonebook.Provider.Requests.{
  Request, create_phonebook, open_phonebook, close_phonebook, destroy_phonebook,
}

module _ {W : Type 0} where
  -- Nothing happens, or a phonebook with a new id `k` comes in as the last one.
  abbrev pub MayAdd : PhonebookId → List (Phonebook W) → List (Phonebook W) → Type 0
  MayAdd k l l' =
      (l' ≡ l) ⊎ ((b : Phonebook W) × (b.id ≡ k) × (lookup k l ≡ none) × (l' ≡ l ++ b ∷ []))

  -- Nothing happens, or the phonebook with the id `k` goes.
  abbrev pub MayRemove : PhonebookId → List (Phonebook W) → List (Phonebook W) → Type 0
  MayRemove k l l' = (l' ≡ l) ⊎ ((b : Phonebook W) × (lookup k l ≡ some b) × (l' ≡ remove k l))

  abbrev pub RemoveOf : Option ClosePhonebookIn → List (Phonebook W) → List (Phonebook W) → Type 0
  RemoveOf none l l' = l' ≡ l
  RemoveOf (some input) l l' = MayRemove input.id l l'

  -- What a request may do to the directory.
  abbrev pub Allowed : Request → List (Phonebook W) → List (Phonebook W) → Type 0
  Allowed (create_phonebook c) = MayAdd c.uuid
  Allowed (open_phonebook c) = MayAdd c.uuid
  Allowed (close_phonebook c) = RemoveOf c.input
  Allowed (destroy_phonebook c) = RemoveOf c.input
  Allowed _ = λ l l'. l' ≡ l

module _ {W T : Type 0} ⦃H : Uthash W T⦄ where
  -- The provider is still well-formed, its directory changed as `R` allows, and its token and its
  -- backends are what they were.
  pub record Refines (R : List (Phonebook W) → List (Phonebook W) → Type 0) (p q : Provider W T)
      : Type 0 where
    pub valid : IsValid q
    pub change : R (entries p) (entries q)
    pub token : q.token ≡ p.token
    pub types : q.backend_types ≡ p.backend_types
