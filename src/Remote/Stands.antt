-- ===== src/Remote/Stands.antt =====
-- When a provider of provider.c and the memory of the dummy backend (dummy-backend.c) stand for a
-- directory, and the parts of the provider against those of the directory.
use phonebook.Base.{
  ◌≡◌, ◌≢◌, refl, Bool, true, false, Option, none, some, String, List, [], ◌∷◌, ◌++◌, Run, ok,
  ◌>>=◌, arith, ◌==◌, if◌then◌else◌, Bool-cases, Option-cases, inl, inr,
}
use mathlib.Core.List.{map-append}
use phonebook.Common.{Return, success, err_invalid_config, PhonebookId, id_eq}
use phonebook.Backend.{Ptr, BackendImpl, null}
use phonebook.Backend.Contract.{All, holds}
use phonebook.Backend.Dummy.{
  Memory, Allocator, addresses, dummy_backend, dummy_create_phonebook, dummy_open_phonebook,
  new_context,
}
use phonebook.Json.{Json}
use phonebook.Uthash.{Uthash}
use phonebook.Uthash.Items.{Phonebook, lookup, remove}
use phonebook.Types.RoundTrip.{IsUuid}
use phonebook.Provider.{Provider, check_token, strcmp_eq, find_backend_impl, find_backend_from}
use phonebook.Provider.Valid.{entries}
use phonebook.Provider.Backends.{first_named, find_backend_impl-first_named}
use phonebook.Provider.Listing.{ids_of}
use phonebook.Provider.Owns.{Owns}
use phonebook.Remote.Spec.{Directory, knows, without, allows, is_dummy, accepts}

module _ {W : Type 0} where
  pub knows-lookup :
      (k : PhonebookId) (l : List (Phonebook W))
      → knows k (ids_of l) ≡ (elim (lookup k l) [ none ↦ false | some b ↦ true ])
  unfolding knows lookup
  knows-lookup k [] = refl
  knows-lookup k (q ∷ l) = ground (arith, knows-lookup k l)

  pub ids_of-remove :
      (k : PhonebookId) (l : List (Phonebook W)) → ids_of (remove k l) ≡ without k (ids_of l)
  unfolding without remove
  ids_of-remove k [] = refl
  ids_of-remove k (q ∷ l) = ground (arith, ids_of-remove k l)

pub All-without :
    (P : PhonebookId → Type 0) (k : PhonebookId) (l : List PhonebookId)
    → All P l
    → All P (without k l)
unfolding without
All-without P k [] h = tt
All-without P k (q ∷ l) h = elim (Bool-cases (id_eq q k)) [
  | inl e ↦ rw e h.1
  | inr e ↦ rw e (h.0, All-without P k l h.1)
]

module _ {J : Type 0} (json : Json J) where
  -- The texts that json-c parses.
  abbrev pub parses : String → Bool
  parses s = elim (json.parse s) [ none ↦ false | some j ↦ true ]

  module _ (a : Allocator) where
    abbrev pub dummy : BackendImpl (Memory J)
    dummy = dummy_backend json a

    pub open-create :
        (config : Option String) (w : Memory J)
        → dummy_open_phonebook json a config w ≡ dummy_create_phonebook json a config w
    unfolding dummy_open_phonebook dummy_create_phonebook
    open-create none w = refl
    open-create (some s) w = ground arith

    -- A new context of the dummy backend, and that its memory is otherwise as it was.
    abbrev pub MadeContext : Memory J → Run ((Return × Ptr) × Memory J) → Type 0
    MadeContext w r =
        (ctx : Ptr) × (w' : Memory J) × (r ≡ ok ((success, ctx), w'))
        × (holds ctx (addresses w) ≡ false)
        × (addresses w' ≡ addresses w ++ ctx ∷ [])
        × (w'.stdout ≡ w.stdout)

    new_context-MadeContext :
        (j : J) (w : Memory J)
        → a.calloc (addresses w) ≢ null
        → MadeContext w (new_context json a j w)
    unfolding new_context
    new_context-MadeContext j w memory = elim (Bool-cases (a.calloc (addresses w) == null)) [
      | inl e ↦ absurd (memory (ground arith))
      | inr e ↦ rw e (_, _, refl, a.fresh (addresses w), map-append _ _ _, refl)
    ]

    pub dummy_create_phonebook-accepted :
        (config : Option String) (w : Memory J)
        → a.calloc (addresses w) ≢ null
        → accepts parses config ≡ true
        → MadeContext w (dummy_create_phonebook json a config w)
    unfolding dummy_create_phonebook
    dummy_create_phonebook-accepted none w memory h =
        new_context-MadeContext json.new_object w memory
    dummy_create_phonebook-accepted (some s) w memory h = elim (Option-cases (json.parse s)) [
      | inl e ↦ ground (arith, h)
      | inr (j, e) ↦ rw (e, dummy_create_phonebook) (new_context-MadeContext j w memory)
    ]

    pub dummy_create_phonebook-refused :
        (config : Option String) (w : Memory J)
        → accepts parses config ≡ false
        → dummy_create_phonebook json a config w ≡ ok ((err_invalid_config, null), w)
    unfolding dummy_create_phonebook
    dummy_create_phonebook-refused none w h = cc
    dummy_create_phonebook-refused (some s) w h = ground (arith, h)

module _ {J T : Type 0} ⦃H : Uthash (Memory J) T⦄ (json : Json J) (a : Allocator) where
  -- The provider owns its contexts, knows the dummy backend alone, and all its phonebooks are of that
  -- backend; its token, its ids and what was printed are those of the directory.
  pub record Stands (s : Provider (Memory J) T × Memory J) (d : Directory) : Type 0 where
    pub owns : Owns addresses s.0 s.1
    pub types : s.0.backend_types ≡ dummy json a ∷ []
    pub dummies : All (λ b. b.fn ≡ dummy json a) (entries s.0)
    pub token : s.0.token ≡ d.token
    pub ids : ids_of (entries s.0) ≡ d.ids
    pub uuids : All IsUuid d.ids
    pub printed : s.1.stdout ≡ d.printed

  module _ {s : Provider (Memory J) T × Memory J} {d : Directory} (r : Stands s d) where
    pub check_token-allows : (token : Option String) → check_token s.0 token ≡ allows d.token token
    unfolding check_token strcmp_eq
    check_token-allows token = rw (r.token, check_token) (ground arith)

    pub find_backend_impl-is_dummy :
        (type : Option String)
        → find_backend_impl s.0 type
          ≡ (is_dummy type >>= λ known. ok (if known then some (dummy json a) else none))
    unfolding find_backend_impl find_backend_from strcmp_eq first_named
    find_backend_impl-is_dummy none =
        rw (find_backend_impl, r.owns.valid.types_counted, r.types) refl
    find_backend_impl-is_dummy (some name) =
        rw (find_backend_impl-first_named s.0 name r.owns.valid, r.types) refl

    pub found_phonebook :
        (k : PhonebookId)
        → knows k d.ids ≡ true
        → (b : Phonebook (Memory J)) × (lookup k (entries s.0) ≡ some b)
    found_phonebook k h = elim (Option-cases (lookup k (entries s.0))) [
      | inl e ↦ let same = knows-lookup k (entries s.0) in let same' = rw (r.ids, e) at same in cc
      | inr found ↦ found
    ]

    pub no_phonebook : (k : PhonebookId) → knows k d.ids ≡ false → lookup k (entries s.0) ≡ none
    no_phonebook k h = elim (Option-cases (lookup k (entries s.0))) [
      | inl e ↦ e
      | inr (b, e) ↦
          let same = knows-lookup k (entries s.0) in let same' = rw (r.ids, e) at same in cc
    ]
