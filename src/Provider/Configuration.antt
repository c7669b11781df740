-- ===== src/Provider/Configuration.antt =====
-- How YP_provider_register of src/provider.c reads its configuration and makes the phonebooks that it
-- lists.
pub mod Loading
pub mod Missing
use phonebook.Base.{
  ◌≤◌, ℕ, suc, Bool, Option, none, some, List, [], ◌∷◌, Run, ok, fault, ◌>>=◌, String,
  if◌then◌else◌,
}
use phonebook.Common.{PhonebookId, is_success}
use phonebook.Backend.{BackendImpl}
use phonebook.Json.{Json}
use phonebook.Uthash.{Uthash}
use phonebook.Provider.{pointer_size, Provider, find_backend_impl, add_phonebook}

-- What the libraries deliver while a provider is registered: whether the allocations of the provider and
-- of the copy of its token succeed, the number of bytes of the block that realloc gives for the array of
-- backend types (`none` where it returns NULL), and for each entry of the configuration the id that
-- uuid_generate writes and whether the phonebook is allocated.
pub record Resources : Type 0 where
  pub calloc_ok : Bool
  pub realloc_room : Option ℕ
  pub strdup_ok : Bool
  pub uuid_at : ℕ → PhonebookId
  pub calloc_ok_at : ℕ → Bool

-- The block that realloc gives for the first backend, for which it is asked for one byte, has room for a
-- pointer.
abbrev pub HasRoom : Option ℕ → Type 0
HasRoom none = ⊥
HasRoom (some room) = pointer_size ≤ room

module _ {J : Type 0} (json : Json J) where
  -- The configuration that YP_provider_register works with: `none` where it is refused.
  unfoldable pub read_config : Option String → Option J
  read_config none = some json.new_object
  read_config (some text) = elim (json.parse text) [
    | none ↦ none
    | some config ↦ if json.is_object config then some config else none
  ]

  -- `json_object_is_type` of a pointer that may be NULL, for a type other than null
  abbrev pub typed : (J → Bool) → Option J → Option J
  typed test none = none
  typed test (some j) = if test j then some j else none

  -- The entries of "phonebooks", if that is an array.
  unfoldable pub configured : J → List (Option J)
  configured config = elim (typed json.is_array (json.object_get config "phonebooks")) [
    | none ↦ []
    | some phonebooks_array ↦ json.array_elements phonebooks_array
  ]

module _ {W T J : Type 0} ⦃H : Uthash W T⦄ (json : Json J) (r : Resources) where
  -- The end of the loop's body, from the creation of the context on, in round `i`.
  unfoldable pub load_context :
      (i : ℕ) → BackendImpl W → (config_text : String) → Provider W T → W → Run (Provider W T × W)
  load_context i backend config_text p w = do
    ((ret, context), w') ← backend.create_phonebook (some config_text) w
    if is_success ret
        then (if r.calloc_ok_at i
            then ok
                ((add_phonebook p (record { fn = backend; ctx = context; id = r.uuid_at i })).1, w')
            else fault)
        else ok (p, w')

  -- The body of the loop over the entries of the configuration; `continue` ends it early.
  unfoldable pub load_phonebook : (i : ℕ) → Option J → Provider W T → W → Run (Provider W T × W)
  unfolding load_context
  load_phonebook i entry p w = elim (typed json json.is_object entry) [
    | none ↦ ok (p, w)
    | some phonebook ↦ elim (typed json json.is_string (json.object_get phonebook "type")) [
      | none ↦ ok (p, w)
      | some phonebook_type ↦ do
        found ← find_backend_impl p (some (json.get_string phonebook_type))
        elim found [
          | none ↦ ok (p, w)
          | some backend ↦
              load_context i backend (json.to_json_string (json.object_get phonebook "config")) p w
        ]
    ]
  ]

  unfoldable pub load_phonebooks :
      (i : ℕ) → List (Option J) → Provider W T → W → Run (Provider W T × W)
  unfolding load_phonebook
  load_phonebooks i [] p w = ok (p, w)
  load_phonebooks i (entry ∷ rest) p w = do
    (p', w') ← load_phonebook i entry p w
    load_phonebooks (suc i) rest p' w'
