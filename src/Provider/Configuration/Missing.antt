-- ===== src/Provider/Configuration/Missing.antt =====
-- Entries of the configuration (provider.c) that leave out "config", for the dummy backend
-- (dummy-backend.c).
use phonebook.Base.{true, ℕ, ◌≡◌, refl, none, some, ok}
use phonebook.Common.{is_success}
use phonebook.Backend.Dummy.{Memory, Allocator, dummy_backend, dummy_create_phonebook}
use phonebook.Json.{Json, NullLaws}
use phonebook.Uthash.{Uthash}
use phonebook.Provider.{Provider, find_backend_impl}
use phonebook.Provider.Configuration.{Resources, load_context, load_phonebook}

module _ {T J : Type 0} ⦃H : Uthash (Memory J) T⦄ (json : Json J) (laws : NullLaws J json)
    (a : Allocator) (r : Resources) where
  -- An entry of the configuration that names the dummy backend, which the provider knows, and
  -- leaves out "config" makes no phonebook: the missing configuration is written as the text
  -- null, and that text is refused as a configuration.
  pub load_phonebook-missing_config :
      (i : ℕ) (entry type_name : J) (p : Provider (Memory J) T) (w : Memory J)
      → json.is_object entry ≡ true
      → json.object_get entry "type" ≡ some type_name
      → json.is_string type_name ≡ true
      → find_backend_impl p (some (json.get_string type_name)) ≡ ok (some (dummy_backend json a))
      → json.object_get entry "config" ≡ none
      → load_phonebook json r i (some entry) p w ≡ ok (p, w)
  unfolding load_phonebook load_context dummy_create_phonebook is_success
  load_phonebook-missing_config i entry type_name p w obj ty str known missing =
      rw
        (
          obj, load_phonebook, ty, str, known, missing, laws.null_text, dummy_create_phonebook,
          laws.null_parse,
        )
        refl
