-- ===== src/Tests/Restarts.antt =====
-- A provider that is registered with the configuration of another one, over values of JSON.
use text.Mathlib.Text.{◌==◌ as str_eq}
use phonebook.Base.{
  ◌≡◌, refl, true, false, Option, none, some, String, List, [], ◌∷◌, ok, length, map, arith,
  if◌then◌else◌,
}
use phonebook.Common.{success, PhonebookId}
use phonebook.Backend.Dummy.{Memory, dummy_backend, dummy_get_config}
use phonebook.Backend.Contract.{holds}
use phonebook.Json.{Json, ObjectLaws, member}
use phonebook.Uthash.Items.{Phonebook}
use phonebook.Provider.{Provider}
use phonebook.Provider.Valid.{added}
use phonebook.Provider.GetConfig.{
  phonebook_at, phonebook_config, phonebook_configs, provider_config, provider_get_config,
}
use phonebook.Provider.Register.{ProviderArgs, provider_register, register_rpcs, effective_token}
use phonebook.Provider.Setup.{fresh_provider}
use phonebook.Remote.Spec.{Directory, knows}
use phonebook.Remote.Stands.{Stands}
use phonebook.Remote.Moves.{made-Stands}
use phonebook.Remote.Lifetime.{fresh_provider-Stands}
use phonebook.Remote.Restart.{provider_register-provider_get_config}
use phonebook.Tests.Libraries.{list_hash, allocator, above-ne-null, margo}
use phonebook.Tests.Fixtures.{id_of}
use phonebook.Tests.Setups.{resources, unparse, id_of-inj}

mutual
  data Value : Type 0 where
    words : String → Value
    arr : Items → Value
    obj : Fields → Value

  data Items : Type 0 where
    nil : Items
    cons : Value → Items → Items

  data Fields : Type 0 where
    end : Fields
    field : String → Value → Fields → Fields
    null_field : String → Fields → Fields

unfoldable fields_of : List (String × Option Value) → Fields
fields_of [] = end
fields_of ((k, none) ∷ l) = null_field k (fields_of l)
fields_of ((k, some v) ∷ l) = field k v (fields_of l)

unfoldable items_of : List Value → Items
items_of [] = nil
items_of (v ∷ l) = cons v (items_of l)

unfoldable elements_of : Items → List (Option Value)
elements_of nil = []
elements_of (cons v l) = some v ∷ elements_of l

unfoldable field_in : String → Option Value → Fields → Option Value
field_in key v end = v
field_in key v (field k u l) = field_in key (if str_eq k key then some u else v) l
field_in key v (null_field k l) = field_in key (if str_eq k key then none else v) l

abbrev text_in : Value → String
text_in (words s) = s
text_in v = ""

abbrev config_value : Value
config_value = obj (
    field "phonebooks"
      (arr (
        cons
          (obj (
            field "__id__" (words "id")
              (field "type" (words "dummy") (field "config" (obj end) end))))
          nil))
      end)

abbrev text_of : Option Value → String
text_of none = "null"
text_of (some (obj end)) = "{}"
text_of (some v) = "conf"

abbrev values : Json Value
values = record {
  parse = λ s.
      if str_eq s "{}" then some (obj end) else if str_eq s "conf" then some config_value else none;
  new_object = obj end;
  is_object = λ v. elim v [ words s ↦ false | arr l ↦ false | obj l ↦ true ];
  is_array = λ v. elim v [ words s ↦ false | arr l ↦ true | obj l ↦ false ];
  is_string = λ v. elim v [ words s ↦ true | arr l ↦ false | obj l ↦ false ];
  object_get = λ v key. elim v [ words s ↦ none | arr l ↦ none | obj l ↦ field_in key none l ];
  array_elements = λ v. elim v [ words s ↦ [] | arr l ↦ elements_of l | obj l ↦ [] ];
  get_string = text_in;
  to_json_string = text_of;
  new_string = words;
  object_of = λ l. obj (fields_of l);
  array_of = λ l. arr (items_of l);
}

field_in-fields_of :
    (key : String) (v : Option Value) (l : List (String × Option Value))
    → field_in key v (fields_of l) ≡ member key v l
unfolding field_in fields_of member
field_in-fields_of key v [] = refl
field_in-fields_of key v ((k, none) ∷ l) =
    field_in-fields_of key (if str_eq k key then none else v) l
field_in-fields_of key v ((k, some u) ∷ l) =
    field_in-fields_of key (if str_eq k key then some u else v) l

elements_of-items_of : (l : List Value) → elements_of (items_of l) ≡ map some l
unfolding elements_of items_of
elements_of-items_of [] = refl
elements_of-items_of (v ∷ l) = rw (elements_of-items_of l) refl

values_laws : ObjectLaws Value values
values_laws = record {
  object_type = λ l. refl;
  array_type = λ l. refl;
  string_type = λ s. refl;
  members = λ l key. field_in-fields_of key none l;
  elements = elements_of-items_of;
  string_value = λ s. refl;
}

abbrev args : ProviderArgs
args = record { token = none; config = none; pool = 0 }

abbrev Books : Type 0
Books = List (Phonebook (Memory Value))

abbrev empty_memory : Memory Value
empty_memory = record { contexts = []; stdout = [] }

abbrev one_context : Memory Value
one_context = record { contexts = (8, obj end) ∷ []; stdout = [] }

abbrev one_phonebook : Provider (Memory Value) Books × Memory Value
one_phonebook = (
  added (fresh_provider values allocator margo resources 1 42 args [])
      (record { fn = dummy_backend values allocator; ctx = 8; id = id_of 7 }),
  one_context,
)

abbrev directory : Directory
directory = record { token = none; ids = id_of 7 ∷ []; printed = [] }

one_phonebook-Stands : Stands values allocator one_phonebook directory
unfolding knows effective_token holds
one_phonebook-Stands =
    made-Stands values allocator above-ne-null
      (fresh_provider-Stands Books values allocator above-ne-null margo resources 1 42 args []
        empty_memory refl)
      one_context 8 (id_of 7) refl refl refl refl refl

provider_register-provider_get_config_example :
    (written : String) × (q : Provider (Memory Value) Books) × (v : Memory Value) × (ids : List
      PhonebookId)
    × (provider_get_config values unparse (some one_phonebook.0) one_context
        ≡ ok (some written, one_context))
    × (provider_register values allocator margo resources 1 43
          (some (record { token = some "secret"; config = some written; pool = 0 }))
          []
          empty_memory
        ≡ ok (record {
          ret = success;
          provider = some q;
          instance_state = margo.push_finalize_callback (register_rpcs margo [] 43 0).1;
          world = v;
        }))
    × Stands values allocator
        (q, v)
        (record { token = effective_token true (some "secret"); ids = ids; printed = [] })
    × (length ids ≡ 1)
unfolding provider_config phonebook_configs phonebook_config phonebook_at dummy_get_config fields_of
    items_of
provider_register-provider_get_config_example =
    provider_register-provider_get_config values values_laws allocator unparse refl margo resources
      above-ne-null (λ i. refl) id_of-inj (λ i. refl) one_phonebook directory config_value 1 43 0
      (some "secret") [] empty_memory one_phonebook-Stands (omega arith) refl refl refl
      (omega arith) refl refl refl
