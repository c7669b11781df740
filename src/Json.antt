-- ===== src/Json.antt =====
-- What provider.c and dummy-backend.c use of json-c. A `struct json_object*` is `Option J`: NULL, which
-- is also the JSON null, is `none`.
use text.Mathlib.Text.{◌==◌ as str_eq}
use phonebook.Base.{Bool, true, Option, none, some, String, List, [], ◌∷◌, ◌≡◌, map, if◌then◌else◌}

pub record Json (J : Type 0) : Type 0 where
  -- json_tokener_parse_ex on a whole string, and json_tokener_parse
  pub parse : String → Option J
  -- json_object_new_object
  pub new_object : J
  -- json_object_is_type with json_type_object, json_type_array and json_type_string
  pub is_object : J → Bool
  pub is_array : J → Bool
  pub is_string : J → Bool
  -- json_object_object_get
  pub object_get : J → String → Option J
  -- json_object_array_length and json_object_array_get_idx, as the list of the elements
  pub array_elements : J → List (Option J)
  -- json_object_get_string
  pub get_string : J → String
  -- json_object_to_json_string
  pub to_json_string : Option J → String
  -- json_object_new_string
  pub new_string : String → J
  -- an object with the members that json_object_object_add adds, and an array of elements
  pub object_of : List (String × Option J) → J
  pub array_of : List J → J

-- The documented treatment of NULL: it is written as null, and null is read as NULL.
pub record NullLaws (J : Type 0) (json : Json J) : Type 0 where
  pub null_text : json.to_json_string none ≡ "null"
  pub null_parse : json.parse "null" ≡ none

-- What stands under `key` after members were added one after another to an object that had `v` there; a
-- later member replaces an earlier one.
unfoldable pub member : {J : Type 0} → String → Option J → List (String × Option J) → Option J
member key v [] = v
member key v ((k, u) ∷ l) = member key (if str_eq k key then u else v) l

-- The documented behaviour of objects, arrays and strings that are made by calls of json-c.
pub record ObjectLaws (J : Type 0) (json : Json J) : Type 0 where
  pub object_type : (l : List (String × Option J)) → json.is_object (json.object_of l) ≡ true
  pub array_type : (l : List J) → json.is_array (json.array_of l) ≡ true
  pub string_type : (s : String) → json.is_string (json.new_string s) ≡ true
  pub members :
      (l : List (String × Option J)) (key : String)
      → json.object_get (json.object_of l) key ≡ member key none l
  pub elements : (l : List J) → json.array_elements (json.array_of l) ≡ map some l
  pub string_value : (s : String) → json.get_string (json.new_string s) ≡ s
