-- ===== src/Tests/Libraries.antt =====
-- Concrete stand-ins for uthash, json-c, calloc, margo and the primitives of Mercury.
use text.Mathlib.Text.{◌==◌ as str_eq}
use text.Mathlib.TextPositions.{eq_refl}
use text.Mathlib.TextEquality.{eq_iff}
use phonebook.Base.{
  Bool, length-append, ℕ, ◌+◌, ◌<◌, ◌≡◌, ◌≢◌, refl, true, false, Option, none, some, List, [], ◌∷◌,
  ◌++◌, arith, length, ◌==◌, if◌then◌else◌, ◌&&◌, String, take, drop, leb,
}
use phonebook.Backend.{Ptr, null}
use phonebook.Backend.Contract.{holds}
use phonebook.Backend.Dummy.{Allocator}
use phonebook.Json.{Json, NullLaws}
use phonebook.Margo.{forget, MargoNames, NamesLaws, Margo, MargoLaws}
use phonebook.Types.Wire.{Proc, ProcLaws}
use phonebook.Types.RoundTrip.{take-append, drop-append}
use phonebook.Uthash.{Uthash}
use phonebook.Uthash.Items.{Phonebook, lookup, remove}

-- A hash as the list of its entries.
instance abbrev pub list_hash : {W : Type 0} → Uthash W (List (Phonebook W))
list_hash = record {
  empty = [];
  find = λ t k. lookup k t;
  add = λ t p. t ++ p ∷ [];
  del = λ t p. remove p.id t;
  items = λ t. t;
  items-empty = refl;
  find-items = λ t k d. refl;
  items-add = λ t p d e. refl;
  items-del = λ t p d e. refl;
}

-- Values of a configuration: 0 is {}, 1 has two phonebooks, 2 is the array of them, 3 and 4 are the
-- phonebooks, of which 4 has no "config", and 5 is the text "dummy".
abbrev pub get_member : ℕ → String → Option ℕ
get_member j key =
    if (j == 1) && str_eq key "phonebooks"
    then some 2
    else if (j == 3) && str_eq key "type"
    then some 5
    else if (j == 3) && str_eq key "config"
    then some 0
    else if (j == 4) && str_eq key "type"
    then some 5
    else none

abbrev pub text_of : Option ℕ → String
text_of none = "null"
text_of (some j) = if j == 0 then "{}" else "conf"

abbrev pub json : Json ℕ
json = record {
  parse = λ s. if str_eq s "{}" then some 0 else if str_eq s "conf" then some 1 else none;
  new_object = 0;
  is_object = λ j. if j == 2 then false else if j == 5 then false else true;
  is_array = λ j. j == 2;
  is_string = λ j. j == 5;
  object_get = get_member;
  array_elements = λ j. some 3 ∷ some 4 ∷ none ∷ [];
  get_string = λ j. "dummy";
  to_json_string = text_of;
  new_string = λ s. 5;
  object_of = λ l. 0;
  array_of = λ l. 2;
}

abbrev pub null_laws : NullLaws ℕ json
null_laws = record { null_text = refl; null_parse = refl }

abbrev pub above : List Ptr → Ptr
above [] = 1
above (a ∷ l) = a + above l

pub holds-above :
    (b : Ptr) (l : List Ptr) → above l + b ≢ null → (c : Ptr) → c ≡ above l + b → holds c l ≡ false
unfolding holds
holds-above b [] h c e = refl
holds-above b (a ∷ l) h c e = ground (
  arith,
  above-pos l,
  holds-above (a + b) l (λ z. absurd (omega (arith, above-pos l, z))) c (omega (arith, e)),
)
  where
    above-pos : (m : List Ptr) → 0 < above m
    above-pos [] = omega arith
    above-pos (x ∷ m) = omega (arith, above-pos m)

pub above-ne-null : (l : List Ptr) → above l ≢ null
above-ne-null [] e = omega arith
above-ne-null (a ∷ l) e = above-ne-null l (omega arith)

-- An allocator that takes an address above all that are in use.
abbrev pub allocator : Allocator
allocator = record {
  calloc = above;
  fresh =
      λ used. holds-above 0 used (λ e. above-ne-null used (omega arith)) (above used) (omega arith);
}

-- A margo instance as the list of the names that were registered, the newest first, each with whether
-- it still is, in listening mode; an id is the place of a name.
abbrev pub Names : Type 0
Names = List ((String × ℕ) × Bool)

abbrev pub registered : Names → String → ℕ → Option ℕ
registered [] name provider_id = none
registered (((s, n), alive) ∷ l) name provider_id =
    if str_eq s name && (n == provider_id)
    then (if alive then some (length l) else none)
    else registered l name provider_id

abbrev pub deregistered : Names → ℕ → Names
deregistered [] id = []
deregistered ((entry, alive) ∷ l) id =
    (entry, (if length l == id then false else alive)) ∷ deregistered l id

abbrev pub margo : Margo Names
margo = record {
  is_listening = λ m. true;
  provider_registered_name = registered;
  register_provider = λ m name provider_id pool. (length m, ((name, provider_id), true) ∷ m);
  register_data = λ m id. m;
  disable_response = λ m id. m;
  deregister = deregistered;
  push_finalize_callback = λ m. m;
  pop_finalize_callback = λ m. m;
}

pub registered-head :
    (m : Names) (name : String) (provider_id : ℕ)
    → registered (((name, provider_id), true) ∷ m) name provider_id ≡ some (length m)
registered-head m name provider_id = ground (arith, eq_refl name)

length-deregistered : (m : Names) (id : ℕ) → length (deregistered m id) ≡ length m
length-deregistered [] id = refl
length-deregistered ((e, alive) ∷ l) id = omega (arith, length-deregistered l id)

pub registered-deregistered :
    (m : Names) (id : ℕ) (name : String) (provider_id : ℕ)
    → registered (deregistered m id) name provider_id ≡ forget id (registered m name provider_id)
registered-deregistered [] id name provider_id = refl
registered-deregistered (((s, n), alive) ∷ l) id name provider_id =
    ground (arith, length-deregistered l id, registered-deregistered l id name provider_id)

abbrev pub margo_laws : MargoLaws Names margo
margo_laws = record {
  register_self = λ m name provider_id pool. registered-head m name provider_id;
  register_other = λ m name other provider_id pool h. rw h refl;
  deregister_names = registered-deregistered;
  response_names = λ m id name provider_id. refl;
  pop_names = λ m name provider_id. refl;
  data_names = λ m id name provider_id. refl;
  callback_names = λ m name provider_id. refl;
  register_listening = λ m name provider_id pool. refl;
  data_listening = λ m id. refl;
  response_listening = λ m id. refl;
  callback_listening = λ m. refl;
}

-- A wire on which a number is one byte of unlimited size.
abbrev pub head_of : List ℕ → Option (ℕ × List ℕ)
head_of [] = none
head_of (n ∷ l) = some (n, l)

abbrev pub split_at : ℕ → List ℕ → Option (List ℕ × List ℕ)
split_at n l = if leb n (length l) then some (take n l, drop n l) else none

abbrev pub proc : Proc
proc = record {
  put_int32 = λ n. n ∷ [];
  get_int32 = head_of;
  put_size = λ n. n ∷ [];
  get_size = head_of;
  get_bytes = split_at;
}

pub split_at-append :
    (bytes rest : List ℕ) → split_at (length bytes) (bytes ++ rest) ≡ some (bytes, rest)
split_at-append bytes rest =
    let enough : leb (length bytes) (length (bytes ++ rest)) ≡ true =
      ground (arith, length-append bytes rest) in
    rw
      (
        enough,
        take-append (length bytes) bytes rest refl,
        drop-append (length bytes) bytes rest refl,
      )
      refl

pub split_at_short : (n : ℕ) (buffer : List ℕ) → length buffer < n → split_at n buffer ≡ none
split_at_short n buffer h = ground arith

abbrev pub proc_laws : ProcLaws proc
proc_laws = record {
  int32_back = λ n rest h. refl;
  size_back = λ n rest h. refl;
  bytes_back = split_at-append;
  bytes_short = split_at_short;
}

-- The names of an instance that has no provider.
abbrev pub named : List String → String → Option ℕ
named [] name = none
named (s ∷ l) name = if str_eq s name then some (length l) else named l name

abbrev pub names : MargoNames (List String)
names = record {
  registered_name = named;
  register = λ m name. (length m, name ∷ m);
  disable_response = λ m id. m;
}

pub named-head : (m : List String) (name : String) → named (name ∷ m) name ≡ some (length m)
named-head m name = ground (arith, eq_refl name)

pub named-tail :
    (m : List String) (name other : String) → name ≢ other → named (name ∷ m) other ≡ named m other
named-tail m name other h = ground (arith, eq_iff name other)

abbrev pub names_laws : NamesLaws (List String) names
names_laws = record {
  register_self = named-head;
  register_other = named-tail;
  response_names = λ m id name. refl;
}
