-- ===== src/Types/Messages.antt =====
-- src/types.h: the serialisations that MERCURY_GEN_PROC makes for the RPC types, field by field, and
-- hg_proc_YP_phonebook_id_t. The primitives of Mercury are parameters.
use phonebook.Base.{subst, ◌^◌, ℕ, ◌<◌, ◌^◌, ◌≡◌, refl, Option, some, String, List, ◌++◌, length}
use phonebook.Base.Words.{u64_mod}
use phonebook.Common.{Return, PhonebookId, to_code, of_code, of_code-to_code, to_code-lt}
use phonebook.Types.{CreatePhonebookIn, ClosePhonebookIn, ListPhonebooksIn, HelloIn, SumIn}
use phonebook.Types.Wire.{Proc, ProcLaws}
use phonebook.Types.RoundTrip.{IsUuid}
use phonebook.Types.Codec.{
  Sound, sound_fields, sound_struct, Codec, Back, fields, struct, Sound, sound_fields, sound_struct,
  read_as, read_as-some,
}

-- hg_proc_hg_string_t; a string may be NULL.
pub record ProcStrings : Type 0 where
  pub string : Codec (Option String)
  pub string_back : (s : Option String) → Back string s

-- create_phonebook_out_t and open_phonebook_out_t, and sum_out_t, as they travel: a field that a
-- handler did not assign has some value.
pub record CreateRecord : Type 0 where
  pub ret : Return
  pub id : PhonebookId

pub record SumRecord : Type 0 where
  pub result : ℕ
  pub ret : Return

-- What the RPCs that answer carry, but for list_phonebooks_out_t: create and open have the same types,
-- and so have close and destroy.
pub data Message : Type 0 where
  create_in : CreatePhonebookIn → Message
  create_out : CreateRecord → Message
  close_in : ClosePhonebookIn → Message
  close_out : Return → Message
  list_in : ListPhonebooksIn → Message
  hello_in : HelloIn → Message
  sum_in : SumIn → Message
  sum_out : SumRecord → Message

-- The serialisation that an RPC is registered with.
pub data Kind : Type 0 where
  create_in_kind create_out_kind close_in_kind close_out_kind list_in_kind hello_in_kind sum_in_kind
        sum_out_kind :
      Kind

abbrev pub kind_of : Message → Kind
kind_of (create_in m) = create_in_kind
kind_of (create_out m) = create_out_kind
kind_of (close_in m) = close_in_kind
kind_of (close_out m) = close_out_kind
kind_of (list_in m) = list_in_kind
kind_of (hello_in m) = hello_in_kind
kind_of (sum_in m) = sum_in_kind
kind_of (sum_out m) = sum_out_kind

-- The values that the C types can hold.
abbrev pub IsHeld : Message → Type 0
IsHeld (create_in m) = Unit {0}
IsHeld (create_out m) = IsUuid m.id
IsHeld (close_in m) = IsUuid m.id
IsHeld (close_out m) = Unit {0}
IsHeld (list_in m) = m.max_ids < u64_mod
IsHeld (hello_in m) = IsUuid m.phonebook_id
IsHeld (sum_in m) = IsUuid m.phonebook_id × (m.x < 2 ^ 32) × (m.y < 2 ^ 32)
IsHeld (sum_out m) = m.result < 2 ^ 32

module _ (proc : Proc) where
  abbrev pub int32 : Codec ℕ
  int32 = record { put = proc.put_int32; get = proc.get_int32 }

  abbrev pub size : Codec ℕ
  size = record { put = proc.put_size; get = proc.get_size }

  -- A code travels as an int32_t.
  abbrev pub code : Codec Return
  code = struct int32 of_code to_code

  abbrev bytes_16 : Codec (List ℕ)
  bytes_16 = record { put = λ bytes. bytes; get = proc.get_bytes 16 }

  -- hg_proc_YP_phonebook_id_t
  abbrev pub phonebook_id : Codec PhonebookId
  phonebook_id = struct bytes_16 (λ bytes. record { uuid = bytes }) (λ id. id.uuid)

module _ (proc : Proc) (strings : ProcStrings) where
  abbrev pub create_in_proc : Codec CreatePhonebookIn
  create_in_proc =
      struct (fields strings.string (fields strings.string strings.string))
        (λ f. record { type = f.0; config = f.1.0; token = f.1.1 })
        (λ m. (m.type, (m.config, m.token)))

  abbrev pub create_out_proc : Codec CreateRecord
  create_out_proc =
      struct (fields (code proc) (phonebook_id proc)) (λ f. record { ret = f.0; id = f.1 })
        (λ m. (m.ret, m.id))

  abbrev pub close_in_proc : Codec ClosePhonebookIn
  close_in_proc =
      struct (fields strings.string (phonebook_id proc)) (λ f. record { token = f.0; id = f.1 })
        (λ m. (m.token, m.id))

  abbrev pub list_in_proc : Codec ListPhonebooksIn
  list_in_proc =
      struct (fields strings.string (size proc)) (λ f. record { token = f.0; max_ids = f.1 })
        (λ m. (m.token, m.max_ids))

  abbrev pub hello_in_proc : Codec HelloIn
  hello_in_proc =
      struct (phonebook_id proc) (λ id. record { phonebook_id = id }) (λ m. m.phonebook_id)

  abbrev pub sum_in_proc : Codec SumIn
  sum_in_proc =
      struct (fields (phonebook_id proc) (fields (int32 proc) (int32 proc)))
        (λ f. record { phonebook_id = f.0; x = f.1.0; y = f.1.1 })
        (λ m. (m.phonebook_id, (m.x, m.y)))

  abbrev pub sum_out_proc : Codec SumRecord
  sum_out_proc =
      struct (fields (int32 proc) (code proc)) (λ f. record { result = f.0; ret = f.1 })
        (λ m. (m.result, m.ret))

  unfoldable pub encode : Message → List ℕ
  encode (create_in m) = create_in_proc.put m
  encode (create_out m) = create_out_proc.put m
  encode (close_in m) = close_in_proc.put m
  encode (close_out ret) = (code proc).put ret
  encode (list_in m) = list_in_proc.put m
  encode (hello_in m) = hello_in_proc.put m
  encode (sum_in m) = sum_in_proc.put m
  encode (sum_out m) = sum_out_proc.put m

  unfoldable pub decode : Kind → List ℕ → Option (Message × List ℕ)
  unfolding read_as
  decode create_in_kind = read_as create_in_proc create_in
  decode create_out_kind = read_as create_out_proc create_out
  decode close_in_kind = read_as close_in_proc close_in
  decode close_out_kind = read_as (code proc) close_out
  decode list_in_kind = read_as list_in_proc list_in
  decode hello_in_kind = read_as hello_in_proc hello_in
  decode sum_in_kind = read_as sum_in_proc sum_in
  decode sum_out_kind = read_as sum_out_proc sum_out

module _ (proc : Proc) (laws : ProcLaws proc) (strings : ProcStrings) where
  abbrev pub text : Sound (Option String)
  text = record {
    codec = strings.string;
    Held = λ s. Unit {0};
    back = λ s h. strings.string_back s;
  }

  abbrev pub number : Sound ℕ
  number = record {
    codec = int32 proc;
    Held = λ n. n < 2 ^ 32;
    back = λ n h rest. laws.int32_back n rest h;
  }

  abbrev pub amount : Sound ℕ
  amount = record {
    codec = size proc;
    Held = λ n. n < u64_mod;
    back = λ n h rest. laws.size_back n rest h;
  }

  abbrev pub bytes : Sound (List ℕ)
  bytes = record {
    codec = bytes_16 proc;
    Held = λ l. length l ≡ 16;
    back = λ l h rest.
        subst (λ n. proc.get_bytes n (l ++ rest) ≡ some (l, rest)) h (laws.bytes_back l rest);
  }

  abbrev pub sound_code : Sound Return
  sound_code = sound_struct number of_code to_code of_code-to_code

  abbrev pub sound_id : Sound PhonebookId
  sound_id = sound_struct bytes (λ l. record { uuid = l }) (λ id. id.uuid) (λ id. refl)

  abbrev pub sound_create_in : Sound CreatePhonebookIn
  sound_create_in =
      sound_struct (sound_fields text (sound_fields text text))
        (λ f. record { type = f.0; config = f.1.0; token = f.1.1 })
        (λ m. (m.type, (m.config, m.token))) (λ m. refl)

  abbrev pub sound_create_out : Sound CreateRecord
  sound_create_out =
      sound_struct (sound_fields sound_code sound_id) (λ f. record { ret = f.0; id = f.1 })
        (λ m. (m.ret, m.id)) (λ m. refl)

  abbrev pub sound_close_in : Sound ClosePhonebookIn
  sound_close_in =
      sound_struct (sound_fields text sound_id) (λ f. record { token = f.0; id = f.1 })
        (λ m. (m.token, m.id)) (λ m. refl)

  abbrev pub sound_list_in : Sound ListPhonebooksIn
  sound_list_in =
      sound_struct (sound_fields text amount) (λ f. record { token = f.0; max_ids = f.1 })
        (λ m. (m.token, m.max_ids)) (λ m. refl)

  abbrev pub sound_hello_in : Sound HelloIn
  sound_hello_in =
      sound_struct (sound_id) (λ id. record { phonebook_id = id }) (λ m. m.phonebook_id) (λ m. refl)

  abbrev pub sound_sum_in : Sound SumIn
  sound_sum_in =
      sound_struct (sound_fields sound_id (sound_fields number number))
        (λ f. record { phonebook_id = f.0; x = f.1.0; y = f.1.1 })
        (λ m. (m.phonebook_id, (m.x, m.y))) (λ m. refl)

  abbrev pub sound_sum_out : Sound SumRecord
  sound_sum_out =
      sound_struct (sound_fields number sound_code) (λ f. record { result = f.0; ret = f.1 })
        (λ m. (m.result, m.ret)) (λ m. refl)

  -- Every message whose serialisation MERCURY_GEN_PROC makes, that is all but the answer to a list
  -- request, is read back as it was sent, with what follows it left in the buffer, where its numbers and
  -- ids are values of their C types and its code is one of YP_return_t.
  pub decode-encode :
      (m : Message) (rest : List ℕ)
      → IsHeld m
      → decode proc strings (kind_of m) (encode proc strings m ++ rest) ≡ some (m, rest)
  unfolding decode encode
  decode-encode (create_in m) rest h =
      read_as-some (create_in_proc proc strings) create_in m rest
        (sound_create_in.back m (tt, (tt, tt)))
  decode-encode (create_out m) rest h =
      read_as-some (create_out_proc proc strings) create_out m rest
        (sound_create_out.back m (to_code-lt m.ret, h))
  decode-encode (close_in m) rest h =
      read_as-some (close_in_proc proc strings) close_in m rest (sound_close_in.back m (tt, h))
  decode-encode (list_in m) rest h =
      read_as-some (list_in_proc proc strings) list_in m rest (sound_list_in.back m (tt, h))
  decode-encode (hello_in m) rest h =
      read_as-some (hello_in_proc proc strings) hello_in m rest (sound_hello_in.back m h)
  decode-encode (sum_in m) rest h =
      read_as-some (sum_in_proc proc strings) sum_in m rest (sound_sum_in.back m (h.0, (h.1, h.2)))
  decode-encode (sum_out m) rest h =
      read_as-some (sum_out_proc proc strings) sum_out m rest
        (sound_sum_out.back m (h, to_code-lt m.ret))
  decode-encode (close_out r) rest h =
      read_as-some (code proc) close_out r rest (sound_code.back r (to_code-lt r))
