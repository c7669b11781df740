-- ===== src/Types/Wire.antt =====
-- src/types.h: the hand-written serialisation of list_phonebooks_out_t. The primitives of Mercury are
-- a parameter, and so are the values of fields that were never assigned.
use phonebook.Base.{
  ℕ, zero, suc, ◌*◌, ◌%◌, ◌^◌, ◌<◌, ◌≡◌, Bool, Option, none, some, List, [], ◌∷◌, ◌++◌, Run, ok,
  fault, ◌>>=◌, length, take, drop, if◌then◌else◌, ltb, ◌==◌, true, false,
}
use phonebook.Base.Words.{u64_mod}
use phonebook.Common.{PhonebookId}

-- list_phonebooks_out_t as it is in memory when it is encoded, or after it was decoded; the codes are
-- 32-bit patterns.
pub record ListRecord : Type 0 where
  pub ret : ℕ
  pub count : ℕ
  pub ids : Option (List PhonebookId)

-- hg_proc_hg_int32_t, hg_proc_hg_size_t and hg_proc_memcpy on a buffer of bytes; a decoder gives the
-- value and the rest of the buffer, or fails.
pub record Proc : Type 0 where
  pub put_int32 : ℕ → List ℕ
  pub get_int32 : List ℕ → Option (ℕ × List ℕ)
  pub put_size : ℕ → List ℕ
  pub get_size : List ℕ → Option (ℕ × List ℕ)
  pub get_bytes : ℕ → List ℕ → Option (List ℕ × List ℕ)

-- What is documented of them: a decoder gives back what was encoded, and to copy more bytes than the
-- buffer holds is an error.
pub record ProcLaws (proc : Proc) : Type 0 where
  pub int32_back :
      (n : ℕ) (rest : List ℕ)
      → n < 2 ^ 32
      → proc.get_int32 (proc.put_int32 n ++ rest) ≡ some (n, rest)
  pub size_back :
      (n : ℕ) (rest : List ℕ)
      → n < u64_mod
      → proc.get_size (proc.put_size n ++ rest) ≡ some (n, rest)
  pub bytes_back :
      (bytes rest : List ℕ) → proc.get_bytes (length bytes) (bytes ++ rest) ≡ some (bytes, rest)
  pub bytes_short : (n : ℕ) (buffer : List ℕ) → length buffer < n → proc.get_bytes n buffer ≡ none

-- The bytes of the first `n` ids of an array; to read beyond the array is a fault.
unfoldable pub id_bytes : (n : ℕ) → List PhonebookId → Run (List ℕ)
id_bytes zero l = ok []
id_bytes (suc n) [] = fault
id_bytes (suc n) (id ∷ l) = do bytes ← id_bytes n l; ok (id.uuid ++ bytes)

-- The array of `n` ids that bytes stand for, 16 to an id.
unfoldable pub ids_from : (n : ℕ) → List ℕ → List PhonebookId
ids_from zero bytes = []
ids_from (suc n) bytes = record { uuid = take 16 bytes } ∷ ids_from n (drop 16 bytes)

-- `sizeof(*(out->ids)) * out->count`, a size_t
abbrev pub ids_size : ℕ → ℕ
ids_size count = (16 * count) % u64_mod

-- `calloc(count, 16)` returns NULL where the size of the array is no size_t, and where `calloc_ok` is
-- false.
abbrev pub array_ok : (calloc_ok : Bool) → (count : ℕ) → Bool
array_ok calloc_ok count = if ltb (16 * count) u64_mod then calloc_ok else false

-- Where calloc has memory: whether an array of `count` ids has bytes that are read from the wire.
abbrev pub has_bytes : ℕ → Bool
has_bytes count = if ltb (16 * count) u64_mod then (if count == 0 then false else true) else false

module _ (proc : Proc) where
  -- hg_proc_list_phonebooks_out_t with HG_ENCODE
  unfoldable pub encode_list : ListRecord → Run (List ℕ)
  unfolding id_bytes
  encode_list out = elim out.ids [
    | none ↦ ok (proc.put_int32 out.ret ++ proc.put_size out.count)
    | some ids ↦ do
      bytes ← id_bytes out.count ids
      ok (proc.put_int32 out.ret ++ (proc.put_size out.count ++ bytes))
  ]

  -- hg_proc_list_phonebooks_out_t with HG_DECODE; `calloc_ok` is false where calloc has no memory.
  -- The result is `none` where a primitive fails.
  unfoldable pub decode_list : (calloc_ok : Bool) → List ℕ → Option (ListRecord × List ℕ)
  unfolding ids_from
  decode_list calloc_ok buffer = elim (proc.get_int32 buffer) [
    | none ↦ none
    | some (ret, buffer1) ↦ elim (proc.get_size buffer1) [
      | none ↦ none
      | some (count, buffer2) ↦
          if array_ok calloc_ok count
          then elim (proc.get_bytes (ids_size count) buffer2) [
            | none ↦ none
            | some (bytes, rest) ↦
                some (record { ret = ret; count = count; ids = some (ids_from count bytes) }, rest)
          ]
          else some (record { ret = ret; count = count; ids = none }, buffer2)
    ]
  ]
