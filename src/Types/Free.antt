-- ===== src/Types/Free.antt =====
-- src/types.h: hg_proc_list_phonebooks_out_t with the array of ids at its address, from HG_DECODE, which
-- allocates it, to HG_FREE.
use phonebook.Base.{
  ℕ, ◌≡◌, true, false, Option, none, some, List, ◌∷◌, Run, ok, fault, arith, ◌==◌, if◌then◌else◌,
}
use phonebook.Common.{PhonebookId}
use phonebook.Backend.{Ptr, null}
use phonebook.Client.Heap.{find, drop_key}
use phonebook.Types.Wire.{Proc, ListRecord, ids_size, array_ok, ids_from, decode_list}

-- The arrays of ids that are allocated.
abbrev pub Arrays : Type 0
Arrays = List (Ptr × List PhonebookId)

-- list_phonebooks_out_t with its pointer; 0 is NULL.
pub record ListAt : Type 0 where
  pub ret : ℕ
  pub count : ℕ
  pub ids : Ptr

-- The record that a pointer makes of its array.
abbrev pub held_at : Arrays → ListAt → ListRecord
held_at arrays out = record { ret = out.ret; count = out.count; ids = find out.ids arrays }

module _ (proc : Proc) where
  -- With HG_DECODE; `ptr` is what calloc returns where the size of the array is a size_t, `zeros` what the new array holds. The result is
  -- `none` where a primitive fails.
  unfoldable pub decode_list_at :
      (ptr : Ptr) (zeros : List PhonebookId) → List ℕ → Arrays → Option (ListAt × List ℕ) × Arrays
  decode_list_at ptr zeros buffer arrays = elim (proc.get_int32 buffer) [
    | none ↦ (none, arrays)
    | some (ret, buffer1) ↦ elim (proc.get_size buffer1) [
      | none ↦ (none, arrays)
      | some (count, buffer2) ↦
          if array_ok (if ptr == null then false else true) count
          then elim (proc.get_bytes (ids_size count) buffer2) [
            | none ↦ (none, (ptr, zeros) ∷ arrays)
            | some (bytes, rest) ↦ (
              some (record { ret = ret; count = count; ids = ptr }, rest),
              (ptr, ids_from count bytes) ∷ arrays,
            )
          ]
          else (some (record { ret = ret; count = count; ids = null }, buffer2), arrays)
    ]
  ]

-- With HG_FREE, where the primitives do nothing; free(NULL) does nothing, and to free an address that
-- is not allocated is a fault.
unfoldable pub free_list : ListAt → Arrays → Run Arrays
free_list out arrays =
    if out.ids == null
    then ok arrays
    else elim (find out.ids arrays) [ none ↦ fault | some ids ↦ ok (drop_key out.ids arrays) ]

module _ (proc : Proc) where
  -- A list answer that is decoded, with or without memory for its ids
  -- and where NULL is no array: what the pointer holds is what decode_list gives, the same bytes are left, and HG_FREE
  -- leaves the arrays that were allocated before.
  pub free_list-decode_list_at :
      (ptr : Ptr) (zeros : List PhonebookId) (buffer rest : List ℕ) (arrays : Arrays) {out : ListAt}
      {arrays' : Arrays}
      → find null arrays ≡ none
      → decode_list_at proc ptr zeros buffer arrays ≡ (some (out, rest), arrays')
      → (decode_list proc (if ptr == null then false else true) buffer
          ≡ some (held_at arrays' out, rest))
        × (free_list out arrays' ≡ ok arrays)
  unfolding decode_list_at decode_list free_list find drop_key
  free_list-decode_list_at ptr zeros buffer rest arrays no_null e = (ground arith, ground arith)
