-- ===== src/Admin/Listing.antt =====
-- YP_list_phonebooks of admin.c against the handler of provider.c, over the serialisation of types.h.
use Prim.Native.Nat.{min}
use mathlib.Core.List.{append-nil}
use mathlib.Core.Option
use phonebook.Base.{
  ℕ, ◌*◌, ◌≤◌, ◌<◌, ◌≡◌, refl, true, Option, some, List, [], ok, arith, length, take, take-take,
  length-take, length-map, String,
}
use phonebook.Base.Words.{u64_mod}
use phonebook.Backend.Contract.{All}
use phonebook.Common.{success, to_code, of_code, is_success, PhonebookId}
use phonebook.Exchange.{delivered}
use phonebook.Admin.{Listed, copy_ids, take_listed, cleaned}
use phonebook.Admin
use phonebook.Types.{ListPhonebooksIn, ListPhonebooksOut}
use phonebook.Types.Wire.{ListRecord, Proc, ProcLaws, encode_list, decode_list}
use phonebook.Types.RoundTrip.{IsUuid, decode_list-encode_list}
use phonebook.Uthash.{Uthash}
use phonebook.Provider.{Provider, check_token}
use phonebook.Provider.Valid.{IsValid, entries}
use phonebook.Provider.Handlers.{Call, finish, listed, list_phonebooks_ult}
use phonebook.Provider.Listing.{ids_of, list_phonebooks_ult-listed}

-- The memory of an answer when it is encoded; `garbage` stands in a count that was not assigned.
abbrev pub memory_of : (garbage : ℕ) → ListPhonebooksOut → ListRecord
memory_of garbage out = record {
  ret = to_code out.ret;
  count = Option.get_or out.count garbage;
  ids = out.ids;
}

copy_ids-take :
    (capacity n : ℕ) (ids : List PhonebookId)
    → n ≤ capacity
    → n ≤ length ids
    → copy_ids capacity n (some (take n ids)) ≡ ok (take n ids)
unfolding copy_ids
copy_ids-take capacity n ids h k =
    let size : length (take n ids) ≡ n = omega (arith, length-take n ids) in
    ground (arith, size, take-take n ids)

pub take_listed-take :
    (capacity n : ℕ) (ids : List PhonebookId)
    → n ≤ capacity
    → n ≤ length ids
    → take_listed capacity (record { ret = 0; count = n; ids = some (take n ids) })
      ≡ ok (record {
        ret = success;
        written = some (record { count = n; ids = take n ids });
        cleanup = cleaned;
      })
unfolding take_listed is_success of_code
take_listed-take capacity n ids h k = rw (copy_ids-take capacity n ids h k) refl

module _ {W T : Type 0} ⦃H : Uthash W T⦄ (proc : Proc) (laws : ProcLaws proc) where
  -- YP_list_phonebooks, given an array of `capacity` ids and a token that the provider accepts,
  -- where the provider is well-formed, its ids have 16 bytes, their size in bytes does not wrap
  -- and its calloc gives memory: the answer of the handler is encoded and decoded, and the
  -- function returns YP_SUCCESS, sets the count to the number of phonebooks or to the capacity,
  -- whichever is less, and writes that many ids, the oldest ones, without a fault.
  pub list_phonebooks-ids :
      (garbage capacity : ℕ) (token : Option String) (c : Call ListPhonebooksIn) (p : Provider W T)
      (w : W)
      → IsValid p
      → 16 * length (entries p) < u64_mod
      → All IsUuid (ids_of (entries p))
      → c.input ≡ some (record { token = token; max_ids = capacity })
      → c.calloc_ok ≡ true
      → check_token p token ≡ ok true
      → let n = min (length (entries p)) capacity in
        (out : ListPhonebooksOut) × (bytes : List ℕ) × (answer : ListRecord) × (list_phonebooks_ult
            c p w
          ≡ ok (finish out p w))
        × (encode_list proc (memory_of garbage out) ≡ ok bytes)
        × (decode_list proc true bytes ≡ some (answer, []))
        × (Admin.list_phonebooks capacity (delivered answer)
            ≡ ok (record {
              ret = success;
              written = some (record { count = n; ids = take n (ids_of (entries p)) });
              cleanup = cleaned;
            }))
        × (length (take n (ids_of (entries p))) ≡ n)
  unfolding Admin.list_phonebooks is_success
  list_phonebooks-ids garbage capacity token c p w v small uuids asked calloc accepted =
      let n = min (length (entries p)) capacity in
      let ids = ids_of (entries p) in
      let size : length ids ≡ length (entries p) = length-map (entries p) (λ b. b.id) in
      let (bytes, sent, got) =
        decode_list-encode_list proc laws 0 n ids [] (omega arith) (omega arith)
          (omega (arith, size)) uuids in
      (
        listed n (some ids),
        bytes,
        record { ret = 0; count = n; ids = some (take n ids) },
        list_phonebooks_ult-listed c _ p w v (omega arith) asked calloc accepted,
        unfold to_code in sent,
        rw (append-nil bytes) at got,
        take_listed-take capacity n ids (omega arith) (omega (arith, size)),
        omega (arith, length-take n ids, size),
      )
