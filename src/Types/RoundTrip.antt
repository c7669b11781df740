-- ===== src/Types/RoundTrip.antt =====
-- The answer to a list request (types.h) on both ends of the wire.
use phonebook.Base.{
  ℕ, zero, suc, ◌*◌, ◌^◌, ◌≤◌, ◌<◌, ◌≡◌, refl, sym, ap, true, none, some, List, [], ◌∷◌, ◌++◌, ok,
  arith, length, take, drop, length-append, Bool-cases, inl, inr, Option, false,
}
use mathlib.Core.List.{append_assoc, append-nil}
use phonebook.Base.Words.{u64_mod}
use phonebook.Backend.Contract.{All}
use phonebook.Common.{PhonebookId}
use phonebook.Types.Wire.{
  Proc, ProcLaws, id_bytes, ids_from, ids_size, array_ok, has_bytes, encode_list, decode_list,
}

-- A uuid_t has 16 bytes.
abbrev pub IsUuid : PhonebookId → Type 0
IsUuid id = length id.uuid ≡ 16

pub take-append : (n : ℕ) (a b : List ℕ) → length a ≡ n → take n (a ++ b) ≡ a
take-append zero [] b h = refl
take-append zero (x ∷ a) b h = absurd (omega arith)
take-append (suc n) [] b h = absurd (omega arith)
take-append (suc n) (x ∷ a) b h = ap (◌∷◌ x) (take-append n a b (omega arith))

pub drop-append : (n : ℕ) (a b : List ℕ) → length a ≡ n → drop n (a ++ b) ≡ b
drop-append zero [] b h = refl
drop-append zero (x ∷ a) b h = absurd (omega arith)
drop-append (suc n) [] b h = absurd (omega arith)
drop-append (suc n) (x ∷ a) b h = drop-append n a b (omega arith)

id_bytes-ids_from :
    (n : ℕ) (l : List PhonebookId)
    → n ≤ length l
    → All IsUuid l
    → (bytes : List ℕ) × (id_bytes n l ≡ ok bytes)
      × (length bytes ≡ 16 * n)
      × (ids_from n bytes ≡ take n l)
unfolding id_bytes ids_from
id_bytes-ids_from zero l h u = ([], refl, refl, refl)
id_bytes-ids_from (suc n) [] h u = absurd (omega arith)
id_bytes-ids_from (suc n) (id ∷ l) h u =
    let (bytes, run, size, back) = id_bytes-ids_from n l (omega arith) u.1 in
    (
      id.uuid ++ bytes,
      rw run refl,
      omega (arith, length-append id.uuid bytes, u.0, size),
      rw (take-append 16 id.uuid bytes u.0, drop-append 16 id.uuid bytes u.0, back) refl,
    )

module _ (proc : Proc) (laws : ProcLaws proc) where
  -- An answer whose code fits 32 bits, whose count is within its array of 16-byte ids and small
  -- enough for its size in bytes not to wrap, is decoded to the same code, the same count and the
  -- first `count` ids.
  pub decode_list-encode_list :
      (ret count : ℕ) (ids : List PhonebookId) (rest : List ℕ)
      → ret < 2 ^ 32
      → 16 * count < u64_mod
      → count ≤ length ids
      → All IsUuid ids
      → (bytes : List ℕ) × (encode_list proc (record { ret = ret; count = count; ids = some ids })
          ≡ ok bytes)
        × (decode_list proc true (bytes ++ rest)
            ≡ some (record { ret = ret; count = count; ids = some (take count ids) }, rest))
  unfolding encode_list decode_list
  decode_list-encode_list ret count ids rest small fits within uuids =
      let (bytes, run, size, back) = id_bytes-ids_from count ids within uuids in
      let n : ids_size count ≡ length bytes = omega (arith, size) in
      let set : array_ok true count ≡ true = ground (arith, fits) in
      (
        proc.put_int32 ret ++ (proc.put_size count ++ bytes),
        rw run refl,
        rw
            (
              append_assoc,
              decode_list,
              laws.int32_back ret _ small,
              append_assoc,
              laws.size_back count _ (omega arith),
              set,
              n,
              laws.bytes_back bytes rest,
              back,
            )
            refl,
      )

  -- An error answer has no array and a count that was never assigned. If that count is not 0, its
  -- array of ids has a size that is a size_t, and the client's calloc has memory for it, the
  -- answer is encoded, and the client fails to decode it.
  pub decode_list_unassigned :
      (ret garbage : ℕ)
      → ret < 2 ^ 32
      → 0 < garbage
      → 16 * garbage < u64_mod
      → (bytes : List ℕ) × (encode_list proc (record { ret = ret; count = garbage; ids = none })
          ≡ ok bytes)
        × (decode_list proc true bytes ≡ none)
  unfolding encode_list decode_list
  decode_list_unassigned ret garbage small positive fits =
      let set : array_ok true garbage ≡ true = ground (arith, fits) in
      (
        proc.put_int32 ret ++ proc.put_size garbage,
        refl,
        rw
            (
              decode_list,
              laws.int32_back ret _ small,
              sym (append-nil (proc.put_size garbage)),
              laws.size_back garbage [] (omega (arith, fits)),
              set,
              laws.bytes_short (ids_size garbage) [] (omega (arith, fits, positive)),
            )
            refl,
      )

  -- An error answer, with no ids, whose count was not assigned is decoded to its code where that count
  -- stands for no bytes, or for so many that calloc returns NULL.
  pub decode_list_no_bytes :
      (ret garbage : ℕ)
      → ret < 2 ^ 32
      → garbage < u64_mod
      → has_bytes garbage ≡ false
      → (bytes : List ℕ) × (ids : Option (List PhonebookId)) × (encode_list proc
            (record { ret = ret; count = garbage; ids = none })
          ≡ ok bytes)
        × (decode_list proc true bytes
            ≡ some (record { ret = ret; count = garbage; ids = ids }, []))
  unfolding encode_list decode_list
  decode_list_no_bytes ret garbage small word empty = elim (Bool-cases (array_ok true garbage)) [
    | inl e ↦
        let none_read : ids_size garbage ≡ 0 = ground (arith, empty, e) in
        let read : proc.get_bytes (ids_size garbage) [] ≡ some ([], []) =
          rw none_read (laws.bytes_back [] []) in
        (
          proc.put_int32 ret ++ proc.put_size garbage,
          some (ids_from garbage []),
          refl,
          rw
              (
                decode_list,
                laws.int32_back ret _ small,
                sym (append-nil (proc.put_size garbage)),
                laws.size_back garbage [] word,
                e,
                read,
              )
              refl,
        )
    | inr e ↦ (
      proc.put_int32 ret ++ proc.put_size garbage,
      none,
      refl,
      rw
          (
            decode_list,
            laws.int32_back ret _ small,
            sym (append-nil (proc.put_size garbage)),
            laws.size_back garbage [] word,
            e,
          )
          refl,
    )
  ]
