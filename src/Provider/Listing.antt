-- ===== src/Provider/Listing.antt =====
-- YP_list_phonebooks_ult (provider.c): the ids in the order in which the phonebooks came.
use Prim.Native.Nat.{suc, min}
use phonebook.Base.{
  ◌>>=◌, zero, suc, ◌∷◌, [], ℕ, ◌<◌, ◌≡◌, refl, true, some, ok, arith, length, map, if◌then◌else◌,
  ltb, List,
}
use phonebook.Base.Words.{u64_mod}
use phonebook.Common.{PhonebookId}
use phonebook.Types.{ListPhonebooksIn}
use phonebook.Uthash.{Uthash}
use phonebook.Uthash.Items.{Phonebook}
use phonebook.Provider.{Provider, check_token}
use phonebook.Provider.Valid.{IsValid, entries}
use phonebook.Provider.Handlers.{
  Call, finish, listed, zero_ids, fill_ids, collect_ids, list_phonebooks_ult,
}

abbrev pub ids_of : {W : Type 0} → List (Phonebook W) → List PhonebookId
ids_of = map (λ b. b.id)

fill_ids_all :
    {W : Type 0} (n : ℕ) (l : List (Phonebook W))
    → n ≡ length l
    → fill_ids (zero_ids n) l ≡ ok (ids_of l)
unfolding fill_ids zero_ids
fill_ids_all zero [] e = refl
fill_ids_all (suc n) [] e = absurd (omega arith)
fill_ids_all zero (r ∷ l) e = absurd (omega arith)
fill_ids_all (suc n) (r ∷ l) e = rw (fill_ids_all n l (omega arith), ◌>>=◌) refl

module _ {W T : Type 0} ⦃H : Uthash W T⦄ where
  -- The array has room for every phonebook, as long as the counter did not wrap.
  pub collect_ids_all :
      (p : Provider W T)
      → IsValid p
      → length (entries p) < u64_mod
      → collect_ids true p.num_phonebooks (entries p) ≡ ok (some (ids_of (entries p)))
  unfolding collect_ids
  collect_ids_all p v small =
      rw (fill_ids_all p.num_phonebooks (entries p) (omega (arith, v.counted))) refl

  -- A well-formed provider with fewer than 2^64 phonebooks answers an accepted list request,
  -- where calloc gives memory, by the ids of all phonebooks, oldest first, with the count that
  -- the requester asked for or the number of the phonebooks, whichever is less; nothing changes.
  pub list_phonebooks_ult-listed :
      (c : Call ListPhonebooksIn) (input : ListPhonebooksIn) (p : Provider W T) (w : W)
      → IsValid p
      → length (entries p) < u64_mod
      → c.input ≡ some input
      → c.calloc_ok ≡ true
      → check_token p input.token ≡ ok true
      → list_phonebooks_ult c p w
        ≡ ok (
            finish
              (listed (min (length (entries p)) input.max_ids) (some (ids_of (entries p))))
              p
              w)
  unfolding list_phonebooks_ult
  list_phonebooks_ult-listed c input p w v small got calloc accepted =
      let counted : p.num_phonebooks ≡ length (entries p) = omega (arith, v.counted) in
      let least : (if ltb (length (entries p)) input.max_ids
            then length (entries p)
            else input.max_ids)
          ≡ min (length (entries p)) input.max_ids =
        ground arith in
      rw (got, accepted, calloc, collect_ids_all p v small, counted, least) refl
