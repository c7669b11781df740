-- ===== src/Provider/Valid.antt =====
-- The well-formedness of a provider (provider.c), and what the functions on its hash of phonebooks
-- do to the list of its entries.
use phonebook.Base.{
  ◌%◌, ◌≡◌, refl, ◌∙◌, Bool, none, some, List, [], ◌∷◌, ◌++◌, ok, ◌>>=◌, arith, length,
  length-append,
}
use phonebook.Base.Words.{u64_mod, incr64, decr64, incr64-mod, decr64-mod}
use phonebook.Common.{success, err_invalid_phonebook, PhonebookId}
use phonebook.Uthash.{Uthash}
use phonebook.Uthash.Items.{
  Phonebook, lookup, remove, Distinct, Distinct-append_new, Distinct-remove, length-remove,
}
use phonebook.Provider.{Provider, find_phonebook, add_phonebook, close_if, remove_phonebook}

module _ {W T : Type 0} ⦃H : Uthash W T⦄ where
  -- The phonebooks of a provider, oldest first.
  abbrev pub entries : Provider W T → List (Phonebook W)
  entries p = H.items p.phonebooks

  -- The ids are distinct, and the two counters count.
  pub record IsValid (p : Provider W T) : Type 0 where
    pub distinct : Distinct (entries p)
    pub counted : p.num_phonebooks ≡ length (entries p) % u64_mod
    pub types_counted : p.num_backend_types ≡ length p.backend_types

  pub find_phonebook-lookup :
      (p : Provider W T) (k : PhonebookId) → IsValid p → find_phonebook p k ≡ lookup k (entries p)
  unfolding find_phonebook
  find_phonebook-lookup p k v = H.find-items p.phonebooks k v.distinct

  -- What add_phonebook makes of a new id.
  abbrev pub added : Provider W T → Phonebook W → Provider W T
  added p b = record p {
    phonebooks = H.add p.phonebooks b;
    num_phonebooks = incr64 p.num_phonebooks;
  }

  pub add_phonebook_new :
      (p : Provider W T) (b : Phonebook W)
      → IsValid p
      → lookup b.id (entries p) ≡ none
      → add_phonebook p b ≡ (success, added p b)
  unfolding add_phonebook
  add_phonebook_new p b v h = rw (find_phonebook-lookup p b.id v ∙ h, add_phonebook) refl

  pub add_phonebook_old :
      (p : Provider W T) (b existing : Phonebook W)
      → IsValid p
      → lookup b.id (entries p) ≡ some existing
      → add_phonebook p b ≡ (err_invalid_phonebook, p)
  unfolding add_phonebook
  add_phonebook_old p b e v h = rw (find_phonebook-lookup p b.id v ∙ h, add_phonebook) refl

  pub entries-added :
      (p : Provider W T) (b : Phonebook W)
      → IsValid p
      → lookup b.id (entries p) ≡ none
      → entries (added p b) ≡ entries p ++ b ∷ []
  entries-added p b v h =
      H.items-add p.phonebooks b v.distinct (H.find-items p.phonebooks b.id v.distinct ∙ h)

  pub added-IsValid :
      (p : Provider W T) (b : Phonebook W)
      → IsValid p
      → lookup b.id (entries p) ≡ none
      → IsValid (added p b)
  added-IsValid p b v h = record {
    distinct = rw (entries-added p b v h) (Distinct-append_new (entries p) b h v.distinct);
    counted =
        rw (entries-added p b v h)
          (omega (arith, v.counted, length-append (entries p) (b ∷ []), incr64-mod));
    types_counted = v.types_counted;
  }

  -- What remove_phonebook makes of a known id.
  abbrev pub removed : Provider W T → Phonebook W → Provider W T
  removed p b = record p {
    phonebooks = H.del p.phonebooks b;
    num_phonebooks = decr64 p.num_phonebooks;
  }

  pub entries-removed :
      (p : Provider W T) (b : Phonebook W)
      → IsValid p
      → lookup b.id (entries p) ≡ some b
      → entries (removed p b) ≡ remove b.id (entries p)
  entries-removed p b v h =
      H.items-del p.phonebooks b v.distinct (H.find-items p.phonebooks b.id v.distinct ∙ h)

  pub removed-IsValid :
      (p : Provider W T) (b : Phonebook W)
      → IsValid p
      → lookup b.id (entries p) ≡ some b
      → IsValid (removed p b)
  removed-IsValid p b v h = record {
    distinct = rw (entries-removed p b v h) (Distinct-remove b.id (entries p) v.distinct);
    counted =
        rw (entries-removed p b v h)
          (omega (arith, v.counted, length-remove b.id (entries p) h, decr64-mod));
    types_counted = v.types_counted;
  }

  pub remove_phonebook_absent :
      (p : Provider W T) (k : PhonebookId) (close : Bool) (w : W)
      → IsValid p
      → lookup k (entries p) ≡ none
      → remove_phonebook p k close w ≡ ok (err_invalid_phonebook, p, w)
  unfolding remove_phonebook
  remove_phonebook_absent p k close w v h =
      rw (find_phonebook-lookup p k v ∙ h, remove_phonebook) refl

  -- A known phonebook is taken out whatever its close function returns.
  pub remove_phonebook_found :
      (p : Provider W T) (k : PhonebookId) (b : Phonebook W) (close : Bool) (w : W)
      → IsValid p
      → lookup k (entries p) ≡ some b
      → remove_phonebook p k close w ≡ (close_if close b w >>= λ r. ok (r.0, removed p b, r.1))
  unfolding remove_phonebook
  remove_phonebook_found p k b close w v h =
      rw (find_phonebook-lookup p k v ∙ h, remove_phonebook) refl
