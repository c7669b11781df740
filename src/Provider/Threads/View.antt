-- ===== src/Provider/Threads/View.antt =====
-- What is in the hash of a provider of provider.c while requests are in flight, against the
-- phonebooks that own a context.
use phonebook.Base.{◌≡◌, none, some, Option, List, [], ◌∷◌, ◌++◌, arith, Option-cases, inl, inr}
use phonebook.Common.{PhonebookId, id_eq_iff}
use phonebook.Uthash.Items.{
  Phonebook, lookup, remove, Distinct, Distinct-remove, lookup-append_new, lookup-remove, lookup-id,
}

module _ {W : Type 0} where
  -- The phonebook of an id that owns a context: one that is created and not yet added, or one of
  -- the entries that is not yet freed.
  unfoldable pub owner :
      PhonebookId → (adding leaving entries : List (Phonebook W)) → Option (Phonebook W)
  owner k adding leaving l = elim (lookup k adding) [
    | none ↦ elim (lookup k leaving) [ none ↦ lookup k l | some b ↦ none ]
    | some b ↦ some b
  ]

  pub record Lists (adding leaving l owners : List (Phonebook W)) : Type 0 where
    pub adding_ids : Distinct adding
    pub leaving_ids : Distinct leaving
    pub owned : (k : PhonebookId) → lookup k owners ≡ owner k adding leaving l
    pub waits : (k : PhonebookId) {b : Phonebook W} → lookup k adding ≡ some b → lookup k l ≡ none
    pub leaves :
        (k : PhonebookId) {b : Phonebook W} → lookup k leaving ≡ some b → lookup k l ≡ some b

  module _ {adding leaving l owners : List (Phonebook W)} (v : Lists adding leaving l owners) where
    pub not_leaving : (k : PhonebookId) → lookup k l ≡ none → lookup k leaving ≡ none
    not_leaving k h = elim (Option-cases (lookup k leaving)) [
      | inl e ↦ e
      | inr (b, e) ↦ let old = v.leaves k e in cc
    ]

    not_adding : (k : PhonebookId) {b : Phonebook W} → lookup k l ≡ some b → lookup k adding ≡ none
    not_adding k h = elim (Option-cases (lookup k adding)) [
      | inl e ↦ e
      | inr (c, e) ↦ let new = v.waits k e in cc
    ]

    pub new_owner :
        (k : PhonebookId) → lookup k adding ≡ none → lookup k l ≡ none → lookup k owners ≡ none
    unfolding owner
    new_owner k a h = rw (v.owned k, owner, a, not_leaving k h) h

    -- An entry that is not freed owns a context.
    pub entry_owner :
        (k : PhonebookId) {b : Phonebook W}
        → lookup k leaving ≡ none
        → lookup k l ≡ some b
        → lookup k owners ≡ some b
    unfolding owner
    entry_owner k {b} g h = rw (v.owned k, owner, not_adding k h, g) h

    pub begin_adding :
        (b : Phonebook W)
        → lookup b.id adding ≡ none
        → lookup b.id l ≡ none
        → Lists (b ∷ adding) leaving l (owners ++ b ∷ [])
    unfolding owner lookup
    begin_adding b a h = record {
      adding_ids = (a, v.adding_ids);
      leaving_ids = v.leaving_ids;
      owned = λ k. ground (arith, lookup-append_new k owners b (new_owner b.id a h), v.owned k);
      waits = λ k {b = c} e. ground (arith, v.waits k {b = c}, id_eq_iff b.id k);
      leaves = v.leaves;
    }

    pub end_adding :
        (k : PhonebookId) (b : Phonebook W) (l' : List (Phonebook W))
        → lookup k adding ≡ some b
        → l' ≡ l ++ b ∷ []
        → Lists (remove k adding) leaving l' owners
    unfolding owner
    end_adding k b l' found e =
        let same = lookup-id k adding found in
        let new : lookup b.id l ≡ none = rw same (v.waits k found) in
        record {
          adding_ids = Distinct-remove k adding v.adding_ids;
          leaving_ids = v.leaving_ids;
          owned = λ j. rw e (
              ground (
                arith,
                lookup-append_new j l b new,
                lookup-remove k j adding v.adding_ids,
                not_leaving b.id new,
                v.owned j,
                id_eq_iff b.id j,
                id_eq_iff k j,
                same,
              ));
          waits = λ j {b = c} h. rw e (
              ground (
                arith,
                lookup-append_new j l b new,
                lookup-remove k j adding v.adding_ids,
                v.waits j {b = c},
                id_eq_iff b.id j,
                id_eq_iff k j,
                same,
              ));
          leaves = λ j {b = c} h. rw e (
              ground
                (arith, lookup-append_new j l b new, v.leaves j {b = c}, id_eq_iff b.id j, same));
        }

    pub begin_leaving :
        (k : PhonebookId) (b : Phonebook W)
        → lookup k leaving ≡ none
        → lookup k l ≡ some b
        → Distinct owners
        → Lists adding (b ∷ leaving) l (remove k owners)
    unfolding owner lookup
    begin_leaving k b g found d =
        let same = lookup-id k l found in
        let a = not_adding k found in
        record {
          adding_ids = v.adding_ids;
          leaving_ids = (rw same g, v.leaving_ids);
          owned = λ j.
              ground (
                arith,
                lookup-remove k j owners d,
                v.owned j,
                id_eq_iff b.id j,
                id_eq_iff k j,
                same,
              );
          waits = v.waits;
          leaves = λ j {b = c} h. ground (arith, v.leaves j {b = c}, id_eq_iff b.id j, same);
        }

    pub end_leaving :
        (k : PhonebookId) (b : Phonebook W) (l' : List (Phonebook W))
        → lookup k leaving ≡ some b
        → l' ≡ remove k l
        → Distinct l
        → Lists adding (remove k leaving) l' owners
    unfolding owner
    end_leaving k b l' found e d = record {
      adding_ids = v.adding_ids;
      leaving_ids = Distinct-remove k leaving v.leaving_ids;
      owned = λ j. rw e (
          ground (
            arith,
            lookup-remove k j l d,
            lookup-remove k j leaving v.leaving_ids,
            v.owned j,
            v.leaves j,
            id_eq_iff k j,
          ));
      waits = λ j {b = c} h. rw e (ground (arith, lookup-remove k j l d, v.waits j {b = c}));
      leaves = λ j {b = c} h. rw e (
          ground (
            arith,
            lookup-remove k j l d,
            lookup-remove k j leaving v.leaving_ids,
            v.leaves j {b = c},
            id_eq_iff k j,
          ));
    }
