-- ===== src/Uthash/Order.antt =====
-- Lists of phonebooks that have the same phonebook at each id, as the hash of provider.h: they are
-- the same but for the order.
use mathlib.Core.List.{Perm}
use mathlib.Core.List.Perm
use phonebook.Base.{◌≡◌, sym, ◌∙◌, some, List, [], ◌∷◌, arith, Bool-cases, inl, inr}
use phonebook.Common.{PhonebookId, id_eq, id_eq_iff}
use phonebook.Uthash.Items.{Phonebook, lookup, remove, Distinct, Distinct-remove, lookup-remove}

module _ {W : Type 0} where
  lookup-head : (b : Phonebook W) (l : List (Phonebook W)) → lookup b.id (b ∷ l) ≡ some b
  unfolding lookup
  lookup-head b l = ground (arith, id_eq_iff b.id b.id)

  pub remove-Perm :
      (k : PhonebookId) (l : List (Phonebook W)) {b : Phonebook W}
      → lookup k l ≡ some b
      → Perm (b ∷ remove k l) l
  unfolding lookup remove
  remove-Perm k [] h = cc
  remove-Perm k (q ∷ l) {b} h = elim (Bool-cases (id_eq q.id k)) [
    | inl e ↦ let same : q ≡ b = ground arith in rw (e, same) Perm.rfl
    | inr e ↦
        rw e
          (Perm.trans (Perm.swap q b (remove k l)) (Perm.cons q (remove-Perm k l (ground arith))))
  ]

  pub lookup-Perm :
      (l m : List (Phonebook W))
      → Distinct l
      → Distinct m
      → ((k : PhonebookId) → lookup k l ≡ lookup k m)
      → Perm l m
  unfolding lookup
  lookup-Perm [] [] d e h = Perm.nil
  lookup-Perm [] (q ∷ m) d e h = let head = lookup-head q m in let none_there = h q.id in cc
  lookup-Perm (q ∷ l) m d e h =
      let there : lookup q.id m ≡ some q = sym (h q.id) ∙ lookup-head q l in
      let rest : (k : PhonebookId) → lookup k l ≡ lookup k (remove q.id m) =
        λ k. ground (arith, lookup-remove q.id k m e, h k, d.0, id_eq_iff q.id k) in
      Perm.trans (Perm.cons q (lookup-Perm l (remove q.id m) d.1 (Distinct-remove q.id m e) rest))
        (remove-Perm q.id m there)
