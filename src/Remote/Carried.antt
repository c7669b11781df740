-- ===== src/Remote/Carried.antt =====
-- One exchange of margo around a handler of provider.c, against a request to the directory and what
-- happens to it on its way.
use mathlib.Core.List.{append-nil}
use phonebook.Base.{
  ℕ, ◌≡◌, refl, subst, true, false, Option, none, some, List, [], ◌∷◌, Run, ok, fault, ◌>>=◌,
  Run-cases, Bool-cases, inl, inr,
}
use phonebook.Exchange.{Exchange}
use phonebook.Backend.Dummy.{Memory, Allocator}
use phonebook.Json.{Json}
use phonebook.Uthash.{Uthash}
use phonebook.Types.Codec.{Codec, Back}
use phonebook.Provider.{Provider}
use phonebook.Provider.Handlers.{Action, respond, free_input, destroy_handle}
use phonebook.Remote.{Reply, Command, Fate, through, call}
use phonebook.Remote.Spec.{Directory, act, lost, unanswered, step}
use phonebook.Remote.Stands.{Stands, parses}
use phonebook.Remote.Handled.{Agrees}

-- A value that the wire gives back arrives.
pub through-Back : {A : Type 0} (c : Codec A) (a : A) → Back c a → through c a ≡ some a
unfolding through
through-Back c a back =
    let read : c.get (c.put a) ≡ some (a, []) =
      subst (λ l. c.get l ≡ some (a, [])) (append-nil (c.put a)) (back []) in
    rw (read, through) refl

module _ {J T : Type 0} ⦃H : Uthash (Memory J) T⦄ (json : Json J) (a : Allocator) where
  -- A request faults where the directory does, or it gets the reply of the directory, and what it leaves
  -- stands for the directory afterwards.
  abbrev pub Follows :
      {A : Type 0} → Run (A × (Provider (Memory J) T × Memory J)) → Run (A × Directory) → Type 0
  Follows r fault = r ≡ fault
  Follows r (ok (reply, d)) =
      (s : Provider (Memory J) T × Memory J) × (r ≡ ok (reply, s)) × Stands json a s d

  module _ {In Out R : Type 0} (codec : Codec In) (send : Out → Run (Option R))
      (handler : Option In
        → Provider (Memory J) T × Memory J
        → Run (List (Action Out) × (Provider (Memory J) T × Memory J)))
      (returns : Exchange R → Run Reply) (shown : Out → Reply) (Good : Out → Type 0) where
    pub call-Follows :
        (unset : ℕ) (f : Fate) (c : Command) (input : In) (s : Provider (Memory J) T × Memory J)
        (d : Directory) (unheard : Out)
        → Stands json a s d
        → Back codec input
        → Agrees json a shown Good (handler (some input) s) (act (parses json) unset c d)
        → handler none s ≡ ok (respond unheard ∷ free_input ∷ destroy_handle ∷ [], s)
        → Good unheard
        → shown unheard ≡ unanswered c
        → ((out : Out)
            → Good out
            → (answer : Option R) × (send out ≡ ok answer)
              × (returns (record { created = true; forwarded = true; output = answer })
                  ≡ ok (shown out)))
        → returns (record { created = false; forwarded = false; output = none }) ≡ ok (lost c)
        → returns (record { created = true; forwarded = false; output = none }) ≡ ok (lost c)
        → returns (record { created = true; forwarded = true; output = none }) ≡ ok (unanswered c)
        → Follows
            (call f codec send handler input s >>= λ x. returns x.0 >>= λ reply. ok (reply, x.1))
            (step (parses json) unset f c d)
    unfolding call step
    call-Follows unset f c input s d unheard r back agrees none_heard good told sends e1 e2 e3 =
        elim (Bool-cases f.created) [
          | inr n ↦ rw (n, call, step, e1) (_, refl, r)
          | inl y1 ↦ elim (Bool-cases f.forwarded) [
            | inr n ↦ rw (y1, n, call, step, e2) (_, refl, r)
            | inl y2 ↦ elim (Bool-cases f.got_input) [
              | inr n ↦
                  let (answer, sent, returned) = sends unheard good in
                  elim (Bool-cases f.got_output) [
                    | inl y4 ↦
                        rw (y1, y2, n, y4, call, step, none_heard, sent, returned, told)
                          (_, refl, r)
                    | inr n4 ↦ rw (y1, y2, n, n4, call, step, none_heard, sent, e3) (_, refl, r)
                  ]
              | inl y3 ↦
                  let arrived = through-Back codec input back in
                  elim (Run-cases (act (parses json) unset c d)) [
                    | inr e ↦
                        let faults : handler (some input) s ≡ fault = rw e at agrees in
                        rw (y1, y2, y3, call, step, arrived, e, faults) refl
                    | inl ((reply, d'), e) ↦
                        let (out, s', heard, replied, good', r') = rw e at agrees in
                        let (answer, sent, returned) = sends out good' in
                        elim (Bool-cases f.got_output) [
                          | inl y4 ↦
                              rw
                                (
                                  y1, y2, y3, y4, call, step, arrived, e, heard, sent, returned,
                                  replied,
                                )
                                (s', refl, r')
                          | inr n4 ↦
                              rw (y1, y2, y3, n4, call, step, arrived, e, heard, sent, e3)
                                (s', refl, r')
                        ]
                  ]
            ]
          ]
        ]
