-- ===== src/Remote/Answered.antt =====
-- What the functions of admin.c and client.c return for the answers of the handlers, over the wire of
-- types.h.
use mathlib.Core.List.{append-nil}
use phonebook.Base.{
  ℕ, ◌^◌, ◌<◌, ◌≡◌, refl, subst, true, Option, none, some, List, [], Run, ok, arith, take,
  Bool-cases, inl, inr,
}
use phonebook.Base.Words.{u64_mod}
use phonebook.Common.{Return, PhonebookId, is_success, to_code, of_code-to_code, to_code-lt}
use phonebook.Exchange.{Exchange, exchange}
use phonebook.Types.{ClosePhonebookOut}
use phonebook.Types.Wire.{Proc, ProcLaws, has_bytes, decode_list}
use phonebook.Types.RoundTrip.{
  IsUuid, decode_list-encode_list, decode_list_unassigned, decode_list_no_bytes,
}
use phonebook.Types.Messages.{
  CreateRecord, SumRecord, ProcStrings, code, create_out_proc, sum_out_proc, sound_create_out,
  sound_code, sound_sum_out,
}
use phonebook.Admin.{take_id, take_ret, Listed, take_listed}
use phonebook.Admin
use phonebook.Admin.Listing.{take_listed-take}
use phonebook.Client.Rpc.{compute_sum}
use phonebook.Examples.Served.{Garbage}
use phonebook.Remote.{
  Reply, listing, made, freed, summed, through, send_created, send_closed, send_listed, send_summed,
}
use phonebook.Remote.Handled.{IsMade, IsSummed, IsListed, list_shown}
use phonebook.Remote.Carried.{through-Back}

-- The functions of the libraries on what one exchange delivers.
abbrev pub creating : Exchange CreateRecord → Run Reply
creating e = ok (made (Admin.create_phonebook e).ret (Admin.create_phonebook e).written)

abbrev pub opening : Exchange CreateRecord → Run Reply
opening e = ok (made (Admin.open_phonebook e).ret (Admin.open_phonebook e).written)

abbrev pub closing : Exchange Return → Run Reply
closing e = ok (freed (Admin.close_phonebook e).ret)

abbrev pub destroying : Exchange Return → Run Reply
destroying e = ok (freed (Admin.destroy_phonebook e).ret)

abbrev pub summing : Exchange SumRecord → Run Reply
summing e = ok (summed (compute_sum e).ret (compute_sum e).written)

-- What stands in fields that were not assigned are values of their C types.
pub record IsGarbage (g : Garbage) : Type 0 where
  pub id : IsUuid g.id
  pub count : g.count < u64_mod
  pub result : g.result < 2 ^ 32

module _ (proc : Proc) (laws : ProcLaws proc) (strings : ProcStrings) (g : Garbage)
    (k : IsGarbage g) where
  abbrev pub Answers :
      {Out R : Type 0} → (Out → Run (Option R)) → (Exchange R → Run Reply) → Out → Reply → Type 0
  Answers {Out} {R} send returns out reply =
      (answer : Option R) × (send out ≡ ok answer)
      × (returns (record { created = true; forwarded = true; output = answer }) ≡ ok reply)

  sent_created :
      (ret : Return) (id : PhonebookId)
      → IsUuid id
      → through (create_out_proc proc strings) (record { ret = ret; id = id })
        ≡ some (record { ret = ret; id = id })
  sent_created ret id good =
      through-Back (create_out_proc proc strings) (record { ret = ret; id = id })
        ((sound_create_out proc laws strings).back (record { ret = ret; id = id })
          (to_code-lt ret, good))

  pub send_created-Answers :
      (ret : Return) (id : Option PhonebookId)
      → IsMade ret id
      → Answers (send_created proc strings g) creating (record { ret = ret; id = id }) (made ret id)
        × Answers
            (send_created proc strings g)
            opening
            (record { ret = ret; id = id })
            (made ret id)
  unfolding send_created Admin.create_phonebook Admin.open_phonebook take_id is_success exchange
  send_created-Answers ret none h =
      let sent = sent_created ret g.id k.id in
      let answer : CreateRecord = record { ret = ret; id = g.id } in
      ((some answer, rw sent refl, rw h refl), (some answer, rw sent refl, rw h refl))
  send_created-Answers ret (some id) h =
      let sent = sent_created ret id h.1 in
      let answer : CreateRecord = record { ret = ret; id = id } in
      ((some answer, rw sent refl, rw h.0 refl), (some answer, rw sent refl, rw h.0 refl))

  pub send_closed-Answers :
      (out : ClosePhonebookOut)
      → Answers (send_closed proc strings g) closing out (freed out.ret)
        × Answers (send_closed proc strings g) destroying out (freed out.ret)
  unfolding send_closed Admin.close_phonebook Admin.destroy_phonebook take_ret exchange
  send_closed-Answers out =
      let sent =
        through-Back (code proc) out.ret
          ((sound_code proc laws strings).back out.ret (to_code-lt out.ret)) in
      ((some out.ret, rw sent refl, refl), (some out.ret, rw sent refl, refl))

  sent_summed :
      (result : ℕ) (ret : Return)
      → result < 2 ^ 32
      → through (sum_out_proc proc strings) (record { result = result; ret = ret })
        ≡ some (record { result = result; ret = ret })
  sent_summed result ret small =
      through-Back (sum_out_proc proc strings) (record { result = result; ret = ret })
        ((sound_sum_out proc laws strings).back (record { result = result; ret = ret })
          (small, to_code-lt ret))

  pub send_summed-Answers :
      (ret : Return) (result : Option ℕ)
      → IsSummed ret result
      → Answers
          (send_summed proc strings g)
          summing
          (record { result = result; ret = ret })
          (summed ret result)
  unfolding send_summed compute_sum is_success
  send_summed-Answers ret none h =
      let sent = sent_summed g.result ret k.result in
      (some (record { result = g.result; ret = ret }), rw sent refl, rw h refl)
  send_summed-Answers ret (some n) h =
      let sent = sent_summed n ret h.1 in
      (some (record { result = n; ret = ret }), rw sent refl, rw h.0 refl)

  pub send_listed-Answers :
      (capacity : ℕ) (ret : Return) (count : Option ℕ) (ids : Option (List PhonebookId))
      → IsListed capacity ret count ids
      → Answers
          (send_listed proc strings g)
          (listing capacity)
          (record { ret = ret; count = count; ids = ids })
          (list_shown g.count ret count ids)
  unfolding send_listed Admin.list_phonebooks take_listed is_success to_code
  send_listed-Answers capacity ret none none h = elim (Bool-cases (has_bytes g.count)) [
    | inr e ↦
        let (bytes, ids, sent, got) =
          decode_list_no_bytes proc laws (to_code ret) g.count (to_code-lt ret) k.count e in
        (
          some (record { ret = to_code ret; count = g.count; ids = ids }),
          rw (sent, got) refl,
          rw (e, take_listed, of_code-to_code ret, h) refl,
        )
    | inl e ↦
        let (bytes, sent, got) =
          decode_list_unassigned proc laws (to_code ret) g.count (to_code-lt ret)
            (ground (arith, e)) (ground (arith, e)) in
        (none, rw (sent, got) refl, rw e refl)
  ]
  send_listed-Answers capacity ret (some n) (some ids) h =
      let (done, room, enough, small, uuids) = h in
      let (bytes, sent, got) =
        decode_list-encode_list proc laws (to_code ret) n ids [] (to_code-lt ret) small enough
          uuids in
      let got' : decode_list proc true bytes
          ≡ some (record { ret = to_code ret; count = n; ids = some (take n ids) }, []) =
        subst
          (λ l.
            decode_list proc true l
            ≡ some (record { ret = to_code ret; count = n; ids = some (take n ids) }, []))
          (append-nil bytes) got in
      (
        some (record { ret = to_code ret; count = n; ids = some (take n ids) }),
        rw (sent, got') refl,
        rw (done, take_listed-take capacity n ids room enough) refl,
      )
  send_listed-Answers capacity ret none (some ids) h = absurd h
  send_listed-Answers capacity ret (some n) none h = absurd h
