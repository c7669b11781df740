-- ===== src/Remote/Refines.antt =====
-- The libraries (admin.c, client.c), the wire (types.h), the provider (provider.c) and the dummy
-- backend together, against the directory.
use phonebook.Base.{
  ℕ, ◌≡◌, ◌≢◌, refl, none, List, [], ◌∷◌, fault, if◌then◌else◌, Run-cases, Bool-cases, inl, inr,
  arith,
}
use phonebook.Common.{err_from_mercury, is_success, PhonebookId}
use phonebook.Backend.{Ptr, null}
use phonebook.Backend.Dummy.{Memory, Allocator}
use phonebook.Json.{Json}
use phonebook.Uthash.{Uthash}
use phonebook.Types.RoundTrip.{IsUuid}
use phonebook.Types.Wire.{has_bytes, Proc, ProcLaws}
use phonebook.Types.Messages.{
  ProcStrings, create_in_proc, close_in_proc, list_in_proc, hello_in_proc, sum_in_proc,
  sound_create_in, sound_close_in, sound_list_in, sound_hello_in, sound_sum_in,
}
use phonebook.Exchange.{exchange}
use phonebook.Provider.{Provider}
use phonebook.Provider.Handlers.{
  create_failed, closed, list_failed, sum_failed, make_phonebook_ult, create_phonebook_ult,
  open_phonebook_ult, close_phonebook_ult, destroy_phonebook_ult, list_phonebooks_ult, hello_ult,
  sum_ult,
}
use phonebook.Admin
use phonebook.Admin.{create_in, close_in}
use phonebook.Client.Rpc.{say_hello, compute_sum}
use phonebook.Examples.Served.{Garbage}
use phonebook.Remote.{
  Command, create_command, open_command, close_command, destroy_command, list_command,
  hello_command, sum_command, listing, made, freed, listed, summed, Fate, call, handler_of,
  send_created, send_closed, send_listed, send_summed, serve, serve_all,
}
use phonebook.Remote.Spec.{Directory, Fits, AllFit, act, lost, unanswered, step, steps}
use phonebook.Remote.Stands.{Stands, parses, open-create}
use phonebook.Remote.Handled.{IsMade, IsListed, IsSummed, list_shown}
use phonebook.Remote.Handled.Making.{make-Agrees}
use phonebook.Remote.Handled.Freeing.{close-Agrees, destroy-Agrees}
use phonebook.Remote.Handled.Asking.{sum-Agrees, list-Agrees, hello-Agrees}
use phonebook.Remote.Carried.{Follows, call-Follows, through-Back}
use phonebook.Remote.Answered.{
  creating, opening, closing, destroying, summing, IsGarbage, send_created-Answers,
  send_closed-Answers, send_listed-Answers, send_summed-Answers,
}

same_reply :
    (unset : ℕ)
    → listed (if has_bytes unset then err_from_mercury else err_from_mercury) none
      ≡ listed err_from_mercury none
same_reply unset = ground arith

module _ {J T : Type 0} ⦃H : Uthash (Memory J) T⦄ (json : Json J) (a : Allocator)
    (memory : (used : List Ptr) → a.calloc used ≢ null) (proc : Proc) (laws : ProcLaws proc)
    (strings : ProcStrings) (g : Garbage) (k : IsGarbage g) where
  hello-Follows :
      (f : Fate) (id : PhonebookId) (s : Provider (Memory J) T × Memory J) (d : Directory)
      → Stands json a s d
      → IsUuid id
      → Follows json a
          (serve proc strings g f (hello_command id) s)
          (step (parses json) g.count f (hello_command id) d)
  unfolding serve act unanswered lost call step say_hello hello_ult
  hello-Follows f id s d r h =
      let arrived =
        through-Back (hello_in_proc proc strings) (record { phonebook_id = id })
          ((sound_hello_in proc laws strings).back (record { phonebook_id = id }) h) in
      let (s', heard, r') = hello-Agrees json a memory s d r g.id id in
      elim (Bool-cases f.created) [
        | inr n ↦ rw (n, serve, call, step) (_, refl, r)
        | inl y1 ↦ elim (Bool-cases f.forwarded) [
          | inr n ↦ rw (y1, n, serve, call, step) (_, refl, r)
          | inl y2 ↦ elim (Bool-cases f.got_input) [
            | inr n ↦ rw (y1, y2, n, serve, call, step) (_, refl, r)
            | inl y3 ↦ elim (Bool-cases f.got_output) [
              | inl y4 ↦ rw (y1, y2, y3, y4, serve, call, step, arrived, heard) (s', refl, r')
              | inr n4 ↦ rw (y1, y2, y3, n4, serve, call, step, arrived, heard) (s', refl, r')
            ]
          ]
        ]
      ]

  pub serve-Follows :
      (f : Fate) (c : Command) (s : Provider (Memory J) T × Memory J) (d : Directory)
      → Stands json a s d
      → Fits c d
      → Follows json a (serve proc strings g f c s) (step (parses json) g.count f c d)
  unfolding serve act unanswered lost make_phonebook_ult create_phonebook_ult open_phonebook_ult
      close_phonebook_ult destroy_phonebook_ult list_phonebooks_ult sum_ult exchange
      Admin.create_phonebook Admin.open_phonebook Admin.close_phonebook Admin.destroy_phonebook
      Admin.list_phonebooks compute_sum is_success
  serve-Follows f (create_command token type config uuid) s d r h =
      call-Follows json a (create_in_proc proc strings) (send_created proc strings g)
        (handler_of create_phonebook_ult uuid) creating (λ out. made out.ret out.id)
        (λ out. IsMade out.ret out.id) g.count f (create_command token type config uuid)
        (create_in token type config) s d (create_failed err_from_mercury) r
        ((sound_create_in proc laws strings).back (create_in token type config) (tt, (tt, tt)))
        (make-Agrees json a memory s d r (λ b. b.create_phonebook) token type config uuid
          (λ config w. refl) h.0 h.1)
        refl refl refl
        (λ out good. (send_created-Answers proc laws strings g k out.ret out.id good).0) refl refl
        refl
  serve-Follows f (open_command token type config uuid) s d r h =
      call-Follows json a (create_in_proc proc strings) (send_created proc strings g)
        (handler_of open_phonebook_ult uuid) opening (λ out. made out.ret out.id)
        (λ out. IsMade out.ret out.id) g.count f (open_command token type config uuid)
        (create_in token type config) s d (create_failed err_from_mercury) r
        ((sound_create_in proc laws strings).back (create_in token type config) (tt, (tt, tt)))
        (make-Agrees json a memory s d r (λ b. b.open_phonebook) token type config uuid
          (open-create json a) h.0 h.1)
        refl refl refl
        (λ out good. (send_created-Answers proc laws strings g k out.ret out.id good).1) refl refl
        refl
  serve-Follows f (close_command token id) s d r h =
      call-Follows json a (close_in_proc proc strings) (send_closed proc strings g)
        (handler_of close_phonebook_ult id) closing (λ out. freed out.ret) (λ out. Unit {0}) g.count
        f (close_command token id) (close_in token id) s d (closed err_from_mercury) r
        ((sound_close_in proc laws strings).back (close_in token id) (tt, h))
        (close-Agrees json a memory s d r token id id) refl tt refl
        (λ out good. (send_closed-Answers proc laws strings g k out).0) refl refl refl
  serve-Follows f (destroy_command token id) s d r h =
      call-Follows json a (close_in_proc proc strings) (send_closed proc strings g)
        (handler_of destroy_phonebook_ult id) destroying (λ out. freed out.ret) (λ out. Unit {0})
        g.count f (destroy_command token id) (close_in token id) s d (closed err_from_mercury) r
        ((sound_close_in proc laws strings).back (close_in token id) (tt, h))
        (destroy-Agrees json a memory s d r token id id) refl tt refl
        (λ out good. (send_closed-Answers proc laws strings g k out).1) refl refl refl
  serve-Follows f (list_command token capacity) s d r h =
      call-Follows json a (list_in_proc proc strings) (send_listed proc strings g)
        (handler_of list_phonebooks_ult g.id) (listing capacity)
        (λ out. list_shown g.count out.ret out.count out.ids)
        (λ out. IsListed capacity out.ret out.count out.ids) g.count f (list_command token capacity)
        (record { token = token; max_ids = capacity }) s d (list_failed err_from_mercury) r
        ((sound_list_in proc laws strings).back (record { token = token; max_ids = capacity })
          (tt, h.0))
        (list-Agrees json a memory s d r g.count capacity token g.id h.1) refl refl
        (same_reply g.count)
        (λ out good.
          send_listed-Answers proc laws strings g k capacity out.ret out.count out.ids good)
        refl refl refl
  serve-Follows f (hello_command id) s d r h = hello-Follows f id s d r h
  serve-Follows f (sum_command id x y) s d r h =
      call-Follows json a (sum_in_proc proc strings) (send_summed proc strings g)
        (handler_of sum_ult g.id) summing (λ out. summed out.ret out.result)
        (λ out. IsSummed out.ret out.result) g.count f (sum_command id x y)
        (record { phonebook_id = id; x = x; y = y }) s d (sum_failed err_from_mercury) r
        ((sound_sum_in proc laws strings).back (record { phonebook_id = id; x = x; y = y })
          (h.0, (h.1, h.2)))
        (sum-Agrees json a memory s d r g.id id x y) refl refl refl
        (λ out good. send_summed-Answers proc laws strings g k out.ret out.result good) refl refl
        refl

  -- The requests of any number of users to a provider of dummy phonebooks, with what happens to each on
  -- its way over the network, are answered as by the directory that the provider stands for, and
  -- fault where it does: where each request has values of its C types and a new id when it comes, and
  -- calloc gives memory. The provider afterwards stands for the directory afterwards.
  pub serve_all-steps :
      (l : List (Fate × Command)) (s : Provider (Memory J) T × Memory J) (d : Directory)
      → Stands json a s d
      → AllFit (parses json) g.count l d
      → Follows json a (serve_all proc strings g l s) (steps (parses json) g.count l d)
  unfolding serve_all steps
  serve_all-steps [] s d r h = (s, refl, r)
  serve_all-steps ((f, c) ∷ l) s d r h =
      let first = serve-Follows f c s d r h.0 in
      elim (Run-cases (step (parses json) g.count f c d)) [
        | inr e ↦
            let faults : serve proc strings g f c s ≡ fault = rw e at first in
            rw (steps, e, serve_all, faults) refl
        | inl ((reply, d1), e) ↦
            let (s1, served, r1) = rw e at first in
            let rest = serve_all-steps l s1 d1 r1 (rw e at h.1) in
            elim (Run-cases (steps (parses json) g.count l d1)) [
              | inr e' ↦
                  let faults : serve_all proc strings g l s1 ≡ fault = rw e' at rest in
                  rw (steps, e, serve_all, served, e', faults) refl
              | inl ((replies, d2), e') ↦
                  let (s2, more, r2) = rw e' at rest in
                  rw (steps, e, serve_all, served, e', more) (s2, refl, r2)
            ]
      ]
