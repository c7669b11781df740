-- ===== src/Remote.antt =====
-- The functions of src/admin.c and src/client.c that send requests, the wire of src/types.h and the
-- handlers of src/provider.c together: what a remote user gets for a request, and what it does.
pub mod Spec
pub mod Stands
pub mod Moves
pub mod Handled
pub mod Carried
pub mod Answered
pub mod Refines
pub mod Loads
pub mod Lifetime
pub mod Restart
pub mod Sums
pub mod Total
use mathlib.Core.Option
use phonebook.Base.{
  ℕ, Bool, true, false, Option, none, some, String, List, [], ◌∷◌, Run, ok, ◌>>=◌, if◌then◌else◌,
}
use phonebook.Common.{Return, PhonebookId, to_code}
use phonebook.Exchange.{Exchange, Outcome}
use phonebook.Uthash.{Uthash}
use phonebook.Types.{
  HelloIn, SumIn, SumOut, ListPhonebooksIn, ListPhonebooksOut, CreatePhonebookOut,
  ClosePhonebookOut,
}
use phonebook.Types.Codec.{Codec}
use phonebook.Types.Wire.{Proc, ListRecord, encode_list, decode_list}
use phonebook.Types.Messages.{
  ProcStrings, CreateRecord, SumRecord, code, create_in_proc, create_out_proc, close_in_proc,
  list_in_proc, hello_in_proc, sum_in_proc, sum_out_proc,
}
use phonebook.Provider.{Provider}
use phonebook.Provider.Handlers.{
  Call, Served, Action, respond, create_phonebook_ult, open_phonebook_ult, close_phonebook_ult,
  destroy_phonebook_ult, list_phonebooks_ult, hello_ult, sum_ult,
}
use phonebook.Admin.{create_in, close_in, Listed}
use phonebook.Admin
use phonebook.Admin.Creating.{create_record}
use phonebook.Admin.Listing.{memory_of}
use phonebook.Client.Rpc.{say_hello, compute_sum, sum_record}
use phonebook.Examples.Served.{Garbage}

-- What the users of the two libraries ask for; `uuid` is the id that uuid_generate gives at the provider.
pub data Command : Type 0 where
  create_command open_command : (token type config : Option String) → (uuid : PhonebookId) → Command
  close_command destroy_command : (token : Option String) → PhonebookId → Command
  list_command : (token : Option String) → (capacity : ℕ) → Command
  hello_command : PhonebookId → Command
  sum_command : PhonebookId → (x y : ℕ) → Command

-- The code that the function returns, and what it writes.
pub data Reply : Type 0 where
  made : Return → Option PhonebookId → Reply
  freed : Return → Reply
  listed : Return → Option Listed → Reply
  greeted : Return → Reply
  summed : Return → Option ℕ → Reply

-- What happens to a request on its way: whether margo_create, margo_provider_forward, margo_get_input at
-- the provider and margo_get_output return HG_SUCCESS.
pub record Fate : Type 0 where
  pub created : Bool
  pub forwarded : Bool
  pub got_input : Bool
  pub got_output : Bool

-- A value that is serialised and read back.
unfoldable pub through : {A : Type 0} → Codec A → A → Option A
through c a = Option.map (λ r. r.0) (c.get (c.put a))

-- The answer of a handler, if it sends one.
abbrev pub answer_in : {Out : Type 0} → List (Action Out) → Option Out
answer_in (respond out ∷ rest) = some out
answer_in _ = none

module _ {In Out R S : Type 0} where
  -- One exchange: the handler runs where the request is forwarded, on what it gets of the input, and its
  -- answer is encoded and decoded by `send`.
  unfoldable pub call :
      Fate
      → Codec In
      → (send : Out → Run (Option R)) → (handler : Option In → S → Run (List (Action Out) × S)) → In
      → S
      → Run (Exchange R × S)
  unfolding through
  call f c send handler input s =
      if f.created
      then (if f.forwarded
          then (do
            (actions, s') ← handler (if f.got_input then through c input else none) s
            answer ← elim (answer_in actions) [ none ↦ ok none | some out ↦ send out ]
            ok (
              record {
                created = true;
                forwarded = true;
                output = if f.got_output then answer else none;
              },
              s',
            ))
          else ok (record { created = true; forwarded = false; output = none }, s))
      else ok (record { created = false; forwarded = false; output = none }, s)

module _ {W T : Type 0} ⦃H : Uthash W T⦄ where
  -- A handler, for which calloc gives memory and uuid_generate gives `uuid`.
  abbrev pub handler_of :
      {In Out : Type 0}
      → (Call In → Provider W T → W → Run (Served W T Out))
      → PhonebookId
      → Option In
      → Provider W T × W
      → Run (List (Action Out) × (Provider W T × W))
  handler_of ult uuid input s = do
    r ← ult (record { input = input; uuid = uuid; calloc_ok = true }) s.0 s.1
    ok (r.actions, (r.provider, r.world))

-- YP_list_phonebooks on what the exchange delivers.
abbrev pub listing : (capacity : ℕ) → Exchange ListRecord → Run Reply
listing capacity e = do o ← Admin.list_phonebooks capacity e; ok (listed o.ret o.written)

module _ (proc : Proc) (strings : ProcStrings) (g : Garbage) where
  -- The answers on the wire; what a handler did not assign is `g`.
  unfoldable pub send_created : CreatePhonebookOut → Run (Option CreateRecord)
  unfolding through
  send_created out = ok (through (create_out_proc proc strings) (create_record g.id out))

  unfoldable pub send_closed : ClosePhonebookOut → Run (Option Return)
  unfolding through
  send_closed out = ok (through (code proc) out.ret)

  -- To encode an answer to a list request faults where it reads beyond its ids.
  unfoldable pub send_listed : ListPhonebooksOut → Run (Option ListRecord)
  send_listed out = do
    bytes ← encode_list proc (memory_of g.count out)
    ok (Option.map (λ r. r.0) (decode_list proc true bytes))

  unfoldable pub send_summed : SumOut → Run (Option SumRecord)
  unfolding through
  send_summed out = ok (through (sum_out_proc proc strings) (sum_record g.result out))

  -- YP_hello_ult does not answer.
  abbrev pub send_nothing : Unit {0} → Run (Option (Unit {0}))
  send_nothing out = ok none

  module _ {W T : Type 0} ⦃H : Uthash W T⦄ where
    -- A request from the call of a function of admin.c or client.c to its return.
    unfoldable pub serve : Fate → Command → Provider W T × W → Run (Reply × (Provider W T × W))
    unfolding call send_created send_closed send_listed send_summed
    serve f (create_command token type config uuid) s = do
      (e, s') ←
          call f (create_in_proc proc strings) send_created (handler_of create_phonebook_ult uuid)
            (create_in token type config) s
      let o = Admin.create_phonebook e
      ok (made o.ret o.written, s')
    serve f (open_command token type config uuid) s = do
      (e, s') ←
          call f (create_in_proc proc strings) send_created (handler_of open_phonebook_ult uuid)
            (create_in token type config) s
      let o = Admin.open_phonebook e
      ok (made o.ret o.written, s')
    serve f (close_command token id) s = do
      (e, s') ←
          call f (close_in_proc proc strings) send_closed (handler_of close_phonebook_ult id)
            (close_in token id) s
      ok (freed (Admin.close_phonebook e).ret, s')
    serve f (destroy_command token id) s = do
      (e, s') ←
          call f (close_in_proc proc strings) send_closed (handler_of destroy_phonebook_ult id)
            (close_in token id) s
      ok (freed (Admin.destroy_phonebook e).ret, s')
    serve f (list_command token capacity) s = do
      (e, s') ←
          call f (list_in_proc proc strings) send_listed (handler_of list_phonebooks_ult g.id)
            (record { token = token; max_ids = capacity }) s
      reply ← listing capacity e
      ok (reply, s')
    serve f (hello_command id) s = do
      (e, s') ←
          call f (hello_in_proc proc strings) send_nothing (handler_of hello_ult g.id)
            (record { phonebook_id = id }) s
      ok (greeted (say_hello e.created e.forwarded).ret, s')
    serve f (sum_command id x y) s = do
      (e, s') ←
          call f (sum_in_proc proc strings) send_summed (handler_of sum_ult g.id)
            (record { phonebook_id = id; x = x; y = y }) s
      let o = compute_sum e
      ok (summed o.ret o.written, s')

    -- Requests one after another, with their replies.
    unfoldable pub serve_all :
        List (Fate × Command) → Provider W T × W → Run (List Reply × (Provider W T × W))
    serve_all [] s = ok ([], s)
    serve_all ((f, c) ∷ l) s = do
      (reply, s1) ← serve f c s
      (replies, s2) ← serve_all l s1
      ok (reply ∷ replies, s2)
