-- ===== src/Admin.antt =====
-- src/admin.c: the functions with which an administrator sends requests. (include/YP/YP-admin.h)
pub mod Listing
pub mod Init
pub mod Finalize
pub mod Creating
pub mod Closing
use phonebook.Base.{
  ℕ, Bool, true, false, Option, none, some, String, List, [], ◌∷◌, if◌then◌else◌, Run, ok, fault,
  take, leb, length, ◌>>=◌,
}
use phonebook.Common.{
  Return, success, err_allocation, err_from_mercury, is_success, PhonebookId, to_code, of_code,
}
use phonebook.Exchange.{Exchange, Outcome, Cleanup, free_output, destroy_handle, exchange, failed}
use phonebook.Types.{CreatePhonebookIn, ClosePhonebookIn, ListPhonebooksIn}
use phonebook.Types.Messages.{CreateRecord}
use phonebook.Types.Wire.{ListRecord}

abbrev pub cleaned : List Cleanup
cleaned = free_output ∷ destroy_handle ∷ []

-- The `in` of YP_create_phonebook and YP_open_phonebook.
abbrev pub create_in : (token type config : Option String) → CreatePhonebookIn
create_in token type config = record { type = type; config = config; token = token }

-- The `in` of YP_close_phonebook and YP_destroy_phonebook.
abbrev pub close_in : (token : Option String) → PhonebookId → ClosePhonebookIn
close_in token id = record { token = token; id = id }

-- What YP_create_phonebook and YP_open_phonebook do with the output: `*id` is written on success only.
unfoldable pub take_id : CreateRecord → Outcome PhonebookId
take_id out =
    if is_success out.ret
    then record { ret = success; written = some out.id; cleanup = cleaned }
    else record { ret = out.ret; written = none; cleanup = cleaned }

-- YP_create_phonebook
unfoldable pub create_phonebook : Exchange CreateRecord → Outcome PhonebookId
unfolding exchange take_id
create_phonebook e = exchange e take_id

-- YP_open_phonebook
unfoldable pub open_phonebook : Exchange CreateRecord → Outcome PhonebookId
unfolding exchange take_id
open_phonebook e = exchange e take_id

unfoldable pub take_ret : Return → Outcome (Unit {0})
take_ret ret = record { ret = ret; written = none; cleanup = cleaned }

-- YP_close_phonebook, whose output is a code.
unfoldable pub close_phonebook : Exchange Return → Outcome (Unit {0})
unfolding exchange take_ret
close_phonebook e = exchange e take_ret

-- YP_destroy_phonebook
unfoldable pub destroy_phonebook : Exchange Return → Outcome (Unit {0})
unfolding exchange take_ret
destroy_phonebook e = exchange e take_ret

-- What YP_list_phonebooks writes: `*count`, and the ids that its memcpy copies to the array.
pub record Listed : Type 0 where
  pub count : ℕ
  pub ids : List PhonebookId

-- `memcpy(ids, out.ids, out.count*sizeof(*ids))` into an array of `capacity` ids: a fault where it
-- writes beyond that array, or reads beyond the array that was decoded.
unfoldable pub copy_ids : (capacity count : ℕ) → Option (List PhonebookId) → Run (List PhonebookId)
copy_ids capacity count none = if leb count 0 then ok [] else fault
copy_ids capacity count (some ids) =
    if leb count capacity
    then (if leb count (length ids) then ok (take count ids) else fault)
    else fault

unfoldable pub take_listed : (capacity : ℕ) → ListRecord → Run (Outcome Listed)
unfolding copy_ids
take_listed capacity out =
    let ret = of_code out.ret in
    if is_success ret
    then (do
      ids ← copy_ids capacity out.count out.ids
      ok (record {
        ret = ret;
        written = some (record { count = out.count; ids = ids });
        cleanup = cleaned;
      }))
    else ok (record { ret = ret; written = none; cleanup = cleaned })

-- YP_list_phonebooks; `capacity` is `*count` at the call.
unfoldable pub list_phonebooks : (capacity : ℕ) → Exchange ListRecord → Run (Outcome Listed)
unfolding take_listed
list_phonebooks capacity e =
    if e.created
    then (if e.forwarded
        then elim e.output [
          | none ↦ ok (failed (destroy_handle ∷ []))
          | some out ↦ take_listed capacity out
        ]
        else ok (failed (destroy_handle ∷ [])))
    else ok (failed [])
