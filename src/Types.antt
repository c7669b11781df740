-- ===== src/Types.antt =====
-- src/types.h: the arguments and the results of the RPCs. An hg_string_t that is NULL is `none`; a
-- field of a result that the handler never assigned is `none`. An int32_t is its bit pattern.
pub mod Wire
pub mod RoundTrip
pub mod Codec
pub mod Messages
pub mod Free
use phonebook.Base.{ℕ, Option, String, List}
use phonebook.Common.{Return, PhonebookId}

-- create_phonebook_in_t
pub record CreatePhonebookIn : Type 0 where
  pub type : Option String
  pub config : Option String
  pub token : Option String

-- create_phonebook_out_t
pub record CreatePhonebookOut : Type 0 where
  pub ret : Return
  pub id : Option PhonebookId

-- open_phonebook_in_t and open_phonebook_out_t have the same fields.
abbrev pub OpenPhonebookIn : Type 0
OpenPhonebookIn = CreatePhonebookIn

abbrev pub OpenPhonebookOut : Type 0
OpenPhonebookOut = CreatePhonebookOut

-- close_phonebook_in_t
pub record ClosePhonebookIn : Type 0 where
  pub token : Option String
  pub id : PhonebookId

-- close_phonebook_out_t
pub record ClosePhonebookOut : Type 0 where
  pub ret : Return

-- destroy_phonebook_in_t and destroy_phonebook_out_t have the same fields.
abbrev pub DestroyPhonebookIn : Type 0
DestroyPhonebookIn = ClosePhonebookIn

abbrev pub DestroyPhonebookOut : Type 0
DestroyPhonebookOut = ClosePhonebookOut

-- list_phonebooks_in_t
pub record ListPhonebooksIn : Type 0 where
  pub token : Option String
  pub max_ids : ℕ

-- list_phonebooks_out_t; `ids` is the array that `ids` points to, `none` for NULL.
pub record ListPhonebooksOut : Type 0 where
  pub ret : Return
  pub count : Option ℕ
  pub ids : Option (List PhonebookId)

-- hello_in_t
pub record HelloIn : Type 0 where
  pub phonebook_id : PhonebookId

-- sum_in_t
pub record SumIn : Type 0 where
  pub phonebook_id : PhonebookId
  pub x : ℕ
  pub y : ℕ

-- sum_out_t
pub record SumOut : Type 0 where
  pub result : Option ℕ
  pub ret : Return
