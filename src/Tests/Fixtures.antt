-- ===== src/Tests/Fixtures.antt =====
-- Phonebooks, providers and requests with concrete contents.
use phonebook.Base.{ℕ, refl, true, some, List, [], ◌∷◌}
use phonebook.Common.{PhonebookId}
use phonebook.Backend.{BackendImpl}
use phonebook.Backend.Contract.{Contract, holds}
use phonebook.Backend.Dummy.{Memory, addresses, dummy_backend}
use phonebook.Backend.Dummy.Contract.{dummy_backend-Contract}
use phonebook.Uthash.Items.{lookup, Phonebook}
use phonebook.Types.{CreatePhonebookIn, ClosePhonebookIn, ListPhonebooksIn, SumIn}
use phonebook.Provider.{Provider}
use phonebook.Provider.Handlers.{Call}
use phonebook.Provider.Valid.{IsValid}
use phonebook.Provider.Owns.{Owns}
use phonebook.Tests.Libraries.{list_hash, json, allocator, above-ne-null}

-- An id whose first byte is `n`.
abbrev pub id_of : ℕ → PhonebookId
id_of n = record { uuid = n ∷ 0 ∷ 0 ∷ 0 ∷ 0 ∷ 0 ∷ 0 ∷ 0 ∷ 0 ∷ 0 ∷ 0 ∷ 0 ∷ 0 ∷ 0 ∷ 0 ∷ 0 ∷ [] }

abbrev pub dummy : BackendImpl (Memory ℕ)
dummy = dummy_backend json allocator

pub dummy-Contract : Contract addresses dummy
dummy-Contract = dummy_backend-Contract json allocator above-ne-null

-- A phonebook of the dummy backend, with its context at the address 8.
abbrev pub book : Phonebook (Memory ℕ)
book = record { fn = dummy; ctx = 8; id = id_of 1 }

abbrev pub Book : Type 0
Book = Phonebook (Memory ℕ)

abbrev pub provider_with : List Book → ℕ → Provider (Memory ℕ) (List Book)
provider_with l n = record {
  mid = 1;
  provider_id = 42;
  pool = 0;
  token = some "secret";
  num_backend_types = 1;
  backend_types = dummy ∷ [];
  backend_types_bytes = 1;
  num_phonebooks = n;
  phonebooks = l;
  rpc_ids = record {
    create_phonebook_id = 0;
    open_phonebook_id = 1;
    close_phonebook_id = 2;
    destroy_phonebook_id = 3;
    list_phonebooks_id = 4;
    hello_id = 5;
    sum_id = 6;
  };
}

-- A provider with one phonebook.
abbrev pub provider : Provider (Memory ℕ) (List Book)
provider = provider_with (book ∷ []) 1

abbrev pub memory : Memory ℕ
memory = record { contexts = (8, 0) ∷ []; stdout = [] }

abbrev pub no_memory : Memory ℕ
no_memory = record { contexts = []; stdout = [] }

pub provider-IsValid : IsValid provider
unfolding lookup
provider-IsValid = record { distinct = (refl, tt); counted = refl; types_counted = refl }

pub provider-Owns : Owns addresses provider memory
unfolding holds
provider-Owns = record {
  valid = provider-IsValid;
  live = refl;
  apart = (refl, tt);
  known = (dummy-Contract, tt);
  types = (dummy-Contract, tt);
}

-- A call whose input comes through; a new phonebook gets the id 2.
abbrev pub call_with : {In : Type 0} → In → Call In
call_with input = record { input = some input; uuid = id_of 2; calloc_ok = true }

abbrev pub create_call : Call CreatePhonebookIn
create_call = call_with (record { type = some "dummy"; config = some "{}"; token = some "secret" })

abbrev pub destroy_call : ℕ → Call ClosePhonebookIn
destroy_call n = call_with (record { token = some "secret"; id = id_of n })

abbrev pub bad_call : Call ClosePhonebookIn
bad_call = call_with (record { token = some "guess"; id = id_of 1 })

abbrev pub list_call : Call ListPhonebooksIn
list_call = call_with (record { token = some "secret"; max_ids = 5 })

abbrev pub sum_call : Call SumIn
sum_call = call_with (record { phonebook_id = id_of 1; x = 40; y = 2 })
