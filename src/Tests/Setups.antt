-- ===== src/Tests/Setups.antt =====
-- The start and the configuration of a provider, its list of phonebooks on the wire, and sums.
use phonebook.Base.{
  ◌∷◌, ℕ, ◌≡◌, refl, true, none, some, List, [], ◌++◌, ok, fault, String, arith, length,
}
use phonebook.Common.{success, err_invalid_provider, PhonebookId, id_eq}
use phonebook.Backend.Contract.{Contract}
use phonebook.Backend.Dummy.{Memory, addresses}
use phonebook.Backend.Dummy.Contract.{dummy_backend-Contract}
use phonebook.Uthash.Items.{lookup}
use phonebook.Provider.{Provider, check_token, strcmp_eq, find_backend_impl, find_backend_from}
use phonebook.Provider.Valid.{IsValid}
use phonebook.Provider.Handlers.{finish, list_phonebooks_ult}
use phonebook.Provider.Owns.{Owns}
use phonebook.Provider.Configuration.{Resources, read_config, load_phonebook}
use phonebook.Provider.Configuration.Missing.{load_phonebook-missing_config}
use phonebook.Provider.Register.{
  provider_destroy, ProviderArgs, provider_register, register_rpcs, effective_token, refused,
}
use phonebook.Provider.Once.{provider_register_twice}
use phonebook.Provider.GetConfig.{provider_get_config}
use phonebook.Provider.GetConfig.Bounds.{provider_get_config-fault}
use phonebook.Types.{ListPhonebooksOut}
use phonebook.Types.Wire.{ListRecord, encode_list, decode_list}
use phonebook.Types.RoundTrip.{decode_list-encode_list, decode_list_unassigned}
use phonebook.Exchange.{delivered}
use phonebook.Admin.{cleaned}
use phonebook.Admin
use phonebook.Admin.Listing.{list_phonebooks-ids, memory_of}
use phonebook.Client.Heap.{find}
use phonebook.Bedrock.{
  register_provider, deregister_provider, create_provider_handle, destroy_provider_handle,
  deregister_provider-register_provider, destroy_provider_handle-create_provider_handle,
}
use phonebook.Provider.Names.{
  Named, Unnamed, provider_register-Named, provider_destroy-Unnamed, register_rpcs-Named,
}
use phonebook.Tests.Libraries.{
  Names, list_hash, json, null_laws, allocator, above-ne-null, margo, margo_laws, proc, proc_laws,
}
use phonebook.Tests.Fixtures.{
  provider-Owns, id_of, dummy, book, Book, provider, memory, no_memory, provider_with,
  provider-IsValid, list_call,
}

dummy_backend-Contract_example : Contract addresses dummy
dummy_backend-Contract_example = dummy_backend-Contract json allocator above-ne-null

abbrev pub resources : Resources
resources = record {
  calloc_ok = true;
  realloc_room = some 24;
  strdup_ok = true;
  uuid_at = id_of;
  calloc_ok_at = λ i. true;
}

abbrev args : ProviderArgs
args = record { token = some "secret"; config = some "conf"; pool = 0 }

pub id_of-inj : (i j : ℕ) → id_of i ≡ id_of j → i ≡ j
id_of-inj i j e = cc

provider_register-Named_example :
    (p : Provider (Memory ℕ) (List Book)) × (m : Names) × (v : Memory ℕ) × (provider_register json
        allocator margo resources 1 42
        (some args)
        []
        no_memory
      ≡ ok (record { ret = success; provider = some p; instance_state = m; world = v }))
    × Owns addresses p v
    × (p.token ≡ effective_token true (some "secret"))
    × (p.backend_types ≡ dummy ∷ [])
    × Named margo m 42 p.rpc_ids
unfolding read_config
provider_register-Named_example =
    provider_register-Named margo margo_laws json allocator resources 1 42 args 1 [] no_memory
      above-ne-null refl (omega arith) (λ i. refl) id_of-inj refl refl refl refl

-- The instance of margo after the registration of the provider with the id 42.
abbrev registrations : Names
registrations = (register_rpcs margo [] 42 0).1

provider_destroy-Unnamed_example :
    (v : Memory ℕ) × (m : Names) × (provider_destroy margo provider registrations memory
      ≡ ok (success, m, v))
    × Unnamed margo m 42
    × (addresses v ≡ [])
unfolding register_rpcs
provider_destroy-Unnamed_example =
    provider_destroy-Unnamed margo margo_laws addresses 42 provider memory registrations
      provider-Owns (register_rpcs-Named margo margo_laws [] 42 0)

provider_register_twice_example :
    provider_register {T = List Book} json allocator margo resources 1 42 none
      (register_rpcs margo [] 42 0).1
      no_memory
    ≡ ok (refused err_invalid_provider (register_rpcs margo [] 42 0).1 no_memory)
provider_register_twice_example =
    provider_register_twice margo margo_laws {T = List Book} json allocator resources 1 42 0 none []
      no_memory refl

load_phonebook-missing_config_example :
    load_phonebook json resources 1 (some 4) provider memory ≡ ok (provider, memory)
unfolding find_backend_impl find_backend_from strcmp_eq
load_phonebook-missing_config_example =
    load_phonebook-missing_config json null_laws allocator resources 1 4 5 provider memory refl refl
      refl refl refl

-- An id as text.
abbrev pub unparse : PhonebookId → String
unparse id = "id"

abbrev third_book : Book
third_book = record { fn = dummy; ctx = 16; id = id_of 3 }

abbrev two : Provider (Memory ℕ) (List Book)
two = provider_with (book ∷ third_book ∷ []) 2

two-IsValid : IsValid two
unfolding lookup id_eq
two-IsValid = record { distinct = (refl, (refl, tt)); counted = refl; types_counted = refl }

provider_get_config-fault_example : provider_get_config json unparse (some two) memory ≡ fault
provider_get_config-fault_example =
    provider_get_config-fault json unparse two memory two-IsValid (omega arith) (omega arith)

decode_list-encode_list_example :
    (bytes : List ℕ) × (encode_list proc
        (record { ret = 0; count = 1; ids = some (id_of 1 ∷ id_of 3 ∷ []) })
      ≡ ok bytes)
    × (decode_list proc true (bytes ++ 7 ∷ [])
        ≡ some (record { ret = 0; count = 1; ids = some (id_of 1 ∷ []) }, 7 ∷ []))
decode_list-encode_list_example =
    decode_list-encode_list proc proc_laws 0 1 (id_of 1 ∷ id_of 3 ∷ []) (7 ∷ []) (omega arith)
      (omega arith) (omega arith) (refl, (refl, tt))

decode_list_unassigned_example :
    (bytes : List ℕ) × (encode_list proc (record { ret = 7; count = 5; ids = none }) ≡ ok bytes)
    × (decode_list proc true bytes ≡ none)
decode_list_unassigned_example =
    decode_list_unassigned proc proc_laws 7 5 (omega arith) (omega arith) (omega arith)

list_phonebooks-ids_example :
    (out : ListPhonebooksOut) × (bytes : List ℕ) × (answer : ListRecord) × (list_phonebooks_ult
        list_call provider memory
      ≡ ok (finish out provider memory))
    × (encode_list proc (memory_of 9 out) ≡ ok bytes)
    × (decode_list proc true bytes ≡ some (answer, []))
    × (Admin.list_phonebooks 5 (delivered answer)
        ≡ ok (record {
          ret = success;
          written = some (record { count = 1; ids = id_of 1 ∷ [] });
          cleanup = cleaned;
        }))
    × (length (id_of 1 ∷ []) ≡ 1)
unfolding check_token strcmp_eq
list_phonebooks-ids_example =
    list_phonebooks-ids proc proc_laws 9 5 (some "secret") list_call provider memory
      provider-IsValid (omega arith) (refl, tt) refl refl refl

deregister_provider-register_provider_example :
    (p : Provider (Memory ℕ) (List Book)) × (m1 m2 : Names) × (v v' : Memory ℕ) × (register_provider
        json allocator margo resources 1 42
        (some "conf")
        0
        []
        no_memory
      ≡ ok (record { ret = success; provider = some p; instance_state = m1; world = v }))
    × (p.token ≡ none)
    × Named margo m1 42 p.rpc_ids
    × (deregister_provider json allocator margo resources p m1 v ≡ ok (success, m2, v'))
    × Unnamed margo m2 42
    × (addresses v' ≡ [])
unfolding read_config
deregister_provider-register_provider_example =
    deregister_provider-register_provider json allocator margo resources margo_laws 1 42 0
      (some "conf") 1 [] no_memory above-ne-null refl (omega arith) (λ i. refl) id_of-inj refl refl
      refl refl

destroy_provider_handle-create_provider_handle_example :
    destroy_provider_handle (record { mid = 0; addr = 3; provider_id = 42 }) ≡ (0, 3)
unfolding create_provider_handle find
destroy_provider_handle-create_provider_handle_example =
    destroy_provider_handle-create_provider_handle true 16 3 42
      (record {
        clients =
            (16, record { mid = 1; hello_id = 5; sum_id = 6; num_phonebook_handles = 0 }) ∷ [];
        handles = [];
      })
      refl
