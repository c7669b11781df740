-- ===== src/Tests/Programs.antt =====
-- Messages, calls of the admin library and the programs of examples/ at concrete inputs.
use phonebook.Base.{
  Option, ℕ, ◌+◌, ◌≡◌, ◌≢◌, refl, true, some, String, List, [], ◌∷◌, ◌++◌, ok, arith,
}
use phonebook.Common.{phonebook_id_to_string, success}
use phonebook.Backend.Dummy.{Memory, addresses}
use phonebook.Types.Wire.{decode_list, ids_from}
use phonebook.Types.Free.{decode_list_at, free_list, free_list-decode_list_at}
use phonebook.Types.Messages.{Message, sum_in, kind_of, encode, decode, decode-encode}
use phonebook.Provider.{Provider}
use phonebook.Provider.Owns.{Owns}
use phonebook.Provider.Register.{register_rpcs}
use phonebook.Admin.Closing.{Ends, remote_close, remote_destroy, close_phonebook-Ends}
use phonebook.Client.Heap.{ClientHeap, find}
use phonebook.Examples.{done, server_main, admin_main, client_main}
use phonebook.Examples.Served.{provider_service, Garbage}
use phonebook.Examples.System.{EmptyLaws, programs-print}
use phonebook.Tests.Libraries.{
  list_hash, json, allocator, above-ne-null, proc, proc_laws, names, margo,
}
use phonebook.Tests.Texts.{texts}
use phonebook.Tests.Fixtures.{id_of, Book, provider, memory, no_memory, provider-Owns, destroy_call}
use phonebook.Tests.Setups.{resources}

abbrev sum_message : Message
sum_message = sum_in (record { phonebook_id = id_of 1; x = 40; y = 2 })

decode-encode_example :
    decode proc texts (kind_of sum_message) (encode proc texts sum_message ++ 7 ∷ [])
    ≡ some (sum_message, 7 ∷ [])
decode-encode_example =
    decode-encode proc proc_laws texts sum_message (7 ∷ []) (refl, omega arith, omega arith)

close_phonebook-Ends_example :
    Ends addresses
      (destroy_call 1)
      (some "secret")
      (id_of 1)
      provider
      memory
      provider-Owns
      (λ f. f.close_phonebook)
      (λ code. code)
      (remote_close (destroy_call 1) provider memory)
    × Ends addresses
        (destroy_call 1)
        (some "secret")
        (id_of 1)
        provider
        memory
        provider-Owns
        (λ f. f.destroy_phonebook)
        (λ code. success)
        (remote_destroy (destroy_call 1) provider memory)
close_phonebook-Ends_example =
    close_phonebook-Ends addresses (destroy_call 1) (some "secret") (id_of 1) provider memory
      provider-Owns refl tt

abbrev pub garbage : Garbage
garbage = record { id = id_of 0; count = 77; result = 13 }

-- The text that names the new phonebook; each text names it.
abbrev id_text : String
id_text = "02000000-0000-0000-0000-000000000000"

abbrev parse_id : ℕ → String → Option (List ℕ)
parse_id n s = some (id_of n).uuid

abbrev unparse_id : List ℕ → String
unparse_id bytes = id_text

abbrev no_client : ClientHeap
no_client = record { clients = []; handles = [] }

empty_laws : EmptyLaws ℕ json
empty_laws = record { no_members = λ key. refl; empty_text = refl }

not_null : (n : ℕ) → ◌≢◌ {A = ℕ} (n + 1) 0
not_null n e = omega (arith, e)

programs-print_example :
    (p p' : Provider (Memory ℕ) (List Book)) × (v v' : Memory ℕ) × (server_main json allocator margo
        resources 1 [] no_memory
      ≡ ok (record {
        ret = success;
        provider = some p;
        instance_state = margo.push_finalize_callback (register_rpcs margo [] 42 0).1;
        world = no_memory;
      }))
    × (admin_main
          (provider_service proc 3 true (id_of 2) garbage)
          names
          3
          true
          true
          true
          1
          3
          42
          []
          (p, no_memory)
        ≡ ok (done (id_of 2 ∷ []), (p', v)))
    × (client_main
          (provider_service proc 3 true (id_of 2) garbage)
          names
          (parse_id 2)
          (id_of 0)
          4
          id_text
          true
          true
          true
          16
          24
          1
          3
          42
          []
          (p', v)
          no_client
        ≡ ok (done 68, ((p', v'), no_client)))
    × Owns addresses p' v'
unfolding phonebook_id_to_string
programs-print_example =
    programs-print json empty_laws allocator above-ne-null margo resources proc proc_laws names 1 []
      no_memory (id_of 2) garbage 1 [] (parse_id 2) unparse_id (id_of 0) 16 24 1 3 true [] no_client
      refl (omega arith) refl refl refl refl refl refl (not_null 15) (not_null 23)

-- A list answer with one id, and a byte that follows it.
abbrev list_buffer : List ℕ
list_buffer = 0 ∷ 1 ∷ (id_of 9).uuid ++ 7 ∷ []

free_list-decode_list_at_example :
    (decode_list proc true list_buffer
      ≡ some (record { ret = 0; count = 1; ids = some (id_of 9 ∷ []) }, 7 ∷ []))
    × (free_list (record { ret = 0; count = 1; ids = 32 }) ((32, id_of 9 ∷ []) ∷ []) ≡ ok [])
unfolding decode_list_at find ids_from
free_list-decode_list_at_example =
    free_list-decode_list_at proc 32 (id_of 0 ∷ []) list_buffer (7 ∷ []) [] refl refl
