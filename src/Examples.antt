-- ===== src/Examples.antt =====
-- The programs of examples/: server.c, admin.c and client.c.
pub mod Served
pub mod Session
pub mod System
use Prim.Native.String.{len}
use phonebook.Base.{
  ℕ, zero, suc, Bool, true, false, Option, none, some, String, List, [], ◌∷◌, Run, ok, fault, ◌>>=◌,
  ◌==◌, if◌then◌else◌,
}
use phonebook.Common.{Return, PhonebookId, is_success, phonebook_id_from_string}
use phonebook.Backend.{Ptr}
use phonebook.Backend.Dummy.{Memory, Allocator}
use phonebook.Json.{Json}
use phonebook.Margo.{Margo, MargoNames}
use phonebook.Uthash.{Uthash}
use phonebook.Exchange.{Exchange}
use phonebook.Types.{CreatePhonebookIn, ListPhonebooksIn, HelloIn, SumIn}
use phonebook.Types.Wire.{ListRecord}
use phonebook.Types.Messages.{CreateRecord, SumRecord}
use phonebook.Provider.Configuration.{Resources}
use phonebook.Provider.Register.{provider_args_init, Registered, provider_register}
use phonebook.Admin.{create_in, Listed}
use phonebook.Admin
use phonebook.Admin.Init.{admin_init}
use phonebook.Client.Heap.{ClientHeap, find}
use phonebook.Client.{phonebook_handle_create, phonebook_handle_release, client_finalize}
use phonebook.Client.Init.{client_init_names}
use phonebook.Client.Rpc.{hello_in, sum_in, say_hello, compute_sum}

-- main of server.c: the code of the registration is not looked at, and the program then waits.
module _ {T J M : Type 0} ⦃H : Uthash (Memory J) T⦄ (json : Json J) (a : Allocator)
    (margo : Margo M) (r : Resources) where
  unfoldable pub server_main : (mid : ℕ) → M → Memory J → Run (Registered (Memory J) T M)
  server_main mid m w = provider_register json a margo r mid 42 (some provider_args_init) m w

-- The network, with a state `S` of its own: what margo delivers for an RPC to an address and a provider id.
pub record Service (S : Type 0) : Type 0 where
  pub create : (addr provider_id : ℕ) → CreatePhonebookIn → S → Run (Exchange CreateRecord × S)
  pub list : (addr provider_id : ℕ) → ListPhonebooksIn → S → Run (Exchange ListRecord × S)
  -- whether margo_create and margo_provider_forward return HG_SUCCESS
  pub hello : (addr provider_id : ℕ) → HelloIn → S → Run ((Bool × Bool) × S)
  pub sum : (addr provider_id : ℕ) → SumIn → S → Run (Exchange SumRecord × S)

-- How a program ends: with its usage, by FATAL, or at the end of main, having printed something.
pub data Exit (A : Type 0) : Type 0 where
  usage fatal : Exit A
  done : A → Exit A

-- `if(!test) FATAL(...)`
abbrev pub or_fatal : {A S : Type 0} → (test : Bool) → S → Run (Exit A × S) → Run (Exit A × S)
or_fatal true s next = next
or_fatal false s next = ok (fatal, s)

-- The ids that the loop of admin.c prints; an element that YP_list_phonebooks did not write is a fault.
unfoldable pub read_ids : (count : ℕ) → List PhonebookId → Run (List PhonebookId)
read_ids zero ids = ok []
read_ids (suc n) [] = fault
read_ids (suc n) (id ∷ ids) = do rest ← read_ids n ids; ok (id ∷ rest)

unfoldable pub print_ids : Option Listed → Run (List PhonebookId)
unfolding read_ids
print_ids none = fault
print_ids (some listed) = read_ids listed.count listed.ids

module _ {S M : Type 0} (service : Service S) (names : MargoNames M) where
  -- main of admin.c; `lookup_ok`, `calloc_ok` and `free_ok` tell whether margo_addr_lookup, the calloc of
  -- YP_admin_init and margo_addr_free succeed.
  unfoldable pub admin_main :
      (argc : ℕ) (lookup_ok calloc_ok free_ok : Bool) (mid addr provider_id : ℕ)
      → M
      → S
      → Run (Exit (List PhonebookId) × S)
  unfolding print_ids
  admin_main argc lookup_ok calloc_ok free_ok mid addr provider_id m s =
      if argc == 3
      then or_fatal lookup_ok s (
          or_fatal (is_success (admin_init names calloc_ok mid m).0.0) s (do
            (create, s1) ←
                service.create addr provider_id (create_in none (some "dummy") (some "{}")) s
            or_fatal (is_success (Admin.create_phonebook create).ret) s1 (do
              (list, s2) ← service.list addr provider_id (record { token = none; max_ids = 4 }) s1
              listed ← Admin.list_phonebooks 4 list
              or_fatal (is_success listed.ret) s2
                  (do ids ← print_ids listed.written; or_fatal free_ok s2 (ok (done ids, s2))))))
      else ok (usage, s)

  -- client.c from the creation of the handle on, which is at `handle` if calloc succeeds.
  unfoldable pub use_handle :
      (handle : Ptr) (free_ok : Bool) (client : Ptr)
      → S
      → ClientHeap
      → Run (Exit ℕ × (S × ClientHeap))
  use_handle handle free_ok client s h = elim (find handle h.handles) [
    | none ↦ fault
    | some rh ↦ do
      ((created, forwarded), s1) ← service.hello rh.addr rh.provider_id (hello_in rh) s
      or_fatal (is_success (say_hello created forwarded).ret) (s1, h)
          (do
            (sum, s2) ← service.sum rh.addr rh.provider_id (sum_in rh 45 23) s1
            let summed = compute_sum sum
            or_fatal (is_success summed.ret) (s2, h)
                (do
                  (released, h1) ← phonebook_handle_release handle h
                  or_fatal (is_success released) (s2, h1)
                      (do
                        (finalized, h2) ← client_finalize client h1
                        or_fatal (is_success finalized) (s2, h2)
                            (or_fatal free_ok (s2, h2)
                              (elim summed.written [
                                | none ↦ fault
                                | some result ↦ ok (done result, (s2, h2))
                              ])))))
  ]

  -- main of client.c; `ptr` and `handle` are what calloc returns for the client and for the handle,
  -- `uuid_parse` is the function of libuuid, and `unset` what the variable phonebook_id holds before.
  unfoldable pub client_main :
      (uuid_parse : String → Option (List ℕ)) (unset : PhonebookId) (argc : ℕ) (id_str : String)
      (lookup_ok dup_ok free_ok : Bool) (ptr handle : Ptr) (mid addr provider_id : ℕ)
      → M
      → S
      → ClientHeap
      → Run (Exit ℕ × (S × ClientHeap))
  unfolding use_handle
  client_main uuid_parse unset argc id_str lookup_ok dup_ok free_ok ptr handle mid addr provider_id
        m s h =
      if argc == 4
      then or_fatal (len id_str == 36) (s, h)
          (or_fatal lookup_ok (s, h)
            (do
              ((ret, client), m', h1) ← client_init_names names ptr mid m h
              or_fatal (is_success ret) (s, h1)
                  (elim client [
                    | none ↦ fault
                    | some clt ↦ do
                      ((ret', made), h2) ←
                          phonebook_handle_create handle dup_ok clt addr provider_id
                            (phonebook_id_from_string uuid_parse id_str unset) h1
                      or_fatal (is_success ret') (s, h2) (use_handle handle free_ok clt s h2)
                  ])))
      else ok (usage, (s, h))
