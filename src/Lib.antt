-- ===== src/Lib.antt =====
-- A model of YP, a service that keeps phonebooks for its clients, and of what makes it correct.
--
-- The program has four parts. A provider (src/provider.c) is a server: it keeps a hash of phonebooks,
-- each of which is a context of a backend, and an array of the backends that it knows; margo calls
-- one of its handlers for each RPC. A backend (include/YP/YP-backend.h) is a table of functions; one
-- comes with the program (src/dummy/dummy-backend.c). The admin library (src/admin.c) sends the RPCs
-- that create, open, close, destroy and list phonebooks, and the client library (src/client.c)
-- counts handles of phonebooks and sends the RPCs that use them. src/types.h serialises the RPCs.
--
-- The files:
--   Base: library names, lists over native numbers, 64-bit counters, and results that may fault. A
--     `fault` stands for what C leaves undefined: a NULL or dangling pointer, or a read or a write out
--     of bounds. `do` stops at it.
--   Common: YP-common.h. Backend, Backend/Contract: YP-backend.h, and what a provider relies on in a
--     backend. Backend/Dummy: dummy-backend.c on an explicit set of live contexts.
--   Uthash, Json, Margo: interfaces with the documented behaviour of the libraries that the code
--     calls: the hash (src/uthash.h is a copy of that library), json-c and margo.
--   Types: types.h; Types/Wire and Types/RoundTrip: the hand-written hg_proc_list_phonebooks_out_t.
--     Types/Codec and Types/Messages: the serialisations that MERCURY_GEN_PROC makes, field by field.
--     Types/Free: the array of ids from HG_DECODE to HG_FREE.
--   Provider: the struct, find_phonebook, add_phonebook, remove_phonebook, remove_all_phonebooks,
--     find_backend_impl, add_backend_impl and check_token. Below it: Handlers (the functions YP_*_ult),
--     Configuration and Register (YP_provider_register, YP_provider_register_backend,
--     YP_finalize_provider, YP_provider_destroy), GetConfig (YP_provider_get_config), and the proofs:
--     Valid (the counters and the distinct ids), Backends, Owns (the contexts that are alive are
--     those of the phonebooks), Listing, Lifecycle, Requests (the service as a state machine with a step
--     for each RPC), Directory and Refine (what each request may do), Access (tokens and errors),
--     RoundTrip, Setup, Once, Shutdown, Names (the RPC names with margo), Configuration/Loading, Configuration/Missing,
--     GetConfig/Bounds.
--   Provider/Threads: the handlers in two parts, before and after their call of a backend, and the
--     turns in which Argobots may run the parts of all requests in flight. Below it: Owners, View,
--     Moves, Begins, Safe and History (every interleaving), Parts, Flow and Flow/Turns (the ids
--     that are listed, being made and being freed), Race (two requests to destroy one phonebook).
--   Exchange, Admin: the functions of admin.c on what one exchange of margo delivers. Admin/Init:
--     YP_admin_init. Admin/Finalize: YP_admin_finalize. Admin/Listing: YP_list_phonebooks against the
--     handler. Admin/Creating: YP_create_phonebook and YP_open_phonebook against the handlers.
--     Admin/Closing: the same for YP_close_phonebook and YP_destroy_phonebook.
--   Client: the functions of client.c on a heap (Client/Heap). Client/Counted, Client/Calls,
--     Client/Sharing: the two counts. Client/Init: the RPC names of YP_client_init. Client/Rpc:
--     YP_say_hello and YP_compute_sum.
--   Bedrock: src/bedrock-module.c, which starts and stops a provider, and the provider handles.
--   Examples: the programs server.c, admin.c and client.c of examples/, against an abstract service;
--     Examples/Served, Examples/Session and Examples/System: against a provider, and one after another.
--   Remote: a request from the call of a function of admin.c or client.c over the wire to the
--     handler and the backend, and its answer back to the caller; any step on the way may fail.
--     Remote/Spec: what users may rely on, a list of ids behind a token. Remote/Stands (when a
--     provider stands for such a list), Moves, Handled and its children (the handlers), Loads (the
--     configured phonebooks), Carried (the exchange), Answered (the answers on the wire) and
--     Refines (the whole against the list). Remote/Lifetime: from YP_provider_register to
--     YP_provider_destroy. Remote/Restart: a configuration that is written by
--     YP_provider_get_config and read by YP_provider_register. Remote/Sums: sums of signed integers
--     (Base/Signed). Remote/Total: requests that give their strings.
--   Tests: concrete libraries, providers and clients, at which the theorems are applied.
--
-- How the model stands to the code. A provider is a record with the fields of struct YP_provider; the
-- memory and the output of the backends are a type `W`, which the functions of a backend change. What
-- a library delivers for one call (the decoded input, a uuid, whether calloc gives memory) is an
-- argument. A handler gives what it does with its handle: its answer, the release of its input and of
-- the handle. A field of an answer that the code does not assign is `none`. Integers are natural
-- numbers with their wrap-around: size_t and uint64_t at 2^64, an int32_t by its 32 bits. The loops are
-- structural: find_backend_impl runs over its count, the loops on the hash and on arrays over a list.
--
-- The block that realloc gives may be larger than it is asked for; its size is a parameter, and a write
-- beyond it is a fault (add_backend_impl asks for one byte, and writes a pointer). calloc gives NULL for an
-- array whose size is no size_t.
--
-- Not modelled: log messages; the release of json-c objects; the table of functions of
-- src/bedrock-module.c; tests/. The parts of handlers run one at a time, each to its end: two parts
-- that run at once, on two execution streams, are not modelled. An overflow of an int32_t, which C leaves
-- undefined, wraps, and the release of an input or of an output that was never got does nothing;
-- Remote/Total leaves such runs out.
pub mod Base
pub mod Common
pub mod Backend
pub mod Uthash
pub mod Json
pub mod Margo
pub mod Types
pub mod Provider
pub mod Exchange
pub mod Admin
pub mod Client
pub mod Bedrock
pub mod Examples
pub mod Remote
mod Tests
