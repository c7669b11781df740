-- ===== src/Provider.antt =====
-- src/provider.h and the functions of src/provider.c that work on a provider's hash of phonebooks,
-- its array of backend types and its token.
use text.Mathlib.Text.{◌==◌ as str_eq}
pub mod Valid
pub mod Handlers
pub mod Backends
pub mod Owns
pub mod Listing
pub mod Lifecycle
pub mod Requests
pub mod Access
pub mod Directory
pub mod Refine
pub mod Configuration
pub mod Register
pub mod GetConfig
pub mod Shutdown
pub mod Setup
pub mod Names
pub mod Once
pub mod RoundTrip
pub mod Threads
use phonebook.Base.{
  ℕ, zero, suc, ◌+◌, Bool, true, false, Option, none, some, String, List, [], ◌∷◌, ◌++◌, Run, ok,
  fault, ◌>>=◌, if◌then◌else◌, get_elem?, take, leb, ◌*◌,
}
use phonebook.Base.Words.{incr64, decr64}
use phonebook.Common.{Return, success, err_invalid_phonebook, PhonebookId}
use phonebook.Backend.{BackendImpl, Cmd}
use phonebook.Uthash.{Uthash}
use phonebook.Uthash.Items.{Phonebook}

-- The ids under which the RPCs are registered (hg_id_t).
pub record RpcIds : Type 0 where
  pub create_phonebook_id : ℕ
  pub open_phonebook_id : ℕ
  pub close_phonebook_id : ℕ
  pub destroy_phonebook_id : ℕ
  pub list_phonebooks_id : ℕ
  pub hello_id : ℕ
  pub sum_id : ℕ

-- `sizeof(YP_backend_impl*)`
abbrev pub pointer_size : ℕ
pointer_size = 8

-- struct YP_provider. `mid` and `pool` are handles of margo and Argobots; `backend_types_bytes` is
-- the size that `backend_types` was last reallocated to.
pub record Provider (W T : Type 0) : Type 0 where
  pub mid : ℕ
  pub provider_id : ℕ
  pub pool : ℕ
  pub token : Option String
  pub num_backend_types : ℕ
  pub backend_types : List (BackendImpl W)
  pub backend_types_bytes : ℕ
  pub num_phonebooks : ℕ
  pub phonebooks : T
  pub rpc_ids : RpcIds

-- `strcmp(a, b) == 0`; strcmp on NULL is a fault.
unfoldable pub strcmp_eq : Option String → Option String → Run Bool
strcmp_eq (some a) (some b) = ok (str_eq a b)
strcmp_eq _ _ = fault

module _ {W : Type 0} where
  -- The loop of find_backend_impl from index `i`, with the rounds that are left.
  unfoldable pub find_backend_from :
      (rounds i : ℕ) → List (BackendImpl W) → Option String → Run (Option (BackendImpl W))
  find_backend_from zero i types name = ok none
  find_backend_from (suc rounds) i types name =
      let rest = find_backend_from rounds (i + 1) types name in
      elim (get_elem? types i) [
        | none ↦ fault
        | some impl ↦ do
          same ← strcmp_eq name (some impl.name)
          if same then ok (some impl) else rest
      ]

  -- `if(close_phonebook) ret = phonebook->fn->close_phonebook(phonebook->ctx);`
  unfoldable pub close_if : (close_phonebook : Bool) → Phonebook W → Cmd W Return
  close_if true phonebook w = phonebook.fn.close_phonebook phonebook.ctx w
  close_if false phonebook w = ok (success, w)

module _ {W T : Type 0} where
  unfoldable pub check_token : Provider W T → Option String → Run Bool
  check_token p token = elim p.token [ none ↦ ok true | some t ↦ strcmp_eq (some t) token ]

  unfoldable pub find_backend_impl : Provider W T → Option String → Run (Option (BackendImpl W))
  find_backend_impl p name = find_backend_from p.num_backend_types 0 p.backend_types name

  -- realloc is asked for as many bytes as there are backends. `room` is the number of bytes of the block
  -- that it gives, which may be more than it was asked for, and `none` where it returns NULL. The
  -- pointer is written at index `num_backend_types - 1`, which is a fault where that is not within the
  -- block.
  unfoldable pub add_backend_impl :
      (room : Option ℕ) → Provider W T → BackendImpl W → Run (Return × Provider W T)
  add_backend_impl none p backend = fault
  add_backend_impl (some room) p backend =
      let n = incr64 p.num_backend_types in
      if leb (pointer_size * (p.num_backend_types + 1)) room
      then ok (
        success,
        record p {
          num_backend_types = n;
          backend_types_bytes = n;
          backend_types = take p.num_backend_types p.backend_types ++ backend ∷ [];
        },
      )
      else fault

-- The functions on the hash of phonebooks.
module _ {W T : Type 0} ⦃H : Uthash W T⦄ where
  unfoldable pub find_phonebook : Provider W T → PhonebookId → Option (Phonebook W)
  find_phonebook p id = H.find p.phonebooks id

  unfoldable pub add_phonebook : Provider W T → Phonebook W → Return × Provider W T
  unfolding find_phonebook
  add_phonebook p phonebook = elim (find_phonebook p phonebook.id) [
    | some existing ↦ (err_invalid_phonebook, p)
    | none ↦ (
      success,
      record p {
        phonebooks = H.add p.phonebooks phonebook;
        num_phonebooks = incr64 p.num_phonebooks;
      },
    )
  ]

  unfoldable pub remove_phonebook :
      Provider W T → PhonebookId → (close_phonebook : Bool) → W → Run (Return × Provider W T × W)
  unfolding find_phonebook close_if
  remove_phonebook p id close_phonebook w = elim (find_phonebook p id) [
    | none ↦ ok (err_invalid_phonebook, p, w)
    | some phonebook ↦ do
      (ret, w') ← close_if close_phonebook phonebook w
      ok (
        ret,
        record p {
          phonebooks = H.del p.phonebooks phonebook;
          num_phonebooks = decr64 p.num_phonebooks;
        },
        w',
      )
  ]

  -- The loop of remove_all_phonebooks over the entries that HASH_ITER visits.
  unfoldable pub remove_each : List (Phonebook W) → T → W → Run (T × W)
  remove_each [] t w = ok (t, w)
  remove_each (r ∷ rest) t w = do
    (ret, w') ← r.fn.close_phonebook r.ctx w
    remove_each rest (H.del t r) w'

  unfoldable pub remove_all_phonebooks : Provider W T → W → Run (Provider W T × W)
  unfolding remove_each
  remove_all_phonebooks p w = do
    (t, w') ← remove_each (H.items p.phonebooks) p.phonebooks w
    ok (record p { phonebooks = t; num_phonebooks = 0 }, w')
