-- ===== src/Backend.antt =====
-- include/YP/YP-backend.h: the interface of a phonebook implementation.
pub mod Contract
pub mod Dummy
use phonebook.Base.{ℕ, Option, String, Run}
use phonebook.Common.{Return}

-- A `void*`; 0 is NULL.
abbrev pub Ptr : Type 0
Ptr = ℕ

abbrev pub null : Ptr
null = 0

-- What a callback does to the memory and the output of the process, of type `W`.
abbrev pub Cmd {ℓ} : Type 0 → Type ℓ → Type ℓ
Cmd W A = W → Run (A × W)

-- struct YP_backend_impl. `create_phonebook` and `open_phonebook` return the value that they leave
-- in `*context` beside their code; a missing configuration string (NULL) is `none`. The provider
-- that is passed to them is opaque to a backend and is left out. An int32_t is its bit pattern.
pub record BackendImpl (W : Type 0) : Type 0 where
  pub name : String
  pub create_phonebook : Option String → Cmd W (Return × Ptr)
  pub open_phonebook : Option String → Cmd W (Return × Ptr)
  pub close_phonebook : Ptr → Cmd W Return
  pub destroy_phonebook : Ptr → Cmd W Return
  pub get_config : Ptr → Cmd W String
  pub hello : Ptr → Cmd W (Unit {0})
  pub sum : Ptr → ℕ → ℕ → Cmd W ℕ
