-- ===== src/Exchange.antt =====
-- One RPC as src/admin.c and src/client.c see it: what margo_create, margo_provider_forward and
-- margo_get_output deliver, and how the code cleans up.
use phonebook.Base.{Bool, true, Option, none, some, List, [], ◌∷◌, if◌then◌else◌}
use phonebook.Common.{Return, err_from_mercury}

-- Whether margo_create and margo_provider_forward return HG_SUCCESS, and the output that
-- margo_get_output decodes, `none` where it fails.
pub record Exchange (Out : Type 0) : Type 0 where
  pub created : Bool
  pub forwarded : Bool
  pub output : Option Out

-- An exchange in which margo delivers an answer.
abbrev pub delivered : {Out : Type 0} → Out → Exchange Out
delivered out = record { created = true; forwarded = true; output = some out }

-- The calls of margo that release what the exchange holds.
pub data Cleanup : Type 0 where
  free_output destroy_handle : Cleanup

-- The code that a function returns, what it writes through its pointers, and its cleaning up.
pub record Outcome (A : Type 0) : Type 0 where
  pub ret : Return
  pub written : Option A
  pub cleanup : List Cleanup

abbrev pub failed : {A : Type 0} → List Cleanup → Outcome A
failed cleanup = record { ret = err_from_mercury; written = none; cleanup = cleanup }

module _ {Out A : Type 0} where
  -- The part that the functions of admin.c share: the three checks, each with its cleaning up.
  unfoldable pub exchange : Exchange Out → (Out → Outcome A) → Outcome A
  exchange e use_output =
      if e.created
      then (if e.forwarded
          then elim e.output [ none ↦ failed (destroy_handle ∷ []) | some out ↦ use_output out ]
          else failed (destroy_handle ∷ []))
      else failed []
