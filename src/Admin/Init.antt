-- ===== src/Admin/Init.antt =====
-- YP_admin_init of src/admin.c and struct YP_admin of src/admin.h: the names of the admin's RPCs
-- and a margo instance.
use text.Mathlib.Text.{◌==◌ as str_eq}
use text.Mathlib.TextEquality.{eq_iff}
use mathlib.Core.Option
use phonebook.Base.{
  ℕ, ◌≡◌, refl, ◌∙◌, Bool, true, false, Option, none, some, String, if◌then◌else◌, arith,
}
use phonebook.Common.{Return, success, err_allocation}
use phonebook.Margo.{MargoNames, NamesLaws}

-- struct YP_admin
pub record Admin : Type 0 where
  pub mid : ℕ
  pub create_phonebook_id : ℕ
  pub open_phonebook_id : ℕ
  pub close_phonebook_id : ℕ
  pub destroy_phonebook_id : ℕ
  pub list_phonebooks_id : ℕ

module _ {M : Type 0} (names : MargoNames M) where
  -- The id that margo_registered_name writes; a field of an unknown name keeps the 0 of calloc.
  unfoldable pub known_id : M → String → ℕ
  known_id m name = Option.get_or (names.registered_name m name) 0

  -- The branch of YP_admin_init for names that are registered already.
  unfoldable pub found_admin : (mid : ℕ) → M → Admin
  unfolding known_id
  found_admin mid m = record {
    mid = mid;
    create_phonebook_id = known_id m "YP_create_phonebook";
    open_phonebook_id = known_id m "YP_open_phonebook";
    close_phonebook_id = known_id m "YP_close_phonebook";
    destroy_phonebook_id = known_id m "YP_destroy_phonebook";
    list_phonebooks_id = known_id m "YP_list_phonebooks";
  }

  -- The branch that registers them.
  unfoldable pub register_admin : (mid : ℕ) → M → Admin × M
  register_admin mid m =
      let (create, m1) = names.register m "YP_create_phonebook" in
      let (open_id, m2) = names.register m1 "YP_open_phonebook" in
      let (close, m3) = names.register m2 "YP_close_phonebook" in
      let (destroy, m4) = names.register m3 "YP_destroy_phonebook" in
      let (list, m5) = names.register m4 "YP_list_phonebooks" in
      (
        record {
          mid = mid;
          create_phonebook_id = create;
          open_phonebook_id = open_id;
          close_phonebook_id = close;
          destroy_phonebook_id = destroy;
          list_phonebooks_id = list;
        },
        m5,
      )

  -- YP_admin_init; `calloc_ok` is false where calloc returns NULL.
  unfoldable pub admin_init : (calloc_ok : Bool) (mid : ℕ) → M → (Return × Option Admin) × M
  unfolding found_admin register_admin
  admin_init calloc_ok mid m =
      if calloc_ok
      then elim (names.registered_name m "YP_create_phonebook") [
        | some id ↦ ((success, some (found_admin mid m)), m)
        | none ↦ let (admin, m') = register_admin mid m in ((success, some admin), m')
      ]
      else ((err_allocation, none), m)

module _ {M : Type 0} (names : MargoNames M) (laws : NamesLaws M names) where
  pub registered_name-register :
      (m : M) (name other : String)
      → str_eq name other ≡ false
      → names.registered_name (names.register m name).1 other ≡ names.registered_name m other
  registered_name-register m name other h =
      laws.register_other m name other (λ e. ground (arith, eq_iff name other))

  -- The first admin of a margo instance that knows none of the names registers them. A second one then
  -- gets the ids of the first and leaves the instance as it is.
  pub admin_init_twice :
      (mid mid' : ℕ) (m : M)
      → names.registered_name m "YP_create_phonebook" ≡ none
      → (a : Admin) × (m' : M) × (admin_init names true mid m ≡ ((success, some a), m'))
        × (admin_init names true mid' m' ≡ ((success, some (record a { mid = mid' })), m'))
  unfolding admin_init found_admin register_admin known_id
  admin_init_twice mid mid' m new =
      let keep = registered_name-register in
      let self = laws.register_self in
      let (a, m5) = register_admin names mid m in
      let m1 = (names.register m "YP_create_phonebook").1 in
      let m2 = (names.register m1 "YP_open_phonebook").1 in
      let m3 = (names.register m2 "YP_close_phonebook").1 in
      let m4 = (names.register m3 "YP_destroy_phonebook").1 in
      let create =
        keep m4 "YP_list_phonebooks" "YP_create_phonebook" refl
        ∙ keep m3 "YP_destroy_phonebook" "YP_create_phonebook" refl
        ∙ keep m2 "YP_close_phonebook" "YP_create_phonebook" refl
        ∙ keep m1 "YP_open_phonebook" "YP_create_phonebook" refl
        ∙ self m "YP_create_phonebook" in
      let opened =
        keep m4 "YP_list_phonebooks" "YP_open_phonebook" refl
        ∙ keep m3 "YP_destroy_phonebook" "YP_open_phonebook" refl
        ∙ keep m2 "YP_close_phonebook" "YP_open_phonebook" refl
        ∙ self m1 "YP_open_phonebook" in
      let close =
        keep m4 "YP_list_phonebooks" "YP_close_phonebook" refl
        ∙ keep m3 "YP_destroy_phonebook" "YP_close_phonebook" refl
        ∙ self m2 "YP_close_phonebook" in
      let destroy =
        keep m4 "YP_list_phonebooks" "YP_destroy_phonebook" refl ∙ self m3 "YP_destroy_phonebook" in
      let list = self m4 "YP_list_phonebooks" in
      (a, m5, rw new refl, rw (create, known_id, create, opened, close, destroy, list) refl)
