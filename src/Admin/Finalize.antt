-- ===== src/Admin/Finalize.antt =====
-- YP_admin_finalize of src/admin.c: the admins on a heap, from YP_admin_init to their release.
use phonebook.Base.{
  ℕ, ◌≡◌, ◌≢◌, refl, sym, subst, true, false, Option, none, some, List, ◌∷◌, Run, ok, fault, arith,
  ◌==◌, if◌then◌else◌, Option-cases, inl, inr,
}
use phonebook.Common.{Return, success}
use phonebook.Backend.{Ptr, null}
use phonebook.Margo.{MargoNames}
use phonebook.Client.Heap.{find, drop_key, find-head, drop_key-head}
use phonebook.Admin.Init.{Admin, admin_init}

abbrev pub AdminHeap : Type 0
AdminHeap = List (Ptr × Admin)

-- free(admin), where an address that is not allocated is a fault, and NULL is none.
unfoldable pub admin_finalize : Ptr → AdminHeap → Run (Return × AdminHeap)
admin_finalize admin h =
    if admin == null
    then ok (success, h)
    else elim (find admin h) [ none ↦ fault | some a ↦ ok (success, drop_key admin h) ]

-- `*admin` is written on success only.
abbrev pub placed :
    {M : Type 0}
    → Ptr
    → AdminHeap
    → (Return × Option Admin) × M
    → (Return × Option Ptr) × (M × AdminHeap)
placed ptr h ((ret, none), m) = ((ret, none), (m, h))
placed ptr h ((ret, some a), m) = ((ret, some ptr), (m, (ptr, a) ∷ h))

module _ {M : Type 0} (names : MargoNames M) where
  -- YP_admin_init with the address that calloc returns.
  unfoldable pub admin_init_at :
      (ptr : Ptr) (mid : ℕ) → M → AdminHeap → (Return × Option Ptr) × (M × AdminHeap)
  admin_init_at ptr mid m h =
      placed ptr h (admin_init names (if ptr == null then false else true) mid m)

  admin_init-made :
      (mid : ℕ) (m : M)
      → (a : Admin) × (m' : M) × (admin_init names true mid m ≡ ((success, some a), m'))
  unfolding admin_init
  admin_init-made mid m = elim (Option-cases (names.registered_name m "YP_create_phonebook")) [
    | inl e ↦ rw (e, admin_init) (_, _, refl)
    | inr (id, e) ↦ rw (e, admin_init) (_, _, refl)
  ]

  -- An admin is freed by its release, which leaves the other admins; to release it again is a fault,
  -- where calloc had returned an address that was not in use.
  pub admin_finalize-admin_init_at :
      (ptr : Ptr) (mid : ℕ) (m : M) (h : AdminHeap)
      → ptr ≢ null
      → find ptr h ≡ none
      → (m' : M) × (h' : AdminHeap) × (admin_init_at ptr mid m h ≡ ((success, some ptr), (m', h')))
        × (admin_finalize ptr h' ≡ ok (success, h))
        × (admin_finalize ptr h ≡ fault)
  unfolding admin_init_at admin_finalize
  admin_finalize-admin_init_at ptr mid m h live new =
      let set : (ptr == null) ≡ false = ground (arith, live) in
      let flag : (if ptr == null then false else true) ≡ true = rw set refl in
      let (a, m', made) = admin_init-made mid m in
      let started : admin_init names (if ptr == null then false else true) mid m
          ≡ ((success, some a), m') =
        subst (λ b. admin_init names b mid m ≡ ((success, some a), m')) (sym flag) made in
      (
        m',
        (ptr, a) ∷ h,
        rw (started, admin_init_at) refl,
        rw (set, admin_finalize, find-head ptr a h, drop_key-head ptr a h) refl,
        rw (set, admin_finalize, new) refl,
      )
