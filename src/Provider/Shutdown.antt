-- ===== src/Provider/Shutdown.antt =====
-- The end of a provider: remove_all_phonebooks, YP_finalize_provider and YP_provider_destroy of
-- provider.c.
use phonebook.Base.{true, ◌≡◌, refl, ◌∙◌, some, List, [], ◌∷◌, ok, ◌>>=◌, arith}
use phonebook.Common.{success, id_eq_iff}
use phonebook.Backend.{Ptr}
use phonebook.Backend.Contract.{Contract, All, holds, erase}
use phonebook.Uthash.{Uthash}
use phonebook.Uthash.Items.{Phonebook, lookup, remove, Distinct}
use phonebook.Margo.{Margo}
use phonebook.Provider.{Provider, remove_each, remove_all_phonebooks}
use phonebook.Provider.Valid.{entries}
use phonebook.Provider.Owns.{Owns, ctxs}
use phonebook.Provider.Register.{finalize_provider, provider_destroy, deregister_rpcs}

module _ {W : Type 0} where
  head-holds : (b : Phonebook W) (l : List (Phonebook W)) → holds b.ctx (ctxs (b ∷ l)) ≡ true
  unfolding holds
  head-holds b l = ground arith

  head-erase : (b : Phonebook W) (l : List (Phonebook W)) → erase b.ctx (ctxs (b ∷ l)) ≡ ctxs l
  unfolding erase
  head-erase b l = ground arith

  head-lookup : (b : Phonebook W) (l : List (Phonebook W)) → lookup b.id (b ∷ l) ≡ some b
  unfolding lookup
  head-lookup b l = ground (arith, id_eq_iff b.id b.id)

  head-remove : (b : Phonebook W) (l : List (Phonebook W)) → remove b.id (b ∷ l) ≡ l
  unfolding remove
  head-remove b l = ground (arith, id_eq_iff b.id b.id)

module _ {W T : Type 0} ⦃H : Uthash W T⦄ (alive : W → List Ptr) where
  remove_each-closes :
      (l : List (Phonebook W)) (t : T) (w : W)
      → H.items t ≡ l
      → Distinct l
      → alive w ≡ ctxs l
      → All (λ b. Contract alive b.fn) l
      → (r : T × W) × (remove_each l t w ≡ ok r) × (H.items r.0 ≡ []) × (alive r.1 ≡ [])
  unfolding remove_each
  remove_each-closes [] t w e d a k = ((t, w), refl, e, a)
  remove_each-closes (b ∷ l) t w e d a k =
      let (r, run, freed) = k.0.closes b.ctx w (rw a (head-holds b l)) in
      let dist : Distinct (H.items t) = rw e d in
      let found : H.find t b.id ≡ some b = H.find-items t b.id dist ∙ rw e (head-lookup b l) in
      let left : H.items (H.del t b) ≡ l = H.items-del t b dist found ∙ rw e (head-remove b l) in
      let gone : alive r.1 ≡ ctxs l = freed ∙ rw a (head-erase b l) in
      let (s, rest, empty, none_alive) = remove_each-closes l (H.del t b) r.1 left d.1 gone k.1 in
      (s, rw (run, ◌>>=◌) rest, empty, none_alive)

  module _ (p : Provider W T) (w : W) (o : Owns alive p w) where
    -- A provider that owns its contexts can be emptied: every phonebook is closed, its hash is empty,
    -- its counter is 0, and no context is alive.
    pub remove_all_phonebooks-closes :
        (r : Provider W T × W) × (remove_all_phonebooks p w ≡ ok r)
        × (entries r.0 ≡ [])
        × (r.0.num_phonebooks ≡ 0)
        × (alive r.1 ≡ [])
    unfolding remove_all_phonebooks
    remove_all_phonebooks-closes =
        let (s, run, empty, gone) =
          remove_each-closes (entries p) p.phonebooks w refl o.valid.distinct o.live o.known in
        ((record p { phonebooks = s.0; num_phonebooks = 0 }, s.1), rw run refl, empty, refl, gone)

    -- To destroy a provider that owns its contexts ends with YP_SUCCESS and leaves no context of a
    -- backend alive.
    pub provider_destroy-frees :
        {M : Type 0} (margo : Margo M) (m : M)
        → (v : W) × (provider_destroy margo p m w
            ≡ ok (success, deregister_rpcs margo (margo.pop_finalize_callback m) p.rpc_ids, v))
          × (alive v ≡ [])
    unfolding provider_destroy finalize_provider
    provider_destroy-frees margo m =
        let (r, run, empty, zeroed, gone) = remove_all_phonebooks-closes in (r.1, rw run refl, gone)
