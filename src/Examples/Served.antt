-- ===== src/Examples/Served.antt =====
-- The programs of examples/admin.c against a provider: its handlers answer the RPCs of the program.
use Prim.Native.Nat.{min}
use mathlib.Core.List.{map-append}
use phonebook.Base.{
  false, ◌==◌, if◌then◌else◌, ℕ, zero, suc, ◌+◌, ◌*◌, ◌≤◌, ◌<◌, ◌≡◌, refl, Bool, true, Option, none,
  some, List, [], ◌∷◌, ◌++◌, Run, ok, ◌>>=◌, arith, length, take, Option-cases, inl, inr,
  length-append, length-map,
}
use phonebook.Base.Words.{u64_mod}
use phonebook.Common.{success, PhonebookId, is_success}
use phonebook.Backend.{BackendImpl, Ptr}
use phonebook.Backend.Contract.{All, All-append}
use phonebook.Exchange.{Exchange, delivered, exchange}
use phonebook.Types.{CreatePhonebookIn, ListPhonebooksIn, HelloIn, SumIn}
use phonebook.Types.Wire.{ListRecord, Proc, ProcLaws, encode_list, decode_list}
use phonebook.Types.RoundTrip.{IsUuid}
use phonebook.Types.Messages.{CreateRecord, SumRecord}
use phonebook.Uthash.{Uthash}
use phonebook.Uthash.Items.{Phonebook, lookup}
use phonebook.Margo.{MargoNames}
use phonebook.Provider.{Provider, check_token}
use phonebook.Provider.Valid.{IsValid, entries, added, added-IsValid}
use phonebook.Provider.Handlers.{
  Call, Served, Action, respond, create_phonebook_ult, list_phonebooks_ult, hello_ult, sum_ult,
}
use phonebook.Provider.Backends.{first_named}
use phonebook.Provider.Listing.{ids_of}
use phonebook.Provider.RoundTrip.{create_phonebook_ult-created}
use phonebook.Admin.{take_id, create_in}
use phonebook.Admin
use phonebook.Admin.Init.{admin_init}
use phonebook.Admin.Listing.{memory_of, list_phonebooks-ids}
use phonebook.Admin.Creating.{create_record}
use phonebook.Client.Rpc.{sum_record}
use phonebook.Examples.{Service, done, read_ids, print_ids, admin_main}

-- What margo delivers for the acts of a handler.
abbrev pub answered : {Out R : Type 0} → (Out → Exchange R) → List (Action Out) → Exchange R
answered read (respond out ∷ rest) = read out
answered read _ = record { created = true; forwarded = true; output = none }

abbrev pub served :
    {W T Out R : Type 0} → (Out → Exchange R) → Served W T Out → Exchange R × (Provider W T × W)
served read s = (answered read s.actions, (s.provider, s.world))

-- A decoded answer; margo_get_output fails where the decoding fails.
abbrev pub got_output : {R : Type 0} → Option (R × List ℕ) → Exchange R
got_output none = record { created = true; forwarded = true; output = none }
got_output (some (r, rest)) = delivered r

-- What stands in a field of an answer that a handler did not assign.
pub record Garbage : Type 0 where
  pub id : PhonebookId
  pub count : ℕ
  pub result : ℕ

-- A call whose input arrives, for which calloc gives memory and uuid_generate gives `uuid`.
abbrev pub arrived : {In : Type 0} → PhonebookId → In → Call In
arrived uuid input = record { input = some input; uuid = uuid; calloc_ok = true }

-- Where no provider of the id is at the address, the RPC is not served.
abbrev pub unreached : {R : Type 0} → Exchange R
unreached = record { created = true; forwarded = false; output = none }

-- Whether an RPC to an address and a provider id reaches the provider, which is at `home`.
abbrev pub reaches : {W T : Type 0} → (home : ℕ) → Provider W T → (addr provider_id : ℕ) → Bool
reaches home p addr provider_id = if addr == home then provider_id == p.provider_id else false

-- `stray` tells whether margo_provider_forward returns HG_SUCCESS for an RPC without an answer that
-- reaches no provider.
module _ {W T : Type 0} ⦃H : Uthash W T⦄ (proc : Proc) (home : ℕ) (stray : Bool)
    (uuid : PhonebookId) (g : Garbage) where
  unfoldable pub serve_list :
      (addr provider_id : ℕ)
      → ListPhonebooksIn
      → Provider W T × W
      → Run (Exchange ListRecord × (Provider W T × W))
  serve_list addr provider_id input (p, w) =
      if reaches home p addr provider_id
      then (do
        s ← list_phonebooks_ult (arrived uuid input) p w
        elim s.actions [
          | respond out ∷ rest ↦ do
            bytes ← encode_list proc (memory_of g.count out)
            ok (got_output (decode_list proc true bytes), (s.provider, s.world))
          | _ ↦ ok (got_output none, (s.provider, s.world))
        ])
      else ok (unreached, (p, w))

  unfoldable pub serve_create :
      (addr provider_id : ℕ)
      → CreatePhonebookIn
      → Provider W T × W
      → Run (Exchange CreateRecord × (Provider W T × W))
  serve_create addr provider_id input (p, w) =
      if reaches home p addr provider_id
      then (do
        s ← create_phonebook_ult (arrived uuid input) p w
        ok (served (λ out. delivered (create_record g.id out)) s))
      else ok (unreached, (p, w))

  unfoldable pub serve_hello :
      (addr provider_id : ℕ) → HelloIn → Provider W T × W → Run ((Bool × Bool) × (Provider W T × W))
  serve_hello addr provider_id input (p, w) =
      if reaches home p addr provider_id
      then (do s ← hello_ult (arrived uuid input) p w; ok ((true, true), (s.provider, s.world)))
      else ok ((true, stray), (p, w))

  unfoldable pub serve_sum :
      (addr provider_id : ℕ)
      → SumIn
      → Provider W T × W
      → Run (Exchange SumRecord × (Provider W T × W))
  serve_sum addr provider_id input (p, w) =
      if reaches home p addr provider_id
      then (do
        s ← sum_ult (arrived uuid input) p w
        ok (served (λ out. delivered (sum_record g.result out)) s))
      else ok (unreached, (p, w))

  -- The provider as the service of the programs.
  abbrev pub provider_service : Service (Provider W T × W)
  provider_service = record {
    create = serve_create;
    list = serve_list;
    hello = serve_hello;
    sum = serve_sum;
  }

read_ids-take :
    (n : ℕ) (ids : List PhonebookId) → n ≤ length ids → read_ids n (take n ids) ≡ ok (take n ids)
unfolding read_ids
read_ids-take zero ids h = refl
read_ids-take (suc n) [] h = absurd (omega arith)
read_ids-take (suc n) (id ∷ ids) h = rw (read_ids-take n ids (omega arith)) refl

admin_init-success :
    {M : Type 0} (names : MargoNames M) (mid : ℕ) (m : M)
    → (admin_init names true mid m).0.0 ≡ success
unfolding admin_init
admin_init-success names mid m =
    elim (Option-cases (names.registered_name m "YP_create_phonebook")) [
      | inl e ↦ rw e refl
      | inr (id, e) ↦ rw (e, admin_init) refl
    ]

module _ {W T M : Type 0} ⦃H : Uthash W T⦄ (proc : Proc) (laws : ProcLaws proc)
    (names : MargoNames M) (home : ℕ) (stray : Bool) (uuid : PhonebookId) (g : Garbage) where
  -- admin.c, given the address and the id of a well-formed provider without a token that knows a backend "dummy", which makes a
  -- context, where the new id is not in use, ids have 16 bytes and their size does not wrap, and the
  -- libraries give what they are asked for: the program ends well and prints the ids of the phonebooks,
  -- the new one last, but at most four, the oldest ones. The provider has got the new phonebook.
  pub admin_main-prints :
      (mid : ℕ) (m : M) (p : Provider W T) (w w' : W) (b : BackendImpl W) (ctx : Ptr)
      → IsValid p
      → p.token ≡ none
      → first_named "dummy" p.backend_types ≡ some b
      → b.create_phonebook (some "{}") w ≡ ok ((success, ctx), w')
      → lookup uuid (entries p) ≡ none
      → All IsUuid (ids_of (entries p))
      → IsUuid uuid
      → 16 * (length (entries p) + 1) < u64_mod
      → let ids = ids_of (entries p) ++ uuid ∷ [] in
        let p' = added p (record { fn = b; ctx = ctx; id = uuid }) in
        (admin_main
            (provider_service proc home stray uuid g)
            names
            3
            true
            true
            true
            mid
            home
            p.provider_id
            m
            (p, w)
          ≡ ok (done (take (min (length (entries p) + 1) 4) ids), (p', w')))
        × IsValid p'
        × (entries p' ≡ entries p ++ record { fn = b; ctx = ctx; id = uuid } ∷ [])
  unfolding admin_main serve_create serve_list is_success check_token Admin.create_phonebook
      exchange take_id print_ids
  admin_main-prints mid m p w w' b ctx v no_token known made new uuids good small =
      let c = arrived uuid (create_in none (some "dummy") (some "{}")) in
      let book : Phonebook W = record { fn = b; ctx = ctx; id = uuid } in
      let accepted : check_token p none ≡ ok true = rw (no_token, check_token) refl in
      let (run, grown, found) =
        create_phonebook_ult-created p w v c _ "dummy" b ctx w' refl accepted refl known made refl
          new in
      let q = added p book in
      let v' = added-IsValid p book v new in
      let size : length (entries q) ≡ length (entries p) + 1 =
        rw grown (length-append (entries p) (book ∷ [])) in
      let ids : ids_of (entries q) ≡ ids_of (entries p) ++ uuid ∷ [] =
        rw grown (map-append _ _ _) in
      let (out, bytes, answer, listed, sent, got, told, count) =
        list_phonebooks-ids proc laws g.count 4 none
          (arrived uuid (record { token = none; max_ids = 4 })) q w' v' (omega (arith, size))
          (rw ids (All-append IsUuid (ids_of (entries p)) uuid uuids good)) refl refl accepted in
      let same : (home == home) ≡ true = ground arith in
      let same_id : (p.provider_id == p.provider_id) ≡ true = ground arith in
      let printed =
        read_ids-take (min (length (entries q)) 4) (ids_of (entries q))
          (omega (arith, length-map (entries q) (λ b. b.id))) in
      (
        rw
            (
              admin_init-success names mid m,
              same,
              same_id,
              run,
              same_id,
              listed,
              sent,
              got,
              told,
              printed,
              ids,
              size,
            )
            refl,
        v',
        grown,
      )
