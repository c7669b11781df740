-- ===== src/Client/Init.antt =====
-- The RPC names of YP_client_init (src/client.c) and a margo instance.
use phonebook.Base.{
  ℕ, ◌≡◌, ◌≢◌, refl, ◌∙◌, false, Option, none, some, if◌then◌else◌, arith, Run, ok, ◌>>=◌, ◌==◌,
  ◌∷◌,
}
use phonebook.Backend.{Ptr, null}
use phonebook.Common.{Return, success, err_allocation}
use phonebook.Margo.{MargoNames, NamesLaws}
use phonebook.Admin.Init.{known_id, registered_name-register}
use phonebook.Client.Heap.{Client, ClientHeap}
use phonebook.Client.{client_init}

module _ {M : Type 0} (names : MargoNames M) where
  -- The ids of hello and of sum, found or registered.
  unfoldable pub client_ids : M → (ℕ × ℕ) × M
  client_ids m = elim (names.registered_name m "YP_sum") [
    | some id ↦ ((known_id names m "YP_hello", known_id names m "YP_sum"), m)
    | none ↦
        let (sum, m1) = names.register m "YP_sum" in
        let (hello, m2) = names.register m1 "YP_hello" in
        ((hello, sum), names.disable_response m2 hello)
  ]

  -- YP_client_init
  unfoldable pub client_init_names :
      (ptr : Ptr) (mid : ℕ) → M → ClientHeap → Run ((Return × Option Ptr) × M × ClientHeap)
  unfolding client_init client_ids
  client_init_names ptr mid m h = if ptr == null then ok ((err_allocation, none), m, h) else (do
    let ((hello, sum), m') = client_ids m
    (r, h') ← client_init ptr mid hello sum h
    ok (r, m', h'))

module _ {M : Type 0} (names : MargoNames M) (laws : NamesLaws M names) where
  -- The first client of a margo instance that knows none of the names registers them. A second one then
  -- gets the ids of the first and leaves the instance as it is.
  pub client_init_twice :
      (ptr ptr' : Ptr) (mid : ℕ) (m : M) (h : ClientHeap)
      → ptr ≢ null
      → ptr' ≢ null
      → names.registered_name m "YP_sum" ≡ none
      → (c : Client) × (m' : M) × (client_init_names names ptr mid m h
          ≡ ok ((success, some ptr), m', record h { clients = (ptr, c) ∷ h.clients }))
        × (client_init_names names ptr' mid m' (record h { clients = (ptr, c) ∷ h.clients })
            ≡ ok
                ((success, some ptr'), m', record h { clients = (ptr', c) ∷ (ptr, c) ∷ h.clients }))
  unfolding client_init_names client_init client_ids known_id
  client_init_twice ptr ptr' mid m h live live' new =
      let m1 = (names.register m "YP_sum").1 in
      let hello = (names.register m1 "YP_hello").0 in
      let m2 = (names.register m1 "YP_hello").1 in
      let set : (ptr == null) ≡ false = ground (arith, live) in
      let set' : (ptr' == null) ≡ false = ground (arith, live') in
      let summed =
        laws.response_names m2 hello "YP_sum"
        ∙ registered_name-register names laws m1 "YP_hello" "YP_sum" refl
        ∙ laws.register_self m "YP_sum" in
      let greeted = laws.response_names m2 hello "YP_hello" ∙ laws.register_self m1 "YP_hello" in
      (
        record {
          mid = mid;
          hello_id = hello;
          sum_id = (names.register m "YP_sum").0;
          num_phonebook_handles = 0;
        },
        names.disable_response m2 hello,
        rw (set, client_ids, new) refl,
        rw (set', client_ids, summed, known_id, greeted, summed) refl,
      )
