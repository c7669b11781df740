-- ===== src/Client/Counted.antt =====
-- The two counts of client.c: a client counts its handles, a handle counts its users.
use phonebook.Base.{
  ℕ, suc, ◌%◌, ◌≡◌, sym, ap, ◌∙◌, none, some, List, [], ◌∷◌, OnOk, arith, ◌==◌, if◌then◌else◌,
  Bool-cases, Option-cases, inl, inr,
}
use phonebook.Base.Words.{u64_mod, incr64, decr64, incr64-mod, decr64-mod}
use phonebook.Backend.{Ptr, null}
use phonebook.Client.Heap.{
  Client, PhonebookHandle, ClientHeap, find, put, drop_key, Keyed, find-put, find-drop_key,
  Keyed-put, Keyed-drop_key,
}
use phonebook.Client.{client_init, client_finalize}

-- The number of handles of a client.
unfoldable pub handles_of : Ptr → List (Ptr × PhonebookHandle) → ℕ
handles_of c [] = 0
handles_of c ((a, rh) ∷ l) = if rh.client == c then suc (handles_of c l) else handles_of c l

handles_of-put :
    (c a : Ptr) (rh rh' : PhonebookHandle) (l : List (Ptr × PhonebookHandle))
    → find a l ≡ some rh
    → rh'.client ≡ rh.client
    → handles_of c (put a rh' l) ≡ handles_of c l
unfolding handles_of find put
handles_of-put c a rh rh' [] h e = cc
handles_of-put c a rh rh' ((b, x) ∷ l) h e = ground (arith, handles_of-put c a rh rh' l)

handles_of-drop_key :
    (c a : Ptr) (rh : PhonebookHandle) (l : List (Ptr × PhonebookHandle))
    → find a l ≡ some rh
    → handles_of c l
      ≡ (if rh.client == c then suc (handles_of c (drop_key a l)) else handles_of c (drop_key a l))
unfolding handles_of find drop_key
handles_of-drop_key c a rh [] h = cc
handles_of-drop_key c a rh ((b, x) ∷ l) h = ground (arith, handles_of-drop_key c a rh l)

-- Addresses are held once, and each live client counts its live handles.
pub record IsCounted (h : ClientHeap) : Type 0 where
  pub clients_keyed : Keyed h.clients
  pub handles_keyed : Keyed h.handles
  pub counted :
      (c : Ptr) (k : Client)
      → find c h.clients ≡ some k
      → k.num_phonebook_handles ≡ handles_of c h.handles % u64_mod

module _ (h : ClientHeap) (v : IsCounted h) where
  -- A new client has no handles, if no handle of a client that was freed names its address.
  pub client_init-IsCounted :
      (ptr : Ptr) (mid hello_id sum_id : ℕ)
      → find ptr h.clients ≡ none
      → handles_of ptr h.handles ≡ 0
      → OnOk (λ r. IsCounted r.1) (client_init ptr mid hello_id sum_id h)
  unfolding client_init
  client_init-IsCounted ptr mid hello_id sum_id new unused = elim (Bool-cases (ptr == null)) [
    | inl e ↦ rw e v
    | inr e ↦ rw e (record {
      clients_keyed = (new, v.clients_keyed);
      handles_keyed = v.handles_keyed;
      counted = λ c k found. unfold find in ground (arith, v.counted c k);
    })
  ]

  pub client_finalize-IsCounted :
      (client : Ptr) → OnOk (λ r. IsCounted r.1) (client_finalize client h)
  unfolding client_finalize
  client_finalize-IsCounted client = elim (Option-cases (find client h.clients)) [
    | inl e ↦ rw (e, client_finalize) tt
    | inr (k, e) ↦
        rw (e, client_finalize)
          (record {
            clients_keyed = Keyed-drop_key client h.clients v.clients_keyed;
            handles_keyed = v.handles_keyed;
            counted = λ c k' found.
                ground (arith, v.counted c k', find-drop_key client c h.clients v.clients_keyed);
          })
  ]

  pub created-IsCounted :
      (ptr client : Ptr) (k : Client) (rh : PhonebookHandle)
      → find ptr h.handles ≡ none
      → find client h.clients ≡ some k
      → rh.client ≡ client
      → IsCounted (record {
        clients =
            put client
              (record k { num_phonebook_handles = incr64 k.num_phonebook_handles })
              h.clients;
        handles = (ptr, rh) ∷ h.handles;
      })
  unfolding handles_of
  created-IsCounted ptr client k rh new found same = record {
    clients_keyed = Keyed-put client _ h.clients v.clients_keyed;
    handles_keyed = (new, v.handles_keyed);
    counted = λ c k' found'.
        let more : Client = record k { num_phonebook_handles = incr64 k.num_phonebook_handles } in
        ground (
          arith,
          v.counted c k',
          v.counted client k found,
          find-put client c more h.clients found,
          incr64-mod (handles_of client h.handles),
        );
  }

  pub released-IsCounted :
      (ptr : Ptr) (k : Client) (rh : PhonebookHandle)
      → find ptr h.handles ≡ some rh
      → find rh.client h.clients ≡ some k
      → IsCounted (record {
        clients =
            put rh.client
              (record k { num_phonebook_handles = decr64 k.num_phonebook_handles })
              h.clients;
        handles = drop_key ptr h.handles;
      })
  released-IsCounted ptr k rh held found = record {
    clients_keyed = Keyed-put rh.client _ h.clients v.clients_keyed;
    handles_keyed = Keyed-drop_key ptr h.handles v.handles_keyed;
    counted = λ c k' found'.
        let fewer : Client = record k { num_phonebook_handles = decr64 k.num_phonebook_handles } in
        ground (
          arith,
          v.counted c k',
          v.counted rh.client k found,
          find-put rh.client c fewer h.clients found,
          handles_of-drop_key c ptr rh h.handles held,
          decr64-mod (handles_of rh.client (drop_key ptr h.handles)),
        );
  }

  pub rewritten-IsCounted :
      (ptr : Ptr) (rh rh' : PhonebookHandle)
      → find ptr h.handles ≡ some rh
      → rh'.client ≡ rh.client
      → IsCounted (record h { handles = put ptr rh' h.handles })
  rewritten-IsCounted ptr rh rh' held same = record {
    clients_keyed = v.clients_keyed;
    handles_keyed = Keyed-put ptr rh' h.handles v.handles_keyed;
    counted = λ c k found.
        v.counted c k found
        ∙ ap (λ (n : ℕ). n % u64_mod) (sym (handles_of-put c ptr rh rh' h.handles held same));
  }
