-- ===== src/BlockBuilder/Storage/Lost.antt =====
-- block-builder/src/app/storage/memory_storage.rs: process_requests when no nonce can be reserved.
use intmax.Base.{
  ℕ, zero, suc, ◌≡◌, refl, ap, subst, sym, ◌∙◌, String, Bool, true, false, not, inl, inr, List, [],
  ◌∷◌, ◌++◌, none, some, ok, err, arith, take, drop, get_elem?, any, All, string_eq, Bool-cases,
  Result-cases,
}
use intmax.Base.Map
use intmax.Zkp.{Zkp}
use intmax.BlockBuilder.NonceManager.{Rollup, InMemoryNonceManager, NonceError, reserve_nonce}
use intmax.BlockBuilder.Types.{TxRequest, ProposalMemo, from_tx_requests}
use intmax.BlockBuilder.Storage.{
  Storage, nonce_error, tx_requests, put_tx_requests, add_tx, accept, is_idle, propose,
  process_requests, query_proposal,
}
use intmax.BlockBuilder.Storage.Requests.{AreDistinct, lookup-assign_block, process_requests-due}

module _ (z : Zkp) where
  open z use {types}

  -- Some request of a list has the id.
  abbrev pub carries : String → List (TxRequest types) → Bool
  carries id rs = any (λ r. string_eq.beq r.request_id id) rs

  carries-append :
      (id : String) (rs qs : List (TxRequest types))
      → carries id rs ≡ false
      → carries id qs ≡ false
      → carries id (rs ++ qs) ≡ false
  carries-append id [] qs h g = g
  carries-append id (r ∷ rs) qs h g = ground (arith, carries-append id rs qs)

  carries-take :
      (id : String) (n : ℕ) (rs : List (TxRequest types))
      → carries id rs ≡ false
      → carries id (take n rs) ≡ false
  carries-take id zero rs h = refl
  carries-take id (suc n) [] h = refl
  carries-take id (suc n) (r ∷ rs) h = ground (arith, carries-take id n rs)

  carries-drop :
      (id : String) (n : ℕ) (rs : List (TxRequest types))
      → carries id rs ≡ false
      → carries id (drop n rs) ≡ false
  carries-drop id zero rs h = h
  carries-drop id (suc n) [] h = refl
  carries-drop id (suc n) (r ∷ rs) h = ground (arith, carries-drop id n rs)

  carries-distinct :
      (r : TxRequest types) (rs : List (TxRequest types))
      → All (λ q. string_eq.beq r.request_id q.request_id ≡ false) rs
      → carries r.request_id rs ≡ false
  carries-distinct r [] h = refl
  carries-distinct r (q ∷ rs) h = ground (
    arith,
    string_eq.beq_iff r.request_id q.request_id,
    string_eq.beq_iff q.request_id r.request_id,
    carries-distinct r rs h.1,
  )

  -- A request of the batch is not left in the queue, when no id occurs twice.
  carries-rest :
      (n i : ℕ) (rs : List (TxRequest types)) (r : TxRequest types)
      → AreDistinct z rs
      → get_elem? (take n rs) i ≡ some r
      → carries r.request_id (drop n rs) ≡ false
  carries-rest zero i rs r d e = absurd (cc)
  carries-rest (suc n) i [] r d e = absurd (cc)
  carries-rest (suc n) zero (q ∷ rs) r d e =
      let same : q ≡ r = cc in
      subst (λ x. carries x.request_id (drop n rs) ≡ false) same
        (carries-drop q.request_id n rs (carries-distinct q rs d.0))
  carries-rest (suc n) (suc i) (q ∷ rs) r d e = carries-rest n i rs r d.1 e

  -- No queue holds the id and no block has it.
  pub record IsGone (id : String) (s : Storage z) : Type 0 where
    pub queues : (b : Bool) → carries id (tx_requests z b s) ≡ false
    pub unassigned : Map.lookup id s.request_id_to_block_id ≡ none

  -- What may come later: requests with other ids, and calls of process_requests of both kinds, with
  -- any contract, at any time.
  pub data Later (id : String) : Storage z → Storage z → Type 0 where
    here : (s : Storage z) → Later id s s
    added :
        (s t : Storage z) (b : Bool) (r : TxRequest types)
        → string_eq.beq r.request_id id ≡ false
        → Later id (add_tx z b r s).1 t
        → Later id s t
    processed :
        (s t : Storage z) (rollup : Rollup) (time now created_at : ℕ) (block_id : String) (b : Bool)
        → Later id (process_requests z rollup time now created_at block_id b s).1 t
        → Later id s t

  put_tx_requests-IsGone :
      (id : String) (b : Bool) (q : List (TxRequest types)) (s : Storage z)
      → carries id q ≡ false
      → IsGone id s
      → IsGone id (put_tx_requests z b q s)
  put_tx_requests-IsGone id true q s h g = record {
    queues = elim [ true ↦ h | false ↦ g.queues false ];
    unassigned = g.unassigned;
  }
  put_tx_requests-IsGone id false q s h g = record {
    queues = elim [ true ↦ g.queues true | false ↦ h ];
    unassigned = g.unassigned;
  }

  add_tx-IsGone :
      (id : String) (b : Bool) (r : TxRequest types) (s : Storage z)
      → string_eq.beq r.request_id id ≡ false
      → IsGone id s
      → IsGone id (add_tx z b r s).1
  unfolding add_tx
  add_tx-IsGone id b r s h g =
      put_tx_requests-IsGone id b (tx_requests z b s ++ r ∷ []) s
        (carries-append id (tx_requests z b s) (r ∷ []) (g.queues b) (rw h refl)) g

  accept-IsGone :
      (id : String) (b : Bool) (batch : List (TxRequest types)) (memo : ProposalMemo types)
      (time : ℕ) (s : Storage z)
      → carries id batch ≡ false
      → IsGone id s
      → IsGone id (accept z b batch memo time s)
  unfolding accept
  accept-IsGone id true batch memo time s h g = record {
    queues = elim [ true ↦ g.queues true | false ↦ g.queues false ];
    unassigned =
        lookup-assign_block z batch memo.block_id id s.request_id_to_block_id ∙ (rw h g.unassigned);
  }
  accept-IsGone id false batch memo time s h g = record {
    queues = elim [ true ↦ g.queues true | false ↦ g.queues false ];
    unassigned =
        lookup-assign_block z batch memo.block_id id s.request_id_to_block_id ∙ (rw h g.unassigned);
  }

  with_nonces-IsGone :
      (id : String) (m : InMemoryNonceManager) (s : Storage z)
      → IsGone id s
      → IsGone id (record s { nonce_manager = m })
  with_nonces-IsGone id m s g = record {
    queues = elim [ true ↦ g.queues true | false ↦ g.queues false ];
    unassigned = g.unassigned;
  }

  propose-IsGone :
      (id : String) (rollup : Rollup) (time now created_at : ℕ) (block_id : String) (b : Bool)
      (batch : List (TxRequest types)) (s : Storage z)
      → carries id batch ≡ false
      → IsGone id s
      → IsGone id (propose z rollup time now created_at block_id b batch s).1
  unfolding propose
  propose-IsGone id rollup time now created_at block_id b batch s h g =
      elim (Result-cases (reserve_nonce rollup b s.nonce_manager)) [
        | inr (e, q) ↦ rw (q, propose) g
        | inl ((nonce, m), q) ↦
            let g' = with_nonces-IsGone id m s g in
            elim (Result-cases (
              from_tx_requests z b s.config.block_builder_address nonce batch s.config.tx_timeout
                now created_at block_id)) [
                  | inr (p, f) ↦ rw (q, propose) (rw f g')
                  | inl (memo, f) ↦
                      rw (q, propose) (rw f (accept-IsGone id b batch memo time _ h g'))
                ]
      ]

  process_requests-IsGone :
      (id : String) (rollup : Rollup) (time now created_at : ℕ) (block_id : String) (b : Bool)
      (s : Storage z)
      → IsGone id s
      → IsGone id (process_requests z rollup time now created_at block_id b s).1
  unfolding process_requests
  process_requests-IsGone id rollup time now created_at block_id b s g =
      elim (Bool-cases (is_idle z b time s)) [
        | inl idle ↦ rw (idle, process_requests) g
        | inr due ↦
            let n = z.num_senders_in_block in
            let q = tx_requests z b s in
            rw (process_requests-due z rollup time now created_at block_id b s due) (
              propose-IsGone id rollup time now created_at block_id b (take n q)
                (put_tx_requests z b (drop n q) s) (carries-take id n q (g.queues b))
                (put_tx_requests-IsGone id b (drop n q) s (carries-drop id n q (g.queues b)) g))
      ]

  Later-IsGone : (id : String) (s t : Storage z) → Later id s t → IsGone id s → IsGone id t
  Later-IsGone id _ _ (here s) g = g
  Later-IsGone id _ _ (added s t b r other rest) g =
      Later-IsGone id _ t rest (add_tx-IsGone id b r s other g)
  Later-IsGone id _ _ (processed s t rollup time now created_at block_id b rest) g =
      Later-IsGone id _ t rest
        (process_requests-IsGone id rollup time now created_at block_id b s g)

  query_proposal-IsGone :
      (id : String) (s : Storage z) → IsGone id s → query_proposal z id s ≡ ok none
  unfolding query_proposal
  query_proposal-IsGone id s g = rw (g.unassigned, query_proposal)

  process_requests-fails :
      (rollup : Rollup) (time now created_at : ℕ) (block_id : String) (b : Bool) (s : Storage z)
      (e : NonceError)
      → is_idle z b time s ≡ false
      → reserve_nonce rollup b s.nonce_manager ≡ err e
      → process_requests z rollup time now created_at block_id b s ≡ (
        err (nonce_error e),
        put_tx_requests z b (drop z.num_senders_in_block (tx_requests z b s)) s,
      )
  unfolding propose
  process_requests-fails rollup time now created_at block_id true s e due failed =
      process_requests-due z rollup time now created_at block_id true s due ∙ rw (failed, propose)
  process_requests-fails rollup time now created_at block_id false s e due failed =
      process_requests-due z rollup time now created_at block_id false s due ∙ rw (failed, propose)

  others-IsGone :
      (b : Bool) (id : String) (s : Storage z)
      → carries id (drop z.num_senders_in_block (tx_requests z b s)) ≡ false
      → carries id (tx_requests z (not b) s) ≡ false
      → Map.lookup id s.request_id_to_block_id ≡ none
      → IsGone id (put_tx_requests z b (drop z.num_senders_in_block (tx_requests z b s)) s)
  others-IsGone true id s h o n = record { queues = elim [ true ↦ h | false ↦ o ]; unassigned = n }
  others-IsGone false id s h o n = record { queues = elim [ true ↦ o | false ↦ h ]; unassigned = n }

  -- When no nonce can be reserved for a batch that is due, the call fails, and a request of the batch
  -- is lost, if no id occurs twice in its queue and its id is neither in the other queue nor in a
  -- block: however many requests with other ids are added and however often process_requests runs
  -- from then on, with a contract that answers or not, query_proposal has no proposal for it.
  pub process_requests-loses :
      (rollup : Rollup) (time now created_at : ℕ) (block_id : String) (b : Bool) (s t : Storage z)
      (e : NonceError) (i : ℕ) (r : TxRequest types)
      → is_idle z b time s ≡ false
      → reserve_nonce rollup b s.nonce_manager ≡ err e
      → AreDistinct z (tx_requests z b s)
      → get_elem? (take z.num_senders_in_block (tx_requests z b s)) i ≡ some r
      → carries r.request_id (tx_requests z (not b) s) ≡ false
      → Map.lookup r.request_id s.request_id_to_block_id ≡ none
      → Later r.request_id (process_requests z rollup time now created_at block_id b s).1 t
      → ((process_requests z rollup time now created_at block_id b s).0 ≡ err (nonce_error e))
        × (query_proposal z r.request_id t ≡ ok none)
  process_requests-loses rollup time now created_at block_id b s t e i r due failed distinct batch
        other unassigned later =
      let id = r.request_id in
      let outcome = process_requests-fails rollup time now created_at block_id b s e due failed in
      let rest = carries-rest z.num_senders_in_block i (tx_requests z b s) r distinct batch in
      let gone =
        subst (λ o. IsGone id o.1) (sym outcome) (others-IsGone b id s rest other unassigned) in
      (ap (λ o. o.0) outcome, query_proposal-IsGone id t (Later-IsGone id _ t later gone))
