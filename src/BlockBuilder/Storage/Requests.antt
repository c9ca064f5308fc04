-- ===== src/BlockBuilder/Storage/Requests.antt =====
-- block-builder/src/app/storage/memory_storage.rs: from a queue of requests, by process_requests,
-- to the answers of query_proposal.
use intmax.Base.{
  ℕ, zero, suc, ◌<◌, ◌≡◌, refl, ap, subst, ◌∙◌, String, Bool, true, false, List, [], ◌∷◌, some, ok,
  arith, if◌then◌else◌, length-take, take, drop, take-min, drop-min, position, get_elem?, any, All,
  string_eq, u32_mod,
}
use intmax.Base.Map
use intmax.Base.Map.{HashMap, lookup-insert, beq_refl}
use intmax.Base.Search.{All₂-get_elem?, All-get_elem?, any_of_get_elem?}
use intmax.Zkp.{Zkp, BlockProposal, TreeIsComplete}
use intmax.BlockBuilder.NonceManager.{Rollup, InMemoryNonceManager, reserve_nonce}
use intmax.BlockBuilder.Types.{TxRequest, ProposalMemo, from_tx_requests}
use intmax.BlockBuilder.Types.Proposals.{AreConsistent, Fits, from_tx_requests-Fits}
use intmax.BlockBuilder.Storage.{
  Storage, tx_requests, put_tx_requests, assign_block, accept, is_idle, propose, process_requests,
  query_proposal,
}

-- The last write for a key wins, and every request of the batch is written.
pub lookup-assign_block :
    (z : Zkp) (rs : List (TxRequest z.types)) (block_id j : String) (m : HashMap String String)
    → Map.lookup j (assign_block z rs block_id m)
      ≡ (if any (λ r. string_eq.beq r.request_id j) rs then some block_id else Map.lookup j m)
unfolding assign_block
lookup-assign_block z [] block_id j m = refl
lookup-assign_block z (r ∷ rs) block_id j m = ground (
  arith,
  lookup-assign_block z rs block_id j (Map.insert r.request_id block_id m),
  lookup-insert j r.request_id block_id m,
)

module _ (z : Zkp) where
  open z use {types}

  -- No request id occurs twice.
  abbrev pub AreDistinct : List (TxRequest types) → Type 0
  AreDistinct [] = Unit
  AreDistinct (r ∷ rs) =
      All (λ q. string_eq.beq r.request_id q.request_id ≡ false) rs × AreDistinct rs

  position-AreDistinct :
      (rs : List (TxRequest types)) (i : ℕ) (r : TxRequest types)
      → AreDistinct rs
      → get_elem? rs i ≡ some r
      → position (λ q. string_eq.beq q.request_id r.request_id) rs ≡ some i
  position-AreDistinct [] i r d e = absurd (cc)
  position-AreDistinct (q ∷ rs) zero r d e =
      let same : q ≡ r = cc in
      let own : string_eq.beq q.request_id r.request_id ≡ true =
        subst (λ s. string_eq.beq q.request_id s.request_id ≡ true) same (beq_refl q.request_id) in
      rw own
  position-AreDistinct (q ∷ rs) (suc i) r d e = rw (
    All-get_elem? (λ s. string_eq.beq q.request_id s.request_id ≡ false) rs i r d.0 e,
    position-AreDistinct rs i r d.1 e,
  )

  -- A query for a request that the last accepted batch holds.
  query_proposal-accept :
      (b : Bool) (batch : List (TxRequest types)) (memo : ProposalMemo types) (time : ℕ)
      (s : Storage z) (i : ℕ) (r : TxRequest types) (p : BlockProposal types)
      → memo.tx_requests ≡ batch
      → AreDistinct batch
      → get_elem? batch i ≡ some r
      → get_elem? memo.proposals i ≡ some p
      → query_proposal z r.request_id (accept z b batch memo time s) ≡ ok (some p)
  unfolding query_proposal accept
  query_proposal-accept b batch memo time s i r p kept d e ep = ground (
    arith,
    lookup-assign_block z batch memo.block_id r.request_id s.request_id_to_block_id,
    any_of_get_elem? (λ q. string_eq.beq q.request_id r.request_id) batch i r e
        (beq_refl r.request_id),
    lookup-insert memo.block_id memo.block_id memo s.memos,
    beq_refl memo.block_id,
    position-AreDistinct batch i r d e,
  )

  put_tx_requests-kept :
      (b : Bool) (q : List (TxRequest types)) (s : Storage z)
      → ((put_tx_requests z b q s).nonce_manager ≡ s.nonce_manager)
        × ((put_tx_requests z b q s).config ≡ s.config)
        × (tx_requests z b (put_tx_requests z b q s) ≡ q)
  put_tx_requests-kept true q s = (refl, refl, refl)
  put_tx_requests-kept false q s = (refl, refl, refl)

  tx_requests-accept :
      (b : Bool) (batch : List (TxRequest types)) (memo : ProposalMemo types) (time : ℕ)
      (s : Storage z) (m : InMemoryNonceManager)
      → tx_requests z b (accept z b batch memo time (record s { nonce_manager = m }))
        ≡ tx_requests z b s
  unfolding accept
  tx_requests-accept true batch memo time s m = refl
  tx_requests-accept false batch memo time s m = refl

  pub process_requests-due :
      (rollup : Rollup) (time now created_at : ℕ) (block_id : String) (b : Bool) (s : Storage z)
      → is_idle z b time s ≡ false
      → process_requests z rollup time now created_at block_id b s
        ≡ propose z rollup time now created_at block_id b
            (take z.num_senders_in_block (tx_requests z b s))
            (put_tx_requests z b (drop z.num_senders_in_block (tx_requests z b s)) s)
  unfolding process_requests
  process_requests-due rollup time now created_at block_id b s due = rw (
    due,
    take-min z.num_senders_in_block (tx_requests z b s),
    drop-min z.num_senders_in_block (tx_requests z b s),
  )

  propose-accept :
      (rollup : Rollup) (time now created_at : ℕ) (block_id : String) (b : Bool)
      (batch : List (TxRequest types)) (s : Storage z) (nonce : ℕ) (m : InMemoryNonceManager)
      (memo : ProposalMemo types)
      → reserve_nonce rollup b s.nonce_manager ≡ ok (nonce, m)
      → from_tx_requests z b s.config.block_builder_address nonce batch s.config.tx_timeout now
          created_at block_id
        ≡ ok memo
      → propose z rollup time now created_at block_id b batch s
        ≡ (ok tt, accept z b batch memo time (record s { nonce_manager = m }))
  unfolding propose
  propose-accept rollup time now created_at block_id b batch s nonce m memo reserved built =
      rw (reserved, propose, built)

  -- A batch that is due, with a nonce and consistent requests, becomes a block: the call succeeds,
  -- the batch (at most `NUM_SENDERS_IN_BLOCK` requests from the front) leaves the queue, and each
  -- request of it, if no request id occurs twice, is answered a proposal of a block with the
  -- reserved nonce that fits the request.
  pub process_requests-proposes :
      TreeIsComplete z
      → z.num_senders_in_block < u32_mod
      → (rollup : Rollup) (time now created_at : ℕ) (block_id : String) (b : Bool) (s : Storage z)
        (nonce : ℕ) (m : InMemoryNonceManager)
      → is_idle z b time s ≡ false
      → reserve_nonce rollup b s.nonce_manager ≡ ok (nonce, m)
      → AreConsistent z (take z.num_senders_in_block (tx_requests z b s))
      → AreDistinct (take z.num_senders_in_block (tx_requests z b s))
      → (t : Storage z) × (process_requests z rollup time now created_at block_id b s ≡ (ok tt, t))
        × (tx_requests z b t ≡ drop z.num_senders_in_block (tx_requests z b s))
        × (memo : ProposalMemo types) × (memo.block_sign_payload.block_builder_nonce ≡ nonce)
        × ((i : ℕ) (r : TxRequest types)
            → get_elem? (take z.num_senders_in_block (tx_requests z b s)) i ≡ some r
            → (p : BlockProposal types) × (query_proposal z r.request_id t ≡ ok (some p))
              × Fits z memo.block_sign_payload memo.pubkeys r p)
  process_requests-proposes complete small rollup time now created_at block_id b s nonce m due
        reserved consistent distinct =
      let q = tx_requests z b s in
      let batch = take z.num_senders_in_block q in
      let s' = put_tx_requests z b (drop z.num_senders_in_block q) s in
      let (same_m, same_c, rest) = put_tx_requests-kept b (drop z.num_senders_in_block q) s in
      let (memo, built, id, n, kept, keys, all) =
        from_tx_requests-Fits z complete small b s'.config.block_builder_address nonce batch
          s'.config.tx_timeout now created_at block_id
          (omega (arith, length-take z.num_senders_in_block q)) consistent in
      let t = accept z b batch memo time (record s' { nonce_manager = m }) in
      (
        t,
        process_requests-due rollup time now created_at block_id b s due
            ∙ propose-accept rollup time now created_at block_id b batch s' nonce m memo
                (ap (reserve_nonce rollup b) same_m ∙ reserved) built,
        tx_requests-accept b batch memo time s' m ∙ rest,
        memo,
        n,
        λ i r e.
            let (p, ep, fit) =
              All₂-get_elem? (Fits z memo.block_sign_payload memo.pubkeys) batch memo.proposals i r
                all e in
            (p, query_proposal-accept b batch memo time _ i r p kept distinct e ep, fit),
      )
