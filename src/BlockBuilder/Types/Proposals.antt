-- ===== src/BlockBuilder/Types/Proposals.antt =====
-- block-builder/src/app/types.rs: the proposals of a memo.
use intmax.Base.{
  ℕ, ◌≤◌, ◌<◌, ◌%◌, String, ◌≡◌, refl, ap, ◌∙◌, Bool, true, List, [], ◌∷◌, map, some, ok, arith,
  ◌==◌, ==_iff, le→leb, length, length-resize, length-map, get_elem?, position, any, All, add_u64,
  u32_mod,
}
use intmax.Base.Sort.{sort_by, All-sort_by, length-sort_by, any-sort_by}
use intmax.Base.Search.{
  All₂, position_lem, position-any, position-append, get_elem?-append_left, All-get_elem?,
  resize_pads, get_elem?-map,
}
use intmax.Zkp.{Zkp, BlockSignPayload, BlockProposal, TreeIsComplete}
use intmax.BlockBuilder.Types.{
  TxRequest, ProposalMemo, default_request, by_pubkey_desc, sort_and_pad, make_proposals,
  payload_for, memo_of, proposal_at, from_tx_requests,
}

module _ (z : Zkp) where
  open z use {types, num_senders_in_block}

  -- Requests of one key carry one transaction.
  abbrev pub AreConsistent : List (TxRequest types) → Type 0
  AreConsistent rs = All (λ r. All (λ s. s.pubkey ≡ r.pubkey → s.tx ≡ r.tx) rs) rs

  -- A proposal for a request: it is of this block, its index is the place of the request's key
  -- among the block's keys, and its proof opens the root at that index to the request's
  -- transaction.
  pub record Fits (payload : BlockSignPayload) (pubkeys : List ℕ) (r : TxRequest types)
      (p : BlockProposal types) : Type 0 where
    pub of_block : p.block_sign_payload ≡ payload
    pub keys : p.pubkeys ≡ pubkeys
    pub keys_hash : p.pubkeys_hash ≡ z.get_pubkey_hash pubkeys
    pub placed : get_elem? pubkeys p.tx_index ≡ some r.pubkey
    pub opens : z.verify_tx_proof p.tx_merkle_proof r.tx p.tx_index payload.tx_tree_root ≡ true

  -- Where a request's key is found, its transaction is found too.
  found :
      (rs : List (TxRequest types)) (r : TxRequest types)
      → length rs ≤ num_senders_in_block
      → any (λ s. s.pubkey == r.pubkey) rs ≡ true
      → All (λ s. s.pubkey ≡ r.pubkey → s.tx ≡ r.tx) rs
      → (i : ℕ) × (s : TxRequest types) × (position (λ s. s.pubkey == r.pubkey) (sort_and_pad z rs)
          ≡ some i)
        × (get_elem? (sort_and_pad z rs) i ≡ some s)
        × (s.pubkey ≡ r.pubkey)
        × (s.tx ≡ r.tx)
        × (i < num_senders_in_block)
  unfolding sort_and_pad
  found rs r fits present same =
      let sorted = sort_by (by_pubkey_desc z) rs in
      let test = λ (s : TxRequest types). s.pubkey == r.pubkey in
      let short : length sorted ≤ num_senders_in_block =
        omega (arith, length-sort_by (by_pubkey_desc z) rs, fits) in
      let pads = resize_pads sorted num_senders_in_block (default_request z) short in
      let (i, at) = position-any test sorted (any-sort_by (by_pubkey_desc z) test rs ∙ present) in
      let (s, e, t, l) = position_lem test sorted i at in
      let key = (==_iff s.pubkey r.pubkey).0 t in
      (
        i,
        s,
        rw pads (position-append test sorted _ i at),
        rw pads (get_elem?-append_left sorted _ i l ∙ e),
        key,
        All-get_elem? (λ q. q.pubkey ≡ r.pubkey → q.tx ≡ r.tx) sorted i s (All-sort_by _ _ rs same)
            e key,
        omega arith,
      )

  -- A request among those of the block, as the loop finds it.
  HasPlace : List (TxRequest types) → TxRequest types → Type 0
  HasPlace rs r =
      (any (λ s. s.pubkey == r.pubkey) rs ≡ true) × All (λ s. s.pubkey ≡ r.pubkey → s.tx ≡ r.tx) rs

  proposal_at-Fits :
      TreeIsComplete z
      → (payload : BlockSignPayload) (sorted : List (TxRequest types)) (r s : TxRequest types)
      → (i : ℕ) → payload.tx_tree_root ≡ z.tx_tree_root (map (λ q. q.tx) sorted)
      → get_elem? sorted i ≡ some s
      → s.pubkey ≡ r.pubkey
      → s.tx ≡ r.tx
      → Fits payload (map (λ q. q.pubkey) sorted) r (proposal_at z payload sorted i)
  unfolding proposal_at
  proposal_at-Fits complete payload sorted r s i root e key tx = record {
    of_block = refl;
    keys = refl;
    keys_hash = refl;
    placed = get_elem?-map (λ q. q.pubkey) sorted i s e ∙ ap some key;
    opens =
        rw (root, ← tx)
          (complete (map (λ q. q.tx) sorted) i s.tx (get_elem?-map (λ q. q.tx) sorted i s e));
  }

  make_proposals-Fits :
      TreeIsComplete z
      → num_senders_in_block < u32_mod
      → (payload : BlockSignPayload) (rs qs : List (TxRequest types))
      → length rs ≤ num_senders_in_block
      → payload.tx_tree_root ≡ z.tx_tree_root (map (λ s. s.tx) (sort_and_pad z rs))
      → All (HasPlace rs) qs
      → (ps : List (BlockProposal types)) × (make_proposals z payload (sort_and_pad z rs) qs
          ≡ ok ps)
        × All₂ (Fits payload (map (λ s. s.pubkey) (sort_and_pad z rs))) qs ps
  unfolding make_proposals HasPlace
  make_proposals-Fits complete small payload rs [] fits root places = ([], refl, tt)
  make_proposals-Fits complete small payload rs (r ∷ qs) fits root places =
      let (i, s, at, e, key, tx, l) = found rs r fits places.0.0 places.0.1 in
      let (ps, eps, all) = make_proposals-Fits complete small payload rs qs fits root places.1 in
      let sorted = sort_and_pad z rs in
      let exact : i % u32_mod ≡ i = omega arith in
      (
        proposal_at z payload sorted i ∷ ps,
        rw (at, eps, exact),
        (proposal_at-Fits complete payload sorted r s i root e key tx, all),
      )

  length-sort_and_pad :
      (rs : List (TxRequest types)) → length (sort_and_pad z rs) ≡ num_senders_in_block
  unfolding sort_and_pad
  length-sort_and_pad rs = length-resize _ num_senders_in_block _

  AreConsistent-HasPlace :
      (rs qs : List (TxRequest types))
      → ((r : TxRequest types)
          → any (λ s. s.pubkey == r.pubkey) qs ≡ true
          → any (λ s. s.pubkey == r.pubkey) rs ≡ true)
      → All (λ r. All (λ s. s.pubkey ≡ r.pubkey → s.tx ≡ r.tx) rs) qs
      → All (HasPlace rs) qs
  unfolding HasPlace
  AreConsistent-HasPlace rs [] inside same = tt
  AreConsistent-HasPlace rs (q ∷ qs) inside same = (
    (inside q (ground arith), same.0),
    AreConsistent-HasPlace rs qs (λ r h. inside r (ground arith)) same.1,
  )

  -- For at most `NUM_SENDERS_IN_BLOCK` requests, where the requests of one key carry one transaction
  -- and a tree opens at its own leaves, the memo is built without a panic. It has the given id and nonce, keeps the requests in
  -- their order, has `NUM_SENDERS_IN_BLOCK` keys, and has one proposal for each request, which
  -- places the request's key in the block and opens the block's root to the request's transaction.
  pub from_tx_requests-Fits :
      TreeIsComplete z
      → num_senders_in_block < u32_mod
      → (is_registration_block : Bool) (address nonce : ℕ) (rs : List (TxRequest types))
        (tx_timeout now created_at : ℕ) (block_id : String)
      → length rs ≤ num_senders_in_block
      → AreConsistent rs
      → (memo : ProposalMemo types) × (from_tx_requests z is_registration_block address nonce rs
            tx_timeout now created_at block_id
          ≡ ok memo)
        × (memo.block_id ≡ block_id)
        × (memo.block_sign_payload.block_builder_nonce ≡ nonce)
        × (memo.tx_requests ≡ rs)
        × (length memo.pubkeys ≡ num_senders_in_block)
        × All₂ (Fits memo.block_sign_payload memo.pubkeys) rs memo.proposals
  unfolding from_tx_requests
  from_tx_requests-Fits complete small b address nonce rs tx_timeout now created_at block_id fits
        same =
      let sorted = sort_and_pad z rs in
      let payload = payload_for z b address nonce (add_u64 tx_timeout now) sorted in
      let (ps, e, all) =
        make_proposals-Fits complete small payload rs rs fits refl
          (AreConsistent-HasPlace rs rs (λ r h. h) same) in
      (
        memo_of z payload sorted rs ps created_at block_id,
        rw (le→leb _ _ fits, e) refl,
        refl,
        refl,
        refl,
        length-map (λ s. s.pubkey) sorted ∙ length-sort_and_pad rs,
        all,
      )
