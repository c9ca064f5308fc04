-- ===== src/BlockBuilder/Types/Accounts.antt =====
-- The keys of a block and their account ids.
use mathlib.Core.List.{Perm, map-append}
use mathlib.Core.List.Perm
use intmax.Base.{
  ℕ, ◌-◌, ◌≤◌, ◌≡◌, refl, sym, ap, subst, ◌∙◌, ◌⊎◌, inl, inr, String, Bool, true, false, List, [],
  ◌∷◌, ◌++◌, map, none, some, Result, ok, Panic, assertion, >>=-eq-ok, guard, arith, ◌==◌, leb,
  leb→le, le→leb, Bool-cases, length, replicate, All, All-map, All-append, All-replicate,
  map-replicate, add_u64, any,
}
use intmax.Base.Sort.{
  sort_by, IsSorted, sort_by-perm, sort_by-IsSorted, All-sort_by, length-sort_by, IsSorted-append,
  IsSorted-map, IsSorted-replicate,
}
use intmax.Base.Search.{All₂, resize_pads, find-any, All-any}
use intmax.Zkp.{Zkp}
use intmax.BlockBuilder.Types.{
  TxRequest, ProposalMemo, default_request, by_pubkey_desc, sort_and_pad, make_proposals,
  payload_for, memo_of, from_tx_requests, get_account_id, account_ids_of, get_account_ids,
}

module _ (z : Zkp) where
  open z use {types, num_senders_in_block, dummy_pubkey}

  -- What a memo that was built says of its inputs.
  record Built (b : Bool) (rs : List (TxRequest types)) (memo : ProposalMemo types) : Type 0 where
    few : length rs ≤ num_senders_in_block
    kind : memo.block_sign_payload.is_registration_block ≡ b
    requests : memo.tx_requests ≡ rs
    keys : memo.pubkeys ≡ map (λ s. s.pubkey) (sort_and_pad z rs)

  guard-eq-ok :
      (b : Bool) (e : Panic) → ◌≡◌ {A = Result Panic (Unit {0})} (guard b e) (ok tt) → b ≡ true
  guard-eq-ok true e h = refl
  guard-eq-ok false e h = cc

  from_tx_requests-Built :
      (b : Bool) (address nonce : ℕ) (rs : List (TxRequest types)) (tx_timeout now created_at : ℕ)
      (block_id : String) (memo : ProposalMemo types)
      → from_tx_requests z b address nonce rs tx_timeout now created_at block_id ≡ ok memo
      → Built b rs memo
  unfolding from_tx_requests
  from_tx_requests-Built b address nonce rs tx_timeout now created_at block_id memo h =
      let (u, few, h') = >>=-eq-ok (guard (leb (length rs) num_senders_in_block) assertion) _ h in
      let sorted = sort_and_pad z rs in
      let payload = payload_for z b address nonce (add_u64 tx_timeout now) sorted in
      let (ps, e, h'') = >>=-eq-ok (make_proposals z payload sorted rs) _ h' in
      let same : memo_of z payload sorted rs ps created_at block_id ≡ memo = ground arith in
      record {
        few = leb→le _ _ (guard-eq-ok _ assertion few);
        kind = ap (λ m. m.block_sign_payload.is_registration_block) (sym same);
        requests = ap (λ m. m.tx_requests) (sym same);
        keys = ap (λ m. m.pubkeys) (sym same);
      }

  -- Descending order of keys.
  abbrev pub desc : ℕ → ℕ → Bool
  desc a b = leb b a

  sort_and_pad_pads :
      (rs : List (TxRequest types))
      → length rs ≤ num_senders_in_block
      → sort_and_pad z rs
        ≡ sort_by (by_pubkey_desc z) rs
          ++ replicate (num_senders_in_block - length rs) (default_request z)
  unfolding sort_and_pad
  sort_and_pad_pads rs few =
      let same = length-sort_by (by_pubkey_desc z) rs in
      resize_pads (sort_by (by_pubkey_desc z) rs) num_senders_in_block _ (omega (arith, same))
      ∙ rw same

  sort_and_pad-IsSorted :
      (rs : List (TxRequest types))
      → length rs ≤ num_senders_in_block
      → All (λ r. dummy_pubkey ≤ r.pubkey) rs
      → IsSorted (by_pubkey_desc z) (sort_and_pad z rs)
  sort_and_pad-IsSorted rs few low =
      let before = by_pubkey_desc z in
      rw (sort_and_pad_pads rs few) (
        IsSorted-append before (sort_by before rs) _
          (sort_by-IsSorted before (λ x y h. ground arith) (λ x y w p q. ground arith) rs)
          (IsSorted-replicate before _ (default_request z) (ground arith))
          (All-map {P = λ r. dummy_pubkey ≤ r.pubkey}
            (λ r h. All-replicate _ _ (default_request z) (le→leb _ _ h)) _
            (All-sort_by before _ rs low)))

  -- When no request's key is below the dummy key, the keys of a memo that was built are the requests'
  -- keys and as many dummies as fill the block, in descending order.
  pub from_tx_requests-pubkeys :
      (b : Bool) (address nonce : ℕ) (rs : List (TxRequest types)) (tx_timeout now created_at : ℕ)
      (block_id : String) (memo : ProposalMemo types)
      → All (λ r. dummy_pubkey ≤ r.pubkey) rs
      → from_tx_requests z b address nonce rs tx_timeout now created_at block_id ≡ ok memo
      → IsSorted desc memo.pubkeys
        × Perm memo.pubkeys
            (map (λ r. r.pubkey) rs ++ replicate (num_senders_in_block - length rs) dummy_pubkey)
  from_tx_requests-pubkeys b address nonce rs tx_timeout now created_at block_id memo low h =
      let v = from_tx_requests-Built b address nonce rs tx_timeout now created_at block_id memo h in
      let before = by_pubkey_desc z in
      let key = λ (r : TxRequest types). r.pubkey in
      let keys =
        v.keys
        ∙ ap (map key) (sort_and_pad_pads rs v.few)
        ∙ map-append key (sort_by before rs) _
        ∙ ap (◌++◌ (map key (sort_by before rs))) (map-replicate key _ (default_request z)) in
      (
        rw v.keys (IsSorted-map key desc _ (sort_and_pad-IsSorted rs v.few low)),
        rw keys (Perm.append (Perm.map key (sort_by-perm before rs)) (Perm.refl _)),
      )

  -- Every key of the block has an account id.
  has_account :
      (rs : List (TxRequest types)) (memo : ProposalMemo types)
      → memo.tx_requests ≡ rs
      → All (λ r. (a : ℕ) × (r.account_id ≡ some a)) rs
      → (r : TxRequest types) → any (λ s. s.pubkey == r.pubkey) rs ≡ true
      → (a : ℕ) × (get_account_id z memo r.pubkey ≡ some a)
  unfolding get_account_id
  has_account rs memo e ids r h =
      let (s, f, (a, ea)) = find-any (λ s. (a : ℕ) × (s.account_id ≡ some a)) _ rs h ids in
      elim (Bool-cases (r.pubkey == dummy_pubkey)) [
        | inl d ↦ (z.dummy_account_id, rw d)
        | inr d ↦ (a, rw (d, e, f) ea)
      ]

  dummy_has_account :
      (memo : ProposalMemo types) → get_account_id z memo dummy_pubkey ≡ some z.dummy_account_id
  unfolding get_account_id
  dummy_has_account memo = ground arith

  account_ids_of_lem :
      (memo : ProposalMemo types) (rs : List (TxRequest types))
      → All (λ r. (a : ℕ) × (get_account_id z memo r.pubkey ≡ some a)) rs
      → (ids : List ℕ) × (account_ids_of z memo (map (λ r. r.pubkey) rs) ≡ ok ids)
        × All₂ (λ k a. get_account_id z memo k ≡ some a) (map (λ r. r.pubkey) rs) ids
  unfolding account_ids_of
  account_ids_of_lem memo [] h = ([], refl, tt)
  account_ids_of_lem memo (r ∷ rs) h =
      let (a, e) = h.0 in
      let (ids, es, all) = account_ids_of_lem memo rs h.1 in (a ∷ ids, rw (e, es), (e, all))

  have_accounts :
      (rs : List (TxRequest types)) (memo : ProposalMemo types)
      → length rs ≤ num_senders_in_block
      → memo.tx_requests ≡ rs
      → All (λ r. (a : ℕ) × (r.account_id ≡ some a)) rs
      → All (λ r. (a : ℕ) × (get_account_id z memo r.pubkey ≡ some a)) (sort_and_pad z rs)
  have_accounts rs memo few e ids =
      let P = λ (r : TxRequest types). (a : ℕ) × (get_account_id z memo r.pubkey ≡ some a) in
      let own = All-any (λ r s. s.pubkey == r.pubkey) rs rs (λ r. ground arith) (λ r h. h) in
      rw (sort_and_pad_pads rs few) (
        All-append P _ _
          (All-sort_by (by_pubkey_desc z) P rs (All-map (has_account rs memo e ids) rs own))
          (All-replicate P _ (default_request z) (z.dummy_account_id, dummy_has_account memo)))

  get_account_ids_packed :
      (memo : ProposalMemo types) (ids : List ℕ)
      → memo.block_sign_payload.is_registration_block ≡ false
      → account_ids_of z memo memo.pubkeys ≡ ok ids
      → get_account_ids z memo ≡ ok (some (z.pack ids))
  unfolding get_account_ids
  get_account_ids_packed memo ids e h = ground arith

  -- No account id is missing: a registration block has none, and any other block whose requests
  -- all carry one has the packed ids of its keys, in the order of the keys.
  pub get_account_ids-total :
      (b : Bool) (address nonce : ℕ) (rs : List (TxRequest types)) (tx_timeout now created_at : ℕ)
      (block_id : String) (memo : ProposalMemo types)
      → (b ≡ false → All (λ r. (a : ℕ) × (r.account_id ≡ some a)) rs)
      → from_tx_requests z b address nonce rs tx_timeout now created_at block_id ≡ ok memo
      → ((b ≡ true) × (get_account_ids z memo ≡ ok none))
        ⊎ ((b ≡ false)
            × ((ids : List ℕ) × All₂ (λ k a. get_account_id z memo k ≡ some a) memo.pubkeys ids
                × (get_account_ids z memo ≡ ok (some (z.pack ids)))))
  unfolding get_account_ids
  get_account_ids-total b address nonce rs tx_timeout now created_at block_id memo ids h =
      let v = from_tx_requests-Built b address nonce rs tx_timeout now created_at block_id memo h in
      elim (Bool-cases b) [
        | inl e ↦ inl (e, rw (v.kind ∙ e))
        | inr e ↦
            let (ns, ea, all) =
              subst
                (λ ks.
                  (ns : List ℕ) × (account_ids_of z memo ks ≡ ok ns)
                  × All₂ (λ k a. get_account_id z memo k ≡ some a) ks ns)
                (sym v.keys)
                (account_ids_of_lem memo (sort_and_pad z rs)
                  (have_accounts rs memo v.few v.requests (ids e))) in
            inr (e, (ns, all, get_account_ids_packed memo ns (v.kind ∙ e) ea))
      ]
