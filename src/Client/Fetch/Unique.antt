-- ===== src/Client/Fetch/Unique.antt =====
-- client-sdk/src/client/strategy/common.rs: fetch_decrypt_validate, and tx.rs: fetch_tx_info.
use intmax.Base.{
  ℕ, ◌≡◌, ◌∙◌, ap, Bool, List, [], ◌++◌, Option, ok, >>=-eq-ok, ok-injective, map, zip, All, subst,
}
use intmax.Base.Sort.{IsSorted, count}
use intmax.Zkp.{Types}
use intmax.Client.Strategy.{MetaData, TxData}
use intmax.Client.Fetch.{
  DataType, MetaDataCursor, MetaDataCursorResponse, DataWithMetaData, DataInfo, Servers, Sealed,
  unique_by_digest, before_settled, in_order, classify,
}
use intmax.Client.Fetch.Kinds.{fetch_decrypt_validate, fetch_tx_info}
use intmax.Client.Fetch.Kept.{
  IsUnique, IsKept, kept_digests, first_opened, with_digest, kept-IsKept, kept-IsUnique,
  unique_by_digest-IsUnique, with_digest-kept,
}
use intmax.Client.Fetch.Classes.{
  counted, classify-counted, sort_info-counted, InTime, classify-InTime, sort_info-InTime,
  sort_info-IsSorted,
}

module _ (s : Servers) (key : s.KeySet) {T : Type 0} (sealed : Sealed s T) (data_type : DataType)
    (excluded : List ℕ) where
  -- What a fetch gives has distinct digests and is kept, and has for each digest what the first datum
  -- with it opens to, of those asked for and then those of the sequence.
  pub record Fetched (included : List ℕ) (cursor : MetaDataCursor)
      (response : MetaDataCursorResponse) (items : List (MetaData × T)) : Type 0 where
    pub batch : List (DataWithMetaData s.Bytes)
    pub sequence : List (DataWithMetaData s.Bytes)
    pub got_batch : s.get_data_batch key data_type included ≡ ok batch
    pub got_sequence : s.get_data_sequence key data_type cursor ≡ ok (sequence, response)
    pub all_kept : All (IsKept s key sealed data_type excluded) items
    pub all_unique : IsUnique (kept_digests s key sealed data_type excluded items)
    pub all_found :
        (n : ℕ)
        → with_digest s key sealed data_type excluded n items
          ≡ first_opened s key sealed data_type excluded n (batch ++ sequence)

  pub fetch_decrypt_validate-Fetched :
      (included : List ℕ) (cursor : MetaDataCursor) (items : List (MetaData × T))
      (response : MetaDataCursorResponse)
      → fetch_decrypt_validate s key sealed data_type included excluded cursor
        ≡ ok (items, response)
      → Fetched included cursor response items
  unfolding fetch_decrypt_validate
  fetch_decrypt_validate-Fetched included cursor items response h =
      let (first, q1, h1) = >>=-eq-ok (s.get_data_batch key data_type included) _ h in
      let (unprocessed, q2, h2) = >>=-eq-ok (s.get_data_sequence key data_type cursor) _ h1 in
      let e = ap (λ r. r.0) (ok-injective h2) in
      let same_response = ap (λ r. r.1) (ok-injective h2) in
      let ds = unique_by_digest [] (first ++ unprocessed.0) in
      subst (Fetched included cursor response) e (record {
        batch = first;
        sequence = unprocessed.0;
        got_batch = q1;
        got_sequence = q2 ∙ ap (λ r. ok (unprocessed.0, r)) same_response;
        all_kept = kept-IsKept s key sealed data_type excluded ds;
        all_unique =
            kept-IsUnique s key sealed data_type excluded ds
              (unique_by_digest-IsUnique [] (first ++ unprocessed.0));
        all_found =
            λ n. with_digest-kept s key sealed data_type excluded n [] (first ++ unprocessed.0);
      })

module _ (s : Servers) (key : s.KeySet) (t : Types) (sealed : Sealed s (TxData t))
    (now tx_timeout : ℕ) (excluded : List ℕ) where
  -- How a fetch divides data with distinct digests, for which the validity prover has given block
  -- numbers.
  pub record Divides (included : List ℕ) (cursor : MetaDataCursor)
      (response : MetaDataCursorResponse) (info : DataInfo (TxData t)) : Type 0 where
    pub items : List (MetaData × TxData t)
    pub block_numbers : List (Option ℕ)
    pub fetched : Fetched s key sealed DataType.tx excluded included cursor response items
    pub asked :
        s.get_block_number_by_tx_tree_root_batch (map (λ x. x.1.tx_tree_root) items)
        ≡ ok block_numbers
    pub divided :
        (p : (MetaData × TxData t) × Option ℕ → Bool)
        → counted p info ≡ count p (zip items block_numbers)
    pub in_time : InTime now tx_timeout info

  -- A fetch of transactions that succeeds divides what the vault gives for the included digests and
  -- then for the cursor: a digest has one entry at most, and exactly when the first datum with it is
  -- not excluded, decrypts and validates, with what it decrypts to. Each entry that the validity
  -- prover's list of answers reaches is counted once: settled with its block number, or, having none,
  -- pending or timed out by its timestamp. What is settled is in the order of the blocks, in the
  -- cursor's direction.
  pub fetch_tx_info-Divides :
      (included : List ℕ) (cursor : MetaDataCursor) (info : DataInfo (TxData t))
      (response : MetaDataCursorResponse)
      → fetch_tx_info s key t sealed now tx_timeout included excluded cursor ≡ ok (info, response)
      → Divides included cursor response info
        × IsSorted before_settled (in_order cursor.order info.settled)
  unfolding fetch_tx_info
  fetch_tx_info-Divides included cursor info response h =
      let (fetched, h0, h1) =
        >>=-eq-ok (fetch_decrypt_validate s key sealed DataType.tx included excluded cursor) _ h in
      let (block_numbers, asked, h2) =
        >>=-eq-ok (s.get_block_number_by_tx_tree_root_batch (map (λ x. x.1.tx_tree_root) fetched.0))
          _ h1 in
      let e = ap (λ r. r.0) (ok-injective h2) in
      let same_response = ap (λ r. r.1) (ok-injective h2) in
      let good =
        subst (λ r. Fetched s key sealed DataType.tx excluded included cursor r fetched.0)
          same_response
          (fetch_decrypt_validate-Fetched s key sealed DataType.tx excluded included cursor
            fetched.0 fetched.1 h0) in
      let classified = classify now tx_timeout (zip fetched.0 block_numbers) in
      subst
        (λ i.
          Divides included cursor response i
          × IsSorted before_settled (in_order cursor.order i.settled))
        e
        (
          record {
            items = fetched.0;
            fetched = good;
            block_numbers = block_numbers;
            asked = asked;
            divided = λ p.
                sort_info-counted p cursor.order classified
                ∙ classify-counted p now tx_timeout (zip fetched.0 block_numbers);
            in_time =
                sort_info-InTime now tx_timeout cursor.order classified
                  (classify-InTime now tx_timeout (zip fetched.0 block_numbers));
          },
          sort_info-IsSorted cursor.order classified,
        )
