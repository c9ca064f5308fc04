-- ===== src/Client/Fetch/Kinds.antt =====
-- client-sdk/src/client/strategy: the functions that fetch transactions, deposits, transfers and
-- withdrawals, one page and all pages.
use intmax.Base.{
  ℕ, Bool, List, [], ◌∷◌, ◌++◌, Option, none, some, Result, ok, err, ◌>>=◌, map, filter_map, zip,
  ok_or, if◌then◌else◌,
}
use intmax.Zkp.{Types}
use intmax.Interfaces.{TransferData}
use intmax.Client.Strategy.{
  MetaData, DepositData, TxData, StrategyError, encryption_error, sender_proof_set_not_found,
  unexpected_error, validation_error,
}
use intmax.Client.Fetch.{
  DataType, MetaDataCursor, MetaDataCursorResponse, DataWithMetaData, ProcessStatus, DataInfo,
  DepositAnswer, Servers, Sealed, contains, enc_sender, unique_by_digest, add_settled, add_pending,
  add_timeout, nothing, place, classify, sort_info, fetch_all_unprocessed,
}

module _ (s : Servers) (key : s.KeySet) where
  module _ {T : Type 0} (sealed : Sealed s T) (data_type : DataType) where
    -- The `filter_map` of `fetch_decrypt_validate`.
    abbrev pub decrypt_validate : List ℕ → DataWithMetaData s.Bytes → Option (MetaData × T)
    decrypt_validate excluded_digests d =
        if contains excluded_digests d.meta.digest
        then none
        else elim (sealed.decrypt key (enc_sender data_type (s.pubkey key)) d.encrypted) [
          | none ↦ none
          | some x ↦ if sealed.validates (s.pubkey key) x then some (d.meta, x) else none
        ]

    unfoldable pub fetch_decrypt_validate :
        (included_digests excluded_digests : List ℕ)
        → MetaDataCursor
        → Result StrategyError (List (MetaData × T) × MetaDataCursorResponse)
    unfolding unique_by_digest
    fetch_decrypt_validate included_digests excluded_digests cursor = do
      included ← s.get_data_batch key data_type included_digests
      unprocessed ← s.get_data_sequence key data_type cursor
      ok (
        filter_map (decrypt_validate excluded_digests)
            (unique_by_digest [] (included ++ unprocessed.0)),
        unprocessed.1,
      )

    unfoldable pub fetch_single_data : ℕ → Result StrategyError (MetaData × T)
    fetch_single_data digest = s.get_data_batch key data_type (digest ∷ []) >>= λ data_with_meta.
        elim data_with_meta [
          | [] ↦ err unexpected_error
          | d ∷ ds ↦ elim ds [
            | _ ∷ _ ↦ err unexpected_error
            | [] ↦ elim (sealed.decrypt key (enc_sender data_type (s.pubkey key)) d.encrypted) [
              | none ↦ err validation_error
              | some x ↦
                  if sealed.validates (s.pubkey key) x then ok (d.meta, x) else err validation_error
            ]
          ]
        ]

  module _ (t : Types) where
    unfoldable pub fetch_tx_info :
        Sealed s (TxData t)
        → (current_time tx_timeout : ℕ) → (included_digests excluded_digests : List ℕ)
        → MetaDataCursor
        → Result StrategyError (DataInfo (TxData t) × MetaDataCursorResponse)
    unfolding fetch_decrypt_validate classify sort_info
    fetch_tx_info sealed current_time tx_timeout included_digests excluded_digests cursor = do
      fetched ← fetch_decrypt_validate sealed DataType.tx included_digests excluded_digests cursor
      block_numbers ←
          s.get_block_number_by_tx_tree_root_batch (map (λ x. x.1.tx_tree_root) fetched.0)
      ok (
        sort_info cursor.order (classify current_time tx_timeout (zip fetched.0 block_numbers)),
        fetched.1,
      )

    abbrev pub fetch_all_unprocessed_tx_info :
        Sealed s (TxData t)
        → (current_time tx_timeout fuel : ℕ) → ProcessStatus
        → Option (Result StrategyError (DataInfo (TxData t)))
    fetch_all_unprocessed_tx_info sealed current_time tx_timeout =
        fetch_all_unprocessed (fetch_tx_info sealed current_time tx_timeout)

    unfoldable pub fetch_sender_proof_set :
        Sealed s t.SenderProofSet → ℕ → Result StrategyError t.SenderProofSet
    fetch_sender_proof_set sealed ephemeral_key = do
      let ephemeral = s.key_of ephemeral_key
      snapshot ← s.get_snapshot ephemeral DataType.sender_proof_set
      encrypted ← ok_or snapshot sender_proof_set_not_found
      let sender = enc_sender DataType.sender_proof_set (s.pubkey ephemeral)
      ok_or (sealed.decrypt ephemeral sender encrypted) encryption_error

    -- The body of the first loop of `fetch_transfer_info`: the transfer with its sender proof set, or
    -- nothing when it is passed over.
    abbrev pub with_spent_proof :
        Sealed s t.SenderProofSet
        → (t.SenderProofSet → Option (Result StrategyError t.Tx))
        → (t.Tx → t.Tx → Bool)
        → TransferData t
        → Result StrategyError (Option (TransferData t))
    with_spent_proof sets spent_tx same_tx transfer_data =
        elim (fetch_sender_proof_set sets transfer_data.sender_proof_set_ephemeral_key) [
          | err encryption_error ↦ ok none
          | err e ↦ err e
          | ok set ↦
              if sets.validates (s.pubkey key) set
              then elim (spent_tx set) [
                | none ↦ ok none
                | some spent ↦ spent >>= λ tx.
                    if same_tx tx transfer_data.tx
                    then ok (some (record transfer_data { sender_proof_set = some set }))
                    else ok none
              ]
              else ok none
        ]

    -- The first loop of `fetch_transfer_info` and of `fetch_withdrawal_info`.
    pub keep_valid :
        (TransferData t → Result StrategyError (Option (TransferData t)))
        → List (MetaData × TransferData t)
        → Result StrategyError (List (MetaData × TransferData t))
    keep_valid step [] = ok []
    keep_valid step ((meta, d) ∷ ds) = do
      kept ← step d
      rest ← keep_valid step ds
      ok (elim kept [ none ↦ rest | some d' ↦ (meta, d') ∷ rest ])

    -- The body of the first loop of `fetch_withdrawal_info`.
    abbrev pub with_sender_proof_set :
        Sealed s t.SenderProofSet → TransferData t → Result StrategyError (Option (TransferData t))
    with_sender_proof_set sets transfer_data =
        let ephemeral = s.key_of transfer_data.sender_proof_set_ephemeral_key in
        let sender = enc_sender DataType.user_data (s.pubkey ephemeral) in
        s.get_snapshot ephemeral DataType.sender_proof_set >>= λ snapshot. elim snapshot [
          | none ↦ ok none
          | some encrypted ↦ elim (sets.decrypt ephemeral sender encrypted) [
            | none ↦ ok none
            | some set ↦ ok (some (record transfer_data { sender_proof_set = some set }))
          ]
        ]

    -- `fetch_transfer_info` and `fetch_withdrawal_info`, which differ in the body of the first loop.
    unfoldable pub fetch_transfers :
        (TransferData t → Result StrategyError (Option (TransferData t)))
        → DataType
        → Sealed s (TransferData t)
        → (current_time tx_timeout : ℕ) → (included_digests excluded_digests : List ℕ)
        → MetaDataCursor
        → Result StrategyError (DataInfo (TransferData t) × MetaDataCursorResponse)
    unfolding fetch_decrypt_validate keep_valid classify sort_info
    fetch_transfers step data_type sealed current_time tx_timeout included excluded cursor = do
      fetched ← fetch_decrypt_validate sealed data_type included excluded cursor
      valid ← keep_valid step fetched.0
      block_numbers ← s.get_block_number_by_tx_tree_root_batch (map (λ x. x.1.tx_tree_root) valid)
      ok (
        sort_info cursor.order (classify current_time tx_timeout (zip valid block_numbers)),
        fetched.1,
      )

    -- `spent_tx` decompresses the spent proof and reads its transaction, and `same_tx` compares.
    abbrev pub fetch_transfer_info :
        Sealed s t.SenderProofSet
        → (spent_tx : t.SenderProofSet → Option (Result StrategyError t.Tx))
        → (same_tx : t.Tx → t.Tx → Bool) → Sealed s (TransferData t)
        → (current_time tx_timeout : ℕ) → (included_digests excluded_digests : List ℕ)
        → MetaDataCursor
        → Result StrategyError (DataInfo (TransferData t) × MetaDataCursorResponse)
    fetch_transfer_info sets spent_tx same_tx =
        fetch_transfers (with_spent_proof sets spent_tx same_tx) DataType.transfer

    abbrev pub fetch_withdrawal_info :
        Sealed s t.SenderProofSet
        → Sealed s (TransferData t)
        → (current_time tx_timeout : ℕ) → (included_digests excluded_digests : List ℕ)
        → MetaDataCursor
        → Result StrategyError (DataInfo (TransferData t) × MetaDataCursorResponse)
    fetch_withdrawal_info sets = fetch_transfers (with_sender_proof_set sets) DataType.withdrawal

    abbrev pub fetch_all_unprocessed_transfer_info :
        Sealed s t.SenderProofSet
        → (spent_tx : t.SenderProofSet → Option (Result StrategyError t.Tx))
        → (same_tx : t.Tx → t.Tx → Bool) → Sealed s (TransferData t)
        → (current_time tx_timeout fuel : ℕ) → ProcessStatus
        → Option (Result StrategyError (DataInfo (TransferData t)))
    fetch_all_unprocessed_transfer_info sets spent_tx same_tx sealed current_time tx_timeout =
        fetch_all_unprocessed
          (fetch_transfer_info sets spent_tx same_tx sealed current_time tx_timeout)

    abbrev pub fetch_all_unprocessed_withdrawal_info :
        Sealed s t.SenderProofSet
        → Sealed s (TransferData t)
        → (current_time tx_timeout fuel : ℕ) → ProcessStatus
        → Option (Result StrategyError (DataInfo (TransferData t)))
    fetch_all_unprocessed_withdrawal_info sets sealed current_time tx_timeout =
        fetch_all_unprocessed (fetch_withdrawal_info sets sealed current_time tx_timeout)

  -- One turn of the loop of `fetch_deposit_info`.
  abbrev pub place_deposit :
      (current_time deposit_timeout : ℕ)
      → (MetaData × DepositData) × Option DepositAnswer
      → Result StrategyError (DataInfo DepositData → DataInfo DepositData)
  place_deposit current_time deposit_timeout x = elim x.1 [
    | none ↦ ok (place current_time deposit_timeout (x.0, none))
    | some answer ↦
        (let d = record x.0.1 { token_index = some answer.token_index } in
          elim answer.block_number [
            | some n ↦ ok (add_settled x.0.0 n d)
            | none ↦ s.check_if_deposit_exists answer.deposit_id >>= λ exists.
                ok (if exists then add_pending x.0.0 d else add_timeout x.0.0 d)
          ])
  ]

  unfoldable pub classify_deposits :
      (current_time deposit_timeout : ℕ)
      → List ((MetaData × DepositData) × Option DepositAnswer)
      → Result StrategyError (DataInfo DepositData)
  classify_deposits current_time deposit_timeout [] = ok nothing
  classify_deposits current_time deposit_timeout (x ∷ xs) = do
    turn ← place_deposit current_time deposit_timeout x
    rest ← classify_deposits current_time deposit_timeout xs
    ok (turn rest)

  unfoldable pub fetch_deposit_info :
      Sealed s DepositData
      → (current_time deposit_timeout : ℕ) → (included_digests excluded_digests : List ℕ)
      → MetaDataCursor
      → Result StrategyError (DataInfo DepositData × MetaDataCursorResponse)
  unfolding fetch_decrypt_validate classify_deposits sort_info
  fetch_deposit_info sealed current_time deposit_timeout included excluded cursor = do
    fetched ← fetch_decrypt_validate sealed DataType.deposit included excluded cursor
    deposit_infos ← s.get_deposit_info_batch (map (λ x. x.1.pubkey_salt_hash) fetched.0)
    info ← classify_deposits current_time deposit_timeout (zip fetched.0 deposit_infos)
    ok (sort_info cursor.order info, fetched.1)

  abbrev pub fetch_all_unprocessed_deposit_info :
      Sealed s DepositData
      → (current_time deposit_timeout fuel : ℕ) → ProcessStatus
      → Option (Result StrategyError (DataInfo DepositData))
  fetch_all_unprocessed_deposit_info sealed current_time deposit_timeout =
      fetch_all_unprocessed (fetch_deposit_info sealed current_time deposit_timeout)
