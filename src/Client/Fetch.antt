-- ===== src/Client/Fetch.antt =====
-- client-sdk/src/client/strategy: common.rs, tx.rs, deposit.rs, transfer.rs and withdrawal.rs. What
-- the store vault holds for a user is fetched page by page, decrypted, validated, and sorted into
-- settled, pending and timed out data by what the validity prover answers.
pub mod Kinds
pub mod Classes
pub mod Kept
pub mod Unique
pub mod Pages
mod Examples
use intmax.Base.{
  ℕ, zero, suc, Bool, true, false, List, [], ◌∷◌, ◌++◌, Option, none, some, Result, ok, err, ◌>>=◌,
  ◌==◌, ltb, leb, any, map, reverse, filter_map, zip, add_u64, ok_or, if◌then◌else◌,
}
use intmax.Base.Sort.{sort_by}
use intmax.Zkp.{Types}
use intmax.Interfaces.{TransferData}
use intmax.Client.Strategy.{
  MetaData, MetaDataWithBlockNumber, DepositData, TxData, StrategyError, encryption_error,
  sender_proof_set_not_found, unexpected_error, validation_error,
}

-- interfaces/src/data/data_type.rs and rw_rights.rs
pub data DataType : Type 0 where
  deposit transfer withdrawal tx user_data sender_proof_set : DataType

pub data WriteRights : Type 0 where
  single_auth_write single_open_write auth_write open_write : WriteRights

abbrev pub write_rights : DataType → WriteRights
write_rights deposit = open_write
write_rights transfer = open_write
write_rights withdrawal = auth_write
write_rights tx = auth_write
write_rights user_data = auth_write
write_rights sender_proof_set = auth_write

-- interfaces/src/api/store_vault_server/types.rs
pub data CursorOrder : Type 0 where
  asc desc : CursorOrder

pub record MetaDataCursor : Type 0 where
  pub cursor : Option MetaData
  pub order : CursorOrder
  pub limit : Option ℕ

pub record MetaDataCursorResponse : Type 0 where
  pub next_cursor : Option MetaData
  pub has_more : Bool
  pub total_count : ℕ

pub record DataWithMetaData (Bytes : Type 0) : Type 0 where
  pub meta : MetaData
  pub encrypted : Bytes

-- `ProcessStatus` of interfaces/src/data/user_data.rs
pub record ProcessStatus : Type 0 where
  pub last_processed_meta_data : Option MetaData
  pub processed_digests : List ℕ
  pub pending_digests : List ℕ

-- `TxInfo`, `DepositInfo`, `TransferInfo` and `WithdrawalInfo`.
pub record DataInfo (T : Type 0) : Type 0 where
  pub settled : List (MetaDataWithBlockNumber × T)
  pub pending : List (MetaData × T)
  pub timeout : List (MetaData × T)

-- `DepositInfo` of the validity prover, as far as it is read here.
pub record DepositAnswer : Type 0 where
  pub deposit_id : ℕ
  pub token_index : ℕ
  pub block_number : Option ℕ

-- The servers as one user sees them: the store vault with a user's key, the keys and the encryption
-- of intmax2-zkp, the validity prover and the liquidity contract.
pub record Servers : Type 1 where
  pub Bytes : Type 0
  pub KeySet : Type 0
  pub pubkey : KeySet → ℕ
  pub key_of : ℕ → KeySet
  pub get_data_batch :
      KeySet → DataType → List ℕ → Result StrategyError (List (DataWithMetaData Bytes))
  pub get_data_sequence :
      KeySet
      → DataType
      → MetaDataCursor
      → Result StrategyError (List (DataWithMetaData Bytes) × MetaDataCursorResponse)
  pub get_snapshot : KeySet → DataType → Result StrategyError (Option Bytes)
  pub get_block_number_by_tx_tree_root_batch : List ℕ → Result StrategyError (List (Option ℕ))
  pub get_deposit_info_batch : List ℕ → Result StrategyError (List (Option DepositAnswer))
  pub check_if_deposit_exists : ℕ → Result StrategyError Bool

-- `BlsEncryption::decrypt` and `Validation::validate` of a type of data, for a key.
pub record Sealed (s : Servers) (T : Type 0) : Type 0 where
  pub decrypt : s.KeySet → Option ℕ → s.Bytes → Option T
  pub validates : ℕ → T → Bool

abbrev pub contains : List ℕ → ℕ → Bool
contains xs n = any (λ x. x == n) xs

-- `enc_sender`, the key that must have signed what is decrypted.
abbrev pub enc_sender : DataType → ℕ → Option ℕ
enc_sender data_type pubkey = elim (write_rights data_type) [
  | single_auth_write ↦ some pubkey
  | auth_write ↦ some pubkey
  | single_open_write ↦ none
  | open_write ↦ none
]

-- `unique_by` on the digests, after those that have been seen.
unfoldable pub unique_by_digest :
    {Bytes : Type 0} → List ℕ → List (DataWithMetaData Bytes) → List (DataWithMetaData Bytes)
unique_by_digest seen [] = []
unique_by_digest seen (d ∷ ds) = elim (contains seen d.meta.digest) [
  | true ↦ unique_by_digest seen ds
  | false ↦ d ∷ unique_by_digest (d.meta.digest ∷ seen) ds
]

-- `meta.timestamp + timeout < current_time`.
abbrev pub is_timed_out : (current_time timeout : ℕ) → MetaData → Bool
is_timed_out current_time timeout meta = ltb (add_u64 meta.timestamp timeout) current_time

-- The orders of `sort_by_key`.
abbrev pub before_settled :
    {T : Type 0} → MetaDataWithBlockNumber × T → MetaDataWithBlockNumber × T → Bool
before_settled x y =
    if x.0.block_number == y.0.block_number
    then leb x.0.meta.digest y.0.meta.digest
    else ltb x.0.block_number y.0.block_number

abbrev pub before_meta : {T : Type 0} → MetaData × T → MetaData × T → Bool
before_meta x y =
    if x.0.timestamp == y.0.timestamp
    then leb x.0.digest y.0.digest
    else ltb x.0.timestamp y.0.timestamp

abbrev pub in_order : {A : Type 0} → CursorOrder → List A → List A
in_order asc xs = xs
in_order desc xs = reverse xs

module _ {T : Type 0} where
  abbrev pub add_settled : MetaData → ℕ → T → DataInfo T → DataInfo T
  add_settled meta n x info = record info {
    settled = (record { meta = meta; block_number = n }, x) ∷ info.settled;
  }

  abbrev pub add_pending : MetaData → T → DataInfo T → DataInfo T
  add_pending meta x info = record info { pending = (meta, x) ∷ info.pending }

  abbrev pub add_timeout : MetaData → T → DataInfo T → DataInfo T
  add_timeout meta x info = record info { timeout = (meta, x) ∷ info.timeout }

  abbrev pub nothing : DataInfo T
  nothing = record { settled = []; pending = []; timeout = [] }

  -- One turn of the loop over the data with their block numbers.
  abbrev pub place :
      (current_time timeout : ℕ) → (MetaData × T) × Option ℕ → DataInfo T → DataInfo T
  place current_time timeout x info = elim x.1 [
    | some n ↦ add_settled x.0.0 n x.0.1 info
    | none ↦
        if is_timed_out current_time timeout x.0.0
        then add_timeout x.0.0 x.0.1 info
        else add_pending x.0.0 x.0.1 info
  ]

  unfoldable pub classify :
      (current_time timeout : ℕ) → List ((MetaData × T) × Option ℕ) → DataInfo T
  classify current_time timeout [] = nothing
  classify current_time timeout (x ∷ xs) =
      place current_time timeout x (classify current_time timeout xs)

  -- The sorting at the end of each fetch.
  unfoldable pub sort_info : CursorOrder → DataInfo T → DataInfo T
  sort_info order info = record {
    settled = in_order order (sort_by before_settled info.settled);
    pending = in_order order (sort_by before_meta info.pending);
    timeout = in_order order (sort_by before_meta info.timeout);
  }

  abbrev pub extend : DataInfo T → DataInfo T → DataInfo T
  extend info part = record {
    settled = info.settled ++ part.settled;
    pending = info.pending ++ part.pending;
    timeout = info.timeout ++ part.timeout;
  }

  -- The loop of the `fetch_all_unprocessed_…` functions over the pages, with what has been fetched so
  -- far; nothing is returned when the pages that are looked at do not end it.
  unfoldable pub fetch_pages :
      (fetch : List ℕ → MetaDataCursor → Result StrategyError (DataInfo T × MetaDataCursorResponse))
      → (fuel : ℕ) → (included_digests : List ℕ) → MetaDataCursor
      → DataInfo T
      → Option (Result StrategyError (DataInfo T))
  fetch_pages fetch zero included_digests cursor info = none
  fetch_pages fetch (suc fuel) included_digests cursor info = elim (fetch included_digests cursor) [
    | err e ↦ some (err e)
    | ok (part, response) ↦ elim response.has_more [
      | false ↦ some (ok (extend info part))
      | true ↦
          fetch_pages fetch fuel [] (record cursor { cursor = response.next_cursor })
            (extend info part)
    ]
  ]

  unfoldable pub fetch_all_unprocessed :
      (List ℕ
        → List ℕ
        → MetaDataCursor
        → Result StrategyError (DataInfo T × MetaDataCursorResponse))
      → (fuel : ℕ) → ProcessStatus
      → Option (Result StrategyError (DataInfo T))
  unfolding fetch_pages
  fetch_all_unprocessed fetch fuel status =
      fetch_pages (λ included cursor. fetch included status.processed_digests cursor) fuel
        status.pending_digests
        (record { cursor = status.last_processed_meta_data; order = asc; limit = none }) nothing
