-- ===== src/Client/Strategy.antt =====
-- client-sdk/src/client/strategy/strategy.rs: the order in which a client incorporates what it has
-- received and sent. What the servers and the contracts answer is an argument.
pub mod Sequence
use intmax.Base.{
  ℕ, ◌+◌, Bool, true, false, List, [], ◌∷◌, ◌++◌, map, Option, none, some, Result, ok, err, Panic,
  guard, ◌>>=◌, ◌>>◌, ◌==◌, ltb, leb, if◌then◌else◌, retain, add_u32, ok_or,
}
use intmax.Base.Sort.{sort_by}
use intmax.Zkp.{Types, Transfer}
use intmax.Interfaces.{TransferData}
use intmax.Client.Balances.{Assets, Balances, is_insufficient, add_token, sub_tx}

-- A digest is a number, in the order of its hexadecimal digits.
pub record MetaData : Type 0 where
  pub timestamp : ℕ
  pub digest : ℕ

pub record MetaDataWithBlockNumber : Type 0 where
  pub meta : MetaData
  pub block_number : ℕ

pub data TokenType : Type 0 where
  native erc20 erc721 erc1155 : TokenType

pub record DepositData : Type 0 where
  pub deposit_salt : ℕ
  pub depositor : ℕ
  pub pubkey_salt_hash : ℕ
  pub amount : ℕ
  pub is_eligible : Bool
  pub token_type : TokenType
  pub token_address : ℕ
  pub token_id : ℕ
  pub is_mining : Bool
  pub token_index : Option ℕ

-- The answer of a `fetch_all_unprocessed_…` function.
pub record ProcessedInfo (A : Type 0) : Type 0 where
  pub settled : List (MetaDataWithBlockNumber × A)
  pub pending : List (MetaData × A)

pub data StrategyError : Type 0 where
  external : ℕ → StrategyError
  balance_insufficient_before_sync balance_insufficient_during_sync : StrategyError
  pending_tx_error : ℕ → StrategyError
  pending_receives_error : ℕ → StrategyError
  encryption_error sender_proof_set_not_found : StrategyError
  unexpected_error validation_error user_data_decryption_error : StrategyError
  panicked : Panic → StrategyError

module _ (t : Types) where
  -- The fields of `TxData` that the strategy reads.
  pub record TxData : Type 0 where
    pub nonce : ℕ
    pub transfers : List (Transfer t)
    pub tx_tree_root : ℕ

  pub data ReceiveAction : Type 0 where
    deposit : MetaDataWithBlockNumber → DepositData → ReceiveAction
    transfer : MetaDataWithBlockNumber → TransferData t → ReceiveAction

  pub data Action : Type 0 where
    receive : List ReceiveAction → Action
    tx : MetaDataWithBlockNumber → TxData → Action

  abbrev pub meta_of : ReceiveAction → MetaDataWithBlockNumber
  meta_of (deposit m _) = m
  meta_of (transfer m _) = m

  abbrev pub deposit_of : MetaDataWithBlockNumber × DepositData → ReceiveAction
  deposit_of x = deposit x.0 x.1

  abbrev pub transfer_of : MetaDataWithBlockNumber × TransferData t → ReceiveAction
  transfer_of x = transfer x.0 x.1

  -- The key `(block_number, digest)` of the first is at most that of the second.
  abbrev pub before : ReceiveAction → ReceiveAction → Bool
  before a b =
      if (meta_of a).block_number == (meta_of b).block_number
      then leb (meta_of a).meta.digest (meta_of b).meta.digest
      else ltb (meta_of a).block_number (meta_of b).block_number

  -- The deposits and the transfers that are still to be incorporated.
  pub record Receivable : Type 0 where
    pub deposits : List (MetaDataWithBlockNumber × DepositData)
    pub transfers : List (MetaDataWithBlockNumber × TransferData t)

  abbrev pub earlier : {A : Type 0} → ℕ → MetaDataWithBlockNumber × A → Bool
  earlier block_number x = ltb x.0.block_number block_number

  abbrev pub not_earlier : {A : Type 0} → ℕ → MetaDataWithBlockNumber × A → Bool
  not_earlier block_number x = leb block_number x.0.block_number

  -- `collect_receives`, for the block number of a transaction or for none.
  pub collect_receives : Option ℕ → Receivable → List ReceiveAction × Receivable
  collect_receives (some block_number) r = (
    sort_by before (
        map deposit_of (retain (earlier block_number) r.deposits)
        ++ map transfer_of (retain (earlier block_number) r.transfers)),
    record {
      deposits = retain (not_earlier block_number) r.deposits;
      transfers = retain (not_earlier block_number) r.transfers;
    },
  )
  collect_receives none r = (
    sort_by before (map deposit_of r.deposits ++ map transfer_of r.transfers),
    record { deposits = []; transfers = [] },
  )

  module _ (a : Assets) where
    -- `apply_to_balances`; `add_deposit` unwraps the token index.
    unfoldable pub apply_to_balances :
        ReceiveAction → Balances a → Result StrategyError (Balances a)
    apply_to_balances (deposit _ d) b = do
      token_index ← ok_or d.token_index (panicked Panic.unwrap_none)
      ok (add_token a token_index d.amount b)
    apply_to_balances (transfer _ d) b = ok (add_token a d.transfer.token_index d.transfer.amount b)

    pub apply_all : List ReceiveAction → Balances a → Result StrategyError (Balances a)
    apply_all [] b = ok b
    apply_all (x ∷ xs) b = apply_to_balances x b >>= λ b'. apply_all xs b'

    -- The variables of the loop over the settled transactions.
    pub record Progress : Type 0 where
      pub nonce : ℕ
      pub balances : Balances a
      pub receivable : Receivable
      pub sequence : List Action

    -- The check of the nonce and the subtraction: whether the balances fall short.
    pub spend : TxData → ℕ → Balances a → Bool × ℕ × Balances a
    spend d nonce b =
        if d.nonce == nonce
        then (let (short, b') = sub_tx a t d.transfers b in (short, add_u32 nonce 1, b'))
        else (false, nonce, b)

    abbrev pub shortage : Bool → ℕ → StrategyError
    shortage nothing_pending digest =
        if nothing_pending then balance_insufficient_during_sync else pending_receives_error digest

    -- One round of the loop, for a transaction whose status is `Success`.
    unfoldable pub incorporate :
        Bool → MetaDataWithBlockNumber → TxData → Progress → Result StrategyError Progress
    unfolding collect_receives apply_all spend
    incorporate nothing_pending m d p = do
      let (receives, rest) = collect_receives (some m.block_number) p.receivable
      balances ← apply_all receives p.balances
      let (short, nonce, left) = spend d p.nonce balances
      guard (if short then false else true) (shortage nothing_pending m.meta.digest)
      ok (record {
        nonce = nonce;
        balances = left;
        receivable = rest;
        sequence = p.sequence ++ receive receives ∷ tx m d ∷ [];
      })

    pub incorporate_all :
        Bool
        → (ℕ → Result StrategyError Bool)
        → List (MetaDataWithBlockNumber × TxData)
        → Progress
        → Result StrategyError Progress
    incorporate_all nothing_pending is_success [] p = ok p
    incorporate_all nothing_pending is_success ((m, d) ∷ txs) p = do
      success ← is_success d.tx_tree_root
      q ← (if success then incorporate nothing_pending m d p else ok p)
      incorporate_all nothing_pending is_success txs q

    -- The last round takes what is left.
    pub finish : Progress → Result StrategyError (List Action × Balances a)
    unfolding collect_receives
    finish p = do
      let (receives, rest) = collect_receives none p.receivable
      balances ← apply_all receives p.balances
      ok (p.sequence ++ receive receives ∷ [], balances)

    abbrev pub is_empty : {A : Type 0} → List A → Bool
    is_empty [] = true
    is_empty (_ ∷ _) = false

    abbrev pub digests : {A : Type 0} → List (MetaData × A) → List ℕ
    digests xs = map (λ x. x.0.digest) xs

    abbrev pub no_pending_tx : List (MetaData × TxData) → Result StrategyError Unit
    no_pending_tx [] = ok tt
    no_pending_tx ((m, _) ∷ _) = err (pending_tx_error m.digest)

    -- `determine_sequence`, with the answers of the calls in their order: the wait for the validity
    -- prover, the user's nonce and balances, and the three kinds of data.
    unfoldable pub determine_sequence :
        Result StrategyError Unit
        → Result StrategyError (ℕ × Balances a)
        → (tx_info : Result StrategyError (ProcessedInfo TxData))
        → (deposit_info : Result StrategyError (ProcessedInfo DepositData))
        → (transfer_info : Result StrategyError (ProcessedInfo (TransferData t)))
        → (is_success : ℕ → Result StrategyError Bool)
        → Result StrategyError (List Action × Balances a × List ℕ × List ℕ)
    unfolding incorporate_all finish
    determine_sequence wait user_data tx_info deposit_info transfer_info is_success = do
      _ ← wait
      user ← user_data
      guard (if is_insufficient a user.1 then false else true) balance_insufficient_before_sync
      txs ← tx_info
      _ ← no_pending_tx txs.pending
      deposits ← deposit_info
      transfers ← transfer_info
      p ←
          incorporate_all (if is_empty deposits.pending then is_empty transfers.pending else false)
            is_success txs.settled
            (record {
              nonce = user.0;
              balances = user.1;
              receivable = record { deposits = deposits.settled; transfers = transfers.settled };
              sequence = [];
            })
      out ← finish p
      ok (out.0, out.1, digests deposits.pending, digests transfers.pending)
