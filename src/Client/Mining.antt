-- ===== src/Client/Mining.antt =====
-- client-sdk/src/client/strategy/mining.rs and strategy.rs: which deposits can be claimed as mining,
-- and which withdrawals and claims a client requests. What the servers answer is an argument.
pub mod Status
mod Examples
use intmax.Base.{
  ℕ, ◌+◌, ◌-◌, ◌*◌, ◌^◌, Bool, true, false, not, ◌&&◌, List, [], ◌∷◌, ◌++◌, map, Option, none, some,
  Result, ok, err, Panic, ◌>>=◌, ◌==◌, ltb, leb, if◌then◌else◌, retain, any, add_u64, ok_or,
}
use intmax.Zkp.{Types, Transfer}
use intmax.Interfaces.{TransferData}
use intmax.Client.Strategy.{
  MetaData, MetaDataWithBlockNumber, DepositData, TokenType, native, erc20, erc721, erc1155,
  ProcessedInfo, StrategyError, panicked, TxData,
}

-- `Deposit` of the crate intmax2-zkp.
pub record Deposit : Type 0 where
  pub depositor : ℕ
  pub pubkey_salt_hash : ℕ
  pub amount : ℕ
  pub token_index : ℕ
  pub is_eligible : Bool

-- `DepositData::deposit`.
abbrev pub get_deposit : DepositData → Option Deposit
get_deposit d = elim d.token_index [
  | none ↦ none
  | some token_index ↦ some (record {
    depositor = d.depositor;
    pubkey_salt_hash = d.pubkey_salt_hash;
    amount = d.amount;
    token_index = token_index;
    is_eligible = d.is_eligible;
  })
]

-- `Block` of the crate intmax2-zkp, as far as mining reads it.
pub record Block : Type 0 where
  pub block_number : ℕ
  pub timestamp : ℕ
  pub hash : ℕ

pub data MiningStatus : Type 0 where
  pending disqualified locking : MiningStatus
  claimable : ℕ → MiningStatus

pub record Mining : Type 0 where
  pub meta : MetaData
  pub deposit_data : DepositData
  pub block : Option Block
  pub maturity : Option ℕ
  pub status : MiningStatus

-- The answers of the validity prover, and the functions of intmax2-zkp that mining calls; the flag
-- of `get_lock_time` chooses the faster configuration.
pub record MiningEnv : Type 0 where
  pub last_block_number : Result StrategyError ℕ
  pub get_block_number : Result StrategyError ℕ
  pub fetch_block : ℕ → Result StrategyError Block
  pub get_lock_time : Bool → ℕ → ℕ → ℕ
  pub get_mining_deposit_nullifier : Deposit → ℕ → ℕ

abbrev pub is_native : TokenType → Bool
is_native native = true
is_native erc20 = false
is_native erc721 = false
is_native erc1155 = false

abbrev pub candidates : List ℕ
candidates = 10 ^ 17 ∷ 10 ^ 18 ∷ 10 ^ 19 ∷ 10 ^ 20 ∷ []

pub validate_mining_deposit_criteria : TokenType → ℕ → Bool
validate_mining_deposit_criteria token_type amount =
    is_native token_type && any (λ c. c == amount) candidates

abbrev pub contains_digest : List ℕ → ℕ → Bool
contains_digest xs n = any (λ x. x == n) xs

-- `min_by_key(|(meta, _)| meta.block_number)`, which gives the first of several.
pub min_by_block_number :
    {A : Type 0} → List (MetaDataWithBlockNumber × A) → Option (MetaDataWithBlockNumber × A)
min_by_block_number [] = none
min_by_block_number (x ∷ xs) = elim (min_by_block_number xs) [
  | none ↦ some x
  | some y ↦ if leb x.0.block_number y.0.block_number then some x else some y
]

-- The filter of the pending deposits.
abbrev pub is_eligible_pending : MetaData × DepositData → Bool
is_eligible_pending x =
    x.1.is_eligible && validate_mining_deposit_criteria x.1.token_type x.1.amount

-- The filter of the settled deposits, with the digests of the claims; the test unwraps the deposit.
abbrev pub is_eligible_settled :
    List ℕ → MetaDataWithBlockNumber × DepositData → Result StrategyError Bool
is_eligible_settled processed_digests x = do
  deposit ← ok_or (get_deposit x.1) (panicked Panic.unwrap_none)
  ok (
      deposit.is_eligible
      && (validate_mining_deposit_criteria x.1.token_type deposit.amount
          && not (contains_digest processed_digests x.0.meta.digest)))

abbrev pub eligible_settled :
    List ℕ
    → List (MetaDataWithBlockNumber × DepositData)
    → Result StrategyError (List (MetaDataWithBlockNumber × DepositData))
eligible_settled processed_digests [] = ok []
eligible_settled processed_digests (x ∷ xs) = do
  keep ← is_eligible_settled processed_digests x
  rest ← eligible_settled processed_digests xs
  ok (if keep then x ∷ rest else rest)

abbrev pub pending_mining : MetaData × DepositData → Mining
pending_mining x = record {
  meta = x.0;
  deposit_data = x.1;
  block = none;
  maturity = none;
  status = pending;
}

module _ (t : Types) (e : MiningEnv) where
  abbrev pub later_txs :
      ℕ → List (MetaDataWithBlockNumber × TxData t) → List (MetaDataWithBlockNumber × TxData t)
  later_txs block_number = retain (λ x. ltb block_number x.0.block_number)

  -- The status of a settled deposit, by its block and maturity.
  pub mining_status :
      List (MetaDataWithBlockNumber × TxData t)
      → (last_block_number current_block_number current_time : ℕ) → Block
      → (maturity : ℕ) → Result StrategyError MiningStatus
  unfolding min_by_block_number
  mining_status settled_txs last_block_number current_block_number current_time block maturity =
      let first = min_by_block_number (later_txs block.block_number settled_txs) in
      if leb block.block_number last_block_number
      then (do
        x ← ok_or first (panicked Panic.unwrap_none)
        let candidate_claimable_block_number = x.0.block_number - 1
        candidate ← e.fetch_block candidate_claimable_block_number
        ok (
            if ltb candidate.timestamp maturity
            then disqualified
            else claimable candidate_claimable_block_number))
      else ok (if ltb current_time maturity then locking else claimable current_block_number)

  -- One round of the loop over the settled deposits.
  pub settled_mining :
      Bool
      → List (MetaDataWithBlockNumber × TxData t)
      → (last_block_number current_block_number current_time : ℕ)
      → MetaDataWithBlockNumber × DepositData
      → Result StrategyError Mining
  unfolding mining_status
  settled_mining is_faster settled_txs last_block_number current_block_number current_time x = do
    block ← e.fetch_block x.0.block_number
    let maturity = add_u64 block.timestamp (e.get_lock_time is_faster block.hash x.1.deposit_salt)
    status ←
        mining_status settled_txs last_block_number current_block_number current_time block maturity
    ok (record {
      meta = x.0.meta;
      deposit_data = x.1;
      block = some block;
      maturity = some maturity;
      status = status;
    })

  pub settled_minings :
      Bool
      → List (MetaDataWithBlockNumber × TxData t)
      → (last_block_number current_block_number current_time : ℕ)
      → List (MetaDataWithBlockNumber × DepositData)
      → Result StrategyError (List Mining)
  unfolding settled_mining
  settled_minings is_faster settled_txs last_block_number current_block_number current_time [] =
      ok []
  settled_minings is_faster settled_txs last_block_number current_block_number current_time
        (x ∷ xs) =
      do
        mining ←
            settled_mining is_faster settled_txs last_block_number current_block_number current_time
              x
        rest ←
            settled_minings is_faster settled_txs last_block_number current_block_number
              current_time xs
        ok (mining ∷ rest)

  -- After the eligible deposits have been found.
  abbrev pub minings_of :
      Bool
      → Result StrategyError (ProcessedInfo (TxData t))
      → List Mining
      → List (MetaDataWithBlockNumber × DepositData)
      → Result StrategyError (List Mining)
  minings_of is_faster tx_info pending_minings [] = ok []
  minings_of is_faster tx_info pending_minings (x ∷ xs) = do
    last_block_number ← e.last_block_number
    txs ← tx_info
    current_block_number ← e.get_block_number
    current_block ← e.fetch_block current_block_number
    minings ←
        settled_minings is_faster txs.settled last_block_number current_block_number
          current_block.timestamp (x ∷ xs)
    ok (pending_minings ++ minings)

  pub fetch_mining_info :
      Bool
      → Result StrategyError (ProcessedInfo DepositData)
      → Result StrategyError (ProcessedInfo (TxData t))
      → (processed_digests : List ℕ) → Result StrategyError (List Mining)
  unfolding settled_minings
  fetch_mining_info is_faster deposit_info tx_info processed_digests = do
    deposits ← deposit_info
    settled ← eligible_settled processed_digests deposits.settled
    minings_of is_faster tx_info (map pending_mining (retain is_eligible_pending deposits.pending))
        settled

  abbrev pub is_claimable : MiningStatus → Bool
  is_claimable (claimable _) = true
  is_claimable pending = false
  is_claimable disqualified = false
  is_claimable locking = false

  -- The last filter of `determine_claims`, which unwraps the deposit.
  pub unrequested :
      (requested_claim_nullifiers : List ℕ) → List Mining → Result StrategyError (List Mining)
  unrequested requested_claim_nullifiers [] = ok []
  unrequested requested_claim_nullifiers (m ∷ ms) = do
    deposit ← ok_or (get_deposit m.deposit_data) (panicked Panic.unwrap_none)
    let nullifier = e.get_mining_deposit_nullifier deposit m.deposit_data.deposit_salt
    rest ← unrequested requested_claim_nullifiers ms
    ok (if contains_digest requested_claim_nullifiers nullifier then rest else m ∷ rest)

  -- The first argument is the list of the claims' processed digests, of the user data that is
  -- fetched once the validity prover is synced; the last, the nullifiers of `get_claim_info`.
  pub determine_claims :
      Result StrategyError (List ℕ)
      → Bool
      → Result StrategyError (ProcessedInfo DepositData)
      → Result StrategyError (ProcessedInfo (TxData t))
      → Result StrategyError (List ℕ)
      → Result StrategyError (List Mining)
  unfolding fetch_mining_info unrequested
  determine_claims user_data is_faster deposit_info tx_info requested = do
    processed_digests ← user_data
    minings ← fetch_mining_info is_faster deposit_info tx_info processed_digests
    requested_claim_nullifiers ← requested
    unrequested requested_claim_nullifiers (retain (λ m. is_claimable m.status) minings)

-- The first argument is what waiting for the validity prover and fetching the user data give.
pub determine_withdrawals :
    {t : Types}
    → Result StrategyError (Unit {0})
    → (get_withdrawal_nullifier : Transfer t → ℕ)
    → Result StrategyError (ProcessedInfo (TransferData t))
    → Result StrategyError (List ℕ)
    → Result StrategyError (List (MetaDataWithBlockNumber × TransferData t) × List ℕ)
determine_withdrawals ready get_withdrawal_nullifier withdrawal_info requested = do
  _ ← ready
  withdrawals ← withdrawal_info
  nullifiers ← requested
  ok (
    retain (λ x. not (contains_digest nullifiers (get_withdrawal_nullifier x.1.transfer)))
        withdrawals.settled,
    map (λ x. x.0.digest) withdrawals.pending,
  )
