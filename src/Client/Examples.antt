-- ===== src/Client/Examples.antt =====
-- client-sdk/src/client and interfaces/src/data/user_data.rs on small data.
use intmax.Base.{
  ◌++◌, Option, Result, ℕ, ◌≡◌, ◌≤◌, ◌+◌, ◌-◌, refl, Bool, true, false, List, [], ◌∷◌, map, none,
  some, ok, ltb, All,
}
use intmax.Base.Map
use intmax.Base.Map.{HashMap}
use intmax.Base.Sort.{sort_by, count}
use intmax.Toy.{toy_types, pay}
use intmax.Zkp.{Transfer}
use intmax.Interfaces.{Fee, TransferData}
use intmax.Client.Balances
use intmax.Client.Balances.{
  Assets, Balances, sub_tx, sub_transfer, sub_token, sub_transfers, paid, sub_all, falls_short,
  sub_tx_lem, sub_tx-covered,
}
use intmax.Client.Strategy.{
  MetaDataWithBlockNumber, DepositData, native, ProcessedInfo, TxData, ReceiveAction, Action,
  determine_sequence, incorporate, apply_to_balances, deposit_of, transfer_of,
}
use intmax.Client.Strategy.Sequence.{incorporated, determine_sequence-count}
use intmax.Client.FeePayment.{
  FeeInfo, WithdrawalTransfers, PaymentMemoEntry, quote_withdrawal_claim_fee, quote_claim_fee,
  generate_withdrawal_transfers, generate_fee_payment_memo, SyncError, Validation, PaymentMemo,
  Selection, select_unused_fees,
}
use intmax.Client.FeePayment.Transfers.{quoted, generate_withdrawal_transfers-memos}
use intmax.Client.FeePayment.Selected.{worth, worth_of_all, IsEligible, select_unused_fees-covers}

-- A leaf is an amount with a flag that is set where a subtraction falls short.
abbrev amounts : Assets
amounts = record {
  Leaf = Bool × ℕ;
  default = (false, 0);
  add = λ leaf n. (leaf.0, leaf.1 + n);
  sub = λ leaf n. (ltb leaf.1 n, leaf.1 - n);
  is_insufficient = λ leaf. leaf.0;
  amount = λ leaf. leaf.1;
}

abbrev purse : Balances amounts
purse = (0, (false, 10)) ∷ []

abbrev transfers : List (Transfer toy_types)
transfers = pay 0 4 ∷ pay 1 3 ∷ pay 0 2 ∷ []

sub_tx_lem_example : sub_tx amounts toy_types transfers purse ≡ (
  falls_short amounts toy_types transfers purse,
  sub_all amounts toy_types (paid amounts toy_types transfers purse) purse,
)
sub_tx_lem_example = sub_tx_lem amounts toy_types transfers purse

covered : (sub_tx amounts toy_types (pay 0 4 ∷ pay 0 6 ∷ []) purse).0 ≡ false
unfolding sub_tx sub_transfers sub_transfer sub_token Map.insert Map.lookup
covered = refl

sub_tx-covered_example :
    (sub_tx amounts toy_types (pay 0 4 ∷ pay 0 6 ∷ []) purse).1
    ≡ sub_all amounts toy_types (pay 0 4 ∷ pay 0 6 ∷ []) purse
sub_tx-covered_example = sub_tx-covered amounts toy_types (pay 0 4 ∷ pay 0 6 ∷ []) purse covered

abbrev at_block : ℕ → MetaDataWithBlockNumber
at_block n = record { meta = record { timestamp = 0; digest = n }; block_number = n }

abbrev coin : ℕ → DepositData
coin n = record {
  deposit_salt = 0;
  depositor = 0;
  pubkey_salt_hash = 0;
  amount = n;
  is_eligible = true;
  token_type = native;
  token_address = 0;
  token_id = 0;
  is_mining = false;
  token_index = some 0;
}

abbrev spending : TxData toy_types
spending = record { nonce = 0; transfers = pay 0 4 ∷ []; tx_tree_root = 99 }

abbrev txs : ProcessedInfo (TxData toy_types)
txs = record { settled = (at_block 5, spending) ∷ []; pending = [] }

abbrev deposits : ProcessedInfo DepositData
deposits = record { settled = (at_block 7, coin 3) ∷ (at_block 2, coin 9) ∷ []; pending = [] }

abbrev no_transfers : ProcessedInfo (TransferData toy_types)
no_transfers = record { settled = []; pending = [] }

abbrev actions : List (Action toy_types)
actions =
    Action.receive (ReceiveAction.deposit (at_block 2) (coin 9) ∷ [])
    ∷ Action.tx (at_block 5) spending
    ∷ Action.receive (ReceiveAction.deposit (at_block 7) (coin 3) ∷ [])
    ∷ []

determined :
    determine_sequence toy_types amounts
      (ok tt)
      (ok (0, []))
      (ok txs)
      (ok deposits)
      (ok no_transfers)
      (λ r. ok true)
    ≡ ok (actions, (0, (false, 8)) ∷ [], [], [])
unfolding determine_sequence sort_by sub_tx Balances.add_token Balances.is_insufficient sub_transfer
    sub_token Map.insert Map.lookup incorporate apply_to_balances
determined = refl

determine_sequence-count_example :
    count (λ r. true) (incorporated toy_types actions)
    ≡ count (λ r. true) (map (deposit_of toy_types) deposits.settled)
      + count (λ r. true) (map (transfer_of toy_types) no_transfers.settled)
determine_sequence-count_example =
    determine_sequence-count toy_types (λ r. true) amounts (ok tt) (ok (0, [])) txs deposits
      no_transfers (λ r. ok true) actions ((0, (false, 8)) ∷ []) [] [] determined

abbrev data_of : ℕ → TransferData toy_types
data_of amount = record {
  sender_proof_set_ephemeral_key = 0;
  sender_proof_set = none;
  sender = 3;
  tx = 0;
  tx_index = 0;
  tx_merkle_proof = [];
  tx_tree_root = 0;
  transfer = pay 0 amount;
  transfer_index = 0;
  transfer_merkle_proof = 0;
}

abbrev memo : ℕ → PaymentMemo toy_types
memo n = record { digest = n; timestamp = 0; transfer_data = data_of n }

abbrev validates : PaymentMemo toy_types → Validation toy_types
validates m = Validation.valid m.transfer_data.transfer.amount

abbrev fee : Fee
fee = record { token_index = 0; amount = 5 }

abbrev selection : Selection toy_types
selection = record { fee_transfers = memo 2 ∷ memo 4 ∷ []; collected_total_fee = 6; consumed = [] }

selected :
    select_unused_fees toy_types validates
      (λ m. ok tt)
      10
      100
      (λ r. true)
      (3 ∷ [])
      (memo 4 ∷ memo 3 ∷ memo 9 ∷ memo 2 ∷ [])
      fee
    ≡ ok selection
unfolding select_unused_fees sort_by
selected = refl

select_unused_fees-covers_example :
    (5 ≤ worth_of_all toy_types validates (λ m. ok tt) 10 100 (λ r. true) (memo 2 ∷ memo 4 ∷ []))
    × All
        (λ m.
          IsEligible toy_types validates (λ m. ok tt) 10 100 (λ r. true) (3 ∷ []) fee m
          × (validates m
              ≡ Validation.valid (worth toy_types validates (λ m. ok tt) 10 100 (λ r. true) m)))
        (memo 2 ∷ memo 4 ∷ [])
select_unused_fees-covers_example =
    select_unused_fees-covers toy_types validates (λ m. ok tt) 10 100 (λ r. true) (3 ∷ [])
      (memo 4 ∷ memo 3 ∷ memo 9 ∷ memo 2 ∷ []) fee selection selected

abbrev withdrawal_info : FeeInfo
withdrawal_info = record { beneficiary = some 5; fees = some (fee ∷ []) }

abbrev withdrawn : WithdrawalTransfers toy_types
withdrawn = record {
  transfers = pay 1 20 ∷ pay 0 5 ∷ [];
  withdrawal_fee_transfer_index = some 1;
  claim_fee_transfer_index = none;
}

withdraws :
    generate_withdrawal_transfers toy_types
      (λ k. k)
      0
      0
      (ok withdrawal_info)
      (ok withdrawal_info)
      (pay 1 20)
      0
      false
    ≡ ok withdrawn
unfolding generate_withdrawal_transfers
withdraws = refl

generate_withdrawal_transfers-memos_example :
    (info : FeeInfo) × (quote : Option Fee) × (claim : Option ℕ × Option Fee) × (memos : List
      PaymentMemoEntry)
    × (◌≡◌ {A = Result SyncError FeeInfo} (ok withdrawal_info) (ok info))
    × (quote_withdrawal_claim_fee 0 info.fees ≡ ok quote)
    × (quote_claim_fee toy_types false 0 (ok withdrawal_info) ≡ ok claim)
    × (generate_fee_payment_memo toy_types (pay 1 20 ∷ pay 0 5 ∷ []) (some 1) none ≡ ok memos)
    × (map (λ e. e.memo) memos ≡ quoted toy_types quote ++ quoted toy_types claim.1)
generate_withdrawal_transfers-memos_example =
    generate_withdrawal_transfers-memos toy_types (λ k. k) 0 0 (ok withdrawal_info)
      (ok withdrawal_info) (pay 1 20) 0 false withdrawn withdraws
