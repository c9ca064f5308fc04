-- ===== src/Client/FeePayment.antt =====
-- client-sdk/src/client/fee_payment.rs: the transfers that pay the fees of a withdrawal or a claim,
-- and the choice among the payments that are not used yet. Answers of the servers, the validation
-- of a receive, fresh salts and the clock are arguments.
pub mod Selected
pub mod Transfers
use intmax.Base.{
  ℕ, ◌+◌, ◌<◌, ◌≤◌, ◌≡◌, refl, sym, ap, ◌∙◌, inl, inr, ◌⊎◌, Bool, true, false, not, ◌&&◌, List, [],
  ◌∷◌, ◌++◌, Option, none, some, Result, ok, err, Panic, guard, ok_or, ◌>>=◌, ◌>>◌, ◌==◌, ltb, leb,
  if◌then◌else◌, retain, any, length, get_elem?, u32_mod, add_u64, arith, String, ◌%◌, Option-cases,
  Bool-cases, >>=-eq-ok, ok-injective, All, find,
}
use intmax.Base.Sort.{sort_by}
use intmax.Zkp.{Types, Transfer}
use intmax.Interfaces.{Fee, TransferData}

pub data FeeType : Type 0 where
  withdrawal claim : FeeType

pub data Topic : Type 0 where
  withdrawal_fee_memo claim_fee_memo used_or_invalid_memo : Topic

pub data SyncError : Type 0 where
  fee_error : SyncError
  external : ℕ → SyncError
  panicked : Panic → SyncError

-- A memo carries the fee that its JSON encodes.
pub record PaymentMemoEntry : Type 0 where
  pub transfer_index : ℕ
  pub topic : Topic
  pub memo : Fee

-- The answer of the withdrawal server for one kind of fee.
pub record FeeInfo : Type 0 where
  pub beneficiary : Option ℕ
  pub fees : Option (List Fee)

-- `quote_withdrawal_claim_fee` of client-sdk/src/client/sync/utils.rs, with the fee token given.
pub quote_withdrawal_claim_fee : ℕ → Option (List Fee) → Result SyncError (Option Fee)
quote_withdrawal_claim_fee fee_token_index none = ok none
quote_withdrawal_claim_fee fee_token_index (some fees) =
    elim (find (λ fee. fee.token_index == fee_token_index) fees) [
      | none ↦ err fee_error
      | some fee ↦ ok (some fee)
    ]

module _ (t : Types) where
  open t use {Recipient, Salt}

  pub record WithdrawalTransfers : Type 0 where
    pub transfers : List (Transfer t)
    pub withdrawal_fee_transfer_index : Option ℕ
    pub claim_fee_transfer_index : Option ℕ

  abbrev pub fee_of : Transfer t → Fee
  fee_of x = record { token_index = x.token_index; amount = x.amount }

  -- One of the two halves of `generate_fee_payment_memo`. The cast of the length to `u32` is kept.
  pub memo_entry : Topic → List (Transfer t) → Option ℕ → Result SyncError (List PaymentMemoEntry)
  memo_entry topic transfers none = ok []
  memo_entry topic transfers (some i) =
      if leb (length transfers % u32_mod) i then err fee_error else elim (get_elem? transfers i) [
        | none ↦ err (panicked Panic.index_out_of_bounds)
        | some x ↦ ok (record { transfer_index = i; topic = topic; memo = fee_of x } ∷ [])
      ]

  unfoldable pub generate_fee_payment_memo :
      List (Transfer t) → Option ℕ → Option ℕ → Result SyncError (List PaymentMemoEntry)
  unfolding memo_entry
  generate_fee_payment_memo transfers withdrawal_fee_transfer_index claim_fee_transfer_index = do
    withdrawal_memos ← memo_entry withdrawal_fee_memo transfers withdrawal_fee_transfer_index
    claim_memos ← memo_entry claim_fee_memo transfers claim_fee_transfer_index
    ok (withdrawal_memos ++ claim_memos)

  -- Appends the transfer that pays a quoted fee, and gives its index.
  pub add_fee_transfer :
      (ℕ → Recipient)
      → Salt
      → Option ℕ
      → Option Fee
      → List (Transfer t)
      → Result SyncError (Option ℕ × List (Transfer t))
  add_fee_transfer to_recipient salt beneficiary none transfers = ok (none, transfers)
  add_fee_transfer to_recipient salt beneficiary (some fee) transfers = do
    pubkey ← ok_or beneficiary fee_error
    ok (
      some (length transfers % u32_mod),
      transfers
          ++ (record {
            token_index = fee.token_index;
            recipient = to_recipient pubkey;
            amount = fee.amount;
            salt = salt;
          }
              ∷ []),
    )

  -- The answers for the claim fee, which is asked for only if it is wanted.
  abbrev pub quote_claim_fee :
      Bool → ℕ → Result SyncError FeeInfo → Result SyncError (Option ℕ × Option Fee)
  quote_claim_fee with_claim_fee fee_token_index claim_info =
      if with_claim_fee
      then (claim_info >>= λ info. quote_withdrawal_claim_fee fee_token_index info.fees >>= λ fee.
          ok (info.beneficiary, fee))
      else ok (none, none)

  -- `generate_withdrawal_transfers`. `withdrawal_info` is the answer with the fees of direct or of
  -- claimable withdrawals, as the contract lists the token or not.
  unfoldable pub generate_withdrawal_transfers :
      (ℕ → Recipient)
      → (withdrawal_salt claim_salt : Salt) → Result SyncError FeeInfo
      → Result SyncError FeeInfo
      → Transfer t
      → (fee_token_index : ℕ) (with_claim_fee : Bool) → Result SyncError WithdrawalTransfers
  unfolding quote_withdrawal_claim_fee add_fee_transfer
  generate_withdrawal_transfers to_recipient withdrawal_salt claim_salt withdrawal_info claim_info
        withdrawal_transfer fee_token_index with_claim_fee =
      do
        let transfers = if withdrawal_transfer.amount == 0 then [] else withdrawal_transfer ∷ []
        info ← withdrawal_info
        fee ← quote_withdrawal_claim_fee fee_token_index info.fees
        with_withdrawal ←
            add_fee_transfer to_recipient withdrawal_salt info.beneficiary fee transfers
        quoted ← quote_claim_fee with_claim_fee fee_token_index claim_info
        with_claim ← add_fee_transfer to_recipient claim_salt quoted.0 quoted.1 with_withdrawal.1
        ok (record {
          transfers = with_claim.1;
          withdrawal_fee_transfer_index = with_withdrawal.0;
          claim_fee_transfer_index = with_claim.0;
        })

  -- The answer of `validate_receive` for the transfer of a memo.
  pub data Validation : Type 0 where
    valid : ℕ → Validation
    tx_is_not_settled : ℕ → Validation
    invalid : Validation

  pub record PaymentMemo : Type 0 where
    pub digest : ℕ
    pub timestamp : ℕ
    pub transfer_data : TransferData t

  -- `get_unused_payments`, on the memos of the fee's topic and the digests of those marked as used.
  unfoldable pub get_unused_payments : List ℕ → List PaymentMemo → List PaymentMemo
  get_unused_payments used memos =
      retain (λ memo. not (any (λ digest. digest == memo.digest) used)) memos

  -- The variables of the loop of `select_unused_fees`, with the memos marked as consumed.
  pub record Selection : Type 0 where
    pub fee_transfers : List PaymentMemo
    pub collected_total_fee : ℕ
    pub consumed : List PaymentMemo

  module _ (validate : PaymentMemo → Validation)
      (consume_payment : PaymentMemo → Result SyncError Unit) (tx_timeout now : ℕ)
      (is_beneficiary : Recipient → Bool) where
    abbrev pub consume : PaymentMemo → Selection → Result SyncError Selection
    consume memo s = consume_payment memo >> ok (record s { consumed = s.consumed ++ memo ∷ [] })

    abbrev pub select : PaymentMemo → ℕ → Selection → Selection
    select memo amount s = record s {
      fee_transfers = s.fee_transfers ++ memo ∷ [];
      collected_total_fee = s.collected_total_fee + amount;
    }

    -- One round of the loop, for the answer of the validation: whether the loop breaks, and what it
    -- leaves. A payment that is not settled skips the test of the total.
    pub collect_fee : Validation → ℕ → PaymentMemo → Selection → Result SyncError (Bool × Selection)
    collect_fee (valid paid) amount memo s =
        let s' = select memo paid s in ok (leb amount s'.collected_total_fee, s')
    collect_fee (tx_is_not_settled timestamp) amount memo s =
        (if ltb (add_u64 timestamp tx_timeout) now then consume memo s else ok s) >>= λ s'.
        ok (false, s')
    collect_fee invalid amount memo s =
        consume memo s >>= λ s'. ok (leb amount s'.collected_total_fee, s')

    pub collect_fees : ℕ → List PaymentMemo → Selection → Result SyncError Selection
    unfolding collect_fee
    collect_fees amount [] s = ok s
    collect_fees amount (memo ∷ memos) s = collect_fee (validate memo) amount memo s >>= λ r.
        let rest = collect_fees amount memos r.1 in if r.0 then ok r.1 else rest

    -- The memo's transfer is in the fee's token and goes to the beneficiary.
    abbrev pub matches : Fee → PaymentMemo → Bool
    matches fee memo =
        memo.transfer_data.transfer.token_index == fee.token_index
        && is_beneficiary memo.transfer_data.transfer.recipient

    unfoldable pub select_unused_fees : List ℕ → List PaymentMemo → Fee → Result SyncError Selection
    unfolding get_unused_payments collect_fees
    select_unused_fees used memos fee = do
      s ←
          collect_fees fee.amount
            (sort_by (λ a b. leb a.transfer_data.transfer.amount b.transfer_data.transfer.amount)
              (retain (matches fee) (get_unused_payments used memos)))
            (record { fee_transfers = []; collected_total_fee = 0; consumed = [] })
      _ ← guard (not (ltb s.collected_total_fee fee.amount)) fee_error
      ok s
