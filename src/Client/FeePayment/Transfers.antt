-- ===== src/Client/FeePayment/Transfers.antt =====
-- client-sdk/src/client/fee_payment.rs: the memos for the transfers that pay the fees.
use intmax.Base.{
  ℕ, ◌+◌, ◌<◌, ◌≡◌, ◌%◌, refl, ap, Bool, List, [], ◌∷◌, ◌++◌, map, Option, none, some, Result, ok,
  ok_or, arith, length, length-append, get_elem?, u32_mod, ◌==◌, if◌then◌else◌, >>=-eq-ok,
  ok-injective, sym, subst,
}
use mathlib.Core.List.{append-nil}
use intmax.Zkp.{Types, Transfer}
use intmax.Interfaces.{Fee}
use intmax.Client.FeePayment.{
  SyncError, fee_error, Topic, withdrawal_fee_memo, claim_fee_memo, PaymentMemoEntry, FeeInfo,
  WithdrawalTransfers, memo_entry, add_fee_transfer, generate_fee_payment_memo,
  generate_withdrawal_transfers, quote_claim_fee, quote_withdrawal_claim_fee,
}

get_elem?-appended {ℓ} :
    {A : Type ℓ} (xs ys : List A) (a : A) → get_elem? ((xs ++ a ∷ []) ++ ys) (length xs) ≡ some a
get_elem?-appended [] ys a = refl
get_elem?-appended (x ∷ xs) ys a = get_elem?-appended xs ys a

module _ (t : Types) where
  open t use {Recipient, Salt}

  -- The fees that a quote gives.
  abbrev pub quoted : Option Fee → List Fee
  quoted none = []
  quoted (some fee) = fee ∷ []

  abbrev fees : List PaymentMemoEntry → List Fee
  fees memos = map (λ e. e.memo) memos

  -- The transfers before and after, and the memo of the index, whatever is appended later.
  record Added (fee : Option Fee) (before after : List (Transfer t)) (index : Option ℕ)
      : Type 0 where
    extra : List (Transfer t)
    appended : after ≡ before ++ extra
    short : length extra < 2
    recorded :
        (topic : Topic) (more : List (Transfer t))
        → length before + length more < 10
        → (memos : List PaymentMemoEntry) × (memo_entry t topic (after ++ more) index ≡ ok memos)
          × (fees memos ≡ quoted fee)

  memo_entry-appended :
      (topic : Topic) (before more : List (Transfer t)) (x : Transfer t)
      → length before + length more < 10
      → memo_entry t topic ((before ++ x ∷ []) ++ more) (some (length before % u32_mod))
        ≡ ok (
            record {
              transfer_index = length before;
              topic = topic;
              memo = record { token_index = x.token_index; amount = x.amount };
            }
            ∷ [])
  unfolding memo_entry
  memo_entry-appended topic before more x h =
      let n : length before % u32_mod ≡ length before = omega arith in
      let l1 = length-append (before ++ x ∷ []) more in
      let l2 = length-append before (x ∷ []) in
      let e = get_elem?-appended before more x in rw n (ground (arith, e, l1, l2))

  add_fee_transfer-Added :
      (to_recipient : ℕ → Recipient) (salt : Salt) (beneficiary : Option ℕ) (fee : Option Fee)
      (before : List (Transfer t)) (out : Option ℕ × List (Transfer t))
      → add_fee_transfer t to_recipient salt beneficiary fee before ≡ ok out
      → Added fee before out.1 out.0
  unfolding add_fee_transfer memo_entry
  add_fee_transfer-Added to_recipient salt beneficiary none before out h =
      subst (λ o. Added none before o.1 o.0) (ok-injective h)
        (record {
          extra = [];
          appended = sym (append-nil before);
          short = omega arith;
          recorded = λ topic more s. ([], refl, refl);
        })
  add_fee_transfer-Added to_recipient salt beneficiary (some fee) before out h =
      let (pubkey, _, h1) = >>=-eq-ok (ok_or beneficiary fee_error) _ h in
      let x : Transfer t = record {
        token_index = fee.token_index;
        recipient = to_recipient pubkey;
        amount = fee.amount;
        salt = salt;
      } in
      subst (λ o. Added (some fee) before o.1 o.0) (ok-injective h1)
        (record {
          extra = x ∷ [];
          appended = refl;
          short = omega arith;
          recorded = λ topic more s. (_, memo_entry-appended topic before more x s, refl);
        })

  both_memos :
      (transfers : List (Transfer t)) (i j : Option ℕ) (ms ns : List PaymentMemoEntry)
      → memo_entry t withdrawal_fee_memo transfers i ≡ ok ms
      → memo_entry t claim_fee_memo transfers j ≡ ok ns
      → generate_fee_payment_memo t transfers i j ≡ ok (ms ++ ns)
  unfolding generate_fee_payment_memo
  both_memos transfers i j ms ns e f = rw (e, f)

  fees-append : (ms ns : List PaymentMemoEntry) → fees (ms ++ ns) ≡ fees ms ++ fees ns
  fees-append [] ns = refl
  fees-append (m ∷ ms) ns = ap (◌∷◌ m.memo) (fees-append ms ns)

  abbrev start : Transfer t → List (Transfer t)
  start x = if x.amount == 0 then [] else x ∷ []

  start-short : (x : Transfer t) → length (start x) < 2
  start-short x = ground arith

  -- When `generate_withdrawal_transfers` succeeds, `generate_fee_payment_memo` on its transfers and
  -- indices succeeds too, and the fees that its memos record are those that the withdrawal server
  -- quoted: the withdrawal fee, if there is one, and then the claim fee, if it was asked for and there
  -- is one.
  pub generate_withdrawal_transfers-memos :
      (to_recipient : ℕ → Recipient) (s1 s2 : Salt)
      (withdrawal_info claim_info : Result SyncError FeeInfo) (x : Transfer t) (token : ℕ)
      (with_claim_fee : Bool) (w : WithdrawalTransfers t)
      → generate_withdrawal_transfers t to_recipient s1 s2 withdrawal_info claim_info x token
          with_claim_fee
        ≡ ok w
      → (info : FeeInfo) × (fee : Option Fee) × (claim : Option ℕ × Option Fee) × (memos : List
          PaymentMemoEntry)
        × (withdrawal_info ≡ ok info)
        × (quote_withdrawal_claim_fee token info.fees ≡ ok fee)
        × (quote_claim_fee t with_claim_fee token claim_info ≡ ok claim)
        × (generate_fee_payment_memo t w.transfers w.withdrawal_fee_transfer_index
              w.claim_fee_transfer_index
            ≡ ok memos)
        × (map (λ e. e.memo) memos ≡ quoted fee ++ quoted claim.1)
  unfolding generate_withdrawal_transfers
  generate_withdrawal_transfers-memos to_recipient s1 s2 withdrawal_info claim_info x token
        with_claim_fee w h =
      let (info, e1, h1) = >>=-eq-ok withdrawal_info _ h in
      let (fee, e2, h2) = >>=-eq-ok (quote_withdrawal_claim_fee token info.fees) _ h1 in
      let (one, e3, h3) =
        >>=-eq-ok (add_fee_transfer t to_recipient s1 info.beneficiary fee (start x)) _ h2 in
      let (claim, e4, h4) = >>=-eq-ok (quote_claim_fee t with_claim_fee token claim_info) _ h3 in
      let (two, e5, h5) =
        >>=-eq-ok (add_fee_transfer t to_recipient s2 claim.0 claim.1 one.1) _ h4 in
      let a = add_fee_transfer-Added to_recipient s1 info.beneficiary fee (start x) one e3 in
      let b = add_fee_transfer-Added to_recipient s2 claim.0 claim.1 one.1 two e5 in
      let l0 = start-short x in
      let l1 = ap length a.appended in
      let l1' = length-append (start x) a.extra in
      let (ms, em, fm) = a.recorded withdrawal_fee_memo b.extra (omega (arith, l0, b.short)) in
      let (ns, en, fn) = b.recorded claim_fee_memo [] (omega (arith, l0, l1, l1', a.short)) in
      let em' =
        subst (λ ts. memo_entry t withdrawal_fee_memo ts one.0 ≡ ok ms) (sym b.appended) em in
      let en' = subst (λ ts. memo_entry t claim_fee_memo ts two.0 ≡ ok ns) (append-nil two.1) en in
      let g = both_memos two.1 one.0 two.0 ms ns em' en' in
      let g' =
        subst
          (λ (v : WithdrawalTransfers t).
            generate_fee_payment_memo t v.transfers v.withdrawal_fee_transfer_index
              v.claim_fee_transfer_index
            ≡ ok (ms ++ ns))
          (ok-injective h5) g in
      (info, fee, claim, ms ++ ns, e1, e2, e4, g', rw (fees-append ms ns, fm, fn))
