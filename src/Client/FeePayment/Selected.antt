-- ===== src/Client/FeePayment/Selected.antt =====
-- client-sdk/src/client/fee_payment.rs: the payments that `select_unused_fees` chooses.
use intmax.Base.{
  ℕ, ◌+◌, ◌≤◌, ◌≡◌, refl, inl, inr, Bool, true, not, List, [], ◌∷◌, ◌++◌, Result, ok, guard, leb,
  ltb, if◌then◌else◌, retain, any, All, All-retain, All-map, All-append, arith, >>=-eq-ok,
  ok-injective, ◌==◌, Bool-cases, add_u64, subst,
}
use intmax.Base.Sort.{sort_by, All-sort_by}
use intmax.Zkp.{Types}
use intmax.Interfaces.{Fee}
use intmax.Client.FeePayment.{
  SyncError, fee_error, Validation, PaymentMemo, Selection, consume, select, collect_fee,
  collect_fees, matches, select_unused_fees, get_unused_payments,
}

All-trivial {ℓ} : {A : Type ℓ} (xs : List A) → All (λ _. Unit {0}) xs
All-trivial [] = tt
All-trivial (x ∷ xs) = (tt, All-trivial xs)

module _ (t : Types) where
  open t use {Recipient}

  module _ (validate : PaymentMemo t → Validation t)
      (consume_payment : PaymentMemo t → Result SyncError Unit) (tx_timeout now : ℕ)
      (is_beneficiary : Recipient → Bool) where
    -- What a memo is worth, by the answer of the validation.
    abbrev pub worth : PaymentMemo t → ℕ
    worth memo = elim (validate memo) [
      | Validation.valid amount ↦ amount
      | Validation.tx_is_not_settled _ ↦ 0
      | Validation.invalid ↦ 0
    ]

    abbrev pub worth_of_all : List (PaymentMemo t) → ℕ
    worth_of_all [] = 0
    worth_of_all (memo ∷ memos) = worth memo + worth_of_all memos

    worth_of_all-append :
        (xs : List (PaymentMemo t)) (memo : PaymentMemo t)
        → worth_of_all (xs ++ memo ∷ []) ≡ worth_of_all xs + worth memo
    worth_of_all-append [] memo = omega arith
    worth_of_all-append (x ∷ xs) memo = omega (arith, worth_of_all-append xs memo)

    module _ (Q : PaymentMemo t → Type 0) where
      abbrev Good : PaymentMemo t → Type 0
      Good memo = Q memo × (validate memo ≡ Validation.valid (worth memo))

      abbrev Sound : Selection t → Type 0
      Sound s = (s.collected_total_fee ≡ worth_of_all s.fee_transfers) × All Good s.fee_transfers

      select-Sound :
          (memo : PaymentMemo t) (paid : ℕ) (s : Selection t)
          → validate memo ≡ Validation.valid paid
          → Q memo
          → Sound s
          → Sound (select t validate consume_payment tx_timeout now is_beneficiary memo paid s)
      select-Sound memo paid s v q h = (
        ground (arith, worth_of_all-append s.fee_transfers memo),
        All-append Good s.fee_transfers (memo ∷ []) h.1 ((q, ground arith), tt),
      )

      consume-Sound :
          (memo : PaymentMemo t) (s s' : Selection t)
          → consume t validate consume_payment tx_timeout now is_beneficiary memo s ≡ ok s'
          → Sound s
          → Sound s'
      consume-Sound memo s s' e h =
          let (_, _, f) = >>=-eq-ok (consume_payment memo) _ e in subst Sound (ok-injective f) h

      collect_fee-Sound :
          (v : Validation t) (amount : ℕ) (memo : PaymentMemo t) (s : Selection t)
          (r : Bool × Selection t)
          → validate memo ≡ v
          → collect_fee t validate consume_payment tx_timeout now is_beneficiary v amount memo s
            ≡ ok r
          → Q memo
          → Sound s
          → Sound r.1
      unfolding collect_fee
      collect_fee-Sound (Validation.valid paid) amount memo s r v e q h =
          subst (λ x. Sound x.1) (ok-injective e) (select-Sound memo paid s v q h)
      collect_fee-Sound (Validation.tx_is_not_settled timestamp) amount memo s r v e q h =
          let (s', f, g) =
            >>=-eq-ok
              (if ltb (add_u64 timestamp tx_timeout) now
                then consume t validate consume_payment tx_timeout now is_beneficiary memo s
                else ok s)
              _ e in
          subst (λ x. Sound x.1) (ok-injective g)
            (elim (Bool-cases (ltb (add_u64 timestamp tx_timeout) now)) [
              | inl late ↦ consume-Sound memo s s' (ground (arith, late, f)) h
              | inr early ↦
                  let same : ◌≡◌ {A = Result SyncError (Selection t)} (ok s) (ok s') =
                    ground (arith, early, f) in
                  subst Sound (ok-injective same) h
            ])
      collect_fee-Sound Validation.invalid amount memo s r v e q h =
          let (s', f, g) =
            >>=-eq-ok (consume t validate consume_payment tx_timeout now is_beneficiary memo s) _
              e in
          subst (λ x. Sound x.1) (ok-injective g) (consume-Sound memo s s' f h)

      collect_fees-Sound :
          (amount : ℕ) (memos : List (PaymentMemo t)) (s s' : Selection t)
          → All Q memos
          → collect_fees t validate consume_payment tx_timeout now is_beneficiary amount memos s
            ≡ ok s'
          → Sound s
          → Sound s'
      unfolding collect_fees
      collect_fees-Sound amount [] s s' q e h = subst Sound (ok-injective e) h
      collect_fees-Sound amount (memo ∷ memos) s s' q e h =
          let (r, f, g) =
            >>=-eq-ok
              (collect_fee t validate consume_payment tx_timeout now is_beneficiary (validate memo)
                amount memo s)
              _ e in
          let sound = collect_fee-Sound (validate memo) amount memo s r refl f q.0 h in
          elim (Bool-cases r.0) [
            | inl stop ↦
                let same : ◌≡◌ {A = Result SyncError (Selection t)} (ok r.1) (ok s') =
                  ground (arith, stop, g) in
                subst Sound (ok-injective same) sound
            | inr continue ↦
                collect_fees-Sound amount memos r.1 s' q.1 (ground (arith, continue, g)) sound
          ]

    -- The memo is not marked as used, and its transfer pays the fee's token to the beneficiary.
    abbrev pub IsEligible : List ℕ → Fee → PaymentMemo t → Type 0
    IsEligible used fee memo =
        (matches t validate consume_payment tx_timeout now is_beneficiary fee memo ≡ true)
        × (not (any (λ digest. digest == memo.digest) used) ≡ true)

    -- When `select_unused_fees` succeeds, every payment that it gives is unused, pays the fee's token
    -- to the beneficiary and was validated, and the validated amounts add up to at least the fee.
    pub select_unused_fees-covers :
        (used : List ℕ) (memos : List (PaymentMemo t)) (fee : Fee) (s : Selection t)
        → select_unused_fees t validate consume_payment tx_timeout now is_beneficiary used memos fee
          ≡ ok s
        → (fee.amount ≤ worth_of_all s.fee_transfers)
          × All
              (λ memo. IsEligible used fee memo × (validate memo ≡ Validation.valid (worth memo)))
              s.fee_transfers
    unfolding select_unused_fees get_unused_payments
    select_unused_fees-covers used memos fee s e =
        let unused = get_unused_payments t used memos in
        let M = matches t validate consume_payment tx_timeout now is_beneficiary fee in
        let sorted =
          sort_by (λ a b. leb a.transfer_data.transfer.amount b.transfer_data.transfer.amount)
            (retain M unused) in
        let eligible =
          All-sort_by (λ a b. leb a.transfer_data.transfer.amount b.transfer_data.transfer.amount)
            (IsEligible used fee) (retain M unused)
            (All-retain (λ memo. not (any (λ digest. digest == memo.digest) used) ≡ true) M unused
              (All-map (λ memo h. h.0) unused
                (All-retain (λ _. Unit) (λ memo. not (any (λ digest. digest == memo.digest) used))
                  memos (All-trivial memos)))) in
        let (s0, f, g) =
          >>=-eq-ok
            (collect_fees t validate consume_payment tx_timeout now is_beneficiary fee.amount sorted
              (record { fee_transfers = []; collected_total_fee = 0; consumed = [] }))
            _ e in
        let sound =
          collect_fees-Sound (IsEligible used fee) fee.amount sorted _ s0 eligible f (refl, tt) in
        let (_, enough, same) =
          >>=-eq-ok (guard (not (ltb s0.collected_total_fee fee.amount)) fee_error) _ g in
        let total = subst (Sound (IsEligible used fee)) (ok-injective same) sound in
        let le : fee.amount ≤ s0.collected_total_fee = ground (arith, enough) in
        let le' = subst (λ x. fee.amount ≤ x.collected_total_fee) (ok-injective same) le in
        (ground (arith, le', total.0), total.1)
