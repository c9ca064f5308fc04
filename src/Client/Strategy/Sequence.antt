-- ===== src/Client/Strategy/Sequence.antt =====
-- client-sdk/src/client/strategy/strategy.rs: what becomes of the deposits and transfers that a
-- client has received.
use intmax.Base.{
  ℕ, ◌+◌, ◌≡◌, ◌∙◌, refl, sym, inl, inr, Bool, true, false, List, [], ◌∷◌, ◌++◌, map, Option, none,
  some, Result, ok, guard, >>=-eq-ok, ok-injective, Bool-cases, if◌then◌else◌, retain, arith, ap,
}
use intmax.Base.Sort.{count, count-append, count-sort_by, count-retain}
use intmax.Zkp.{Types}
use intmax.Interfaces.{TransferData}
use intmax.Client.Balances.{Assets, Balances, is_insufficient}
use intmax.Client.Strategy.{
  MetaDataWithBlockNumber, DepositData, ProcessedInfo, StrategyError, TxData, ReceiveAction, Action,
  Receivable, Progress, deposit_of, transfer_of, before, earlier, not_earlier, collect_receives,
  apply_all, spend, shortage, incorporate, incorporate_all, finish, determine_sequence,
  balance_insufficient_before_sync, no_pending_tx, is_empty,
}

count-map {ℓ κ} :
    {A : Type ℓ} {B : Type κ} (p : B → Bool) (f : A → B) (xs : List A)
    → count p (map f xs) ≡ count (λ x. p (f x)) xs
count-map p f [] = refl
count-map p f (x ∷ xs) = ground (arith, count-map p f xs)

module _ (t : Types) where
  -- The deposits and transfers that a sequence of actions incorporates.
  pub incorporated : List (Action t) → List (ReceiveAction t)
  incorporated [] = []
  incorporated (Action.receive rs ∷ actions) = rs ++ incorporated actions
  incorporated (Action.tx m d ∷ actions) = incorporated actions

  incorporated_tx :
      (m : MetaDataWithBlockNumber) (d : TxData t) → incorporated (Action.tx m d ∷ []) ≡ []
  unfolding incorporated
  incorporated_tx m d = refl

  nothing_incorporated : incorporated [] ≡ []
  unfolding incorporated
  nothing_incorporated = refl

  module _ (p : ReceiveAction t → Bool) where
    abbrev left : Receivable t → ℕ
    left r = count p (map (deposit_of t) r.deposits) + count p (map (transfer_of t) r.transfers)

    incorporated-append :
        (xs ys : List (Action t))
        → count p (incorporated (xs ++ ys)) ≡ count p (incorporated xs) + count p (incorporated ys)
    unfolding incorporated
    incorporated-append [] ys = omega arith
    incorporated-append (Action.receive rs ∷ xs) ys = omega (
      arith,
      count-append p rs (incorporated (xs ++ ys)),
      count-append p rs (incorporated xs),
      incorporated-append xs ys,
    )
    incorporated-append (Action.tx m d ∷ xs) ys = incorporated-append xs ys

    split :
        {A : Type 0} (f : MetaDataWithBlockNumber × A → ReceiveAction t) (n : ℕ)
        (xs : List (MetaDataWithBlockNumber × A))
        → count p (map f (retain (earlier t n) xs)) + count p (map f (retain (not_earlier t n) xs))
          ≡ count p (map f xs)
    split {A = A} f n xs =
        let h : (x : MetaDataWithBlockNumber × A)
            → not_earlier t n x ≡ (if earlier t n x then false else true) =
          λ x. ground arith in
        omega (
          arith,
          count-map p f (retain (earlier t n) xs),
          count-map p f (retain (not_earlier t n) xs),
          count-map p f xs,
          count-retain (λ x. p (f x)) (earlier t n) (not_earlier t n) xs h,
        )

    collect_receives-count :
        (o : Option ℕ) (r : Receivable t)
        → count p (collect_receives t o r).0 + left (collect_receives t o r).1 ≡ left r
    unfolding collect_receives
    collect_receives-count none r = omega (
      arith,
      count-sort_by p (before t) (map (deposit_of t) r.deposits ++ map (transfer_of t) r.transfers),
      count-append p (map (deposit_of t) r.deposits) (map (transfer_of t) r.transfers),
    )
    collect_receives-count (some n) r =
        let ds = map (deposit_of t) (retain (earlier t n) r.deposits) in
        let ts = map (transfer_of t) (retain (earlier t n) r.transfers) in
        omega (
          arith,
          count-sort_by p (before t) (ds ++ ts),
          count-append p ds ts,
          split (deposit_of t) n r.deposits,
          split (transfer_of t) n r.transfers,
        )

    incorporated-receive :
        (rs : List (ReceiveAction t)) (xs ys : List (Action t))
        → incorporated ys ≡ []
        → count p (incorporated (xs ++ Action.receive rs ∷ ys))
          ≡ count p (incorporated xs) + count p rs
    unfolding incorporated
    incorporated-receive rs xs ys h = omega (
      arith,
      incorporated-append xs (Action.receive rs ∷ ys),
      count-append p rs (incorporated ys),
      ap (count p) h,
    )

    module _ (a : Assets) where
      abbrev total : Progress t a → ℕ
      total q = count p (incorporated q.sequence) + left q.receivable

      incorporate-count :
          (nothing_pending : Bool) (m : MetaDataWithBlockNumber) (d : TxData t)
          (q q' : Progress t a)
          → incorporate t a nothing_pending m d q ≡ ok q'
          → total q' ≡ total q
      unfolding incorporate
      incorporate-count nothing_pending m d q q' h =
          let c = collect_receives t (some m.block_number) q.receivable in
          let (b, _, h1) = >>=-eq-ok (apply_all t a c.0 q.balances) _ h in
          let s = spend t a d q.nonce b in
          let (_, _, h2) =
            >>=-eq-ok
              (guard (if s.0 then false else true) (shortage t a nothing_pending m.meta.digest)) _
              h1 in
          let e = ap total (ok-injective h2) in
          omega (
            arith,
            e,
            incorporated-receive c.0 q.sequence (Action.tx m d ∷ []) (incorporated_tx m d),
            collect_receives-count (some m.block_number) q.receivable,
          )

      incorporate_all-count :
          (nothing_pending : Bool) (is_success : ℕ → Result StrategyError Bool)
          (txs : List (MetaDataWithBlockNumber × TxData t)) (q q' : Progress t a)
          → incorporate_all t a nothing_pending is_success txs q ≡ ok q'
          → total q' ≡ total q
      unfolding incorporate_all
      incorporate_all-count np is_success [] q q' h = ap total (sym (ok-injective h))
      incorporate_all-count np is_success ((m, d) ∷ txs) q q' h =
          let (success, _, h1) = >>=-eq-ok (is_success d.tx_tree_root) _ h in
          let (r, e, h2) = >>=-eq-ok (if success then incorporate t a np m d q else ok q) _ h1 in
          incorporate_all-count np is_success txs r q' h2 ∙ elim (Bool-cases success) [
            | inl s ↦ incorporate-count np m d q r (ground (arith, e, s))
            | inr s ↦
                let eq : ◌≡◌ {A = Result StrategyError (Progress t a)} (ok q) (ok r) =
                  ground (arith, e, s) in
                ap total (sym (ok-injective eq))
          ]

      finish-count :
          (q : Progress t a) (actions : List (Action t)) (b : Balances a)
          → finish t a q ≡ ok (actions, b)
          → count p (incorporated actions) ≡ total q
      unfolding finish
      finish-count q actions b h =
          let c = collect_receives t none q.receivable in
          let (_, _, h1) = >>=-eq-ok (apply_all t a c.0 q.balances) _ h in
          let e = ap (λ x. count p (incorporated x.0)) (ok-injective h1) in
          omega (
            arith,
            e,
            incorporated-receive c.0 q.sequence [] nothing_incorporated,
            collect_receives-count none q.receivable,
          )

      -- When `determine_sequence` succeeds, the actions that it gives incorporate every settled
      -- deposit and every settled transfer exactly as often as the servers listed it: for every test,
      -- as many received items pass it in the sequence as in the two lists together.
      pub determine_sequence-count :
          (wait : Result StrategyError Unit) (user_data : Result StrategyError (ℕ × Balances a))
          (txs : ProcessedInfo (TxData t)) (deposits : ProcessedInfo DepositData)
          (transfers : ProcessedInfo (TransferData t)) (is_success : ℕ → Result StrategyError Bool)
          (actions : List (Action t)) (b : Balances a) (ds ts : List ℕ)
          → determine_sequence t a wait user_data (ok txs) (ok deposits) (ok transfers) is_success
            ≡ ok (actions, b, ds, ts)
          → count p (incorporated actions)
            ≡ count p (map (deposit_of t) deposits.settled)
              + count p (map (transfer_of t) transfers.settled)
      unfolding determine_sequence
      determine_sequence-count wait user_data txs deposits transfers is_success actions b ds ts h =
          let (_, _, h1) = >>=-eq-ok wait _ h in
          let (user, _, h2) = >>=-eq-ok user_data _ h1 in
          let (_, _, h3) =
            >>=-eq-ok
              (guard (if is_insufficient a user.1 then false else true)
                balance_insufficient_before_sync)
              _ h2 in
          let (_, _, h4) = >>=-eq-ok (no_pending_tx t a txs.pending) _ h3 in
          let np =
            if is_empty t a deposits.pending then is_empty t a transfers.pending else false in
          let start : Progress t a = record {
            nonce = user.0;
            balances = user.1;
            receivable = record { deposits = deposits.settled; transfers = transfers.settled };
            sequence = [];
          } in
          let (q, e, h5) = >>=-eq-ok (incorporate_all t a np is_success txs.settled start) _ h4 in
          let (out, f, h6) = >>=-eq-ok (finish t a q) _ h5 in
          let g = ap (λ x. count p (incorporated x.0)) (ok-injective h6) in
          omega (
            arith,
            g,
            finish-count q out.0 out.1 f,
            incorporate_all-count np is_success txs.settled start q e,
            ap (count p) nothing_incorporated,
          )
