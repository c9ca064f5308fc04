-- ===== src/Client/Mining/Status.antt =====
-- client-sdk/src/client/strategy/mining.rs: when the mining of a deposit can be claimed.
use intmax.Base.{
  ℕ, ◌-◌, ◌≡◌, ◌<◌, ◌≤◌, ◌∙◌, refl, sym, ap, subst, inl, inr, true, false, List, [], ◌∷◌, Option,
  none, some, Result, ok, err, Panic, >>=-eq-ok, ok_or, ok-injective, some-injective, if◌then◌else◌,
  ltb, leb, arith, All, All-map, Bool-cases, Option-cases,
}
use intmax.Zkp.{Types}
use intmax.Client.Strategy.{MetaDataWithBlockNumber, StrategyError, panicked, TxData}
use intmax.Client.Mining.{
  Block, MiningEnv, MiningStatus, claimable, disqualified, min_by_block_number, later_txs,
  mining_status,
}

min_by_block_number-none :
    {A : Type 0} (xs : List (MetaDataWithBlockNumber × A)) → min_by_block_number xs ≡ none → xs ≡ []
unfolding min_by_block_number
min_by_block_number-none [] h = refl
min_by_block_number-none (x ∷ xs) h = ground (arith, h)

-- The first least one: a bound of all, and one of the list.
min_by_block_number_lem :
    {A : Type 0} (P : MetaDataWithBlockNumber × A → Type 0)
    (xs : List (MetaDataWithBlockNumber × A)) (y : MetaDataWithBlockNumber × A)
    → min_by_block_number xs ≡ some y
    → All P xs
    → All (λ x. y.0.block_number ≤ x.0.block_number) xs × P y
unfolding min_by_block_number
min_by_block_number_lem P [] y found all = cc
min_by_block_number_lem P (x ∷ xs) y found all = elim (Option-cases (min_by_block_number xs)) [
  | inl n ↦
      let empty = min_by_block_number-none xs n in
      let same : x ≡ y = some-injective (rw (min_by_block_number, n) at found) in
      subst (λ w. All (λ v. w.0.block_number ≤ v.0.block_number) (x ∷ xs) × P w) same
        (
          (omega arith, subst (All (λ v. x.0.block_number ≤ v.0.block_number)) (sym empty) tt),
          all.0,
        )
  | inr (z, n) ↦
      let (least, holds) = min_by_block_number_lem P xs z n all.1 in
      elim (Bool-cases (leb x.0.block_number z.0.block_number)) [
        | inl q ↦
            let same : x ≡ y = some-injective (rw (min_by_block_number, n, q) at found) in
            subst (λ w. All (λ v. w.0.block_number ≤ v.0.block_number) (x ∷ xs) × P w) same
              (
                (
                  omega arith,
                  All-map {P = λ v. z.0.block_number ≤ v.0.block_number}
                      {Q = λ v. x.0.block_number ≤ v.0.block_number} (λ v le. ground (arith, q, le))
                      xs least,
                ),
                all.0,
              )
        | inr q ↦
            let same : z ≡ y = some-injective (rw (min_by_block_number, n, q) at found) in
            subst (λ w. All (λ v. w.0.block_number ≤ v.0.block_number) (x ∷ xs) × P w) same
              ((ground (arith, q), least), holds)
      ]
]

ok_or-ok : {A : Type 0} (o : Option A) (f : StrategyError) {a : A} → ok_or o f ≡ ok a → o ≡ some a
ok_or-ok none f h = cc
ok_or-ok (some x) f h = ap some (ok-injective h)

claimable_injective : {m n : ℕ} → claimable m ≡ claimable n → m ≡ n
claimable_injective h = cc

module _ (t : Types) (e : MiningEnv) where
  abbrev Tx : Type 0
  Tx = MetaDataWithBlockNumber × TxData t

  -- What holds of the later transactions holds of all, if they are later.
  All-later :
      (P : Tx → Type 0) (block_number : ℕ) (txs : List Tx)
      → All P (later_txs t e block_number txs)
      → All (λ x. block_number < x.0.block_number → P x) txs
  All-later P n [] all = tt
  All-later P n (x ∷ xs) all = elim (Bool-cases (ltb n x.0.block_number)) [
    | inl q ↦ let a = (rw q at all) in ((λ lt. a.0), All-later P n xs a.1)
    | inr q ↦ ((λ lt. absurd (ground (arith, q, lt))), All-later P n xs (rw q at all))
  ]

  later : (n : ℕ) (txs : List Tx) → All (λ x. n < x.0.block_number) (later_txs t e n txs)
  later n [] = tt
  later n (x ∷ xs) = elim (Bool-cases (ltb n x.0.block_number)) [
    | inl q ↦ rw q (ground (arith, q), later n xs)
    | inr q ↦ rw q (later n xs)
  ]

  -- The candidate is the block before the first later transaction.
  first_later :
      (block_number : ℕ) (txs : List Tx) (y : Tx)
      → min_by_block_number (later_txs t e block_number txs) ≡ some y
      → All (λ x. block_number < x.0.block_number → y.0.block_number ≤ x.0.block_number) txs
        × (block_number < y.0.block_number)
  first_later block_number txs y found =
      let (least, later) =
        min_by_block_number_lem (λ x. block_number < x.0.block_number) _ y found
          (later block_number txs) in
      (All-later _ block_number txs least, later)

  past_claimable :
      (txs : List Tx) (block : Block) (maturity n : ℕ) (y : Tx) (b : Block)
      → min_by_block_number (later_txs t e block.block_number txs) ≡ some y
      → e.fetch_block (y.0.block_number - 1) ≡ ok b
      → ◌≡◌ {A = Result StrategyError MiningStatus}
          (ok (if ltb b.timestamp maturity then disqualified else claimable (y.0.block_number - 1)))
          (ok (claimable n))
      → ((b : Block) × (e.fetch_block n ≡ ok b) × (maturity ≤ b.timestamp))
        × All (λ x. block.block_number < x.0.block_number → n < x.0.block_number) txs
  past_claimable txs block maturity n y b found fetch done =
      let (before, after) = first_later block.block_number txs y found in
      elim (Bool-cases (ltb b.timestamp maturity)) [
        | inl r ↦ absurd (ground (arith, r, done))
        | inr r ↦
            let same : y.0.block_number - 1 ≡ n =
              claimable_injective (ok-injective (rw r at done)) in
            (
              (b, sym (ap e.fetch_block same) ∙ fetch, ground (arith, r)),
              All-map
                  {P = λ x.
                    block.block_number < x.0.block_number → y.0.block_number ≤ x.0.block_number}
                  (λ x h lt. let le = h lt in omega (arith, same, after, le)) txs before,
            )
      ]

  -- A claimable deposit's block is at or after the maturity, and before every settled transaction
  -- that comes after the deposit, when the current block is the one of the current time, and no
  -- settled transaction is in a block after the account's last one.
  pub mining_status-claimable :
      (txs : List Tx) (last current current_time : ℕ) (block now : Block) (maturity n : ℕ)
      → e.fetch_block current ≡ ok now
      → now.timestamp ≡ current_time
      → All (λ x. x.0.block_number ≤ last) txs
      → mining_status t e txs last current current_time block maturity ≡ ok (claimable n)
      → ((b : Block) × (e.fetch_block n ≡ ok b) × (maturity ≤ b.timestamp))
        × All (λ x. block.block_number < x.0.block_number → n < x.0.block_number) txs
  unfolding mining_status
  mining_status-claimable txs last current current_time block now maturity n fetched time known
        done =
      elim (Bool-cases (leb block.block_number last)) [
        | inl q ↦
            let (y, found, f) =
              >>=-eq-ok
                (ok_or (min_by_block_number (later_txs t e block.block_number txs))
                  (panicked Panic.unwrap_none))
                _ (rw (mining_status, q) at done) in
            let (b, fetch, g) = >>=-eq-ok (e.fetch_block (y.0.block_number - 1)) _ f in
            past_claimable txs block maturity n y b (ok_or-ok _ _ found) fetch g
        | inr q ↦ elim (Bool-cases (ltb current_time maturity)) [
          | inl r ↦ absurd (ground (arith, q, r, done))
          | inr r ↦
              let same : current ≡ n =
                claimable_injective (ok-injective (rw (mining_status, q, r) at done)) in
              (
                (now, sym (ap e.fetch_block same) ∙ fetched, ground (arith, time, r)),
                All-map {P = λ x. x.0.block_number ≤ last}
                    (λ x le lt. absurd (ground (arith, q, le, lt))) txs known,
              )
        ]
      ]

  no_later :
      (last : ℕ) (txs : List Tx)
      → All (λ x. x.0.block_number ≤ last) txs
      → later_txs t e last txs ≡ []
  no_later last [] known = refl
  no_later last (x ∷ xs) known =
      let n : ltb last x.0.block_number ≡ false = ground (arith, known.0) in
      rw n (no_later last xs known.1)

  -- When the account's last transaction is in the very block that contains the deposit, and no
  -- settled transaction is in a later block, the search for the first later transaction panics.
  pub mining_status-panicked :
      (txs : List Tx) (last current current_time : ℕ) (block : Block) (maturity : ℕ)
      → All (λ x. x.0.block_number ≤ last) txs
      → block.block_number ≡ last
      → mining_status t e txs last current current_time block maturity
        ≡ err (panicked Panic.unwrap_none)
  unfolding mining_status min_by_block_number
  mining_status-panicked txs last current current_time block maturity known same =
      let none_later = no_later last txs known in
      let le : leb last last ≡ true = ground arith in rw (mining_status, same, le, none_later)
