-- ===== src/Client/Balances.antt =====
-- interfaces/src/data/user_data.rs: `Balances`, the balance of each token as a client tracks it.
use intmax.Base.{
  ℕ, ◌≡◌, refl, Bool, true, false, List, [], ◌∷◌, none, some, nat_eq, arith, if◌then◌else◌,
}
use intmax.Base.Map
use intmax.Base.Map.{HashMap, lookup-insert}
use intmax.Zkp.{Types, Transfer}

-- `AssetLeaf` of the crate intmax2-zkp, with its `Default`, `add` and `sub`.
pub record Assets : Type 1 where
  pub Leaf : Type 0
  pub default : Leaf
  pub add : Leaf → ℕ → Leaf
  pub sub : Leaf → ℕ → Leaf
  pub is_insufficient : Leaf → Bool
  pub amount : Leaf → ℕ

module _ (a : Assets) where
  open a use {Leaf}

  abbrev pub Balances : Type 0
  Balances = HashMap ℕ Leaf

  abbrev pub leaf_of : ℕ → Balances → Leaf
  leaf_of token_index b = elim (Map.lookup token_index b) [ none ↦ a.default | some leaf ↦ leaf ]

  abbrev pub any_insufficient : Bool → Balances → Bool
  any_insufficient flag [] = flag
  any_insufficient flag ((k, leaf) ∷ b) =
      any_insufficient (if flag then true else a.is_insufficient leaf) b

  unfoldable pub is_insufficient : Balances → Bool
  is_insufficient b = any_insufficient false b

  unfoldable pub add_token : ℕ → ℕ → Balances → Balances
  add_token token_index amount b = Map.insert token_index (a.add (leaf_of token_index b) amount) b

  unfoldable pub sub_token : ℕ → ℕ → Balances → Bool × Balances
  sub_token token_index amount b =
      let leaf = a.sub (leaf_of token_index b) amount in
      (a.is_insufficient leaf, Map.insert token_index leaf b)

  pub get : ℕ → Balances → ℕ
  get token_index b = elim (Map.lookup token_index b) [ none ↦ 0 | some leaf ↦ a.amount leaf ]

  module _ (t : Types) where
    unfoldable pub sub_transfer : Transfer t → Balances → Bool × Balances
    sub_transfer transfer b = sub_token transfer.token_index transfer.amount b

    -- The loop of `sub_tx`. `is_insufficient || self.sub_transfer(..)` does not call the method once
    -- the flag is set.
    unfoldable pub sub_transfers : Bool → List (Transfer t) → Balances → Bool × Balances
    sub_transfers flag [] b = (flag, b)
    sub_transfers true (x ∷ xs) b = sub_transfers true xs b
    sub_transfers false (x ∷ xs) b =
        let (insufficient, b') = sub_transfer x b in sub_transfers insufficient xs b'

    unfoldable pub sub_tx : List (Transfer t) → Balances → Bool × Balances
    unfolding sub_transfers
    sub_tx transfers b = sub_transfers false transfers b

    -- The transfers up to and including the first that leaves its token insufficient.
    pub paid : List (Transfer t) → Balances → List (Transfer t)
    paid [] b = []
    paid (x ∷ xs) b =
        let rest = paid xs (sub_transfer x b).1 in if (sub_transfer x b).0 then x ∷ [] else x ∷ rest

    -- Every transfer of a list, taken off in turn.
    pub sub_all : List (Transfer t) → Balances → Balances
    sub_all [] b = b
    sub_all (x ∷ xs) b = sub_all xs (sub_transfer x b).1

    -- Some transfer of the list leaves its token insufficient, when all are taken off in turn.
    pub falls_short : List (Transfer t) → Balances → Bool
    falls_short [] b = false
    falls_short (x ∷ xs) b =
        let rest = falls_short xs (sub_transfer x b).1 in
        if (sub_transfer x b).0 then true else rest

    sub_transfers-true :
        (xs : List (Transfer t)) (b : Balances) → sub_transfers true xs b ≡ (true, b)
    unfolding sub_transfers
    sub_transfers-true [] b = refl
    sub_transfers-true (x ∷ xs) b = sub_transfers-true xs b

    sub_transfers-false :
        (xs : List (Transfer t)) (b : Balances)
        → sub_transfers false xs b ≡ (falls_short xs b, sub_all (paid xs b) b)
    unfolding sub_transfers falls_short sub_all paid
    sub_transfers-false [] b = refl
    sub_transfers-false (x ∷ xs) b = ground (
      arith,
      sub_transfers-true xs (sub_transfer x b).1,
      sub_transfers-false xs (sub_transfer x b).1,
    )

    -- Taking a transaction off the balances reports exactly whether one of its transfers leaves its
    -- token insufficient, and takes off the transfers up to and including the first that does: those
    -- after it are left out.
    pub sub_tx_lem :
        (xs : List (Transfer t)) (b : Balances)
        → sub_tx xs b ≡ (falls_short xs b, sub_all (paid xs b) b)
    unfolding sub_tx
    sub_tx_lem xs b = sub_transfers-false xs b

    paid-covered :
        (xs : List (Transfer t)) (b : Balances) → falls_short xs b ≡ false → paid xs b ≡ xs
    unfolding falls_short paid
    paid-covered [] b h = refl
    paid-covered (x ∷ xs) b h =
        let rest = paid-covered xs (sub_transfer x b).1 in ground (arith, rest)

    -- A transaction whose subtraction reports no insufficiency is taken off whole, transfer by
    -- transfer.
    pub sub_tx-covered :
        (xs : List (Transfer t)) (b : Balances)
        → (sub_tx xs b).0 ≡ false
        → (sub_tx xs b).1 ≡ sub_all xs b
    sub_tx-covered xs b h =
        let e = sub_tx_lem xs b in
        let p = paid-covered xs b (ground (arith, e)) in ground (arith, e, p)
