-- ===== src/BlockBuilder/NonceManager/Reservation.antt =====
-- block-builder/src/app/storage/nonce_manager/memory_nonce_manager.rs: histories of reservations and
-- releases.
use intmax.Base.{
  ℕ, ◌+◌, ◌≤◌, ◌<◌, ◌≡◌, refl, ap, subst, ◌∙◌, Bool, true, false, List, [], ◌∷◌, Result, ok, err,
  arith, if◌then◌else◌, add_u32, u32_mod, All, All-map, length, max, leb, retain, >>=-eq-ok,
  Result-cases, inl, inr,
}
use intmax.Base.BTreeSet
use intmax.BlockBuilder.NonceManager.{
  NonceError, advance, put, Rollup, InMemoryNonceManager, get_onchain_next_nonce, sync_onchain,
  next_nonce, reserved_nonces, reserve_nonce, release_nonce,
}

-- The contract's answer for one kind of block, corrected.
abbrev pub Answers : Rollup → Bool → ℕ → Type 0
Answers rollup b n = get_onchain_next_nonce rollup b ≡ ok n

-- What synchronising does to the counter and the set of one kind, `n` being the contract's answer.
abbrev pub Synced : Bool → ℕ → InMemoryNonceManager → InMemoryNonceManager → Type 0
Synced b n m s =
    (next_nonce b s ≡ max n (next_nonce b m))
    × (reserved_nonces b s ≡ retain (λ k. leb n k) (reserved_nonces b m))

advanced :
    (rollup : Rollup) (m : InMemoryNonceManager) (r q : ℕ)
    → Answers rollup true r
    → Answers rollup false q
    → (s : InMemoryNonceManager)
    → ◌≡◌ {A = Result NonceError InMemoryNonceManager} (ok (advance r q m)) (ok s)
    → (b : Bool) → (n : ℕ) × Answers rollup b n × Synced b n m s
unfolding advance
advanced rollup m r q er eq s e true = (r, er, (ground arith, ground arith))
advanced rollup m r q er eq s e false = (q, eq, (ground arith, ground arith))

pub sync_onchain_lem :
    (rollup : Rollup) (m s : InMemoryNonceManager)
    → sync_onchain rollup m ≡ ok s
    → (b : Bool) → (n : ℕ) × Answers rollup b n × Synced b n m s
unfolding sync_onchain
sync_onchain_lem rollup m s h b =
    let (r, er, h') = >>=-eq-ok (get_onchain_next_nonce rollup true) _ h in
    let (q, eq, h'') = >>=-eq-ok (get_onchain_next_nonce rollup false) _ h' in
    advanced rollup m r q er eq s h'' b

pub reserve_nonce_lem :
    (rollup : Rollup) (k : Bool) (m t : InMemoryNonceManager) (n : ℕ)
    → reserve_nonce rollup k m ≡ ok (n, t)
    → (s : InMemoryNonceManager) × (sync_onchain rollup m ≡ ok s)
      × (n ≡ next_nonce k s)
      × (t ≡ put k (add_u32 n 1) (BTreeSet.insert n (reserved_nonces k s)) s)
unfolding reserve_nonce
reserve_nonce_lem rollup k m t n h =
    let (s, es, h') = >>=-eq-ok (sync_onchain rollup m) _ h in (s, es, ground arith, ground arith)

-- The two kinds of block do not share a counter or a set.
same : Bool → Bool → Bool
same true k = k
same false true = false
same false false = true

pub data Call : Type 0 where
  reserve : Rollup → Bool → Call
  release : ℕ → Bool → Call

-- The nonces that a history hands out for one kind of block, in order. A call that fails hands out
-- nothing.
pub handed : Bool → List Call → InMemoryNonceManager → List ℕ
handed b [] m = []
handed b (reserve rollup k ∷ cs) m = elim (reserve_nonce rollup k m) [
  | err e ↦ handed b cs m
  | ok (n, t) ↦ (let rest = handed b cs t in if same b k then n ∷ rest else rest)
]
handed b (release n k ∷ cs) m = handed b cs (release_nonce n k m)

-- Every answer of the contract in the history is at most the bound.
abbrev pub Below : ℕ → Call → Type 0
Below bound (reserve rollup k) = (b : Bool) (n : ℕ) → Answers rollup b n → n ≤ bound
Below bound (release n k) = Unit

-- The counter of one kind, as a value, so that a split on the kind reads it.
pub sync_onchain-Below :
    (bound : ℕ) (rollup : Rollup) (m s : InMemoryNonceManager)
    → ((b : Bool) (n : ℕ) → Answers rollup b n → n ≤ bound)
    → ((b : Bool) → next_nonce b m ≤ bound)
    → sync_onchain rollup m ≡ ok s
    → (b : Bool) → (next_nonce b m ≤ next_nonce b s) × (next_nonce b s ≤ bound)
sync_onchain-Below bound rollup m s below start h b =
    let (r, er, sy) = sync_onchain_lem rollup m s h b in
    (omega (arith, sy.0), omega (arith, sy.0, below b r er, start b))

next_nonce-put :
    (k b : Bool) (n : ℕ) (r : BTreeSet.BTreeSet) (s : InMemoryNonceManager)
    → next_nonce b (put k n r s) ≡ (if same b k then n else next_nonce b s)
unfolding same
next_nonce-put true true n r s = refl
next_nonce-put true false n r s = refl
next_nonce-put false true n r s = refl
next_nonce-put false false n r s = refl

same_refl : (b : Bool) → same b b ≡ true
unfolding same
same_refl true = refl
same_refl false = refl

-- One reservation under the bound: the nonce, and the counters after it.
reserve_nonce-Below :
    (bound : ℕ) (rollup : Rollup) (k b : Bool) (m t : InMemoryNonceManager) (n : ℕ)
    → Below bound (reserve rollup k)
    → bound + 1 < u32_mod
    → ((b : Bool) → next_nonce b m ≤ bound)
    → reserve_nonce rollup k m ≡ ok (n, t)
    → (n ≤ bound)
      × (next_nonce k m ≤ n)
      × (next_nonce k t ≡ n + 1)
      × (next_nonce b m ≤ next_nonce b t)
      × (next_nonce b t ≤ bound + 1)
reserve_nonce-Below bound rollup k b m t n below room start h =
    let (s, es, en, et) = reserve_nonce_lem rollup k m t n h in
    let grown = sync_onchain-Below bound rollup m s below start es in
    let after = λ (b : Bool). ap (next_nonce b) et ∙ next_nonce-put k b _ _ s in
    ground (arith, grown k, grown b, after k, after b, same_refl k)

-- A history whose answers stay under the bound, with room in a `u32` for every call of it.
pub record HasRoom (bound : ℕ) (cs : List Call) (m : InMemoryNonceManager) : Type 0 where
  pub answers : All (Below bound) cs
  pub room : bound + length cs < u32_mod
  pub start : (b : Bool) → next_nonce b m ≤ bound

release_nonce-next :
    (n : ℕ) (k b : Bool) (m : InMemoryNonceManager)
    → next_nonce b (release_nonce n k m) ≡ next_nonce b m
unfolding release_nonce
release_nonce-next n true true m = refl
release_nonce-next n true false m = refl
release_nonce-next n false true m = refl
release_nonce-next n false false m = refl

Below-mono : (bound : ℕ) (c : Call) → Below bound c → Below (bound + 1) c
Below-mono bound (reserve rollup k) h = λ b n e. omega (arith, h b n e)
Below-mono bound (release n k) h = tt

-- The room left after a reservation, for the rest of the history.
HasRoom-reserve :
    (bound : ℕ) (rollup : Rollup) (k : Bool) (cs : List Call) (m t : InMemoryNonceManager) (n : ℕ)
    → HasRoom bound (reserve rollup k ∷ cs) m
    → reserve_nonce rollup k m ≡ ok (n, t)
    → HasRoom (bound + 1) cs t
HasRoom-reserve bound rollup k cs m t n h e = record {
  answers = All-map {P = Below bound} (Below-mono bound) cs h.answers.1;
  room = omega (arith, h.room);
  start = λ b.
      (reserve_nonce-Below bound rollup k b m t n h.answers.0 (omega (arith, h.room)) h.start e).4;
}

-- A call that reserves nothing leaves the room as it was.
HasRoom-keep :
    (bound : ℕ) (c : Call) (cs : List Call) (m t : InMemoryNonceManager)
    → HasRoom bound (c ∷ cs) m
    → ((b : Bool) → next_nonce b t ≡ next_nonce b m)
    → HasRoom bound cs t
HasRoom-keep bound c cs m t h e = record {
  answers = h.answers.1;
  room = omega (arith, h.room);
  start = λ b. omega (arith, h.start b, e b);
}

handed-reserve_ok :
    (b : Bool) (rollup : Rollup) (k : Bool) (cs : List Call) (m t : InMemoryNonceManager) (n : ℕ)
    → reserve_nonce rollup k m ≡ ok (n, t)
    → handed b (reserve rollup k ∷ cs) m ≡ (if same b k then n ∷ handed b cs t else handed b cs t)
unfolding handed
handed-reserve_ok b rollup k cs m t n e = rw (e, handed)

handed-reserve_err :
    (b : Bool) (rollup : Rollup) (k : Bool) (cs : List Call) (m : InMemoryNonceManager)
    (x : NonceError)
    → reserve_nonce rollup k m ≡ err x
    → handed b (reserve rollup k ∷ cs) m ≡ handed b cs m
unfolding handed
handed-reserve_err b rollup k cs m x e = rw (e, handed)

-- Ascending, from a bound on.
abbrev pub From : ℕ → List ℕ → Type 0
From low ns = BTreeSet.IsAscending ns × All (λ n. low ≤ n) ns

From-mono : (low high : ℕ) (ns : List ℕ) → low ≤ high → From high ns → From low ns
From-mono low high ns h f = (f.0, All-map {P = λ n. high ≤ n} (λ n q. omega arith) ns f.1)

From-reserve :
    (mine : Bool) (low n : ℕ) (high : ℕ) (ns : List ℕ)
    → low ≤ high
    → (mine ≡ true → (low ≤ n) × (high ≡ n + 1))
    → From high ns
    → From low (if mine then n ∷ ns else ns)
From-reserve true low n high ns h p f = (
  (All-map {P = λ k. high ≤ k} (λ k q. omega (arith, p refl)) ns f.1, f.0),
  ((p refl).0, (From-mono low high ns h f).1),
)
From-reserve false low n high ns h p f = From-mono low high ns h f

eq_of_same : (b k : Bool) → same b k ≡ true → k ≡ b
unfolding same
eq_of_same true k h = h
eq_of_same false true h = cc
eq_of_same false false h = refl

-- A reservation of the kind that is watched moves its counter to just above the nonce.
reserve_nonce-same :
    (bound : ℕ) (rollup : Rollup) (k b : Bool) (cs : List Call) (m t : InMemoryNonceManager) (n : ℕ)
    → HasRoom bound (reserve rollup k ∷ cs) m
    → reserve_nonce rollup k m ≡ ok (n, t)
    → same b k ≡ true
    → (next_nonce b m ≤ n) × (next_nonce b t ≡ n + 1)
reserve_nonce-same bound rollup k b cs m t n h e q =
    let one =
      reserve_nonce-Below bound rollup k b m t n h.answers.0 (omega (arith, h.room)) h.start e in
    subst (λ c. (next_nonce c m ≤ n) × (next_nonce c t ≡ n + 1)) (eq_of_same b k q) (one.1, one.2)

-- The nonces that a history of reservations and releases hands out for one kind of block are
-- strictly ascending and start at the counter or above it, whatever the contract answers, as long
-- as the counters have room in a `u32`. So none is handed out twice.
pub handed-IsAscending :
    (b : Bool) (cs : List Call) (m : InMemoryNonceManager) (bound : ℕ)
    → HasRoom bound cs m
    → From (next_nonce b m) (handed b cs m)
unfolding handed
handed-IsAscending b [] m bound h = (tt, tt)
handed-IsAscending b (reserve rollup k ∷ cs) m bound h =
    elim (Result-cases (reserve_nonce rollup k m)) [
      | inl ((n, t), e) ↦ rw (handed-reserve_ok b rollup k cs m t n e) (
          From-reserve (same b k) _ n (next_nonce b t) (handed b cs t)
            (reserve_nonce-Below bound rollup k b m t n h.answers.0 (omega (arith, h.room)) h.start
              e).3
            (reserve_nonce-same bound rollup k b cs m t n h e)
            (handed-IsAscending b cs t (bound + 1) (HasRoom-reserve bound rollup k cs m t n h e)))
      | inr (x, e) ↦
          rw (handed-reserve_err b rollup k cs m x e)
            (handed-IsAscending b cs m bound (HasRoom-keep bound _ cs m m h (λ k'. refl)))
    ]
handed-IsAscending b (release n k ∷ cs) m bound h =
    From-mono (next_nonce b m) (next_nonce b (release_nonce n k m)) _
      (omega (arith, release_nonce-next n k b m))
      (handed-IsAscending b cs (release_nonce n k m) bound
        (HasRoom-keep bound _ cs m _ h (λ j. release_nonce-next n k j m)))
