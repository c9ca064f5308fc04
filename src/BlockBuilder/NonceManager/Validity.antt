-- ===== src/BlockBuilder/NonceManager/Validity.antt =====
-- block-builder/src/app/storage/nonce_manager/memory_nonce_manager.rs: the sets of reserved nonces.
use intmax.Base.{
  ℕ, ◌+◌, ◌≤◌, ◌<◌, ◌≡◌, ◌↔◌, refl, ap, ◌∙◌, Bool, true, false, some, ok, ok-injective, sym, arith,
  u32_mod, All, All-map, All-retain, ◌==◌, add_u32, if◌then◌else◌,
}
use intmax.Base.BTreeSet
use intmax.BlockBuilder.NonceManager.{
  put, Rollup, InMemoryNonceManager, sync_onchain, next_nonce, reserved_nonces, reserve_nonce,
  release_nonce, smallest_reserved_nonce,
}
use intmax.BlockBuilder.NonceManager.Reservation.{
  Below, reserve, Answers, sync_onchain_lem, reserve_nonce_lem, sync_onchain-Below,
}

-- Both sets are ascending, and every reserved nonce is below the counter of its kind.
pub record IsValid (m : InMemoryNonceManager) : Type 0 where
  pub ascending : (b : Bool) → BTreeSet.IsAscending (reserved_nonces b m)
  pub below : (b : Bool) → All (λ n. n < next_nonce b m) (reserved_nonces b m)

sync_onchain-IsValid :
    (rollup : Rollup) (m s : InMemoryNonceManager)
    → IsValid m
    → sync_onchain rollup m ≡ ok s
    → IsValid s
sync_onchain-IsValid rollup m s v h = record {
  ascending = λ b.
      let (n, a, sy) = sync_onchain_lem rollup m s h b in
      rw sy.1 (BTreeSet.retain-IsAscending _ _ (v.ascending b));
  below = λ b.
      let (n, a, sy) = sync_onchain_lem rollup m s h b in
      rw sy.1 (All-map (λ k q. omega (arith, sy.0, q.1)) _ (All-retain _ _ _ (v.below b)));
}

put-IsValid :
    (k : Bool) (n : ℕ) (r : BTreeSet.BTreeSet) (s : InMemoryNonceManager)
    → IsValid s
    → BTreeSet.IsAscending r
    → All (λ c. c < n) r
    → IsValid (put k n r s)
put-IsValid true n r s v a b = record {
  ascending = elim [ true ↦ a | false ↦ v.ascending false ];
  below = elim [ true ↦ b | false ↦ v.below false ];
}
put-IsValid false n r s v a b = record {
  ascending = elim [ true ↦ v.ascending true | false ↦ a ];
  below = elim [ true ↦ v.below true | false ↦ b ];
}

reserved_nonces-put :
    (k : Bool) (n : ℕ) (r : BTreeSet.BTreeSet) (s : InMemoryNonceManager)
    → reserved_nonces k (put k n r s) ≡ r
reserved_nonces-put true n r s = refl
reserved_nonces-put false n r s = refl

-- When the counters and the contract's answers are at most a bound, and the bound's successor is still
-- a u32, a reservation that succeeds in a valid state takes a nonce that was not reserved, at least
-- the contract's, and leaves valid sets that hold it.
pub reserve_nonce-IsValid :
    (bound : ℕ) (rollup : Rollup) (k : Bool) (m t : InMemoryNonceManager) (n : ℕ)
    → IsValid m
    → Below bound (reserve rollup k)
    → bound + 1 < u32_mod
    → ((b : Bool) → next_nonce b m ≤ bound)
    → reserve_nonce rollup k m ≡ ok (n, t)
    → IsValid t
      × (BTreeSet.contains n (reserved_nonces k m) ≡ false)
      × (BTreeSet.contains n (reserved_nonces k t) ≡ true)
      × ((c : ℕ) → Answers rollup k c → c ≤ n)
reserve_nonce-IsValid bound rollup k m t n v below room start h =
    let (s, es, en, et) = reserve_nonce_lem rollup k m t n h in
    let (c, ac, sy) = sync_onchain_lem rollup m s es k in
    let w = sync_onchain-IsValid rollup m s v es in
    let top = sync_onchain-Below bound rollup m s below start es k in
    let set = BTreeSet.insert n (reserved_nonces k s) in
    let next : add_u32 n 1 ≡ n + 1 = omega (arith, en, top.1) in
    let held : reserved_nonces k t ≡ set =
      ap (reserved_nonces k) et ∙ reserved_nonces-put k _ set s in
    (
      rw et (
          put-IsValid k (add_u32 n 1) set s w (BTreeSet.insert-IsAscending n _ (w.ascending k)) (
            BTreeSet.All-insert _ n _ (omega (arith, next)) (
              All-map {P = λ x. x < next_nonce k s} (λ x q. omega (arith, next, en)) _
                (w.below k)))),
      BTreeSet.not-contains_above n _
          (All-map {P = λ x. x < next_nonce k m} (λ x q. omega (arith, en, sy.0)) _ (v.below k)),
      rw held (ground (arith, BTreeSet.contains-insert n n (reserved_nonces k s))),
      λ c' a'. omega (arith, en, sy.0, ok-injective (sym ac ∙ a')),
    )

-- A release keeps the sets valid, and takes the released nonce and no other out of the set of its
-- kind.
pub release_nonce-IsValid :
    (n : ℕ) (k : Bool) (m : InMemoryNonceManager)
    → IsValid m
    → IsValid (release_nonce n k m)
      × ((c : ℕ)
          → BTreeSet.contains c (reserved_nonces k (release_nonce n k m))
            ≡ (if n == c then false else BTreeSet.contains c (reserved_nonces k m)))
unfolding release_nonce
release_nonce-IsValid n k m v = (
  put-IsValid k _ _ m v (BTreeSet.remove-IsAscending n _ (v.ascending k))
      (BTreeSet.All-remove _ n _ (v.below k)),
  λ c. rw reserved_nonces-put (BTreeSet.contains-remove n c _ (v.ascending k)),
)

-- The smallest reserved nonce is the member of the set that no member is below.
pub smallest_reserved_nonce_iff :
    (b : Bool) (m : InMemoryNonceManager) (n : ℕ)
    → IsValid m
    → (smallest_reserved_nonce b m ≡ some n) ↔ (
        (BTreeSet.contains n (reserved_nonces b m) ≡ true) × All (λ c. n ≤ c) (reserved_nonces b m))
unfolding smallest_reserved_nonce
smallest_reserved_nonce_iff b m n v = (
  BTreeSet.first_least _ n (v.ascending b),
  λ h. BTreeSet.first_of_least _ n (v.ascending b) h.0 h.1,
)
