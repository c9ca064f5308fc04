-- ===== src/BlockBuilder/Posting/Waiting.antt =====
-- block-builder/src/app/block_post.rs: the two loops that wait before a block is posted, and when a
-- block is posted.
use intmax.Base.{
  ℕ, zero, suc, ◌+◌, ◌-◌, ◌≡◌, ◌≢◌, ◌<◌, ◌≤◌, ◌∙◌, ◌⊎◌, sym, ap, ok-injective, inl, inr, true,
  false, not, ◌&&◌, Option, none, some, Result, ok, err, ◌>>=◌, ◌==◌, ltb, leb, arith, Bool-cases,
  Option-cases, some-injective, Result-cases, >>=-eq-ok, add_u64,
}
use intmax.Zkp.{Zkp}
use intmax.BlockBuilder.BlockPost.{BlockPostTask}
use intmax.BlockBuilder.Posting.{
  PostEnv, PostError, validity_prover_is_not_synced, blockchain_error, blockchain, server,
  wait_synced, wait_penalty, make_call, call_contract, post_block, check_expiry,
  validity_sync_max_retry, expiry_buffer, is_empty, Posted,
}

blockchain-ok : {E A : Type 0} (r : Result E A) (a : A) → blockchain r ≡ ok a → r ≡ ok a
blockchain-ok (ok x) a h = ap ok (ok-injective h)
blockchain-ok (err e) a h = cc

server-ok : {E A : Type 0} (r : Result E A) (a : A) → server r ≡ ok a → r ≡ ok a
server-ok (ok x) a h = ap ok (ok-injective h)
server-ok (err e) a h = cc

module _ (z : Zkp) (w : PostEnv z) where
  open w use {Error, Point, Trimmed}

  -- In a round the contract and the validity prover name the same block.
  abbrev pub SyncedAt : ℕ → Type 0
  SyncedAt round =
      (block : ℕ) × (w.get_latest_block_number round ≡ ok block)
      × (w.get_block_number round ≡ ok block)

  -- The loop that waits for the validity prover asks each of the two once more than it may retry.
  wait_synced_rounds :
      (left round : ℕ) (onchain prover : ℕ → ℕ)
      → ((r : ℕ) → r ≤ round + left → w.get_latest_block_number r ≡ ok (onchain r))
      → ((r : ℕ) → r ≤ round + left → w.get_block_number r ≡ ok (prover r))
      → ((r : ℕ)
          → round ≤ r
          → r ≤ round + left
          → onchain r ≡ prover r
          → wait_synced z w left round ≡ ok tt)
        × (((r : ℕ) → round ≤ r → r ≤ round + left → onchain r ≢ prover r)
            → wait_synced z w left round
              ≡ err
                  (validity_prover_is_not_synced (onchain (round + left)) (prover (round + left))))
  unfolding wait_synced
  wait_synced_rounds zero round onchain prover a b =
      let x = a round (omega arith) in
      let y = b round (omega arith) in
      let z0 : round + 0 ≡ round = omega arith in
      (
        (λ r lo hi same.
            let q : r ≡ round = omega (arith, lo, hi) in ground (arith, x, y, q, same)),
        (λ never. let n = never round (omega arith) (omega arith) in ground (arith, x, y, n, z0)),
      )
  wait_synced_rounds (suc left) round onchain prover a b =
      let x = a round (omega arith) in
      let y = b round (omega arith) in
      let z0 : suc round + left ≡ round + suc left = omega arith in
      let rest =
        wait_synced_rounds left (suc round) onchain prover (λ r le. a r (omega (arith, le)))
          (λ r le. b r (omega (arith, le))) in
      (
        (λ r lo hi same. elim (Bool-cases (r == round)) [
          | inl q ↦ ground (arith, x, y, q, same)
          | inr q ↦
              let later = rest.0 r (ground (arith, lo, q)) (omega (arith, hi)) same in
              ground (arith, x, y, later)
        ]),
        (λ never.
            let n = never round (omega arith) (omega arith) in
            let later = rest.1 (λ r lo hi. never r (omega (arith, lo)) (omega (arith, hi))) in
            ground (arith, x, y, n, later, z0)),
      )

  -- When every question about the block numbers is answered, and the numbers differ in the first
  -- eleven rounds, no block is posted that has signatures: the error has the two numbers of the
  -- eleventh round, whatever the fee.
  post_block_gives_up :
      (onchain prover : ℕ → ℕ) (fuel allowance : ℕ) (task : BlockPostTask z.types)
      → ((k : ℕ) → w.get_latest_block_number k ≡ ok (onchain k))
      → ((k : ℕ) → w.get_block_number k ≡ ok (prover k))
      → ((k : ℕ) → k ≤ validity_sync_max_retry → onchain k ≢ prover k)
      → is_empty task.signatures ≡ false
      → post_block z w fuel allowance task
        ≡ some (
            err (
              validity_prover_is_not_synced
                (onchain validity_sync_max_retry)
                (prover validity_sync_max_retry)))
  unfolding post_block
  post_block_gives_up onchain prover fuel allowance task a b never signatures =
      let rounds =
        (wait_synced_rounds validity_sync_max_retry 0 onchain prover (λ k _. a k) (λ k _. b k)).1
          (λ k _ hi. never k (omega (arith, hi))) in
      rw (post_block, signatures, rounds)

  synced_at :
      (round a b : ℕ)
      → blockchain (w.get_latest_block_number round) ≡ ok a
      → server (w.get_block_number round) ≡ ok b
      → a == b ≡ true
      → SyncedAt round
  synced_at round a b p q same = (
    a,
    blockchain-ok (w.get_latest_block_number round) a p,
    server-ok (w.get_block_number round) a (q ∙ ap ok (ground (arith, same))),
  )

  pub wait_synced_ok :
      (left round : ℕ)
      → wait_synced z w left round ≡ ok tt
      → (r : ℕ) × (round ≤ r) × (r ≤ round + left) × SyncedAt r
  unfolding wait_synced
  wait_synced_ok zero round done =
      let (a, p, f) = >>=-eq-ok (blockchain (w.get_latest_block_number round)) _ done in
      let (b, q, g) = >>=-eq-ok (server (w.get_block_number round)) _ f in
      (round, omega arith, omega arith, synced_at round a b p q (ground (arith, g)))
  wait_synced_ok (suc left) round done =
      let (a, p, f) = >>=-eq-ok (blockchain (w.get_latest_block_number round)) _ done in
      let (b, q, g) = >>=-eq-ok (server (w.get_block_number round)) _ f in
      elim (Bool-cases (a == b)) [
        | inl same ↦ (round, omega arith, omega arith, synced_at round a b p q same)
        | inr differ ↦
            let (r, lo, hi, here) = wait_synced_ok left (suc round) (ground (arith, g, differ)) in
            (r, omega (arith, lo), omega (arith, hi), here)
      ]

  wait_penalty_ok :
      (fuel round allowance : ℕ)
      → wait_penalty z w fuel round allowance ≡ some (ok tt)
      → (r fee : ℕ) × (w.get_penalty r ≡ ok fee) × (fee ≤ allowance)
  unfolding wait_penalty
  wait_penalty_ok zero round allowance done = cc
  wait_penalty_ok (suc fuel) round allowance done = elim (Result-cases (w.get_penalty round)) [
    | inr (e, p) ↦ absurd (ground (arith, p, done))
    | inl (fee, p) ↦ elim (Bool-cases (leb fee allowance)) [
      | inl q ↦ (round, fee, p, ground (arith, q))
      | inr q ↦ wait_penalty_ok fuel (suc round) allowance (ground (arith, p, q, done))
    ]
  ]

  -- The rounds after the one that ends the loop are never asked about.
  wait_penalty_enough :
      (fuel fuel' round allowance k fee : ℕ)
      → w.get_penalty (round + k) ≡ ok fee
      → fee ≤ allowance
      → k < fuel
      → k < fuel'
      → (r : Result (PostError Error) (Unit {0})) × (wait_penalty z w fuel round allowance ≡ some r)
        × (wait_penalty z w fuel' round allowance ≡ some r)
  unfolding wait_penalty
  wait_penalty_enough zero fuel' round allowance k fee low le lt lt' = absurd (omega (arith, lt))
  wait_penalty_enough (suc fuel) zero round allowance k fee low le lt lt' =
      absurd (omega (arith, lt'))
  wait_penalty_enough (suc fuel) (suc fuel') round allowance k fee low le lt lt' =
      elim (Result-cases (w.get_penalty round)) [
        | inr (e, p) ↦ (err (blockchain_error e), rw (wait_penalty, p), rw (wait_penalty, p))
        | inl (first, p) ↦ elim (Bool-cases (leb first allowance)) [
          | inl below ↦ (ok tt, rw (wait_penalty, p, below), rw (wait_penalty, p, below))
          | inr above ↦ elim (Bool-cases (k == 0)) [
            | inl q0 ↦
                let k0 : round + k ≡ round = ground (arith, q0) in
                let same : first ≡ fee = ok-injective (sym p ∙ sym (ap w.get_penalty k0) ∙ low) in
                absurd (ground (arith, same, le, above))
            | inr q0 ↦
                let next : round + k ≡ suc round + (k - 1) = ground (arith, q0) in
                let (r, one, two) =
                  wait_penalty_enough fuel fuel' (suc round) allowance (k - 1) fee
                    (sym (ap w.get_penalty next) ∙ low) le (ground (arith, lt, q0))
                    (ground (arith, lt', q0)) in
                (r, rw (wait_penalty, p, above) one, rw (wait_penalty, p, above) two)
          ]
        ]
      ]

  not_allowed :
      (task : BlockPostTask z.types)
      → check_expiry z w task ≡ ok tt
      → (task.block_sign_payload.expiry ≡ 0)
        ⊎ (add_u64 w.current_time expiry_buffer ≤ task.block_sign_payload.expiry)
  not_allowed task done = elim (Bool-cases (task.block_sign_payload.expiry == 0)) [
    | inl q ↦ inl (ground (arith, q))
    | inr q ↦
        elim (Bool-cases
          (ltb task.block_sign_payload.expiry (add_u64 w.current_time expiry_buffer))) [
            | inl r ↦ absurd (ground (arith, q, r, done))
            | inr r ↦ inr (ground (arith, r))
          ]
  ]

  -- Once the validity prover is waited for, a penalty fee that comes to be within the allowance at
  -- some question ends the posting, and then looking at more rounds does not change its result.
  pub post_block_ends :
      (fuel fuel' allowance k fee : ℕ) (task : BlockPostTask z.types)
      → w.get_penalty k ≡ ok fee
      → fee ≤ allowance
      → k < fuel
      → k < fuel'
      → (r : Result (PostError Error) (Option (Posted Point Trimmed))) × (post_block z w fuel
            allowance task
          ≡ some r)
        × (post_block z w fuel' allowance task ≡ some r)
  unfolding post_block
  post_block_ends fuel fuel' allowance k fee task low le lt lt' =
      let (r, one, two) =
        wait_penalty_enough fuel fuel' 0 allowance k fee (ap w.get_penalty (omega arith) ∙ low) le
          lt lt' in
      elim (Bool-cases (is_empty task.signatures && not task.force_post)) [
        | inl q ↦ (ok none, rw (post_block, q), rw (post_block, q))
        | inr q ↦ elim (Result-cases (wait_synced z w validity_sync_max_retry 0)) [
          | inr (e, s) ↦ (err e, rw (post_block, q, s), rw (post_block, q, s))
          | inl (u, s) ↦ (
            r >>= λ _. call_contract z w task,
            rw (post_block, q, s, one),
            rw (post_block, q, s, two),
          )
        ]
      ]

  called :
      (task : BlockPostTask z.types) (call : Posted Point Trimmed)
      → call_contract z w task ≡ ok (some call)
      → (make_call z w task ≡ ok call) × (w.post call ≡ ok tt)
  called task call done =
      let (made, make, g) = >>=-eq-ok (make_call z w task) _ done in
      let (t, posts, h) = >>=-eq-ok (blockchain (w.post made)) _ g in
      let same : made ≡ call = some-injective (ok-injective h) in
      (make ∙ ap ok same, ap w.post (sym same) ∙ blockchain-ok (w.post made) tt posts)

  make_call_in_time :
      (task : BlockPostTask z.types) (call : Posted Point Trimmed)
      → make_call z w task ≡ ok call
      → check_expiry z w task ≡ ok tt
  unfolding make_call
  make_call_in_time task call made = (>>=-eq-ok (check_expiry z w task) _ made).1

  -- A block is posted only when it has a signature or is forced, in one of the first eleven rounds
  -- the contract and the validity prover name the same block, at some question the penalty fee is
  -- within the allowance, the block has no expiry or one at least the buffer away, and the
  -- contract accepts the call that the task makes.
  pub post_block_safe :
      (fuel allowance : ℕ) (task : BlockPostTask z.types) (call : Posted Point Trimmed)
      → post_block z w fuel allowance task ≡ some (ok (some call))
      → ((is_empty task.signatures && not task.force_post) ≡ false)
        × ((r : ℕ) × (r ≤ validity_sync_max_retry) × SyncedAt r)
        × ((r fee : ℕ) × (w.get_penalty r ≡ ok fee) × (fee ≤ allowance))
        × ((task.block_sign_payload.expiry ≡ 0)
            ⊎ (add_u64 w.current_time expiry_buffer ≤ task.block_sign_payload.expiry))
        × (make_call z w task ≡ ok call)
        × (w.post call ≡ ok tt)
  unfolding post_block
  post_block_safe fuel allowance task call done =
      elim (Bool-cases (is_empty task.signatures && not task.force_post)) [
        | inl q ↦ absurd (ground (arith, q, done))
        | inr q ↦ elim (Result-cases (wait_synced z w validity_sync_max_retry 0)) [
          | inr (e, s) ↦ absurd (ground (arith, q, s, done))
          | inl (u, s) ↦ elim (Option-cases (wait_penalty z w fuel 0 allowance)) [
            | inl n ↦ absurd (ground (arith, q, s, n, done))
            | inr (waited, n) ↦
                let rest = some-injective (rw (post_block, q, s, n) at done) in
                let (v, waits, f) = >>=-eq-ok waited (λ _. call_contract z w task) rest in
                let (made, posts) = called task call f in
                let (r, lo, hi, synced) = wait_synced_ok validity_sync_max_retry 0 s in
                (
                  q,
                  (r, omega (arith, hi), synced),
                  wait_penalty_ok fuel 0 allowance (n ∙ ap some waits),
                  not_allowed task (make_call_in_time task call made),
                  made,
                  posts,
                )
          ]
        ]
      ]
