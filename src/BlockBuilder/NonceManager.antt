-- ===== src/BlockBuilder/NonceManager.antt =====
-- block-builder/src/app/storage/nonce_manager: common.rs and memory_nonce_manager.rs. The two
-- counters and the two sets behind their locks are the fields of one record; a method that fails
-- has changed nothing, because the contract is read before the first lock is taken.
pub mod Reservation
pub mod Validity
mod Examples
use intmax.Base.{
  ℕ, ◌≡◌, Bool, true, false, List, [], Option, Result, ok, err, ◌>>=◌, ◌==◌, ltb, leb,
  if◌then◌else◌, add_u32, max, retain,
}
use intmax.Base.BTreeSet
use intmax.Base.BTreeSet.{BTreeSet}

pub data NonceError : Type 0 where
  blockchain_error : NonceError

-- The answers of `get_block_builder_nonce` of the rollup contract for this builder's address, at
-- the time of a call: one for registration blocks, one for the others.
abbrev pub Rollup : Type 0
Rollup = Bool → Result NonceError ℕ

unfoldable pub get_onchain_next_nonce : Rollup → Bool → Result NonceError ℕ
get_onchain_next_nonce rollup is_registration = do
  onchain_next_nonce ← rollup is_registration
  ok (if onchain_next_nonce == 0 then 1 else onchain_next_nonce)

pub record InMemoryNonceManager : Type 0 where
  pub next_registration_nonce : ℕ
  pub next_non_registration_nonce : ℕ
  pub reserved_registration_nonces : BTreeSet
  pub reserved_non_registration_nonces : BTreeSet

-- `InMemoryNonceManager::new`.
abbrev pub new : InMemoryNonceManager
new = record {
  next_registration_nonce = 0;
  next_non_registration_nonce = 0;
  reserved_registration_nonces = [];
  reserved_non_registration_nonces = [];
}

-- The writes of `sync_onchain`, once both answers are there.
advance : ℕ → ℕ → InMemoryNonceManager → InMemoryNonceManager
advance onchain_next_registration_nonce onchain_next_non_registration_nonce m = record {
  next_registration_nonce = max onchain_next_registration_nonce m.next_registration_nonce;
  next_non_registration_nonce =
      max onchain_next_non_registration_nonce m.next_non_registration_nonce;
  reserved_registration_nonces =
      retain (λ nonce. leb onchain_next_registration_nonce nonce) m.reserved_registration_nonces;
  reserved_non_registration_nonces =
      retain (λ nonce. leb onchain_next_non_registration_nonce nonce)
        m.reserved_non_registration_nonces;
}

unfoldable pub sync_onchain : Rollup → InMemoryNonceManager → Result NonceError InMemoryNonceManager
unfolding advance
sync_onchain rollup m = do
  onchain_next_registration_nonce ← get_onchain_next_nonce rollup true
  onchain_next_non_registration_nonce ← get_onchain_next_nonce rollup false
  ok (advance onchain_next_registration_nonce onchain_next_non_registration_nonce m)

-- The lock that the kind of block selects.
abbrev pub next_nonce : Bool → InMemoryNonceManager → ℕ
next_nonce is_registration m =
    if is_registration then m.next_registration_nonce else m.next_non_registration_nonce

abbrev pub reserved_nonces : Bool → InMemoryNonceManager → BTreeSet
reserved_nonces is_registration m =
    if is_registration then m.reserved_registration_nonces else m.reserved_non_registration_nonces

-- Writes through those two locks.
abbrev pub put : Bool → ℕ → BTreeSet → InMemoryNonceManager → InMemoryNonceManager
put is_registration next reserved m =
    if is_registration
    then record m { next_registration_nonce = next; reserved_registration_nonces = reserved }
    else record m {
      next_non_registration_nonce = next;
      reserved_non_registration_nonces = reserved;
    }

unfoldable pub reserve_nonce :
    Rollup → Bool → InMemoryNonceManager → Result NonceError (ℕ × InMemoryNonceManager)
reserve_nonce rollup is_registration m = do
  synced ← sync_onchain rollup m
  let next = next_nonce is_registration synced
  ok (
    next,
    put is_registration (add_u32 next 1)
        (BTreeSet.insert next (reserved_nonces is_registration synced)) synced,
  )

pub release_nonce : ℕ → Bool → InMemoryNonceManager → InMemoryNonceManager
release_nonce nonce is_registration m =
    put is_registration (next_nonce is_registration m)
      (BTreeSet.remove nonce (reserved_nonces is_registration m)) m

unfoldable pub smallest_reserved_nonce : Bool → InMemoryNonceManager → Option ℕ
smallest_reserved_nonce is_registration m = BTreeSet.first (reserved_nonces is_registration m)
