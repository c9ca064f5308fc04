-- ===== src/Client/Mining/Examples.antt =====
-- client-sdk/src/client/strategy/mining.rs on small data: a deposit in block 2 that matures at 90,
-- and transactions in blocks 5 and 9.
use intmax.Base.{ℕ, ◌*◌, ◌≡◌, ◌≤◌, ◌<◌, refl, List, [], ◌∷◌, ok, err, Panic, All, arith}
use intmax.Toy.{toy_types}
use intmax.Client.Strategy.{MetaDataWithBlockNumber, panicked, TxData}
use intmax.Client.Mining.{Block, MiningEnv, claimable, locking, mining_status, min_by_block_number}
use intmax.Client.Mining.Status.{mining_status-claimable, mining_status-panicked}

abbrev block_at : ℕ → Block
block_at n = record { block_number = n; timestamp = 30 * n; hash = n }

abbrev chain : MiningEnv
chain = record {
  last_block_number = ok 9;
  get_block_number = ok 9;
  fetch_block = λ n. ok (block_at n);
  get_lock_time = λ faster hash salt. 30;
  get_mining_deposit_nullifier = λ deposit salt. salt;
}

abbrev sent_in : ℕ → MetaDataWithBlockNumber × TxData toy_types
sent_in n = (
  record { meta = record { timestamp = 0; digest = n }; block_number = n },
  record { nonce = 0; transfers = []; tx_tree_root = 0 },
)

abbrev sent : List (MetaDataWithBlockNumber × TxData toy_types)
sent = sent_in 9 ∷ sent_in 5 ∷ []

matured : mining_status toy_types chain sent 9 9 270 (block_at 2) 90 ≡ ok (claimable 4)
unfolding mining_status min_by_block_number
matured = refl

still_locking : mining_status toy_types chain [] 0 9 270 (block_at 2) 300 ≡ ok locking
unfolding mining_status min_by_block_number
still_locking = refl

mining_status-claimable_example :
    ((b : Block) × (chain.fetch_block 4 ≡ ok b) × (90 ≤ b.timestamp))
    × All (λ x. 2 < x.0.block_number → 4 < x.0.block_number) sent
mining_status-claimable_example =
    mining_status-claimable toy_types chain sent 9 9 270 (block_at 2) (block_at 9) 90 4 refl refl
      (omega arith) matured

mining_status-panicked_example :
    mining_status toy_types chain sent 9 9 270 (block_at 9) 300 ≡ err (panicked Panic.unwrap_none)
mining_status-panicked_example =
    mining_status-panicked toy_types chain sent 9 9 270 (block_at 9) 300 (omega arith) refl
