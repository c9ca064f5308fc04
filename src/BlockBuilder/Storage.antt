-- ===== src/BlockBuilder/Storage.antt =====
-- block-builder/src/app/storage/memory_storage.rs. Each method runs on one record that holds what
-- the locks protect. A method gives its result and the state that it leaves, so that what a failing
-- call has already written stays written. The clock, the contract and fresh ids are arguments.
pub mod Requests
pub mod Lost
pub mod Signatures
pub mod Tasks
mod Examples
use intmax.Base.{
  ℕ, String, Bool, true, false, not, ◌&&◌, ◌||◌, List, [], ◌∷◌, ◌++◌, Option, none, some, Result,
  ok, err, Panic, ◌==◌, ltb, if◌then◌else◌, add_u64, min, length, take, drop, retain, position,
  get_elem?, string_eq,
}
use intmax.Base.Map
use intmax.Base.Map.{HashMap}
use intmax.Zkp.{Types, Zkp, BlockProposal, UserSignature}
use intmax.Interfaces.{TransferData}
use intmax.BlockBuilder.NonceManager.{
  NonceError, Rollup, InMemoryNonceManager, reserve_nonce, release_nonce, smallest_reserved_nonce,
}
use intmax.BlockBuilder.Types.{TxRequest, ProposalMemo, from_tx_requests}
use intmax.BlockBuilder.BlockPost.{BlockPostTask, empty_block, from_memo}
use intmax.BlockBuilder.Fee.{FeeError, FeeCollection, collect_fee}

pub data StorageError : Type 0 where
  add_signature_error query_proposal_error : StorageError
  fee_error : FeeError → StorageError
  nonce_error : NonceError → StorageError
  panicked : Panic → StorageError

-- block-builder/src/app/storage/config.rs, without the addresses of Redis and the waiting time.
pub record StorageConfig : Type 0 where
  pub use_fee : Bool
  pub use_collateral : Bool
  pub block_builder_address : ℕ
  pub fee_beneficiary : ℕ
  pub tx_timeout : ℕ
  pub accepting_tx_interval : ℕ
  pub proposing_block_interval : ℕ
  pub deposit_check_interval : Option ℕ

pub record InMemoryStorage (t : Types) : Type 0 where
  pub config : StorageConfig
  pub nonce_manager : InMemoryNonceManager
  pub registration_tx_requests : List (TxRequest t)
  pub registration_tx_last_processed : ℕ
  pub non_registration_tx_requests : List (TxRequest t)
  pub non_registration_tx_last_processed : ℕ
  pub empty_block_posted_at : Option ℕ
  pub request_id_to_block_id : HashMap String String
  pub memos : HashMap String (ProposalMemo t)
  pub signatures : HashMap String (List (UserSignature t))
  pub fee_collection_tasks : List (FeeCollection t)
  pub block_post_tasks_hi : List (BlockPostTask t)
  pub block_post_tasks_lo : List (BlockPostTask t)

-- `InMemoryStorage::new`.
abbrev pub new : {t : Types} → StorageConfig → InMemoryNonceManager → InMemoryStorage t
new config nonce_manager = record {
  config = config;
  nonce_manager = nonce_manager;
  registration_tx_requests = [];
  registration_tx_last_processed = 0;
  non_registration_tx_requests = [];
  non_registration_tx_last_processed = 0;
  empty_block_posted_at = none;
  request_id_to_block_id = [];
  memos = [];
  signatures = [];
  fee_collection_tasks = [];
  block_post_tasks_hi = [];
  block_post_tasks_lo = [];
}

module _ (z : Zkp) where
  open z use {types}

  abbrev pub Storage : Type 0
  Storage = InMemoryStorage types

  abbrev pub Outcome : Type 0 → Type 0
  Outcome A = Result StorageError A × Storage

  -- The queue and the time stamp that the kind of block selects.
  abbrev pub tx_requests : Bool → Storage → List (TxRequest types)
  tx_requests is_registration s =
      if is_registration then s.registration_tx_requests else s.non_registration_tx_requests

  abbrev pub last_processed : Bool → Storage → ℕ
  last_processed is_registration s =
      if is_registration
      then s.registration_tx_last_processed
      else s.non_registration_tx_last_processed

  abbrev pub put_tx_requests : Bool → List (TxRequest types) → Storage → Storage
  put_tx_requests is_registration q s =
      if is_registration
      then record s { registration_tx_requests = q }
      else record s { non_registration_tx_requests = q }

  abbrev pub put_last_processed : Bool → ℕ → Storage → Storage
  put_last_processed is_registration time s =
      if is_registration
      then record s { registration_tx_last_processed = time }
      else record s { non_registration_tx_last_processed = time }

  pub add_tx : Bool → TxRequest types → Storage → Outcome Unit
  add_tx is_registration tx_request s =
      (ok tt, put_tx_requests is_registration (tx_requests is_registration s ++ tx_request ∷ []) s)

  -- The loop that maps each request of the batch to its block.
  pub assign_block : List (TxRequest types) → String → HashMap String String → HashMap String String
  assign_block [] block_id m = m
  assign_block (r ∷ rs) block_id m = assign_block rs block_id (Map.insert r.request_id block_id m)

  -- The writes once the memo is there.
  pub accept : Bool → List (TxRequest types) → ProposalMemo types → ℕ → Storage → Storage
  accept is_registration batch memo current_time s =
      put_last_processed is_registration current_time (record s {
        request_id_to_block_id = assign_block batch memo.block_id s.request_id_to_block_id;
        memos = Map.insert memo.block_id memo s.memos;
      })

  -- Nothing is due: too few requests too early, or none.
  pub is_idle : Bool → ℕ → Storage → Bool
  is_idle is_registration current_time s =
      let q = tx_requests is_registration s in
      (ltb (length q) z.num_senders_in_block
        && ltb current_time
            (add_u64 (last_processed is_registration s) s.config.accepting_tx_interval))
      || (length q == 0)

  -- From the reservation of the nonce on; the batch has left the queue of `s`.
  pub propose :
      Rollup
      → (current_time now created_at : ℕ) (block_id : String) (is_registration : Bool)
      → List (TxRequest types)
      → Storage
      → Outcome Unit
  unfolding accept
  propose rollup current_time now created_at block_id is_registration batch s =
      elim (reserve_nonce rollup is_registration s.nonce_manager) [
        | err e ↦ (err (nonce_error e), s)
        | ok (nonce, nonce_manager) ↦
            elim (from_tx_requests z is_registration s.config.block_builder_address nonce batch
              s.config.tx_timeout now created_at block_id) [
                | err p ↦ (err (panicked p), record s { nonce_manager = nonce_manager })
                | ok memo ↦ (
                  ok tt,
                  accept is_registration batch memo current_time
                      (record s { nonce_manager = nonce_manager }),
                )
              ]
      ]

  pub process_requests :
      Rollup
      → (current_time now created_at : ℕ) (block_id : String) (is_registration : Bool) → Storage
      → Outcome Unit
  unfolding is_idle propose
  process_requests rollup current_time now created_at block_id is_registration s =
      let q = tx_requests is_registration s in
      let num_tx_requests = min (length q) z.num_senders_in_block in
      if is_idle is_registration current_time s
      then (ok tt, s)
      else propose rollup current_time now created_at block_id is_registration
          (take num_tx_requests q) (put_tx_requests is_registration (drop num_tx_requests q) s)

  pub query_proposal : String → Storage → Result StorageError (Option (BlockProposal types))
  query_proposal request_id s = elim (Map.lookup request_id s.request_id_to_block_id) [
    | none ↦ ok none
    | some block_id ↦ elim (Map.lookup block_id s.memos) [
      | none ↦ ok none
      | some memo ↦ elim (position (λ r. string_eq.beq r.request_id request_id) memo.tx_requests) [
        | none ↦ err query_proposal_error
        | some i ↦ elim (get_elem? memo.proposals i) [
          | none ↦ err (panicked Panic.index_out_of_bounds)
          | some proposal ↦ ok (some proposal)
        ]
      ]
    ]
  ]

  -- `entry(block_id).or_insert_with(Vec::new)`, read.
  abbrev pub signatures_of : String → Storage → List (UserSignature types)
  signatures_of block_id s = elim (Map.lookup block_id s.signatures) [ none ↦ [] | some v ↦ v ]

  pub add_signature : String → UserSignature types → Storage → Outcome Unit
  add_signature request_id signature s = elim (Map.lookup request_id s.request_id_to_block_id) [
    | none ↦ (err add_signature_error, s)
    | some block_id ↦ elim (Map.lookup block_id s.memos) [
      | none ↦ (err add_signature_error, s)
      | some memo ↦
          if z.verify_signature signature memo.block_sign_payload memo.pubkey_hash
          then (
            ok tt,
            record s {
              signatures =
                  Map.insert block_id (signatures_of block_id s ++ signature ∷ []) s.signatures;
            },
          )
          else (err add_signature_error, s)
    ]
  ]

  -- The proposing time of a memo is over.
  pub is_closed : ℕ → Storage → ProposalMemo types → Bool
  is_closed current_time s memo =
      ltb (add_u64 memo.created_at s.config.proposing_block_interval) current_time

  -- The writes for one memo that has signatures.
  close_memo :
      ProposalMemo types → List (UserSignature types) → BlockPostTask types → Storage → Storage
  close_memo memo signatures task s = record s {
    block_post_tasks_hi = s.block_post_tasks_hi ++ task ∷ [];
    fee_collection_tasks =
        if s.config.use_fee
        then s.fee_collection_tasks
          ++ (record {
            use_collateral = s.config.use_collateral;
            memo = memo;
            signatures = signatures;
          }
              ∷ [])
        else s.fee_collection_tasks;
    memos = Map.remove memo.block_id s.memos;
    signatures = Map.remove memo.block_id s.signatures;
  }

  -- One round of the loop of `process_signatures`.
  pub process_memo : ProposalMemo types → Storage → Outcome Unit
  unfolding close_memo
  process_memo memo s = elim (signatures_of memo.block_id s) [
    | [] ↦ (ok tt, s)
    | v ∷ vs ↦ elim (from_memo z memo (v ∷ vs)) [
      | err p ↦ (err (panicked p), s)
      | ok task ↦ (ok tt, close_memo memo (v ∷ vs) task s)
    ]
  ]

  pub process_memos : List (ProposalMemo types) → Storage → Outcome Unit
  process_memos [] s = (ok tt, s)
  process_memos (memo ∷ memos) s =
      let (r, s') = process_memo memo s in
      elim r [ ok u ↦ process_memos memos s' | err e ↦ (err e, s') ]

  pub process_signatures : ℕ → Storage → Outcome Unit
  unfolding is_closed
  process_signatures current_time s =
      process_memos (retain (is_closed current_time s) (Map.values s.memos)) s

  pub process_fee_collection :
      (save : ℕ → List (TransferData types) → Result FeeError Unit) (fresh : ℕ → String)
      → Storage
      → Outcome Unit
  process_fee_collection save fresh s = elim s.fee_collection_tasks [
    | [] ↦ (ok tt, s)
    | task ∷ tasks ↦
        let s' : Storage = record s { fee_collection_tasks = tasks } in
        elim (collect_fee z save fresh s.config.fee_beneficiary task) [
          | err e ↦ (err (fee_error e), s')
          | ok posts ↦ (ok tt, record s' { block_post_tasks_lo = s.block_post_tasks_lo ++ posts })
        ]
  ]

  abbrev pub posted_within : (interval current_time : ℕ) → Option ℕ → Bool
  posted_within interval current_time none = false
  posted_within interval current_time (some posted_at) =
      ltb current_time (add_u64 posted_at interval)

  -- `scale` multiplies by the random factor between 0.5 and 1.5 and cuts the fraction off.
  pub enqueue_empty_block :
      (scale : ℕ → ℕ) (current_time : ℕ) (block_id : String) → Storage → Outcome Unit
  enqueue_empty_block scale current_time block_id s = elim s.config.deposit_check_interval [
    | none ↦ (ok tt, s)
    | some interval ↦
        if posted_within (scale interval) current_time s.empty_block_posted_at
        then (ok tt, s)
        else (
          ok tt,
          record s {
            empty_block_posted_at = some current_time;
            block_post_tasks_lo = s.block_post_tasks_lo ++ empty_block z block_id ∷ [];
          },
        )
  ]

  abbrev pub task_nonce : BlockPostTask types → ℕ
  task_nonce task = task.block_sign_payload.block_builder_nonce

  abbrev pub task_kind : BlockPostTask types → Bool
  task_kind task = task.block_sign_payload.is_registration_block

  -- The task in front of a queue is taken and its nonce released.
  pop_hi : BlockPostTask types → List (BlockPostTask types) → Storage → Storage
  pop_hi task tasks s = record s {
    block_post_tasks_hi = tasks;
    nonce_manager = release_nonce (task_nonce task) (task_kind task) s.nonce_manager;
  }

  -- The second half: the front of the high queue, or else of the low queue.
  pub dequeue_front : Storage → Option (BlockPostTask types) × Storage
  unfolding pop_hi
  dequeue_front s = elim s.block_post_tasks_hi [
    | task ∷ tasks ↦ (some task, pop_hi task tasks s)
    | [] ↦ elim s.block_post_tasks_lo [
      | [] ↦ (none, s)
      | task ∷ tasks ↦ (some task, record s { block_post_tasks_lo = tasks })
    ]
  ]

  pub is_smallest : BlockPostTask types → Storage → Bool
  is_smallest task s = elim (smallest_reserved_nonce (task_kind task) s.nonce_manager) [
    | none ↦ false
    | some n ↦ n == task_nonce task
  ]

  -- `others` is what the other tasks of the process do while this one sleeps.
  pub dequeue_block_post_task :
      (others : Storage → Storage) → Storage → Option (BlockPostTask types) × Storage
  unfolding dequeue_front pop_hi is_smallest
  dequeue_block_post_task others s = elim s.block_post_tasks_hi [
    | [] ↦ dequeue_front s
    | task ∷ tasks ↦
        if is_smallest task s then (some task, pop_hi task tasks s) else dequeue_front (others s)
  ]
