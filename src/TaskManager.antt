-- ===== src/TaskManager.antt =====
-- server-common/src/redis/task_manager.rs: tasks handed to workers over sets and hashes in Redis.
-- The Lua scripts run atomically; each other method is a sequence of commands, and a state is what
-- Redis holds between two of them. The time to live of the keys other than
-- the heartbeats and clear_all are left out.
pub mod Invariant
pub mod Maintenance
pub mod Workers
mod Examples
use intmax.Base.{
  ℕ, ◌≡◌, String, Bool, true, false, List, [], ◌∷◌, Option, none, some, Result, ok, err,
  if◌then◌else◌, ◌==◌, leb, ok_or,
}

-- The commands of Redis on sets of ids and on hashes keyed by ids that the code uses.
pub record Redis : Type 1 where
  pub Set : Type 0
  pub Hash : Type 0
  pub sismember : ℕ → Set → Bool
  pub sadd : ℕ → Set → Set
  pub srem : ℕ → Set → Set
  pub smove : ℕ → Set → Set → Set × Set
  pub smembers : Set → List ℕ
  -- `SORT key LIMIT 0 1`.
  pub sort_first : Set → Option ℕ
  pub hget : ℕ → Hash → Option String
  pub hset : ℕ → String → Hash → Hash
  pub hdel : ℕ → Hash → Hash
  pub hkeys : Hash → List ℕ

-- serde_json for the types of the tasks and of the results.
pub record Serde (A : Type 0) : Type 0 where
  pub to_string : A → Option String
  pub from_str : String → Option A

pub data TaskManagerError : Type 0 where
  serde_error : TaskManagerError
  -- `HGET` gave nil for the id: the reply does not convert to the pair.
  redis_error : TaskManagerError

module _ (redis : Redis) where
  open redis use {Set, Hash}

  abbrev pub hexists : ℕ → Hash → Bool
  hexists i h = elim (redis.hget i h) [ none ↦ false | some _ ↦ true ]

  -- The keys of one task manager.
  pub record Keys : Type 0 where
    pub tasks : Hash
    pub pending : Set
    pub running : Set
    pub completed : Set
    pub results : Hash
    pub heartbeats : Hash

  -- The script of `add_task`.
  pub add_json : ℕ → String → Keys → Keys
  add_json task_id task_json s = if hexists task_id s.tasks then s else record s {
    tasks = redis.hset task_id task_json s.tasks;
    pending = redis.sadd task_id s.pending;
  }

  -- One round of the loop of `remove_old_tasks`.
  pub remove_task : ℕ → Keys → Keys
  remove_task task_id s = record s {
    pending = redis.srem task_id s.pending;
    running = redis.srem task_id s.running;
    completed = redis.srem task_id s.completed;
    tasks = redis.hdel task_id s.tasks;
    results = redis.hdel task_id s.results;
  }

  pub remove_listed : ℕ → List ℕ → Keys → Keys
  remove_listed to_task_id [] s = s
  remove_listed to_task_id (i ∷ is) s =
      if leb i to_task_id
      then remove_listed to_task_id is (remove_task i s)
      else remove_listed to_task_id is s

  unfoldable pub remove_old_tasks : ℕ → Keys → Keys
  remove_old_tasks to_task_id s = remove_listed to_task_id (redis.hkeys s.tasks) s

  -- The script of `assign_task`: the first pending id, moved to the running ones.
  pub assign_first : Keys → Option ℕ × Keys
  assign_first s = elim (redis.sort_first s.pending) [
    | none ↦ (none, s)
    | some i ↦
        let (pending, running) = redis.smove i s.pending s.running in
        (some i, record s { pending = pending; running = running })
  ]

  -- The two commands of `complete_task`.
  pub put_result : ℕ → String → Keys → Keys
  put_result task_id result_json s = record s { results = redis.hset task_id result_json s.results }

  pub move_to_completed : ℕ → Keys → Keys
  move_to_completed task_id s =
      let (running, completed) = redis.smove task_id s.running s.completed in
      record s { running = running; completed = completed }

  pub submit_heartbeat : String → ℕ → Keys → Keys
  submit_heartbeat worker_id task_id s = record s {
    heartbeats = redis.hset task_id worker_id s.heartbeats;
  }

  -- The end of the time to live that `submit_heartbeat` gives a heartbeat.
  pub expire_heartbeat : ℕ → Keys → Keys
  expire_heartbeat task_id s = record s { heartbeats = redis.hdel task_id s.heartbeats }

  -- The script of `cleanup_inactive_tasks`.
  pub requeue : ℕ → Keys → Keys
  requeue task_id s =
      if hexists task_id s.results
      then s
      else (let (running, pending) = redis.smove task_id s.running s.pending in
          record s { running = running; pending = pending })

  -- The loop of `cleanup_inactive_tasks`, over the ids that ran before the wait.
  pub cleanup_listed : List ℕ → Keys → Keys
  cleanup_listed [] s = s
  cleanup_listed (i ∷ is) s =
      if hexists i s.heartbeats then cleanup_listed is s else cleanup_listed is (requeue i s)

  -- `others` is what happens during the wait of `heartbeat_ttl` seconds.
  unfoldable pub cleanup_inactive_tasks : (Keys → Keys) → Keys → Keys
  cleanup_inactive_tasks others s = cleanup_listed (redis.smembers s.running) (others s)

  module _ {A : Type 0} (serde : Serde A) where
    unfoldable pub add_task : ℕ → A → Keys → Result TaskManagerError Keys
    unfolding add_json
    add_task task_id task s = elim (serde.to_string task) [
      | none ↦ err serde_error
      | some task_json ↦ ok (add_json task_id task_json s)
    ]

    unfoldable pub get_result : ℕ → Keys → Result TaskManagerError (Option A)
    get_result task_id s = elim (redis.hget task_id s.results) [
      | none ↦ ok none
      | some result_json ↦ elim (serde.from_str result_json) [
        | none ↦ err serde_error
        | some r ↦ ok (some r)
      ]
    ]

    -- What the worker gets for the id that the script chose.
    pub read_task : ℕ → Keys → Result TaskManagerError (Option (ℕ × A))
    read_task i s = elim (redis.hget i s.tasks) [
      | none ↦ err redis_error
      | some task_json ↦ elim (serde.from_str task_json) [
        | none ↦ err serde_error
        | some task ↦ ok (some (i, task))
      ]
    ]

    unfoldable pub assign_task : Keys → Result TaskManagerError (Option (ℕ × A)) × Keys
    unfolding assign_first read_task
    assign_task s = elim (assign_first s).0 [
      | none ↦ (ok none, (assign_first s).1)
      | some i ↦ (read_task i s, (assign_first s).1)
    ]

    unfoldable pub complete_task : ℕ → A → Keys → Result TaskManagerError Keys
    unfolding put_result move_to_completed
    complete_task task_id r s = elim (serde.to_string r) [
      | none ↦ err serde_error
      | some result_json ↦ ok (move_to_completed task_id (put_result task_id result_json s))
    ]
