-- ===== src/TaskManager/Maintenance.antt =====
-- server-common/src/redis/task_manager.rs: remove_old_tasks and cleanup_inactive_tasks.
use intmax.Base.{
  ℕ, ◌≡◌, refl, inl, inr, Bool, true, false, not, ◌&&◌, List, [], ◌∷◌, none, if◌then◌else◌, ◌==◌,
  leb, any, Bool-cases, arith, ==_iff,
}
use intmax.TaskManager.{Redis, Keys, hexists, requeue, cleanup_listed}
use intmax.TaskManager.Invariant.{RedisLaws}

module _ (redis : Redis) (laws : RedisLaws redis) (i : ℕ) where
  -- An id is taken out of the sets and of the tasks and results, or is left as it was.
  pub record Removed (gone result_gone : Bool) (s t : Keys redis) : Type 0 where
    pub pending :
        redis.sismember i t.pending ≡ (if gone then false else redis.sismember i s.pending)
    pub running :
        redis.sismember i t.running ≡ (if gone then false else redis.sismember i s.running)
    pub completed :
        redis.sismember i t.completed ≡ (if gone then false else redis.sismember i s.completed)
    pub task : redis.hget i t.tasks ≡ (if gone then none else redis.hget i s.tasks)
    pub result : redis.hget i t.results ≡ (if result_gone then none else redis.hget i s.results)

  -- An id goes from the running ones back to the pending ones, or is left as it was.
  pub record Requeued (back : Bool) (s t : Keys redis) : Type 0 where
    pub running :
        redis.sismember i t.running ≡ (if back then false else redis.sismember i s.running)
    pub pending : redis.sismember i t.pending ≡ (if back then true else redis.sismember i s.pending)
    pub completed : redis.sismember i t.completed ≡ redis.sismember i s.completed
    pub task : redis.hget i t.tasks ≡ redis.hget i s.tasks
    pub result : redis.hget i t.results ≡ redis.hget i s.results

  abbrev listed : ℕ → List ℕ → Bool
  listed n is = any (λ j. j == i) is && leb i n

  -- The id runs, without a heartbeat and without a result.
  abbrev pub is_inactive : Keys redis → Bool
  is_inactive s =
      redis.sismember i s.running
      && (not (hexists redis i s.heartbeats) && not (hexists redis i s.results))

  requeue-Requeued :
      (j : ℕ) (s : Keys redis)
      → Requeued
          ((j == i) && (redis.sismember i s.running && not (hexists redis i s.results)))
          s
          (requeue redis j s)
  unfolding requeue
  requeue-Requeued j s =
      let ij = ==_iff i j in
      let e1 = laws.smove_moves j s.running s.pending in
      let e2 = laws.sismember_srem i j s.running in
      let e3 = laws.sismember_sadd i j s.pending in
      record {
        running = ground arith;
        pending = ground arith;
        completed = ground arith;
        task = ground arith;
        result = ground arith;
      }

  requeue-heartbeats : (j : ℕ) (s : Keys redis) → (requeue redis j s).heartbeats ≡ s.heartbeats
  unfolding requeue
  requeue-heartbeats j s = ground arith

  pub cleanup_listed-Requeued :
      (is : List ℕ) (s : Keys redis)
      → Requeued (any (λ j. j == i) is && is_inactive s) s (cleanup_listed redis is s)
  unfolding cleanup_listed
  cleanup_listed-Requeued [] s = record {
    running = refl;
    pending = refl;
    completed = refl;
    task = refl;
    result = refl;
  }
  cleanup_listed-Requeued (j ∷ is) s = elim (Bool-cases (hexists redis j s.heartbeats)) [
    | inl e ↦
        let ij = ==_iff j i in
        let rest = cleanup_listed-Requeued is s in
        record {
          running = let b = rest.running in ground arith;
          pending = let b = rest.pending in ground arith;
          completed = let b = rest.completed in ground arith;
          task = let b = rest.task in ground arith;
          result = let b = rest.result in ground arith;
        }
    | inr e ↦
        let ij = ==_iff j i in
        let same = requeue-heartbeats j s in
        let one = requeue-Requeued j s in
        let rest = cleanup_listed-Requeued is (requeue redis j s) in
        let r = one.running in
        let p = one.result in
        record {
          running = let a = one.running in let b = rest.running in ground arith;
          pending = let a = one.pending in let b = rest.pending in ground arith;
          completed = let a = one.completed in let b = rest.completed in ground arith;
          task = let a = one.task in let b = rest.task in ground arith;
          result = let a = one.result in let b = rest.result in ground arith;
        }
  ]
