-- ===== src/TaskManager/Workers.antt =====
-- server-common/src/redis/task_manager.rs: what a worker and the client of a task observe.
use intmax.Base.{
  ℕ, ◌≡◌, ◌⊎◌, inl, inr, String, true, false, List, none, some, Option-cases, arith, ==_iff, ok,
  err, subst,
}
use intmax.TaskManager.{
  Redis, Serde, Keys, serde_error, assign_first, put_result, move_to_completed, cleanup_listed,
  get_result, complete_task, assign_task, read_task,
}
use intmax.TaskManager.Invariant.{RedisLaws, IsValid}
use intmax.TaskManager.Maintenance.{cleanup_listed-Requeued}

module _ (redis : Redis) (laws : RedisLaws redis) {A : Type 0} (serde : Serde A) where
  -- What the client and the cleanup see of a task that a worker has completed, where the value is the
  -- serialized result.
  pub record Completed (i : ℕ) (r : A) (v : String) (s s' : Keys redis) : Type 0 where
    pub serialized : serde.to_string r ≡ some v
    pub read_back : get_result redis serde i s' ≡ ok (some r)
    pub no_longer_running : redis.sismember i s'.running ≡ false
    pub completed : redis.sismember i s'.completed ≡ true
    -- After the first of the two commands, whatever ids a cleanup goes through.
    pub still_running :
        (is : List ℕ)
        → redis.sismember i (cleanup_listed redis is (put_result redis i v s)).running ≡ true
    pub completed_later :
        (is : List ℕ)
        → redis.sismember i
            (move_to_completed redis i (cleanup_listed redis is (put_result redis i v s))).completed
          ≡ true

  put_result-running :
      (i : ℕ) (v : String) (s : Keys redis) (is : List ℕ)
      → redis.sismember i s.running ≡ true
      → redis.sismember i (cleanup_listed redis is (put_result redis i v s)).running ≡ true
  unfolding put_result
  put_result-running i v s is runs =
      let l = laws.hget_hset i i v s.results in
      let ij = ==_iff i i in
      let c = (cleanup_listed-Requeued redis laws i is (put_result redis i v s)).running in
      ground arith

  move_to_completed_lem :
      (i : ℕ) (s : Keys redis)
      → redis.sismember i s.running ≡ true
      → (redis.sismember i (move_to_completed redis i s).running ≡ false)
        × (redis.sismember i (move_to_completed redis i s).completed ≡ true)
  unfolding move_to_completed
  move_to_completed_lem i s runs =
      let ij = ==_iff i i in
      let m = laws.smove_moves i s.running s.completed in
      let e1 = laws.sismember_srem i i s.running in
      let e2 = laws.sismember_sadd i i s.completed in (ground arith, ground arith)

  get_result-put_result :
      (i : ℕ) (r : A) (v : String) (s : Keys redis)
      → serde.from_str v ≡ some r
      → get_result redis serde i (move_to_completed redis i (put_result redis i v s)) ≡ ok (some r)
  unfolding get_result move_to_completed put_result
  get_result-put_result i r v s back =
      let l = laws.hget_hset i i v s.results in let ij = ==_iff i i in ground arith

  -- When the serialization can be read back and a worker completes a task that is running: the client
  -- gets the result, and the task is among the completed ones and no longer running. A cleanup between
  -- the two commands, whatever ids it goes through, leaves the task running, so that the second
  -- command still moves it to the completed ones.
  pub complete_task-get_result :
      ((r : A) (v : String) → serde.to_string r ≡ some v → serde.from_str v ≡ some r)
      → (i : ℕ) (r : A) (s s' : Keys redis) → redis.sismember i s.running ≡ true
      → complete_task redis serde i r s ≡ ok s'
      → (v : String) × Completed i r v s s'
  unfolding complete_task put_result
  complete_task-get_result round i r s s' runs h = elim (Option-cases (serde.to_string r)) [
    | inl e ↦ absurd (ground arith)
    | inr (v, e) ↦
        let same : move_to_completed redis i (put_result redis i v s) ≡ s' = ground arith in
        let moved = move_to_completed_lem i (put_result redis i v s) runs in
        (
          v,
          subst (Completed i r v s) same (record {
            serialized = e;
            read_back = get_result-put_result i r v s (round r v e);
            no_longer_running = moved.0;
            completed = moved.1;
            still_running = λ is. put_result-running i v s is runs;
            completed_later = λ is.
                (move_to_completed_lem i (cleanup_listed redis is (put_result redis i v s))
                  (put_result-running i v s is runs)).1;
          }),
        )
  ]

  -- In a valid state, a worker that asks for a task gets none, and changes nothing, when none is
  -- pending. Otherwise an id that was pending is now running and no longer pending, and the answer is
  -- the task that is stored for that id, or an error when what is stored cannot be read.
  pub assign_task_lem :
      (s : Keys redis)
      → IsValid redis laws s
      → ((assign_task redis serde s ≡ (ok none, s))
          × ((i : ℕ) → redis.sismember i s.pending ≡ false))
        ⊎ ((i : ℕ) × (v : String) × (redis.sismember i s.pending ≡ true)
            × (redis.sismember i (assign_task redis serde s).1.pending ≡ false)
            × (redis.sismember i (assign_task redis serde s).1.running ≡ true)
            × (redis.hget i s.tasks ≡ some v)
            × ((assign_task redis serde s).0 ≡ (elim (serde.from_str v) [
              | none ↦ err serde_error
              | some task ↦ ok (some (i, task))
            ])))
  unfolding assign_task assign_first read_task
  assign_task_lem s h = elim (Option-cases (redis.sort_first s.pending)) [
    | inl e ↦ inl (ground arith, laws.sort_first_none s.pending e)
    | inr (i, e) ↦
        let a = h i in
        let p = laws.sort_first_some s.pending i e in
        let ij = ==_iff i i in
        let e1 = laws.smove_moves i s.pending s.running in
        let e2 = laws.sismember_srem i i s.pending in
        let e3 = laws.sismember_sadd i i s.running in
        elim (Option-cases (redis.hget i s.tasks)) [
          | inl n ↦ absurd (ground arith)
          | inr (v, n) ↦ inr (i, v, p, ground arith, ground arith, n, ground arith)
        ]
  ]
