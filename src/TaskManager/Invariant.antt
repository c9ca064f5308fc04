-- ===== src/TaskManager/Invariant.antt =====
-- server-common/src/redis/task_manager.rs: the commands of several workers, interleaved.
use intmax.Base.{
  ℕ, ◌≡◌, inl, inr, String, true, false, none, some, if◌then◌else◌, ◌==◌, any, Option-cases, arith,
  ==_iff,
}
use intmax.TaskManager.{
  Redis, Keys, hexists, add_json, remove_task, assign_first, put_result, move_to_completed,
  submit_heartbeat, expire_heartbeat, requeue,
}

-- What the documentation of Redis says of those commands.
pub record RedisLaws (redis : Redis) : Type 0 where
  pub sismember_sadd :
      (i j : ℕ) (s : redis.Set)
      → redis.sismember i (redis.sadd j s) ≡ (if i == j then true else redis.sismember i s)
  pub sismember_srem :
      (i j : ℕ) (s : redis.Set)
      → redis.sismember i (redis.srem j s) ≡ (if i == j then false else redis.sismember i s)
  pub smove_moves :
      (j : ℕ) (a b : redis.Set)
      → redis.smove j a b
        ≡ (if redis.sismember j a then (redis.srem j a, redis.sadd j b) else (a, b))
  pub sort_first_none :
      (s : redis.Set) → redis.sort_first s ≡ none → (i : ℕ) → redis.sismember i s ≡ false
  pub sort_first_some :
      (s : redis.Set) (i : ℕ) → redis.sort_first s ≡ some i → redis.sismember i s ≡ true
  pub sismember_smembers :
      (i : ℕ) (s : redis.Set) → any (λ j. j == i) (redis.smembers s) ≡ redis.sismember i s
  pub hget_hkeys :
      (i : ℕ) (h : redis.Hash)
      → any (λ j. j == i) (redis.hkeys h) ≡ (elim (redis.hget i h) [ none ↦ false | some _ ↦ true ])
  pub hget_hset :
      (i j : ℕ) (v : String) (h : redis.Hash)
      → redis.hget i (redis.hset j v h) ≡ (if i == j then some v else redis.hget i h)
  pub hget_hdel :
      (i j : ℕ) (h : redis.Hash)
      → redis.hget i (redis.hdel j h) ≡ (if i == j then none else redis.hget i h)

module _ (redis : Redis) (laws : RedisLaws redis) where
  -- One atomic command or script of one worker. The second command of `complete_task` comes while the
  -- result that the first has written is still stored.
  pub data Step : Keys redis → Keys redis → Type 0 where
    adds : (i : ℕ) (v : String) {s : Keys redis} → Step s (add_json redis i v s)
    assigns : {s : Keys redis} → Step s (assign_first redis s).1
    writes_result : (i : ℕ) (v : String) {s : Keys redis} → Step s (put_result redis i v s)
    completes :
        (i : ℕ) {s : Keys redis}
        → hexists redis i s.results ≡ true
        → Step s (move_to_completed redis i s)
    beats : (w : String) (i : ℕ) {s : Keys redis} → Step s (submit_heartbeat redis w i s)
    expires : (i : ℕ) {s : Keys redis} → Step s (expire_heartbeat redis i s)
    requeues : (i : ℕ) {s : Keys redis} → Step s (requeue redis i s)
    removes : (i : ℕ) {s : Keys redis} → Step s (remove_task redis i s)

  pub data Steps : Keys redis → Keys redis → Type 0 where
    done : {s : Keys redis} → Steps s s
    next : {s t u : Keys redis} → Step s t → Steps t u → Steps s u

  -- What the sets and hashes are to say of one id.
  abbrev pub IdValid : ℕ → Keys redis → Type 0
  IdValid i s =
      (redis.sismember i s.pending ≡ true
        → (hexists redis i s.tasks ≡ true)
          × (redis.sismember i s.running ≡ false)
          × (redis.sismember i s.completed ≡ false))
      × (redis.sismember i s.running ≡ true
          → (hexists redis i s.tasks ≡ true) × (redis.sismember i s.completed ≡ false))
      × (redis.sismember i s.completed ≡ true
          → (hexists redis i s.tasks ≡ true) × (hexists redis i s.results ≡ true))

  abbrev pub IsValid : Keys redis → Type 0
  IsValid s = (i : ℕ) → IdValid i s

  add_json-IsValid :
      (j : ℕ) (v : String) (s : Keys redis) → IsValid s → IsValid (add_json redis j v s)
  unfolding add_json
  add_json-IsValid j v s h i =
      let a = h i in
      let b = h j in
      let ij = ==_iff i j in
      let e1 = laws.sismember_sadd i j s.pending in
      let e2 = laws.hget_hset i j v s.tasks in ground arith

  remove_task-IsValid : (j : ℕ) (s : Keys redis) → IsValid s → IsValid (remove_task redis j s)
  unfolding remove_task
  remove_task-IsValid j s h i =
      let a = h i in
      let e1 = laws.sismember_srem i j s.pending in
      let e2 = laws.sismember_srem i j s.running in
      let e3 = laws.sismember_srem i j s.completed in
      let e4 = laws.hget_hdel i j s.tasks in let e5 = laws.hget_hdel i j s.results in ground arith

  assign_first-IsValid : (s : Keys redis) → IsValid s → IsValid (assign_first redis s).1
  unfolding assign_first
  assign_first-IsValid s h i = elim (Option-cases (redis.sort_first s.pending)) [
    | inl e ↦ rw (e, assign_first) (h i)
    | inr (j, e) ↦
        let a = h i in
        let b = h j in
        let ij = ==_iff i j in
        let e1 = laws.smove_moves j s.pending s.running in
        let e2 = laws.sismember_srem i j s.pending in
        let e3 = laws.sismember_sadd i j s.running in ground arith
  ]

  put_result-IsValid :
      (j : ℕ) (v : String) (s : Keys redis) → IsValid s → IsValid (put_result redis j v s)
  unfolding put_result
  put_result-IsValid j v s h i =
      let a = h i in let e1 = laws.hget_hset i j v s.results in ground arith

  move_to_completed-IsValid :
      (j : ℕ) (s : Keys redis)
      → hexists redis j s.results ≡ true
      → IsValid s
      → IsValid (move_to_completed redis j s)
  unfolding move_to_completed
  move_to_completed-IsValid j s r h i =
      let a = h i in
      let b = h j in
      let ij = ==_iff i j in
      let e1 = laws.smove_moves j s.running s.completed in
      let e2 = laws.sismember_srem i j s.running in
      let e3 = laws.sismember_sadd i j s.completed in ground arith

  submit_heartbeat-IsValid :
      (w : String) (j : ℕ) (s : Keys redis) → IsValid s → IsValid (submit_heartbeat redis w j s)
  unfolding submit_heartbeat
  submit_heartbeat-IsValid w j s h i = let a = h i in ground arith

  expire_heartbeat-IsValid :
      (j : ℕ) (s : Keys redis) → IsValid s → IsValid (expire_heartbeat redis j s)
  unfolding expire_heartbeat
  expire_heartbeat-IsValid j s h i = let a = h i in ground arith

  requeue-IsValid : (j : ℕ) (s : Keys redis) → IsValid s → IsValid (requeue redis j s)
  unfolding requeue
  requeue-IsValid j s h i =
      let a = h i in
      let b = h j in
      let ij = ==_iff i j in
      let e1 = laws.smove_moves j s.running s.pending in
      let e2 = laws.sismember_srem i j s.running in
      let e3 = laws.sismember_sadd i j s.pending in ground arith

  Step-IsValid : {s t : Keys redis} → Step s t → IsValid s → IsValid t
  Step-IsValid (adds i v) h = add_json-IsValid i v _ h
  Step-IsValid assigns h = assign_first-IsValid _ h
  Step-IsValid (writes_result i v) h = put_result-IsValid i v _ h
  Step-IsValid (completes i r) h = move_to_completed-IsValid i _ r h
  Step-IsValid (beats w i) h = submit_heartbeat-IsValid w i _ h
  Step-IsValid (expires i) h = expire_heartbeat-IsValid i _ h
  Step-IsValid (requeues i) h = requeue-IsValid i _ h
  Step-IsValid (removes i) h = remove_task-IsValid i _ h

  -- However the commands of several workers interleave, where a task moves to the completed ones only
  -- while its result is stored, validity is kept: an id that is pending, running or completed has its
  -- task stored, is in one of the three sets only, and has its result stored once it is completed.
  pub Steps-IsValid : {s t : Keys redis} → Steps s t → IsValid s → IsValid t
  Steps-IsValid done h = h
  Steps-IsValid (next p ps) h = Steps-IsValid ps (Step-IsValid p h)
