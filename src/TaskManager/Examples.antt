-- ===== src/TaskManager/Examples.antt =====
-- server-common/src/redis/task_manager.rs over sets and hashes that are lists.
use intmax.Base.{
  ℕ, ◌≡◌, ◌⊎◌, refl, String, Bool, true, false, List, [], ◌∷◌, map, Option, none, some, ok,
  if◌then◌else◌, ◌==◌, retain, not, any, nat_eq, arith,
}
use intmax.Base.Map
use intmax.Base.Map.{HashMap, lookup-insert, lookup-remove}
use intmax.TaskManager.{
  Redis, Serde, Keys, add_json, assign_first, complete_task, assign_task, requeue,
  cleanup_inactive_tasks, cleanup_listed, expire_heartbeat,
}
use intmax.TaskManager.Invariant.{
  RedisLaws, adds, assigns, done, next, IdValid, IsValid, Steps-IsValid,
}
use intmax.TaskManager.Workers.{Completed, complete_task-get_result, assign_task_lem}

abbrev member : ℕ → List ℕ → Bool
member i s = any (λ j. i == j) s

abbrev delete : ℕ → List ℕ → List ℕ
delete i s = retain (λ j. not (j == i)) s

abbrev head : List ℕ → Option ℕ
head [] = none
head (x ∷ xs) = some x

abbrev lists : Redis
lists = record {
  Set = List ℕ;
  Hash = HashMap ℕ String;
  sismember = member;
  sadd = λ i s. i ∷ s;
  srem = delete;
  smove = λ i a b. if member i a then (delete i a, i ∷ b) else (a, b);
  smembers = λ s. s;
  sort_first = head;
  hget = λ i h. Map.lookup i h;
  hset = λ i v h. Map.insert i v h;
  hdel = λ i h. Map.remove i h;
  hkeys = λ h. map (λ x. x.0) h;
}

member-delete :
    (i j : ℕ) (s : List ℕ) → member i (delete j s) ≡ (if i == j then false else member i s)
member-delete i j [] = ground arith
member-delete i j (x ∷ xs) = ground (arith, member-delete i j xs)

head-none : (s : List ℕ) → head s ≡ none → (i : ℕ) → member i s ≡ false
head-none [] h i = refl
head-none (x ∷ xs) h i = cc

head-some : (s : List ℕ) (i : ℕ) → head s ≡ some i → member i s ≡ true
head-some [] i h = cc
head-some (x ∷ xs) i h = ground arith

keys-lookup :
    (i : ℕ) (h : HashMap ℕ String)
    → any (λ j. j == i) (map (λ x. x.0) h)
      ≡ (elim (Map.lookup i h) [ none ↦ false | some _ ↦ true ])
unfolding Map.lookup
keys-lookup i [] = refl
keys-lookup i ((k, v) ∷ h) = ground (arith, keys-lookup i h)

member-any : (i : ℕ) (s : List ℕ) → any (λ j. j == i) s ≡ member i s
member-any i [] = refl
member-any i (x ∷ xs) = ground (arith, member-any i xs)

lists-RedisLaws : RedisLaws lists
lists-RedisLaws = record {
  sismember_sadd = λ i j s. refl;
  sismember_srem = member-delete;
  smove_moves = λ j a b. refl;
  sort_first_none = head-none;
  sort_first_some = head-some;
  sismember_smembers = member-any;
  hget_hkeys = keys-lookup;
  hget_hset = λ i j v h. ground (arith, lookup-insert i j v h);
  hget_hdel = λ i j h. ground (arith, lookup-remove i j h);
}

abbrev text : Serde String
text = record { to_string = λ s. some s; from_str = λ s. some s }

abbrev idle : Keys lists
idle = record {
  tasks = [];
  pending = [];
  running = [];
  completed = [];
  results = [];
  heartbeats = [];
}

idle-IsValid : IsValid lists lists-RedisLaws idle
idle-IsValid i = ground arith

abbrev waiting : Keys lists
waiting = record {
  tasks = (8, "block 8") ∷ [];
  pending = 8 ∷ [];
  running = [];
  completed = [];
  results = [];
  heartbeats = [];
}

waiting-IsValid : IsValid lists lists-RedisLaws waiting
unfolding Map.lookup
waiting-IsValid i = ground arith

abbrev working : Keys lists
working = record {
  tasks = (8, "block 8") ∷ [];
  pending = [];
  running = 8 ∷ [];
  completed = [];
  results = [];
  heartbeats = [];
}

abbrev finished : Keys lists
finished = record {
  tasks = (8, "block 8") ∷ [];
  pending = [];
  running = [];
  completed = 8 ∷ [];
  results = (8, "proof") ∷ [];
  heartbeats = [];
}

completes_8 : complete_task lists text 8 "proof" working ≡ ok finished
unfolding complete_task Map.insert
completes_8 = refl

Steps-IsValid_example :
    IdValid lists lists-RedisLaws 8 (assign_first lists (add_json lists 8 "block 8" idle)).1
Steps-IsValid_example =
    Steps-IsValid lists lists-RedisLaws (next (adds 8 "block 8") (next assigns done)) idle-IsValid 8

-- A worker that has stopped, and one that has completed its task.
abbrev stopped : Keys lists
stopped = record {
  tasks = (8, "block 8") ∷ (9, "block 9") ∷ [];
  pending = [];
  running = 9 ∷ [];
  completed = 8 ∷ [];
  results = (8, "proof") ∷ [];
  heartbeats = (9, "worker") ∷ [];
}

nine_back : (cleanup_inactive_tasks lists (expire_heartbeat lists 9) stopped).pending ≡ 9 ∷ []
unfolding cleanup_inactive_tasks cleanup_listed requeue expire_heartbeat Map.lookup Map.remove
nine_back = refl

complete_task-get_result_example :
    (v : String) × Completed lists lists-RedisLaws text 8 "proof" v working finished
complete_task-get_result_example =
    complete_task-get_result lists lists-RedisLaws text (λ r v e. cc) 8 "proof" working finished
      refl completes_8

assign_task_lem_example :
    ((assign_task lists text waiting ≡ (ok none, waiting)) × ((i : ℕ) → member i (8 ∷ []) ≡ false))
    ⊎ ((i : ℕ) × (v : String) × (member i (8 ∷ []) ≡ true)
        × (member i (assign_task lists text waiting).1.pending ≡ false)
        × (member i (assign_task lists text waiting).1.running ≡ true)
        × (Map.lookup i waiting.tasks ≡ some v)
        × ((assign_task lists text waiting).0 ≡ ok (some (i, v))))
assign_task_lem_example = assign_task_lem lists lists-RedisLaws text waiting waiting-IsValid
