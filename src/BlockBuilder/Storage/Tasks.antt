-- ===== src/BlockBuilder/Storage/Tasks.antt =====
-- block-builder/src/app/storage/memory_storage.rs: dequeue_block_post_task.
use intmax.Base.{
  ℕ, ◌≤◌, ◌<◌, ◌≡◌, refl, ◌∙◌, true, false, inl, inr, List, ◌∷◌, some, arith, ◌==◌, All,
  Option-cases,
}
use intmax.Base.BTreeSet
use intmax.Zkp.{Zkp}
use intmax.BlockBuilder.NonceManager.{reserved_nonces, smallest_reserved_nonce}
use intmax.BlockBuilder.NonceManager.Validity.{
  IsValid, smallest_reserved_nonce_iff, release_nonce-IsValid,
}
use intmax.BlockBuilder.BlockPost.{BlockPostTask}
use intmax.BlockBuilder.Storage.{
  Storage, task_nonce, task_kind, is_smallest, pop_hi, dequeue_front, dequeue_block_post_task,
}

module _ (z : Zkp) where
  open z use {types}

  is_smallest_lem :
      (t : BlockPostTask types) (s : Storage z)
      → smallest_reserved_nonce (task_kind z t) s.nonce_manager ≡ some (task_nonce z t)
      → is_smallest z t s ≡ true
  unfolding is_smallest
  is_smallest_lem t s h = ground arith

  -- The task in front of the high queue, when its nonce is reserved and no reserved nonce of its
  -- kind is smaller, is handed out at once, whatever the other tasks would do. It leaves the queue,
  -- its nonce is no longer reserved, and the sets of reserved nonces stay valid.
  pub dequeue_block_post_task-in_order :
      (others : Storage z → Storage z) (s : Storage z) (t : BlockPostTask types)
      (ts : List (BlockPostTask types))
      → IsValid s.nonce_manager
      → s.block_post_tasks_hi ≡ t ∷ ts
      → BTreeSet.contains (task_nonce z t) (reserved_nonces (task_kind z t) s.nonce_manager) ≡ true
      → All (λ n. task_nonce z t ≤ n) (reserved_nonces (task_kind z t) s.nonce_manager)
      → (w : Storage z) × (dequeue_block_post_task z others s ≡ (some t, w))
        × (w.block_post_tasks_hi ≡ ts)
        × (w.block_post_tasks_lo ≡ s.block_post_tasks_lo)
        × IsValid w.nonce_manager
        × (BTreeSet.contains (task_nonce z t) (reserved_nonces (task_kind z t) w.nonce_manager)
            ≡ false)
  unfolding dequeue_block_post_task pop_hi
  dequeue_block_post_task-in_order others s t ts v front held least =
      let n = task_nonce z t in
      let k = task_kind z t in
      let first =
        is_smallest_lem t s ((smallest_reserved_nonce_iff k s.nonce_manager n v).1 (held, least)) in
      let (valid, gone) = release_nonce-IsValid n k s.nonce_manager v in
      (
        pop_hi z t ts s,
        rw (front, dequeue_block_post_task, first),
        refl,
        refl,
        valid,
        gone n ∙ ground arith,
      )

  -- A reserved nonce below the task's own: the task is not the smallest.
  is_smallest-below :
      (t : BlockPostTask types) (s : Storage z) (n : ℕ)
      → IsValid s.nonce_manager
      → BTreeSet.contains n (reserved_nonces (task_kind z t) s.nonce_manager) ≡ true
      → n < task_nonce z t
      → is_smallest z t s ≡ false
  unfolding is_smallest
  is_smallest-below t s n v held smaller =
      elim (Option-cases (smallest_reserved_nonce (task_kind z t) s.nonce_manager)) [
        | inl e ↦ ground arith
        | inr (m, e) ↦
            let least = ((smallest_reserved_nonce_iff (task_kind z t) s.nonce_manager m v).0 e).1 in
            let at_most = BTreeSet.All-contains _ n _ least held in ground arith
      ]

  dequeue_block_post_task-waits :
      (others : Storage z → Storage z) (s : Storage z) (t : BlockPostTask types)
      (ts : List (BlockPostTask types))
      → s.block_post_tasks_hi ≡ t ∷ ts
      → is_smallest z t s ≡ false
      → dequeue_block_post_task z others s ≡ dequeue_front z (others s)
  unfolding dequeue_block_post_task
  dequeue_block_post_task-waits others s t ts front first = ground arith

  -- A smaller nonce of its kind is reserved when the task in front of the high queue is looked at, so
  -- that the call waits. After the wait the order of the nonces no longer matters: the task that
  -- stands in front by then is handed out although a smaller nonce of its kind is reserved. It
  -- leaves the queue and its nonce is released, the low queue stays, and the smaller nonce is
  -- reserved still.
  pub dequeue_block_post_task-out_of_order :
      (others : Storage z → Storage z) (s : Storage z) (t u : BlockPostTask types)
      (ts us : List (BlockPostTask types)) (n m : ℕ)
      → IsValid s.nonce_manager
      → s.block_post_tasks_hi ≡ t ∷ ts
      → BTreeSet.contains n (reserved_nonces (task_kind z t) s.nonce_manager) ≡ true
      → n < task_nonce z t
      → IsValid (others s).nonce_manager
      → (others s).block_post_tasks_hi ≡ u ∷ us
      → BTreeSet.contains m (reserved_nonces (task_kind z u) (others s).nonce_manager) ≡ true
      → m < task_nonce z u
      → (w : Storage z) × (dequeue_block_post_task z others s ≡ (some u, w))
        × (w.block_post_tasks_hi ≡ us)
        × (w.block_post_tasks_lo ≡ (others s).block_post_tasks_lo)
        × (BTreeSet.contains m (reserved_nonces (task_kind z u) w.nonce_manager) ≡ true)
        × (BTreeSet.contains (task_nonce z u) (reserved_nonces (task_kind z u) w.nonce_manager)
            ≡ false)
  unfolding dequeue_front pop_hi
  dequeue_block_post_task-out_of_order others s t u ts us n m v front held smaller v' waited held'
        smaller' =
      let (valid, gone) =
        release_nonce-IsValid (task_nonce z u) (task_kind z u) (others s).nonce_manager v' in
      let first = is_smallest-below t s n v held smaller in
      let differs : (task_nonce z u == m) ≡ false = ground arith in
      (
        pop_hi z u us (others s),
        dequeue_block_post_task-waits others s t ts front first ∙ rw (waited, dequeue_front),
        refl,
        refl,
        gone m ∙ (rw differs held'),
        gone (task_nonce z u) ∙ ground arith,
      )
