-- ===== src/Jiutai/Queue.antt =====
-- jiutai/jf_queue.c: the linked queue, as the list of the data of its nodes from head to tail.
-- The memory of a node comes from jf_jiukun_allocMemory: the code of that call is an argument.
use jiufeng.Prelude.{Bool, true, false, Option, none, some, List, [], ◌∷◌, ◌++◌}
use jiufeng.Jiutai.Err.{Err}

module _ {ℓ} {A : Type ℓ} where
  -- `jf_queue_isEmpty`
  unfoldable pub is_empty : List A → Bool
  is_empty [] = true
  is_empty (x ∷ q) = false

  -- `jf_queue_enqueue`: the returned code and the queue.
  unfoldable pub enqueue : Err → List A → A → Err × List A
  enqueue Err.no_error q x = (Err.no_error, q ++ (x ∷ []))
  enqueue (Err.failed e) q x = (Err.failed e, q)

  -- `jf_queue_dequeue`: `none` is NULL.
  unfoldable pub dequeue : List A → Option A × List A
  dequeue [] = (none, [])
  dequeue (x ∷ q) = (some x, q)

  -- `jf_queue_peek`
  unfoldable pub peek : List A → Option A
  peek [] = none
  peek (x ∷ q) = some x
