-- ===== src/Heap.antt =====
-- The steps that the two binary heaps share: src/DS/minHeap.c (an array of PCB pointers) and
-- src/DS/priorityQueue.c (an array of processes). `cmp` is the comparison that the heap was
-- created with. An index stays below twice the size plus three.
pub mod Order
pub mod Down
pub mod Up
pub mod Update
use kernel_sim.Base.{ℕ, zero, suc, ◌+◌, ◌-◌, ◌*◌, ◌/◌, Bool, List, ltb, ◌==◌, if◌then◌else◌, ◌&&◌}
use kernel_sim.Base.Int.{ℤ, pos, ltb_ℤ}
use kernel_sim.Base.Array.{load, store}
use kernel_sim.Base.Outcome.{Outcome, done, exhausted, ◌>>=◌}

abbrev pub parent : ℕ → ℕ
parent i = (i - 1) / 2

abbrev pub left_child : ℕ → ℕ
left_child i = 2 * i + 1

abbrev pub right_child : ℕ → ℕ
right_child i = 2 * i + 2

module _ {A : Type 0} where
  -- `swap(&a[i], &a[j])`
  unfoldable pub swap : List A → ℕ → ℕ → Outcome (List A)
  swap a i j = do temp ← load a i; other ← load a j; b ← store a i other; store b j temp

  module _ (cmp : A → A → ℤ) where
    -- `cmp(a[i], a[j]) < 0`
    unfoldable pub precedes : List A → ℕ → ℕ → Outcome Bool
    precedes a i j = do x ← load a i; y ← load a j; done (ltb_ℤ (cmp x y) (pos 0))

    -- `if (child < size && cmp(a[child], a[smallest]) < 0) smallest = child;`
    unfoldable pub smaller : List A → ℕ → ℕ → ℕ → Outcome ℕ
    unfolding precedes
    smaller a size child smallest =
        if ltb child size
        then (do below ← precedes a child smallest; done (if below then child else smallest))
        else done smallest

    unfoldable pub smallest_of : List A → ℕ → ℕ → Outcome ℕ
    unfolding smaller
    smallest_of a size i = do
      smallest ← smaller a size (left_child i) i
      smaller a size (right_child i) smallest

    -- Each round goes down at least one level, so `size + 1` rounds are enough from any index.
    unfoldable pub sift_down : ℕ → List A → ℕ → ℕ → Outcome (List A)
    unfolding smallest_of swap
    sift_down zero a size i = exhausted
    sift_down (suc fuel) a size i = do
      smallest ← smallest_of a size i
      let sink = swap a i smallest >>= λ b. sift_down fuel b size smallest
      if smallest == i then done a else sink

    -- The index at least halves in each round, so `i + 1` rounds are enough.
    unfoldable pub sift_up : ℕ → List A → ℕ → Outcome (List A)
    unfolding precedes swap
    sift_up zero a i = exhausted
    sift_up (suc fuel) a i =
        let rise = swap a i (parent i) >>= λ b. sift_up fuel b (parent i) in
        let step = precedes a i (parent i) >>= λ below. if below then rise else done a in
        if ltb 0 i then step else done a
