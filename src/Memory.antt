-- ===== src/Memory.antt =====
-- src/memory_manager.h and src/memory_manager.c: the buddy allocator. A tree of blocks stands for
-- the tree of heap nodes. A pointer to a block is the path that leads to it from the root, and a
-- function that changes blocks in place returns the new tree. `malloc` is taken to succeed.
pub mod Power
pub mod Sized
pub mod Traverse
pub mod Address
pub mod Occupied
pub mod Vacancy
pub mod Grant
pub mod Allocate
pub mod Clear
pub mod Merge
pub mod Release
pub mod Total
pub mod Refuse
mod Tests
use kernel_sim.Base.{
  ℕ, zero, suc, ◌+◌, ◌-◌, ◌*◌, ◌/◌, ◌^◌, Bool, true, false, not, ◌&&◌, ◌||◌, List, [], ◌∷◌, ◌++◌,
  Option, none, some, ltb, leb, ◌==◌, if◌then◌else◌,
}
use kernel_sim.Base.Int.{ℤ, pos, negsuc, minus_one, pos_part, ◌+ℤ◌, ◌-ℤ◌, ◌==ℤ◌, leb_ℤ}
use kernel_sim.Base.Outcome.{Outcome, done, fault, exhausted, ◌>>=◌}

-- The fields of `MemoryBlock` besides its pointers. A size is positive or, below size 1, zero.
pub record Header : Type 0 where
  pub size : ℕ
  pub allocated : ℤ
  pub process_pid : ℤ
  pub id_from_file : ℤ

-- `null` is the NULL pointer; the parent of a block is the one above it in the tree.
pub data MemoryBlock : Type 0 where
  null : MemoryBlock
  node : Header → MemoryBlock → MemoryBlock → MemoryBlock

pub data Side : Type 0 where
  left_child right_child : Side

abbrev pub Pointer : Type 0
Pointer = List Side

abbrev pub total_memory_size : ℕ
total_memory_size = 1024

-- Also `initialize_memory_Segment`, which sets the same fields.
abbrev pub initialize_memory_block : ℕ → MemoryBlock
initialize_memory_block size =
    node
      (record { size = size; allocated = pos 0; process_pid = minus_one; id_from_file = minus_one })
      null null

abbrev pub is_taken : Header → Bool
is_taken b = not (b.process_pid ==ℤ minus_one)

-- The two loops of `get_used_space`.
unfoldable pub left_used : MemoryBlock → ℤ
left_used null = pos 0
left_used (node b l r) = (if is_taken b then b.allocated else pos 0) +ℤ left_used l

unfoldable pub right_used : MemoryBlock → ℤ
right_used null = pos 0
right_used (node b l r) = (if is_taken b then b.allocated else pos 0) +ℤ right_used r

unfoldable pub get_used_space : MemoryBlock → ℤ
unfolding left_used right_used
get_used_space null = pos 0
get_used_space (node b l r) = left_used l +ℤ right_used r

-- `while (power < x) power *= 2`; a product that an `int` cannot hold is undefined. The power
-- doubles in each round, so 32 rounds are enough.
unfoldable pub power_from : ℕ → ℕ → ℕ → Outcome ℕ
power_from zero power x = exhausted
power_from (suc fuel) power x =
    let next = if ltb (power * 2) (2 ^ 31) then power_from fuel (power * 2) x else fault in
    if ltb power x then next else done power

unfoldable pub highest_power_of_2 : ℤ → Outcome ℕ
unfolding power_from
highest_power_of_2 x = if leb_ℤ x (pos 0) then done 1 else power_from 32 1 (pos_part x)

abbrev pub or_new : MemoryBlock → ℕ → MemoryBlock
or_new null size = initialize_memory_block size
or_new (node b l r) size = node b l r

-- The test of `traverse_MemorySegment` that a block fits the request.
unfoldable pub fits : Header → MemoryBlock → MemoryBlock → ℕ → Bool
unfolding get_used_space
fits b l r needed =
    (b.size == needed)
    && (b.process_pid ==ℤ minus_one)
    && leb_ℤ (pos needed) (pos b.size -ℤ get_used_space (node b l r))

-- The result of the search in a child, seen from the block.
abbrev pub Search : Type 0
Search = Option Pointer × MemoryBlock

abbrev pub from_right : Header → MemoryBlock → Search → Outcome Search
from_right b l (none, r) = done (none, node b l r)
from_right b l (some p, r) = done (some (right_child ∷ p), node b l r)

abbrev pub from_left :
    Header → MemoryBlock → (MemoryBlock → Outcome Search) → Search → Outcome Search
from_left b r try_right (none, l) = try_right l
from_left b r try_right (some p, l) = done (some (left_child ∷ p), node b l r)

-- The size halves on the way down, so `size + 1` rounds are enough.
unfoldable pub traverse_memory_segment : ℕ → ℕ → MemoryBlock → Outcome Search
unfolding fits
traverse_memory_segment zero needed t = exhausted
traverse_memory_segment (suc fuel) needed null = done (none, null)
traverse_memory_segment (suc fuel) needed (node b l r) =
    let try_right = λ (l' : MemoryBlock).
      traverse_memory_segment fuel needed (or_new r (b.size / 2)) >>= from_right b l' in
    let try_left =
      traverse_memory_segment fuel needed (or_new l (b.size / 2)) >>= from_left b r try_right in
    if ltb b.size needed || is_taken b
    then done (none, node b l r)
    else if fits b l r needed
    then done (some [], node b l r)
    else try_left

-- A pointer seen from a child: `none` if the block is not below it.
abbrev pub from_child : Side → Option Pointer → Option Pointer
from_child left_child (some (left_child ∷ p)) = some p
from_child right_child (some (right_child ∷ p)) = some p
from_child _ _ = none

abbrev pub is_here : Option Pointer → Bool
is_here (some []) = true
is_here _ = false

unfoldable pub is_in_subtree : MemoryBlock → Option Pointer → Bool
is_in_subtree null p = false
is_in_subtree (node b l r) p =
    is_here p
    || is_in_subtree l (from_child left_child p)
    || is_in_subtree r (from_child right_child p)

-- The loop of `get_block_address`, with the base that it ends at; `none` is its return of -1.
unfoldable pub base_from : MemoryBlock → Option Pointer → ℕ → ℕ → Option ℕ
unfolding is_in_subtree
base_from null p base size = some base
base_from (node b l r) p base size =
    let on_left = base_from l (from_child left_child p) base (size / 2) in
    let on_right = base_from r (from_child right_child p) (base + size / 2) (size / 2) in
    if is_here p
    then some base
    else if is_in_subtree l (from_child left_child p)
    then on_left
    else if is_in_subtree r (from_child right_child p)
    then on_right
    else none

-- The fields of the block that a pointer leads to.
abbrev pub block_at : Pointer → MemoryBlock → Option Header
block_at p null = none
block_at [] (node b l r) = some b
block_at (left_child ∷ p) (node b l r) = block_at p l
block_at (right_child ∷ p) (node b l r) = block_at p r

pub record Extent : Type 0 where
  pub start : ℤ
  pub end : ℤ

abbrev no_extent : Extent
no_extent = record { start = minus_one; end = minus_one }

abbrev extent_of : Option Header → Option ℕ → Extent
extent_of (some block) (some base) = record {
  start = pos base;
  end = pos base +ℤ pos block.size -ℤ pos 1;
}
extent_of _ _ = no_extent

-- `*start` and `*end`
unfoldable pub get_block_address : MemoryBlock → Pointer → Extent
unfolding base_from ◌+ℤ◌ ◌-ℤ◌
get_block_address null p = no_extent
get_block_address (node b l r) p =
    extent_of (block_at p (node b l r)) (base_from (node b l r) (some p) 0 b.size)

-- Changes the fields of the block that a pointer leads to.
unfoldable pub update_block : Pointer → (Header → Header) → MemoryBlock → MemoryBlock
update_block p f null = null
update_block [] f (node b l r) = node (f b) l r
update_block (left_child ∷ p) f (node b l r) = node b (update_block p f l) r
update_block (right_child ∷ p) f (node b l r) = node b l (update_block p f r)

-- A line of memory.log.
pub record MemoryEvent : Type 0 where
  pub time : ℤ
  pub allocate : Bool
  pub bytes : ℤ
  pub process_id : ℤ
  pub extent : Extent

-- The new tree, the value returned, and the line logged if there is one.
pub record Reply : Type 0 where
  pub root : MemoryBlock
  pub success : Bool
  pub event : Option MemoryEvent

abbrev pub allocated_to : ℤ → ℤ → Header → Header
allocated_to id size b = record b { id_from_file = id; allocated = size }

abbrev pub reply_of : ℤ → ℤ → ℤ → Search → Reply
reply_of id size time (none, t) = record { root = t; success = false; event = none }
reply_of id size time (some p, t) = record {
  root = update_block p (allocated_to id size) t;
  success = true;
  event = some (record {
    time = time;
    allocate = true;
    bytes = size;
    process_id = id;
    extent = get_block_address t p;
  });
}

allocate_in : MemoryBlock → ℤ → ℤ → ℤ → ℕ → Outcome Reply
allocate_in root id size time needed =
    traverse_memory_segment (total_memory_size + 1) needed root >>= λ r.
    done (reply_of id size time r)

-- With a NULL root the code allocates in a segment of its own, which the caller does not see.
unfoldable pub allocate_memory : MemoryBlock → ℤ → ℤ → ℤ → Outcome Reply
unfolding allocate_in
allocate_memory null id size time = do
  needed ← highest_power_of_2 size
  reply ← allocate_in (initialize_memory_block 1024) id size time needed
  done (record reply { root = null })
allocate_memory (node b l r) id size time = do
  needed ← highest_power_of_2 size
  allocate_in (node b l r) id size time needed

abbrev pub has_key : ℤ → ℤ → Header → Bool
has_key id pid b =
    (not (id ==ℤ minus_one) && (b.id_from_file ==ℤ id))
    || (not (pid ==ℤ minus_one) && (b.process_pid ==ℤ pid))

abbrev pub first_of_children : Option Pointer → Option Pointer → Option Pointer
first_of_children (some p) on_right = some (left_child ∷ p)
first_of_children none (some p) = some (right_child ∷ p)
first_of_children none none = none

unfoldable pub get_process_memory_segment : MemoryBlock → ℤ → ℤ → Option Pointer
get_process_memory_segment null id pid = none
get_process_memory_segment (node b l r) id pid =
    let below =
      first_of_children (get_process_memory_segment l id pid)
        (get_process_memory_segment r id pid) in
    if has_key id pid b then some [] else below

unfoldable pub update_id : ℤ → ℤ → MemoryBlock → MemoryBlock
unfolding get_process_memory_segment update_block
update_id id pid root = elim (get_process_memory_segment root id minus_one) [
  | none ↦ root
  | some p ↦ update_block p (λ b. record b { process_pid = pid }) root
]

-- The buddy exists, is not allocated and has no children.
abbrev is_free_leaf : MemoryBlock → Bool
is_free_leaf (node b null null) = b.allocated ==ℤ pos 0
is_free_leaf _ = false

-- `merge_buddy_blocks` at the block that the pointer leads to. The flag says that the calls have
-- reached this block, so that its parent is next.
unfoldable pub merge_from : Pointer → MemoryBlock → MemoryBlock × Bool
merge_from p null = (null, false)
merge_from [] t = (t, true)
merge_from (left_child ∷ p) (node b l r) =
    let (l', reached) = merge_from p l in
    if reached && is_free_leaf r then (node b null null, true) else (node b l' r, false)
merge_from (right_child ∷ p) (node b l r) =
    let (r', reached) = merge_from p r in
    if reached && is_free_leaf l then (node b null null, true) else (node b l r', false)

unfoldable pub merge_buddy_blocks : Pointer → MemoryBlock → MemoryBlock
unfolding merge_from
merge_buddy_blocks p root = (merge_from p root).0

abbrev cleared : Header → Header
cleared b = record b { process_pid = minus_one; id_from_file = minus_one; allocated = pos 0 }

freed_event : MemoryBlock → ℤ → Pointer → Option Header → Option MemoryEvent
freed_event root time p none = none
freed_event root time p (some b) = some (record {
  time = time;
  allocate = false;
  bytes = b.allocated;
  process_id = b.id_from_file;
  extent = get_block_address root p;
})

unfoldable pub deallocate_memory : MemoryBlock → ℤ → ℤ → Reply
unfolding get_process_memory_segment merge_buddy_blocks update_block freed_event
deallocate_memory root pid time = elim (get_process_memory_segment root minus_one pid) [
  | none ↦ record { root = root; success = false; event = none }
  | some p ↦ record {
    root = merge_buddy_blocks p (update_block p cleared root);
    success = true;
    event = freed_event root time p (block_at p root);
  }
]

-- The blocks that `destroy_memory_segment` frees, in order: children first.
unfoldable pub destroy_memory_segment : MemoryBlock → List Header
destroy_memory_segment null = []
destroy_memory_segment (node b l r) = destroy_memory_segment l ++ destroy_memory_segment r ++ b ∷ []
