-- ===== src/Memory/FixedPool.antt =====
-- src/memory/TFixedPool.hpp: `FixedPool`, sub-allocations from one chunk of memory.
-- The chunk is a function from byte offsets to 64-bit words. The code reads and writes whole words,
-- at offsets that are multiples of 8 while `Layout.Tiled` holds. A pointer into the chunk is its
-- offset, `none` is nullptr. Asserts are compiled out. The spin lock is held for a whole call, so
-- a call is one step.
pub mod Layout
pub mod Spec
pub mod Taken
pub mod Alloc
pub mod Splice
pub mod Free
pub mod Usable
pub mod Moved
pub mod Realloc
mod Tests
use tklb.Base.{
  ℕ, zero, suc, ◌+◌, ◌-◌, ◌/◌, ◌%◌, ◌^◌, max, Bool, true, false, Option, none, some, add64, sub64,
  ltb, leb, ◌==◌, if◌then◌else◌,
}

abbrev pub Store : Type 0
Store = ℕ → ℕ

pub write : Store → ℕ → ℕ → Store
write mem a v b = if a == b then v else mem b

-- The members of the class; `memory` is the offset 0 and `mutex` is free between calls.
pub record FixedPool : Type 0 where
  pub pool_size : ℕ
  pub allocated_space : ℕ
  pub mem : Store

-- `Block.size` stands at the block's offset, `Block.space` one word after it.
abbrev pub size_of : Store → ℕ → ℕ
size_of mem i = mem i

abbrev pub space_of : Store → ℕ → ℕ
space_of mem i = mem (i + 8)

-- The constructor, over memory of any content.
pub new : Store → ℕ → FixedPool
unfolding write
new mem size = record { pool_size = size; allocated_space = 0; mem = write (write mem 0 0) 8 size }

pub allocated : FixedPool → ℕ
allocated p = p.allocated_space

pub free : FixedPool → ℕ
free p = sub64 p.pool_size p.allocated_space

-- `x & 7` is `x % 8`, `x & ~7` is `x - x % 8`.
pub real_allocation : ℕ → ℕ
real_allocation size =
    let min_size = add64 8 (max 8 size) in
    if size == 0
    then 0
    else if min_size % 8 == 0
    then min_size
    else add64 (min_size - min_size % 8) 8

-- The body of the branch that has found a free block at `i` with enough space.
pub take_block : FixedPool → ℕ → ℕ → FixedPool
unfolding write
take_block p size i =
    let old_size = space_of p.mem i in
    if leb old_size (add64 size 8)
    then record p {
      allocated_space = add64 p.allocated_space old_size;
      mem = write p.mem i old_size;
    }
    else record p {
      allocated_space = add64 p.allocated_space size;
      mem = write (write (write p.mem (i + size) 0) (i + size + 8) (old_size - size)) i size;
    }

-- The loop over the blocks, on fuel: the outer `none` means that the fuel ran out.
pub allocate_loop : ℕ → FixedPool → ℕ → ℕ → Option (Option ℕ × FixedPool)
allocate_loop zero p size i = none
allocate_loop (suc f) p size i =
    let after_gap = allocate_loop f p size (add64 i (space_of p.mem i)) in
    let after_used = allocate_loop f p size (add64 i (size_of p.mem i)) in
    if ltb i p.pool_size
    then (if size_of p.mem i == 0
        then (if leb size (space_of p.mem i)
            then some (some (i + 8), take_block p size i)
            else if space_of p.mem i == 0
            then some (none, p)
            else after_gap)
        else after_used)
    else some (none, p)

-- A round moves `i` by at least one byte, so `pool_size + 1` rounds are enough.
pub allocate : FixedPool → ℕ → Option (Option ℕ × FixedPool)
allocate p requested =
    if requested == 0
    then some (none, p)
    else allocate_loop (suc p.pool_size) p (real_allocation requested) 0

-- `ptr - sizeof(Size)`, the offset of the block that owns `ptr`.
abbrev pub block_of : ℕ → ℕ
block_of ptr = ptr - 8

pub deallocate : FixedPool → Option ℕ → FixedPool
unfolding write
deallocate p none = p
deallocate p (some ptr) =
    let i = block_of ptr in
    let size = size_of p.mem i in
    record p {
      allocated_space = sub64 p.allocated_space size;
      mem = write (write p.mem (i + 8) size) i 0;
    }

-- `memory::copy(dst, src, 8 * words)`.
pub copy : Store → ℕ → ℕ → ℕ → Store
unfolding write
copy mem dst src zero = mem
copy mem dst src (suc words) = copy (write mem dst (mem src)) (dst + 8) (src + 8) words

-- The size that `reallocate` wants: it always adds a word or a part of one.
pub new_size : ℕ → ℕ
new_size size = let n = add64 size 8 in add64 n (8 - n % 8)

-- What follows the call of `allocate` in `reallocate`.
pub move_block : FixedPool → ℕ → ℕ → Option ℕ → Option ℕ × FixedPool
move_block p ptr old_size none = (none, p)
move_block p ptr old_size (some new_ptr) = (
  some new_ptr,
  deallocate (record p { mem = copy p.mem ptr new_ptr ((old_size - 8) / 8) }) (some ptr),
)

pub reallocate : FixedPool → Option ℕ → ℕ → Option (Option ℕ × FixedPool)
unfolding write
reallocate p none size = allocate p size
reallocate p (some ptr) size =
    let i = block_of ptr in
    let old_size = size_of p.mem i in
    let n = new_size size in
    let shrunk = record p {
      mem = write (write (write p.mem i n) (i + n) 0) (i + n + 8) (old_size - n);
    } in
    if leb n old_size
    then (if leb old_size (add64 n 8) then some (some ptr, p) else some (some ptr, shrunk))
    else elim (allocate p size) [ none ↦ none | some (r, p') ↦ some (move_block p' ptr old_size r) ]
