-- ===== src/Memory/FixedPool/Tests.antt =====
-- `FixedPool` at concrete inputs.
use tklb.Base.{ℕ, ◌*◌, ◌+◌, ◌≡◌, ◌≤◌, ◌<◌, refl, List, [], ◌∷◌, some, arith, inl, inr, ◌⊎◌}
use tklb.Memory.FixedPool.{
  FixedPool, new, write, allocate, allocate_loop, take_block, real_allocation, deallocate,
  reallocate, new_size, move_block, copy,
}
use tklb.Memory.FixedPool.Layout.{Block, used, gap, IsValid, SameUsed}
use tklb.Memory.FixedPool.Spec.{release, first_fit}
use tklb.Memory.FixedPool.Alloc.{Allocates, allocate-Allocates}
use tklb.Memory.FixedPool.Free.{deallocate-release}
use tklb.Memory.FixedPool.Usable.{Grants, allocate-Grants}
use tklb.Memory.FixedPool.Realloc.{reallocate-move}

abbrev fresh : FixedPool
unfolding new
fresh = new (λ _. 7) 256

program : Unit {0}
unfolding new write allocate allocate_loop take_block real_allocation deallocate reallocate new_size
    move_block copy
program = tt

-- A pool with a block of 112 bytes, a free block of 32 and a block of 112.
abbrev busy : FixedPool
unfolding write
busy = record {
  pool_size = 256;
  allocated_space = 224;
  mem = write (write (write (write (λ a. a) 0 112) 112 0) 120 32) 144 112;
}

abbrev busy_blocks : List Block
busy_blocks = used 112 ∷ gap 32 ∷ used 112 ∷ []

busy-IsValid : IsValid busy busy_blocks
unfolding write
busy-IsValid = record { small = omega arith; tiled = omega arith; counted = refl }

fresh-IsValid : IsValid fresh (gap 256 ∷ [])
unfolding new
fresh-IsValid = record { small = omega arith; tiled = omega arith; counted = refl }

real_allocation_one : real_allocation 1 ≡ 16
unfolding real_allocation
real_allocation_one = refl

allocate-Allocates_example :
    Allocates busy busy_blocks (first_fit (real_allocation 20) 0 busy_blocks) (allocate busy 20)
allocate-Allocates_example = allocate-Allocates busy busy_blocks 20 busy-IsValid (omega arith)

deallocate-release_example :
    let q = deallocate busy (some (144 + 8)) in
    IsValid q (release 144 112 busy_blocks)
    × (q.allocated_space + 112 ≡ 224)
    × SameUsed busy.mem q.mem 0 (release 144 112 busy_blocks)
unfolding busy
deallocate-release_example =
    deallocate-release busy busy_blocks 144 112 busy-IsValid (inr (inl (refl, refl)))

abbrev first_taken : FixedPool
unfolding program
first_taken = record {
  pool_size = 256;
  allocated_space = 32;
  mem = write (write (write fresh.mem 32 0) 40 224) 0 32;
}

allocate-first_taken : allocate fresh 20 ≡ some (some 8, first_taken)
unfolding program
allocate-first_taken = refl

allocate-Grants_example : Grants fresh first_taken (gap 256 ∷ []) 20 8
unfolding program
allocate-Grants_example =
    allocate-Grants fresh (gap 256 ∷ []) 20 fresh-IsValid (omega arith) (omega arith) 8 first_taken
      allocate-first_taken

abbrev second : FixedPool
unfolding program
second = record {
  pool_size = 256;
  allocated_space = 104;
  mem = write (write (write first_taken.mem 104 0) 112 152) 32 72;
}

first_taken-IsValid : IsValid first_taken (used 32 ∷ gap 224 ∷ [])
unfolding program
first_taken-IsValid = record { small = omega arith; tiled = omega arith; counted = refl }

allocate-second : allocate first_taken 60 ≡ some (some 40, second)
unfolding program
allocate-second = refl

reallocate-move_example :
    (r : FixedPool) × (reallocate first_taken (some (0 + 8)) 60 ≡ some (some 40, r))
    × ((a : ℕ) → (a < 0) ⊎ (0 + 32 ≤ a) → r.mem a ≡ second.mem a)
    × ((k : ℕ) → 0 < k → k < 3 → r.mem (0 + 8 + 8 * k) ≡ second.mem (40 + 8 * k))
unfolding program
reallocate-move_example =
    reallocate-move first_taken (used 32 ∷ gap 224 ∷ []) 0 32 60 first_taken-IsValid
      (inl (refl, refl)) (omega arith) 40 second (omega arith) allocate-second
