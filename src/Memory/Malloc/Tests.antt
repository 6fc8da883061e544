-- ===== src/Memory/Malloc/Tests.antt =====
-- A C library that gives out one block.
use tklb.Base.{
  ◌+◌, ◌≡◌, refl, Bool, true, false, none, some, ltb, ◌==◌, ne→==, if◌then◌else◌, ok, arith, ◌^◌,
}
use tklb.Memory.MemoryCheck.{MemoryBytes, construct}
use tklb.Memory.MemoryCheck.Check.{Kept}
use tklb.Memory.Malloc.{CLibrary, checked_malloc, checked_free, allocate_elements}
use tklb.Memory.Malloc.RoundTrip.{checked_free-checked_malloc}
use tklb.Memory.Malloc.Sizes.{allocate_elements_lem}

-- Whether the block, which has 100 bytes at the address 4, is taken.
abbrev one_block : CLibrary
one_block = record {
  Heap = Bool;
  malloc = λ n taken.
      if taken then (none, taken) else (if ltb 100 n then (none, taken) else (some 4, true));
  free = λ p taken. if p == 4 then false else taken;
}

abbrev blank : MemoryBytes
blank q = 0

abbrev written : MemoryBytes
written q = if q == 30 then 7 else (construct 4 10 blank).1 q

written-Kept : Kept 4 10 blank written
written-Kept = record {
  at_start = λ j lt. rw (ne→== (4 + j) 30 (omega arith)) refl;
  at_end = λ j lt. rw (ne→== (38 + j) 30 (omega arith)) refl;
}

checked_free-checked_malloc_example :
    (checked_malloc one_block 10 false blank
      ≡ ok ((construct 4 10 blank).0, true, (construct 4 10 blank).1))
    × (checked_free one_block (some (construct 4 10 blank).0) true written ≡ false)
checked_free-checked_malloc_example =
    checked_free-checked_malloc one_block 10 4 false true true blank written (omega arith) refl
      written-Kept

allocate_elements_lem_example : allocate_elements one_block false 8 (2 ^ 62) false ≡ (none, false)
allocate_elements_lem_example = allocate_elements_lem one_block 8 (2 ^ 62) false (omega arith)
