-- ===== src/Memory/MemoryCheck/Tests.antt =====
-- `MagicBlock` at concrete inputs.
use tklb.Base.{◌+◌, ◌≡◌, refl, true, false, ◌==◌, ne→==, if◌then◌else◌, arith}
use tklb.Memory.MemoryCheck.{MemoryBytes, construct, check, size_needed}
use tklb.Memory.MemoryCheck.Check.{Kept, check-construct, check-overrun}

abbrev blank : MemoryBytes
blank q = 0

-- An allocation of 10 bytes at 4, so the usable space is from 28 to 37, and the end block at 38.
abbrev allocation : MemoryBytes
allocation = (construct 4 10 blank).1

-- A write to the usable space, and one behind it.
abbrev used : MemoryBytes
used q = if q == 30 then 7 else allocation q

abbrev overrun : MemoryBytes
overrun q = if q == 46 then 7 else allocation q

used-Kept : Kept 4 10 blank used
used-Kept = record {
  at_start = λ j lt. rw (ne→== (4 + j) 30 (omega arith)) refl;
  at_end = λ j lt. rw (ne→== (38 + j) 30 (omega arith)) refl;
}

check-construct_example :
    check 28 used ≡ record { ptr = 4; size = 10; underrun = false; overrun = false }
unfolding construct
check-construct_example = check-construct 4 10 blank used (omega arith) used-Kept

check-overrun_example :
    check 28 overrun ≡ record { ptr = 4; size = 0; underrun = false; overrun = true }
unfolding construct
check-overrun_example =
    check-overrun 4 10 0 blank overrun (omega arith)
      (λ i lt. rw (ne→== (4 + i) 46 (omega arith)) refl) refl (omega arith) (λ e. omega (arith, e))

size_needed_example : size_needed ≡ 48
size_needed_example = refl
