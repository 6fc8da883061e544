-- ===== src/Memory/MemoryCheck.antt =====
-- src/memory/TMemoryCheck.hpp: `MagicBlock`. Memory is a function from addresses to bytes, which do not
-- wrap. A block has 24 bytes: the size in the first 8, lowest byte first, the magic string in the next 15,
-- and whether it is the start block in the last.
pub mod Bytes
pub mod Check
mod Tests
use tklb.Base.{
  ℕ, zero, suc, ◌+◌, ◌-◌, ◌*◌, ◌/◌, ◌%◌, Bool, true, false, List, [], ◌∷◌, ◌==◌, if◌then◌else◌,
}

abbrev pub MemoryBytes : Type 0
MemoryBytes = ℕ → ℕ

-- `MAGIC_STRING_START` and `MAGIC_STRING_END`, "startblockstri" and "endblockstring".
abbrev pub magic_string_start : List ℕ
magic_string_start =
    115 ∷ 116 ∷ 97 ∷ 114 ∷ 116 ∷ 98 ∷ 108 ∷ 111 ∷ 99 ∷ 107 ∷ 115 ∷ 116 ∷ 114 ∷ 105 ∷ 0 ∷ []

abbrev pub magic_string_end : List ℕ
magic_string_end =
    101 ∷ 110 ∷ 100 ∷ 98 ∷ 108 ∷ 111 ∷ 99 ∷ 107 ∷ 115 ∷ 116 ∷ 114 ∷ 105 ∷ 110 ∷ 103 ∷ 0 ∷ []

abbrev pub magic_of : Bool → List ℕ
magic_of start = if start then magic_string_start else magic_string_end

pub put_byte : ℕ → ℕ → MemoryBytes → MemoryBytes
put_byte p b mem q = if q == p then b else mem q

pub put_bytes : List ℕ → ℕ → MemoryBytes → MemoryBytes
unfolding put_byte
put_bytes [] p mem = mem
put_bytes (b ∷ bs) p mem = put_bytes bs (p + 1) (put_byte p b mem)

-- The lowest `k` bytes of a number.
pub put_word : ℕ → ℕ → ℕ → MemoryBytes → MemoryBytes
unfolding put_byte
put_word zero n p mem = mem
put_word (suc k) n p mem = put_word k (n / 256) (p + 1) (put_byte p (n % 256) mem)

pub get_word : ℕ → ℕ → MemoryBytes → ℕ
get_word zero p mem = 0
get_word (suc k) p mem = mem p + 256 * get_word k (p + 1) mem

-- The constructor.
pub new_block : ℕ → Bool → ℕ → MemoryBytes → MemoryBytes
unfolding put_bytes put_word
new_block size start p mem =
    put_bytes (magic_of start) (p + 8)
      (put_byte (p + 23) (if start then 1 else 0) (put_word 8 size p mem))

abbrev pub size_needed : ℕ
size_needed = 2 * 24

pub construct : ℕ → ℕ → MemoryBytes → ℕ × MemoryBytes
unfolding new_block
construct p bytes mem =
    let useable_space = p + 24 in
    (useable_space, new_block bytes false (useable_space + bytes) (new_block bytes true p mem))

pub compare_bytes : List ℕ → ℕ → MemoryBytes → Bool
compare_bytes [] p mem = true
compare_bytes (b ∷ bs) p mem =
    let rest = compare_bytes bs (p + 1) mem in if mem p == b then rest else false

pub check_magic_string : ℕ → MemoryBytes → Bool
unfolding compare_bytes
check_magic_string p mem =
    if mem (p + 23) == 0
    then compare_bytes magic_string_end (p + 8) mem
    else compare_bytes magic_string_start (p + 8) mem

pub record CheckResult : Type 0 where
  pub ptr : ℕ
  pub size : ℕ
  pub underrun : Bool
  pub overrun : Bool

pub check : ℕ → MemoryBytes → CheckResult
unfolding check_magic_string get_word
check ptr mem =
    let start_block = ptr - 24 in
    let size = get_word 8 start_block mem in
    let end_block = ptr + size in
    if check_magic_string start_block mem
    then (if check_magic_string end_block mem
        then (if size == get_word 8 end_block mem
            then record { ptr = start_block; size = size; underrun = false; overrun = false }
            else record { ptr = start_block; size = 0; underrun = false; overrun = true })
        else record { ptr = start_block; size = 0; underrun = false; overrun = true })
    else record { ptr = start_block; size = 0; underrun = true; overrun = true }
