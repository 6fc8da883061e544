-- ===== src/Memory/MemoryCheck/Check.antt =====
-- `check` of what `construct` made.
use tklb.Base.{
  ℕ, ◌+◌, ◌-◌, ◌^◌, ◌≤◌, ◌<◌, ◌≡◌, ◌≢◌, refl, ap, sym, ◌∙◌, ◌⊎◌, inl, inr, get_or, Bool, true,
  false, eq→==, if◌then◌else◌, arith, length,
}
use tklb.Memory.MemoryCheck.{
  MemoryBytes, magic_of, magic_string_start, magic_string_end, put_byte, put_bytes, put_word,
  get_word, new_block, construct, check, check_magic_string,
}
use tklb.Memory.MemoryCheck.Bytes.{
  put_byte_self, put_byte-ne, put_bytes-elsewhere, put_bytes-inside, put_word-elsewhere,
  get_word-put_word, get_word-same, compare_bytes-true, compare_bytes-false,
}

-- The 24 bytes of a block.
record IsBlock (size : ℕ) (start : Bool) (p : ℕ) (mem : MemoryBytes) : Type 0 where
  word : get_word 8 p mem ≡ size
  flag : mem (p + 23) ≡ (if start then 1 else 0)
  magic : (j : ℕ) → j < 15 → mem (p + 8 + j) ≡ get_or (magic_of start) j 0

length_magic : (start : Bool) → length (magic_of start) ≡ 15
length_magic true = refl
length_magic false = refl

new_block-elsewhere :
    (size : ℕ) (start : Bool) (p q : ℕ) (mem : MemoryBytes)
    → (q < p) ⊎ (p + 24 ≤ q)
    → new_block size start p mem q ≡ mem q
unfolding new_block
new_block-elsewhere size start p q mem h =
    let flag : ℕ = if start then 1 else 0 in
    put_bytes-elsewhere (magic_of start) (p + 8) q (put_byte (p + 23) flag (put_word 8 size p mem))
      (away h)
    ∙ put_byte-ne (p + 23) flag q (put_word 8 size p mem) (differs h)
    ∙ put_word-elsewhere 8 size p q mem (away_word h)
  where
    away : (q < p) ⊎ (p + 24 ≤ q) → (q < p + 8) ⊎ (p + 8 + length (magic_of start) ≤ q)
    away (inl l) = inl (omega arith)
    away (inr l) = inr (omega (arith, length_magic start))

    differs : (q < p) ⊎ (p + 24 ≤ q) → q ≢ p + 23
    differs (inl l) e = omega arith
    differs (inr l) e = omega arith

    away_word : (q < p) ⊎ (p + 24 ≤ q) → (q < p) ⊎ (p + 8 ≤ q)
    away_word (inl l) = inl l
    away_word (inr l) = inr (omega arith)

new_block-IsBlock :
    (size : ℕ) (start : Bool) (p : ℕ) (mem : MemoryBytes)
    → size < 2 ^ 64
    → IsBlock size start p (new_block size start p mem)
unfolding new_block
new_block-IsBlock size start p mem small =
    let flag : ℕ = if start then 1 else 0 in
    let sized = put_word 8 size p mem in
    let flagged = put_byte (p + 23) flag sized in
    record {
      word =
          get_word-same 8 p sized (put_bytes (magic_of start) (p + 8) flagged) (λ j lt.
            put_bytes-elsewhere (magic_of start) (p + 8) (p + j) flagged (inl (omega arith))
            ∙ put_byte-ne (p + 23) flag (p + j) sized (omega arith))
          ∙ get_word-put_word 8 size p mem small;
      flag =
          put_bytes-elsewhere (magic_of start) (p + 8) (p + 23) flagged
            (inr (omega (arith, length_magic start)))
          ∙ put_byte_self (p + 23) flag sized;
      magic = λ j lt.
          put_bytes-inside (magic_of start) (p + 8) j flagged (omega (arith, length_magic start));
    }

-- A block is where its bytes are.
same-IsBlock :
    (size : ℕ) (start : Bool) (p : ℕ) (mem mem' : MemoryBytes)
    → ((j : ℕ) → j < 24 → mem' (p + j) ≡ mem (p + j))
    → IsBlock size start p mem
    → IsBlock size start p mem'
same-IsBlock size start p mem mem' same b = record {
  word = get_word-same 8 p mem mem' (λ j lt. same j (omega arith)) ∙ b.word;
  flag = same 23 (omega arith) ∙ b.flag;
  magic = λ j lt.
      let e : p + 8 + j ≡ p + (8 + j) = omega arith in
      ap mem' e ∙ same (8 + j) (omega arith) ∙ ap mem (sym e) ∙ b.magic j lt;
}

intact :
    (size : ℕ) (start : Bool) (p : ℕ) (mem : MemoryBytes)
    → IsBlock size start p mem
    → check_magic_string p mem ≡ true
unfolding check_magic_string
intact size true p mem b =
    rw (b.flag) (compare_bytes-true magic_string_start (p + 8) mem (λ j lt. b.magic j lt))
intact size false p mem b =
    rw (b.flag) (compare_bytes-true magic_string_end (p + 8) mem (λ j lt. b.magic j lt))

-- Memory in which an allocation was constructed, and where nothing but the usable space was written since.
pub record Kept (p bytes : ℕ) (mem mem' : MemoryBytes) : Type 0 where
  pub at_start : (j : ℕ) → j < 24 → mem' (p + j) ≡ (construct p bytes mem).1 (p + j)
  pub at_end :
      (j : ℕ) → j < 24 → mem' (p + 24 + bytes + j) ≡ (construct p bytes mem).1 (p + 24 + bytes + j)

construct-IsBlock :
    (p bytes : ℕ) (mem mem' : MemoryBytes)
    → bytes < 2 ^ 64
    → ((j : ℕ) → j < 24 → mem' (p + j) ≡ (construct p bytes mem).1 (p + j))
    → IsBlock bytes true p mem'
unfolding construct
construct-IsBlock p bytes mem mem' small same =
    let first_block = new_block bytes true p mem in
    same-IsBlock bytes true p first_block mem'
      (λ j lt.
        same j lt
        ∙ new_block-elsewhere bytes false (p + 24 + bytes) (p + j) first_block (inl (omega arith)))
      (new_block-IsBlock bytes true p mem small)

-- `check` of the usable space finds the allocation and its size, whatever was written to that space.
pub check-construct :
    (p bytes : ℕ) (mem mem' : MemoryBytes)
    → bytes < 2 ^ 64
    → Kept p bytes mem mem'
    → check (construct p bytes mem).0 mem'
      ≡ record { ptr = p; size = bytes; underrun = false; overrun = false }
unfolding check construct
check-construct p bytes mem mem' small k =
    let s = construct-IsBlock p bytes mem mem' small k.at_start in
    let e =
      same-IsBlock bytes false (p + 24 + bytes) (construct p bytes mem).1 mem' k.at_end
        (new_block-IsBlock bytes false (p + 24 + bytes) (new_block bytes true p mem) small) in
    rw (
      back p,
      s.word,
      intact bytes true p mem' s,
      intact bytes false (p + 24 + bytes) mem' e,
      e.word,
      eq→== bytes bytes refl,
    )
  where
    back : (p : ℕ) → p + 24 - 24 ≡ p
    back p = omega arith

-- A change of a byte of the magic string behind the usable space is found as an overrun, as long as the
-- flag of that block and the block before the space are as they were.
pub check-overrun :
    (p bytes j : ℕ) (mem mem' : MemoryBytes)
    → bytes < 2 ^ 64
    → ((i : ℕ) → i < 24 → mem' (p + i) ≡ (construct p bytes mem).1 (p + i))
    → mem' (p + 24 + bytes + 23) ≡ 0
    → j < 15
    → mem' (p + 24 + bytes + 8 + j) ≢ get_or magic_string_end j 0
    → check (construct p bytes mem).0 mem'
      ≡ record { ptr = p; size = 0; underrun = false; overrun = true }
unfolding check construct check_magic_string
check-overrun p bytes j mem mem' small same flag lt differs =
    let s = construct-IsBlock p bytes mem mem' small same in
    rw (
      back p,
      s.word,
      intact bytes true p mem' s,
      flag,
      compare_bytes-false magic_string_end (p + 24 + bytes + 8) j mem' lt differs,
    )
  where
    back : (p : ℕ) → p + 24 - 24 ≡ p
    back p = omega arith
