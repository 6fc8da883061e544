-- ===== src/Memory/Helpers.antt =====
-- src/memory/TMemory.hpp: `stringCopy`, `set` and `zero`. What stands behind a pointer is a function from
-- indices; the build without the standard library.
pub mod StringCopy
mod Tests
use tklb.Base.{ℕ, zero, suc, ◌+◌, Bool, true, false, ◌==◌, if◌then◌else◌, sub64}

module _ {A : Type 0} where
  pub put_element : ℕ → A → (ℕ → A) → ℕ → A
  put_element i x dst j = if j == i then x else dst j

  -- `set` from the index `i` on, with the rounds left.
  pub set_from : ℕ → ℕ → A → (ℕ → A) → ℕ → A
  unfolding put_element
  set_from zero i x dst = dst
  set_from (suc k) i x dst = set_from k (i + 1) x (put_element i x dst)

  pub set_elements : ℕ → A → (ℕ → A) → ℕ → A
  unfolding set_from
  set_elements n x dst = set_from n 0 x dst

pub zero_bytes : ℕ → (ℕ → ℕ) → ℕ → ℕ
unfolding set_elements
zero_bytes bytes dst = set_elements bytes 0 dst

-- The loop for `size == 0`, with the rounds left: the new `size`, and `terminate`.
pub short_length : ℕ → ℕ → (ℕ → ℕ) → ℕ → ℕ × Bool
short_length zero i src size = (size, true)
short_length (suc k) i src size =
    let rest = short_length k (i + 1) src i in if src i == 0 then (i, false) else rest

-- The loop that copies: whether it met the terminator, and the target.
pub copy_chars : ℕ → ℕ → (ℕ → ℕ) → (ℕ → ℕ) → Bool × (ℕ → ℕ)
unfolding put_element
copy_chars zero i src dst = (false, dst)
copy_chars (suc k) i src dst =
    let dst' = put_element i (src i) dst in
    let rest = copy_chars k (i + 1) src dst' in if src i == 0 then (true, dst') else rest

pub string_copy : ℕ → Bool → (ℕ → ℕ) → (ℕ → ℕ) → ℕ → ℕ
unfolding short_length copy_chars
string_copy size terminate src dst =
    let (size', terminate') = if size == 0 then short_length 64 0 src 0 else (size, terminate) in
    let (met, dst') = copy_chars size' 0 src dst in
    if met then dst' else if terminate' then put_element (sub64 size' 1) 0 dst' else dst'
