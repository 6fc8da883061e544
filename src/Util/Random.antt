-- ===== src/Util/Random.antt =====
-- src/util/TRandom.h: the linear congruential generator. `unsigned long` has 64 bits.
pub mod Cycle
mod Tests
use tklb.Base.{ℕ, ◌+◌, ◌*◌, ◌%◌, ◌^◌}

-- The member `mState`.
pub record Random : Type 0 where
  pub state : ℕ

unfoldable pub new : ℕ → Random
new seed = record { state = seed }

-- The product and the sum wrap at 64 bits before the remainder is taken.
unfoldable pub next_state : ℕ → ℕ
next_state s = ((s * 1103515245 % 2 ^ 64 + 12345) % 2 ^ 64) % 2147483648

-- `next` returns the new state.
unfoldable pub next : Random → ℕ × Random
unfolding next_state
next r = let s = next_state r.state in (s, record { state = s })
