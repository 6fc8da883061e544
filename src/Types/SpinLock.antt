-- ===== src/Types/SpinLock.antt =====
-- src/types/TSpinLock.hpp: `SpinLock`, and src/types/TLockGuard.hpp: `LockGuard`, `LockGuardTry`.
-- Threads take turns in any order. Each reading and each writing of the flag is one step.
pub mod Exclusion
pub mod Guards
mod Tests
use tklb.Base.{ℕ, Bool, true, false, List, [], ◌∷◌, ◌==◌, if◌then◌else◌}

-- Which of the two a thread calls.
pub data Call : Type 0 where
  lock : Call
  try_lock : Call

-- Where a thread stands: outside, before the test in the loop of `lock`, before the test in
-- `try_lock`, before the line that sets the flag, or holding the lock.
pub data Place : Type 0 where
  outside : Place
  spinning : Place
  trying : Place
  setting : Place
  inside : Place

-- `mSpinLock`, and the places of the threads.
pub record SpinLock : Type 0 where
  pub flag : Bool
  pub places : ℕ → Place

abbrev pub move_to : SpinLock → ℕ → Place → SpinLock
move_to s t p = record s { places = λ u. if u == t then p else s.places u }

-- No thread has called anything.
abbrev pub unlocked : SpinLock
unlocked = record { flag = false; places = λ t. outside }

-- One step of the thread `t` at a place; `call` is what it calls next, and a thread that holds the
-- lock calls `unlock`.
pub step_at : Place → SpinLock → ℕ → Call → SpinLock
step_at outside s t lock = move_to s t spinning
step_at outside s t try_lock = move_to s t trying
step_at spinning s t call = if s.flag then s else move_to s t setting
step_at trying s t call = if s.flag then move_to s t outside else move_to s t setting
step_at setting s t call = record (move_to s t inside) { flag = true }
step_at inside s t call = record (move_to s t outside) { flag = false }

pub step : SpinLock → ℕ × Call → SpinLock
unfolding step_at
step s turn = step_at (s.places turn.0) s turn.0 turn.1

pub run_turns : List (ℕ × Call) → SpinLock → SpinLock
unfolding step
run_turns [] s = s
run_turns (turn ∷ turns) s = run_turns turns (step s turn)

-- One thread's calls, alone: `lock` on a free lock, `try_lock`, `unlock` on the flag.
pub try_lock_flag : Bool → Bool × Bool
try_lock_flag true = (false, true)
try_lock_flag false = (true, true)

pub unlock_flag : Bool → Bool
unlock_flag flag = false

-- The constructor of `LockGuardTry`: `mGotLock` and the flag.
pub guard_try : Bool → Bool × Bool
unfolding try_lock_flag
guard_try flag = try_lock_flag flag

-- Its destructor.
pub end_guard_try : Bool × Bool → Bool
unfolding unlock_flag
end_guard_try (got_lock, flag) = if got_lock then unlock_flag flag else flag
