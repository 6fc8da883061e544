-- ===== src/Types/SpinLock/Tests.antt =====
-- `SpinLock` at concrete inputs.
use tklb.Base.{ℕ, ◌≡◌, ◌≢◌, refl, List, [], ◌∷◌, arith}
use tklb.Types.SpinLock.{Call, lock, inside, unlocked, step_at, step, run_turns}
use tklb.Types.SpinLock.Exclusion.{race, run_turns-race, run_turns-Prompt, Prompt}

-- A thread that gets the lock, and another that waits.
abbrev turns : List (ℕ × Call)
turns = (1, lock) ∷ (2, lock) ∷ (1, lock) ∷ (1, lock) ∷ (2, lock) ∷ []

turns-Prompt : Prompt unlocked turns
unfolding step step_at
turns-Prompt = (
  λ u h. cc,
  (λ u h. ground arith, (λ u h. ground arith, (λ u h. ground arith, (λ u h. ground arith, tt)))),
)

exclusive : (run_turns turns unlocked).places 1 ≡ inside
unfolding run_turns step step_at
exclusive = refl

run_turns-race_example :
    ((run_turns (race 1 2) unlocked).places 1 ≡ inside)
    × ((run_turns (race 1 2) unlocked).places 2 ≡ inside)
run_turns-race_example = run_turns-race 1 2 (λ e. omega (arith, e))

run_turns-Prompt_example : (run_turns turns unlocked).places 2 ≢ inside
run_turns-Prompt_example = run_turns-Prompt turns 1 2 turns-Prompt (λ e. omega (arith, e)) exclusive
