-- ===== src/Util/Random/Cycle.antt =====
-- The generator walks through its states without ever merging two of them.
use tklb.Base.{ℕ, ◌+◌, ◌-◌, ◌*◌, ◌%◌, ◌<◌, ◌≡◌, sym, ap, ◌∙◌, arith}
use tklb.Util.Random.{next_state}

-- The state before: 1103515245 * 1857678181 leaves the remainder 1.
abbrev pub previous : ℕ → ℕ
previous t = (t + 2147483648 - 12345) * 1857678181 % 2147483648

pub next_state_bound : (s : ℕ) → next_state s < 2147483648
unfolding next_state
next_state_bound s = omega arith

pub previous-next_state : (s : ℕ) → s < 2147483648 → previous (next_state s) ≡ s
unfolding next_state
previous-next_state s h = omega arith

-- From a state below 2^31 the generator yields a number below 2^31, and two states that yield the
-- same number are the same: every state has one predecessor, so the sequence is a cycle.
pub next-injective :
    (s t : ℕ) → s < 2147483648 → t < 2147483648 → next_state s ≡ next_state t → s ≡ t
next-injective s t hs ht e =
    sym (previous-next_state s hs) ∙ ap previous e ∙ previous-next_state t ht
