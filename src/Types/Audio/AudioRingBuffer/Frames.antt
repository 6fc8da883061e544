-- ===== src/Types/Audio/AudioRingBuffer/Frames.antt =====
-- A ring as the queue of its frames.
use tklb.Base.{ℕ, ◌+◌, ◌-◌, ◌≤◌, ◌<◌, ◌≡◌, ◌≢◌, Option, ltb, if◌then◌else◌, arith}
use tklb.Types.Audio.AudioBuffer.{size}
use tklb.Types.Audio.AudioBuffer.Cells.{IsValid, cell}
use tklb.Types.Audio.AudioRingBuffer.{AudioRingBuffer}

-- A ring with memory, not more frames than fit, and the tail inside.
pub record IsRing {A : Type 0} (r : AudioRingBuffer A) : Type 0 where
  pub base : IsValid r.base
  pub head : r.head ≤ size r.base
  pub tail : r.tail < size r.base

-- An index that may have run over the end once.
abbrev pub wrap : ℕ → ℕ → ℕ
wrap n t = if ltb t n then t else t - n

-- Where the frame `k` of the queue lies, 0 is the oldest.
abbrev pub place : ℕ → ℕ → ℕ → ℕ → ℕ
place n head tail k = wrap n (wrap n (tail + n - head) + k)

module _ {A : Type 0} where
  -- The sample of the channel `c` in the frame `k`.
  abbrev pub frame : AudioRingBuffer A → ℕ → ℕ → Option A
  frame r c k = cell r.base c (place (size r.base) r.head r.tail k)

-- The places before and after `n` more frames.
pub place-push :
    (m head tail n k : ℕ)
    → head + n ≤ m
    → tail < m
    → k < head + n
    → place m (head + n) (wrap m (tail + n)) k ≡ place m head tail k
place-push m head tail n k room lt lt' = ground arith

-- The place of a new frame.
pub place-new :
    (m head tail j : ℕ) → head + j < m → tail < m → place m head tail (head + j) ≡ wrap m (tail + j)
place-new m head tail j room lt = ground arith

-- The place of an old frame is none of the next ones.
pub place-old :
    (m head tail k j : ℕ)
    → head + j < m
    → tail < m
    → k < head
    → place m head tail k ≢ wrap m (tail + j)
place-old m head tail k j room lt old e = ground arith

pub place-lt : (m head tail k : ℕ) → tail < m → head ≤ m → k < m → place m head tail k < m
place-lt m head tail k lt le lt' = ground arith
