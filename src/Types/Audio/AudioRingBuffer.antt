-- ===== src/Types/Audio/AudioRingBuffer.antt =====
-- src/types/audio/TAudioRingBuffer.hpp: `AudioRingBufferTpl`, a ring of frames in an `AudioBuffer`.
-- `head` counts the frames, `tail` is where the next one goes.
pub mod Frames
pub mod Write
pub mod Push
pub mod Read
pub mod Peek
pub mod Pop
pub mod Over
mod Tests
use tklb.Base.{ℕ, Bool, ltb, leb, ◌==◌, if◌then◌else◌, Run, ok, ◌>>=◌, add32, sub32}
use tklb.Types.Audio.AudioBuffer.{AudioBuffer, size, set_value, set_buffer, set_valid_size}

pub record AudioRingBuffer (A : Type 0) : Type 0 where
  pub base : AudioBuffer A
  pub head : ℕ
  pub tail : ℕ

module _ {A : Type 0} where
  pub reset : A → AudioRingBuffer A → Run (AudioRingBuffer A)
  reset zero_sample r =
      set_value zero_sample 0 0 r.base >>= λ base. ok (record { base = base; head = 0; tail = 0 })

  pub remaining : AudioRingBuffer A → ℕ
  remaining r = sub32 (size r.base) r.head

  pub filled : AudioRingBuffer A → ℕ
  filled r = r.head

  -- Where `peek` starts to read, for a `head` with the offset taken off.
  pub tail_start : AudioRingBuffer A → ℕ → ℕ
  tail_start r head =
      if ltb r.tail head then add32 (sub32 r.tail head) (size r.base) else sub32 r.tail head

module _ {A B : Type 0} (convert : B → A) where
  -- The copies of `peek`.
  pub read_frames : AudioRingBuffer B → ℕ → ℕ → ℕ → AudioBuffer A → Run (AudioBuffer A)
  read_frames r from n offset_dst out =
      let space_left = sub32 (size r.base) from in
      if ltb space_left n
      then set_buffer convert r.base space_left from offset_dst out
        >>= set_buffer convert r.base (sub32 n space_left) 0 (add32 space_left offset_dst)
      else set_buffer convert r.base n from offset_dst out

  pub peek : AudioBuffer A → ℕ → ℕ → ℕ → AudioRingBuffer B → Run (ℕ × AudioBuffer A)
  unfolding tail_start read_frames
  peek out elements offset_src offset_dst r =
      let head = sub32 r.head offset_src in
      let n = if ltb head elements then head else elements in
      (if ltb 0 n then read_frames r (tail_start r head) n offset_dst out else ok out) >>= λ out'.
      ok (n, set_valid_size n out')

  pub pop :
      AudioBuffer A → ℕ → ℕ → ℕ → AudioRingBuffer B → Run (ℕ × AudioBuffer A × AudioRingBuffer B)
  unfolding peek
  pop out elements offset_src offset_dst r = peek out elements offset_src offset_dst r >>= λ p.
      ok (p.0, p.1, record r { head = sub32 r.head p.0 })

  -- The copies of `push` and the new tail.
  pub write_frames : AudioBuffer B → ℕ → ℕ → AudioRingBuffer A → Run (AudioRingBuffer A)
  write_frames input n offset_src r =
      let space_left_tail = sub32 (size r.base) r.tail in
      if ltb space_left_tail n
      then (set_buffer convert input space_left_tail (add32 0 offset_src) r.tail r.base
          >>= set_buffer convert input (sub32 n space_left_tail) (add32 space_left_tail offset_src)
              0
          >>= λ base. ok (record r { base = base; tail = sub32 n space_left_tail }))
      else (set_buffer convert input n offset_src r.tail r.base >>= λ base.
          ok (record r { base = base; tail = if space_left_tail == n then 0 else add32 r.tail n }))

  pub push : AudioBuffer B → ℕ → AudioRingBuffer A → Run (ℕ × AudioRingBuffer A)
  unfolding write_frames
  push input offset_src r =
      let space_left_head = sub32 (size r.base) r.head in
      let n = if ltb space_left_head input.valid_size then space_left_head else input.valid_size in
      if ltb 0 n
      then (write_frames input n offset_src r >>= λ r'. ok (n, record r' { head = add32 r.head n }))
      else ok (n, r)

  pub push_over : AudioBuffer B → AudioRingBuffer A → Run (ℕ × AudioRingBuffer A)
  unfolding push remaining
  push_over input r =
      let n = if ltb r.head input.valid_size then r.head else input.valid_size in
      if leb (remaining r) input.valid_size
      then push input 0 (record r { head = sub32 r.head n })
      else push input 0 r
