-- ===== src/Types/Audio/ConvolverBrute.antt =====
-- src/types/audio/convolver/TConvolverBrute.hpp: `ConvolverBruteTpl`. Its state is the buffer with the
-- impulse response. `plus` and `times` are the arithmetic of the samples, which all have one type, and
-- `loud` tells the samples above the silence threshold. The three buffers are different objects.
pub mod Sum
pub mod Frames
pub mod Process
pub mod Trim
mod Tests
use tklb.Base.{
  ℕ, zero, suc, ◌+◌, ◌-◌, ◌%◌, Bool, true, false, List, get_elem?, set, ltb, leb, ◌==◌,
  if◌then◌else◌, Run, ok, fault, ◌>>=◌, read, sub32,
}
use tklb.Types.Audio.AudioBuffer.{AudioBuffer, size, start, each_channel, resize, set_buffer}

-- `c % d`, undefined for zero.
pub remainder : ℕ → ℕ → Run ℕ
remainder c d = if d == 0 then fault else ok (c % d)

-- `jmn` and `jmx`.
pub first_tap : ℕ → ℕ → ℕ
first_tap ng i = if leb (sub32 ng 1) i then sub32 i (sub32 ng 1) else 0

pub last_tap : ℕ → ℕ → ℕ
last_tap nf i = if ltb i (sub32 nf 1) then i else sub32 nf 1

module _ {A : Type 0} (plus times : A → A → A) where
  -- The loop over `j` with the rounds left, for the sample `d` of the output; the response starts at `h`
  -- and the input at `x`.
  pub taps : ℕ → ℕ → ℕ → List A → ℕ → List A → ℕ → ℕ → List A → Run (List A)
  taps zero j i ir h sound x d out = ok out
  taps (suc k) j i ir h sound x d out = read (get_elem? ir (h + j)) >>= λ a.
      read (get_elem? sound (x + sub32 i j)) >>= λ b. read (get_elem? out d) >>= λ y.
      taps k (j + 1) i ir h sound x d (set out d (plus y (times a b)))

  -- The loop over `i` with the rounds left, for the channel of the output that starts at `o`.
  pub frames : ℕ → ℕ → ℕ → ℕ → List A → ℕ → List A → ℕ → ℕ → List A → Run (List A)
  unfolding taps first_tap last_tap
  frames zero i nf ng ir h sound x o out = ok out
  frames (suc k) i nf ng ir h sound x o out =
      taps (suc (last_tap nf i) - first_tap ng i) (first_tap ng i) i ir h sound x (o + i) out
      >>= λ out'. frames k (i + 1) nf ng ir h sound x o out'

  pub process : AudioBuffer A → AudioBuffer A → AudioBuffer A → Run (AudioBuffer A)
  unfolding remainder frames
  process ir sound out =
      each_channel
        (λ c b. remainder c sound.channels >>= λ in_channel.
          remainder c ir.channels >>= λ ir_channel.
          frames (size out) 0 (size ir) sound.valid_size ir.samples (start ir ir_channel)
            sound.samples (start sound in_channel) (start b c) b.samples
          >>= λ samples. ok (record b { samples = samples }))
        out.channels 0 out

module _ {A : Type 0} (loud : A → Bool) where
  -- Whether the frame `i` is loud in a channel from `c` on, with the rounds left.
  pub loud_from : ℕ → ℕ → ℕ → AudioBuffer A → Run Bool
  loud_from zero c i ir = ok false
  loud_from (suc k) c i ir =
      let rest = loud_from k (c + 1) i ir in
      read (get_elem? ir.samples (start ir c + i)) >>= λ x. if loud x then ok true else rest

  -- The loop of `load`, which goes down.
  pub trim : ℕ → AudioBuffer A → Run ℕ
  unfolding loud_from
  trim zero ir = ok (size ir)
  trim (suc i) ir =
      let rest = trim i ir in
      loud_from ir.channels 0 (suc i) ir >>= λ found. if found then ok (suc i + 1) else rest

  pub load : (ℕ → Bool) → A → ℕ → AudioBuffer A → AudioBuffer A → Run (AudioBuffer A)
  unfolding trim
  load granted silence stride ir own =
      if size ir == 0
      then ok own
      else (trim (size ir - 1) ir >>= λ len.
          set_buffer (λ x. x) ir 0 0 0 (resize granted silence stride len ir.channels own).1)
