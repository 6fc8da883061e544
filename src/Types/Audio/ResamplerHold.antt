-- ===== src/Types/Audio/ResamplerHold.antt =====
-- src/types/audio/resampler/TResamplerHold.hpp: `ResamplerHoldTpl`. Types/Audio/ResamplerHold/Floating is what
-- the code uses of floating point numbers, the conversion to an index included.
pub mod Floating
pub mod Process
pub mod Channels
pub mod Nearest
mod Tests
use tklb.Base.{
  ℕ, zero, suc, ◌+◌, Bool, true, List, get_elem?, set, leb, if◌then◌else◌, Run, ok, ◌>>=◌, read,
  add32,
}
use tklb.Types.Audio.AudioBuffer.{AudioBuffer, size, start, set_valid_size}
use tklb.Types.Audio.ResamplerHold.Floating.{Doubles}

-- `mRateIn`, `mRateOut` and `mFactor`.
pub record ResamplerHold (f : Doubles) : Type 0 where
  pub rate_in : ℕ
  pub rate_out : ℕ
  pub factor : f.Double

pub init : (f : Doubles) → ℕ → ℕ → ResamplerHold f → Bool × ResamplerHold f
init f rate_in rate_out r =
    (true, record { rate_in = rate_in; rate_out = rate_out; factor = f.ratio rate_in rate_out })

-- `round(output * mFactor)`.
pub closest_sample : (f : Doubles) → ResamplerHold f → ℕ → ℕ
closest_sample f r output = f.round (f.times output r.factor)

module _ {A : Type 0} (closest : ℕ → ℕ) where
  -- The loop over `output` with the rounds left, for the channels that start at `i` and `o`: where it
  -- ends, and the samples.
  pub hold_from : ℕ → ℕ → ℕ → List A → ℕ → ℕ → List A → Run (ℕ × List A)
  hold_from zero output count_in sound i o out = ok (output, out)
  hold_from (suc k) output count_in sound i o out =
      let index = closest output in
      if leb count_in index
      then ok (output, out)
      else (read (get_elem? sound (i + index)) >>= λ x. read (get_elem? out (o + output)) >>= λ old.
          hold_from k (output + 1) count_in sound i o (set out (o + output) x))

  -- The loop over the channels with the rounds left.
  pub hold_channels : ℕ → ℕ → ℕ → AudioBuffer A → AudioBuffer A → Run (ℕ × AudioBuffer A)
  unfolding hold_from
  hold_channels zero c count_out sound out = ok (count_out, out)
  hold_channels (suc k) c count_out sound out =
      hold_from (size out) 0 sound.valid_size sound.samples (start sound c) (start out c)
        out.samples
      >>= λ r. hold_channels k (c + 1) r.0 sound (record out { samples = r.1 })

pub process_hold :
    {A : Type 0} (f : Doubles)
    → ResamplerHold f
    → AudioBuffer A
    → AudioBuffer A
    → Run (ℕ × AudioBuffer A)
unfolding hold_channels closest_sample
process_hold f r sound out =
    hold_channels (closest_sample f r) sound.channels 0 0 sound out >>= λ p.
    ok (p.0, set_valid_size p.0 p.1)

pub estimate_need : (f : Doubles) → ResamplerHold f → ℕ → ℕ
estimate_need f r out = f.round (f.times out r.factor)

pub estimate_out : (f : Doubles) → ResamplerHold f → ℕ → ℕ
estimate_out f r sound = f.round (f.times sound (f.ratio r.rate_out r.rate_in))

pub calculate_buffer_size : (f : Doubles) → ResamplerHold f → ℕ → ℕ
unfolding estimate_out
calculate_buffer_size f r initial_size = add32 (estimate_out f r initial_size) 10
