-- ===== src/Types/Audio/ResamplerLinear.antt =====
-- src/types/audio/resampler/TResamplerLinear.hpp: `ResamplerLinearTpl`. The state is the rates and
-- `mLastFrame`. What the floating point factor makes of an index is a parameter: `last_index` is the next
-- index of the input, `mixed` the sample between two for an index of the output, `closest` and
-- `closest_out` round the products with the factor and its inverse.
mod Tests
use tklb.Base.{
  ℕ, zero, suc, ◌+◌, Bool, true, List, get_elem?, set, replicate, ltb, if◌then◌else◌, Run, ok,
  ◌>>=◌, read, add32,
}
use tklb.Types.Audio.AudioBuffer.{AudioBuffer, size, start, set_valid_size}

pub record ResamplerLinear (A : Type 0) : Type 0 where
  pub rate_in : ℕ
  pub rate_out : ℕ
  pub last_frame : List A

-- `MAX_CHANNELS`.
abbrev pub max_channels : ℕ
max_channels = 32

module _ {A : Type 0} where
  pub init_linear : A → ℕ → ℕ → ResamplerLinear A → Bool × ResamplerLinear A
  init_linear zero_sample rate_in rate_out r = (
    true,
    record {
      rate_in = rate_in;
      rate_out = rate_out;
      last_frame = replicate max_channels zero_sample;
    },
  )

module _ {A : Type 0} (last_index : ℕ → ℕ) (mixed : ℕ → A → A → A) where
  -- The loop over `output` with the rounds left, for the channels that start at `i` and `o`: where it
  -- ends, the last sample, and the samples.
  pub mix_from : ℕ → ℕ → ℕ → A → List A → ℕ → ℕ → List A → Run (ℕ × A × List A)
  mix_from zero output count_in last sound i o out = ok (output, last, out)
  mix_from (suc k) output count_in last sound i o out =
      let index = last_index output in
      if ltb count_in index
      then ok (output, last, out)
      else (read (get_elem? sound (i + index)) >>= λ next.
          read (get_elem? out (o + output)) >>= λ old.
          mix_from k (output + 1) count_in next sound i o
            (set out (o + output) (mixed output last next)))

  -- The loop over the channels with the rounds left.
  pub mix_channels :
      ℕ
      → ℕ
      → ℕ
      → AudioBuffer A
      → AudioBuffer A
      → ResamplerLinear A
      → Run (ℕ × AudioBuffer A × ResamplerLinear A)
  unfolding mix_from
  mix_channels zero c count_out sound out r = ok (count_out, out, r)
  mix_channels (suc k) c count_out sound out r = read (get_elem? r.last_frame c) >>= λ last.
      mix_from (size out) 0 sound.valid_size last sound.samples (start sound c) (start out c)
        out.samples
      >>= λ m.
          mix_channels k (c + 1) m.0 sound (record out { samples = m.2 })
            (record r { last_frame = set r.last_frame c m.1 })

  pub process_linear :
      AudioBuffer A
      → AudioBuffer A
      → ResamplerLinear A
      → Run (ℕ × AudioBuffer A × ResamplerLinear A)
  unfolding mix_channels
  process_linear sound out r =
      mix_channels sound.channels 0 0 sound out r >>= λ m. ok (m.0, set_valid_size m.0 m.1, m.2)

-- `getLatency`.
pub latency_linear : ℕ
latency_linear = 1

pub estimate_need_linear : (ℕ → ℕ) → ℕ → ℕ
estimate_need_linear closest out = closest out

pub estimate_out_linear : (ℕ → ℕ) → ℕ → ℕ
estimate_out_linear closest_out sound = closest_out sound

pub buffer_size_linear : (ℕ → ℕ) → ℕ → ℕ
unfolding estimate_out_linear
buffer_size_linear closest_out sound = add32 (estimate_out_linear closest_out sound) 10
