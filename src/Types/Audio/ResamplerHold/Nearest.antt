-- ===== src/Types/Audio/ResamplerHold/Nearest.antt =====
-- `process` after `init`: each sample of the output is a nearest one of the input.
use tklb.Base.{ℕ, ◌+◌, ◌*◌, ◌^◌, ◌≤◌, ◌<◌, ◌≡◌, refl, ◌∙◌, ◌⊎◌, inl, inr, Run, ok, ◌>>=◌, arith}
use native.Mathlib.Nat.{mul-le-mul_right}
use tklb.Types.Audio.AudioBuffer.{AudioBuffer, size}
use tklb.Types.Audio.AudioBuffer.Cells.{
  IsValid, cell, size-valid_size, set_valid_size_lem, with_valid_size,
}
use tklb.Types.Audio.ResamplerHold.Channels.{end_of_le, hold_channels-HeldChannels}
use tklb.Types.Audio.ResamplerHold.Floating.{Doubles, IsNearest, RoundsToNearest}
use tklb.Types.Audio.ResamplerHold.Process.{end_of, end_of-stops, end_of-before}
use tklb.Types.Audio.ResamplerHold.{ResamplerHold, init, closest_sample, process_hold}

module _ {A : Type 0} (f : Doubles) (l : RoundsToNearest f) (sound : AudioBuffer A) where
  -- What `process` leaves in the output for these rates: `n` valid samples in each channel of the input,
  -- `index` says which sample of the input each is.
  pub record Resampled (rate_in rate_out : ℕ) (out : AudioBuffer A) (r : Run (ℕ × AudioBuffer A))
      : Type 0 where
    pub n : ℕ
    pub buffer : AudioBuffer A
    pub run : r ≡ ok (n, buffer)
    pub valid : IsValid buffer
    pub channels : buffer.channels ≡ out.channels
    pub size_kept : size buffer ≡ size out
    pub valid_size : buffer.valid_size ≡ n
    pub index : ℕ → ℕ
    pub nearest : (m : ℕ) → m ≤ size out → IsNearest rate_in rate_out m (index m)
    pub inside : (m : ℕ) → m < n → index m < sound.valid_size
    pub stops : (n ≡ size out) ⊎ (sound.valid_size ≤ index n)
    pub held : (d m : ℕ) → d < sound.channels → m < n → cell buffer d m ≡ cell sound d (index m)
    pub others :
        (d m : ℕ)
        → d < out.channels
        → m < size out
        → (sound.channels ≤ d) ⊎ (n ≤ m)
        → cell buffer d m ≡ cell out d m

  -- `process` after `init` with two rates, the second not 0, of a well formed input with a channel into a well
  -- formed output with at least its channels, where the size of the
  -- output times the first rate is below 2^50 and below 2^30 times the second, puts into each
  -- sample one of the input whose index is nearest to the sample's times the quotient of the rates. It ends at
  -- the first sample for which the input has none or the end of the output, which is the number it returns and
  -- the valid size; every other sample stays.
  pub process_hold-Resampled :
      (rate_in rate_out : ℕ) (r : ResamplerHold f) (out : AudioBuffer A)
      → IsValid sound
      → IsValid out
      → 0 < sound.channels
      → sound.channels ≤ out.channels
      → 0 < rate_out
      → size out * rate_in < 2 ^ 50
      → size out * rate_in < rate_out * 2 ^ 30
      → Resampled rate_in rate_out out (process_hold f (init f rate_in rate_out r).1 sound out)
  unfolding process_hold init closest_sample
  process_hold-Resampled rate_in rate_out r out vs v pos le rate exact fits =
      let closest : ℕ → ℕ = λ m. f.round (f.times m (f.ratio rate_in rate_out)) in
      let n = end_of closest (size out) 0 sound.valid_size in
      let h =
        hold_channels-HeldChannels closest sound sound.channels 0 n 0 out vs v (omega arith)
          (omega arith) refl in
      let counted : h.count ≡ n = h.counted (inr pos) in
      let room : n ≤ size h.buffer =
        omega (arith, h.size_kept, end_of_le closest (size out) 0 sound.valid_size) in
      let after = size-valid_size n h.buffer in
      record {
        n = n;
        buffer = record h.buffer { valid_size = n };
        run = rw (h.run, ◌>>=◌, counted, set_valid_size_lem n h.buffer room) refl;
        valid = with_valid_size h.buffer n h.valid room;
        channels = h.channels;
        size_kept = after ∙ h.size_kept;
        valid_size = refl;
        index = closest;
        nearest = λ m lm.
            l.nearest rate_in rate_out m rate (omega (arith, mul-le-mul_right rate_in lm))
              (omega (arith, mul-le-mul_right rate_in lm));
        inside = λ m lm. end_of-before closest (size out) 0 sound.valid_size m (omega arith) lm;
        stops = from_zero (end_of-stops closest (size out) 0 sound.valid_size);
        held = λ d m ld lm. rw after (h.held d m (omega arith) (omega arith) lm);
        others =
            λ d m ld lm away. rw after (h.others d m ld lm (outside sound.channels d m n away));
      }
    where
      from_zero : {n s : ℕ} {Q : Type 0} → (n ≡ 0 + s) ⊎ Q → (n ≡ s) ⊎ Q
      from_zero (inl e) = inl (omega arith)
      from_zero (inr q) = inr q

      outside : (k d m n : ℕ) → (k ≤ d) ⊎ (n ≤ m) → (d < 0) ⊎ (0 + k ≤ d) ⊎ (n ≤ m)
      outside k d m n (inl h) = inr (inl (omega arith))
      outside k d m n (inr h) = inr (inr h)
