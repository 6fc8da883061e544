-- ===== src/Types/Audio/ResamplerHold/Tests.antt =====
-- `ResamplerHoldTpl` with fractions in place of floating point numbers.
use tklb.Base.{ℕ, ◌+◌, ◌*◌, ◌/◌, ◌<◌, ◌≡◌, refl, ap, sym, ◌∙◌, [], ◌∷◌, ok, arith}
use native.Mathlib.Nat.{div-mul-le_self, lt-div-mul-add, mul_assoc, mul_comm}
use tklb.Types.Audio.AudioBuffer.{AudioBuffer, size, start, set_valid_size}
use tklb.Types.Audio.AudioBuffer.Cells.{IsValid}
use tklb.Types.Audio.ResamplerHold.Floating.{Doubles, IsNearest, RoundsToNearest}
use tklb.Types.Audio.ResamplerHold.Nearest.{Resampled, process_hold-Resampled}
use tklb.Types.Audio.ResamplerHold.{
  ResamplerHold, init, closest_sample, process_hold, estimate_need, calculate_buffer_size,
}

abbrev rounded : ℕ × ℕ → ℕ
rounded x = (2 * x.0 + x.1) / (2 * x.1)

abbrev fractions : Doubles
fractions = record {
  Double = ℕ × ℕ;
  ratio = λ a b. (a, b);
  times = λ m x. (m * x.0, x.1);
  round = rounded;
}

rounded-IsNearest : (a b m : ℕ) → 0 < b → IsNearest a b m (rounded (m * a, b))
rounded-IsNearest a b m pos =
    let n = 2 * (m * a) + b in
    let k = n / (2 * b) in
    let even : k * (2 * b) ≡ 2 * (k * b) = twice k b in
    let low = div-mul-le_self n (2 * b) in
    let high = lt-div-mul-add {a = n} {b = 2 * b} (omega arith) in
    record { above = omega (arith, even, high); below = omega (arith, even, low) }
  where
    twice : (k b : ℕ) → k * (2 * b) ≡ 2 * (k * b)
    twice k b = sym (mul_assoc k 2 b) ∙ ap (λ n. n * b) (mul_comm k 2) ∙ mul_assoc 2 k b

fractions-RoundsToNearest : RoundsToNearest fractions
fractions-RoundsToNearest = record { nearest = λ a b m pos small fits. rounded-IsNearest a b m pos }

abbrev sound : AudioBuffer ℕ
sound = record { samples = 5 ∷ 6 ∷ []; valid_size = 2; channels = 1 }

abbrev output : AudioBuffer ℕ
output = record { samples = 0 ∷ 0 ∷ 0 ∷ 0 ∷ 9 ∷ []; valid_size = 0; channels = 1 }

abbrev fresh : ResamplerHold fractions
fresh = record { rate_in = 0; rate_out = 0; factor = (1, 1) }

sound-IsValid : IsValid sound
unfolding size
sound-IsValid = record { total = refl; fits = omega arith; valid = omega arith }

output-IsValid : IsValid output
unfolding size
output-IsValid = record { total = refl; fits = omega arith; valid = omega arith }

process_hold-Resampled_example :
    Resampled fractions fractions-RoundsToNearest sound 1 2 output
      (process_hold fractions (init fractions 1 2 fresh).1 sound output)
unfolding size
process_hold-Resampled_example =
    process_hold-Resampled fractions fractions-RoundsToNearest sound 1 2 fresh output sound-IsValid
      output-IsValid (omega arith) (omega arith) (omega arith) (omega arith) (omega arith)

-- The half between two samples goes up.
process_hold_example :
    process_hold fractions (init fractions 1 2 fresh).1 sound output
    ≡ ok (3, record { samples = 5 ∷ 6 ∷ 6 ∷ 0 ∷ 9 ∷ []; valid_size = 3; channels = 1 })
unfolding process_hold init closest_sample size start set_valid_size
process_hold_example = refl

init_example : (init fractions 44100 48000 fresh).1.rate_out ≡ 48000
unfolding init
init_example = refl

estimate_example : calculate_buffer_size fractions (init fractions 1 2 fresh).1 8 ≡ 26
unfolding calculate_buffer_size init
estimate_example = refl

need_example : estimate_need fractions (init fractions 1 2 fresh).1 8 ≡ 4
unfolding estimate_need init
need_example = refl
