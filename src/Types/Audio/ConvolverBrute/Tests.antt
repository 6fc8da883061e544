-- ===== src/Types/Audio/ConvolverBrute/Tests.antt =====
-- `ConvolverBruteTpl` at concrete inputs.
use tklb.Base.{ℕ, ◌+◌, ◌*◌, ◌≡◌, refl, Bool, [], ◌∷◌, ok, ltb, arith}
use native.Mathlib.Nat.{add-zero, zero-mul, mul-zero}
use tklb.Types.Audio.Samples.{sweep}
use tklb.Types.HeapBuffer.{closest_chunk_size}
use tklb.Types.Audio.AudioBuffer.{AudioBuffer, size, each_channel, start, set_buffer, resize}
use tklb.Types.Audio.AudioBuffer.Cells.{IsValid}
use tklb.Types.Audio.AudioBuffer.Channels.{Updated}
use tklb.Types.Audio.ConvolverBrute.{process, load}
use tklb.Types.Audio.ConvolverBrute.Frames.{HasZero}
use tklb.Types.Audio.ConvolverBrute.Process.{added, process-Updated}

abbrev plus : ℕ → ℕ → ℕ
plus a b = a + b

abbrev times : ℕ → ℕ → ℕ
times a b = a * b

abbrev loud : ℕ → Bool
loud x = ltb 0 x

abbrev response : AudioBuffer ℕ
response = record { samples = 1 ∷ 2 ∷ 0 ∷ []; valid_size = 3; channels = 1 }

abbrev input : AudioBuffer ℕ
input = record { samples = 3 ∷ 4 ∷ []; valid_size = 2; channels = 1 }

abbrev output : AudioBuffer ℕ
output = record { samples = 0 ∷ 0 ∷ 0 ∷ 7 ∷ 0 ∷ 0 ∷ 0 ∷ 0 ∷ []; valid_size = 0; channels = 2 }

response-IsValid : IsValid response
unfolding size
response-IsValid = record { total = refl; fits = omega arith; valid = omega arith }

input-IsValid : IsValid input
unfolding size
input-IsValid = record { total = refl; fits = omega arith; valid = omega arith }

output-IsValid : IsValid output
unfolding size
output-IsValid = record { total = refl; fits = omega arith; valid = omega arith }

zero_of_numbers : HasZero plus times 0
zero_of_numbers = record { plus_zero = add-zero; zero_times = zero-mul; times_zero = mul-zero }

process_example :
    process plus times response input output
    ≡ ok (record output { samples = 3 ∷ 10 ∷ 8 ∷ 7 ∷ 3 ∷ 10 ∷ 8 ∷ 0 ∷ [] })
unfolding process size each_channel start
process_example = refl

process-Updated_example :
    Updated
      (added plus times 0 zero_of_numbers response input)
      output
      0
      2
      (process plus times response input output)
unfolding size
process-Updated_example =
    process-Updated plus times 0 zero_of_numbers response input output response-IsValid
      input-IsValid output-IsValid (omega arith) (omega arith)

load_example :
    load loud (λ n. ltb n 9) 0 1 response input
    ≡ ok (record { samples = 1 ∷ 2 ∷ []; valid_size = 2; channels = 1 })
unfolding load size start resize set_buffer sweep closest_chunk_size
load_example = refl
