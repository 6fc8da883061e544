-- ===== src/Types/Audio/ResamplerLinear/Tests.antt =====
-- `ResamplerLinearTpl` at concrete inputs.
use tklb.Base.{ℕ, ◌+◌, ◌/◌, ◌≡◌, refl, [], ◌∷◌, ok, fault}
use tklb.Types.Audio.AudioBuffer.{AudioBuffer, size, start, set_valid_size}
use tklb.Types.Audio.ResamplerLinear.{
  ResamplerLinear, init_linear, process_linear, latency_linear, estimate_need_linear,
  buffer_size_linear,
}

abbrev half : ℕ → ℕ
half n = n / 2

abbrev middle : ℕ → ℕ → ℕ → ℕ
middle n last next = (last + next) / 2

abbrev sound : AudioBuffer ℕ
sound = record { samples = 4 ∷ 6 ∷ []; valid_size = 2; channels = 1 }

abbrev output : AudioBuffer ℕ
output = record { samples = 0 ∷ 0 ∷ 0 ∷ 0 ∷ []; valid_size = 0; channels = 1 }

abbrev longer : AudioBuffer ℕ
longer = record { samples = 0 ∷ 0 ∷ 0 ∷ 0 ∷ 0 ∷ []; valid_size = 0; channels = 1 }

abbrev fresh : ResamplerLinear ℕ
fresh = record { rate_in = 1; rate_out = 2; last_frame = 0 ∷ [] }

process_linear_example :
    process_linear half middle sound output fresh
    ≡ ok (
      4,
      record { samples = 2 ∷ 4 ∷ 5 ∷ 6 ∷ []; valid_size = 4; channels = 1 },
      record fresh { last_frame = 6 ∷ [] },
    )
unfolding process_linear size start set_valid_size
process_linear_example = refl

-- With room for one more sample the input is read behind its end.
process_linear_fault : process_linear half middle sound longer fresh ≡ fault
unfolding process_linear size start
process_linear_fault = refl

init_linear_example : (init_linear {A = ℕ} 0 1 2 fresh).1.rate_out ≡ 2
unfolding init_linear
init_linear_example = refl

estimate_example : buffer_size_linear half (estimate_need_linear half 8 + latency_linear) ≡ 12
unfolding buffer_size_linear estimate_need_linear latency_linear
estimate_example = refl
