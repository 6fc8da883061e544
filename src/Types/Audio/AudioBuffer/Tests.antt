-- ===== src/Types/Audio/AudioBuffer/Tests.antt =====
-- `AudioBufferTpl` at concrete inputs.
use tklb.Base.{ℕ, ◌+◌, ◌-◌, ◌*◌, ◌/◌, ◌≡◌, refl, Bool, true, [], ◌∷◌, if◌then◌else◌, ok, arith}
use tklb.Types.Audio.Samples.{sweep, alter, joined}
use tklb.Types.HeapBuffer.{closest_chunk_size}
use tklb.Types.Audio.AudioBuffer.{
  AudioBuffer, empty_buffer, size, set_value, apply_value, inject, set_arrays, set_buffer,
  set_from_interleaved, put_array, put_arrays, get_raw, put_interleaved, combine, resize,
  resize_length, clone,
}
use tklb.Types.Audio.AudioBuffer.Cells.{IsValid, cell}
use tklb.Types.Audio.AudioBuffer.Channels.{Updated, within}
use tklb.Types.Audio.AudioBuffer.Copy.{set_buffer-Updated, combine-Updated, copied, combined}
use tklb.Types.Audio.AudioBuffer.Resize.{Reshaped, resize-Reshaped}
use tklb.Types.Audio.AudioBuffer.RoundTrip.{ReadBack, put_interleaved-set_from_interleaved}

-- Two channels of three samples, two of them valid.
abbrev stereo : AudioBuffer ℕ
stereo = record { samples = 1 ∷ 2 ∷ 3 ∷ 4 ∷ 5 ∷ 6 ∷ []; valid_size = 2; channels = 2 }

-- One channel of two samples.
abbrev mono : AudioBuffer ℕ
mono = record { samples = 7 ∷ 8 ∷ []; valid_size = 2; channels = 1 }

stereo-IsValid : IsValid stereo
unfolding size
stereo-IsValid = record { total = refl; fits = omega arith; valid = omega arith }

mono-IsValid : IsValid mono
unfolding size
mono-IsValid = record { total = refl; fits = omega arith; valid = omega arith }

abbrev same : ℕ → ℕ
same x = x

abbrev sum : ℕ → ℕ → ℕ
sum y x = y + x

abbrev always : ℕ → Bool
always n = true

set_buffer_example :
    set_buffer same mono 0 0 1 stereo
    ≡ ok (record { samples = 1 ∷ 7 ∷ 8 ∷ 4 ∷ 5 ∷ 6 ∷ []; valid_size = 2; channels = 2 })
unfolding set_buffer sweep
set_buffer_example = refl

set_from_interleaved_example :
    set_from_interleaved same (1 ∷ 2 ∷ 3 ∷ 4 ∷ []) 2 2 0 0 stereo
    ≡ ok (record { samples = 1 ∷ 3 ∷ 3 ∷ 2 ∷ 4 ∷ 6 ∷ []; valid_size = 2; channels = 2 })
unfolding set_from_interleaved sweep
set_from_interleaved_example = refl

put_interleaved_example :
    put_interleaved same (0 ∷ 0 ∷ 0 ∷ 0 ∷ []) 0 0 0 stereo ≡ ok (2, 1 ∷ 4 ∷ 2 ∷ 5 ∷ [])
unfolding put_interleaved sweep
put_interleaved_example = refl

set_buffer-Updated_example :
    Updated
      (λ d i old.
        if within 1 (1 + copied same mono 0 1 stereo) i
        then joined (λ y x. same x) old (cell mono d (0 + (i - 1)))
        else old)
      stereo
      0
      1
      (set_buffer same mono 0 0 1 stereo)
unfolding size
set_buffer-Updated_example =
    set_buffer-Updated same mono 0 0 1 stereo mono-IsValid stereo-IsValid (omega arith)
      (omega arith)

-- A length of one, and yet both valid samples are added.
combine_example :
    combine sum mono 1 0 0 stereo
    ≡ ok (record { samples = 8 ∷ 10 ∷ 3 ∷ 4 ∷ 5 ∷ 6 ∷ []; valid_size = 2; channels = 2 })
unfolding combine sweep
combine_example = refl

combine-Updated_example :
    Updated
      (λ d i old.
        if within 0 (0 + combined sum mono 0 0 stereo) i
        then joined sum old (cell mono d (0 + (i - 0)))
        else old)
      stereo
      0
      1
      (combine sum mono 1 0 0 stereo)
combine-Updated_example =
    combine-Updated sum mono 1 0 0 stereo mono-IsValid stereo-IsValid (omega arith) (omega arith)

resize-Reshaped_example : Reshaped 5 3 4 (resize always 0 4 5 3 stereo)
unfolding closest_chunk_size
resize-Reshaped_example =
    resize-Reshaped always 0 4 5 3 stereo (λ n. refl) stereo-IsValid (omega arith) (omega arith)
      (omega arith)

abbrev doubled : ℕ → ℕ
doubled x = 2 * x

abbrev halved : ℕ → ℕ
halved x = x / 2

halved-doubled : (x : ℕ) → halved (doubled x) ≡ x
halved-doubled x = omega arith

put_interleaved-set_from_interleaved_example :
    ReadBack doubled halved halved-doubled
      (1 ∷ 2 ∷ 3 ∷ 4 ∷ 5 ∷ 6 ∷ [])
      (0 ∷ 0 ∷ 0 ∷ 0 ∷ 0 ∷ [])
      2
      stereo
unfolding size
put_interleaved-set_from_interleaved_example =
    put_interleaved-set_from_interleaved doubled halved halved-doubled (1 ∷ 2 ∷ 3 ∷ 4 ∷ 5 ∷ 6 ∷ [])
      (0 ∷ 0 ∷ 0 ∷ 0 ∷ 0 ∷ []) 2 stereo stereo-IsValid (omega arith) (omega arith) (omega arith)
      (omega arith)

set_value_example :
    set_value 9 0 1 stereo
    ≡ ok (record { samples = 1 ∷ 9 ∷ 9 ∷ 4 ∷ 9 ∷ 9 ∷ []; valid_size = 2; channels = 2 })
unfolding set_value alter
set_value_example = refl

apply_value_example :
    apply_value (λ y. y * 10) stereo
    ≡ ok (record { samples = 10 ∷ 20 ∷ 3 ∷ 40 ∷ 50 ∷ 6 ∷ []; valid_size = 2; channels = 2 })
unfolding apply_value alter
apply_value_example = refl

set_arrays_example :
    set_arrays same ((9 ∷ 9 ∷ []) ∷ (8 ∷ 8 ∷ []) ∷ []) 2 0 0 0 stereo
    ≡ ok (record { samples = 9 ∷ 9 ∷ 3 ∷ 8 ∷ 8 ∷ 6 ∷ []; valid_size = 2; channels = 2 })
unfolding set_arrays sweep
set_arrays_example = refl

put_array_example : put_array same (0 ∷ 0 ∷ []) 0 1 0 stereo ≡ ok (2, 4 ∷ 5 ∷ [])
unfolding put_array sweep
put_array_example = refl

put_arrays_example :
    put_arrays same ((0 ∷ 0 ∷ []) ∷ (0 ∷ 0 ∷ []) ∷ []) 0 0 1 stereo
    ≡ ok (1, (2 ∷ 0 ∷ []) ∷ (5 ∷ 0 ∷ []) ∷ [])
unfolding put_arrays sweep
put_arrays_example = refl

get_raw_example : get_raw (9 ∷ 9 ∷ 9 ∷ []) stereo ≡ ok (0 ∷ 3 ∷ 9 ∷ [])
unfolding get_raw
get_raw_example = refl

inject_example : (inject true (1 ∷ 2 ∷ 3 ∷ []) 3 stereo).valid_size ≡ 1
unfolding inject
inject_example = refl

resize_length_example : size {A = ℕ} (resize_length {A = ℕ} always 0 4 5 empty_buffer) ≡ 8
unfolding size resize_length empty_buffer closest_chunk_size
resize_length_example = refl

clone_example :
    clone always 0 1 same mono stereo
    ≡ ok (record { samples = 7 ∷ 8 ∷ []; valid_size = 2; channels = 1 })
unfolding clone sweep closest_chunk_size
clone_example = refl
