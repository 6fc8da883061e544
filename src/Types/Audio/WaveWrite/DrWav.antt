-- ===== src/Types/Audio/WaveWrite/DrWav.antt =====
-- dr_wav as src/types/audio/codec/TWave.hpp uses it for writing.
use tklb.Base.{Bool, true, false, ℕ, ◌*◌, ◌≡◌, List, [], ◌++◌, take, Option, some}
use tklb.Types.Audio.WaveWrite.Options.{WaveOptions}

-- `drwav` for writing floats or shorts: `bits` is the size of a sample it was opened with, `memory` what stands
-- in the memory that it writes to, and `room` whether this memory can be made larger for so many frames.
pub record Encoder (F S : Type 0) : Type 1 where
  pub Wav : Type 0
  pub init_memory_write : WaveOptions → ℕ → ℕ → Option Wav
  pub write_floats : ℕ → List F → Wav → ℕ × Wav
  pub write_shorts : ℕ → List S → Wav → ℕ × Wav
  pub bits : Wav → ℕ
  pub room : ℕ → Wav → Bool
  pub memory : Wav → List ℕ

-- What dr_wav documents of a write of frames of `chan` channels: it returns the number of frames it has
-- written. Where its samples are as wide as those of the array, `width` bits, these are all of them, behind
-- those it has, if the memory has room, and none if it has not.
pub record WritesFrames {S W : Type 0} (chan width : ℕ) (bits : W → ℕ) (room : ℕ → W → Bool)
    (write_frames : ℕ → List S → W → ℕ × W) : Type 0 where
  pub samples : W → List S
  pub taken :
      (n : ℕ) (xs : List S) (w : W) → bits w ≡ width → room n w ≡ true → (write_frames n xs w).0 ≡ n
  pub refused : (n : ℕ) (xs : List S) (w : W) → room n w ≡ false → (write_frames n xs w).0 ≡ 0
  pub appended :
      (n : ℕ) (xs : List S) (w : W)
      → bits w ≡ width
      → room n w ≡ true
      → samples ((write_frames n xs w).1) ≡ samples w ++ take (n * chan) xs
  pub same_bits : (n : ℕ) (xs : List S) (w : W) → bits ((write_frames n xs w).1) ≡ bits w

-- A library that was just opened has the size it is told and no samples.
pub record OpensEmpty {F S : Type 0} (d : Encoder F S) (floats : d.Wav → List F)
    (shorts : d.Wav → List S) : Type 0 where
  pub bits :
      (options : WaveOptions) (chan rate : ℕ) (w : d.Wav)
      → d.init_memory_write options chan rate ≡ some w
      → d.bits w ≡ options.bits_per_sample
  pub no_floats :
      (options : WaveOptions) (chan rate : ℕ) (w : d.Wav)
      → d.init_memory_write options chan rate ≡ some w
      → floats w ≡ []
  pub no_shorts :
      (options : WaveOptions) (chan rate : ℕ) (w : d.Wav)
      → d.init_memory_write options chan rate ≡ some w
      → shorts w ≡ []
