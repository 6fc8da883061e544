-- ===== src/Types/Audio/Wave.antt =====
-- src/types/audio/codec/TWave.hpp: `Wave::load`. dr_wav is a parameter, which Types/Audio/Wave/DrWav
-- describes. `quiet` is a float that was just constructed; `convert` takes floats to samples. The chunk
-- buffer is taken to be granted. A loop has fuel, and `none` is a run that has used it up.
pub mod DrWav
pub mod Chunk
pub mod Load
pub mod Stall
mod Tests
use tklb.Base.{
  ℕ, zero, suc, ◌+◌, ◌*◌, ◌%◌, ◌^◌, Bool, true, false, List, ◌++◌, length, drop, replicate, Option,
  none, some, ltb, ◌==◌, if◌then◌else◌, Run, ok, ◌>>=◌, add32,
}
use tklb.Types.Audio.AudioBuffer.{AudioBuffer, resize, set_from_interleaved, set_valid_size}
use tklb.Types.Audio.Wave.DrWav.{Decoder}

-- `chunkSize`.
abbrev pub chunk_size : ℕ
chunk_size = 128

-- What a call of the library writes to the beginning of an array.
pub overwrite : {B : Type 0} → List B → List B → List B
overwrite new old = new ++ drop (length new) old

-- What `load` returns, the buffer and its `sampleRate`, and whether dr_wav was told that it is done with.
pub record Loaded (A : Type 0) : Type 0 where
  pub success : Bool
  pub buffer : AudioBuffer A
  pub sample_rate : ℕ
  pub uninit : Bool

module _ {A B : Type 0} (d : Decoder B) (convert : B → A) where
  -- The loop of `load`.
  pub load_loop : ℕ → d.Wav → List B → ℕ → AudioBuffer A → Run (Option (ℕ × AudioBuffer A))
  unfolding overwrite
  load_loop zero wav chunk read out = ok none
  load_loop (suc fuel) wav chunk read out =
      if ltb read (d.total wav)
      then (let got = d.read_frames chunk_size wav in
          let chunk' = overwrite got.1 chunk in
          set_from_interleaved convert chunk' got.0 (d.channels wav % 256) 0 read out >>= λ out'.
          load_loop fuel got.2 chunk' (add32 read got.0) out')
      else ok (some (read, out))

  -- What follows the loop.
  pub load_end : ℕ → Option (ℕ × AudioBuffer A) → Option (Loaded A)
  load_end rate none = none
  load_end rate (some (read, out)) =
      if read == 0
      then some (record { success = false; buffer = out; sample_rate = rate; uninit = false })
      else some (record {
        success = true;
        buffer = set_valid_size read out;
        sample_rate = rate;
        uninit = true;
      })

  pub load_opened :
      (ℕ → Bool) → A → ℕ → B → ℕ → AudioBuffer A → ℕ → Option d.Wav → Run (Option (Loaded A))
  unfolding load_loop load_end
  load_opened granted silence stride quiet fuel out rate none =
      ok (some (record { success = false; buffer = out; sample_rate = rate; uninit = false }))
  load_opened granted silence stride quiet fuel out rate (some wav) =
      load_loop fuel wav (replicate (chunk_size * d.channels wav) quiet) 0
        (resize granted silence stride (d.total wav % 2 ^ 32) (d.channels wav % 256) out).1
      >>= λ r. ok (load_end (d.sample_rate wav % 2 ^ 16) r)

  pub load_wave : (ℕ → Bool) → A → ℕ → B → ℕ → List ℕ → AudioBuffer A → ℕ → Run (Option (Loaded A))
  unfolding load_opened
  load_wave granted silence stride quiet fuel file out rate =
      load_opened granted silence stride quiet fuel out rate (d.open_memory file)
