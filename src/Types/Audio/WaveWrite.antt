-- ===== src/Types/Audio/WaveWrite.antt =====
-- src/types/audio/codec/TWave.hpp: `Wave::write`. dr_wav is a parameter, which Types/Audio/WaveWrite/DrWav
-- describes; `to_float` and `to_short` convert a sample. The arrays and the memory of `out.set` are taken
-- to be granted, and the arrays hold anything at first. A loop has fuel, and `none` is a run that has used
-- it up.
pub mod Options
pub mod DrWav
pub mod Loop
pub mod Write
pub mod Stall
mod Tests
use tklb.Base.{
  ℕ, zero, suc, ◌*◌, Bool, true, false, List, Option, none, some, ltb, if◌then◌else◌, Run, ok,
  ◌>>=◌, add64,
}
use tklb.Types.Audio.AudioBuffer.{AudioBuffer, put_interleaved}
use tklb.Types.Audio.WaveWrite.Options.{Format, pcm, ieee_float, other, WaveOptions}
use tklb.Types.Audio.WaveWrite.DrWav.{Encoder}

abbrev pub write_chunk_size : ℕ
write_chunk_size = 128

-- What `write` returns, the bytes in `out`, and whether dr_wav was told that it is done with.
pub record Written : Type 0 where
  pub success : Bool
  pub bytes : List ℕ
  pub uninit : Bool

module _ {A S W : Type 0} (convert : A → S) (write_frames : ℕ → List S → W → ℕ × W) where
  -- The loop of `write` for one format.
  pub write_loop : ℕ → W → List S → ℕ → AudioBuffer A → Run (Option W)
  write_loop zero wav interleaved written sound = ok none
  write_loop (suc fuel) wav interleaved written sound =
      if ltb written sound.valid_size
      then (put_interleaved convert interleaved write_chunk_size written 0 sound >>= λ p.
          let w = write_frames p.0 p.1 wav in write_loop fuel w.1 p.1 (add64 written w.0) sound)
      else ok (some wav)

module _ {A F S : Type 0} (d : Encoder F S) (to_float : A → F) (to_short : A → S) where
  pub finished : Option d.Wav → Option (Option d.Wav)
  finished none = none
  finished (some w) = some (some w)

  -- The `switch`; the inner `none` is the format it does not know.
  pub write_format :
      ℕ → Format → d.Wav → List F → List S → AudioBuffer A → Run (Option (Option d.Wav))
  unfolding write_loop finished
  write_format fuel ieee_float wav floats shorts sound =
      write_loop to_float d.write_floats fuel wav floats 0 sound >>= λ r. ok (finished r)
  write_format fuel pcm wav floats shorts sound =
      write_loop to_short d.write_shorts fuel wav shorts 0 sound >>= λ r. ok (finished r)
  write_format fuel other wav floats shorts sound = ok (some none)

  -- `out.set` of the memory, and the end.
  pub write_end : List ℕ → Option (Option d.Wav) → Option Written
  write_end bytes none = none
  write_end bytes (some none) = some (record { success = false; bytes = bytes; uninit = false })
  write_end bytes (some (some wav)) =
      some (record { success = true; bytes = d.memory wav; uninit = true })

  pub write_opened :
      ℕ
      → WaveOptions
      → AudioBuffer A
      → List F
      → List S
      → List ℕ
      → Option d.Wav
      → Run (Option Written)
  unfolding write_format write_end
  write_opened fuel options sound floats shorts bytes none =
      ok (some (record { success = false; bytes = bytes; uninit = false }))
  write_opened fuel options sound floats shorts bytes (some wav) =
      write_format fuel options.format wav floats shorts sound >>= λ r. ok (write_end bytes r)

  pub write_wave :
      ℕ → WaveOptions → ℕ → AudioBuffer A → List F → List S → List ℕ → Run (Option Written)
  unfolding write_opened
  write_wave fuel options sample_rate sound floats shorts bytes =
      write_opened fuel options sound floats shorts bytes
        (d.init_memory_write options sound.channels sample_rate)
