-- ===== src/Types/Audio/Vorbis.antt =====
-- src/types/audio/codec/TVorbis.hpp: `vorbis::load`. stb_vorbis is a parameter, which Types/Audio/Vorbis/Stb
-- describes; `convert` takes its floats to samples. The array of pointers is taken to be granted. The loop
-- has fuel, and `none` is a run that has used it up.
pub mod Stb
pub mod Frames
pub mod Floats
mod Tests
use tklb.Base.{
  ℕ, zero, suc, ◌+◌, ◌*◌, ◌%◌, ◌^◌, Bool, true, false, List, replicate, Option, none, some, ltb,
  ◌==◌, if◌then◌else◌, Run, ok, ◌>>=◌, add32,
}
use tklb.Types.Audio.AudioBuffer.{AudioBuffer, resize, get_raw, set_arrays, set_valid_size}
use tklb.Types.Audio.Vorbis.Stb.{VorbisDecoder}

-- What `load` returns, the buffer and its `sampleRate`, and whether stb_vorbis was closed.
pub record VorbisLoaded (A : Type 0) : Type 0 where
  pub success : Bool
  pub buffer : AudioBuffer A
  pub sample_rate : ℕ
  pub closed : Bool

module _ {A B : Type 0} (d : VorbisDecoder B) (convert : B → A) where
  -- The loop, for samples that are not floats.
  pub frames_loop : ℕ → d.Vorbis → ℕ → ℕ → AudioBuffer A → Run (Option (ℕ × AudioBuffer A))
  frames_loop zero vorbis stream_length read out = ok none
  frames_loop (suc fuel) vorbis stream_length read out =
      if ltb read stream_length
      then (let frame = d.get_frame vorbis in
          set_arrays convert frame.2 frame.0 (frame.1 % 256) 0 read out >>= λ out'.
          frames_loop fuel frame.3 stream_length (add32 read frame.0) out')
      else ok (some (read, out))

  pub frames_end : ℕ → Option (ℕ × AudioBuffer A) → Option (VorbisLoaded A)
  frames_end rate none = none
  frames_end rate (some (read, out)) = some (record {
    success = if read == 0 then false else true;
    buffer = set_valid_size read out;
    sample_rate = rate;
    closed = true;
  })

  pub load_vorbis :
      (ℕ → Bool) → A → ℕ → ℕ → List ℕ → AudioBuffer A → ℕ → Run (Option (VorbisLoaded A))
  unfolding frames_loop frames_end
  load_vorbis granted silence stride fuel file out rate =
      let opened = d.open_memory file in
      let vorbis = opened.1 in
      let stream_length = d.stream_length vorbis in
      if opened.0 == 0
      then (frames_loop fuel vorbis stream_length 0
            (resize granted silence stride stream_length (d.channels vorbis % 256) out).1
          >>= λ r. ok (frames_end (d.sample_rate vorbis % 2 ^ 16) r))
      else ok (some (record { success = false; buffer = out; sample_rate = rate; closed = true }))

module _ {B : Type 0} (d : VorbisDecoder B) where
  -- What `get_samples` leaves, and the end.
  pub samples_end : ℕ → ℕ → AudioBuffer B → ℕ × List B → VorbisLoaded B
  samples_end rate stream_length out (got, samples) = record {
    success = got == stream_length;
    buffer = set_valid_size got (record out { samples = samples });
    sample_rate = rate;
    closed = true;
  }

  -- `load` for floats; `nowhere` is a null pointer.
  pub load_vorbis_float : (ℕ → Bool) → B → ℕ → ℕ → List ℕ → AudioBuffer B → ℕ → Run (VorbisLoaded B)
  unfolding samples_end
  load_vorbis_float granted silence stride nowhere file out rate =
      let opened = d.open_memory file in
      let vorbis = opened.1 in
      let stream_length = d.stream_length vorbis in
      let out' = (resize granted silence stride stream_length (d.channels vorbis % 256) out).1 in
      if opened.0 == 0
      then (get_raw (replicate (d.channels vorbis) nowhere) out' >>= λ pointers. ok (
          samples_end (d.sample_rate vorbis % 2 ^ 16) stream_length out'
            (d.get_samples (d.channels vorbis) pointers stream_length out'.samples vorbis)))
      else ok (record { success = false; buffer = out; sample_rate = rate; closed = true })
