-- ===== src/Types/Audio/WaveWrite/Write.antt =====
-- `Wave::write` gives the library exactly the valid frames.
use tklb.Base.{
  Bool, ℕ, ◌*◌, ◌≤◌, ◌<◌, ◌≡◌, refl, ap, ◌∙◌, true, List, [], length, Option, some, Run, ok, ◌>>=◌,
  arith,
}
use tklb.Types.Audio.AudioBuffer.{AudioBuffer}
use tklb.Types.Audio.AudioBuffer.Cells.{IsValid}
use tklb.Types.Audio.WaveWrite.DrWav.{Encoder, WritesFrames, OpensEmpty}
use tklb.Types.Audio.WaveWrite.Loop.{HasFrames, write_loop-Encodes}
use tklb.Types.Audio.WaveWrite.Options.{Format, pcm, ieee_float, other, WaveOptions}
use tklb.Types.Audio.WaveWrite.{
  finished, write_opened, write_end, write_chunk_size, write_format, Written, write_wave,
}

-- The width of the array that `write` takes for a format.
abbrev pub sample_bits : Format → ℕ
sample_bits pcm = 16
sample_bits f = 32

abbrev pub IsKnown : Format → Type 0
IsKnown other = ⊥
IsKnown f = Unit

-- A library without samples has the first 0 frames.
nothing :
    {A S W : Type 0} (convert : A → S) (write_frames : ℕ → List S → W → ℕ × W)
    {sound : AudioBuffer A} (width : ℕ) {bits : W → ℕ} {has_room : ℕ → W → Bool}
    (l : WritesFrames sound.channels width bits has_room write_frames)
    (granted : (n : ℕ) (w : W) → has_room n w ≡ true) (w : W)
    → bits w ≡ width
    → l.samples w ≡ []
    → HasFrames convert write_frames sound width bits has_room l granted 0 w
nothing convert write_frames width l granted w wide empty = record {
  wide = wide;
  whole = omega (arith, ap length empty);
  cells = λ c i lc li. absurd (omega arith);
}

module _ {A F S : Type 0} (d : Encoder F S) (to_float : A → F) (to_short : A → S)
    (sound : AudioBuffer A) (fl : WritesFrames sound.channels 32 d.bits d.room d.write_floats)
    (sh : WritesFrames sound.channels 16 d.bits d.room d.write_shorts)
    (opens : OpensEmpty d fl.samples sh.samples)
    (granted : (n : ℕ) (w : d.Wav) → d.room n w ≡ true) where
  -- What a library holds at the end.
  pub Holds : Format → d.Wav → Type 0
  Holds pcm w =
      HasFrames to_short d.write_shorts sound 16 d.bits d.room sh granted sound.valid_size w
  Holds f w = HasFrames to_float d.write_floats sound 32 d.bits d.room fl granted sound.valid_size w

  pub record Writes (format : Format) (r : Run (Option Written)) : Type 0 where
    pub wav : d.Wav
    pub run : r ≡ ok (some (record { success = true; bytes = d.memory wav; uninit = true }))
    pub holds : Holds format wav

  write_wave-format :
      (fuel : ℕ) (options : WaveOptions) (rate : ℕ) (floats : List F) (shorts : List S)
      (bytes : List ℕ) (w w' : d.Wav)
      → d.init_memory_write options sound.channels rate ≡ some w
      → write_format d to_float to_short fuel options.format w floats shorts sound
        ≡ ok (some (some w'))
      → write_wave d to_float to_short fuel options rate sound floats shorts bytes
        ≡ ok (some (record { success = true; bytes = d.memory w'; uninit = true }))
  unfolding write_wave write_opened write_end
  write_wave-format fuel options rate floats shorts bytes w w' e₁ e₂ = rw (e₁, e₂, ◌>>=◌) refl

  write_wave_known :
      (format : Format) (fuel : ℕ) (options : WaveOptions) (rate : ℕ) (floats : List F)
      (shorts : List S) (bytes : List ℕ) (w : d.Wav)
      → IsKnown format
      → options.format ≡ format
      → options.bits_per_sample ≡ sample_bits format
      → IsValid sound
      → 0 < sound.channels
      → write_chunk_size * sound.channels ≤ length floats
      → write_chunk_size * sound.channels ≤ length shorts
      → d.init_memory_write options sound.channels rate ≡ some w
      → sound.valid_size < fuel
      → Writes format (write_wave d to_float to_short fuel options rate sound floats shorts bytes)
  unfolding Holds write_format finished
  write_wave_known ieee_float fuel options rate floats shorts bytes w known same e v pos room₁ room₂
        opened enough =
      let none_yet =
        nothing to_float d.write_floats 32 fl granted w
          (opens.bits options sound.channels rate w opened ∙ e)
          (opens.no_floats options sound.channels rate w opened) in
      let l =
        write_loop-Encodes to_float d.write_floats sound 32 d.bits d.room fl granted fuel w floats 0
          v pos room₁ (omega arith) (omega arith) none_yet in
      record {
        wav = l.wav;
        run =
            write_wave-format fuel options rate floats shorts bytes w l.wav opened
              (rw (same, l.run, ◌>>=◌) refl);
        holds = l.frames;
      }
  write_wave_known pcm fuel options rate floats shorts bytes w known same e v pos room₁ room₂ opened
        enough =
      let none_yet =
        nothing to_short d.write_shorts 16 sh granted w
          (opens.bits options sound.channels rate w opened ∙ e)
          (opens.no_shorts options sound.channels rate w opened) in
      let l =
        write_loop-Encodes to_short d.write_shorts sound 16 d.bits d.room sh granted fuel w shorts 0
          v pos room₂ (omega arith) (omega arith) none_yet in
      record {
        wav = l.wav;
        run =
            write_wave-format fuel options rate floats shorts bytes w l.wav opened
              (rw (same, l.run, ◌>>=◌) refl);
        holds = l.frames;
      }
  write_wave_known other fuel options rate floats shorts bytes w known same e v pos room₁ room₂
        opened enough =
      absurd known

  -- Where the format is one of the two, the bits of a sample are those of the array that `write` takes for
  -- it, 32 for floats and 16 for integers, the array holds 128 frames, the sound is well formed and has a
  -- channel, dr_wav opens, and the memory that it writes to has room whenever it has to grow, `write` ends
  -- with success and closes the library, which has exactly the valid frames, interleaved and converted;
  -- what is handed out is its memory.
  pub write_wave-Writes :
      (fuel : ℕ) (options : WaveOptions) (rate : ℕ) (floats : List F) (shorts : List S)
      (bytes : List ℕ) (w : d.Wav)
      → IsKnown options.format
      → options.bits_per_sample ≡ sample_bits options.format
      → IsValid sound
      → 0 < sound.channels
      → write_chunk_size * sound.channels ≤ length floats
      → write_chunk_size * sound.channels ≤ length shorts
      → d.init_memory_write options sound.channels rate ≡ some w
      → sound.valid_size < fuel
      → Writes options.format
          (write_wave d to_float to_short fuel options rate sound floats shorts bytes)
  write_wave-Writes fuel options rate floats shorts bytes w known =
      write_wave_known options.format fuel options rate floats shorts bytes w known refl
