-- ===== src/Types/Audio/WaveWrite/Tests.antt =====
-- `Wave::write` with a library that keeps what it is given in a list.
use tklb.Base.{
  true, ℕ, ◌*◌, refl, ap, sym, List, [], ◌∷◌, ◌++◌, take, length-replicate, replicate, some, arith,
}
use mathlib.Core.Bool.{true≢false}
use mathlib.Core.Option.{some-injective}
use tklb.Types.Audio.AudioBuffer.{AudioBuffer, size}
use tklb.Types.Audio.AudioBuffer.Cells.{IsValid}
use tklb.Types.Audio.WaveWrite.DrWav.{Encoder, WritesFrames, OpensEmpty}
use tklb.Types.Audio.WaveWrite.Options.{pcm, riff, WaveOptions}
use tklb.Types.Audio.WaveWrite.Write.{Writes, write_wave-Writes}
use tklb.Types.Audio.WaveWrite.{write_wave}

-- The size of a sample and the samples, of one channel.
abbrev append_to : ℕ → List ℕ → ℕ × List ℕ → ℕ × (ℕ × List ℕ)
append_to n xs w = (n, (w.0, w.1 ++ take (n * 1) xs))

abbrev mono_encoder : Encoder ℕ ℕ
mono_encoder = record {
  Wav = ℕ × List ℕ;
  init_memory_write = λ options chan rate. some (options.bits_per_sample, []);
  write_floats = append_to;
  write_shorts = append_to;
  bits = λ w. w.0;
  room = λ n w. true;
  memory = λ w. w.1;
}

abbrev mono_writes :
    (width : ℕ)
    → WritesFrames 1 width (λ (w : ℕ × List ℕ). w.0) (λ n (w : ℕ × List ℕ). true) append_to
mono_writes width = record {
  samples = λ w. w.1;
  taken = λ n xs w e room. refl;
  refused = λ n xs w none. absurd (true≢false none);
  appended = λ n xs w e room. refl;
  same_bits = λ n xs w. refl;
}

abbrev tune : AudioBuffer ℕ
tune = record { samples = 7 ∷ 8 ∷ 9 ∷ []; valid_size = 2; channels = 1 }

tune-IsValid : IsValid tune
unfolding size
tune-IsValid = record { total = refl; fits = omega arith; valid = omega arith }

mono_opens : OpensEmpty mono_encoder (λ w. w.1) (λ w. w.1)
mono_opens = record {
  bits = λ options chan rate w e.
      sym (ap (λ v. v.0) (some-injective (options.bits_per_sample, []) w e));
  no_floats = λ options chan rate w e.
      sym (ap (λ v. v.1) (some-injective (options.bits_per_sample, []) w e));
  no_shorts = λ options chan rate w e.
      sym (ap (λ v. v.1) (some-injective (options.bits_per_sample, []) w e));
}

abbrev as_pcm : WaveOptions
as_pcm = record { bits_per_sample = 16; container = riff; format = pcm }

abbrev same : ℕ → ℕ
same x = x

write_wave-Writes_example :
    Writes mono_encoder same same tune
      (mono_writes 32)
      (mono_writes 16)
      mono_opens
      (λ n w. refl)
      pcm
      (write_wave mono_encoder same same 3 as_pcm 48000 tune (replicate 128 0) (replicate 128 0) [])
write_wave-Writes_example =
    write_wave-Writes mono_encoder same same tune (mono_writes 32) (mono_writes 16) mono_opens
      (λ n w. refl) 3 as_pcm 48000 (replicate 128 0) (replicate 128 0) [] (16, []) tt refl
      tune-IsValid (omega arith) (omega (arith, length-replicate {A = ℕ} 128 0))
      (omega (arith, length-replicate {A = ℕ} 128 0)) refl (omega arith)
