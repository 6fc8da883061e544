-- ===== src/Types/Audio/Wave/Tests.antt =====
-- `Wave::load` with a decoder that reads two channels from a list.
use tklb.Base.{
  ℕ, ◌*◌, ◌≡◌, refl, true, false, List, [], ◌∷◌, length, length-drop, take, drop, Option, none,
  some, min, ok, arith,
}
use tklb.Types.HeapBuffer.{closest_chunk_size}
use tklb.Types.Audio.AudioBuffer.{AudioBuffer, size}
use tklb.Types.Audio.AudioBuffer.Cells.{IsValid}
use tklb.Types.Audio.Wave.DrWav.{Decoder, ReadsFrames}
use tklb.Types.Audio.Wave.{load_wave}
use tklb.Types.Audio.Wave.Load.{Loads, load_wave-Loads}
use tklb.Types.Audio.Wave.Stall.{load_wave-none}

-- A file is the number of frames its header says, and the samples; it has one channel.
abbrev opened_file : List ℕ → Option (ℕ × List ℕ)
opened_file [] = none
opened_file (n ∷ samples) = some (n, samples)

abbrev mono_files : Decoder ℕ
mono_files = record {
  Wav = ℕ × List ℕ;
  open_memory = opened_file;
  channels = λ w. 1;
  sample_rate = λ w. 44100;
  total = λ w. w.0;
  read_frames = λ n w. (
    min n (length w.1),
    take (min n (length w.1) * 1) w.1,
    (w.0, drop (min n (length w.1) * 1) w.1),
  );
}

abbrev mono_frames : ReadsFrames mono_files
mono_frames = record {
  left = λ w. length w.1;
  frames = λ w. w.1;
  whole = λ w. omega arith;
  got = λ n w. refl;
  samples = λ n w. refl;
  left_behind = λ n w. omega (arith, length-drop (min n (length w.1) * 1) w.1);
  behind = λ n w. refl;
  same_channels = λ n w. refl;
  same_total = λ n w. refl;
}

abbrev same : ℕ → ℕ
same x = x

abbrev vacant : AudioBuffer ℕ
vacant = record { samples = []; valid_size = 0; channels = 0 }

vacant-IsValid : IsValid vacant
unfolding size
vacant-IsValid = record { total = refl; fits = omega arith; valid = omega arith }

load_wave-Loads_example :
    Loads mono_files same mono_frames
      (2, 7 ∷ 8 ∷ [])
      (load_wave mono_files same (λ n. true) 0 1 0 3 (2 ∷ 7 ∷ 8 ∷ []) vacant 0)
unfolding closest_chunk_size
load_wave-Loads_example =
    load_wave-Loads mono_files same mono_frames (λ n. true) 0 1 0 3 (2 ∷ 7 ∷ 8 ∷ []) vacant 0
      (2, 7 ∷ 8 ∷ []) (λ n. refl) vacant-IsValid refl refl (omega arith) (omega arith) (omega arith)
      (omega arith) (omega arith) (omega arith)

load_wave-none_example :
    load_wave mono_files same (λ n. true) 0 1 0 1000 (2 ∷ 7 ∷ []) vacant 0 ≡ ok none
unfolding closest_chunk_size
load_wave-none_example =
    load_wave-none mono_files same mono_frames (λ n. true) 0 1 0 1000 (2 ∷ 7 ∷ []) vacant 0
      (2, 7 ∷ []) (λ n. refl) vacant-IsValid refl (omega arith) (omega arith) (omega arith)
      (omega arith) (omega arith)

-- A file that cannot be opened.
load_wave_example :
    load_wave mono_files same (λ n. true) 0 1 0 3 [] vacant 48000
    ≡ ok (some (record { success = false; buffer = vacant; sample_rate = 48000; uninit = false }))
unfolding load_wave
load_wave_example = refl
