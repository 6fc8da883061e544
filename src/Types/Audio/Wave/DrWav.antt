-- ===== src/Types/Audio/Wave/DrWav.antt =====
-- dr_wav as src/types/audio/codec/TWave.hpp uses it for reading.
use tklb.Base.{ℕ, ◌-◌, ◌*◌, ◌≡◌, min, List, length, take, drop, Option}

-- `drwav` and the functions on it; reading gives the number of frames, their samples and what is left.
pub record Decoder (B : Type 0) : Type 1 where
  pub Wav : Type 0
  pub open_memory : List ℕ → Option Wav
  pub channels : Wav → ℕ
  pub sample_rate : Wav → ℕ
  pub total : Wav → ℕ
  pub read_frames : ℕ → Wav → ℕ × List B × Wav

-- What dr_wav documents: a read gives the frames that are asked for, or the rest where there are fewer,
-- interleaved, and goes on behind them. A file may hold other than the `total` its header says.
pub record ReadsFrames {B : Type 0} (d : Decoder B) : Type 0 where
  pub left : d.Wav → ℕ
  pub frames : d.Wav → List B
  pub whole : (w : d.Wav) → length (frames w) ≡ left w * d.channels w
  pub got : (n : ℕ) (w : d.Wav) → (d.read_frames n w).0 ≡ min n (left w)
  pub samples :
      (n : ℕ) (w : d.Wav) → (d.read_frames n w).1 ≡ take (min n (left w) * d.channels w) (frames w)
  pub left_behind : (n : ℕ) (w : d.Wav) → left ((d.read_frames n w).2) ≡ left w - min n (left w)
  pub behind :
      (n : ℕ) (w : d.Wav)
      → frames ((d.read_frames n w).2) ≡ drop (min n (left w) * d.channels w) (frames w)
  pub same_channels : (n : ℕ) (w : d.Wav) → d.channels ((d.read_frames n w).2) ≡ d.channels w
  pub same_total : (n : ℕ) (w : d.Wav) → d.total ((d.read_frames n w).2) ≡ d.total w
