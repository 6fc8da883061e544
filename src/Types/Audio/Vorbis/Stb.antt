-- ===== src/Types/Audio/Vorbis/Stb.antt =====
-- stb_vorbis as src/types/audio/codec/TVorbis.hpp uses it.
use tklb.Base.{ℕ, ◌+◌, ◌-◌, ◌≤◌, ◌<◌, ◌≡◌, min, List, length, get_elem?, Option, some}
use tklb.Types.Audio.AudioBuffer.Arrays.{HasArrays, sample_in}

-- `stb_vorbis` and the functions on it. Opening gives an error code, where 0 is none; `get_frame` the number
-- of samples, of channels, and the arrays; `get_samples` the number of samples that it has written through
-- the pointers, which are indices into the memory.
pub record VorbisDecoder (B : Type 0) : Type 1 where
  pub Vorbis : Type 0
  pub open_memory : List ℕ → ℕ × Vorbis
  pub channels : Vorbis → ℕ
  pub sample_rate : Vorbis → ℕ
  pub stream_length : Vorbis → ℕ
  pub get_frame : Vorbis → ℕ × ℕ × List (List B) × Vorbis
  pub get_samples : ℕ → List ℕ → ℕ → List B → Vorbis → ℕ × List B

-- What stb_vorbis documents of `get_frame`: where samples are left it gives some of them, of every channel,
-- and goes on behind them. `sample v c i` is the sample `i` of those that are left of the channel `c`.
pub record DecodesFrames {B : Type 0} (d : VorbisDecoder B) : Type 0 where
  pub left : d.Vorbis → ℕ
  pub sample : d.Vorbis → ℕ → ℕ → Option B
  pub some_left : (v : d.Vorbis) → 0 < left v → 0 < (d.get_frame v).0
  pub no_more : (v : d.Vorbis) → (d.get_frame v).0 ≤ left v
  pub all_channels : (v : d.Vorbis) → (d.get_frame v).1 ≡ d.channels v
  pub arrays : (v : d.Vorbis) → HasArrays (d.get_frame v).2 (d.channels v) (d.get_frame v).0
  pub samples :
      (v : d.Vorbis) (c i : ℕ)
      → c < d.channels v
      → i < (d.get_frame v).0
      → sample_in (get_elem? (d.get_frame v).2 c) i ≡ sample v c i
  pub left_behind : (v : d.Vorbis) → left (d.get_frame v).3 ≡ left v - (d.get_frame v).0
  pub behind :
      (v : d.Vorbis) (c i : ℕ) → sample (d.get_frame v).3 c i ≡ sample v c ((d.get_frame v).0 + i)
  pub same_channels : (v : d.Vorbis) → d.channels (d.get_frame v).3 ≡ d.channels v

-- What it documents of `get_samples`: as many samples as are asked for or left are written behind each pointer,
-- where the memory has room for them, and nothing else.
pub record DecodesSamples {B : Type 0} (d : VorbisDecoder B) : Type 0 where
  pub left : d.Vorbis → ℕ
  pub sample : d.Vorbis → ℕ → ℕ → Option B
  pub got :
      (chan n : ℕ) (pointers : List ℕ) (mem : List B) (v : d.Vorbis)
      → (d.get_samples chan pointers n mem v).0 ≡ min n (left v)
  pub same_length :
      (chan n : ℕ) (pointers : List ℕ) (mem : List B) (v : d.Vorbis)
      → length (d.get_samples chan pointers n mem v).1 ≡ length mem
  pub written :
      (n : ℕ) (pointers : List ℕ) (mem : List B) (v : d.Vorbis)
      → ((c e p q : ℕ)
          → c < e
          → e < d.channels v
          → get_elem? pointers c ≡ some p
          → get_elem? pointers e ≡ some q
          → p + n ≤ q)
      → ((c p : ℕ) → c < d.channels v → get_elem? pointers c ≡ some p → p + n ≤ length mem)
      → (c p i : ℕ) → c < d.channels v
      → get_elem? pointers c ≡ some p
      → i < min n (left v)
      → get_elem? (d.get_samples (d.channels v) pointers n mem v).1 (p + i) ≡ sample v c i
