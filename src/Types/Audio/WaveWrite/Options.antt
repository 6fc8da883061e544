-- ===== src/Types/Audio/WaveWrite/Options.antt =====
-- src/types/audio/codec/TWave.hpp: the options of `Wave::write`.
use tklb.Base.{ℕ}

-- `WaveOptions`; `other` is a format that the `switch` does not know.
pub data Format : Type 0 where
  pcm : Format
  ieee_float : Format
  other : Format

pub data Container : Type 0 where
  riff : Container
  w64 : Container
  rf64 : Container

pub record WaveOptions : Type 0 where
  pub bits_per_sample : ℕ
  pub container : Container
  pub format : Format

abbrev pub default_options : WaveOptions
default_options = record { bits_per_sample = 32; container = riff; format = ieee_float }
