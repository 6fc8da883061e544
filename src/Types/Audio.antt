-- ===== src/Types/Audio.antt =====
-- src/types/audio: buffers of samples and what works on them.
pub mod Samples
pub mod AudioBuffer
pub mod AudioRingBuffer
pub mod ConvolverBrute
pub mod ResamplerHold
pub mod ResamplerLinear
pub mod Wave
pub mod WaveWrite
pub mod Vorbis
