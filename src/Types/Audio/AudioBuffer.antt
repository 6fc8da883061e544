-- ===== src/Types/Audio/AudioBuffer.antt =====
-- src/types/audio/TAudioBuffer.hpp: `AudioBufferTpl` without SIMD (TKLB_NO_SIMD).
-- The storage is the list of its samples, channel behind channel, as Types/HeapBuffer shows for its
-- objects; `granted` says whether the storage can have that many. A pointer to samples is an array and
-- an index. `convert` is the conversion between sample types: none, a cast, or a cast of the scaled
-- sample. Sizes have 32 bits; an index into an array does not wrap. Asserts are compiled out.
pub mod Cells
pub mod Channels
pub mod Copy
pub mod Copied
pub mod Resize
pub mod Deinterleave
pub mod Interleave
pub mod Arrays
pub mod Raw
pub mod RoundTrip
mod Tests
use tklb.Base.{
  ℕ, zero, suc, ◌+◌, ◌*◌, ◌/◌, min, max, Bool, true, false, List, [], ◌∷◌, length, get_elem?, set,
  replicate, ltb, leb, ◌==◌, if◌then◌else◌, Run, ok, fault, ◌>>=◌, read, add32, sub32, mul32,
}
use tklb.Types.HeapBuffer.{closest_chunk_size}
use tklb.Types.Audio.Samples.{sweep, alter}

-- `mBuffer`, `mValidSize`, `mChannels`.
pub record AudioBuffer (A : Type 0) : Type 0 where
  pub samples : List A
  pub valid_size : ℕ
  pub channels : ℕ

module _ {A : Type 0} where
  pub empty_buffer : AudioBuffer A
  empty_buffer = record { samples = []; valid_size = 0; channels = 0 }

  unfoldable pub size : AudioBuffer A → ℕ
  size b = if length b.samples == 0 then 0 else length b.samples / b.channels

  -- `get(channel)`, an index into the samples.
  unfoldable pub start : AudioBuffer A → ℕ → ℕ
  start b channel = mul32 channel (length b.samples / b.channels)

  unfoldable pub set_valid_size : ℕ → AudioBuffer A → AudioBuffer A
  unfolding size
  set_valid_size v b = record b { valid_size = min (size b) v }

  -- `for (Channel c = …; …; c++)` with the rounds left.
  unfoldable pub each_channel :
      (ℕ → AudioBuffer A → Run (AudioBuffer A)) → ℕ → ℕ → AudioBuffer A → Run (AudioBuffer A)
  each_channel body zero c b = ok b
  each_channel body (suc k) c b = body c b >>= each_channel body k (c + 1)

  -- A loop over `n` samples of one channel from `offset` on, with the samples of another array.
  pub on_channel :
      {B : Type 0} → (A → B → A) → AudioBuffer A → ℕ → ℕ → ℕ → List B → ℕ → ℕ → Run (AudioBuffer A)
  unfolding start
  on_channel f b channel offset n src s step =
      sweep f n b.samples (start b channel + offset) 1 src s step >>= λ samples.
      ok (record b { samples = samples })

  -- A loop over the first `n` samples of one channel.
  pub on_channel_alone : (A → A) → AudioBuffer A → ℕ → ℕ → ℕ → Run (AudioBuffer A)
  unfolding start
  on_channel_alone f b channel offset n =
      alter f n b.samples (start b channel + offset) >>= λ samples.
      ok (record b { samples = samples })

  -- `set(value, length, offsetDst)`.
  unfoldable pub set_value : A → ℕ → ℕ → AudioBuffer A → Run (AudioBuffer A)
  unfolding size each_channel on_channel_alone
  set_value value len offset_dst b =
      let n = min (sub32 (size b) offset_dst) (if len == 0 then size b else len) in
      each_channel (λ c b'. on_channel_alone (λ y. value) b' c offset_dst n) b.channels 0 b

  -- `add(value)` and `multiply(value)`, for `f y` the sum or product of `y` and the value.
  pub apply_value : (A → A) → AudioBuffer A → Run (AudioBuffer A)
  unfolding each_channel on_channel_alone
  apply_value f b = each_channel (λ c b'. on_channel_alone f b' c 0 b.valid_size) b.channels 0 b

  -- `inject` of `samples` whose address is `aligned`, or not; nothing is returned where it succeeds.
  pub inject : Bool → List A → ℕ → AudioBuffer A → AudioBuffer A
  inject false samples chan b = b
  inject true samples chan b = record {
    samples = samples;
    valid_size = length samples / chan;
    channels = chan;
  }

module _ {A B : Type 0} (convert : B → A) where
  -- `set(samples, length, channel, offsetDst)` for the samples of `src` from `s` on.
  pub set_array : List B → ℕ → ℕ → ℕ → ℕ → AudioBuffer A → Run (AudioBuffer A)
  unfolding size on_channel
  set_array src s len channel offset_dst b =
      if leb b.channels channel
      then ok b
      else on_channel (λ y x. convert x) b channel offset_dst (min len (sub32 (size b) offset_dst))
          src s 1

  -- `set` of a 2D array.
  pub set_arrays : List (List B) → ℕ → ℕ → ℕ → ℕ → AudioBuffer A → Run (AudioBuffer A)
  unfolding each_channel set_array
  set_arrays arrays len chan offset_src offset_dst b =
      let chan' = if chan == 0 then b.channels else chan in
      each_channel
        (λ c b'. read (get_elem? arrays c) >>= λ src. set_array src offset_src len c offset_dst b')
        (min chan' b.channels) 0 b

  -- `set` of another buffer.
  unfoldable pub set_buffer : AudioBuffer B → ℕ → ℕ → ℕ → AudioBuffer A → Run (AudioBuffer A)
  unfolding each_channel set_array start
  set_buffer source len offset_src offset_dst b =
      let len' = if len == 0 then source.valid_size else len in
      each_channel
        (λ c b'. set_array source.samples (start source c + offset_src) len' c offset_dst b')
        source.channels 0 b

  pub set_from_interleaved : List B → ℕ → ℕ → ℕ → ℕ → AudioBuffer A → Run (AudioBuffer A)
  unfolding size each_channel on_channel
  set_from_interleaved src len chan offset_src offset_dst b =
      let n = min (sub32 (size b) offset_dst) len in
      let offset = mul32 offset_src chan in
      each_channel (λ c b'. on_channel (λ y x. convert x) b' c offset_dst n src (c + offset) chan)
        (min chan b.channels) 0 b
      >>= λ b'. ok (record b' { valid_size = add32 offset_dst n })

  -- `put(target, length, channel, offset)`, here `convert` goes to the type of the target.
  pub put_array : List A → ℕ → ℕ → ℕ → AudioBuffer B → Run (ℕ × List A)
  unfolding start
  put_array target len channel offset b =
      let n = min (if len == 0 then b.valid_size else len) (sub32 b.valid_size offset) in
      if leb b.channels channel
      then ok (0, target)
      else sweep (λ y x. convert x) n target 0 1 b.samples (start b channel + offset) 1
        >>= λ target'. ok (n, target')

  -- `put` to a 2D array from the channel `c` on, with the rounds left; `res` is what it returns.
  pub put_arrays_from : ℕ → ℕ → List (List A) → ℕ → ℕ → ℕ → AudioBuffer B → Run (ℕ × List (List A))
  unfolding put_array
  put_arrays_from zero c targets res len offset b = ok (res, targets)
  put_arrays_from (suc k) c [] res len offset b = fault
  put_arrays_from (suc k) c (target ∷ targets) res len offset b =
      put_array target len c offset b >>= λ r.
      put_arrays_from k (c + 1) targets r.0 len offset b >>= λ rest. ok (rest.0, r.1 ∷ rest.1)

  -- `put(target, length, chan, offset)` for a 2D array.
  pub put_arrays : List (List A) → ℕ → ℕ → ℕ → AudioBuffer B → Run (ℕ × List (List A))
  unfolding put_arrays_from
  put_arrays targets len chan offset b =
      put_arrays_from (if chan == 0 then b.channels else chan) 0 targets 0 len offset b

  -- The loop of `putInterleaved` from the channel `c` on, with the rounds left; `out` counts samples.
  pub put_channels : ℕ → ℕ → ℕ → ℕ → ℕ → List A → ℕ → AudioBuffer B → Run (ℕ × List A)
  unfolding start
  put_channels zero c chan n offset target out b = ok (out, target)
  put_channels (suc k) c chan n offset target out b =
      sweep (λ y x. convert x) n target c chan b.samples (start b c + offset) 1 >>= λ target'.
      put_channels k (c + 1) chan n offset target' (add32 out n) b

  pub put_interleaved : List A → ℕ → ℕ → ℕ → AudioBuffer B → Run (ℕ × List A)
  unfolding put_channels
  put_interleaved target len offset chan b =
      let chan' = if chan == 0 then b.channels else min chan b.channels in
      let n = min (sub32 b.valid_size offset) (if len == 0 then b.valid_size else len) in
      put_channels chan' 0 chan' n offset target 0 b >>= λ r. ok (r.0 / b.channels, r.1)

-- `getRaw`: the pointers are indices.
module _ {A : Type 0} where
  pub raw_from : ℕ → ℕ → List ℕ → AudioBuffer A → Run (List ℕ)
  unfolding start
  raw_from zero c put b = ok put
  raw_from (suc k) c put b =
      read (get_elem? put c) >>= λ old. raw_from k (c + 1) (set put c (start b c)) b

  pub get_raw : List ℕ → AudioBuffer A → Run (List ℕ)
  unfolding raw_from
  get_raw put b = raw_from b.channels 0 put b

module _ {A B : Type 0} where
  -- `add(buffer, …)` and `multiply(buffer, …)`, for `f` the sum or the product.
  pub combine : (A → B → A) → AudioBuffer B → ℕ → ℕ → ℕ → AudioBuffer A → Run (AudioBuffer A)
  unfolding each_channel on_channel start
  combine f source len offset_src offset_dst b =
      let n = min (sub32 source.valid_size offset_src) (sub32 b.valid_size offset_dst) in
      each_channel
        (λ c b'. on_channel f b' c offset_dst n source.samples (start source c + offset_src) 1)
        (min source.channels b.channels) 0 b

-- `silence` is `T()`, `stride` the alignment in samples.
module _ {A : Type 0} (granted : ℕ → Bool) (silence : A) (stride : ℕ) where
  -- What the storage returns is dropped.
  unfoldable pub resize : ℕ → ℕ → AudioBuffer A → Bool × AudioBuffer A
  unfolding size
  resize len chan b =
      let total = mul32 chan (closest_chunk_size len stride) in
      if chan == b.channels
      then (if size b == len then (true, b) else (true, resized total))
      else (true, resized total)
    where
      resized : ℕ → AudioBuffer A
      resized total = record {
        samples = if granted total then replicate total silence else [];
        valid_size = if b.valid_size == 0 then len else min b.valid_size len;
        channels = chan;
      }

  pub resize_length : ℕ → AudioBuffer A → AudioBuffer A
  unfolding resize
  resize_length len b = (resize len (max 1 b.channels) b).1

  pub resize_as : {B : Type 0} → AudioBuffer B → AudioBuffer A → AudioBuffer A
  unfolding resize size
  resize_as source b = (resize (size source) source.channels b).1

  pub clone : {B : Type 0} → (B → A) → AudioBuffer B → AudioBuffer A → Run (AudioBuffer A)
  unfolding resize_as set_buffer
  clone convert source b = set_buffer convert source 0 0 0 (resize_as source b)
