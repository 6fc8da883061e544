-- ===== src/Types/Audio/AudioBuffer/Deinterleave.antt =====
-- `setFromInterleaved`.
use tklb.Base.{
  ℕ, suc, ◌+◌, ◌-◌, ◌*◌, ◌^◌, ◌≤◌, ◌<◌, ◌≡◌, refl, ap, ◌∙◌, min, Option, List, length, get_elem?,
  if◌then◌else◌, ◌⊎◌, Run, ok, ◌>>=◌, arith, add32, sub32, mul32, add32_lem, mul32_lem,
}
use native.Mathlib.Nat.{suc-mul, mul-le-mul_right, zero-mul, add-zero}
use tklb.Types.Audio.Samples.{joined}
use tklb.Types.Audio.AudioBuffer.{AudioBuffer, size, each_channel, on_channel, set_from_interleaved}
use tklb.Types.Audio.AudioBuffer.Cells.{
  IsValid, cell, cell-inside, size-valid_size, with_valid_size,
}
use tklb.Types.Audio.AudioBuffer.Channels.{
  Updated-size, Updated-IsValid, within, each_channel-from_zero, on_channel-Updated, same_size,
}
use tklb.Types.Audio.AudioBuffer.Copy.{size-fits}
use tklb.Types.Audio.AudioBuffer.Copied.{converted, within-true, within-false, joined-some}

-- The sample of the channel `c` in the frame `i` of an interleaved array lies in it.
pub interleaved-inside : (chan c i n : ℕ) → c < chan → i < n → c + i * chan < n * chan
interleaved-inside chan c i n lt lt' =
    omega (arith, suc-mul i chan, mul-le-mul_right chan (lt_suc i n lt'))
  where
    lt_suc : (i n : ℕ) → i < n → suc i ≤ n
    lt_suc i n h = omega arith

module _ {A B : Type 0} (convert : B → A) where
  -- The buffer after `setFromInterleaved` of `n` frames, for which it has room from the frame `o` on.
  pub record Deinterleaved (src : List B) (n o : ℕ) (b : AudioBuffer A) : Type 0 where
    pub buffer : AudioBuffer A
    pub run : set_from_interleaved convert src n b.channels 0 o b ≡ ok buffer
    pub channels : buffer.channels ≡ b.channels
    pub valid_size : buffer.valid_size ≡ o + n
    pub same_size : size buffer ≡ size b
    pub valid : IsValid buffer
    pub cells :
        (c i : ℕ)
        → c < b.channels
        → i < n
        → cell buffer c (o + i) ≡ converted convert (get_elem? src (c + i * b.channels))
    pub others :
        (c i : ℕ)
        → c < b.channels
        → i < size b
        → (i < o) ⊎ (o + n ≤ i)
        → cell buffer c i ≡ cell b c i

  ended : ℕ → AudioBuffer A → Run (AudioBuffer A)
  ended v b = ok (record b { valid_size = v })

  -- The loop of `setFromInterleaved` with its bounds computed, and what follows it.
  frames : List B → ℕ → ℕ → ℕ → ℕ → ℕ → AudioBuffer A → Run (AudioBuffer A)
  frames src chan n offset k o b =
      each_channel (λ c b'. on_channel (λ y x. convert x) b' c o n src (c + offset) chan) k 0 b
      >>= ended (add32 o n)

  set_run :
      (src : List B) (len chan n k v o : ℕ) (b b' : AudioBuffer A)
      → min (sub32 (size b) o) len ≡ n
      → min chan b.channels ≡ k
      → each_channel (λ c b'. on_channel (λ y x. convert x) b' c o n src (c + 0) chan) k 0 b ≡ ok b'
      → add32 o n ≡ v
      → set_from_interleaved convert src len chan 0 o b ≡ ok (record b' { valid_size = v })
  unfolding set_from_interleaved frames ended
  set_run src len chan n k v o b b' e₁ e₂ e₃ e₄ =
      ap (λ m. frames src chan m (mul32 0 chan) (min chan b.channels) o b) e₁
      ∙ ap (λ m. frames src chan n m (min chan b.channels) o b) (no_offset chan)
      ∙ ap (λ m. frames src chan n 0 m o b) e₂
      ∙ ap (λ r. r >>= ended (add32 o n)) e₃
      ∙ ap (λ m. ended m b') e₄
    where
      no_offset : (chan : ℕ) → mul32 0 chan ≡ 0
      no_offset chan = mul32_lem 0 chan (omega (arith, zero-mul chan)) ∙ zero-mul chan

  pub set_from_interleaved-Deinterleaved :
      (src : List B) (n o : ℕ) (b : AudioBuffer A)
      → IsValid b
      → o + n ≤ size b
      → n * b.channels ≤ length src
      → Deinterleaved src n o b
  set_from_interleaved-Deinterleaved src n o b v room reads =
      let u =
        each_channel-from_zero g
          (λ c b'. on_channel (λ y x. convert x) b' c o n src (c + 0) b.channels) b.channels b v
          (λ c b' hi v' ec el.
            on_channel-Updated (λ y x. convert x) g b' c o n src (c + 0) b.channels v' (omega arith)
              (omega (arith, same_size b b' ec el))
              (λ i l. omega (arith, interleaved-inside b.channels c i n hi l)) (λ i old. refl)) in
      let after = record u.buffer { valid_size = o + n } in
      let v' = Updated-IsValid u v in
      record {
        buffer = after;
        run =
            set_run src n b.channels n b.channels (o + n) o b u.buffer
              (clip (size b) n o room (size-fits b v)) (least b.channels) u.run
              (add32_lem o n (omega (arith, size-fits b v)));
        channels = u.same_channels;
        valid_size = refl;
        same_size = size-valid_size (o + n) u.buffer ∙ Updated-size u;
        valid = with_valid_size u.buffer (o + n) v' (omega (arith, Updated-size u));
        cells = λ c i lt li. rw (size-valid_size (o + n) u.buffer) (
            u.cells c (o + i) lt (omega arith)
            ∙ rw
                (
                  within-true 0 b.channels c (omega arith) lt,
                  within-true o (o + n) (o + i) (omega arith) (omega arith),
                  add-zero c,
                  back o i,
                )
                (joined-some convert b.samples (c * size b + (o + i))
                  (get_elem? src (c + i * b.channels))
                  (cell-inside b c (o + i) v lt (omega arith))));
        others = λ c i lt inside away. rw (size-valid_size (o + n) u.buffer) (
            u.cells c i lt inside
            ∙ rw (within-true 0 b.channels c (omega arith) lt, within-false o (o + n) i away));
      }
    where
      g : ℕ → ℕ → Option A → Option A
      g d i old =
          if within o (o + n) i
          then joined (λ y x. convert x) old (get_elem? src (d + 0 + (i - o) * b.channels))
          else old

      clip : (s n o : ℕ) → o + n ≤ s → s < 2 ^ 32 → min (sub32 s o) n ≡ n
      clip s n o le lt = ground arith

      least : (chan : ℕ) → min chan chan ≡ chan
      least chan = omega arith

      back : (o i : ℕ) → o + i - o ≡ i
      back o i = omega arith
