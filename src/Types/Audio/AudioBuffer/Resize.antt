-- ===== src/Types/Audio/AudioBuffer/Resize.antt =====
-- `resize`.
use tklb.Base.{
  ℕ, ◌+◌, ◌*◌, ◌^◌, ◌≤◌, ◌<◌, ◌≡◌, ◌≢◌, refl, ap, sym, ◌∙◌, min, max, Bool, true, false, replicate,
  ◌==◌, ==→eq, ne→==, if◌then◌else◌, Bool-cases, inl, inr, arith, length-replicate, mul32_lem,
}
use native.Mathlib.Nat.{mul-div_cancel_left, mul-le-mul_right, one-mul}
use tklb.Types.HeapBuffer.{closest_chunk_size}
use tklb.Types.HeapBuffer.Chunks.{closest_chunk_size-stride}
use tklb.Types.Audio.AudioBuffer.{AudioBuffer, size, resize}
use tklb.Types.Audio.AudioBuffer.Cells.{IsValid}

module _ {A : Type 0} where
  -- `n` samples in each of `chan` channels.
  size-replicate :
      (silence : A) (n chan valid_size : ℕ)
      → 0 < chan
      → size (record {
        samples = replicate (chan * n) silence;
        valid_size = valid_size;
        channels = chan;
      })
        ≡ n
  unfolding size
  size-replicate silence n chan valid_size pos =
      rw (length-replicate (chan * n) silence) (elim (Bool-cases (chan * n == 0)) [
        | inl nothing ↦ rw nothing (
            omega
              (arith, ==→eq (chan * n) 0 nothing, mul-le-mul_right n (one_le chan pos), one-mul n))
        | inr something ↦ rw something (mul-div_cancel_left n pos)
      ])
    where
      one_le : (c : ℕ) → 0 < c → 1 ≤ c
      one_le c h = omega arith

  -- What `resize` leaves.
  pub record Reshaped (len chan stride : ℕ) (r : Bool × AudioBuffer A) : Type 0 where
    pub success : r.0 ≡ true
    pub valid : IsValid r.1
    pub channels : r.1.channels ≡ chan
    pub room : len ≤ size r.1
    pub little : size r.1 < len + max stride 1

  -- Where the storage can have the samples, their number fits 32 bits, and at least one channel is asked
  -- for, `resize` of a well formed buffer gives a well formed buffer of that many channels, in which each
  -- has room for the length and for less than one stride more.
  pub resize-Reshaped :
      (granted : ℕ → Bool) (silence : A) (stride len chan : ℕ) (b : AudioBuffer A)
      → ((n : ℕ) → granted n ≡ true)
      → IsValid b
      → 0 < chan
      → len + stride < 2 ^ 32
      → chan * closest_chunk_size len stride < 2 ^ 32
      → Reshaped len chan stride (resize granted silence stride len chan b)
  unfolding resize
  resize-Reshaped granted silence stride len chan b always v pos small fits =
      elim (Bool-cases (chan == b.channels)) [
        | inl same ↦ rw same (elim (Bool-cases (size b == len)) [
          | inl same_size ↦
              rw same_size (as_before (==→eq chan b.channels same) (==→eq (size b) len same_size))
          | inr other_size ↦
              rw
                (
                  other_size,
                  mul32_lem chan (closest_chunk_size len stride) fits,
                  always (chan * closest_chunk_size len stride),
                )
                anew
        ])
        | inr other ↦
            rw
              (
                other,
                mul32_lem chan (closest_chunk_size len stride) fits,
                always (chan * closest_chunk_size len stride),
              )
              anew
      ]
    where
      n : ℕ
      n = closest_chunk_size len stride

      as_before : chan ≡ b.channels → size b ≡ len → Reshaped len chan stride (true, b)
      as_before e e' = record {
        success = refl;
        valid = v;
        channels = sym e;
        room = omega arith;
        little = omega arith;
      }

      anew : Reshaped len chan stride (
        true,
        record {
          samples = replicate (chan * n) silence;
          valid_size = if b.valid_size == 0 then len else min b.valid_size len;
          channels = chan;
        },
      )
      anew =
          let bounds = closest_chunk_size-stride len stride small in
          let e =
            size-replicate silence n chan (if b.valid_size == 0 then len else min b.valid_size len)
              pos in
          record {
            success = refl;
            valid = record {
              total = length-replicate (chan * n) silence ∙ ap (λ k. chan * k) (sym e);
              fits = rw (length-replicate (chan * n) silence) fits;
              valid = ground (arith, e, bounds);
            };
            channels = refl;
            room = omega (arith, e, bounds);
            little = omega (arith, e, bounds);
          }

  -- A `resize` that the storage refuses returns true all the same; a fresh buffer then has valid samples
  -- and no room for any.
  pub resize-refused :
      (silence : A) (stride len chan : ℕ) (b : AudioBuffer A)
      → b.valid_size ≡ 0
      → chan ≢ b.channels
      → let r = resize (λ n. false) silence stride len chan b in
        (r.0 ≡ true) × (r.1.valid_size ≡ len) × (size r.1 ≡ 0)
  unfolding resize size
  resize-refused silence stride len chan b none ne =
      rw (ne→== chan b.channels ne, none) (refl, refl, refl)
