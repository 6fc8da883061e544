-- ===== src/Types/Audio/AudioBuffer/Channels.antt =====
-- The loops over the channels, described by what becomes of each cell.
use tklb.Base.{
  ℕ, zero, suc, ◌+◌, ◌-◌, ◌*◌, ◌≤◌, ◌<◌, ◌≡◌, ◌≢◌, refl, ap₂, sym, subst, ◌∙◌, Bool, ◌&&◌, Option,
  List, length, get_elem?, arith, ltb, leb, if◌then◌else◌, Bool-cases, inl, inr, ◌⊎◌, Run, ok,
}
use native.Mathlib.Nat.{zero-add}
use tklb.Types.Audio.Samples.{Swept, joined, sweep-Swept}
use tklb.Types.Audio.AudioBuffer.{AudioBuffer, size, each_channel, on_channel}
use tklb.Types.Audio.AudioBuffer.Cells.{IsValid, cell, cell-inside, start_lem, cells-ne}

-- `i` is one of the numbers from `lo` up to `hi`.
abbrev pub within : ℕ → ℕ → ℕ → Bool
within lo hi i = leb lo i && ltb i hi

module _ {A : Type 0} where
  -- A buffer as `b`, but the cells of the channels from `lo` up to `hi` have changed by `g`, which is
  -- given the channel, the index and the old sample.
  pub record Updated (g : ℕ → ℕ → Option A → Option A) (b : AudioBuffer A) (lo hi : ℕ)
      (r : Run (AudioBuffer A)) : Type 0 where
    pub buffer : AudioBuffer A
    pub run : r ≡ ok buffer
    pub same_channels : buffer.channels ≡ b.channels
    pub same_valid : buffer.valid_size ≡ b.valid_size
    pub same_length : length buffer.samples ≡ length b.samples
    pub cells :
        (d i : ℕ)
        → d < b.channels
        → i < size b
        → cell buffer d i ≡ (if within lo hi d then g d i (cell b d i) else cell b d i)

  pub same_size :
      (b b' : AudioBuffer A)
      → b'.channels ≡ b.channels
      → length b'.samples ≡ length b.samples
      → size b' ≡ size b
  unfolding size
  same_size b b' ec el = rw (ec, el)

  pub Updated-size :
      {g : ℕ → ℕ → Option A → Option A} {b : AudioBuffer A} {lo hi : ℕ} {r : Run (AudioBuffer A)}
      → (u : Updated g b lo hi r) → size u.buffer ≡ size b
  Updated-size {b} u = same_size b u.buffer u.same_channels u.same_length

  pub Updated-IsValid :
      {g : ℕ → ℕ → Option A → Option A} {b : AudioBuffer A} {lo hi : ℕ} {r : Run (AudioBuffer A)}
      → (u : Updated g b lo hi r) → IsValid b
      → IsValid u.buffer
  Updated-IsValid {b} u v = record {
    total =
        u.same_length ∙ v.total ∙ ap₂ (λ m n. m * n) (sym u.same_channels) (sym (Updated-size u));
    fits = rw u.same_length v.fits;
    valid = omega (arith, u.same_valid, Updated-size u, v.valid);
  }

  -- A round that changes nothing.
  pub unchanged :
      (g : ℕ → ℕ → Option A → Option A) (b : AudioBuffer A) (lo hi : ℕ)
      → (hi ≤ lo) ⊎ (b.channels ≤ lo)
      → Updated g b lo hi (ok b)
  unchanged g b lo hi h = record {
    buffer = b;
    run = refl;
    same_channels = refl;
    same_valid = refl;
    same_length = refl;
    cells = λ d i lt inside. elim (Bool-cases (within lo hi d)) [
      | inl yes' ↦ absurd (ground arith)
      | inr no' ↦ rw no'
    ];
  }

  -- Two ranges of channels after each other.
  compose_ranges :
      (f : Option A → Option A) (old mid new : Option A) (lo k d : ℕ)
      → mid ≡ (if within lo (lo + 1) d then f old else old)
      → new ≡ (if within (lo + 1) (lo + 1 + k) d then f mid else mid)
      → new ≡ (if within lo (lo + suc k) d then f old else old)
  compose_ranges f old mid new lo k d h h' = grind arith

  pub each_channel-Updated :
      (g : ℕ → ℕ → Option A → Option A) (body : ℕ → AudioBuffer A → Run (AudioBuffer A)) (k lo : ℕ)
      (b : AudioBuffer A)
      → IsValid b
      → ((c : ℕ) (b' : AudioBuffer A)
          → lo ≤ c
          → c < lo + k
          → IsValid b'
          → b'.channels ≡ b.channels
          → length b'.samples ≡ length b.samples
          → Updated g b' c (c + 1) (body c b'))
      → Updated g b lo (lo + k) (each_channel body k lo b)
  unfolding each_channel
  each_channel-Updated g body zero lo b v step = unchanged g b lo (lo + 0) (inl (omega arith))
  each_channel-Updated g body (suc k) lo b v step =
      let u = step lo b (omega arith) (omega arith) v refl refl in
      let w =
        each_channel-Updated g body k (lo + 1) u.buffer (Updated-IsValid u v)
          (λ c b' le lt v' ec el.
            step c b' (omega arith) (omega arith) v' (ec ∙ u.same_channels) (el ∙ u.same_length)) in
      record {
        buffer = w.buffer;
        run = rw u.run w.run;
        same_channels = w.same_channels ∙ u.same_channels;
        same_valid = w.same_valid ∙ u.same_valid;
        same_length = w.same_length ∙ u.same_length;
        cells = λ d i lt inside.
            let first_round = u.cells d i lt inside in
            let later =
              w.cells d i (omega (arith, u.same_channels)) (omega (arith, Updated-size u)) in
            compose_ranges (g d i) (cell b d i) (cell u.buffer d i) (cell w.buffer d i) lo k d
              first_round later;
      }

  -- The cell `i` of the channel that was swept.
  cell_after :
      {B : Type 0} (f : A → B → A) (b : AudioBuffer A) (c offset n : ℕ) (src : List B) (s step : ℕ)
      (w : Swept f n b.samples (c * size b + offset) 1 src s step) (i : ℕ)
      → get_elem? w.result (c * size b + i) ≡ (
          if within offset (offset + n) i
          then joined f (cell b c i) (get_elem? src (s + (i - offset) * step))
          else cell b c i)
  cell_after f b c offset n src s step w i = elim (Bool-cases (within offset (offset + n) i)) [
    | inl here ↦
        let below : i - offset < n = ground arith in
        let place : c * size b + offset + (i - offset) * 1 ≡ c * size b + i = ground arith in
        rw here (
          subst
            (λ k.
              get_elem? w.result k
              ≡ joined f (get_elem? b.samples k) (get_elem? src (s + (i - offset) * step)))
            place (w.written (i - offset) below))
    | inr elsewhere ↦ rw elsewhere (w.others (c * size b + i) (λ k lk e. ground arith))
  ]

  -- A loop over samples of one channel.
  pub on_channel-Updated :
      {B : Type 0} (f : A → B → A) (g : ℕ → ℕ → Option A → Option A) (b : AudioBuffer A)
      (c offset n : ℕ) (src : List B) (s step : ℕ)
      → IsValid b
      → c < b.channels
      → offset + n ≤ size b
      → ((i : ℕ) → i < n → s + i * step < length src)
      → ((i : ℕ) (old : Option A)
          → g c i old ≡ (
              if within offset (offset + n) i
              then joined f old (get_elem? src (s + (i - offset) * step))
              else old))
      → Updated g b c (c + 1) (on_channel f b c offset n src s step)
  unfolding on_channel
  on_channel-Updated f g b c offset n src s step v lt room reads agree =
      let w =
        sweep-Swept f n b.samples (c * size b + offset) 1 src s step (omega arith)
          (λ i l. (omega (arith, cell-inside b c (offset + i) v lt (omega arith)), reads i l)) in
      let after = record b { samples = w.result } in
      let kept : size after ≡ size b = same_size b after refl w.same_length in
      record {
        buffer = after;
        run = rw (start_lem b c v lt, w.run);
        same_channels = refl;
        same_valid = refl;
        same_length = w.same_length;
        cells = λ d i l inside. rw kept (elim (Bool-cases (within c (c + 1) d)) [
          | inl here ↦
              let same : d ≡ c = ground arith in
              rw (here, same, agree i (get_elem? b.samples (c * size b + i)))
                (cell_after f b c offset n src s step w i)
          | inr elsewhere ↦
              let differs : d ≢ c = λ e. ground arith in
              rw elsewhere (
                w.others (d * size b + i) (λ k lk e.
                  cells-ne (size b) d i c (offset + k) inside (omega arith) (inl differs)
                    (omega (arith, e))))
        ]);
      }

  -- The loop over the first `k` channels.
  pub each_channel-from_zero :
      (g : ℕ → ℕ → Option A → Option A) (body : ℕ → AudioBuffer A → Run (AudioBuffer A)) (k : ℕ)
      (b : AudioBuffer A)
      → IsValid b
      → ((c : ℕ) (b' : AudioBuffer A)
          → c < k
          → IsValid b'
          → b'.channels ≡ b.channels
          → length b'.samples ≡ length b.samples
          → Updated g b' c (c + 1) (body c b'))
      → Updated g b 0 k (each_channel body k 0 b)
  each_channel-from_zero g body k b v step =
      subst (λ hi. Updated g b 0 hi (each_channel body k 0 b)) (zero-add k)
        (each_channel-Updated g body k 0 b v (λ c b' le lt. step c b' (omega (arith, lt))))
