-- ===== src/Types/Audio/AudioBuffer/Copy.antt =====
-- `set` from another buffer or an interleaved array, `add` and `multiply`, cell by cell.
use tklb.Base.{
  ℕ, ◌+◌, ◌-◌, ◌*◌, ◌^◌, ◌≤◌, ◌<◌, ◌≡◌, ◌≢◌, refl, ap, sym, subst, ◌∙◌, Option, List, length,
  get_elem?, arith, min, leb, ◌==◌, leb→le, leb→lt, ==→eq, ==→ne, ne→==, if◌then◌else◌, Bool-cases,
  inl, inr, sub32_lem,
}
use native.Mathlib.Nat.{add_assoc, zero-mul, one-mul, mul-one, mul-le-mul_right}
use tklb.Types.Audio.Samples.{joined}
use tklb.Types.Audio.AudioBuffer.{AudioBuffer, size, start, set_array, set_buffer, combine}
use tklb.Types.Audio.AudioBuffer.Cells.{channel_room, IsValid, cell, start_lem}
use tklb.Types.Audio.AudioBuffer.Channels.{
  Updated, within, unchanged, each_channel-from_zero, on_channel-Updated, same_size,
}

pub size_of_none : {A : Type 0} (b : AudioBuffer A) → length b.samples ≡ 0 → size b ≡ 0
unfolding size
size_of_none b e = rw e

pub size-fits : {A : Type 0} (b : AudioBuffer A) → IsValid b → size b < 2 ^ 32
size-fits b v = elim (Bool-cases (b.channels == 0)) [
  | inl none ↦
      let nothing : length b.samples ≡ 0 =
        v.total ∙ ap (λ c. c * size b) (==→eq b.channels 0 none) ∙ zero-mul (size b) in
      omega (arith, size_of_none b nothing)
  | inr some_channel ↦ omega (
    arith,
    v.total,
    v.fits,
    mul-le-mul_right (size b) (one_le b.channels (==→ne b.channels 0 some_channel)),
    one-mul (size b),
  )
]
  where
    one_le : (c : ℕ) → c ≢ 0 → 1 ≤ c
    one_le c h = omega arith

module _ {A B : Type 0} (convert : B → A) where
  pub set_array-Updated :
      (g : ℕ → ℕ → Option A → Option A) (src : List B) (s len c offset n : ℕ) (b : AudioBuffer A)
      → IsValid b
      → offset ≤ size b
      → n ≡ min len (size b - offset)
      → (c < b.channels → s + n ≤ length src)
      → ((i : ℕ) (old : Option A)
          → c < b.channels
          → g c i old ≡ (
              if within offset (offset + n) i
              then joined (λ y x. convert x) old (get_elem? src (s + (i - offset)))
              else old))
      → Updated g b c (c + 1) (set_array convert src s len c offset b)
  unfolding set_array
  set_array-Updated g src s len c offset n b v le e reads agree =
      elim (Bool-cases (leb b.channels c)) [
        | inl outside ↦ rw outside (unchanged g b c (c + 1) (inr (leb→le b.channels c outside)))
        | inr inside ↦
            let lt = leb→lt b.channels c inside in
            let fits = size-fits b v in
            rw (inside, sub32_lem (size b) offset le fits, sym e)
              (on_channel-Updated (λ y x. convert x) g b c offset n src s 1 v lt (omega arith)
                (λ i l. omega (arith, reads lt)) (λ i old. rw mul-one (agree i old lt)))
      ]

  -- How many samples `set` from another buffer copies.
  abbrev pub copied : AudioBuffer B → ℕ → ℕ → AudioBuffer A → ℕ
  copied source len offset_dst b =
      min (if len == 0 then source.valid_size else len) (size b - offset_dst)

  -- `set` from another buffer, which has the samples that are read: in each channel of both, the
  -- samples from `offset_dst` on become those of the other from `offset_src` on, as many as the length
  -- says and as fit; every other sample stays.
  pub set_buffer-Updated :
      (source : AudioBuffer B) (len offset_src offset_dst : ℕ) (b : AudioBuffer A)
      → IsValid source
      → IsValid b
      → offset_dst ≤ size b
      → offset_src + copied source len offset_dst b ≤ size source
      → Updated
          (λ d i old.
            if within offset_dst (offset_dst + copied source len offset_dst b) i
            then joined (λ y x. convert x) old (cell source d (offset_src + (i - offset_dst)))
            else old)
          b
          0
          source.channels
          (set_buffer convert source len offset_src offset_dst b)
  unfolding set_buffer
  set_buffer-Updated source len offset_src offset_dst b vs v le reads =
      each_channel-from_zero _ _ source.channels b v (λ c b' hi v' ec el.
        let kept = same_size b b' ec el in
        set_array-Updated _ source.samples (start source c + offset_src) _ c offset_dst
          (copied source len offset_dst b) b' v' (omega (arith, kept)) (rw kept refl)
          (λ l. omega (arith, start_lem source c vs hi, reads, channel_room source c vs hi))
          (λ i old l.
            rw (start_lem source c vs hi, add_assoc (c * size source) offset_src (i - offset_dst))
              refl))

  -- The same where the length is one that both buffers have.
  pub set_buffer-exact :
      (source : AudioBuffer B) (n offset_src offset_dst : ℕ) (b : AudioBuffer A)
      → IsValid source
      → IsValid b
      → 0 < n
      → offset_dst + n ≤ size b
      → offset_src + n ≤ size source
      → Updated
          (λ d i old.
            if within offset_dst (offset_dst + n) i
            then joined (λ y x. convert x) old (cell source d (offset_src + (i - offset_dst)))
            else old)
          b
          0
          source.channels
          (set_buffer convert source n offset_src offset_dst b)
  set_buffer-exact source n offset_src offset_dst b vs v pos room reads =
      let given : copied source n offset_dst b ≡ n = rw (ne→== n 0 (omega arith)) (omega arith) in
      subst
        (λ m.
          Updated
            (λ d i old.
              if within offset_dst (offset_dst + m) i
              then joined (λ y x. convert x) old (cell source d (offset_src + (i - offset_dst)))
              else old)
            b 0 source.channels (set_buffer convert source n offset_src offset_dst b))
        given
        (set_buffer-Updated source n offset_src offset_dst b vs v (omega arith)
          (omega (arith, given)))

module _ {A B : Type 0} (f : A → B → A) where
  -- How many samples `add` and `multiply` work on.
  abbrev pub combined : AudioBuffer B → ℕ → ℕ → AudioBuffer A → ℕ
  combined source offset_src offset_dst b =
      min (source.valid_size - offset_src) (b.valid_size - offset_dst)

  -- `add` and `multiply` of another buffer work on all valid samples behind the offsets that both have,
  -- in each channel that both have, and leave every other sample; the length they are given does not
  -- matter.
  pub combine-Updated :
      (source : AudioBuffer B) (len offset_src offset_dst : ℕ) (b : AudioBuffer A)
      → IsValid source
      → IsValid b
      → offset_src ≤ source.valid_size
      → offset_dst ≤ b.valid_size
      → Updated
          (λ d i old.
            if within offset_dst (offset_dst + combined source offset_src offset_dst b) i
            then joined f old (cell source d (offset_src + (i - offset_dst)))
            else old)
          b
          0
          (min source.channels b.channels)
          (combine f source len offset_src offset_dst b)
  unfolding combine
  combine-Updated source len offset_src offset_dst b vs v les le =
      rw
        (
          sub32_lem source.valid_size offset_src les (omega (arith, vs.valid, size-fits source vs)),
          sub32_lem b.valid_size offset_dst le (omega (arith, v.valid, size-fits b v)),
        )
        (each_channel-from_zero _ _ (min source.channels b.channels) b v (λ c b' hi v' ec el.
          let kept = same_size b b' ec el in
          let in_source : c < source.channels = omega arith in
          on_channel-Updated f _ b' c offset_dst (combined source offset_src offset_dst b)
            source.samples (start source c + offset_src) 1 v' (omega arith)
            (omega (arith, kept, v.valid))
            (λ i l. omega (
              arith,
              start_lem source c vs in_source,
              channel_room source c vs in_source,
              vs.valid,
            ))
            (λ i old.
              rw
                (
                  mul-one,
                  start_lem source c vs in_source,
                  add_assoc (c * size source) offset_src (i - offset_dst),
                )
                refl)))
