-- ===== src/Types/Audio/AudioRingBuffer/Write.antt =====
-- The copies of `push`.
use tklb.Base.{
  ℕ, ◌+◌, ◌-◌, ◌^◌, ◌≤◌, ◌<◌, ◌≡◌, ◌≢◌, refl, ap, ◌∙◌, Bool-cases, inl, inr, ◌⊎◌, ltb, ltb→lt,
  ltb→le, lt→ltb, le→ltb, ◌==◌, if◌then◌else◌, ok, ◌>>=◌, arith, add32, add32_lem, sub32_lem,
}
use native.Mathlib.Nat.{zero-add}
use tklb.Types.Audio.AudioBuffer.{AudioBuffer, size}
use tklb.Types.Audio.AudioBuffer.Cells.{IsValid, cell}
use tklb.Types.Audio.AudioBuffer.Channels.{Updated-size, Updated-IsValid}
use tklb.Types.Audio.AudioBuffer.Copy.{set_buffer-exact, size-fits}
use tklb.Types.Audio.AudioRingBuffer.{AudioRingBuffer, write_frames}
use tklb.Types.Audio.AudioRingBuffer.Frames.{IsRing, wrap}
use tklb.Types.Audio.AudioBuffer.Copied.{converted, cell-copied, cell-kept}

module _ {A B : Type 0} (convert : B → A) where
  -- The ring after the copies: the next `n` places hold the frames of the input, the others are as
  -- before.
  pub record Written (r : AudioRingBuffer A) (input : AudioBuffer B) (offset_src n : ℕ)
      : Type 0 where
    pub ring : AudioRingBuffer A
    pub run : write_frames convert input n offset_src r ≡ ok ring
    pub head : ring.head ≡ r.head
    pub tail : ring.tail ≡ wrap (size r.base) (r.tail + n)
    pub channels : ring.base.channels ≡ r.base.channels
    pub same_size : size ring.base ≡ size r.base
    pub valid : IsValid ring.base
    pub new :
        (c j : ℕ)
        → c < r.base.channels
        → c < input.channels
        → j < n
        → cell ring.base c (wrap (size r.base) (r.tail + j))
          ≡ converted convert (cell input c (offset_src + j))
    pub old :
        (c i : ℕ)
        → c < r.base.channels
        → i < size r.base
        → ((j : ℕ) → j < n → i ≢ wrap (size r.base) (r.tail + j))
        → cell ring.base c i ≡ cell r.base c i

  -- The new tail, where nothing runs over the end.
  tail_at_once :
      (m tail n : ℕ)
      → n ≤ m - tail
      → tail < m
      → m < 2 ^ 32
      → (if m - tail == n then 0 else add32 tail n) ≡ wrap m (tail + n)
  tail_at_once m tail n room lt fits = ground arith

  pub write_at_once :
      (r : AudioRingBuffer A) (input : AudioBuffer B) (offset_src n : ℕ)
      → IsRing r
      → IsValid input
      → 0 < n
      → n ≤ size r.base - r.tail
      → offset_src + n ≤ size input
      → Written r input offset_src n
  unfolding write_frames
  write_at_once r input offset_src n o vi pos room reads =
      let fits = size-fits r.base o.base in
      let u =
        set_buffer-exact convert input n offset_src r.tail r.base vi o.base pos
          (omega (arith, o.tail)) reads in
      let kept = Updated-size u in
      record {
        ring = record r {
          base = u.buffer;
          tail = if size r.base - r.tail == n then 0 else add32 r.tail n;
        };
        run = rw (
          sub32_lem (size r.base) r.tail (omega (arith, o.tail)) fits,
          add32_lem 0 offset_src (omega (arith, size-fits input vi)),
          zero-add offset_src,
          le→ltb (size r.base - r.tail) n room,
          u.run,
        );
        head = refl;
        tail = tail_at_once (size r.base) r.tail n room o.tail fits;
        channels = u.same_channels;
        same_size = kept;
        valid = Updated-IsValid u o.base;
        new = λ c j lt li lj.
            let i : wrap (size r.base) (r.tail + j) ≡ r.tail + j = ground (arith, o.tail) in
            rw i (
              cell-copied convert input n offset_src r.tail r.base _ u c j o.base lt li lj
                (omega (arith, o.tail)));
        old = λ c i lt inside differs.
            cell-kept convert input n offset_src r.tail r.base _ u c i lt inside
              (outside (size r.base) r.tail n i inside o.tail room differs);
      }
    where
      outside :
          (m tail n i : ℕ)
          → i < m
          → tail < m
          → n ≤ m - tail
          → ((j : ℕ) → j < n → i ≢ wrap m (tail + j))
          → (i < tail) ⊎ (tail + n ≤ i)
      outside m tail n i inside lt room differs = elim (Bool-cases (ltb i tail)) [
        | inl before ↦ inl (ltb→lt i tail before)
        | inr behind ↦ elim (Bool-cases (ltb i (tail + n))) [
          | inl here ↦ absurd (
              differs (i - tail) (omega (arith, ltb→lt i (tail + n) here, ltb→le i tail behind))
                (ground arith))
          | inr after ↦ inr (ltb→le i (tail + n) after)
        ]
      ]

  pub write_in_two :
      (r : AudioRingBuffer A) (input : AudioBuffer B) (offset_src n : ℕ)
      → IsRing r
      → IsValid input
      → n ≤ size r.base
      → size r.base - r.tail < n
      → offset_src + n ≤ size input
      → Written r input offset_src n
  unfolding write_frames
  write_in_two r input offset_src n o vi le over reads =
      let m = size r.base in
      let fits = size-fits r.base o.base in
      let space = m - r.tail in
      let u =
        set_buffer-exact convert input space offset_src r.tail r.base vi o.base
          (omega (arith, o.tail)) (omega (arith, o.tail)) (omega arith) in
      let kept = Updated-size u in
      let v' = Updated-IsValid u o.base in
      let w =
        set_buffer-exact convert input (n - space) (space + offset_src) 0 u.buffer vi v'
          (omega arith) (omega (arith, kept)) (omega arith) in
      let kept' = Updated-size w ∙ kept in
      record {
        ring = record r { base = w.buffer; tail = n - space };
        run = rw (
          sub32_lem m r.tail (omega (arith, o.tail)) fits,
          add32_lem 0 offset_src (omega (arith, size-fits input vi)),
          zero-add offset_src,
          lt→ltb space n over,
          u.run,
          ◌>>=◌,
          add32_lem space offset_src (omega (arith, size-fits input vi)),
          sub32_lem n space (omega arith) (omega arith),
          w.run,
        );
        head = refl;
        tail = ground (arith, o.tail);
        channels = w.same_channels ∙ u.same_channels;
        same_size = kept';
        valid = Updated-IsValid w v';
        new = λ c j lt li lj. elim (Bool-cases (ltb j space)) [
          | inl early ↦
              let lj' = ltb→lt j space early in
              let at_tail : wrap m (r.tail + j) ≡ r.tail + j = ground (arith, o.tail) in
              ap (cell w.buffer c) at_tail
              ∙ cell-kept convert input (n - space) (space + offset_src) 0 u.buffer _ w c
                  (r.tail + j) (omega (arith, u.same_channels)) (omega (arith, kept))
                  (inr (omega (arith, o.tail)))
              ∙ cell-copied convert input space offset_src r.tail r.base _ u c j o.base lt li lj'
                  (omega arith)
          | inr late ↦
              let lj' = ltb→le j space late in
              let at_start : wrap m (r.tail + j) ≡ 0 + (j - space) = ground (arith, o.tail) in
              let from : space + offset_src + (j - space) ≡ offset_src + j = omega arith in
              ap (cell w.buffer c) at_start
              ∙ cell-copied convert input (n - space) (space + offset_src) 0 u.buffer _ w c
                  (j - space) v' (omega (arith, u.same_channels)) li (omega arith)
                  (omega (arith, kept))
              ∙ ap (λ k. converted convert (cell input c k)) from
        ];
        old = λ c i lt inside differs.
            let free = outside_both m r.tail n i inside o.tail over le differs in
            cell-kept convert input (n - space) (space + offset_src) 0 u.buffer _ w c i
              (omega (arith, u.same_channels)) (omega (arith, kept)) (inr (omega (arith, free.0)))
            ∙ cell-kept convert input space offset_src r.tail r.base _ u c i lt inside (inl free.1);
      }
    where
      outside_both :
          (m tail n i : ℕ)
          → i < m
          → tail < m
          → m - tail < n
          → n ≤ m
          → ((j : ℕ) → j < n → i ≢ wrap m (tail + j))
          → (n - (m - tail) ≤ i) × (i < tail)
      outside_both m tail n i inside lt over le differs =
          elim (Bool-cases (ltb i (n - (m - tail)))) [
            | inl low ↦
                let lt' = ltb→lt i (n - (m - tail)) low in
                absurd (differs (i + (m - tail)) (omega arith) (ground arith))
            | inr high ↦ elim (Bool-cases (ltb i tail)) [
              | inl before ↦ (ltb→le i (n - (m - tail)) high, ltb→lt i tail before)
              | inr behind ↦
                  let le' = ltb→le i tail behind in
                  absurd (differs (i - tail) (omega arith) (ground arith))
            ]
          ]
