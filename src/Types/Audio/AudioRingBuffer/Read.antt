-- ===== src/Types/Audio/AudioRingBuffer/Read.antt =====
-- The copies of `peek`.
use tklb.Base.{
  ℕ, ◌+◌, ◌-◌, ◌^◌, ◌≤◌, ◌<◌, ◌≡◌, ap, sym, ◌∙◌, Bool-cases, inl, inr, ◌⊎◌, ltb, ltb→lt, ltb→le,
  lt→ltb, le→ltb, if◌then◌else◌, ok, ◌>>=◌, arith, add32, sub32, add32_lem, sub32_lem,
}
use tklb.Types.Audio.AudioBuffer.{AudioBuffer, size}
use tklb.Types.Audio.AudioBuffer.Cells.{IsValid, cell}
use tklb.Types.Audio.AudioBuffer.Channels.{Updated-size, Updated-IsValid}
use tklb.Types.Audio.AudioBuffer.Copy.{set_buffer-exact, size-fits}
use tklb.Types.Audio.AudioBuffer.Copied.{converted, cell-copied, cell-kept}
use tklb.Types.Audio.AudioRingBuffer.{AudioRingBuffer, read_frames}
use tklb.Types.Audio.AudioRingBuffer.Frames.{IsRing, wrap, place}

-- Where the reading starts, as an index.
pub start_index :
    (m tail head : ℕ)
    → head ≤ m
    → tail < m
    → m < 2 ^ 32
    → (if ltb tail head then add32 (sub32 tail head) m else sub32 tail head)
      ≡ wrap m (tail + m - head)
start_index m tail head le lt fits = ground arith

-- The place of a frame behind an offset.
pub place-offset :
    (m tail head offset k : ℕ)
    → head ≤ m
    → tail < m
    → offset + k < head
    → place m head tail (offset + k) ≡ wrap m (wrap m (tail + m - (head - offset)) + k)
place-offset m tail head offset k le lt lt' = ground arith

module _ {A B : Type 0} (convert : B → A) where
  -- The output after the copies of `n` frames from the index `from` on.
  pub record Read (r : AudioRingBuffer B) (from n offset_dst : ℕ) (out : AudioBuffer A)
      : Type 0 where
    pub buffer : AudioBuffer A
    pub run : read_frames convert r from n offset_dst out ≡ ok buffer
    pub channels : buffer.channels ≡ out.channels
    pub same_size : size buffer ≡ size out
    pub valid : IsValid buffer
    pub new :
        (c k : ℕ)
        → c < out.channels
        → c < r.base.channels
        → k < n
        → cell buffer c (offset_dst + k)
          ≡ converted convert (cell r.base c (wrap (size r.base) (from + k)))
    pub old :
        (c i : ℕ)
        → c < out.channels
        → i < size out
        → (i < offset_dst) ⊎ (offset_dst + n ≤ i)
        → cell buffer c i ≡ cell out c i

  pub copies_at_once :
      (r : AudioRingBuffer B) (from n offset_dst : ℕ) (out : AudioBuffer A)
      → IsRing r
      → IsValid out
      → 0 < n
      → n ≤ size r.base - from
      → from < size r.base
      → offset_dst + n ≤ size out
      → Read r from n offset_dst out
  unfolding read_frames
  copies_at_once r from n offset_dst out o vo pos room inside fits_out =
      let u =
        set_buffer-exact convert r.base n from offset_dst out o.base vo pos fits_out
          (omega arith) in
      record {
        buffer = u.buffer;
        run = rw (
          sub32_lem (size r.base) from (omega arith) (size-fits r.base o.base),
          le→ltb (size r.base - from) n room,
          u.run,
        );
        channels = u.same_channels;
        same_size = Updated-size u;
        valid = Updated-IsValid u vo;
        new = λ c k lt li lk.
            let i : wrap (size r.base) (from + k) ≡ from + k = ground arith in
            rw i
              (cell-copied convert r.base n from offset_dst out _ u c k vo lt li lk (omega arith));
        old = λ c i lt in_out away.
            cell-kept convert r.base n from offset_dst out _ u c i lt in_out away;
      }

  pub copies_in_two :
      (r : AudioRingBuffer B) (from n offset_dst : ℕ) (out : AudioBuffer A)
      → IsRing r
      → IsValid out
      → n ≤ size r.base
      → size r.base - from < n
      → from < size r.base
      → offset_dst + n ≤ size out
      → Read r from n offset_dst out
  unfolding read_frames
  copies_in_two r from n offset_dst out o vo le over inside fits_out =
      let m = size r.base in
      let space = m - from in
      let u =
        set_buffer-exact convert r.base space from offset_dst out o.base vo (omega arith)
          (omega arith) (omega arith) in
      let kept = Updated-size u in
      let v' = Updated-IsValid u vo in
      let w =
        set_buffer-exact convert r.base (n - space) 0 (space + offset_dst) u.buffer o.base v'
          (omega arith) (omega (arith, kept)) (omega arith) in
      record {
        buffer = w.buffer;
        run = rw (
          sub32_lem m from (omega arith) (size-fits r.base o.base),
          lt→ltb space n over,
          u.run,
          ◌>>=◌,
          add32_lem space offset_dst (omega (arith, size-fits out vo)),
          sub32_lem n space (omega arith) (omega (arith, size-fits r.base o.base)),
          w.run,
        );
        channels = w.same_channels ∙ u.same_channels;
        same_size = Updated-size w ∙ kept;
        valid = Updated-IsValid w v';
        new = λ c k lt li lk. elim (Bool-cases (ltb k space)) [
          | inl early ↦
              let lk' = ltb→lt k space early in
              let i : wrap m (from + k) ≡ from + k = ground arith in
              cell-kept convert r.base (n - space) 0 (space + offset_dst) u.buffer _ w c
                (offset_dst + k) (omega (arith, u.same_channels)) (omega (arith, kept))
                (inl (omega arith))
              ∙ cell-copied convert r.base space from offset_dst out _ u c k vo lt li lk'
                  (omega arith)
              ∙ ap (λ j. converted convert (cell r.base c j)) (sym i)
          | inr late ↦
              let lk' = ltb→le k space late in
              let i : 0 + (k - space) ≡ wrap m (from + k) = ground arith in
              let at_end : offset_dst + k ≡ space + offset_dst + (k - space) = omega arith in
              ap (cell w.buffer c) at_end
              ∙ cell-copied convert r.base (n - space) 0 (space + offset_dst) u.buffer _ w c
                  (k - space) v' (omega (arith, u.same_channels)) li (omega arith)
                  (omega (arith, kept))
              ∙ ap (λ j. converted convert (cell r.base c j)) i
        ];
        old = λ c i lt in_out away.
            cell-kept convert r.base (n - space) 0 (space + offset_dst) u.buffer _ w c i
              (omega (arith, u.same_channels)) (omega (arith, kept)) (away_late i away)
            ∙ cell-kept convert r.base space from offset_dst out _ u c i lt in_out
                (away_early i away);
      }
    where
      away_late :
          (i : ℕ)
          → (i < offset_dst) ⊎ (offset_dst + n ≤ i)
          → (i < size r.base - from + offset_dst)
            ⊎ (size r.base - from + offset_dst + (n - (size r.base - from)) ≤ i)
      away_late i (inl h) = inl (omega arith)
      away_late i (inr h) = inr (omega arith)

      away_early :
          (i : ℕ)
          → (i < offset_dst) ⊎ (offset_dst + n ≤ i)
          → (i < offset_dst) ⊎ (offset_dst + (size r.base - from) ≤ i)
      away_early i (inl h) = inl h
      away_early i (inr h) = inr (omega arith)
