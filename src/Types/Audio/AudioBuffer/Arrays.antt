-- ===== src/Types/Audio/AudioBuffer/Arrays.antt =====
-- `set` of a 2D array, cell by cell.
use tklb.Base.{
  ℕ, ◌+◌, ◌-◌, ◌*◌, ◌≤◌, ◌<◌, ◌≡◌, refl, ap, ◌∙◌, min, Option, none, some, List, length, get_elem?,
  ne→==, if◌then◌else◌, ◌⊎◌, Run, ok, ◌>>=◌, read, arith,
}
use native.Mathlib.Nat.{zero-add}
use tklb.Types.Audio.Samples.{joined}
use tklb.Types.Audio.AudioBuffer.{AudioBuffer, size, each_channel, set_array, set_arrays}
use tklb.Types.Audio.AudioBuffer.Cells.{IsValid, cell, cell-inside}
use tklb.Types.Audio.AudioBuffer.Channels.{
  Updated-size, Updated-IsValid, within, each_channel-from_zero, same_size,
}
use tklb.Types.Audio.AudioBuffer.Copied.{converted, within-true, within-false, joined-some}
use tklb.Types.Audio.AudioBuffer.Copy.{set_array-Updated}

module _ {B : Type 0} where
  -- The sample `i` of the array `c`.
  abbrev pub sample_in : Option (List B) → ℕ → Option B
  sample_in none i = none
  sample_in (some xs) i = get_elem? xs i

  -- There are `chan` arrays of at least `n` samples.
  pub record HasArrays (arrays : List (List B)) (chan n : ℕ) : Type 0 where
    pub array : ℕ → List B
    pub found : (c : ℕ) → c < chan → get_elem? arrays c ≡ some (array c)
    pub room : (c : ℕ) → c < chan → n ≤ length (array c)

module _ {A B : Type 0} (convert : B → A) where
  -- The buffer after `set` of `n` samples of each array from the sample `o` on, for which it has room.
  pub record Arranged (arrays : List (List B)) (n o : ℕ) (b : AudioBuffer A) : Type 0 where
    pub buffer : AudioBuffer A
    pub run : set_arrays convert arrays n b.channels 0 o b ≡ ok buffer
    pub channels : buffer.channels ≡ b.channels
    pub same_valid : buffer.valid_size ≡ b.valid_size
    pub same_size : size buffer ≡ size b
    pub valid : IsValid buffer
    pub cells :
        (c i : ℕ)
        → c < b.channels
        → i < n
        → cell buffer c (o + i) ≡ converted convert (sample_in (get_elem? arrays c) i)
    pub others :
        (c i : ℕ)
        → c < b.channels
        → i < size b
        → (i < o) ⊎ (o + n ≤ i)
        → cell buffer c i ≡ cell b c i

  rounds : List (List B) → ℕ → ℕ → ℕ → AudioBuffer A → Run (AudioBuffer A)
  rounds arrays n k o b =
      each_channel (λ c b'. read (get_elem? arrays c) >>= λ src. set_array convert src 0 n c o b') k
        0 b

  set_arrays_run :
      (arrays : List (List B)) (n o : ℕ) (b : AudioBuffer A)
      → 0 < b.channels
      → set_arrays convert arrays n b.channels 0 o b ≡ rounds arrays n b.channels o b
  unfolding set_arrays rounds
  set_arrays_run arrays n o b pos =
      rw (ne→== b.channels 0 (omega arith)) (ap (λ k. rounds arrays n k o b) (least b.channels))
    where
      least : (k : ℕ) → min k k ≡ k
      least k = omega arith

  pub set_arrays-Arranged :
      (arrays : List (List B)) (n o : ℕ) (b : AudioBuffer A)
      → IsValid b
      → 0 < b.channels
      → o + n ≤ size b
      → HasArrays arrays b.channels n
      → Arranged arrays n o b
  unfolding rounds
  set_arrays-Arranged arrays n o b v pos room has =
      let u =
        each_channel-from_zero g
          (λ c b'. read (get_elem? arrays c) >>= λ src. set_array convert src 0 n c o b') b.channels
          b v
          (λ c b' hi v' ec el. rw (has.found c hi) (
            set_array-Updated convert g (has.array c) 0 n c o n b' v'
              (omega (arith, same_size b b' ec el)) (omega (arith, same_size b b' ec el))
              (λ l. omega (arith, has.room c hi))
              (λ i old l. rw (has.found c hi, zero-add (i - o)) refl))) in
      record {
        buffer = u.buffer;
        run = set_arrays_run arrays n o b pos ∙ u.run;
        channels = u.same_channels;
        same_valid = u.same_valid;
        same_size = Updated-size u;
        valid = Updated-IsValid u v;
        cells = λ c i lt li.
            u.cells c (o + i) lt (omega arith)
            ∙ rw
                (
                  within-true 0 b.channels c (omega arith) lt,
                  within-true o (o + n) (o + i) (omega arith) (omega arith),
                  back o i,
                )
                (joined-some convert b.samples (c * size b + (o + i))
                  (sample_in (get_elem? arrays c) i) (cell-inside b c (o + i) v lt (omega arith)));
        others = λ c i lt inside away.
            u.cells c i lt inside
            ∙ rw (within-true 0 b.channels c (omega arith) lt, within-false o (o + n) i away);
      }
    where
      g : ℕ → ℕ → Option A → Option A
      g d i old =
          if within o (o + n) i
          then joined (λ y x. convert x) old (sample_in (get_elem? arrays d) (i - o))
          else old

      back : (o i : ℕ) → o + i - o ≡ i
      back o i = omega arith
