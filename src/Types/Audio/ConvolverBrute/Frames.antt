-- ===== src/Types/Audio/ConvolverBrute/Frames.antt =====
-- The loop over the frames of a channel.
use tklb.Base.{
  ℕ, zero, suc, ◌+◌, ◌-◌, ◌≤◌, ◌<◌, ◌^◌, ◌≡◌, ◌≢◌, refl, ap, sym, ◌∙◌, List, length, get_elem?, set,
  length-set, get_elem?-set_self, get_elem?-set_ne, get_elem?-lt, get_elem?_of_lt, some, Run, ok,
  arith, min, leb, ltb, ◌==◌, Bool-cases, inl, inr, leb→le, leb→lt, ltb→le, ltb→lt, ==→eq, ==→ne,
}
use mathlib.Core.Option.{some-injective}
use native.Mathlib.Nat.{zero-add}
use tklb.Types.Audio.ConvolverBrute.{first_tap, last_tap, taps, frames}
use tklb.Types.Audio.ConvolverBrute.Sum.{convolved, convolved-add, convolved-zero, taps-convolved}

first_tap_lem : (ng i : ℕ) → 0 < ng → ng < 2 ^ 32 → i < 2 ^ 32 → first_tap ng i ≡ i - (ng - 1)
unfolding first_tap
first_tap_lem ng i pos small small' = ground arith

last_tap_lem : (nf i : ℕ) → 0 < nf → nf < 2 ^ 32 → last_tap nf i ≡ min i (nf - 1)
unfolding last_tap
last_tap_lem nf i pos small = ground arith

module _ {A : Type 0} (plus times : A → A → A) (nothing : A) where
  -- Adding zero and multiplying with zero.
  pub record HasZero : Type 0 where
    pub plus_zero : (y : A) → plus y nothing ≡ y
    pub zero_times : (x : A) → times nothing x ≡ nothing
    pub times_zero : (x : A) → times x nothing ≡ nothing

  module _ (laws : HasZero) where
    -- The loop over the terms that both have is the whole sum.
    convolved-taps :
        (f g : ℕ → A) (nf ng i : ℕ) (y : A)
        → 0 < nf
        → 0 < ng
        → ((m : ℕ) → nf ≤ m → f m ≡ nothing)
        → ((m : ℕ) → ng ≤ m → g m ≡ nothing)
        → convolved plus times f g i (suc (min i (nf - 1)) - (i - (ng - 1))) (i - (ng - 1)) y
          ≡ convolved plus times f g i (suc i) 0 y
    convolved-taps f g nf ng i y pos pos' f_zero g_zero = elim (Bool-cases (leb a (suc b))) [
      | inl le ↦
          let le' = leb→le a (suc b) le in
          let parts : a + (k + (i - b)) ≡ suc i = omega arith in
          sym (
            ap (λ n. convolved plus times f g i n 0 y) (sym parts)
            ∙ convolved-add plus times f g i a (k + (i - b)) 0 y
            ∙ ap
                (λ j. convolved plus times f g i (k + (i - b)) j (convolved plus times f g i a 0 y))
                (zero-add a)
            ∙ ap (convolved plus times f g i (k + (i - b)) a) (
                convolved-zero plus times nothing laws.plus_zero f g i a 0 y
                  (λ m l lt. late m (omega arith)))
            ∙ convolved-add plus times f g i k (i - b) a y
            ∙ convolved-zero plus times nothing laws.plus_zero f g i (i - b) (a + k)
                (convolved plus times f g i k a y) (λ m l lt. early m (omega arith)))
      | inr more ↦
          let lt' = leb→lt a (suc b) more in
          let none : k ≡ 0 = omega arith in
          ap (λ n. convolved plus times f g i n a y) none
          ∙ sym (
              convolved-zero plus times nothing laws.plus_zero f g i (suc i) 0 y (λ m l lt.
                elim (Bool-cases (ltb m a)) [
                  | inl before ↦ let lt'' = ltb→lt m a before in late m (omega arith)
                  | inr behind ↦ let le'' = ltb→le m a behind in early m (omega arith)
                ]))
    ]
      where
        a : ℕ
        a = i - (ng - 1)

        b : ℕ
        b = min i (nf - 1)

        k : ℕ
        k = suc b - a

        late : (m : ℕ) → ng ≤ i - m → times (f m) (g (i - m)) ≡ nothing
        late m h = ap (times (f m)) (g_zero (i - m) h) ∙ laws.times_zero (f m)

        early : (m : ℕ) → nf ≤ m → times (f m) (g (i - m)) ≡ nothing
        early m h = ap (λ u. times u (g (i - m))) (f_zero m h) ∙ laws.zero_times (g (i - m))

    -- The samples `i` up to `i + k` of a channel of the output after the loop.
    pub record Framed (f g : ℕ → A) (k i o : ℕ) (out : List A) (r : Run (List A)) : Type 0 where
      pub result : List A
      pub run : r ≡ ok result
      pub same_length : length result ≡ length out
      pub written :
          (m : ℕ) (y : A)
          → i ≤ m
          → m < i + k
          → get_elem? out (o + m) ≡ some y
          → get_elem? result (o + m) ≡ some (convolved plus times f g m (suc m) 0 y)
      pub others :
          (j : ℕ) → ((m : ℕ) → i ≤ m → m < i + k → j ≢ o + m) → get_elem? result j ≡ get_elem? out j

    module _ (f g : ℕ → A) (nf ng : ℕ) (ir : List A) (h : ℕ) (sound : List A) (x : ℕ)
        (response : 0 < nf) (input : 0 < ng) (nf_fits : nf < 2 ^ 32) (ng_fits : ng < 2 ^ 32)
        (in_ir : (m : ℕ) → m < nf → get_elem? ir (h + m) ≡ some (f m))
        (behind_ir : (m : ℕ) → nf ≤ m → f m ≡ nothing)
        (in_sound : (m : ℕ) → m < ng → get_elem? sound (x + m) ≡ some (g m))
        (behind_sound : (m : ℕ) → ng ≤ m → g m ≡ nothing) where
      one_frame :
          (i d : ℕ) (out : List A) (y : A)
          → i < 2 ^ 32
          → get_elem? out d ≡ some y
          → taps plus times
              (suc (last_tap nf i) - first_tap ng i)
              (first_tap ng i)
              i
              ir
              h
              sound
              x
              d
              out
            ≡ ok (set out d (convolved plus times f g i (suc i) 0 y))
      one_frame i d out y small here =
          rw (first_tap_lem ng i input ng_fits small, last_tap_lem nf i response nf_fits)
            (taps-convolved plus times (suc (min i (nf - 1)) - (i - (ng - 1))) (i - (ng - 1)) i ir h
                sound x d out y f g small (omega arith) here (λ m le lt. in_ir m (omega arith))
                (λ m le lt. in_sound (i - m) (omega arith))
              ∙ ap (λ v. ok (set out d v))
                  (convolved-taps f g nf ng i y response input behind_ir behind_sound))

      pub frames-Framed :
          (k i o : ℕ) (out : List A)
          → i + k ≤ 2 ^ 32
          → o + i + k ≤ length out
          → Framed f g k i o out (frames plus times k i nf ng ir h sound x o out)
      unfolding frames
      frames-Framed zero i o out small room = record {
        result = out;
        run = refl;
        same_length = refl;
        written = λ m y le lt e. absurd (omega arith);
        others = λ j no_write. refl;
      }
      frames-Framed (suc k) i o out small room =
          let (y, here) = get_elem?_of_lt out (o + i) (omega arith) in
          let v = convolved plus times f g i (suc i) 0 y in
          let out' = set out (o + i) v in
          let w =
            frames-Framed k (i + 1) o out' (omega arith)
              (omega (arith, length-set out (o + i) v)) in
          record {
            result = w.result;
            run = rw (one_frame i (o + i) out y (omega arith) here) w.run;
            same_length = w.same_length ∙ length-set out (o + i) v;
            written = λ m y' le lt e. elim (Bool-cases (m == i)) [
              | inl now ↦
                  let same : m ≡ i = ==→eq m i now in
                  let old : y ≡ y' =
                    some-injective y y'
                      (sym here ∙ ap (λ n. get_elem? out (o + n)) (sym same) ∙ e) in
                  rw (same, sym old)
                    (w.others (o + i) (λ n l l' e'. omega arith)
                      ∙ get_elem?-set_self out (o + i) v (get_elem?-lt out (o + i) y here))
              | inr later ↦
                  let differs = ==→ne m i later in
                  w.written m y' (omega arith) (omega arith)
                    (get_elem?-set_ne out (o + i) (o + m) v (λ e'. omega arith) ∙ e)
            ];
            others = λ j no_write.
                w.others j (λ m le lt. no_write m (omega arith) (omega arith))
                ∙ get_elem?-set_ne out (o + i) j v
                    (λ e. no_write i (omega arith) (omega arith) (sym e));
          }
