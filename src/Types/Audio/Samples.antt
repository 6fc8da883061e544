-- ===== src/Types/Audio/Samples.antt =====
-- The loops over samples of src/types/audio/TAudioBuffer.hpp: `out[d] = …` for the indices `d`, `d + sd`, …
-- of one array with the samples at `s`, `s + ss`, … of another, or with none. An access out of bounds is
-- a fault.
use tklb.Base.{
  ℕ, zero, suc, ◌+◌, ◌*◌, ◌<◌, ◌≡◌, ◌≢◌, refl, ap, sym, ◌∙◌, Option, none, some, List, length,
  get_elem?, set, replicate, Run, ok, ◌>>=◌, read, arith, get_elem?_of_lt, get_elem?-set_self,
  get_elem?-set_ne, length-set,
}
use native.Mathlib.Nat.{suc-mul}

-- To show a property of the numbers below `suc n`.
from_zero :
    (P : ℕ → Type 0) (n : ℕ) → P zero → ((i : ℕ) → i < n → P (suc i)) → (i : ℕ) → i < suc n → P i
from_zero P n z s zero lt = z
from_zero P n z s (suc i) lt = s i (omega arith)

module _ {A B : Type 0} (f : A → B → A) where
  unfoldable pub sweep : ℕ → List A → ℕ → ℕ → List B → ℕ → ℕ → Run (List A)
  sweep zero dst d sd src s ss = ok dst
  sweep (suc n) dst d sd src s ss = read (get_elem? src s) >>= λ x.
      read (get_elem? dst d) >>= λ y. sweep n (set dst d (f y x)) (d + sd) sd src (s + ss) ss

  -- `f` on two cells.
  abbrev pub joined : Option A → Option B → Option A
  joined none x = none
  joined (some y) none = none
  joined (some y) (some x) = some (f y x)

  pub record Swept (n : ℕ) (dst : List A) (d sd : ℕ) (src : List B) (s ss : ℕ) : Type 0 where
    pub result : List A
    pub run : sweep n dst d sd src s ss ≡ ok result
    pub same_length : length result ≡ length dst
    pub written :
        (i : ℕ)
        → i < n
        → get_elem? result (d + i * sd)
          ≡ joined (get_elem? dst (d + i * sd)) (get_elem? src (s + i * ss))
    pub others : (j : ℕ) → ((i : ℕ) → i < n → j ≢ d + i * sd) → get_elem? result j ≡ get_elem? dst j

  pub sweep-Swept :
      (n : ℕ) (dst : List A) (d sd : ℕ) (src : List B) (s ss : ℕ)
      → 0 < sd
      → ((i : ℕ) → i < n → (d + i * sd < length dst) × (s + i * ss < length src))
      → Swept n dst d sd src s ss
  unfolding sweep
  sweep-Swept zero dst d sd src s ss pos inside = record {
    result = dst;
    run = refl;
    same_length = refl;
    written = λ i lt. absurd (omega arith);
    others = λ j no_write. refl;
  }
  sweep-Swept (suc n) dst d sd src s ss pos inside =
      let now = inside 0 (omega arith) in
      let (x, ex) = get_elem?_of_lt src s (omega (arith, now)) in
      let (y, ey) = get_elem?_of_lt dst d (omega (arith, now)) in
      let dst' = set dst d (f y x) in
      let w = sweep-Swept n dst' (d + sd) sd src (s + ss) ss pos (λ i lt.
        let later = inside (suc i) (omega arith) in
        (
          omega (arith, later, length-set dst d (f y x), suc-mul i sd),
          omega (arith, later, suc-mul i ss),
        )) in
      let first_cell : get_elem? w.result d ≡ some (f y x) =
        w.others d (λ i lt. omega arith) ∙ get_elem?-set_self dst d (f y x) (omega (arith, now)) in
      record {
        result = w.result;
        run = rw (ex, ey) w.run;
        same_length = w.same_length ∙ length-set dst d (f y x);
        written =
            from_zero
              (λ i.
                get_elem? w.result (d + i * sd)
                ≡ joined (get_elem? dst (d + i * sd)) (get_elem? src (s + i * ss)))
              n (rw (at_zero d sd, at_zero s ss) (first_cell ∙ rw (ex, ey)))
              (λ i lt.
                rw (at_suc d sd i, at_suc s ss i)
                  (w.written i lt
                    ∙ ap (λ c. joined c (get_elem? src (s + ss + i * ss)))
                        (get_elem?-set_ne dst d (d + sd + i * sd) (f y x) (omega arith))));
        others = λ j no_write.
            w.others j (λ i lt e. no_write (suc i) (omega arith) (e ∙ sym (at_suc d sd i)))
            ∙ get_elem?-set_ne dst d j (f y x) (λ e. no_write 0 (omega arith) (omega (arith, e)));
      }
    where
      at_zero : (d sd : ℕ) → d + 0 * sd ≡ d
      at_zero d sd = omega arith

      at_suc : (d sd i : ℕ) → d + suc i * sd ≡ d + sd + i * sd
      at_suc d sd i = omega (arith, suc-mul i sd)

-- The loop with no other array.
module _ {A : Type 0} (f : A → A) where
  unfoldable pub alter : ℕ → List A → ℕ → Run (List A)
  unfolding sweep
  alter n dst d = sweep (λ y x. f y) n dst d 1 (replicate n tt) 0 1
