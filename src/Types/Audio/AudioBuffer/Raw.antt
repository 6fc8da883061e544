-- ===== src/Types/Audio/AudioBuffer/Raw.antt =====
-- `getRaw`.
use tklb.Base.{
  ℕ, zero, suc, ◌+◌, ◌*◌, ◌≤◌, ◌<◌, ◌≡◌, refl, ap, ◌∙◌, some, List, length, get_elem?, set, ltb,
  ltb→lt, ltb→le, Bool-cases, inl, inr, Run, ok, arith, get_elem?_of_lt, get_elem?-set_self,
  get_elem?-set_ne, length-set,
}
use tklb.Types.Audio.AudioBuffer.{AudioBuffer, size, start, raw_from, get_raw}
use tklb.Types.Audio.AudioBuffer.Cells.{IsValid, start_lem}

module _ {A : Type 0} (b : AudioBuffer A) where
  -- The pointers after the loop over the channels from `c` on.
  pub record Pointed (c : ℕ) (put : List ℕ) (r : Run (List ℕ)) : Type 0 where
    pub result : List ℕ
    pub run : r ≡ ok result
    pub pointers : (e : ℕ) → c ≤ e → e < b.channels → get_elem? result e ≡ some (e * size b)
    pub before : (e : ℕ) → e < c → get_elem? result e ≡ get_elem? put e

  raw_from-Pointed :
      (k c : ℕ) (put : List ℕ)
      → IsValid b
      → c + k ≡ b.channels
      → b.channels ≤ length put
      → Pointed c put (raw_from k c put b)
  unfolding raw_from
  raw_from-Pointed zero c put v e room = record {
    result = put;
    run = refl;
    pointers = λ d le lt. absurd (omega arith);
    before = λ d lt. refl;
  }
  raw_from-Pointed (suc k) c put v e room =
      let (old, found) = get_elem?_of_lt put c (omega arith) in
      let put' = set put c (start b c) in
      let rest =
        raw_from-Pointed k (c + 1) put' v (omega arith)
          (omega (arith, length-set put c (start b c))) in
      record {
        result = rest.result;
        run = rw found rest.run;
        pointers = λ d le lt. elim (Bool-cases (ltb c d)) [
          | inl later ↦ rest.pointers d (omega (arith, ltb→lt c d later)) lt
          | inr here ↦
              let same : d ≡ c = omega (arith, ltb→le c d here) in
              rw same (
                rest.before c (omega arith)
                ∙ get_elem?-set_self put c (start b c) (omega arith)
                ∙ ap some (start_lem b c v (omega arith)))
        ];
        before = λ d lt.
            rest.before d (omega arith)
            ∙ get_elem?-set_ne put c d (start b c) (λ same. omega arith);
      }

  -- `getRaw` puts a pointer to the first sample of each channel where there is room for them.
  pub get_raw-Pointed :
      (put : List ℕ) → IsValid b → b.channels ≤ length put → Pointed 0 put (get_raw put b)
  unfolding get_raw
  get_raw-Pointed put v room = raw_from-Pointed b.channels 0 put v (omega arith) room
