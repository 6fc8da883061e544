-- ===== src/Types/Audio/ResamplerHold/Process.antt =====
-- What `process` writes to a channel.
use tklb.Base.{
  ℕ, zero, suc, ◌+◌, ◌≤◌, ◌<◌, ◌≡◌, ◌≢◌, refl, sym, ◌∙◌, ◌⊎◌, inl, inr, List, length, get_elem?,
  set, length-set, get_elem?-set_self, get_elem?-set_ne, get_elem?_of_lt, leb, leb→le, leb→lt, ◌==◌,
  ==→eq, ==→ne, if◌then◌else◌, Bool-cases, Run, ok, ◌>>=◌, arith,
}
use tklb.Types.Audio.ResamplerHold.{hold_from}

-- Where the loop ends.
unfoldable pub end_of : (ℕ → ℕ) → ℕ → ℕ → ℕ → ℕ
end_of closest zero output count_in = output
end_of closest (suc k) output count_in =
    if leb count_in (closest output) then output else end_of closest k (output + 1) count_in

pub end_of-stops :
    (closest : ℕ → ℕ) (k output count_in : ℕ)
    → (end_of closest k output count_in ≡ output + k)
      ⊎ (count_in ≤ closest (end_of closest k output count_in))
unfolding end_of
end_of-stops closest zero output count_in = inl (omega arith)
end_of-stops closest (suc k) output count_in = elim (Bool-cases (leb count_in (closest output))) [
  | inl over ↦ rw over (inr (leb→le count_in (closest output) over))
  | inr inside ↦ rw inside (later (end_of-stops closest k (output + 1) count_in))
]
  where
    later :
        {n : ℕ}
        → (n ≡ output + 1 + k) ⊎ (count_in ≤ closest n)
        → (n ≡ output + suc k) ⊎ (count_in ≤ closest n)
    later (inl e) = inl (omega arith)
    later (inr h) = inr h

pub end_of-before :
    (closest : ℕ → ℕ) (k output count_in m : ℕ)
    → output ≤ m
    → m < end_of closest k output count_in
    → closest m < count_in
unfolding end_of
end_of-before closest zero output count_in m le lt = absurd (omega arith)
end_of-before closest (suc k) output count_in m le lt =
    elim (Bool-cases (leb count_in (closest output))) [
      | inl over ↦ let none : m < output = rw over at lt in absurd (omega arith)
      | inr inside ↦
          let lt' : m < end_of closest k (output + 1) count_in = rw inside at lt in
          elim (Bool-cases (m == output)) [
            | inl here ↦ rw (==→eq m output here) (leb→lt count_in (closest output) inside)
            | inr other ↦
                end_of-before closest k (output + 1) count_in m
                  (omega (arith, ==→ne m output other)) lt'
          ]
    ]

module _ {A : Type 0} (closest : ℕ → ℕ) where
  -- The samples from `output` up to `end` hold the closest ones of the input, and there the input or the
  -- output ends.
  pub record Held (k output count_in : ℕ) (sound : List A) (i o : ℕ) (out : List A)
      (r : Run (ℕ × List A)) : Type 0 where
    pub end : ℕ
    pub result : List A
    pub run : r ≡ ok (end, result)
    pub same_length : length result ≡ length out
    pub ends : end ≡ end_of closest k output count_in
    pub from : output ≤ end
    pub stops : (end ≡ output + k) ⊎ (count_in ≤ closest end)
    pub held :
        (m : ℕ) → output ≤ m → m < end → get_elem? result (o + m) ≡ get_elem? sound (i + closest m)
    pub others :
        (j : ℕ)
        → ((m : ℕ) → output ≤ m → m < end → j ≢ o + m)
        → get_elem? result j ≡ get_elem? out j

  -- The loop over a channel holds the closest sample of the input in each sample of the output, up to the
  -- end of either, where the input has its valid samples and the output has the samples of the loop.
  pub hold_from-Held :
      (k output count_in : ℕ) (sound : List A) (i o : ℕ) (out : List A)
      → i + count_in ≤ length sound
      → o + output + k ≤ length out
      → Held k output count_in sound i o out (hold_from closest k output count_in sound i o out)
  unfolding hold_from end_of
  hold_from-Held zero output count_in sound i o out reads room = record {
    end = output;
    result = out;
    run = refl;
    same_length = refl;
    ends = refl;
    from = omega arith;
    stops = inl (omega arith);
    held = λ m l l'. absurd (omega arith);
    others = λ j no_write. refl;
  }
  hold_from-Held (suc k) output count_in sound i o out reads room =
      elim (Bool-cases (leb count_in (closest output))) [
        | inl over ↦ rw over (record {
          end = output;
          result = out;
          run = refl;
          same_length = refl;
          ends = rw over refl;
          from = omega arith;
          stops = inr (leb→le count_in (closest output) over);
          held = λ m l l'. absurd (omega arith);
          others = λ j no_write. refl;
        })
        | inr inside ↦
            let lt = leb→lt count_in (closest output) inside in
            let (x, ex) = get_elem?_of_lt sound (i + closest output) (omega arith) in
            let (y, ey) = get_elem?_of_lt out (o + output) (omega arith) in
            let same = length-set out (o + output) x in
            let w =
              hold_from-Held k (output + 1) count_in sound i o (set out (o + output) x) reads
                (omega (arith, same)) in
            rw (inside, ex, ◌>>=◌, ey)
              (record {
                end = w.end;
                result = w.result;
                run = w.run;
                same_length = w.same_length ∙ same;
                ends = rw inside w.ends;
                from = omega (arith, w.from);
                stops = later w.end w.stops;
                held = λ m l l'. elim (Bool-cases (m == output)) [
                  | inl now ↦
                      let here = ==→eq m output now in
                      rw here (
                        w.others (o + output) (λ n le lt' e. omega arith)
                        ∙ get_elem?-set_self out (o + output) x (omega arith)
                        ∙ sym ex)
                  | inr after ↦ w.held m (omega (arith, ==→ne m output after)) l'
                ];
                others = λ j no_write.
                    w.others j (λ m le lt'. no_write m (omega arith) lt')
                    ∙ get_elem?-set_ne out (o + output) j x
                        (λ e. no_write output (omega arith) (omega (arith, w.from)) (sym e));
              })
      ]
    where
      later :
          (end : ℕ)
          → (end ≡ output + 1 + k) ⊎ (count_in ≤ closest end)
          → (end ≡ output + suc k) ⊎ (count_in ≤ closest end)
      later end (inl e) = inl (omega arith)
      later end (inr l) = inr l
