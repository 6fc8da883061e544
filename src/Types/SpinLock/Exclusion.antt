-- ===== src/Types/SpinLock/Exclusion.antt =====
-- Mutual exclusion: what breaks it, and what would be enough for it.
use tklb.Base.{
  ℕ, ◌≡◌, ◌≢◌, refl, sym, ◌∙◌, Bool, true, false, List, [], ◌∷◌, ◌==◌, if◌then◌else◌, inl, inr,
  Bool-cases, ==→eq, ==→ne, eq→==, ne→==,
}
use tklb.Types.SpinLock.{
  Call, lock, try_lock, Place, outside, spinning, trying, setting, inside, SpinLock, move_to,
  unlocked, step_at, step, run_turns,
}

-- Two threads that call `lock` and read the flag before either has set it.
abbrev pub race : ℕ → ℕ → List (ℕ × Call)
race t u = (t, lock) ∷ (u, lock) ∷ (t, lock) ∷ (u, lock) ∷ (t, lock) ∷ (u, lock) ∷ []

-- Any two threads can hold the lock at the same time.
pub run_turns-race :
    (t u : ℕ)
    → t ≢ u
    → ((run_turns (race t u) unlocked).places t ≡ inside)
      × ((run_turns (race t u) unlocked).places u ≡ inside)
unfolding run_turns step step_at
run_turns-race t u ne =
    let same_t : (t == t) ≡ true = eq→== t t refl in
    let same_u : (u == u) ≡ true = eq→== u u refl in
    let tu : (t == u) ≡ false = ne→== t u ne in
    let ut : (u == t) ≡ false = ne→== u t (λ e. ne (sym e)) in
    (simp (same_t, same_u, tu, ut), simp (same_t, same_u, tu, ut))

-- While no thread holds the lock, one may stand between its test and the setting of the flag; otherwise
-- the flag is set and one thread holds the lock.
record IsExclusive (s : SpinLock) : Type 0 where
  set_next : (t : ℕ) → s.places t ≡ setting → s.flag ≡ false
  one_setting : (t u : ℕ) → s.places t ≡ setting → s.places u ≡ setting → t ≡ u
  free : s.flag ≡ false → (t : ℕ) → s.places t ≢ inside
  alone : (t u : ℕ) → s.places t ≡ inside → s.places u ≡ inside → t ≡ u

-- A thread that has passed its test takes the next turn.
abbrev pub Prompt : SpinLock → List (ℕ × Call) → Type 0
Prompt s [] = Unit
Prompt s (turn ∷ turns) = ((u : ℕ) → s.places u ≡ setting → turn.0 ≡ u) × Prompt (step s turn) turns

-- Where a thread has moved to `p`, the threads at a place other than `p` were there before.
unmoved :
    (s : SpinLock) (t u : ℕ) (p q : Place)
    → p ≢ q
    → (move_to s t p).places u ≡ q
    → (t ≢ u) × (s.places u ≡ q)
unmoved s t u p q ne h = elim (Bool-cases (u == t)) [
  | inl same ↦ absurd (ne (sym (rw same refl) ∙ h))
  | inr other ↦ (λ e. ==→ne u t other (sym e), rw other at h)
]

-- The thread that moves to `p` is the only one there, where no other was.
only_one :
    (s : SpinLock) (t : ℕ) (p : Place)
    → ((u : ℕ) → s.places u ≡ p → t ≡ u)
    → (u : ℕ) → (move_to s t p).places u ≡ p
    → t ≡ u
only_one s t p none u h = elim (Bool-cases (u == t)) [
  | inl same ↦ sym (==→eq u t same)
  | inr other ↦ none u (rw other at h)
]

module _ (s : SpinLock) (e : IsExclusive s) (t : ℕ) where
  moved : (p : Place) → p ≢ setting → p ≢ inside → IsExclusive (move_to s t p)
  moved p ns ni = record {
    set_next = λ u h. e.set_next u (unmoved s t u p setting ns h).1;
    one_setting = λ u v h k.
        e.one_setting u v (unmoved s t u p setting ns h).1 (unmoved s t v p setting ns k).1;
    free = λ f u h. e.free f u (unmoved s t u p inside ni h).1;
    alone = λ u v h k. e.alone u v (unmoved s t u p inside ni h).1 (unmoved s t v p inside ni k).1;
  }

  passed :
      s.flag ≡ false → ((u : ℕ) → s.places u ≡ setting → t ≡ u) → IsExclusive (move_to s t setting)
  passed f none = record {
    set_next = λ u h. f;
    one_setting = λ u v h k. sym (only_one s t setting none u h) ∙ only_one s t setting none v k;
    free = λ g u h. e.free g u (unmoved s t u setting inside (λ z. cc) h).1;
    alone = λ u v h k. absurd (e.free f u (unmoved s t u setting inside (λ z. cc) h).1);
  }

  taken : s.places t ≡ setting → IsExclusive (record (move_to s t inside) { flag = true })
  taken here =
      let f = e.set_next t here in
      let none = λ (u : ℕ) (h : (move_to s t inside).places u ≡ setting).
        let was = unmoved s t u inside setting (λ z. cc) h in
        was.0 (e.one_setting t u here was.1) in
      let mine = only_one s t inside (λ u h. absurd (e.free f u h)) in
      record {
        set_next = λ u h. absurd (none u h);
        one_setting = λ u v h k. absurd (none u h);
        free = λ g. absurd cc;
        alone = λ u v h k. sym (mine u h) ∙ mine v k;
      }

  released :
      s.places t ≡ inside
      → ((u : ℕ) → s.places u ≡ setting → t ≡ u)
      → IsExclusive (record (move_to s t outside) { flag = false })
  released here none =
      let gone = λ (u : ℕ) (h : (move_to s t outside).places u ≡ inside).
        let was = unmoved s t u outside inside (λ z. cc) h in was.0 (e.alone t u here was.1) in
      record {
        set_next = λ u h. refl;
        one_setting = λ u v h k.
            sym (none u (unmoved s t u outside setting (λ z. cc) h).1)
            ∙ none v (unmoved s t v outside setting (λ z. cc) k).1;
        free = λ g u h. gone u h;
        alone = λ u v h k. absurd (gone u h);
      }

-- A turn keeps the invariant, where a thread that has passed its test is the one that takes it.
step-IsExclusive :
    (s : SpinLock) (t : ℕ) (call : Call)
    → IsExclusive s
    → ((u : ℕ) → s.places u ≡ setting → t ≡ u)
    → IsExclusive (step s (t, call))
unfolding step step_at
step-IsExclusive s t call e prompt = by_place (s.places t) refl call
  where
    if_else :
        {x y : SpinLock} (b : Bool)
        → (b ≡ true → IsExclusive x)
        → (b ≡ false → IsExclusive y)
        → IsExclusive (if b then x else y)
    if_else true yes' no' = yes' refl
    if_else false yes' no' = no' refl

    by_place : (p : Place) → s.places t ≡ p → (c : Call) → IsExclusive (step_at p s t c)
    by_place outside h lock = moved s e t spinning (λ z. cc) (λ z. cc)
    by_place outside h try_lock = moved s e t trying (λ z. cc) (λ z. cc)
    by_place spinning h c = if_else s.flag (λ f. e) (λ f. passed s e t f prompt)
    by_place trying h c =
        if_else s.flag (λ f. moved s e t outside (λ z. cc) (λ z. cc)) (λ f. passed s e t f prompt)
    by_place setting h c = taken s e t h
    by_place inside h c = released s e t h prompt

run_turns-IsExclusive :
    (turns : List (ℕ × Call)) (s : SpinLock)
    → IsExclusive s
    → Prompt s turns
    → IsExclusive (run_turns turns s)
unfolding run_turns
run_turns-IsExclusive [] s e prompt = e
run_turns-IsExclusive ((t, call) ∷ turns) s e (now, later) =
    run_turns-IsExclusive turns (step s (t, call)) (step-IsExclusive s t call e now) later

-- Where a thread that has read a free flag always takes the next turn, no two threads hold the lock at
-- a time.
pub run_turns-Prompt :
    (turns : List (ℕ × Call)) (t u : ℕ)
    → Prompt unlocked turns
    → t ≢ u
    → (run_turns turns unlocked).places t ≡ inside
    → (run_turns turns unlocked).places u ≢ inside
run_turns-Prompt turns t u prompt ne h k =
    let start : IsExclusive unlocked = record {
      set_next = λ t h. refl;
      one_setting = λ t u h k. absurd cc;
      free = λ f t h. cc;
      alone = λ t u h k. absurd cc;
    } in
    ne ((run_turns-IsExclusive turns unlocked start prompt).alone t u h k)
