-- ===== src/Environment/Sharing.antt =====
-- Consumers of the manager that shares one environment.
use bazel_buildbarn.Prelude.{
  ℕ, zero, suc, ◌+◌, ◌^◌, ◌≤◌, ◌<◌, ◌≡◌, ◌≢◌, refl, ap, ◌∙◌, sym, inl, inr, List, [], ◌∷◌, Option,
  none, some, length, arith, get_elem?, Member,
}
use bazel_buildbarn.Util.Status.{Result, ok, err, fatal}
use bazel_buildbarn.Util.Digest.{Digest}
use bazel_buildbarn.Environment.{Manager, Platform, IsManager}
use bazel_buildbarn.Environment.Concurrent.{
  ConcurrentManager, IsShared, acquire, release, Joined, Left, acquire_lem, release_lem,
}

-- A consumer asks for an environment, or gives the one back that is held at the index.
pub data Call : Type 0 where
  take : Digest → Platform → Call
  give_back : ℕ → Call

module _ {E : Type 0} where
  abbrev pub without : List E → ℕ → List E
  without [] i = []
  without (e ∷ es) zero = es
  without (e ∷ es) (suc i) = e ∷ without es i

  length-without :
      (es : List E) (i : ℕ) (e : E)
      → get_elem? es i ≡ some e
      → suc (length (without es i)) ≡ length es
  length-without [] i e h = absurd (cc)
  length-without (x ∷ es) zero e h = refl
  length-without (x ∷ es) (suc i) e h = ap suc (length-without es i e h)

  Member-without : (x : E) (es : List E) (i : ℕ) → Member x (without es i) → Member x es
  Member-without x [] i m = m
  Member-without x (e ∷ es) zero m = inr m
  Member-without x (e ∷ es) (suc i) (inl s) = inl s
  Member-without x (e ∷ es) (suc i) (inr m) = inr (Member-without x es i m)

  Member-length : (x : E) (es : List E) → Member x es → length es ≢ 0
  Member-length x [] m e = m
  Member-length x (y ∷ es) m e = absurd (omega arith)

module _ {W E : Type 0} (base : Manager W E) where
  -- The manager, and the environments that consumers hold.
  abbrev pub Shared : Type 0
  Shared = ConcurrentManager W E × List E

  taken_by :
      List E → Option (Result E × ConcurrentManager W E) → Option (Result (Unit {0}) × Shared)
  taken_by held none = none
  taken_by held (some (ok e, em)) = some (ok tt, (em, e ∷ held))
  taken_by held (some (err x, em)) = some (ok tt, (em, held))
  taken_by held (some (fatal, em)) = some (fatal, (em, held))

  given_back :
      List E
      → Option (Result (Unit {0}) × ConcurrentManager W E)
      → Option (Result (Unit {0}) × Shared)
  given_back held none = none
  given_back held (some (r, em)) = some (r, (em, held))

  give : ConcurrentManager W E → List E → ℕ → Option E → Option (Result (Unit {0}) × Shared)
  unfolding given_back
  give em held i none = some (ok tt, (em, held))
  give em held i (some e) = given_back (without held i) (release base em e)

  -- An Acquire that fails gives the consumer nothing to hold.
  unfoldable pub step : Shared → Call → Option (Result (Unit {0}) × Shared)
  unfolding taken_by give
  step (em, held) (take digest platform) = taken_by held (acquire base em digest platform)
  step (em, held) (give_back i) = give em held i (get_elem? held i)

  then_run :
      Option (Result (Unit {0}) × Shared)
      → (Shared → Option (Result (Unit {0}) × Shared))
      → Option (Result (Unit {0}) × Shared)
  then_run (some (ok _, st)) rest = rest st
  then_run outcome rest = outcome

  unfoldable pub run : List Call → Shared → Option (Result (Unit {0}) × Shared)
  unfolding then_run
  run [] st = some (ok tt, st)
  run (call ∷ calls) st = then_run (step st call) (run calls)

  -- All hold the same environment, and they are as many as are counted.
  pub record IsHeld (out : W → ℕ) (st : Shared) : Type 0 where
    pub shared : IsShared out st.0
    pub counted : st.0.refcount ≡ length st.1
    pub same : (e : E) → Member e st.1 → st.0.environment ≡ some e

  abbrev pub Running : (W → ℕ) → ℕ → Option (Result (Unit {0}) × Shared) → Type 0
  Running out n none = ⊥
  Running out n (some (ok _, st)) = IsHeld out st × (length st.1 ≤ n)
  Running out n (some (err e, st)) = ⊥
  Running out n (some (fatal, st)) = ⊥

  module _ (out : W → ℕ) (law : IsManager base out 1) where
    taken_lem :
        (em : ConcurrentManager W E) (held : List E)
        (outcome : Option (Result E × ConcurrentManager W E))
        → IsHeld out (em, held)
        → Joined base out law em outcome
        → Running out (length held + 1) (taken_by held outcome)
    unfolding taken_by
    taken_lem em held none h j = j
    taken_lem em held (some (ok e, em')) h (count, own, kept, shared) =
        let before = h.counted in
        (
          record {
            shared = shared;
            counted = omega arith;
            same = λ x m. elim m [
              | inl s ↦ own ∙ ap some (sym s)
              | inr n ↦ kept (λ e. absurd (Member-length x held n (omega arith))) ∙ h.same x n
            ];
          },
          omega arith,
        )
    taken_lem em held (some (err x, em')) h (before, after, shared) =
        let counted = h.counted in
        (
          record {
            shared = shared;
            counted = omega arith;
            same = λ e m. absurd (Member-length e held m (omega arith));
          },
          omega arith,
        )
    taken_lem em held (some (fatal, em')) h j = j

    given_lem :
        (em : ConcurrentManager W E) (held left : List E)
        (outcome : Option (Result (Unit {0}) × ConcurrentManager W E))
        → IsHeld out (em, held)
        → suc (length left) ≡ length held
        → ((x : E) → Member x left → Member x held)
        → Left base out law em outcome
        → Running out (length held + 1) (given_back left outcome)
    unfolding given_back
    given_lem em held left none h one_less among l = l
    given_lem em held left (some (ok _, em')) h one_less among (count, kept, shared) =
        let counted = h.counted in
        (
          record {
            shared = shared;
            counted = omega arith;
            same = λ x m. kept ∙ h.same x (among x m);
          },
          omega arith,
        )
    given_lem em held left (some (err x, em')) h one_less among l = l
    given_lem em held left (some (fatal, em')) h one_less among l = l

    give_lem :
        (em : ConcurrentManager W E) (held : List E) (i : ℕ) (o : Option E)
        → IsHeld out (em, held)
        → get_elem? held i ≡ o
        → Running out (length held + 1) (give em held i o)
    unfolding give
    give_lem em held i none h e = (h, omega arith)
    give_lem em held i (some x) h e =
        let counted = h.counted in
        let shorter = length-without held i x e in
        given_lem em held (without held i) (release base em x) h shorter
          (λ y. Member-without y held i)
          (release_lem base out law em x h.shared (λ z. absurd (omega arith)))

    at_most :
        (n m : ℕ) (outcome : Option (Result (Unit {0}) × Shared))
        → n ≤ m
        → Running out n outcome
        → Running out m outcome
    at_most n m none le r = r
    at_most n m (some (ok _, st)) le (h, few) = (h, omega arith)
    at_most n m (some (err e, st)) le r = r
    at_most n m (some (fatal, st)) le r = r

    step_lem :
        (st : Shared) (call : Call)
        → IsHeld out st
        → length st.1 + 1 < 2 ^ 64
        → Running out (length st.1 + 1) (step st call)
    unfolding step
    step_lem (em, held) (take digest platform) h small =
        let counted = h.counted in
        taken_lem em held (acquire base em digest platform) h
          (acquire_lem base out law em digest platform h.shared (omega arith))
    step_lem (em, held) (give_back i) h small = give_lem em held i (get_elem? held i) h refl

    then_run_lem :
        (n m : ℕ) (outcome : Option (Result (Unit {0}) × Shared))
        (rest : Shared → Option (Result (Unit {0}) × Shared))
        → Running out n outcome
        → ((st : Shared) → IsHeld out st → length st.1 ≤ n → Running out m (rest st))
        → Running out m (then_run outcome rest)
    unfolding then_run
    then_run_lem n m none rest r go = r
    then_run_lem n m (some (ok _, st)) rest (h, few) go = go st h few
    then_run_lem n m (some (err e, st)) rest r go = r
    then_run_lem n m (some (fatal, st)) rest r go = r

    run_lem :
        (calls : List Call) (n : ℕ) (st : Shared)
        → IsHeld out st
        → length st.1 ≤ n
        → n + length calls < 2 ^ 64
        → Running out (n + length calls) (run calls st)
    unfolding run
    run_lem [] n st h few small = (h, omega arith)
    run_lem (call ∷ calls) n st h few small =
        then_run_lem (n + 1) (n + suc (length calls)) (step st call) (run calls)
          (at_most (length st.1 + 1) (n + 1) (step st call) (omega arith)
            (step_lem st call h (omega arith)))
          (λ st' h' few'.
            at_most (n + 1 + length calls) (n + suc (length calls)) (run calls st') (omega arith)
              (run_lem calls (n + 1) st' h' few' (omega arith)))

-- The manager that shares one environment does so for every sequence of calls of consumers that give
-- back only what they hold, in front of a manager of capacity 1 that keeps to the contract. No call
-- waits or ends the process; the consumers all hold the same environment; and the manager within has
-- given out one environment while some consumer holds it, and none otherwise. At the start this holds
-- too, and there are fewer than 2 ^ 64 consumers and calls.
pub run-IsHeld :
    {W E : Type 0} (base : Manager W E) (out : W → ℕ) (calls : List Call) (st : Shared base)
    → IsManager base out 1
    → IsHeld base out st
    → length st.1 + length calls < 2 ^ 64
    → (st' : Shared base) × (run base calls st ≡ some (ok tt, st')) × IsHeld base out st'
run-IsHeld base out calls st law h small =
    ended (run base calls st) (run_lem base out law calls (length st.1) st h (omega arith) small)
  where
    ended :
        (outcome : Option (Result (Unit {0}) × Shared base))
        → Running base out (length st.1 + length calls) outcome
        → (st' : Shared base) × (outcome ≡ some (ok tt, st')) × IsHeld base out st'
    ended none r = absurd r
    ended (some (ok _, st')) (h', few) = (st', refl, h')
    ended (some (err e, st')) r = absurd r
    ended (some (fatal, st')) r = absurd r
