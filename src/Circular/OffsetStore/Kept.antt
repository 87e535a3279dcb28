-- ===== src/Circular/OffsetStore/Kept.antt =====
-- Put of the newest record leaves it where a lookup finds it first, whatever it displaces.
use bazel_buildbarn.Prelude.{
  ℕ, zero, suc, ◌+◌, ◌≤◌, ◌<◌, ◌≡◌, ◌≢◌, refl, ap, sym, ◌∙◌, inl, inr, List, length, Option, none,
  some, ◌==◌, if◌then◌else◌, arith, ◌⊎◌, Bool-cases, true, ltb,
}
use bazel_buildbarn.Util.Status.{Result, ok}
use bazel_buildbarn.Circular.Cursors.{Cursors}
use bazel_buildbarn.Circular.File.{ReadWriterAt, IsFile}
use bazel_buildbarn.Circular.Record.{get_attempt, get_offset, with_attempt, get_slot}
use bazel_buildbarn.Circular.Record.Fields.{get_offset-with_attempt, length-with_attempt}
use bazel_buildbarn.Circular.OffsetStore.{position_of, is_valid, put_loop}
use bazel_buildbarn.Circular.OffsetStore.Slots.{
  IsAligned, get_position_of_slot-IsAligned, record_at, record_at-write_at, length-record_at,
}
use bazel_buildbarn.Circular.OffsetStore.Insert.{
  IsSettled, Outcome, overwritten, displaced, moved_on, given_up, put_record-Outcome, occupant,
  written,
}

module _ {F : Type 0} (ops : ReadWriterAt F) (content : F → ℕ → ℕ) (length_of : F → ℕ)
    (law : IsFile ops content length_of) (size : ℕ) (cursors : Cursors) where
  abbrev pub at : F → ℕ → List ℕ
  at = record_at ops content length_of law

  -- Every record whose data the cursors contain is older than the offset, save at one position.
  record IsNewest (file : F) (offset spared : ℕ) : Type 0 where
    older :
        (p : ℕ)
        → IsAligned p
        → p ≢ spared
        → is_valid cursors (at file p) ≡ true
        → get_offset (at file p) < offset

  module _ (r : List ℕ) (full : length r ≡ 60) (valid : is_valid cursors r ≡ true)
      (first : get_attempt r ≡ 0) where
    abbrev pub home : ℕ
    home = position_of size r

    -- `r` is stored, and `next` is an older record that is still to be inserted.
    record Kept (file : F) (next : List ℕ) : Type 0 where
      stored : at file home ≡ r
      newest : IsNewest file (get_offset r) home
      whole : length next ≡ 60
      older : get_offset next < get_offset r

    module _ (file : F) (next : List ℕ) (k : Kept file next) where
      abbrev place : ℕ
      place = position_of size next

      abbrev there : List ℕ
      there = occupant ops content length_of law size cursors file next

      at_home : place ≡ home → there ≡ r
      at_home e = rw e k.stored

      home-IsSettled : place ≡ home → IsSettled size cursors place there
      home-IsSettled e =
          rw (at_home e) (record { valid = valid; early = omega (arith, first); placed = sym e })

      at_written :
          (p : ℕ)
          → IsAligned p
          → at (written ops content length_of law size cursors file next) p
            ≡ (if place == p then next else at file p)
      at_written p aligned =
          record_at-write_at ops content length_of law file next place p k.whole
            (get_position_of_slot-IsAligned size (get_slot next)) aligned

      keeps_home :
          place ≢ home → at (written ops content length_of law size cursors file next) home ≡ r
      keeps_home away =
          at_written home (get_position_of_slot-IsAligned size (get_slot r))
          ∙ ground (arith, away, k.stored)

      written-IsNewest :
          IsNewest (written ops content length_of law size cursors file next) (get_offset r) home
      written-IsNewest = record {
        older = λ p aligned away ok_p. elim (Bool-cases (place == p)) [
          | inl e ↦ let here = rw e at (at_written p aligned) in rw here k.older
          | inr e ↦
              let here = rw e at (at_written p aligned) in
              rw here (k.newest.older p aligned away (rw here at ok_p))
        ];
      }

    -- A record keeps its offset and its size when its attempt changes.
    module _ (file : F) (old : List ℕ) (attempt : ℕ) where
      passed_on :
          at file home ≡ r
          → IsNewest file (get_offset r) home
          → length old ≡ 60
          → get_offset old < get_offset r
          → Kept file (with_attempt old attempt)
      passed_on stored newest whole older = record {
        stored = stored;
        newest = newest;
        whole = length-with_attempt old attempt whole;
        older = rw (get_offset-with_attempt old attempt whole) older;
      }

    -- What a step does to a file in which `r` is stored.
    record Keeps (p : Result (Option (List ℕ)) × F) : Type 0 where
      stored : at p.1 home ≡ r
      returns : (p.0 ≡ ok none) ⊎ ((n : List ℕ) × (p.0 ≡ ok (some n)))
      further : (n : List ℕ) → p.0 ≡ ok (some n) → Kept p.1 n

    step-Keeps :
        (file : F) (next : List ℕ) {p : Result (Option (List ℕ)) × F}
        → Kept file next
        → Outcome ops content length_of law size cursors file next p
        → Keeps p
    step-Keeps file next k (overwritten h) = record {
      stored = keeps_home file next k (λ e. h (home-IsSettled file next k e));
      returns = inl refl;
      further = λ n e. cc;
    }
    step-Keeps file next k (displaced s o) =
        let away : position_of size next ≢ home = λ e.
          (let same = at_home file next k e in
            let older = k.older in absurd (omega (arith, ap get_offset same))) in
        record {
          stored = keeps_home file next k away;
          returns = inr (_, refl);
          further = λ n e.
              let same : with_attempt (there file next k) (get_attempt (there file next k) + 1)
                  ≡ n =
                cc in
              rw (← same) (
                passed_on _ (there file next k) _ (keeps_home file next k away)
                  (written-IsNewest file next k)
                  (length-record_at ops content length_of law file (place file next k))
                  (let older = k.older in omega (arith, o)));
        }
    step-Keeps file next k (moved_on s o e) = record {
      stored = k.stored;
      returns = inr (_, refl);
      further = λ n e'.
          let same : with_attempt next (get_attempt next + 1) ≡ n = cc in
          rw (← same) (passed_on file next _ k.stored k.newest k.whole k.older);
    }
    step-Keeps file next k (given_up s o e) = record {
      stored = k.stored;
      returns = inl refl;
      further = λ n e. cc;
    }

    -- The step that inserts `r` itself, into a file whose records are all older.
    module _ (file : F)
        (older : (p : ℕ)
          → IsAligned p
          → is_valid cursors (at file p) ≡ true
          → get_offset (at file p) < get_offset r) where
      abbrev before : List ℕ
      before = at file home

      home-IsAligned : IsAligned home
      home-IsAligned = get_position_of_slot-IsAligned size (get_slot r)

      inserted_at :
          (p : ℕ)
          → IsAligned p
          → at (written ops content length_of law size cursors file r) p
            ≡ (if home == p then r else at file p)
      inserted_at p aligned =
          record_at-write_at ops content length_of law file r home p full home-IsAligned aligned

      inserted_home : at (written ops content length_of law size cursors file r) home ≡ r
      inserted_home = inserted_at home home-IsAligned ∙ ground arith

      inserted-IsNewest :
          IsNewest (written ops content length_of law size cursors file r) (get_offset r) home
      inserted-IsNewest = record {
        older = λ p aligned away ok_p.
            let same : at (written ops content length_of law size cursors file r) p ≡ at file p =
              inserted_at p aligned ∙ ground (arith, away) in
            rw same (older p aligned (rw same at ok_p));
      }

      first-Keeps :
          {p : Result (Option (List ℕ)) × F}
          → Outcome ops content length_of law size cursors file r p
          → Keeps p
      first-Keeps (overwritten h) = record {
        stored = inserted_home;
        returns = inl refl;
        further = λ n e. cc;
      }
      first-Keeps (displaced s o) = record {
        stored = inserted_home;
        returns = inr (_, refl);
        further = λ n e.
            let same : with_attempt before (get_attempt before + 1) ≡ n = cc in
            rw (← same) (
              passed_on _ before _ inserted_home inserted-IsNewest
                (length-record_at ops content length_of law file home)
                (older home home-IsAligned s.valid));
      }
      first-Keeps (moved_on s o e) =
          let newer = older home home-IsAligned s.valid in absurd (omega arith)
      first-Keeps (given_up s o e) =
          let newer = older home home-IsAligned s.valid in absurd (omega arith)

    -- The loop of Put, from a step that keeps `r`.
    put_loop_keeps :
        (fuel iteration : ℕ) (file : F) (next : List ℕ)
        → 0 < fuel
        → 10 ≤ fuel + iteration
        → Kept file next
        → ((put_loop ops size cursors fuel iteration file next).0 ≡ ok tt)
          × (at (put_loop ops size cursors fuel iteration file next).1 home ≡ r)
    unfolding put_loop
    put_loop_keeps zero iteration file next pos enough k = absurd (omega arith)
    put_loop_keeps (suc fuel) iteration file next pos enough k =
        let keeps =
          step-Keeps file next k
            (put_record-Outcome ops content length_of law size cursors file next) in
        elim (Bool-cases (ltb 8 iteration)) [
          | inl done ↦ rw done (refl, k.stored)
          | inr more ↦ elim keeps.returns [
            | inl e ↦ rw (more, e) (refl, keeps.stored)
            | inr (n, e) ↦
                rw (more, e)
                  (put_loop_keeps fuel (iteration + 1) _ n (ground arith) (omega arith)
                    (keeps.further n e))
          ]
        ]

    pub put_loop_inserts :
        (file : F)
        → ((p : ℕ)
            → IsAligned p
            → is_valid cursors (at file p) ≡ true
            → get_offset (at file p) < get_offset r)
        → ((put_loop ops size cursors 10 1 file r).0 ≡ ok tt)
          × (at (put_loop ops size cursors 10 1 file r).1 home ≡ r)
    unfolding put_loop
    put_loop_inserts file older =
        let keeps =
          first-Keeps file older
            (put_record-Outcome ops content length_of law size cursors file r) in
        elim keeps.returns [
          | inl e ↦ rw e (refl, keeps.stored)
          | inr (n, e) ↦
              rw e (put_loop_keeps 9 2 _ n (omega arith) (omega arith) (keeps.further n e))
        ]

    -- When the record that stands at home is not settled, it is simply overwritten.
    pub put_loop_overwrites :
        (file : F)
        → ¬ (IsSettled size cursors home (at file home))
        → ((put_loop ops size cursors 10 1 file r).0 ≡ ok tt)
          × (at (put_loop ops size cursors 10 1 file r).1 home ≡ r)
    unfolding put_loop
    put_loop_overwrites file unsettled =
        let (returns, now) =
          overwrites file unsettled
            (put_record-Outcome ops content length_of law size cursors file r) in
        rw returns (refl, now)
      where
        overwrites :
            (file : F) {p : Result (Option (List ℕ)) × F}
            → ¬ (IsSettled size cursors home (at file home))
            → Outcome ops content length_of law size cursors file r p
            → (p.0 ≡ ok none) × (at p.1 home ≡ r)
        overwrites file u (overwritten h) = (
          refl,
          record_at-write_at ops content length_of law file r home home full
                (get_position_of_slot-IsAligned size (get_slot r))
                (get_position_of_slot-IsAligned size (get_slot r))
              ∙ ground arith,
        )
        overwrites file u (displaced s o) = absurd (u s)
        overwrites file u (moved_on s o e) = absurd (u s)
        overwrites file u (given_up s o e) = absurd (u s)
