-- ===== src/Circular/OffsetStore/Insert.antt =====
-- One step of Put: what it writes and what it hands on.
use bazel_buildbarn.Prelude.{
  ℕ, ◌+◌, ◌≤◌, ◌<◌, ◌≡◌, refl, inl, inr, List, length, Option, none, some, ◌==◌, if◌then◌else◌,
  arith, ◌⊎◌, Bool-cases, true, false, leb, Bool, ◌||◌, not,
}
use bazel_buildbarn.Util.Status.{Result, ok}
use bazel_buildbarn.Circular.Cursors.{Cursors}
use bazel_buildbarn.Circular.File.{ReadWriterAt, IsFile}
use bazel_buildbarn.Circular.Record.{get_attempt, get_offset, with_attempt, get_slot}
use bazel_buildbarn.Circular.OffsetStore.{position_of, is_valid, displace, put_record}
use bazel_buildbarn.Circular.OffsetStore.Slots.{
  IsAligned, get_position_of_slot-IsAligned, record_at, get_record_at_position-ok,
  put_record_at_position-ok, record_at-write_at,
}

-- A record that Put may displace but not simply overwrite: the cursors contain its data, its attempt
-- is not the last, and it is where its digest and attempt put it.
pub record IsSettled (size : ℕ) (cursors : Cursors) (position : ℕ) (r : List ℕ) : Type 0 where
  pub valid : is_valid cursors r ≡ true
  pub early : get_attempt r < 7
  pub placed : position_of size r ≡ position

module _ {F : Type 0} (ops : ReadWriterAt F) (content : F → ℕ → ℕ) (length_of : F → ℕ)
    (law : IsFile ops content length_of) (size : ℕ) (cursors : Cursors) where
  -- The record that stands where `r` belongs.
  abbrev pub occupant : F → List ℕ → List ℕ
  occupant file r = record_at ops content length_of law file (position_of size r)

  abbrev pub written : F → List ℕ → F
  written file r = (ops.write_at file r (position_of size r)).0

  pub put_record-displace :
      (file : F) (r : List ℕ)
      → put_record ops size cursors file r ≡ displace ops size cursors file r (occupant file r)
  unfolding put_record
  put_record-displace file r =
      rw (get_record_at_position-ok ops content length_of law file (position_of size r))

  -- The four ways in which a step ends.
  pub data Outcome (file : F) (r : List ℕ) : Result (Option (List ℕ)) × F → Type 0 where
    overwritten :
        ¬ (IsSettled size cursors (position_of size r) (occupant file r))
        → Outcome file r (ok none, written file r)
    displaced :
        IsSettled size cursors (position_of size r) (occupant file r)
        → get_offset (occupant file r) ≤ get_offset r
        → Outcome file r (
          ok (some (with_attempt (occupant file r) (get_attempt (occupant file r) + 1))),
          written file r,
        )
    moved_on :
        IsSettled size cursors (position_of size r) (occupant file r)
        → get_offset r < get_offset (occupant file r)
        → get_attempt r < 7
        → Outcome file r (ok (some (with_attempt r (get_attempt r + 1))), file)
    given_up :
        IsSettled size cursors (position_of size r) (occupant file r)
        → get_offset r < get_offset (occupant file r)
        → 7 ≤ get_attempt r
        → Outcome file r (ok none, file)

  module _ (file : F) (r : List ℕ) where
    abbrev old : List ℕ
    old = occupant file r

    abbrev unsettled : Bool
    unsettled =
        not (is_valid cursors old)
        || leb 7 (get_attempt old)
        || not (position_of size old == position_of size r)

    settled : unsettled ≡ false → IsSettled size cursors (position_of size r) old
    settled e = ground arith

    not-IsSettled : unsettled ≡ true → ¬ (IsSettled size cursors (position_of size r) old)
    not-IsSettled e s = ground (arith, s.valid, s.early, s.placed)

    -- One step of Put either overwrites a record that is not settled, or displaces a settled record
    -- that is no newer, or leaves a newer one alone and moves on or gives up.
    pub put_record-Outcome : Outcome file r (put_record ops size cursors file r)
    unfolding displace
    put_record-Outcome =
        let nothing : Option (List ℕ) = none in
        rw (put_record-displace file r) (elim (Bool-cases unsettled) [
          | inl e ↦
              rw
                (
                  e,
                  put_record_at_position-ok ops content length_of law nothing file r
                      (position_of size r),
                )
                (overwritten (not-IsSettled e))
          | inr e ↦ elim (Bool-cases (leb (get_offset old) (get_offset r))) [
            | inl older ↦
                rw
                  (
                    e,
                    older,
                    put_record_at_position-ok ops content length_of law
                        (some (with_attempt old (get_attempt old + 1))) file r (position_of size r),
                  )
                  (displaced (settled e) (ground arith))
            | inr newer ↦ elim (Bool-cases (leb 7 (get_attempt r))) [
              | inl last ↦ rw (e, newer, last) (given_up (settled e) (ground arith) (ground arith))
              | inr early ↦
                  rw (e, newer, early) (moved_on (settled e) (ground arith) (ground arith))
            ]
          ]
        ])

  -- What a step leaves at a position whose record was settled there.
  pub record Displaces (file : F) (r : List ℕ) (p : ℕ) (step : Result (Option (List ℕ)) × F)
      : Type 0 where
    pub either :
        (record_at ops content length_of law step.1 p ≡ record_at ops content length_of law file p)
        ⊎ ((record_at ops content length_of law step.1 p ≡ r)
            × (get_offset (record_at ops content length_of law file p) ≤ get_offset r)
            × (step.0
                ≡ ok (
                    some (
                      with_attempt
                        (record_at ops content length_of law file p)
                        (get_attempt (record_at ops content length_of law file p) + 1)))))

  module _ (file : F) (r : List ℕ) (p : ℕ) (aligned : IsAligned p) (full : length r ≡ 60)
      (s : IsSettled size cursors p (record_at ops content length_of law file p)) where
    after :
        record_at ops content length_of law (written file r) p
        ≡ (if position_of size r == p then r else record_at ops content length_of law file p)
    after =
        record_at-write_at ops content length_of law file r (position_of size r) p full
          (get_position_of_slot-IsAligned size (get_slot r)) aligned

    displaces :
        {step : Result (Option (List ℕ)) × F} → Outcome file r step → Displaces file r p step
    displaces (overwritten h) = record {
      either = elim (Bool-cases (position_of size r == p)) [
        | inl e ↦ let same : position_of size r ≡ p = ground arith in absurd (h (rw same s))
        | inr e ↦ inl (rw e at after)
      ];
    }
    displaces (displaced t o) = record {
      either = elim (Bool-cases (position_of size r == p)) [
        | inl e ↦
            let same : position_of size r ≡ p = ground arith in
            inr (rw e at after, rw same at o, rw same)
        | inr e ↦ inl (rw e at after)
      ];
    }
    displaces (moved_on t o e) = record { either = inl refl }
    displaces (given_up t o e) = record { either = inl refl }

  -- A step of Put never lets an older record take the place of a settled one: where the record that
  -- stood at any position was settled there, what stands at that position afterwards is that record
  -- still, or is the record being inserted, which is no older, and then the old record is handed on
  -- with its attempt raised by one.
  pub put_record-Displaces :
      (file : F) (r : List ℕ) (p : ℕ)
      → IsAligned p
      → length r ≡ 60
      → IsSettled size cursors p (record_at ops content length_of law file p)
      → Displaces file r p (put_record ops size cursors file r)
  put_record-Displaces file r p aligned full s =
      displaces file r p aligned full s (put_record-Outcome file r)
