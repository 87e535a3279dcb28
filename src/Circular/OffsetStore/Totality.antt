-- ===== src/Circular/OffsetStore/Totality.antt =====
-- Get and Put end by their own tests: the fuel of their loops is enough.
use bazel_buildbarn.Prelude.{
  ℕ, zero, suc, ◌+◌, ◌-◌, ◌/◌, ◌≤◌, ◌<◌, ◌≡◌, ◌≢◌, inl, inr, List, Option, none, some, ◌==◌, arith,
  Bool, if◌then◌else◌, Bool-cases, true, false, ltb,
}
use bazel_buildbarn.Util.Status.{
  Result, ok, fatal, Result-cases, Error, eof, status, violation, other,
}
use bazel_buildbarn.Util.Digest.{Digest, IsDigest}
use bazel_buildbarn.Util.Digest.Validation.{valid_digest_is_usable}
use bazel_buildbarn.Circular.Cursors.{Cursors}
use bazel_buildbarn.Circular.File.{ReadWriterAt}
use bazel_buildbarn.Circular.Record.{new_simple_digest, with_attempt}
use bazel_buildbarn.Circular.OffsetStore.{
  read_record, get_record_at_position, put_record_at_position, position_of, displace, put_record,
  get_loop, put_loop, FileOffsetStore, get, put,
}

-- The outcome of a step is not log.Fatal and no panic.
record Ends {S A : Type 0} (p : Result A × S) : Type 0 where
  ends : p.0 ≢ fatal

Ends-ok : {S A : Type 0} (a : A) (s : S) → Ends (ok a, s)
Ends-ok a s = record { ends = λ h. cc }

Ends-if :
    {S A : Type 0} (b : Bool) {p q : Result A × S} → Ends p → Ends q → Ends (if b then p else q)
Ends-if true hp hq = hp
Ends-if false hp hq = hq

module _ {F : Type 0} (ops : ReadWriterAt F) where
  read_record-ne-fatal : (x : List ℕ × Option Error) → read_record ops x ≢ fatal
  unfolding read_record
  read_record-ne-fatal (b, none) h = cc
  read_record-ne-fatal (b, some eof) h = cc
  read_record-ne-fatal (b, some (status c m)) h = cc
  read_record-ne-fatal (b, some (violation c m t u)) h = cc
  read_record-ne-fatal (b, some (other m)) h = cc

  get_record-ne-fatal : (f : F) (p : ℕ) → get_record_at_position ops f p ≢ fatal
  unfolding get_record_at_position
  get_record-ne-fatal f p = read_record-ne-fatal (ops.read_at f 60 p)

  put_record_at-Ends :
      {A : Type 0} (a : A) (f : F) (r : List ℕ) (p : ℕ) → Ends (put_record_at_position ops a f r p)
  unfolding put_record_at_position
  put_record_at-Ends a f r p = record { ends = ground arith }

  module _ (size : ℕ) (cursors : Cursors) where
    get_loop-ne-fatal :
        (fuel iteration : ℕ) (file : F) (r : List ℕ)
        → 0 < fuel
        → 9 ≤ fuel + iteration
        → get_loop ops size cursors fuel iteration file r ≢ fatal
    unfolding get_loop
    get_loop-ne-fatal zero iteration file r pos enough h = absurd (omega arith)
    get_loop-ne-fatal (suc fuel) iteration file r pos enough h = ground (
      arith,
      get_record-ne-fatal file (position_of size (with_attempt r (iteration - 1))),
      get_loop-ne-fatal fuel (iteration + 1) file r,
    )

    displace-Ends : (file : F) (r old : List ℕ) → Ends (displace ops size cursors file r old)
    unfolding displace
    displace-Ends file r old = search (Ends-if, put_record_at-Ends, Ends-ok)

    put_record-ne-fatal : (file : F) (r : List ℕ) → (put_record ops size cursors file r).0 ≢ fatal
    unfolding put_record
    put_record-ne-fatal file r =
        elim (Result-cases (get_record_at_position ops file (position_of size r))) [
          | inl (old, e) ↦ rw e (displace-Ends file r old).ends
          | inr (inl (x, e)) ↦ rw e (λ h. cc)
          | inr (inr e) ↦ absurd (get_record-ne-fatal file (position_of size r) e)
        ]

    put_loop-ne-fatal :
        (fuel iteration : ℕ) (file : F) (r : List ℕ)
        → 0 < fuel
        → 10 ≤ fuel + iteration
        → (put_loop ops size cursors fuel iteration file r).0 ≢ fatal
    unfolding put_loop
    put_loop-ne-fatal zero iteration file r pos enough h = absurd (omega arith)
    put_loop-ne-fatal (suc fuel) iteration file r pos enough h =
        elim (Bool-cases (ltb 8 iteration)) [
          | inl done ↦ let h' = rw done at h in cc
          | inr more ↦
              let file' = (put_record ops size cursors file r).1 in
              elim (Result-cases (put_record ops size cursors file r).0) [
                | inl (some next, e) ↦
                    put_loop-ne-fatal fuel (iteration + 1) file' next (ground arith) (omega arith)
                      (rw (more, e) at h)
                | inl (none, e) ↦ let h' = rw (more, e) at h in cc
                | inr (inl (x, e)) ↦ let h' = rw (more, e) at h in cc
                | inr (inr e) ↦ put_record-ne-fatal file r e
              ]
        ]

  -- Get and Put of a valid digest return, with a result or an error, on any file with room for a
  -- record, whatever the file does: the loops end by their own tests.
  pub operations_return :
      (os : FileOffsetStore F) (digest : Digest) (offset extent : ℕ) (cursors : Cursors)
      → IsDigest digest
      → 60 ≤ os.size
      → ((get ops os digest cursors).0 ≢ fatal)
        × ((put ops os digest offset extent cursors).0 ≢ fatal)
  unfolding get put new_simple_digest
  operations_return os digest offset extent cursors valid room =
      let (algorithm, hash, hasher, decoded, size) = valid_digest_is_usable digest valid in
      let some_slot : (os.size / 60 == 0) ≡ false = ground arith in
      rw (some_slot, decoded)
        (
          get_loop-ne-fatal os.size cursors 9 1 os.file _ (omega arith) (omega arith),
          put_loop-ne-fatal os.size cursors 10 1 os.file _ (omega arith) (omega arith),
        )
