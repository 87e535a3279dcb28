-- ===== src/Circular/OffsetStore/Lookup.antt =====
-- What Get finds.
use bazel_buildbarn.Prelude.{
  ℕ, zero, suc, ◌+◌, ◌-◌, ◌/◌, ◌<◌, ◌≡◌, refl, ap, sym, inl, inr, List, some, ◌==◌, arith, ◌⊎◌,
  Bool-cases, Option-cases, true, false, leb,
}
use bazel_buildbarn.Util.Status.{Result, ok, err, fatal, Result-cases, Error}
use bazel_buildbarn.Util.Digest.{Digest}
use bazel_buildbarn.Circular.Cursors.{Cursors, contains}
use bazel_buildbarn.Circular.File.{ReadWriterAt}
use bazel_buildbarn.Circular.Record.{
  new_simple_digest, new_offset_record, key, get_offset, get_length, digest_and_attempt_equal,
  with_attempt,
}
use bazel_buildbarn.Circular.Record.Fields.{bytes_equal_sound}
use bazel_buildbarn.Circular.OffsetStore.{
  get_record_at_position, position_of, is_valid, get_loop, FileOffsetStore, get,
}

module _ {F : Type 0} (ops : ReadWriterAt F) (size : ℕ) (cursors : Cursors) where
  -- A record of the file answers a lookup of `r` at the attempt `attempt`.
  pub record Answers (file : F) (r : List ℕ) (offset extent attempt : ℕ) : Type 0 where
    pub stored : List ℕ
    pub read :
        get_record_at_position ops file (position_of size (with_attempt r attempt)) ≡ ok stored
    pub same_key : key stored ≡ key (with_attempt r attempt)
    pub valid : contains cursors offset extent ≡ true
    pub offset_of : get_offset stored ≡ offset
    pub length_of : get_length stored ≡ extent
    pub early : attempt < 7

  module _ (fuel iteration : ℕ) (file : F) (r stored : List ℕ) (offset extent : ℕ)
      (read : get_record_at_position ops file (position_of size (with_attempt r (iteration - 1)))
        ≡ ok stored)
      (h : get_loop ops size cursors (suc fuel) iteration file r ≡ ok (some (offset, extent))) where
    within : leb 8 iteration ≡ false
    unfolding get_loop
    within = elim (Bool-cases (leb 8 iteration)) [ inl e ↦ let h' = rw e at h in cc | inr e ↦ e ]

    stored_valid : is_valid cursors stored ≡ true
    unfolding get_loop
    stored_valid = elim (Bool-cases (is_valid cursors stored)) [
      | inl e ↦ e
      | inr e ↦ let h' = rw (within, read, e) at h in cc
    ]

    get_step :
        0 < iteration
        → Answers file r offset extent (iteration - 1)
          ⊎ (get_loop ops size cursors fuel (iteration + 1) file r ≡ ok (some (offset, extent)))
    unfolding get_loop
    get_step pos =
        elim (Bool-cases (digest_and_attempt_equal stored (with_attempt r (iteration - 1)))) [
          | inl e ↦
              let found = rw (within, read, stored_valid, e) at h in
              let at_offset : get_offset stored ≡ offset = cc in
              let at_length : get_length stored ≡ extent = cc in
              inl (record {
                stored = stored;
                read = read;
                same_key = bytes_equal_sound _ _ (unfold digest_and_attempt_equal in e);
                valid = rw (← at_offset, ← at_length) stored_valid;
                offset_of = at_offset;
                length_of = at_length;
                early = ground (arith, within);
              })
          | inr e ↦
              elim (Bool-cases
                (position_of size stored == position_of size (with_attempt r (iteration - 1)))) [
                  | inl same ↦ inr (rw (within, read, stored_valid, e, same) at h)
                  | inr other ↦ let h' = rw (within, read, stored_valid, e, other) at h in cc
                ]
        ]

  get_unread :
      (fuel iteration : ℕ) (file : F) (r : List ℕ) (offset extent : ℕ)
      → (x : Result (List ℕ))
      → get_record_at_position ops file (position_of size (with_attempt r (iteration - 1))) ≡ x
      → ((e : Error) × (x ≡ err e)) ⊎ (x ≡ fatal)
      → get_loop ops size cursors (suc fuel) iteration file r ≡ ok (some (offset, extent))
      → ⊥
  unfolding get_loop
  get_unread fuel iteration file r offset extent x read failed h =
      elim (Bool-cases (leb 8 iteration)) [
        | inl done ↦ let h' = rw done at h in cc
        | inr more ↦ elim failed [
          | inl (e, same) ↦ let h' = rw (more, read, same) at h in cc
          | inr same ↦ let h' = rw (more, read, same) at h in cc
        ]
      ]

  get_loop_sound :
      (fuel iteration : ℕ) (file : F) (r : List ℕ) (offset extent : ℕ)
      → 0 < iteration
      → get_loop ops size cursors fuel iteration file r ≡ ok (some (offset, extent))
      → (attempt : ℕ) × Answers file r offset extent attempt
  get_loop_sound zero iteration file r offset extent pos h = unfold get_loop in cc
  get_loop_sound (suc fuel) iteration file r offset extent pos h =
      let probe = position_of size (with_attempt r (iteration - 1)) in
      elim (Result-cases (get_record_at_position ops file probe)) [
        | inl (stored, read) ↦
            elim (get_step fuel iteration file r stored offset extent read h pos) [
              | inl found ↦ (iteration - 1, found)
              | inr more ↦
                  get_loop_sound fuel (iteration + 1) file r offset extent (omega arith) more
            ]
        | inr failed ↦ absurd (get_unread fuel iteration file r offset extent _ refl failed h)
      ]

-- Get leaves the store as it is.
pub get_keeps_store :
    {F : Type 0} (ops : ReadWriterAt F) (os : FileOffsetStore F) (digest : Digest)
    (cursors : Cursors)
    → (get ops os digest cursors).1 ≡ os
unfolding get
get_keeps_store ops os digest cursors = elim (Bool-cases (os.size / 60 == 0)) [
  | inl e ↦ rw e refl
  | inr e ↦ elim (Option-cases (new_simple_digest digest)) [
    | inl n ↦ rw (e, n) refl
    | inr (simple, same) ↦ rw (e, same) refl
  ]
]

-- What Get of a digest returns is stored: one of the slots that the digest hashes to at the attempts
-- 0 to 6 holds a record of this digest and attempt, with the offset and the length that are returned,
-- and the cursors contain them. Get leaves the store as it is.
pub get_sound :
    {F : Type 0} (ops : ReadWriterAt F) (os os' : FileOffsetStore F) (digest : Digest)
    (cursors : Cursors) (offset extent : ℕ)
    → get ops os digest cursors ≡ (ok (some (offset, extent)), os')
    → (simple : List ℕ) × (attempt : ℕ) × (new_simple_digest digest ≡ some simple)
      × Answers ops os.size cursors os.file (new_offset_record simple 0 0) offset extent attempt
      × (os' ≡ os)
unfolding get
get_sound ops os os' digest cursors offset extent h = elim (Bool-cases (os.size / 60 == 0)) [
  | inl e ↦ absurd (let h' = rw e at h in cc)
  | inr e ↦ elim (Option-cases (new_simple_digest digest)) [
    | inl n ↦ absurd (let h' = rw (e, n) at h in cc)
    | inr (simple, same) ↦
        let h' = rw (e, same) at h in
        let found : get_loop ops os.size cursors 9 1 os.file (new_offset_record simple 0 0)
            ≡ ok (some (offset, extent)) =
          ap (λ p. p.0) h' in
        let (attempt, answer) =
          get_loop_sound ops os.size cursors 9 1 os.file (new_offset_record simple 0 0) offset
            extent (omega arith) found in
        (simple, attempt, same, answer, sym (ap (λ p. p.1) h'))
  ]
]
