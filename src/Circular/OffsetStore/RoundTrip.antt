-- ===== src/Circular/OffsetStore/RoundTrip.antt =====
-- A blob that has been put is found.
use bazel_buildbarn.Prelude.{
  ℕ, ◌/◌, ◌≤◌, ◌<◌, ◌≡◌, ◌^◌, ◌∙◌, ◌⊎◌, inl, inr, List, length, some, ◌==◌, arith, true, false,
}
use bazel_buildbarn.Util.Status.{ok}
use bazel_buildbarn.Util.Digest.{Digest, IsDigest}
use bazel_buildbarn.Util.Digest.Validation.{valid_digest_is_usable}
use bazel_buildbarn.Circular.Cursors.{Cursors, contains}
use bazel_buildbarn.Circular.File.{ReadWriterAt, IsFile}
use bazel_buildbarn.Circular.Record.{
  new_simple_digest, new_offset_record, key, get_offset, with_attempt, get_slot, simple_digest,
  digest_and_attempt_equal,
}
use bazel_buildbarn.Circular.Record.Fields.{
  get_attempt-new_offset_record, get_offset-new_offset_record, get_length-new_offset_record,
  key-new_offset_record, length-new_offset_record, key-with_attempt, take-new_offset_record,
  length-simple_digest, bytes_equal_refl,
}
use bazel_buildbarn.Circular.OffsetStore.{
  position_of, is_valid, put_loop, get_loop, FileOffsetStore, get, put,
}
use bazel_buildbarn.Circular.OffsetStore.Slots.{IsAligned, record_at, get_record_at_position-ok}
use bazel_buildbarn.Circular.OffsetStore.Kept.{put_loop_inserts, put_loop_overwrites}
use bazel_buildbarn.Circular.OffsetStore.Insert.{IsSettled}

-- Lookup of the first attempt.
module _ {F : Type 0} (ops : ReadWriterAt F) (content : F → ℕ → ℕ) (length_of : F → ℕ)
    (law : IsFile ops content length_of) (size : ℕ) (cursors : Cursors) (simple : List ℕ)
    (offset extent : ℕ) (full : length simple ≡ 40) where
  abbrev base : List ℕ
  base = new_offset_record simple 0 0

  abbrev stored_record : List ℕ
  stored_record = new_offset_record simple offset extent

  same_key : key (with_attempt base 0) ≡ key stored_record
  same_key =
      key-with_attempt base 0 (length-new_offset_record simple 0 0 full)
      ∙ rw (take-new_offset_record simple 0 0 full, key-new_offset_record simple offset extent full)

  same_place : position_of size (with_attempt base 0) ≡ position_of size stored_record
  unfolding get_slot
  same_place = rw same_key

  get_loop_finds :
      (file : F)
      → offset < 2 ^ 64
      → extent < 2 ^ 64
      → contains cursors offset extent ≡ true
      → record_at ops content length_of law file (position_of size stored_record) ≡ stored_record
      → get_loop ops size cursors 9 1 file base ≡ ok (some (offset, extent))
  unfolding get_loop
  get_loop_finds file word word' inside here =
      let o = get_offset-new_offset_record simple offset extent full word in
      let l = get_length-new_offset_record simple offset extent full word' in
      let equal : digest_and_attempt_equal stored_record (with_attempt base 0) ≡ true =
        unfold digest_and_attempt_equal in rw same_key (bytes_equal_refl (key stored_record)) in
      rw (
        same_place,
        get_record_at_position-ok ops content length_of law file (position_of size stored_record),
        here,
        o,
        l,
        inside,
        equal,
      )

  stored_record_valid :
      offset < 2 ^ 64
      → extent < 2 ^ 64
      → contains cursors offset extent ≡ true
      → is_valid cursors stored_record ≡ true
  stored_record_valid word word' inside =
      rw
        (
          get_offset-new_offset_record simple offset extent full word,
          get_length-new_offset_record simple offset extent full word',
        )
        inside

  -- Every record whose data the cursors contain has a lower offset.
  abbrev pub AllOlder : F → Type 0
  AllOlder file =
      (p : ℕ)
      → IsAligned p
      → is_valid cursors (record_at ops content length_of law file p) ≡ true
      → get_offset (record_at ops content length_of law file p) < offset

  -- The record where the new one belongs is not one that Put would have to displace.
  abbrev pub IsFree : F → Type 0
  IsFree file = ¬ (
      IsSettled size cursors (position_of size stored_record)
        (record_at ops content length_of law file (position_of size stored_record)))

  inserts :
      (file : F)
      → offset < 2 ^ 64
      → extent < 2 ^ 64
      → contains cursors offset extent ≡ true
      → AllOlder file ⊎ IsFree file
      → ((put_loop ops size cursors 10 1 file stored_record).0 ≡ ok tt)
        × (record_at ops content length_of law
              (put_loop ops size cursors 10 1 file stored_record).1
              (position_of size stored_record)
            ≡ stored_record)
  inserts file word word' inside (inl older) =
      let o = get_offset-new_offset_record simple offset extent full word in
      put_loop_inserts ops content length_of law size cursors stored_record
        (length-new_offset_record simple offset extent full) (stored_record_valid word word' inside)
        (get_attempt-new_offset_record simple offset extent full) file
        (λ p aligned ok_p. rw o (older p aligned ok_p))
  inserts file word word' inside (inr free) =
      put_loop_overwrites ops content length_of law size cursors stored_record
        (length-new_offset_record simple offset extent full) (stored_record_valid word word' inside)
        (get_attempt-new_offset_record simple offset extent full) file free

  loops_agree :
      (file : F)
      → offset < 2 ^ 64
      → extent < 2 ^ 64
      → contains cursors offset extent ≡ true
      → AllOlder file ⊎ IsFree file
      → ((put_loop ops size cursors 10 1 file stored_record).0 ≡ ok tt)
        × (get_loop ops size cursors 9 1 (put_loop ops size cursors 10 1 file stored_record).1 base
            ≡ ok (some (offset, extent)))
  loops_agree file word word' inside place =
      let (done, here) = inserts file word word' inside place in
      (done, get_loop_finds _ word word' inside here)

-- There is a place for a new record: every record whose data the cursors contain is older, or the place
-- of the record, by its digest, is free.
abbrev pub HasPlace :
    {F : Type 0} (ops : ReadWriterAt F) (content : F → ℕ → ℕ) (length_of : F → ℕ)
    → IsFile ops content length_of
    → FileOffsetStore F
    → Digest
    → ℕ
    → ℕ
    → Cursors
    → Type 0
HasPlace ops content length_of law os digest offset extent cursors =
    ((p : ℕ)
      → IsAligned p
      → is_valid cursors (record_at ops content length_of law os.file p) ≡ true
      → get_offset (record_at ops content length_of law os.file p) < offset)
    ⊎ ((simple : List ℕ) × (new_simple_digest digest ≡ some simple)
        × ¬ (
            IsSettled os.size cursors (position_of os.size (new_offset_record simple offset extent))
              (record_at ops content length_of law os.file
                (position_of os.size (new_offset_record simple offset extent)))))

-- Put and Get, when there is a place.
pub get-put_placed :
    {F : Type 0} (ops : ReadWriterAt F) (content : F → ℕ → ℕ) (length_of : F → ℕ)
    (law : IsFile ops content length_of) (os : FileOffsetStore F) (digest : Digest)
    (offset extent : ℕ) (cursors : Cursors)
    → IsDigest digest
    → 60 ≤ os.size
    → offset < 2 ^ 64
    → extent < 2 ^ 64
    → contains cursors offset extent ≡ true
    → HasPlace ops content length_of law os digest offset extent cursors
    → ((put ops os digest offset extent cursors).0 ≡ ok tt)
      × ((get ops (put ops os digest offset extent cursors).1 digest cursors).0
          ≡ ok (some (offset, extent)))
unfolding get put new_simple_digest
get-put_placed {F} ops content length_of law os digest offset extent cursors valid room word word'
      inside place =
    let (algorithm, hash, hasher, decoded, size) = valid_digest_is_usable digest valid in
    let some_slot : (os.size / 60 == 0) ≡ false = ground arith in
    let simple = simple_digest hash digest.partial_digest.size_bytes in
    let full = length-simple_digest hash digest.partial_digest.size_bytes in
    let here : AllOlder ops content length_of law os.size cursors simple offset extent full os.file
        ⊎ IsFree ops content length_of law os.size cursors simple offset extent full os.file =
      elim place [
        | inl older ↦ inl older
        | inr (other, named, free) ↦
            let named' : some simple ≡ some other = rw decoded at named in
            let same : simple ≡ other = cc in inr (rw same free)
      ] in
    rw (some_slot, decoded, some_slot)
      (loops_agree ops content length_of law os.size cursors simple offset extent full os.file word
        word' inside here)

-- On a file that does not fail and has room for a record: if every record whose data the cursors
-- contain has a lower offset than the one being put, and the cursors contain the blob, then Put of a
-- valid digest succeeds, and Get of that digest under the same cursors then returns the offset and the
-- length that were put.
pub get-put :
    {F : Type 0} (ops : ReadWriterAt F) (content : F → ℕ → ℕ) (length_of : F → ℕ)
    (law : IsFile ops content length_of) (os : FileOffsetStore F) (digest : Digest)
    (offset extent : ℕ) (cursors : Cursors)
    → IsDigest digest
    → 60 ≤ os.size
    → offset < 2 ^ 64
    → extent < 2 ^ 64
    → contains cursors offset extent ≡ true
    → ((p : ℕ)
        → IsAligned p
        → is_valid cursors (record_at ops content length_of law os.file p) ≡ true
        → get_offset (record_at ops content length_of law os.file p) < offset)
    → ((put ops os digest offset extent cursors).0 ≡ ok tt)
      × ((get ops (put ops os digest offset extent cursors).1 digest cursors).0
          ≡ ok (some (offset, extent)))
get-put ops content length_of law os digest offset extent cursors valid room word word' inside
      older =
    get-put_placed ops content length_of law os digest offset extent cursors valid room word word'
      inside (inl older)
