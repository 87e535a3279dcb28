-- ===== src/Tests/Offsets.antt =====
-- The offset stores of pkg/blobstore/circular
use mathlib.Core.Path.{ap₂}
use bazel_buildbarn.Prelude.{
  ℕ, zero, suc, ◌+◌, ◌<◌, ◌≡◌, ◌≢◌, refl, List, ◌∷◌, some, true, arith, length, replicate,
}
use bazel_buildbarn.Prelude.LittleEndian.{encode, decode}
use bazel_buildbarn.Util.Status.{ok, fatal}
use bazel_buildbarn.Circular.Cursors.{Cursors, contains}
use bazel_buildbarn.Circular.File.{Memory, memory, memory_content, memory-IsFile, slice}
use bazel_buildbarn.Circular.Record.{
  new_simple_digest, new_offset_record, get_offset, get_length, get_attempt, get_slot,
}
use bazel_buildbarn.Circular.OffsetStore.{FileOffsetStore, get, put, put_record, position_of}
use bazel_buildbarn.Circular.OffsetStore.Slots.{record_at, get_position_of_slot-IsAligned}
use bazel_buildbarn.Circular.OffsetStore.Totality.{operations_return}
use bazel_buildbarn.Circular.OffsetStore.Lookup.{Answers, get_sound, get_keeps_store}
use bazel_buildbarn.Circular.OffsetStore.Insert.{IsSettled, Displaces, put_record-Displaces}
use bazel_buildbarn.Circular.OffsetStore.RoundTrip.{get-put}
use bazel_buildbarn.Circular.BlobAccess.{pair_eq}
use bazel_buildbarn.Tests.Data.{hello, hello-IsDigest, blank}

abbrev pub table : FileOffsetStore Memory
table = record { file = blank; size = 600 }

abbrev live : Cursors
live = record { read = 5; write = 90 }

operations_return_example :
    ((get memory table hello live).0 ≢ fatal) × ((put memory table hello 50 5 live).0 ≢ fatal)
operations_return_example =
    operations_return memory table hello 50 5 live hello-IsDigest (omega arith)

pub slice-blank : (p n : ℕ) → slice (memory_content blank) p n ≡ replicate n 0
unfolding slice
slice-blank p zero = refl
slice-blank p (suc n) =
    let first : memory_content blank p ≡ 0 = ground arith in ap₂ ◌∷◌ first (slice-blank (p + 1) n)

pub blank_offset :
    (p : ℕ) → get_offset (record_at memory memory_content (λ f. f.size) memory-IsFile blank p) < 50
unfolding get_offset record_at decode
blank_offset p = rw (slice-blank p 60) (omega arith)

live-contains : contains live 50 5 ≡ true
unfolding contains
live-contains = refl

get-put_example :
    ((put memory table hello 50 5 live).0 ≡ ok tt)
    × ((get memory (put memory table hello 50 5 live).1 hello live).0 ≡ ok (some (50, 5)))
get-put_example =
    get-put memory memory_content (λ f. f.size) memory-IsFile table hello 50 5 live hello-IsDigest
      (omega arith) (omega arith) (omega arith) live-contains (λ p aligned ok_p. blank_offset p)

abbrev stored : FileOffsetStore Memory
stored = (put memory table hello 50 5 live).1

found : get memory stored hello live ≡ (ok (some (50, 5)), stored)
found = pair_eq get-put_example.1 (get_keeps_store memory stored hello live)

get_sound_example :
    (simple : List ℕ) × (attempt : ℕ) × (new_simple_digest hello ≡ some simple)
    × Answers memory stored.size live stored.file (new_offset_record simple 0 0) 50 5 attempt
    × (stored ≡ stored)
get_sound_example = get_sound memory stored stored hello live 50 5 found

-- Records of the digest of forty zeros.
abbrev newer : List ℕ
newer = new_offset_record (replicate 40 0) 50 5

newer_length : length newer ≡ 60
unfolding new_offset_record encode
newer_length = refl

-- Where a blank record belongs.
abbrev home : ℕ
home = position_of 600 (replicate 60 0)

-- With cursors that start at zero, a blank record is that of an empty blob at the offset zero.
abbrev early : Cursors
early = record { read = 0; write = 90 }

blank-IsSettled :
    IsSettled 600 early home
      (record_at memory memory_content (λ f. f.size) memory-IsFile blank home)
unfolding record_at contains get_offset get_length get_attempt decode
blank-IsSettled =
    rw (slice-blank home 60) (record { valid = refl; early = omega arith; placed = refl })

put_record-Displaces_example :
    Displaces memory memory_content
      (λ f. f.size)
      memory-IsFile
      600
      early
      blank
      newer
      home
      (put_record memory 600 early blank newer)
put_record-Displaces_example =
    put_record-Displaces memory memory_content (λ f. f.size) memory-IsFile 600 early blank newer
      home (get_position_of_slot-IsAligned 600 (get_slot (replicate 60 0))) newer_length
      blank-IsSettled
