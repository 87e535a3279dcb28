-- ===== src/Tests/Blobs.antt =====
-- The caching offset store and the blob access of pkg/blobstore/circular
use bazel_buildbarn.Prelude.{
  ℕ, ap, sym, ◌∙◌, zero, suc, ◌≡◌, ◌≢◌, ◌⊎◌, inl, inr, refl, List, [], ◌∷◌, Option, none, some,
  true, arith, length, get_elem?, replicate,
}
use bazel_buildbarn.Prelude.Hex.{decode_string}
use bazel_buildbarn.Prelude.LittleEndian.{decode}
use bazel_buildbarn.Util.Status.{ok, err, eof}
use bazel_buildbarn.Util.Digest.{Digest, get_hash_bytes}
use bazel_buildbarn.Util.Reader.{chunks}
use bazel_buildbarn.Circular.Cursors.{Cursors, contains}
use bazel_buildbarn.Circular.File.{Memory, memory, memory_content, memory-IsFile, pad}
use bazel_buildbarn.Circular.Record.{
  new_simple_digest, simple_digest, bytes_equal, new_offset_record,
}
use bazel_buildbarn.Circular.StateStore.{FileStateStore, file_state_store}
use bazel_buildbarn.Circular.StateStore as StateStore
use bazel_buildbarn.Circular.OffsetStore.{
  OffsetStore, file_offset_store, position_of, get_position_of_slot,
}
use bazel_buildbarn.Circular.OffsetStore.Caching.{
  CachedRecord, CachingOffsetStore, empty_record, new_caching_offset_store, get, put, slot_of,
  is_hit,
}
use bazel_buildbarn.Circular.OffsetStore.Caching.Laws.{get-IsSound, IsSound}
use bazel_buildbarn.Circular.DataStore.{FileDataStoreReader, read_all}
use bazel_buildbarn.Circular.DataStore as Ring
use bazel_buildbarn.Circular.BlobAccess as BlobAccess
use bazel_buildbarn.Circular.BlobAccess.{DataStore, CircularBlobAccess, find_missing, stale}
use bazel_buildbarn.Circular.BlobAccess.RoundTrip.{
  CircularFiles, IsReady, file_data_store, read_all-get-put,
}
use bazel_buildbarn.Circular.BlobAccess.FindMissing.{Sieved, Absent, Present, find_missing_exact}
use bazel_buildbarn.Circular.BlobAccess.Stale.{
  Shared, history, Step, Reach, put_refuses_overwritten,
}
use bazel_buildbarn.Circular.StateStore.Interleaving.{IsOrderly}
use bazel_buildbarn.Tests.Data.{hello, hello-IsDigest, blank, half_full, half_full-IsWindow}
use bazel_buildbarn.Circular.OffsetStore.Slots.{record_at}
use bazel_buildbarn.Circular.Record.{get_slot, fnv}
use bazel_buildbarn.Prelude.LittleEndian.{encode}
use bazel_buildbarn.Tests.Offsets.{table, slice-blank}

-- An offset store that has the blobs without an instance name, and forgets what is put.
abbrev named : List ℕ → Option (ℕ × ℕ)
named [] = some (50, 5)
named (_ ∷ _) = none

abbrev fixed : OffsetStore (Unit {0})
fixed = record {
  get = λ s digest cursors. (ok (named digest.instance_name), s);
  put = λ s digest offset length cursors. (ok tt, s);
}

abbrev live : Cursors
live = record { read = 5; write = 90 }

abbrev LiveContains : Type 0
LiveContains = contains live 50 5 ≡ true

inside : LiveContains
unfolding contains
inside = refl

abbrev cache : CachingOffsetStore (Unit {0})
cache = new_caching_offset_store tt 4

abbrev warm : CachingOffsetStore (Unit {0})
warm = (put fixed cache hello 50 5 live).1

warmed : put fixed cache hello 50 5 live ≡ (ok tt, warm)
unfolding put new_simple_digest get_hash_bytes decode_string
warmed = refl

abbrev nameless : Digest
nameless = record {
  instance_name = [];
  partial_digest = record { hash = replicate 32 b'a'; size_bytes = 5 };
}

abbrev At50 : List ℕ → ℕ → ℕ → Type 0
At50 simple offset length = offset ≡ 50

cold-IsSound : IsSound At50 (empty_record ∷ [])
cold-IsSound = record { holds = blank_record }
  where
    blank_record :
        (i : ℕ) (r : CachedRecord)
        → get_elem? (empty_record ∷ []) i ≡ some r
        → (r ≡ empty_record) ⊎ (r.offset ≡ 50)
    blank_record zero r h = inl (cc)
    blank_record (suc i) r h = absurd (cc)

abbrev cold : CachingOffsetStore (Unit {0})
cold = new_caching_offset_store tt 1

abbrev simple : List ℕ
simple = simple_digest (replicate 16 170) 5

simple-nameless : new_simple_digest nameless ≡ some simple
unfolding new_simple_digest get_hash_bytes decode_string
simple-nameless = refl

simple_real : simple ≢ pad 40 []
unfolding simple_digest
simple_real = λ e. cc

cold_found : (get fixed cold nameless live).0 ≡ ok (some (50, 5))
unfolding get new_simple_digest get_hash_bytes decode_string simple_digest slot_of decode is_hit
    bytes_equal
cold_found = refl

get-IsSound_example : At50 simple 50 5 × IsSound At50 (get fixed cold nameless live).1.table
get-IsSound_example =
    get-IsSound fixed At50 cold nameless live simple 50 5 cold-IsSound simple_real simple-nameless
      (λ o l h. cc) cold_found

-- A new backend, on blank files.
abbrev fresh : FileStateStore Memory
fresh = record { file = blank; data_size = 100; cursors = record { read = 0; write = 0 } }

abbrev backend : CircularFiles Memory
backend = record { offsets = table; contents = blank; state = fresh }

abbrev pieces : List (List ℕ)
pieces = (1 ∷ 2 ∷ []) ∷ (3 ∷ []) ∷ []

abbrev hello_record : List ℕ
hello_record = new_offset_record (simple_digest (replicate 16 170) 5) 0 3

simple-hello : new_simple_digest hello ≡ some (simple_digest (replicate 16 170) 5)
unfolding new_simple_digest get_hash_bytes decode_string
simple-hello = refl

-- A blank record does not belong where that of the blob does.
blank_place : position_of 600 (replicate 60 0) ≡ 300
unfolding get_position_of_slot get_slot fnv
blank_place = refl

hello_place : position_of 600 hello_record ≡ 480
unfolding get_position_of_slot simple_digest new_offset_record get_slot fnv encode
hello_place = refl

blank_at :
    (p : ℕ) → record_at memory memory_content (λ f. f.size) memory-IsFile blank p ≡ replicate 60 0
unfolding record_at
blank_at p = slice-blank p 60

backend-IsReady : IsReady memory memory_content (λ f. f.size) memory-IsFile backend hello 3
backend-IsReady = record {
  window = record { ordered = omega arith; bounded = omega arith; word = omega arith };
  small = omega arith;
  some_data = omega arith;
  allocated = omega arith;
  some_slot = omega arith;
  reach = omega arith;
  place = inr (
    simple_digest (replicate 16 170) 5,
    simple-hello,
    λ s.
        let belongs : position_of 600 (replicate 60 0) ≡ position_of 600 hello_record =
          ap (position_of 600) (sym (blank_at (position_of 600 hello_record))) ∙ s.placed in
        omega (arith, belongs, blank_place, hello_place),
  );
}

read_all-get-put_example :
    ((BlobAccess.put
        (file_offset_store memory)
        (file_data_store memory 100)
        (file_state_store memory)
        backend
        hello
        3
        (chunks pieces)).0
      ≡ ok tt)
    × ((BlobAccess.get
          (file_offset_store memory)
          (file_data_store memory 100)
          (file_state_store memory)
          (BlobAccess.put
            (file_offset_store memory)
            (file_data_store memory 100)
            (file_state_store memory)
            backend
            hello
            3
            (chunks pieces)).1
          hello).0
        ≡ ok (3, Ring.get 0 3))
    × (read_all memory 100 4
          (BlobAccess.put
            (file_offset_store memory)
            (file_data_store memory 100)
            (file_state_store memory)
            backend
            hello
            3
            (chunks pieces)).1.contents
          (Ring.get 0 3)
          2
        ≡ (1 ∷ 2 ∷ 3 ∷ [], some eof))
read_all-get-put_example =
    read_all-get-put memory memory_content (λ f. f.size) memory-IsFile backend hello pieces 2
      backend-IsReady hello-IsDigest (omega arith) (omega arith) (omega arith) (omega arith)

-- The same backend with an index in memory.
abbrev indexed : CircularBlobAccess (Unit {0}) Memory (FileStateStore Memory)
indexed = record { offsets = tt; contents = blank; state = half_full }

missing_hello :
    (find_missing fixed
      (file_data_store memory 100)
      (file_state_store memory)
      indexed
      (hello ∷ nameless ∷ [])).0
    ≡ ok (hello ∷ [])
unfolding find_missing
missing_hello = refl

find_missing_exact_example :
    Sieved
      (Absent fixed (file_data_store memory 100) (file_state_store memory) indexed)
      (Present fixed (file_data_store memory 100) (file_state_store memory) indexed)
      (hello ∷ nameless ∷ [])
      (hello ∷ [])
find_missing_exact_example =
    find_missing_exact fixed (file_data_store memory 100) (file_state_store memory) indexed
      (hello ∷ nameless ∷ []) (hello ∷ []) (λ digest. refl) missing_hello

-- A Put is given a range of 30 bytes, and while it writes, another one takes 80 bytes of the ring of 100.
abbrev ring : DataStore Memory FileDataStoreReader
ring = file_data_store memory 100

abbrev before : Shared (Unit {0}) Memory Memory
before = record { backend = indexed; ranges = [] }

abbrev first_given : Shared (Unit {0}) Memory Memory
first_given = record {
  backend = (BlobAccess.allocate fixed ring (file_state_store memory) indexed 30).1;
  ranges = (90, 30) ∷ [];
}

abbrev both_given : Shared (Unit {0}) Memory Memory
both_given = record {
  backend = (BlobAccess.allocate fixed ring (file_state_store memory) first_given.backend 80).1;
  ranges = (120, 80) ∷ (90, 30) ∷ [];
}

both_reached : Reach fixed ring memory before both_given
unfolding StateStore.allocate StateStore.put StateStore.advance
both_reached =
    Reach.next (Reach.next Reach.here (Step.allocates before 30 90 (omega arith) refl))
      (Step.allocates first_given 80 120 (omega arith) refl)

before-IsOrderly : IsOrderly (history before)
before-IsOrderly = record { small = omega arith; window = half_full-IsWindow; stacked = tt }

put_refuses_overwritten_example :
    BlobAccess.finish fixed ring (file_state_store memory) both_given.backend hello 90 30
    ≡ (err stale, both_given.backend)
unfolding StateStore.allocate StateStore.put StateStore.advance
put_refuses_overwritten_example =
    put_refuses_overwritten fixed ring memory before both_given hello 0 1 120 80 90 30 195 95
      before-IsOrderly both_reached (omega arith) refl refl (omega arith) (omega arith)
      (omega arith) (omega arith) (omega arith) refl
