-- ===== src/Tests/Stores.antt =====
-- The state stores and the data store of pkg/blobstore/circular
use bazel_buildbarn.Prelude.{ℕ, ◌-◌, ◌%◌, ◌<◌, ◌^◌, ◌≡◌, ◌≢◌, refl, List, [], ◌∷◌, true, arith}
use bazel_buildbarn.Util.Status.{ok, fatal}
use bazel_buildbarn.Util.Reader.{chunks}
use bazel_buildbarn.Circular.Cursors.{contains}
use bazel_buildbarn.Circular.File.{Memory, memory, memory_content, memory-IsFile}
use bazel_buildbarn.Circular.StateStore.{
  FileStateStore, put, advance, retract, allocate, invalidate, file_state_store,
}
use bazel_buildbarn.Circular.StateStore.Invariant.{
  IsWindow, allocate-IsWindow, allocate_reserves, allocate_moves_back,
}
use bazel_buildbarn.Circular.StateStore.Positive.{positive_sized_blob_state_store}
use bazel_buildbarn.Circular.StateStore.Bulk.{
  BulkAllocatingStateStore, Reserves, Handed, allocate_hands_out,
}
use bazel_buildbarn.Circular.StateStore.Bulk as Bulk
use bazel_buildbarn.Circular.StateStore.Interleaving.{
  History, Step, Reach, IsOrderly, contained_ranges_are_disjoint,
}
use bazel_buildbarn.Circular.DataStore as Ring
use bazel_buildbarn.Circular.DataStore.{read_all}
use bazel_buildbarn.Circular.DataStore.Writes.{put_loses_tail}
use bazel_buildbarn.Tests.Data.{blank, half_full, half_full-IsWindow}

allocate-IsWindow_example :
    IsWindow 100 (allocate memory half_full 30).1.cursors
    × ((allocate memory half_full 30).1.data_size ≡ 100)
    × ((allocate memory half_full 30).0 ≢ fatal)
allocate-IsWindow_example = allocate-IsWindow memory half_full 30 (omega arith) half_full-IsWindow

allocate_30 : (allocate memory half_full 30).0 ≡ ok 90
unfolding allocate put advance
allocate_30 = refl

-- Cursors near the end of the word's range.
abbrev late : FileStateStore Memory
late = record {
  file = blank;
  data_size = 100;
  cursors = record { read = 2 ^ 64 - 50; write = 2 ^ 64 - 40 };
}

allocate_late : (allocate memory late 10).0 ≡ ok (2 ^ 64 - 40)
unfolding allocate put advance
allocate_late = refl

allocate_moves_back_example : (allocate memory late 10).1.cursors.read < 2 ^ 64 - 50
allocate_moves_back_example =
    allocate_moves_back memory late 10 (2 ^ 64 - 40) (omega arith) (omega arith) (omega arith)
      (omega arith) (omega arith) allocate_late

contained : contains half_full.cursors 40 0 ≡ true
unfolding contains
contained = refl

removed :
    ((positive_sized_blob_state_store (file_state_store memory)).invalidate half_full 40 0).0
    ≡ ok tt
unfolding positive_sized_blob_state_store invalidate put retract
removed = refl

first_contained : contains half_full.cursors 5 0 ≡ true
unfolding contains
first_contained = refl

abbrev bulk : BulkAllocatingStateStore (FileStateStore Memory)
bulk = record { base = half_full; chunk_size = 64; write_cursor = 80 }

bulk_30 : (Bulk.allocate (file_state_store memory) bulk 30).0 ≡ ok 80
unfolding Bulk.allocate Bulk.allocate_from Bulk.clamp Bulk.round_up allocate put advance
bulk_30 = refl

half_full-Reserves : Reserves (file_state_store memory) half_full
half_full-Reserves = record {
  moves = λ n o done fits.
      let (o_at, w, _) =
        allocate_reserves memory half_full n o half_full-IsWindow fits (omega arith) done in
      omega arith;
}

-- Two allocations after each other.
abbrev start : History Memory
start = record { store = half_full; ranges = [] }

abbrev one : History Memory
one = record { store = (allocate memory half_full 30).1; ranges = (90, 30) ∷ [] }

abbrev two : History Memory
two = record {
  store = (allocate memory (allocate memory half_full 30).1 40).1;
  ranges = (120, 40) ∷ (90, 30) ∷ [];
}

start-IsOrderly : IsOrderly start
start-IsOrderly = record { small = omega arith; window = half_full-IsWindow; stacked = tt }

two_reached : Reach memory start two
unfolding allocate put advance
two_reached =
    Reach.next (Reach.next Reach.here (Step.allocated start 30 90 (omega arith) allocate_30))
      (Step.allocated one 40 120 (omega arith) refl)

older_contained : contains two.store.cursors 90 30 ≡ true
unfolding contains allocate put advance
older_contained = refl

contained_ranges_are_disjoint_example : 130 % 100 ≢ 95 % 100
unfolding allocate put advance
contained_ranges_are_disjoint_example =
    contained_ranges_are_disjoint memory start two 0 1 120 40 90 30 130 95 start-IsOrderly
      two_reached (omega arith) refl refl (omega arith) older_contained (omega arith) (omega arith)
      (omega arith) (omega arith)

abbrev pieces : List (List ℕ)
pieces = (1 ∷ 2 ∷ []) ∷ (3 ∷ []) ∷ []

put_loses_tail_example :
    ((Ring.put memory 100 blank (chunks ((1 ∷ 2 ∷ 3 ∷ []) ∷ [])) 98).0 ≡ ok tt)
    × (memory_content (Ring.put memory 100 blank (chunks ((1 ∷ 2 ∷ 3 ∷ []) ∷ [])) 98).1 (100 % 100)
        ≡ memory_content blank (100 % 100))
put_loses_tail_example =
    put_loses_tail memory memory_content (λ f. f.size) memory-IsFile 100 (1 ∷ 2 ∷ 3 ∷ []) blank 98 2
      (omega arith) (omega arith) (omega arith) (omega arith)
