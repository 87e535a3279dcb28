-- ===== src/Circular/StateStore/Invariant.antt =====
-- Allocation and invalidation keep the cursors in order and the window no larger than the data file.
use Prim.Native.Nat.{max}
use bazel_buildbarn.Prelude.{ℕ, ◌+◌, ◌-◌, ◌≤◌, ◌<◌, ◌^◌, ◌≡◌, ◌≢◌, arith}
use bazel_buildbarn.Util.Status.{ok, fatal}
use bazel_buildbarn.Circular.Cursors.{Cursors}
use bazel_buildbarn.Circular.File.{ReadWriterAt}
use bazel_buildbarn.Circular.StateStore.{
  FileStateStore, put, advance, retract, allocate, invalidate,
}

-- The cursors are words, in order, and at most `data_size` apart.
pub record IsWindow (data_size : ℕ) (c : Cursors) : Type 0 where
  pub ordered : c.read ≤ c.write
  pub bounded : c.write ≤ c.read + data_size
  pub word : c.write < 2 ^ 64

pub advance-IsWindow :
    (c : Cursors) (data_size size_bytes : ℕ)
    → data_size ≤ 2 ^ 63
    → IsWindow data_size c
    → IsWindow data_size (advance c data_size size_bytes)
unfolding advance
advance-IsWindow c data_size size_bytes h w = ground arith

retract-IsWindow :
    (c : Cursors) (data_size offset size_bytes : ℕ)
    → c.read ≤ offset
    → offset + size_bytes < 2 ^ 64
    → IsWindow data_size c
    → IsWindow data_size (retract c offset size_bytes)
unfolding retract
retract-IsWindow c data_size offset size_bytes low fits w = ground arith

module _ {F : Type 0} (ops : ReadWriterAt F) where
  put-IsWindow :
      (ss : FileStateStore F) (c : Cursors)
      → IsWindow ss.data_size ss.cursors
      → IsWindow ss.data_size c
      → IsWindow ss.data_size (put ops ss c).1.cursors
        × ((put ops ss c).1.data_size ≡ ss.data_size)
        × ((put ops ss c).0 ≢ fatal)
  unfolding put
  put-IsWindow ss c old new = ground arith

  -- Whatever the file does, Allocate keeps the window of a store whose data file is no larger than
  -- 2 ^ 63 bytes, wrap-around of the write cursor included, and never reaches its log.Fatal.
  pub allocate-IsWindow :
      (ss : FileStateStore F) (size_bytes : ℕ)
      → ss.data_size ≤ 2 ^ 63
      → IsWindow ss.data_size ss.cursors
      → IsWindow ss.data_size (allocate ops ss size_bytes).1.cursors
        × ((allocate ops ss size_bytes).1.data_size ≡ ss.data_size)
        × ((allocate ops ss size_bytes).0 ≢ fatal)
  unfolding allocate
  allocate-IsWindow ss size_bytes h w =
      let next = advance-IsWindow ss.cursors ss.data_size size_bytes h w in
      let stored = put-IsWindow ss (advance ss.cursors ss.data_size size_bytes) w next in
      ground (arith, stored)

  -- Invalidating a range that starts at or past the read cursor and does not wrap around keeps the
  -- window, whatever the file does, and never reaches the log.Fatal.
  pub invalidate-IsWindow :
      (ss : FileStateStore F) (offset size_bytes : ℕ)
      → ss.cursors.read ≤ offset
      → offset + size_bytes < 2 ^ 64
      → IsWindow ss.data_size ss.cursors
      → IsWindow ss.data_size (invalidate ops ss offset size_bytes).1.cursors
        × ((invalidate ops ss offset size_bytes).1.data_size ≡ ss.data_size)
        × ((invalidate ops ss offset size_bytes).0 ≢ fatal)
  unfolding invalidate
  invalidate-IsWindow ss offset size_bytes low fits w =
      put-IsWindow ss _ w (retract-IsWindow ss.cursors ss.data_size offset size_bytes low fits w)

  -- An allocation that succeeds without wrapping around starts at the old write cursor, ends at the
  -- new one, moves the read cursor only forwards, and moves it exactly as far as it takes to leave no
  -- more than `data_size` bytes readable.
  pub allocate_reserves :
      (ss : FileStateStore F) (size_bytes offset : ℕ)
      → IsWindow ss.data_size ss.cursors
      → ss.cursors.write + size_bytes < 2 ^ 64
      → ss.cursors.read + ss.data_size < 2 ^ 64
      → (allocate ops ss size_bytes).0 ≡ ok offset
      → (offset ≡ ss.cursors.write)
        × ((allocate ops ss size_bytes).1.cursors.write ≡ offset + size_bytes)
        × ((allocate ops ss size_bytes).1.cursors.read
            ≡ max ss.cursors.read (offset + size_bytes - ss.data_size))
  unfolding allocate put advance
  allocate_reserves ss size_bytes offset w fits reach h = ground arith

  -- Where the read cursor plus the size of the data file wraps around, an allocation that does not
  -- wrap around itself but passes the wrapped sum moves the read cursor backwards: data that has
  -- been invalidated becomes readable again.
  pub allocate_moves_back :
      (ss : FileStateStore F) (size_bytes offset : ℕ)
      → ss.data_size ≤ 2 ^ 63
      → ss.cursors.read < 2 ^ 64
      → 2 ^ 64 < ss.cursors.read + ss.data_size
      → ss.cursors.read ≤ ss.cursors.write
      → ss.cursors.write + size_bytes < 2 ^ 64
      → (allocate ops ss size_bytes).0 ≡ ok offset
      → (allocate ops ss size_bytes).1.cursors.read < ss.cursors.read
  unfolding allocate put advance
  allocate_moves_back ss size_bytes offset h word wraps ordered fits done = ground arith
