-- ===== src/Circular/StateStore/Interleaving.antt =====
-- Allocations and invalidations in any order, as concurrent calls of circular_blob_access.go make them:
-- each takes the lock for itself, and a Put writes its data after its allocation, outside the lock.
use native.Mathlib.Decide.{dec_lt}
use native.Mathlib.Nat.{div-add-mod}
use bazel_buildbarn.Prelude.{
  ◌/◌, ℕ, ◌+◌, ◌*◌, ◌%◌, ◌≤◌, ◌<◌, ◌^◌, ◌≡◌, ◌≢◌, List, [], ◌∷◌, some, sym, get_elem?, zero, suc,
  true, arith,
}
use bazel_buildbarn.Util.Status.{ok}
use bazel_buildbarn.Circular.Cursors.{contains, at_least_one, contains_bounds}
use bazel_buildbarn.Circular.File.{ReadWriterAt}
use bazel_buildbarn.Circular.StateStore.{
  FileStateStore, put, advance, retract, allocate, invalidate,
}
use bazel_buildbarn.Circular.StateStore.Invariant.{IsWindow, allocate-IsWindow, invalidate-IsWindow}

-- The store, and the ranges that allocations have handed out, newest first.
pub record History (F : Type 0) : Type 0 where
  pub store : FileStateStore F
  pub ranges : List (ℕ × ℕ)

module _ {F : Type 0} (ops : ReadWriterAt F) where
  -- A call that takes the lock. The write cursor does not reach the end of the word's range.
  pub data Step : History F → History F → Type 0 where
    allocated :
        (h : History F) (size_bytes offset : ℕ)
        → h.store.cursors.write + size_bytes < 2 ^ 64
        → (allocate ops h.store size_bytes).0 ≡ ok offset
        → Step h (record {
          store = (allocate ops h.store size_bytes).1;
          ranges = (offset, size_bytes) ∷ h.ranges;
        })
    refused :
        (h : History F) (size_bytes : ℕ)
        → h.store.cursors.write + size_bytes < 2 ^ 64
        → Step h (record h { store = (allocate ops h.store size_bytes).1 })
    invalidated :
        (h : History F) (offset size_bytes : ℕ)
        → offset + at_least_one size_bytes < 2 ^ 64
        → size_bytes < 2 ^ 63
        → contains h.store.cursors offset size_bytes ≡ true
        → Step h (record h { store = (invalidate ops h.store offset size_bytes).1 })

  pub data Reach (start : History F) : History F → Type 0 where
    here : Reach start start
    next : {h k : History F} → Reach start h → Step h k → Reach start k

-- Every range ends where the next newer one starts, or before, and the newest at the bound.
abbrev pub Stacked : ℕ → List (ℕ × ℕ) → Type 0
Stacked bound [] = Unit
Stacked bound ((offset, size) ∷ ranges) = (offset + size ≤ bound) × Stacked offset ranges

pub record IsOrderly {F : Type 0} (h : History F) : Type 0 where
  pub small : h.store.data_size ≤ 2 ^ 63
  pub window : IsWindow h.store.data_size h.store.cursors
  pub stacked : Stacked h.store.cursors.write h.ranges

Stacked-le : (a b : ℕ) (ranges : List (ℕ × ℕ)) → a ≤ b → Stacked a ranges → Stacked b ranges
Stacked-le a b [] h s = tt
Stacked-le a b ((offset, size) ∷ ranges) h s = (omega arith, s.1)

module _ {F : Type 0} (ops : ReadWriterAt F) where
  write-allocate :
      (ss : FileStateStore F) (n o : ℕ)
      → IsWindow ss.data_size ss.cursors
      → ss.cursors.write + n < 2 ^ 64
      → (allocate ops ss n).0 ≡ ok o
      → (o ≡ ss.cursors.write) × ((allocate ops ss n).1.cursors.write ≡ o + n)
  unfolding allocate put advance
  write-allocate ss n o w fits done = ground arith

  write-refused :
      (ss : FileStateStore F) (n : ℕ)
      → IsWindow ss.data_size ss.cursors
      → ss.cursors.write + n < 2 ^ 64
      → ss.cursors.write ≤ (allocate ops ss n).1.cursors.write
  unfolding allocate put advance
  write-refused ss n w fits = ground arith

  write-invalidate :
      (ss : FileStateStore F) (offset n : ℕ)
      → offset + at_least_one n < 2 ^ 64
      → n < 2 ^ 63
      → contains ss.cursors offset n ≡ true
      → (invalidate ops ss offset n).1.cursors.write ≡ ss.cursors.write
  unfolding invalidate put retract contains
  write-invalidate ss offset n fits plain inside = ground arith

  Step-IsOrderly : {h k : History F} → Step ops h k → IsOrderly h → IsOrderly k
  Step-IsOrderly (allocated h size_bytes offset fits done) i =
      let (window, same, alive) = allocate-IsWindow ops h.store size_bytes i.small i.window in
      let (start, end) = write-allocate h.store size_bytes offset i.window fits done in
      record {
        small = rw same i.small;
        window = rw same window;
        stacked = (omega (arith, end), rw start i.stacked);
      }
  Step-IsOrderly (refused h size_bytes fits) i =
      let (window, same, alive) = allocate-IsWindow ops h.store size_bytes i.small i.window in
      record {
        small = rw same i.small;
        window = rw same window;
        stacked =
            Stacked-le _ _ h.ranges (write-refused h.store size_bytes i.window fits) i.stacked;
      }
  Step-IsOrderly (invalidated h offset size_bytes fits plain inside) i =
      let (low, high) = contains_bounds h.store.cursors offset size_bytes inside fits in
      let (window, same, alive) =
        invalidate-IsWindow ops h.store offset size_bytes low (ground arith) i.window in
      record {
        small = rw same i.small;
        window = rw same window;
        stacked = rw (write-invalidate h.store offset size_bytes fits plain inside) i.stacked;
      }

  pub Reach-IsOrderly : {g h : History F} → Reach ops g h → IsOrderly g → IsOrderly h
  Reach-IsOrderly here i = i
  Reach-IsOrderly (next r s) i = Step-IsOrderly s (Reach-IsOrderly r i)

-- A range lies below the bound of its stack, and an older range ends before a newer one starts.
range_below :
    (bound : ℕ) (ranges : List (ℕ × ℕ)) (i offset size : ℕ)
    → Stacked bound ranges
    → get_elem? ranges i ≡ some (offset, size)
    → offset + size ≤ bound
range_below bound [] i offset size s e = absurd (cc)
range_below bound ((o, n) ∷ ranges) zero offset size s e = ground (arith, s.0)
range_below bound ((o, n) ∷ ranges) (suc i) offset size s e =
    let lower = range_below o ranges i offset size s.1 e in omega (arith, s.0)

older_ends :
    (bound : ℕ) (ranges : List (ℕ × ℕ)) (i j offset size offset' size' : ℕ)
    → Stacked bound ranges
    → i < j
    → get_elem? ranges i ≡ some (offset, size)
    → get_elem? ranges j ≡ some (offset', size')
    → offset' + size' ≤ offset
older_ends bound [] i j offset size offset' size' s lt e f = absurd (cc)
older_ends bound ((o, n) ∷ ranges) i zero offset size offset' size' s lt e f = absurd (omega arith)
older_ends bound ((o, n) ∷ ranges) zero (suc j) offset size offset' size' s lt e f =
    let lower = range_below o ranges j offset' size' s.1 f in
    let same : o ≡ offset = cc in omega (arith, same)
older_ends bound ((o, n) ∷ ranges) (suc i) (suc j) offset size offset' size' s lt e f =
    older_ends o ranges i j offset size offset' size' s.1 (omega arith) e f

-- Two places less than the size of the ring apart are different places of the ring.
places_differ : (x y size : ℕ) → x < y → y < x + size → x % size ≢ y % size
places_differ x y size lt near e = elim (dec_lt (x / size) (y / size)) [
  | yes h ↦
      let more : (x / size + 1) * size ≤ y / size * size = grind arith in
      omega (arith, div-add-mod x size, div-add-mod y size, more)
  | no h ↦
      let less : y / size * size ≤ x / size * size = grind arith in
      omega (arith, div-add-mod x size, div-add-mod y size, less)
]

-- After any sequence of allocations, failed allocations and invalidations from an orderly start, take
-- two of the ranges that were handed out, of which the cursors still contain the older one: no byte of
-- the one has the same place in the data file as a byte of the other. In no step does the write cursor
-- reach the end of the word's range.
pub contained_ranges_are_disjoint :
    {F : Type 0} (ops : ReadWriterAt F) (start h : History F)
    (i j offset size offset' size' x y : ℕ)
    → IsOrderly start
    → Reach ops start h
    → i < j
    → get_elem? h.ranges i ≡ some (offset, size)
    → get_elem? h.ranges j ≡ some (offset', size')
    → offset' + at_least_one size' < 2 ^ 64
    → contains h.store.cursors offset' size' ≡ true
    → offset ≤ x
    → x < offset + size
    → offset' ≤ y
    → y < offset' + size'
    → x % h.store.data_size ≢ y % h.store.data_size
contained_ranges_are_disjoint ops start h i j offset size offset' size' x y o r lt e f fits inside
      lx hx ly hy q =
    let v = Reach-IsOrderly ops r o in
    let newer = range_below _ h.ranges i offset size v.stacked e in
    let apart = older_ends _ h.ranges i j offset size offset' size' v.stacked lt e f in
    let (low, high) = contains_bounds h.store.cursors offset' size' inside fits in
    let w = v.window.bounded in
    places_differ y x h.store.data_size (omega arith) (omega arith) (sym q)
