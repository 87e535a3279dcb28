-- ===== src/Circular/StateStore/Bulk.antt =====
-- bulk_allocating_state_store.go: allocation from an underlying store in whole chunks.
use bazel_buildbarn.Prelude.{
  ℕ, ◌+◌, ◌-◌, ◌*◌, ◌/◌, ◌≤◌, ◌<◌, ◌^◌, ◌≡◌, ltb, ◌==◌, if◌then◌else◌, arith, Bool-cases, inl, inr,
  min, refl, true, false, ◌⊎◌,
}
use bazel_buildbarn.Prelude.Word.{add64, sub64, mul64}
use bazel_buildbarn.Util.Status.{Result, ok, err, fatal}
use bazel_buildbarn.Circular.Cursors.{Cursors}
use bazel_buildbarn.Circular.StateStore.{StateStore}

pub record BulkAllocatingStateStore (S : Type 0) : Type 0 where
  pub base : S
  pub chunk_size : ℕ
  pub write_cursor : ℕ

abbrev pub new_bulk_allocating_state_store : {S : Type 0} → S → ℕ → BulkAllocatingStateStore S
new_bulk_allocating_state_store base chunk_size = record {
  base = base;
  chunk_size = chunk_size;
  write_cursor = 2 ^ 64 - 1;
}

-- The internal write cursor, moved back in range.
unfoldable pub clamp : Cursors → ℕ → ℕ
clamp c w = let low = if ltb w c.read then c.read else w in if ltb c.write low then c.write else low

-- The missing space, rounded up to whole chunks.
unfoldable pub round_up : ℕ → ℕ → ℕ
round_up missing chunk_size = mul64 (sub64 (add64 missing chunk_size) 1 / chunk_size) chunk_size

quotient_bounds :
    (m chunk : ℕ) → 0 < chunk → (m / chunk * chunk ≤ m) × (m < m / chunk * chunk + chunk)
quotient_bounds m chunk h = (omega arith, omega arith)

round_up_bounds :
    (missing chunk : ℕ)
    → 0 < missing
    → 0 < chunk
    → missing + chunk < 2 ^ 64
    → (missing ≤ round_up missing chunk) × (round_up missing chunk < missing + chunk)
unfolding round_up
round_up_bounds missing chunk pos some_chunk fits =
    let plain : sub64 (add64 missing chunk) 1 ≡ missing + chunk - 1 = omega arith in
    let (low, high) = quotient_bounds (missing + chunk - 1) chunk some_chunk in
    rw plain (omega arith, omega arith)

clamp_bounds :
    (c : Cursors) (w : ℕ)
    → c.read ≤ c.write
    → (c.read ≤ clamp c w) × (clamp c w ≤ c.write) × (min w c.write ≤ clamp c w)
unfolding clamp
clamp_bounds c w h = (ground arith, ground arith, ground arith)

module _ {S : Type 0} (ops : StateStore S) where
  sub_allocate :
      BulkAllocatingStateStore S → ℕ → ℕ → Result ℕ × S → Result ℕ × BulkAllocatingStateStore S
  sub_allocate ss from size_bytes (ok _, base) =
      (ok from, record ss { base = base; write_cursor = add64 from size_bytes })
  sub_allocate ss from size_bytes (err e, base) =
      (err e, record ss { base = base; write_cursor = from })
  sub_allocate ss from size_bytes (fatal, base) =
      (fatal, record ss { base = base; write_cursor = from })

  -- The allocation from the cursor `from`. A chunk size of zero makes the division panic.
  unfoldable pub allocate_from :
      BulkAllocatingStateStore S → ℕ → ℕ → Result ℕ × BulkAllocatingStateStore S
  unfolding sub_allocate
  allocate_from ss from size_bytes =
      let space_left = sub64 (ops.get_cursors ss.base).write from in
      if ltb space_left size_bytes
      then (if ss.chunk_size == 0
          then (fatal, record ss { write_cursor = from })
          else sub_allocate ss from size_bytes
              (ops.allocate ss.base (round_up (sub64 size_bytes space_left) ss.chunk_size)))
      else (ok from, record ss { write_cursor = add64 from size_bytes })

  unfoldable pub allocate : BulkAllocatingStateStore S → ℕ → Result ℕ × BulkAllocatingStateStore S
  allocate ss size_bytes =
      allocate_from ss (clamp (ops.get_cursors ss.base) ss.write_cursor) size_bytes

  -- GetCursors and Invalidate are the underlying store's.
  abbrev pub bulk_allocating_state_store : StateStore (BulkAllocatingStateStore S)
  bulk_allocating_state_store = record {
    get_cursors = λ ss. ops.get_cursors ss.base;
    allocate = allocate;
    invalidate = λ ss offset size_bytes.
        let (r, base) = ops.invalidate ss.base offset size_bytes in (r, record ss { base = base });
  }

  -- What an allocation is relied on to do: a successful one that does not wrap around moves the
  -- write cursor by its size.
  pub record Reserves (s : S) : Type 0 where
    pub moves :
        (n o : ℕ)
        → (ops.allocate s n).0 ≡ ok o
        → (ops.get_cursors s).write + n < 2 ^ 64
        → (ops.get_cursors (ops.allocate s n).1).write ≡ (ops.get_cursors s).write + n

  sub_allocate-ok :
      (ss : BulkAllocatingStateStore S) (from size_bytes offset : ℕ) (p : Result ℕ × S)
      → (sub_allocate ss from size_bytes p).0 ≡ ok offset
      → (o : ℕ) × (p.0 ≡ ok o)
        × (offset ≡ from)
        × ((sub_allocate ss from size_bytes p).1
            ≡ record ss { base = p.1; write_cursor = add64 from size_bytes })
  unfolding sub_allocate
  sub_allocate-ok ss from size_bytes offset (ok o, base) h = (o, refl, cc, refl)
  sub_allocate-ok ss from size_bytes offset (err e, base) h = cc
  sub_allocate-ok ss from size_bytes offset (fatal, base) h = cc

  -- What holds of a range that an allocation hands out.
  pub record Handed (ss : BulkAllocatingStateStore S) (size_bytes offset : ℕ)
      (ss' : BulkAllocatingStateStore S) : Type 0 where
    pub above_read : (ops.get_cursors ss.base).read ≤ offset
    pub fresh : min ss.write_cursor (ops.get_cursors ss.base).write ≤ offset
    pub inside : offset + size_bytes ≤ (ops.get_cursors ss'.base).write
    pub next : ss'.write_cursor ≡ offset + size_bytes
    pub tight :
        ((ops.get_cursors ss'.base).write ≡ (ops.get_cursors ss.base).write)
        ⊎ ((ops.get_cursors ss'.base).write < offset + size_bytes + ss.chunk_size)

  no_chunk :
      (ss : BulkAllocatingStateStore S) (from size_bytes offset : ℕ)
      → ltb (sub64 (ops.get_cursors ss.base).write from) size_bytes ≡ true
      → (ss.chunk_size == 0) ≡ true
      → (allocate_from ss from size_bytes).0 ≡ ok offset
      → ⊥
  unfolding allocate_from
  no_chunk ss from size_bytes offset short empty done =
      let stopped = rw (short, empty) at done in cc

  module _ (ss : BulkAllocatingStateStore S) (from size_bytes offset : ℕ) (law : Reserves ss.base)
      (low : (ops.get_cursors ss.base).read ≤ from) (high : from ≤ (ops.get_cursors ss.base).write)
      (start : min ss.write_cursor (ops.get_cursors ss.base).write ≤ from)
      (fits : (ops.get_cursors ss.base).write + size_bytes + ss.chunk_size < 2 ^ 64) where
    grown :
        ltb (sub64 (ops.get_cursors ss.base).write from) size_bytes ≡ true
        → (ss.chunk_size == 0) ≡ false
        → (allocate_from ss from size_bytes).0 ≡ ok offset
        → Handed ss size_bytes offset (allocate_from ss from size_bytes).1
    unfolding allocate_from
    grown short some_chunk done =
        let left : sub64 (ops.get_cursors ss.base).write from
            ≡ (ops.get_cursors ss.base).write - from =
          omega arith in
        let missing : sub64 size_bytes (sub64 (ops.get_cursors ss.base).write from)
            ≡ size_bytes - ((ops.get_cursors ss.base).write - from) =
          ground arith in
        let n =
          round_up (sub64 size_bytes (sub64 (ops.get_cursors ss.base).write from)) ss.chunk_size in
        let rounded =
          round_up_bounds (sub64 size_bytes (sub64 (ops.get_cursors ss.base).write from))
            ss.chunk_size (ground arith) (ground arith) (ground arith) in
        let granted = rw (short, some_chunk) at done in
        let (o, allocated, same, after) =
          sub_allocate-ok ss from size_bytes offset (ops.allocate ss.base n) granted in
        let moved = law.moves n o allocated (ground (arith, rounded)) in
        rw (short, some_chunk, after)
          (record {
            above_read = omega (arith, same);
            fresh = omega (arith, same);
            inside = omega (arith, moved, same, rounded);
            next = omega (arith, same);
            tight = inr (omega (arith, moved, same, rounded));
          })

    unchanged :
        ltb (sub64 (ops.get_cursors ss.base).write from) size_bytes ≡ false
        → (allocate_from ss from size_bytes).0 ≡ ok offset
        → Handed ss size_bytes offset (allocate_from ss from size_bytes).1
    unfolding allocate_from
    unchanged room done = rw room (ground (arith, room))

  -- A successful allocation that stays clear of the end of the word's range hands out a range that
  -- starts at or past the old read cursor and at or past the internal cursor (or the old write
  -- cursor, if that is lower), so never inside a range that was handed out before. The range ends at
  -- the new internal cursor and no later than the new write cursor. The underlying store either keeps
  -- its write cursor or leaves less than a chunk past the range.
  pub allocate_hands_out :
      (ss : BulkAllocatingStateStore S) (size_bytes offset : ℕ)
      → Reserves ss.base
      → (ops.get_cursors ss.base).read ≤ (ops.get_cursors ss.base).write
      → (ops.get_cursors ss.base).write + size_bytes + ss.chunk_size < 2 ^ 64
      → (allocate ss size_bytes).0 ≡ ok offset
      → Handed ss size_bytes offset (allocate ss size_bytes).1
  unfolding allocate
  allocate_hands_out ss size_bytes offset law ordered fits done =
      let (low, high, start) = clamp_bounds (ops.get_cursors ss.base) ss.write_cursor ordered in
      let from = clamp (ops.get_cursors ss.base) ss.write_cursor in
      elim (Bool-cases (ltb (sub64 (ops.get_cursors ss.base).write from) size_bytes)) [
        | inl short ↦ elim (Bool-cases (ss.chunk_size == 0)) [
          | inl empty ↦ absurd (no_chunk ss from size_bytes offset short empty done)
          | inr some_chunk ↦
              grown ss from size_bytes offset law low high start fits short some_chunk done
        ]
        | inr room ↦ unchanged ss from size_bytes offset law low high start fits room done
      ]
