-- ===== src/Circular/OffsetStore/Slots.antt =====
-- The offset file as a table of records, on a file that does not fail.
use bazel_buildbarn.Prelude.{
  ◌⊎◌, ℕ, ◌+◌, ◌*◌, ◌/◌, ◌%◌, ◌≤◌, ◌≡◌, ◌≢◌, refl, ◌∙◌, inl, inr, List, length, ◌==◌, if◌then◌else◌,
  arith, Bool-cases,
}
use native.Mathlib.Decide.{dec_lt}
use bazel_buildbarn.Util.Status.{ok}
use bazel_buildbarn.Circular.File.{
  ReadWriterAt, IsFile, slice, slice_ext, slice-written, length-slice,
}
use bazel_buildbarn.Circular.OffsetStore.{
  get_record_at_position, put_record_at_position, get_position_of_slot,
}

-- A position is that of some slot.
pub record IsAligned (position : ℕ) : Type 0 where
  pub slot : ℕ
  pub at_slot : position ≡ slot * 60

pub get_position_of_slot-IsAligned : (size slot : ℕ) → IsAligned (get_position_of_slot size slot)
unfolding get_position_of_slot
get_position_of_slot-IsAligned size slot = record { slot = slot % (size / 60); at_slot = refl }

-- Different slots do not overlap.
apart : (p q : ℕ) → IsAligned p → IsAligned q → p ≢ q → (p + 60 ≤ q) ⊎ (q + 60 ≤ p)
apart p q hp hq ne = elim (dec_lt hp.slot hq.slot) [
  | yes h ↦ inl (let a = hp.at_slot in let b = hq.at_slot in omega arith)
  | no h ↦
      let a = hp.at_slot in
      let b = hq.at_slot in
      let other : hp.slot ≢ hq.slot = λ e. ne (omega arith) in inr (omega arith)
]

module _ {F : Type 0} (ops : ReadWriterAt F) (content : F → ℕ → ℕ) (size : F → ℕ)
    (law : IsFile ops content size) where
  -- The record at a position.
  unfoldable pub record_at : F → ℕ → List ℕ
  record_at f position = slice (content f) position 60

  pub get_record_at_position-ok :
      (f : F) (position : ℕ) → get_record_at_position ops f position ≡ ok (record_at f position)
  unfolding get_record_at_position record_at
  get_record_at_position-ok f position =
      ground (arith, law.reads f 60 position, law.reads_to f 60 position)

  pub put_record_at_position-ok {ℓ} :
      {A : Type ℓ} (a : A) (f : F) (r : List ℕ) (position : ℕ)
      → put_record_at_position ops a f r position ≡ (ok a, (ops.write_at f r position).0)
  unfolding put_record_at_position
  put_record_at_position-ok a f r position = ground (arith, law.writes f r position)

  pub length-record_at : (f : F) (position : ℕ) → length (record_at f position) ≡ 60
  unfolding record_at
  length-record_at f position = length-slice (content f) position 60

  slice-write_at_self :
      (f : F) (r : List ℕ) (p n : ℕ) → length r ≡ n → slice (content (ops.write_at f r p).0) p n ≡ r
  slice-write_at_self f r p n full = rw full at (
      slice-written (content (ops.write_at f r p).0) r p
        λ i h. law.written f r p (p + i) ∙ ground arith)

  slice-write_at_ne :
      (f : F) (r : List ℕ) (p q n : ℕ)
      → length r ≡ n
      → (p + n ≤ q) ⊎ (q + n ≤ p)
      → slice (content (ops.write_at f r p).0) q n ≡ slice (content f) q n
  slice-write_at_ne f r p q n full far =
      slice_ext _ _ q n λ i low high. law.written f r p i ∙ ground arith

  -- Writing a record changes the record at its position and no other.
  pub record_at-write_at :
      (f : F) (r : List ℕ) (p q : ℕ)
      → length r ≡ 60
      → IsAligned p
      → IsAligned q
      → record_at (ops.write_at f r p).0 q ≡ (if p == q then r else record_at f q)
  unfolding record_at
  record_at-write_at f r p q full hp hq = elim (Bool-cases (p == q)) [
    | inl e ↦
        let same : p ≡ q = ground arith in rw e (rw (← same) (slice-write_at_self f r p 60 full))
    | inr e ↦ rw e (slice-write_at_ne f r p q 60 full (apart p q hp hq (ground arith)))
  ]
