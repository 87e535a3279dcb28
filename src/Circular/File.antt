-- ===== src/Circular/File.antt =====
-- The file access that the stores are given (pkg/blobstore/circular/read_writer_at.go), what they rely
-- on of a file that does not fail, and a file in memory that meets it.
use Prim.Native.Nat.{max}
use mathlib.Core.Path.{ap₂}
use native.Mathlib.Nat.{add-zero}
use bazel_buildbarn.Prelude.{
  true, ℕ, zero, suc, ◌+◌, ◌-◌, ◌≤◌, ◌<◌, ◌≡◌, refl, ap, sym, min, ◌&&◌, List, [], ◌∷◌, Option,
  none, some, leb, ltb, if◌then◌else◌, length, get_or, arith, ◌⊎◌,
}
use bazel_buildbarn.Util.Status.{Error, eof}

-- ReadAt returns the bytes that it has read and the error, if any; WriteAt the file and the error.
pub record ReadWriterAt (F : Type 0) : Type 0 where
  pub read_at : F → ℕ → ℕ → List ℕ × Option Error
  pub write_at : F → List ℕ → ℕ → F × Option Error

-- `n` bytes of a content, from `at` on.
unfoldable pub slice : (ℕ → ℕ) → ℕ → ℕ → List ℕ
slice content at zero = []
slice content at (suc n) = content at ∷ slice content (at + 1) n

-- A content after `b` has been written at `at`.
abbrev pub overwrite : (ℕ → ℕ) → List ℕ → ℕ → ℕ → ℕ
overwrite content b at i =
    if leb at i && ltb i (at + length b) then get_or b (i - at) 0 else content i

-- A buffer of `n` zeros into which `b` has been read.
abbrev pub pad : ℕ → List ℕ → List ℕ
pad zero b = []
pad (suc n) [] = 0 ∷ pad n []
pad (suc n) (x ∷ b) = x ∷ pad n b

-- A file that never fails, with its content, which is zero past the end, and its size: what os.File
-- documents of ReadAt and WriteAt. A read that meets the end is short, and says io.EOF.
pub record IsFile {F : Type 0} (ops : ReadWriterAt F) (content : F → ℕ → ℕ) (size : F → ℕ)
    : Type 0 where
  pub reads : (f : F) (n at : ℕ) → pad n (ops.read_at f n at).0 ≡ slice (content f) at n
  pub reads_to :
      (f : F) (n at : ℕ) → ((ops.read_at f n at).1 ≡ none) ⊎ ((ops.read_at f n at).1 ≡ some eof)
  pub reads_full :
      (f : F) (n at : ℕ) → at + n ≤ size f → ops.read_at f n at ≡ (slice (content f) at n, none)
  pub writes : (f : F) (b : List ℕ) (at : ℕ) → (ops.write_at f b at).1 ≡ none
  pub written :
      (f : F) (b : List ℕ) (at i : ℕ)
      → content (ops.write_at f b at).0 i ≡ overwrite (content f) b at i
  pub grows :
      (f : F) (b : List ℕ) (at : ℕ)
      → (at + length b ≤ size (ops.write_at f b at).0) × (size f ≤ size (ops.write_at f b at).0)

pub length-slice : (content : ℕ → ℕ) (at n : ℕ) → length (slice content at n) ≡ n
unfolding slice
length-slice content at zero = refl
length-slice content at (suc n) = ap suc (length-slice content (at + 1) n)

-- Slices of contents that agree there are equal.
pub slice_ext :
    (c d : ℕ → ℕ) (at n : ℕ)
    → ((i : ℕ) → at ≤ i → i < at + n → c i ≡ d i)
    → slice c at n ≡ slice d at n
unfolding slice
slice_ext c d at zero h = refl
slice_ext c d at (suc n) h =
    let rest = slice_ext c d (at + 1) n (λ i p q. h i (omega arith) (omega arith)) in
    cc (h at (omega arith) (omega arith), rest)

later :
    (d : ℕ → ℕ) (x : ℕ) (b : List ℕ) (at : ℕ)
    → ((i : ℕ) → i < length (x ∷ b) → d (at + i) ≡ get_or (x ∷ b) i 0)
    → (i : ℕ) → i < length b
    → d (at + 1 + i) ≡ get_or b i 0
later d x b at h i p =
    let shift : at + 1 + i ≡ at + suc i = omega arith in rw shift (h (suc i) (omega arith))

-- What has been written is the slice there.
pub slice-written :
    (d : ℕ → ℕ) (b : List ℕ) (at : ℕ)
    → ((i : ℕ) → i < length b → d (at + i) ≡ get_or b i 0)
    → slice d at (length b) ≡ b
unfolding slice
slice-written d [] at h = refl
slice-written d (x ∷ b) at h =
    let first : d at ≡ x = rw add-zero at (h 0 (omega arith)) in
    let rest = slice-written d b (at + 1) (later d x b at h) in ap₂ ◌∷◌ first rest

-- A file in memory: the bytes that have been written, and the size.
pub record Memory : Type 0 where
  pub byte : ℕ → ℕ
  pub size : ℕ

abbrev pub memory_content : Memory → ℕ → ℕ
memory_content f i = if ltb i f.size then f.byte i else 0

abbrev pub memory : ReadWriterAt Memory
memory = record {
  read_at = λ f n at. (
    slice (memory_content f) at (min n (f.size - at)),
    if leb (at + n) f.size then none else some eof,
  );
  write_at = λ f b at. (
    record { byte = overwrite (memory_content f) b at; size = max f.size (at + length b) },
    none,
  );
}

pad-slice :
    (c : ℕ → ℕ) (at k n : ℕ)
    → ((i : ℕ) → at + k ≤ i → i < at + n → c i ≡ 0)
    → k ≤ n
    → pad n (slice c at k) ≡ slice c at n
unfolding slice
pad-slice c at zero zero z h = refl
pad-slice c at zero (suc n) z h =
    ap₂ ◌∷◌ (sym (z at (omega arith) (omega arith)))
      (pad-slice c (at + 1) zero n (λ i p q. z i (omega arith) (omega arith)) (omega arith))
pad-slice c at (suc k) zero z h = absurd (omega arith)
pad-slice c at (suc k) (suc n) z h =
    ap (◌∷◌ (c at))
      (pad-slice c (at + 1) k n (λ i p q. z i (omega arith) (omega arith)) (omega arith))

pub memory-IsFile : IsFile memory memory_content (λ f. f.size)
memory-IsFile = record {
  reads = λ f n at.
      pad-slice (memory_content f) at (min n (f.size - at)) n (λ i p q. ground arith) (omega arith);
  reads_to = λ f n at. ground arith;
  reads_full = λ f n at h.
      let whole : min n (f.size - at) ≡ n = omega arith in
      let inside : leb (at + n) f.size ≡ true = ground arith in rw (whole, inside);
  writes = λ f b at. refl;
  written = λ f b at i. ground arith;
  grows = λ f b at. (omega arith, omega arith);
}
