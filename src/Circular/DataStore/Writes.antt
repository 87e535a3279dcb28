-- ===== src/Circular/DataStore/Writes.antt =====
-- Writing: what Put leaves in the data file, and what it gets wrong at the end of the file.
use mathlib.Core.List.{append-nil}
use native.Mathlib.Decide.{dec_lt}
use native.Mathlib.Nat.{le_trans}
use bazel_buildbarn.Prelude.{
  ◌⊎◌, ℕ, zero, suc, ◌+◌, ◌-◌, ◌%◌, ◌^◌, ◌≤◌, ◌<◌, ◌≡◌, refl, sym, ◌∙◌, List, [], ◌∷◌, ◌++◌, some,
  ltb, ◌==◌, if◌then◌else◌, length, length-append, get_or, arith, inl, inr, false,
}
use bazel_buildbarn.Prelude.Word.{add64}
use bazel_buildbarn.Util.Status.{ok, eof}
use bazel_buildbarn.Util.Digest.Generator.{flatten}
use bazel_buildbarn.Util.Reader.{chunks}
use bazel_buildbarn.Circular.File.{ReadWriterAt, IsFile, overwrite, slice-written}
use bazel_buildbarn.Circular.DataStore.{put, put_loop, get, read_all}
use bazel_buildbarn.Circular.DataStore.Reads.{ring, slice-ring, read_all-get}

get_or-append :
    (xs ys : List ℕ) (i : ℕ)
    → get_or (xs ++ ys) i 0
      ≡ (if ltb i (length xs) then get_or xs i 0 else get_or ys (i - length xs) 0)
get_or-append [] ys i = let e : i - 0 ≡ i = omega arith in ground (arith, e)
get_or-append (x ∷ xs) ys zero = ground arith
get_or-append (x ∷ xs) ys (suc i) = ground (arith, get_or-append xs ys i)

-- Writing two pieces one after the other is writing them together.
overwrite-overwrite :
    (c : ℕ → ℕ) (xs ys : List ℕ) (at i : ℕ)
    → overwrite (overwrite c xs at) ys (at + length xs) i ≡ overwrite c (xs ++ ys) at i
overwrite-overwrite c xs ys at i =
    let shift : i - at - length xs ≡ i - (at + length xs) = omega arith in
    ground (arith, length-append xs ys, get_or-append xs ys (i - at), shift)

-- The next piece is written behind the last, or is empty.
overwrite-next :
    (c c' : ℕ → ℕ) (xs ys : List ℕ) (at next i : ℕ)
    → c' i ≡ overwrite c xs at i
    → (next ≡ at + length xs) ⊎ (length ys ≡ 0)
    → overwrite c' ys next i ≡ overwrite c (xs ++ ys) at i
overwrite-next c c' xs ys at next i same (inl behind) =
    rw behind (ground (arith, same)) ∙ overwrite-overwrite c xs ys at i
overwrite-next c c' xs [] at next i same (inr empty) = rw append-nil (ground (arith, same))
overwrite-next c c' xs (y ∷ ys) at next i same (inr empty) = absurd (omega arith)

wrap_place :
    (offset i store_size : ℕ)
    → store_size ≤ offset % store_size + i
    → offset % store_size + i < store_size + store_size
    → (offset + i) % store_size ≡ offset % store_size + i - store_size
wrap_place offset i store_size past short = grind arith

still_fits :
    (offset n m store_size : ℕ)
    → 0 < store_size
    → offset % store_size + (n + m) ≤ store_size
    → (offset + n) % store_size + m ≤ store_size
still_fits offset n m store_size room fits = elim (dec_lt (offset % store_size + n) store_size) [
  | yes h ↦ let e : (offset + n) % store_size ≡ offset % store_size + n = grind arith in omega arith
  | no h ↦
      let e : m ≡ 0 = omega arith in
      let b : (offset + n) % store_size < store_size = omega arith in omega arith
]

next_place :
    (offset n m store_size : ℕ)
    → 0 < store_size
    → offset % store_size + (n + m) ≤ store_size
    → ((offset + n) % store_size ≡ offset % store_size + n) ⊎ (m ≡ 0)
next_place offset n m store_size room fits = elim (dec_lt (offset % store_size + n) store_size) [
  | yes h ↦ inl (grind arith)
  | no h ↦ inr (omega arith)
]

module _ {F : Type 0} (ops : ReadWriterAt F) (content : F → ℕ → ℕ) (length_of : F → ℕ)
    (law : IsFile ops content length_of) (store_size : ℕ) where
  -- What Put leaves of pieces that stay within the end of the file.
  put_loop-chunks :
      (bs : List (List ℕ)) (file : F) (offset : ℕ)
      → 0 < store_size
      → offset % store_size + length (flatten bs) ≤ store_size
      → offset + length (flatten bs) < 2 ^ 64
      → ((put_loop ops store_size file (chunks bs) offset).0 ≡ ok tt)
        × ((i : ℕ)
            → content (put_loop ops store_size file (chunks bs) offset).1 i
              ≡ overwrite (content file) (flatten bs) (offset % store_size) i)
        × (length_of file ≤ length_of (put_loop ops store_size file (chunks bs) offset).1)
  unfolding put_loop
  put_loop-chunks [] file offset room fits word = (refl, λ i. ground arith, omega arith)
  put_loop-chunks (b ∷ bs) file offset room fits word =
      let split = length-append b (flatten bs) in
      let p = offset % store_size in
      let file' = (ops.write_at file b p).0 in
      let plain : add64 offset (length b) ≡ offset + length b = omega arith in
      let place =
        next_place offset (length b) (length (flatten bs)) store_size room (omega arith) in
      let below : (offset + length b) % store_size + length (flatten bs) ≤ store_size =
        still_fits offset (length b) (length (flatten bs)) store_size room (omega arith) in
      let (done, left, longer) =
        put_loop-chunks bs file' (offset + length b) room below (omega arith) in
      rw (law.writes file b p, plain)
        (
          done,
          λ i.
              left i
              ∙ overwrite-next (content file) (content file') b (flatten bs) p _ i
                  (law.written file b p i) place,
          le_trans (law.grows file b p).1 longer,
        )

  ring-chunks :
      (bs : List (List ℕ)) (file : F) (offset : ℕ)
      → 0 < store_size
      → offset % store_size + length (flatten bs) ≤ store_size
      → offset + length (flatten bs) < 2 ^ 64
      → ring
          (content (put_loop ops store_size file (chunks bs) offset).1)
          store_size
          offset
          (length (flatten bs))
        ≡ flatten bs
  ring-chunks bs file offset room fits word =
      let (done, left, longer) = put_loop-chunks bs file offset room fits word in
      let p = offset % store_size in
      sym (slice-ring _ store_size offset (length (flatten bs)) room fits)
      ∙ slice-written (content (put_loop ops store_size file (chunks bs) offset).1) (flatten bs) p
          λ i h. let same : p + i - p ≡ i = omega arith in left (p + i) ∙ ground (arith, same)

  -- On a data file that does not fail: if a blob, however it is cut into pieces by its reader, lies
  -- within the end of the file, then Put succeeds, and reading the same range to its end, with any
  -- buffer, gives the bytes of the blob and then io.EOF.
  pub read_all-put :
      (bs : List (List ℕ)) (file : F) (offset buffer : ℕ)
      → store_size ≤ length_of file
      → 0 < store_size
      → offset % store_size + length (flatten bs) ≤ store_size
      → offset + length (flatten bs) < 2 ^ 64
      → 0 < buffer
      → ((put ops store_size file (chunks bs) offset).0 ≡ ok tt)
        × (read_all ops store_size
              (length (flatten bs) + 1)
              (put ops store_size file (chunks bs) offset).1
              (get offset (length (flatten bs)))
              buffer
            ≡ (flatten bs, some eof))
  unfolding put
  read_all-put bs file offset buffer long room fits word some_buffer =
      let (done, left, longer) = put_loop-chunks bs file offset room fits word in
      let some_size : (store_size == 0) ≡ false = ground arith in
      rw some_size (
        done,
        read_all-get ops content length_of law store_size room _ (le_trans long longer)
              (length (flatten bs) + 1) offset (length (flatten bs)) buffer (omega arith)
              some_buffer word
            ∙ rw (ring-chunks bs file offset room fits word),
      )

  -- A piece that passes the end of the data file is not wrapped around: Put reports success, and the
  -- bytes at the start of the file, from which Get reads the tail of the blob, are what they were.
  pub put_loses_tail :
      (b : List ℕ) (file : F) (offset i : ℕ)
      → 0 < store_size
      → length b ≤ store_size
      → i < length b
      → store_size ≤ offset % store_size + i
      → ((put ops store_size file (chunks (b ∷ [])) offset).0 ≡ ok tt)
        × (content (put ops store_size file (chunks (b ∷ [])) offset).1 ((offset + i) % store_size)
            ≡ content file ((offset + i) % store_size))
  unfolding put put_loop
  put_loses_tail b file offset i room whole inside past =
      let p = offset % store_size in
      let wrapped : (offset + i) % store_size ≡ p + i - store_size =
        wrap_place offset i store_size past (omega arith) in
      let some_size : (store_size == 0) ≡ false = ground arith in
      rw (some_size, law.writes file b p) (refl, law.written file b p _ ∙ ground (arith, wrapped))
