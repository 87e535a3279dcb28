-- ===== src/Util/Reader.antt =====
-- io.Reader, as the calls of Read that are to come: each returns some bytes and an error, if any. A
-- reader that has nothing left returns io.EOF. A call returns no more bytes than its buffer holds.
use bazel_buildbarn.Prelude.{ℕ, List, [], ◌∷◌, ◌++◌, Option, none, some}
use bazel_buildbarn.Util.Status.{Error, eof}

abbrev pub Reader : Type 0
Reader = List (List ℕ × Option Error)

unfoldable pub read : Reader → (List ℕ × Option Error) × Reader
read [] = (([], some eof), [])
read (event ∷ events) = (event, events)

-- A reader that returns the chunks one by one.
abbrev pub chunks : List (List ℕ) → Reader
chunks [] = []
chunks (b ∷ bs) = (b, none) ∷ chunks bs

abbrev pub prepend : List ℕ → List ℕ × Error → List ℕ × Error
prepend b (rest, e) = (b ++ rest, e)

-- What a client reads that stops at the first error: all the bytes, and that error.
unfoldable pub drain : Reader → List ℕ × Error
drain [] = ([], eof)
drain ((b, none) ∷ r) = prepend b (drain r)
drain ((b, some e) ∷ r) = (b, e)
