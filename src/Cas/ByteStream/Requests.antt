-- ===== src/Cas/ByteStream/Requests.antt =====
-- What the server reads of a sequence of write requests.
use mathlib.Core.List.{append_assoc}
use bazel_buildbarn.Prelude.{
  ℕ, zero, suc, ◌+◌, ◌≤◌, ◌<◌, ◌≡◌, refl, ap, ◌∙◌, sym, inl, inr, List, [], ◌∷◌, ◌++◌, none, Bool,
  true, false, ◌==◌, if◌then◌else◌, length, take, drop, length-drop, take-append-drop, arith,
  Bool-cases,
}
use bazel_buildbarn.Prelude.Word.{add64}
use bazel_buildbarn.Util.Status.{Error}
use bazel_buildbarn.Util.Reader.{Reader, drain, prepend}
use bazel_buildbarn.Cas.ByteStream.{
  WriteRequest, WriteServerReader, closed_twice, wrong_offset, set_request, end_of, set, received,
  read, reads, next, enough,
}

-- The contents of the requests up to the first that is out of sequence, and the error that tells why
-- there are no more.
unfoldable pub in_sequence : ℕ → Bool → Error → List WriteRequest → List ℕ × Error
in_sequence write_offset finished ending [] = ([], end_of ending finished)
in_sequence write_offset finished ending (request ∷ requests) =
    let rest =
      in_sequence (add64 write_offset (length request.contents)) request.finish_write ending
        requests in
    if finished
    then ([], closed_twice)
    else if request.write_offset == write_offset
    then prepend request.contents rest
    else ([], wrong_offset request.write_offset write_offset)

abbrev left : WriteServerReader → List ℕ × Error
left r = prepend r.contents (in_sequence r.write_offset r.finished_write r.ending r.requests)

prepend-prepend :
    (xs ys : List ℕ) (rest : List ℕ × Error)
    → prepend xs (prepend ys rest) ≡ prepend (xs ++ ys) rest
prepend-prepend xs ys (b, e) = ap (λ l. (l, e)) (sym (append_assoc xs ys b))

module _ (buffer : ℕ) (room : 0 < buffer) where
  -- A read that copies some of the contents that are there.
  pub drain-copied :
      (contents : List ℕ) (rest : List ℕ × Error) (events : Reader)
      → drain events ≡ prepend (drop buffer contents) rest
      → drain ((take buffer contents, none) ∷ events) ≡ prepend contents rest
  unfolding drain
  drain-copied contents rest events h =
      ap (prepend (take buffer contents)) h
      ∙ prepend-prepend (take buffer contents) (drop buffer contents) rest
      ∙ ap (λ l. prepend l rest) (take-append-drop buffer contents)

  abbrev state : List WriteRequest → Error → ℕ → List ℕ → Bool → WriteServerReader
  state requests ending write_offset contents finished = record {
    requests = requests;
    ending = ending;
    write_offset = write_offset;
    contents = contents;
    finished_write = finished;
  }

  drain-reads_of :
      (fuel : ℕ) (requests : List WriteRequest) (ending : Error) (write_offset : ℕ)
      (contents : List ℕ) (finished : Bool)
      → length contents + enough requests ≤ fuel
      → drain (reads fuel buffer (state requests ending write_offset contents finished))
        ≡ left (state requests ending write_offset contents finished)
  unfolding reads next read received set set_request drain in_sequence
  drain-reads_of zero [] ending write_offset contents finished up = absurd (omega arith)
  drain-reads_of zero (request ∷ requests) ending write_offset contents finished up =
      absurd (omega arith)
  drain-reads_of (suc fuel) requests ending write_offset (c ∷ cs) finished up =
      let dropped = length-drop buffer (c ∷ cs) in
      let filled : (suc (length cs) == 0) ≡ false = ground arith in
      rw filled (
        drain-copied (c ∷ cs) _
          (reads fuel buffer (state requests ending write_offset (drop buffer (c ∷ cs)) finished))
          (drain-reads_of fuel requests ending write_offset (drop buffer (c ∷ cs)) finished
            (omega (arith, room, dropped))))
  drain-reads_of (suc fuel) [] ending write_offset [] finished up = refl
  drain-reads_of (suc fuel) (request ∷ requests) ending write_offset [] true up = refl
  drain-reads_of (suc fuel) (request ∷ requests) ending write_offset [] false up =
      elim (Bool-cases (request.write_offset == write_offset)) [
        | inr differs ↦ rw differs refl
        | inl same ↦
            let dropped = length-drop buffer request.contents in
            rw same (
              drain-copied request.contents _
                (reads fuel buffer (
                  state requests ending (add64 write_offset (length request.contents))
                    (drop buffer request.contents) request.finish_write))
                (drain-reads_of fuel requests ending (add64 write_offset (length request.contents))
                  (drop buffer request.contents) request.finish_write (omega (arith, dropped))))
      ]

  pub drain-reads :
      (fuel : ℕ) (r : WriteServerReader)
      → length r.contents + enough r.requests ≤ fuel
      → drain (reads fuel buffer r)
        ≡ prepend r.contents (in_sequence r.write_offset r.finished_write r.ending r.requests)
  drain-reads fuel r up =
      drain-reads_of fuel r.requests r.ending r.write_offset r.contents r.finished_write up
