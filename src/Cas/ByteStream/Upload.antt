-- ===== src/Cas/ByteStream/Upload.antt =====
-- A blob that is written over the byte stream protocol arrives.
use mathlib.Core.List.{append-nil, append_assoc}
use bazel_buildbarn.Prelude.{
  ℕ, ◌≡◌, ◌≢◌, refl, ap, ◌∙◌, sym, List, [], ◌∷◌, ◌++◌, none, some, Bool, true, false, ◌==◌, length,
  arith,
}
use bazel_buildbarn.Prelude.Word.{add64}
use bazel_buildbarn.Util.Status.{Result, ok, err, Error, eof, status, violation, other}
use bazel_buildbarn.Util.Digest.{Digest}
use bazel_buildbarn.Util.Reader.{Reader, drain, prepend}
use bazel_buildbarn.Circular.BlobAccess.{pair_eq}
use bazel_buildbarn.Cas.ResourceName.{write_resource_name}
use bazel_buildbarn.Cas.ByteStream.{
  WriteRequest, WriteClient, put_loop, put, sent_chunk, sent_last, end_of,
}
use bazel_buildbarn.Cas.ByteStream.Requests.{in_sequence}

-- GRPC delivers what is sent: `sent` are the requests so far.
pub record Delivers {W : Type 0} (client : WriteClient W) (sent : W → List WriteRequest)
    : Type 0 where
  pub opens : (w : W) → (client.open_write w).0 ≡ none
  pub open_sent : (w : W) → sent (client.open_write w).1 ≡ sent w
  pub sends : (w : W) (request : WriteRequest) → (client.send w request).0 ≡ none
  pub send_sent :
      (w : W) (request : WriteRequest) → sent (client.send w request).1 ≡ sent w ++ request ∷ []
  pub closes : (w : W) → (client.close_and_recv w).0 ≡ none
  pub close_sent : (w : W) → sent (client.close_and_recv w).1 ≡ sent w

-- The first of the requests, if there is one, has the name.
abbrev pub Named : List ℕ → List WriteRequest → Type 0
Named name [] = Unit
Named name (request ∷ requests) = request.resource_name ≡ name

end_of_ne : (ending : Error) → (end_of ending false) ≢ eof
unfolding end_of
end_of_ne eof h = cc
end_of_ne (status c m) h = cc
end_of_ne (violation c m t u) h = cc
end_of_ne (other m) h = cc

module _ {W : Type 0} (client : WriteClient W) (sent : W → List WriteRequest)
    (law : Delivers client sent) where
  abbrev request_of : List ℕ → ℕ → Bool → List ℕ → WriteRequest
  request_of name offset finish b = record {
    resource_name = name;
    write_offset = offset;
    finish_write = finish;
    contents = b;
  }

  -- What the loop has sent, when the reader has ended with the error.
  pub record Sent (r : Reader) (name : List ℕ) (offset : ℕ) (w : W) (result : Result (Unit {0}) × W)
      : Type 0 where
    pub requests : List WriteRequest
    pub adds : sent result.1 ≡ sent w ++ requests
    pub names : Named name requests
    pub succeeds :
        (drain r).1 ≡ eof
        → (result.0 ≡ ok tt) × (in_sequence offset false eof requests ≡ drain r) × (requests ≢ [])
    pub fails :
        (drain r).1 ≢ eof
        → (result.0 ≡ err (drain r).1)
          × ((ending : Error) → (in_sequence offset false ending requests).1 ≢ eof)

  same_place : (offset : ℕ) → (offset == offset) ≡ true
  same_place offset = ground arith

  last_request :
      (r : Reader) (name b : List ℕ) (offset : ℕ) (w : W)
      → drain r ≡ (b, eof)
      → Sent r name offset w (sent_last client (client.send w (request_of name offset true b)))
  unfolding sent_last in_sequence end_of
  last_request r name b offset w read =
      let q = request_of name offset true b in
      let w' = (client.send w q).1 in
      let step : client.send w q ≡ (none, w') = pair_eq (law.sends w q) refl in
      let close : client.close_and_recv w' ≡ (none, (client.close_and_recv w').1) =
        pair_eq (law.closes w') refl in
      rw (step, close)
        record {
          requests = q ∷ [];
          adds = law.close_sent w' ∙ law.send_sent w q;
          names = refl;
          succeeds = λ end. (
            refl,
            rw (same_place offset) (ap (λ l. (l, eof)) (append-nil b) ∙ sym read),
            λ e. cc,
          );
          fails = λ bad. absurd (bad (ap (λ p. p.1) read));
        }

  failed_reader :
      (r : Reader) (name b : List ℕ) (offset : ℕ) (w : W) (e : Error)
      → drain r ≡ (b, e)
      → e ≢ eof
      → Sent r name offset w (err e, w)
  unfolding in_sequence
  failed_reader r name b offset w e read bad = record {
    requests = [];
    adds = sym (append-nil (sent w));
    names = tt;
    succeeds = λ end. absurd (bad (sym (ap (λ p. p.1) read) ∙ end));
    fails = λ h. (ap (λ p. err p.1) (sym read), end_of_ne);
  }

  one_more_request :
      (r : Reader) (name b : List ℕ) (offset : ℕ) (w : W) (result : Result (Unit {0}) × W)
      → Sent r []
          (add64 offset (length b))
          (client.send w (request_of name offset false b)).1
          result
      → Sent ((b, none) ∷ r) name offset w result
  unfolding in_sequence drain
  one_more_request r name b offset w result h =
      let q = request_of name offset false b in
      record {
        requests = q ∷ h.requests;
        adds =
            h.adds
            ∙ ap (λ l. l ++ h.requests) (law.send_sent w q)
            ∙ append_assoc (sent w) (q ∷ []) h.requests;
        names = refl;
        succeeds = λ end.
            (let (done, same, _) = h.succeeds end in
              (done, rw (same_place offset) (ap (prepend b) same), λ e. cc));
        fails = λ bad.
            (let (failed, stops) = h.fails bad in
              (failed, λ ending. rw (same_place offset) (stops ending)));
      }

  put_loop_lem :
      (r : Reader) (name : List ℕ) (offset : ℕ) (w : W)
      → Sent r name offset w (put_loop client r name offset w)
  unfolding put_loop sent_chunk drain
  put_loop_lem [] name offset w = last_request [] name [] offset w refl
  put_loop_lem ((b, some eof) ∷ r) name offset w =
      last_request ((b, some eof) ∷ r) name b offset w refl
  put_loop_lem ((b, some (status c m)) ∷ r) name offset w =
      failed_reader ((b, some (status c m)) ∷ r) name b offset w (status c m) refl (λ e. cc)
  put_loop_lem ((b, some (violation c m t u)) ∷ r) name offset w =
      failed_reader ((b, some (violation c m t u)) ∷ r) name b offset w (violation c m t u) refl
        (λ e. cc)
  put_loop_lem ((b, some (other m)) ∷ r) name offset w =
      failed_reader ((b, some (other m)) ∷ r) name b offset w (other m) refl (λ e. cc)
  put_loop_lem ((b, none) ∷ r) name offset w =
      let q = request_of name offset false b in
      let w' = (client.send w q).1 in
      let step : client.send w q ≡ (none, w') = pair_eq (law.sends w q) refl in
      let rest = put_loop_lem r [] (add64 offset (length b)) w' in
      rw step (one_more_request r name b offset w _ rest)

  pub put_lem :
      (r : Reader) (digest : Digest) (id : List ℕ) (w : W)
      → sent w ≡ []
      → Sent r (write_resource_name digest id) 0 (client.open_write w).1 (put client w id digest r)
        × (sent (client.open_write w).1 ≡ [])
  unfolding put sent_chunk
  put_lem r digest id w fresh =
      let w' = (client.open_write w).1 in
      let step : client.open_write w ≡ (none, w') = pair_eq (law.opens w) refl in
      (rw step (put_loop_lem r (write_resource_name digest id) 0 w'), law.open_sent w ∙ fresh)
