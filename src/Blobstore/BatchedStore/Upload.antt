-- ===== src/Blobstore/BatchedStore/Upload.antt =====
-- What the loop over the missing blobs leaves in a backend that behaves as a map from digests to blobs.
use bazel_buildbarn.Prelude.{
  ℕ, ◌≡◌, ◌≢◌, refl, ap, ◌∙◌, sym, inl, inr, List, [], ◌∷◌, map, none, some, length, Member,
  Bool-cases, Option-cases,
}
use bazel_buildbarn.Util.Status.{Result, ok, Error, eof}
use bazel_buildbarn.Util.Digest.{Digest, KeyFormat, get_key}
use bazel_buildbarn.Util.Reader.{Reader, drain}
use bazel_buildbarn.Circular.Record.{bytes_equal}
use bazel_buildbarn.Circular.Record.Fields.{bytes_equal_sound, bytes_equal_refl}
use bazel_buildbarn.Circular.BlobAccess.{pair_eq}
use bazel_buildbarn.Blobstore.BlobAccess.{BlobAccess}
use bazel_buildbarn.Blobstore.BlobAccess.Laws.{View, Updated, IsStore, put_sized}
use bazel_buildbarn.Blobstore.BatchedStore.{
  PendingPutOperation, Pending, lookup, remove, digest_of, upload, upload_one,
}
use bazel_buildbarn.Blobstore.BatchedStore.Pending.{lookup-remove_self, lookup-remove_ne}

-- Some operation of the list is for the digest.
pub Member_map :
    (digest : Digest) (pending : Pending)
    → Member digest (map digest_of pending)
    → (op : PendingPutOperation) × Member op pending × (op.digest ≡ digest)
Member_map digest [] m = absurd m
Member_map digest (op ∷ pending) (inl e) = (op, inl refl, sym e)
Member_map digest (op ∷ pending) (inr m) =
    let (found, n, e) = Member_map digest pending m in (found, inr n, e)

pub map_Member :
    (op : PendingPutOperation) (pending : Pending)
    → Member op pending
    → Member op.digest (map digest_of pending)
map_Member op [] m = absurd m
map_Member op (x ∷ pending) (inl e) = inl (ap digest_of e)
map_Member op (x ∷ pending) (inr m) = inr (map_Member op pending m)

module _ {S R : Type 0} (ba : BlobAccess S R) (view : S → View) (Missing : Error → Type 0)
    (law : IsStore ba view Missing) (f : KeyFormat) (batch_size : ℕ) (range : Pending → Pending)
    (close : Reader → Result (Unit {0})) where
  abbrev pub key : Digest → List ℕ
  key digest = get_key digest f

  -- What the loop needs of the pending operations: what is found can be stored, and is for the digest
  -- that is missing.
  pub record Ready (pending : Pending) (missing : List Digest) : Type 0 where
    pub readable :
        (k : List ℕ) (op : PendingPutOperation)
        → lookup f k pending ≡ some op
        → ((drain op.r).1 ≡ eof) × (op.size_bytes ≡ length (drain op.r).0)
    pub matching :
        (digest : Digest) (op : PendingPutOperation)
        → Member digest missing
        → lookup f (key digest) pending ≡ some op
        → op.digest ≡ digest

  lookup_kept :
      (k other : List ℕ) (pending : Pending) (op : PendingPutOperation)
      → lookup f other (remove f k pending) ≡ some op
      → lookup f other pending ≡ some op
  lookup_kept k other pending op h = elim (Bool-cases (bytes_equal other k)) [
    | inl e ↦
        let same = bytes_equal_sound other k e in
        let gone = lookup-remove_self f k pending in absurd (cc)
    | inr e ↦
        let ne : other ≢ k = λ same. (let same' = bytes_equal_refl k in absurd (cc)) in
        sym (lookup-remove_ne f k other pending ne) ∙ h
  ]

  remove-Ready :
      (pending : Pending) (digest : Digest) (missing : List Digest)
      → Ready pending (digest ∷ missing)
      → Ready (remove f (key digest) pending) missing
  remove-Ready pending digest missing h = record {
    readable = λ k op e. h.readable k op (lookup_kept (key digest) k pending op e);
    matching = λ other op m e.
        h.matching other op (inr m) (lookup_kept (key digest) (key other) pending op e);
  }

  pub record Uploaded (s : S) (pending : Pending) (missing : List Digest)
      (result : Result (Unit {0}) × (S × Pending)) : Type 0 where
    pub succeeds : result.0 ≡ ok tt
    pub empty : result.1.1 ≡ []
    pub stored :
        (digest : Digest) (op : PendingPutOperation)
        → Member digest missing
        → lookup f (key digest) pending ≡ some op
        → view result.1.0 digest ≡ some (drain op.r).0
    pub others :
        (digest : Digest)
        → (Member digest missing → lookup f (key digest) pending ≡ none)
        → view result.1.0 digest ≡ view s digest

  abbrev pub uploading : List Digest → Pending → S → Result (Unit {0}) × (S × Pending)
  uploading = upload ba f batch_size range close

  -- A digest for which nothing is pending.
  nothing_pending :
      (s : S) (pending : Pending) (digest : Digest) (missing : List Digest)
      (result : Result (Unit {0}) × (S × Pending))
      → lookup f (key digest) pending ≡ none
      → Uploaded s pending missing result
      → Uploaded s pending (digest ∷ missing) result
  nothing_pending s pending digest missing result e h = record {
    succeeds = h.succeeds;
    empty = h.empty;
    stored = λ other op m found. elim m [
      | inl same ↦ absurd (let found' = rw same at found in cc)
      | inr n ↦ h.stored other op n found
    ];
    others = λ other free. h.others other (λ m. free (inr m));
  }

  -- A digest for which there is an operation.
  one_stored :
      (s t : S) (pending : Pending) (digest : Digest) (missing : List Digest)
      (op : PendingPutOperation) (result : Result (Unit {0}) × (S × Pending))
      → Ready pending (digest ∷ missing)
      → lookup f (key digest) pending ≡ some op
      → Updated (view s) op.digest (some (drain op.r).0) (view t)
      → Uploaded t (remove f (key digest) pending) missing result
      → Uploaded s pending (digest ∷ missing) result
  one_stored s t pending digest missing op result ready e (at, away) h =
      let own : op.digest ≡ digest = ready.matching digest op (inl refl) e in
      record {
        succeeds = h.succeeds;
        empty = h.empty;
        stored = λ other op' m found. elim (Bool-cases (bytes_equal (key other) (key digest))) [
          | inl same ↦
              let same' = bytes_equal_sound (key other) (key digest) same in
              let ops : some op' ≡ some op = sym found ∙ ap (λ k. lookup f k pending) same' ∙ e in
              let op_eq : op' ≡ op = cc in
              let mine : other ≡ op.digest =
                sym (ready.matching other op' m found) ∙ ap digest_of op_eq in
              let gone : lookup f (key other) (remove f (key digest) pending) ≡ none =
                ap (λ k. lookup f k (remove f (key digest) pending)) same'
                ∙ lookup-remove_self f (key digest) pending in
              h.others other (λ n. gone)
              ∙ ap (view t) mine
              ∙ at
              ∙ ap (λ o. some (drain o.r).0) (sym op_eq)
          | inr differs ↦
              let ne : key other ≢ key digest =
                λ k. (let self = bytes_equal_refl (key digest) in absurd (cc)) in
              elim m [
                | inl same ↦ absurd (ne (ap key same))
                | inr n ↦
                    h.stored other op' n
                      (lookup-remove_ne f (key digest) (key other) pending ne ∙ found)
              ]
        ];
        others = λ other free.
            let ne : other ≢ digest =
              λ same. (let none' = free (inl same) in let e' = rw (← same) at e in absurd (cc)) in
            let kept : Member other missing
                → lookup f (key other) (remove f (key digest) pending) ≡ none =
              λ m.
                (let none' = free (inr m) in
                  let ne' : key other ≢ key digest = λ k. absurd (cc) in
                  lookup-remove_ne f (key digest) (key other) pending ne' ∙ none') in
            h.others other kept ∙ away other (λ same. ne (same ∙ own));
      }

  pub upload_lem :
      (missing : List Digest) (pending : Pending) (s : S)
      → Ready pending missing
      → Uploaded s pending missing (uploading missing pending s)
  unfolding upload upload_one
  upload_lem [] pending s ready = record {
    succeeds = refl;
    empty = refl;
    stored = λ digest op m found. absurd m;
    others = λ digest free. refl;
  }
  upload_lem (digest ∷ missing) pending s ready =
      elim (Option-cases (lookup f (key digest) pending)) [
        | inl e ↦ rw e (
            nothing_pending s pending digest missing (uploading missing pending s) e (
              upload_lem missing pending s record {
                readable = ready.readable;
                matching = λ other op m found. ready.matching other op (inr m) found;
              }))
        | inr (op, e) ↦
            let (end, size) = ready.readable (key digest) op e in
            let (put_ok, updated) =
              put_sized ba view Missing law s op.digest op.size_bytes op.r end size in
            let t = (ba.put s op.digest op.size_bytes op.r).1 in
            let step : ba.put s op.digest op.size_bytes op.r ≡ (ok tt, t) = pair_eq put_ok refl in
            let rest =
              upload_lem missing (remove f (key digest) pending) t
                (remove-Ready pending digest missing ready) in
            rw (e, step) (one_stored s t pending digest missing op _ ready e updated rest)
      ]
