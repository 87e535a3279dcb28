-- ===== src/Blobstore/BatchedStore/Flush.antt =====
-- What flushing leaves in a backend that behaves as a map from digests to blobs.
use bazel_buildbarn.Prelude.{
  ℕ, ◌≤◌, ◌<◌, ◌≡◌, ◌≢◌, ◌↔◌, ◌⊎◌, refl, ap, ◌∙◌, sym, inl, inr, List, [], ◌∷◌, map, none, some,
  length, length-append, Member, Bool-cases, Option-cases, arith,
}
use bazel_buildbarn.Prelude.{◌^◌}
use bazel_buildbarn.Prelude.Word.{leb_int64}
use bazel_buildbarn.Util.Status.{Result, ok, Error, eof}
use bazel_buildbarn.Util.Digest.{Digest, KeyFormat, get_key}
use bazel_buildbarn.Util.Reader.{Reader, drain}
use bazel_buildbarn.Circular.BlobAccess.{pair_eq}
use bazel_buildbarn.Blobstore.BlobAccess.{BlobAccess}
use bazel_buildbarn.Blobstore.BlobAccess.Laws.{View, IsStore}
use bazel_buildbarn.Blobstore.BatchedStore.{
  PendingPutOperation, Pending, lookup, key_of, digest_of, stored, flush_missing, flush, enqueue,
  flushed, put,
}
use bazel_buildbarn.Blobstore.BatchedStore.Pending.{
  IsPending, lookup_sound, lookup-append_new, append-IsPending, none-IsPending,
}
use bazel_buildbarn.Blobstore.BatchedStore.Upload.{Member_map, map_Member, Ready, upload_lem}

module _ {S R : Type 0} (ba : BlobAccess S R) (view : S → View) (Missing : Error → Type 0)
    (law : IsStore ba view Missing) (f : KeyFormat) (batch_size : ℕ) (range : Pending → Pending)
    (close : Reader → Result (Unit {0})) where
  -- FindMissing asks for what is pending, and its answer is among that.
  asked :
      (pending : Pending) (missing : List Digest) (s : S)
      → ((op : PendingPutOperation) → Member op (range pending) ↔ Member op pending)
      → IsPending f pending
      → ((digest : Digest)
          → Member digest missing
            ↔ (Member digest (map digest_of (range pending)) × (view s digest ≡ none)))
      → Ready ba view Missing law f batch_size range close pending missing
  asked pending missing s ranges ok_pending answer = record {
    readable = λ k op found.
        let (m, e) = lookup_sound f k pending op found in
        (ok_pending.readable op m, ok_pending.sized op m);
    matching = λ digest op m found.
        let (x, n, e) = Member_map digest (range pending) ((answer digest).0 m).0 in
        let own = ok_pending.unique x ((ranges x).0 n) in
        let same : some op ≡ some x =
          sym found ∙ ap (λ d. lookup f (get_key d f) pending) (sym e) ∙ own in
        let op_eq : op ≡ x = cc in ap digest_of op_eq ∙ e;
  }

  abbrev flushing : S × Pending → Result (Unit {0}) × (S × Pending)
  flushing = flush ba f batch_size range close

  flush_lem :
      (s : S) (pending : Pending)
      → ((op : PendingPutOperation) → Member op (range pending) ↔ Member op pending)
      → IsPending f pending
      → ((flushing (s, pending)).0 ≡ ok tt)
        × ((flushing (s, pending)).1.1 ≡ [])
        × ((op : PendingPutOperation)
            → Member op pending
            → view s op.digest ≡ none
            → view (flushing (s, pending)).1.0 op.digest ≡ some (drain op.r).0)
        × ((digest : Digest)
            → (view s digest ≡ none
                → (op : PendingPutOperation) → Member op pending
                → op.digest ≢ digest)
            → view (flushing (s, pending)).1.0 digest ≡ view s digest)
  unfolding flush flush_missing
  flush_lem s pending ranges ok_pending =
      let (missing, found, answer, same) = law.find_missing s (map digest_of (range pending)) in
      let t = (ba.find_missing s (map digest_of (range pending))).1 in
      let step : ba.find_missing s (map digest_of (range pending)) ≡ (ok missing, t) =
        pair_eq found refl in
      let up =
        upload_lem ba view Missing law f batch_size range close missing pending t
          (asked pending missing s ranges ok_pending answer) in
      rw step (
        up.succeeds,
        up.empty,
        λ op m absent.
            let named = map_Member op (range pending) ((ranges op).1 m) in
            up.stored op.digest op ((answer op.digest).1 (named, absent)) (ok_pending.unique op m),
        λ digest free.
            up.others digest (λ m.
              let (n, absent) = (answer digest).0 m in
              let (op, n', e) = Member_map digest (range pending) n in
              absurd (free absent op ((ranges op).0 n') e))
            ∙ same digest,
      )

  -- The pending operations after a Put, and the one for its key: the new one, or one that was pending.
  pub record Queued (old : Pending) (x : PendingPutOperation) (pending : Pending) : Type 0 where
    pub valid : IsPending f pending
    pub bounded : length pending ≤ batch_size
    pub op : PendingPutOperation
    pub found : lookup f (key_of f x) pending ≡ some op
    pub source : (op ≡ x) ⊎ (lookup f (key_of f x) old ≡ some op)

  abbrev putting : S × Pending → Digest → ℕ → Reader → Result (Unit {0}) × (S × Pending)
  putting = put ba f batch_size range close

  enqueue_lem :
      (s : S) (pending : Pending) (x : PendingPutOperation)
      → IsPending f pending
      → length pending < batch_size
      → (drain x.r).1 ≡ eof
      → x.size_bytes ≡ length (drain x.r).0
      → Queued pending x
          (enqueue ba f batch_size range close x (lookup f (key_of f x) pending) (s, pending)).1.1
  unfolding enqueue
  enqueue_lem s pending x h short end size = elim (Option-cases (lookup f (key_of f x) pending)) [
    | inl free ↦ rw free record {
      valid = append-IsPending f pending x h end size free;
      bounded = let l = length-append pending (x ∷ []) in omega arith;
      op = x;
      found = lookup-append_new f pending x free;
      source = inl refl;
    }
    | inr (op, e) ↦
        rw e record { valid = h; bounded = omega arith; op = op; found = e; source = inr e }
  ]

  nothing_found : (k : List ℕ) (op : PendingPutOperation) → lookup f k [] ≡ some op → ⊥
  unfolding lookup
  nothing_found k op h = cc

  put_lem :
      (s : S) (pending : Pending) (digest : Digest) (size_bytes : ℕ) (r : Reader)
      → ((op : PendingPutOperation) → Member op (range pending) ↔ Member op pending)
      → 0 < batch_size
      → batch_size < 2 ^ 63
      → IsPending f pending
      → length pending ≤ batch_size
      → (drain r).1 ≡ eof
      → size_bytes ≡ length (drain r).0
      → Queued pending
          (record { digest = digest; size_bytes = size_bytes; r = r })
          (putting (s, pending) digest size_bytes r).1.1
  unfolding put flushed
  put_lem s pending digest size_bytes r ranges some_room word h bounded end size =
      let x : PendingPutOperation = record { digest = digest; size_bytes = size_bytes; r = r } in
      elim (Bool-cases (leb_int64 batch_size (length pending))) [
        | inl full ↦
            let (cleared, empty, _, _) = flush_lem s pending ranges h in
            let t = (flushing (s, pending)).1.0 in
            let step : flushing (s, pending) ≡ (ok tt, (t, [])) =
              pair_eq cleared (pair_eq refl empty) in
            let queued = enqueue_lem t [] x (none-IsPending f) some_room end size in
            rw (full, step)
              record {
                valid = queued.valid;
                bounded = queued.bounded;
                op = queued.op;
                found = queued.found;
                source = elim queued.source [
                  | inl same ↦ inl same
                  | inr was ↦ absurd (nothing_found _ _ was)
                ];
              }
        | inr room ↦
            let short : length pending < batch_size = ground arith in
            rw room (enqueue_lem s pending x h short end size)
      ]

-- Flushing into a backend that behaves as a map from digests to blobs succeeds and leaves nothing
-- pending, whatever the order in which `range` goes over the map, if the keys of the pending operations
-- are unique and their readers can be read to the end and have the size that was given. Each pending
-- blob that the backend did not have is in it afterwards, and no other digest's blob has changed.
pub flush_stores :
    {S R : Type 0} (ba : BlobAccess S R) (view : S → View) (Missing : Error → Type 0)
    (f : KeyFormat) (batch_size : ℕ) (range : Pending → Pending)
    (close : Reader → Result (Unit {0})) (s : S) (pending : Pending)
    → IsStore ba view Missing
    → ((op : PendingPutOperation) → Member op (range pending) ↔ Member op pending)
    → IsPending f pending
    → (let result = flush ba f batch_size range close (s, pending) in
        (result.0 ≡ ok tt)
        × (result.1.1 ≡ [])
        × ((op : PendingPutOperation)
            → Member op pending
            → view s op.digest ≡ none
            → view result.1.0 op.digest ≡ some (drain op.r).0)
        × ((digest : Digest)
            → (view s digest ≡ none
                → (op : PendingPutOperation) → Member op pending
                → op.digest ≢ digest)
            → view result.1.0 digest ≡ view s digest))
flush_stores ba view Missing f batch_size range close s pending law ranges h =
    flush_lem ba view Missing law f batch_size range close s pending ranges h

-- What Put has taken is in the backend once the pending operations have been flushed, byte for byte. The
-- backend behaves as a map from digests to blobs, the batch size is positive, at most that many
-- operations with unique keys are pending and can be read, and so can the new reader, which has the
-- size that is passed. Then after Put the same holds of the pending operations, and flushing succeeds. It
-- stores the operation with the key of the digest that was passed, which is the new one, or one that was
-- pending with this key before: for the digest of the operation, the backend then has all the bytes of
-- its reader, if it had no blob, and otherwise still has the one that it had.
pub flush-put :
    {S R : Type 0} (ba : BlobAccess S R) (view : S → View) (Missing : Error → Type 0)
    (f : KeyFormat) (batch_size : ℕ) (range : Pending → Pending)
    (close : Reader → Result (Unit {0})) (s : S) (pending : Pending) (digest : Digest)
    (size_bytes : ℕ) (r : Reader)
    → IsStore ba view Missing
    → ((p : Pending) (op : PendingPutOperation) → Member op (range p) ↔ Member op p)
    → 0 < batch_size
    → batch_size < 2 ^ 63
    → IsPending f pending
    → length pending ≤ batch_size
    → (drain r).1 ≡ eof
    → size_bytes ≡ length (drain r).0
    → (let st = (put ba f batch_size range close (s, pending) digest size_bytes r).1 in
        let result = flush ba f batch_size range close st in
        IsPending f st.1
        × (length st.1 ≤ batch_size)
        × (result.0 ≡ ok tt)
        × ((op : PendingPutOperation) × ((op
                ≡ record { digest = digest; size_bytes = size_bytes; r = r })
              ⊎ (lookup f (get_key digest f) pending ≡ some op))
            × (get_key op.digest f ≡ get_key digest f)
            × (((view st.0 op.digest ≡ none) × (view result.1.0 op.digest ≡ some (drain op.r).0))
                ⊎ ((blob : List ℕ) × (view st.0 op.digest ≡ some blob)
                    × (view result.1.0 op.digest ≡ some blob)))))
flush-put ba view Missing f batch_size range close s pending digest size_bytes r law ranges room
      word h bounded end size =
    let st = (put ba f batch_size range close (s, pending) digest size_bytes r).1 in
    let queued =
      put_lem ba view Missing law f batch_size range close s pending digest size_bytes r
        (ranges pending) room word h bounded end size in
    let (m, k) = lookup_sound f (get_key digest f) st.1 queued.op queued.found in
    let (cleared, empty, stored, others) =
      flush_lem ba view Missing law f batch_size range close st.0 st.1 (ranges st.1) queued.valid in
    (
      queued.valid,
      queued.bounded,
      cleared,
      (
        queued.op,
        queued.source,
        sym k,
        elim (Option-cases (view st.0 queued.op.digest)) [
          | inl absent ↦ inl (absent, stored queued.op m absent)
          | inr (blob, e) ↦
              let same =
                others queued.op.digest (λ absent op n same. (let absent' = absent in cc)) in
              inr (blob, e, same ∙ e)
        ],
      ),
    )
