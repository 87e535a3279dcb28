-- ===== src/Blobstore/Sharding/Refinement.antt =====
-- Shards that are maps from digests to blobs make one.
use bazel_buildbarn.Prelude.{
  ℕ, ◌≡◌, ◌↔◌, refl, inl, inr, List, [], ◌∷◌, ◌++◌, true, Option, none, some, ◌==◌, Bool-cases,
  Member, Member-append, Member_split, Member-filter, arith,
}
use bazel_buildbarn.Util.Status.{ok, Error}
use bazel_buildbarn.Util.Digest.{Digest}
use bazel_buildbarn.Blobstore.BlobAccess.{BlobAccess}
use bazel_buildbarn.Blobstore.BlobAccess.Laws.{View, Same, Updated, Got, IsStore}
use bazel_buildbarn.Blobstore.Sharding.Access.{
  with_state, is_empty, combine, concluded, digests_for, call_find_missing, collect, states_after,
  sharding_blob_access,
}

-- Each digest has the blob of its own shard.
abbrev pub shard_view : {S : Type 0} → (Digest → ℕ) → (ℕ → S → View) → (ℕ → S) → View
shard_view backend_of views states digest =
    views (backend_of digest) (states (backend_of digest)) digest

module _ {S R : Type 0} (backends : ℕ → BlobAccess S R) (backend_of : Digest → ℕ)
    (arrival : List Digest → List ℕ) (views : ℕ → S → View) (Missing : Error → Type 0) where
  abbrev view : (ℕ → S) → View
  view = shard_view backend_of views

  abbrev all : BlobAccess (ℕ → S) (ℕ × R)
  all = sharding_blob_access backends backend_of arrival

  same_index : (i : ℕ) → (i == i) ≡ true
  same_index i = ground arith

  same_shard :
      (states : ℕ → S) (i : ℕ) (s : S)
      → Same (views i (states i)) (views i s)
      → Same (view states) (view (with_state i s states))
  same_shard states i s h digest = elim (Bool-cases (backend_of digest == i)) [
    | inl e ↦ let own : backend_of digest ≡ i = ground (arith, e) in rw e (rw own (h digest))
    | inr e ↦ rw e refl
  ]

  updated_shard :
      (states : ℕ → S) (digest : Digest) (v : Option (List ℕ)) (s : S)
      → Updated
          (views (backend_of digest) (states (backend_of digest)))
          digest
          v
          (views (backend_of digest) s)
      → Updated (view states) digest v (view (with_state (backend_of digest) s states))
  updated_shard states digest v s (at, away) = (
    rw (same_index (backend_of digest)) at,
    λ d ne. elim (Bool-cases (backend_of d == backend_of digest)) [
      | inl e ↦
          let own : backend_of d ≡ backend_of digest = ground (arith, e) in
          rw e (rw own (away d ne))
      | inr e ↦ rw e refl
    ],
  )

  got_shard :
      (states : ℕ → S) (digest : Digest) (v : Option (List ℕ))
      → Got
          (backends (backend_of digest))
          (views (backend_of digest))
          Missing
          (states (backend_of digest))
          digest
          v
      → Got all view Missing states digest v
  unfolding sharding_blob_access
  got_shard states digest none (e, failed, kind) = (e, rw failed refl, kind)
  got_shard states digest (some blob) (r, found, content, same) =
      let i = backend_of digest in
      (
        (i, r),
        rw found refl,
        rw (same_index i) content,
        λ d. rw (same_index i) (elim (Bool-cases (backend_of d == i)) [
          | inl e ↦ let own : backend_of d ≡ i = ground (arith, e) in rw e (rw own (same d))
          | inr e ↦ rw e refl
        ]),
      )

  module _ (law : (i : ℕ) → IsStore (backends i) (views i) Missing) where
    find_one :
        (states : ℕ → S) (digests : List Digest) (i : ℕ)
        → (missing : List Digest) × ((call_find_missing backends backend_of arrival states digests
              i).0
            ≡ ok missing)
          × ((digest : Digest)
              → Member digest missing
                ↔ (Member digest digests × ((backend_of digest ≡ i) × (view states digest ≡ none))))
    find_one states digests i =
        let (missing, found, answer, same) =
          (law i).find_missing (states i) (digests_for backends backend_of arrival digests i) in
        (
          missing,
          found,
          λ digest.
              (let chosen = Member-filter (λ d. backend_of d == i) digest digests in
                (
                  λ m.
                      (let (named, absent) = (answer digest).0 m in
                        let (asked, e) = chosen.0 named in
                        let own : backend_of digest ≡ i = ground (arith, e) in
                        (asked, (own, rw own absent))),
                  λ (asked, (own, absent)).
                      (answer digest).1 (chosen.1 (asked, rw own (same_index i)), rw own at absent),
                )),
        )

    find_all :
        (states : ℕ → S) (digests : List Digest) (order : List ℕ)
        → (missing : List Digest) × (collect backends backend_of arrival states digests order
            ≡ ok (missing, none))
          × ((digest : Digest)
              → Member digest missing ↔ (
                  Member digest digests
                  × (Member (backend_of digest) order × (view states digest ≡ none))))
    unfolding collect combine
    find_all states digests [] =
        ([], refl, λ digest. (λ m. absurd m, λ (asked, (none', absent)). absurd none'))
    find_all states digests (i ∷ order) =
        let (first, found, mine) = find_one states digests i in
        let (others, rest, theirs) = find_all states digests order in
        (
          first ++ others,
          rw (found, rest) refl,
          λ digest. (
            λ m. elim (Member_split digest first others m) [
              | inl n ↦ let (asked, (own, absent)) = (mine digest).0 n in (asked, (inl own, absent))
              | inr n ↦
                  let (asked, (here, absent)) = (theirs digest).0 n in (asked, (inr here, absent))
            ],
            λ (asked, (here, absent)). Member-append digest first others (elim here [
              | inl own ↦ inl ((mine digest).1 (asked, (own, absent)))
              | inr there ↦ inr ((theirs digest).1 (asked, (there, absent)))
            ]),
          ),
        )

    same_after :
        (states : ℕ → S) (digests : List Digest)
        → Same (view states) (view (states_after backends backend_of arrival states digests))
    unfolding states_after
    same_after states digests digest =
        let i = backend_of digest in
        elim (Bool-cases (is_empty (digests_for backends backend_of arrival digests i))) [
          | inl e ↦ rw e refl
          | inr e ↦
              let (missing, found, answer, same) =
                (law i).find_missing (states i)
                  (digests_for backends backend_of arrival digests i) in
              rw e (same digest)
        ]

-- If each shard behaves as a map from digests to blobs, then so do all of them together, whatever the
-- order in which the results of FindMissing arrive: each digest has the blob of its own shard. A result
-- arrives from the backend of every digest that is asked for.
pub sharding-IsStore :
    {S R : Type 0} (backends : ℕ → BlobAccess S R) (backend_of : Digest → ℕ)
    (arrival : List Digest → List ℕ) (views : ℕ → S → View) (Missing : Error → Type 0)
    → ((i : ℕ) → IsStore (backends i) (views i) Missing)
    → ((digests : List Digest) (digest : Digest)
        → Member digest digests
        → Member (backend_of digest) (arrival digests))
    → IsStore
        (sharding_blob_access backends backend_of arrival)
        (shard_view backend_of views)
        Missing
unfolding sharding_blob_access concluded
sharding-IsStore backends backend_of arrival views Missing law arrives = record {
  get = λ states digest.
      got_shard backends backend_of arrival views Missing states digest _
        ((law (backend_of digest)).get (states (backend_of digest)) digest);
  get_same = λ states digest.
      same_shard backends backend_of arrival views Missing states (backend_of digest) _
        ((law (backend_of digest)).get_same (states (backend_of digest)) digest);
  put = λ states digest blob r read.
      (let (stored, updated) =
          (law (backend_of digest)).put (states (backend_of digest)) digest blob r read in
        (
          stored,
          updated_shard backends backend_of arrival views Missing states digest (some blob) _
              updated,
        ));
  put_failed = λ states digest size_bytes r bad.
      (let (failed, same) =
          (law (backend_of digest)).put_failed (states (backend_of digest)) digest size_bytes r
            bad in
        (
          failed,
          same_shard backends backend_of arrival views Missing states (backend_of digest) _ same,
        ));
  delete = λ states digest.
      (let (deleted, updated) =
          (law (backend_of digest)).delete (states (backend_of digest)) digest in
        (
          deleted,
          updated_shard backends backend_of arrival views Missing states digest none _ updated,
        ));
  find_missing = λ states digests.
      (let (missing, found, answer) =
          find_all backends backend_of arrival views Missing law states digests (arrival digests) in
        (
          missing,
          rw found refl,
          λ digest. (
            λ m. (let (asked, (here, absent)) = (answer digest).0 m in (asked, absent)),
            λ (asked, absent). (answer digest).1 (asked, (arrives digests digest asked, absent)),
          ),
          same_after backends backend_of arrival views Missing law states digests,
        ));
}
