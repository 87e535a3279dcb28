-- ===== src/Blobstore/BatchedStore/Pending.antt =====
-- The map of pending operations.
use bazel_buildbarn.Prelude.{
  ℕ, ◌≡◌, ◌≢◌, refl, ap, ◌∙◌, sym, ◌⊎◌, inl, inr, List, [], ◌∷◌, ◌++◌, none, some, if◌then◌else◌,
  length, Member, Member_split, Bool-cases,
}
use bazel_buildbarn.Util.Status.{eof}
use bazel_buildbarn.Util.Digest.{KeyFormat}
use bazel_buildbarn.Util.Reader.{drain}
use bazel_buildbarn.Circular.Record.{bytes_equal}
use bazel_buildbarn.Circular.Record.Fields.{bytes_equal_sound, bytes_equal_refl}
use bazel_buildbarn.Blobstore.BatchedStore.{PendingPutOperation, Pending, lookup, remove, key_of}

module _ (f : KeyFormat) where
  -- Keys are unique, and every reader can be read to its end and has the size that was given for it.
  pub record IsPending (pending : Pending) : Type 0 where
    pub unique :
        (op : PendingPutOperation) → Member op pending → lookup f (key_of f op) pending ≡ some op
    pub readable : (op : PendingPutOperation) → Member op pending → (drain op.r).1 ≡ eof
    pub sized :
        (op : PendingPutOperation) → Member op pending → op.size_bytes ≡ length (drain op.r).0

  pub lookup_sound :
      (k : List ℕ) (pending : Pending) (op : PendingPutOperation)
      → lookup f k pending ≡ some op
      → Member op pending × (k ≡ key_of f op)
  unfolding lookup
  lookup_sound k [] op h = absurd (cc)
  lookup_sound k (x ∷ pending) op h = elim (Bool-cases (bytes_equal k (key_of f x))) [
    | inl e ↦
        let same : some x ≡ some op = rw e at h in
        let same' : op ≡ x = cc in
        (inl same', bytes_equal_sound k (key_of f x) e ∙ ap (key_of f) (sym same'))
    | inr e ↦ let (m, k') = lookup_sound k pending op (rw e at h) in (inr m, k')
  ]

  pub lookup-remove_self : (k : List ℕ) (pending : Pending) → lookup f k (remove f k pending) ≡ none
  unfolding lookup remove
  lookup-remove_self k [] = refl
  lookup-remove_self k (x ∷ pending) = elim (Bool-cases (bytes_equal k (key_of f x))) [
    | inl e ↦ rw e (lookup-remove_self k pending)
    | inr e ↦ rw (e, e) (lookup-remove_self k pending)
  ]

  pub lookup-remove_ne :
      (k other : List ℕ) (pending : Pending)
      → other ≢ k
      → lookup f other (remove f k pending) ≡ lookup f other pending
  unfolding lookup remove
  lookup-remove_ne k other [] ne = refl
  lookup-remove_ne k other (x ∷ pending) ne = elim (Bool-cases (bytes_equal k (key_of f x))) [
    | inl e ↦
        let same = bytes_equal_sound k (key_of f x) e in
        elim (Bool-cases (bytes_equal other (key_of f x))) [
          | inl o ↦ absurd (ne (bytes_equal_sound other (key_of f x) o ∙ sym same))
          | inr o ↦ rw (e, o) (lookup-remove_ne k other pending ne)
        ]
    | inr e ↦ rw e (
        ap (λ o. if bytes_equal other (key_of f x) then some x else o)
          (lookup-remove_ne k other pending ne))
  ]

  pub lookup-append_old :
      (k : List ℕ) (pending : Pending) (x op : PendingPutOperation)
      → lookup f k pending ≡ some op
      → lookup f k (pending ++ x ∷ []) ≡ some op
  unfolding lookup
  lookup-append_old k [] x op h = absurd (cc)
  lookup-append_old k (y ∷ pending) x op h = elim (Bool-cases (bytes_equal k (key_of f y))) [
    | inl e ↦ rw e (rw e at h)
    | inr e ↦ rw e (lookup-append_old k pending x op (rw e at h))
  ]

  pub lookup-append_new :
      (pending : Pending) (x : PendingPutOperation)
      → lookup f (key_of f x) pending ≡ none
      → lookup f (key_of f x) (pending ++ x ∷ []) ≡ some x
  unfolding lookup
  lookup-append_new [] x h = rw (bytes_equal_refl (key_of f x)) refl
  lookup-append_new (y ∷ pending) x h = elim (Bool-cases (bytes_equal (key_of f x) (key_of f y))) [
    | inl e ↦ absurd (let wrong = rw e at h in cc)
    | inr e ↦ rw e (lookup-append_new pending x (rw e at h))
  ]

  Member_last :
      (pending : Pending) (x op : PendingPutOperation)
      → Member op (pending ++ x ∷ [])
      → Member op pending ⊎ (op ≡ x)
  Member_last pending x op m = elim (Member_split op pending (x ∷ []) m) [
    | inl n ↦ inl n
    | inr (inl e) ↦ inr e
    | inr (inr n) ↦ absurd n
  ]

  pub append-IsPending :
      (pending : Pending) (x : PendingPutOperation)
      → IsPending pending
      → (drain x.r).1 ≡ eof
      → x.size_bytes ≡ length (drain x.r).0
      → lookup f (key_of f x) pending ≡ none
      → IsPending (pending ++ x ∷ [])
  append-IsPending pending x h end size free = record {
    unique = λ op m. elim (Member_last pending x op m) [
      | inl n ↦ lookup-append_old (key_of f op) pending x op (h.unique op n)
      | inr e ↦ rw e (lookup-append_new pending x free)
    ];
    readable =
        λ op m. elim (Member_last pending x op m) [ inl n ↦ h.readable op n | inr e ↦ rw e end ];
    sized = λ op m. elim (Member_last pending x op m) [
      | inl n ↦ h.sized op n
      | inr e ↦ ap (λ o. o.size_bytes) e ∙ size ∙ ap (λ o. length (drain o.r).0) (sym e)
    ];
  }

  pub none-IsPending : IsPending []
  none-IsPending = record {
    unique = λ op m. absurd m;
    readable = λ op m. absurd m;
    sized = λ op m. absurd m;
  }
