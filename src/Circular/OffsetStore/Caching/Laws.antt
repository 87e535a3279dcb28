-- ===== src/Circular/OffsetStore/Caching/Laws.antt =====
-- What the caching offset store returns was put into it or returned by the store behind it.
use bazel_buildbarn.Prelude.{
  ℕ, zero, suc, ◌%◌, ◌≤◌, ◌<◌, ◌^◌, ◌≡◌, ◌≢◌, refl, ap, sym, ◌∙◌, ◌⊎◌, inl, inr, List, [], ◌∷◌,
  true, false, Option, none, some, ◌==◌, length, length-set, get_elem?, set, get_elem?-set_self,
  arith, Bool-cases, Option-cases,
}
use bazel_buildbarn.Util.Status.{Result, ok, err, fatal}
use bazel_buildbarn.Util.Digest.{Digest}
use bazel_buildbarn.Circular.Cursors.{Cursors, contains}
use bazel_buildbarn.Circular.File.{pad}
use bazel_buildbarn.Circular.Record.{new_simple_digest}
use bazel_buildbarn.Circular.Record.Fields.{bytes_equal_sound, bytes_equal_refl}
use bazel_buildbarn.Circular.OffsetStore.{OffsetStore}
use bazel_buildbarn.Circular.OffsetStore.Caching.{
  CachedRecord, empty_record, CachingOffsetStore, slot_of, is_hit, get, get_cached, put,
  put_backend, remember,
}

slot_of-lt :
    (simple : List ℕ) (size : ℕ) → (size % 2 ^ 32 == 0) ≡ false → slot_of simple size < size
unfolding slot_of
slot_of-lt simple size h =
    let some_slot : 0 < size % 2 ^ 32 = ground arith in
    let whole : size % 2 ^ 32 ≤ size = omega arith in omega arith

module _ {S : Type 0} (ops : OffsetStore S) where
  put-inv :
      (os os' : CachingOffsetStore S) (digest : Digest) (offset length' : ℕ)
      (p : Result (Unit {0}) × S)
      → put_backend ops os digest offset length' p ≡ (ok tt, os')
      → (simple : List ℕ) × (new_simple_digest digest ≡ some simple)
        × ((length os.table % 2 ^ 32 == 0) ≡ false)
        × (os'.table
            ≡ set os.table
                (slot_of simple (length os.table))
                (record { digest = simple; offset = offset; length = length' }))
  unfolding put_backend
  put-inv os os' digest offset length' (ok _, backend) h =
      elim (Option-cases (new_simple_digest digest)) [
        | inl n ↦ absurd (let h' = rw (n, put_backend) at h in cc)
        | inr (simple, e) ↦ elim (Bool-cases (length os.table % 2 ^ 32 == 0)) [
          | inl z ↦ absurd (let h' = rw (e, z) at h in cc)
          | inr z ↦
              let h' = rw (e, z) at h in
              (
                simple,
                e,
                z,
                sym (ap (λ (x : Result (Unit {0}) × CachingOffsetStore S). x.1.table) h'),
              )
        ]
      ]
  put-inv os os' digest offset length' (err e, backend) h = cc
  put-inv os os' digest offset length' (fatal, backend) h = cc

  -- After a successful Put, Get of the same digest returns what was put, without asking the store
  -- behind and without any change, as long as the cursors contain the blob.
  pub cached_get-put :
      (os os' : CachingOffsetStore S) (digest : Digest) (offset length' : ℕ)
      (cursors cursors' : Cursors)
      → put ops os digest offset length' cursors ≡ (ok tt, os')
      → contains cursors' offset length' ≡ true
      → get ops os' digest cursors' ≡ (ok (some (offset, length')), os')
  unfolding get put
  cached_get-put os os' digest offset length' cursors cursors' h inside =
      let (simple, e, z, after) =
        put-inv os os' digest offset length' (ops.put os.backend digest offset length' cursors) h in
      let kept : length os'.table ≡ length os.table = ap length after ∙ length-set os.table _ _ in
      let r : CachedRecord = record { digest = simple; offset = offset; length = length' } in
      let here : get_elem? os'.table (slot_of simple (length os.table)) ≡ some r =
        ap (λ t. get_elem? t (slot_of simple (length os.table))) after
        ∙ get_elem?-set_self os.table (slot_of simple (length os.table)) r
            (slot_of-lt simple _ z) in
      let hit : is_hit cursors' simple r ≡ true =
        unfold is_hit in rw (bytes_equal_refl simple, inside) in
      rw (kept, z, e, kept, here, hit)

-- A table in which every record but the initial ones satisfies `P`.
pub record IsSound (P : List ℕ → ℕ → ℕ → Type 0) (table : List CachedRecord) : Type 0 where
  pub holds :
      (i : ℕ) (r : CachedRecord)
      → get_elem? table i ≡ some r
      → (r ≡ empty_record) ⊎ P r.digest r.offset r.length

set_inv :
    (t : List CachedRecord) (k i : ℕ) (v r : CachedRecord)
    → get_elem? (set t k v) i ≡ some r
    → (r ≡ v) ⊎ (get_elem? t i ≡ some r)
set_inv [] k i v r h = inr h
set_inv (x ∷ t) zero zero v r h = inl (cc)
set_inv (x ∷ t) zero (suc i) v r h = inr h
set_inv (x ∷ t) (suc k) zero v r h = inr h
set_inv (x ∷ t) (suc k) (suc i) v r h = set_inv t k i v r h

IsSound-set :
    (P : List ℕ → ℕ → ℕ → Type 0) (t : List CachedRecord) (k : ℕ) (v : CachedRecord)
    → IsSound P t
    → P v.digest v.offset v.length
    → IsSound P (set t k v)
IsSound-set P t k v s p = record {
  holds = λ i r h. elim (set_inv t k i v r h) [ inl e ↦ inr (rw e p) | inr old ↦ s.holds i r old ];
}

module _ {S : Type 0} (ops : OffsetStore S) (P : List ℕ → ℕ → ℕ → Type 0) where
  module _ (os : CachingOffsetStore S) (digest : Digest) (cursors : Cursors) (simple : List ℕ)
      (offset length' : ℕ) (sound : IsSound P os.table) (real : simple ≢ pad 40 []) where
    remember-IsSound :
        (p : Result (Option (ℕ × ℕ)) × S)
        → ((o l : ℕ) → p.0 ≡ ok (some (o, l)) → P simple o l)
        → (remember ops os simple p).0 ≡ ok (some (offset, length'))
        → P simple offset length' × IsSound P (remember ops os simple p).1.table
    unfolding remember
    remember-IsSound (ok (some (o, l)), backend) backed h =
        let p = backed o l refl in
        let at_offset : o ≡ offset = cc in
        let at_length : l ≡ length' = cc in
        (rw (← at_offset, ← at_length) p, IsSound-set P os.table _ _ sound p)
    remember-IsSound (ok none, backend) backed h = absurd (cc)
    remember-IsSound (err e, backend) backed h = absurd (cc)
    remember-IsSound (fatal, backend) backed h = absurd (cc)

    get_cached-IsSound :
        (r : CachedRecord) (i : ℕ)
        → get_elem? os.table i ≡ some r
        → ((o l : ℕ) → (ops.get os.backend digest cursors).0 ≡ ok (some (o, l)) → P simple o l)
        → (get_cached ops os digest cursors simple (some r)).0 ≡ ok (some (offset, length'))
        → P simple offset length'
          × IsSound P (get_cached ops os digest cursors simple (some r)).1.table
    unfolding get_cached
    get_cached-IsSound r i here backed h = elim (Bool-cases (is_hit cursors simple r)) [
      | inl e ↦
          let h' = rw e at h in
          let at_offset : r.offset ≡ offset = cc in
          let at_length : r.length ≡ length' = cc in
          let same : r.digest ≡ simple =
            bytes_equal_sound r.digest simple (unfold is_hit in ground (arith, e)) in
          rw e (
            elim (sound.holds i r here) [
              | inl blank ↦ absurd (real (cc))
              | inr p ↦ rw (← at_offset, ← at_length, ← same) p
            ],
            sound,
          )
      | inr e ↦ rw e (remember-IsSound (ops.get os.backend digest cursors) backed (rw e at h))
    ]

    -- If every record of the table, and whatever the store behind returns for the digest, satisfies a
    -- predicate on simple digests, offsets and lengths, then so does what Get returns, and the table
    -- that it leaves is of such records again. The simple digest is not the one of forty zeros, with
    -- which the unused slots of the table are marked.
    pub get-IsSound :
        new_simple_digest digest ≡ some simple
        → ((o l : ℕ) → (ops.get os.backend digest cursors).0 ≡ ok (some (o, l)) → P simple o l)
        → (get ops os digest cursors).0 ≡ ok (some (offset, length'))
        → P simple offset length' × IsSound P (get ops os digest cursors).1.table
    unfolding get
    get-IsSound e backed h = elim (Bool-cases (length os.table % 2 ^ 32 == 0)) [
      | inl z ↦ absurd (let h' = rw z at h in cc)
      | inr z ↦ elim (Option-cases (get_elem? os.table (slot_of simple (length os.table)))) [
        | inl n ↦ absurd (let h' = rw (z, e, n) at h in cc)
        | inr (r, here) ↦
            rw (z, e, here) (get_cached-IsSound r _ here backed (rw (z, e, here) at h))
      ]
    ]
