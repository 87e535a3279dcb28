-- ===== src/Circular/OffsetStore/Caching.antt =====
-- caching_offset_store.go: a table of what was last returned and stored, in front of another store.
pub mod Laws
use bazel_buildbarn.Prelude.{
  ℕ, zero, suc, ◌+◌, ◌*◌, ◌%◌, ◌<◌, ◌^◌, ◌≡◌, ◌≢◌, refl, ap, List, [], ◌∷◌, Bool, true, false, ◌&&◌,
  Option, none, some, ◌==◌, if◌then◌else◌, length, get_elem?, set, get_elem?-set_self,
  get_elem?-set_ne, take, arith, replicate,
}
use bazel_buildbarn.Prelude.LittleEndian.{decode}
use bazel_buildbarn.Util.Status.{Result, ok, err, fatal}
use bazel_buildbarn.Util.Digest.{Digest}
use bazel_buildbarn.Circular.Cursors.{Cursors, contains}
use bazel_buildbarn.Circular.File.{pad}
use bazel_buildbarn.Circular.Record.{new_simple_digest, bytes_equal}
use bazel_buildbarn.Circular.Record.Fields.{bytes_equal_sound, bytes_equal_refl}
use bazel_buildbarn.Circular.OffsetStore.{OffsetStore}

pub record CachedRecord : Type 0 where
  pub digest : List ℕ
  pub offset : ℕ
  pub length : ℕ

abbrev pub empty_record : CachedRecord
empty_record = record { digest = pad 40 []; offset = 0; length = 0 }

pub record CachingOffsetStore (S : Type 0) : Type 0 where
  pub backend : S
  pub table : List CachedRecord

abbrev pub new_caching_offset_store : {S : Type 0} → S → ℕ → CachingOffsetStore S
new_caching_offset_store backend size = record {
  backend = backend;
  table = replicate size empty_record;
}

-- The slot of a digest: its first four bytes modulo the length of the table.
unfoldable pub slot_of : List ℕ → ℕ → ℕ
slot_of simple size = decode (take 4 simple) % (size % 2 ^ 32)

unfoldable pub is_hit : Cursors → List ℕ → CachedRecord → Bool
is_hit cursors simple r = bytes_equal r.digest simple && contains cursors r.offset r.length

module _ {S : Type 0} (ops : OffsetStore S) where
  remember :
      CachingOffsetStore S
      → List ℕ
      → Result (Option (ℕ × ℕ)) × S
      → Result (Option (ℕ × ℕ)) × CachingOffsetStore S
  remember os simple (ok (some (offset, length')), backend) = (
    ok (some (offset, length')),
    record {
      backend = backend;
      table =
          set os.table (slot_of simple (length os.table))
            (record { digest = simple; offset = offset; length = length' });
    },
  )
  remember os simple (r, backend) = (r, record os { backend = backend })

  get_cached :
      CachingOffsetStore S
      → Digest
      → Cursors
      → List ℕ
      → Option CachedRecord
      → Result (Option (ℕ × ℕ)) × CachingOffsetStore S
  unfolding remember
  get_cached os digest cursors simple none = (fatal, os)
  get_cached os digest cursors simple (some r) =
      if is_hit cursors simple r
      then (ok (some (r.offset, r.length)), os)
      else remember os simple (ops.get os.backend digest cursors)

  get_simple :
      CachingOffsetStore S
      → Digest
      → Cursors
      → Option (List ℕ)
      → Result (Option (ℕ × ℕ)) × CachingOffsetStore S
  unfolding get_cached
  get_simple os digest cursors none = (fatal, os)
  get_simple os digest cursors (some simple) =
      get_cached os digest cursors simple (get_elem? os.table (slot_of simple (length os.table)))

  -- A table with no slots makes the remainder panic.
  unfoldable pub get :
      CachingOffsetStore S → Digest → Cursors → Result (Option (ℕ × ℕ)) × CachingOffsetStore S
  unfolding get_simple
  get os digest cursors =
      if length os.table % 2 ^ 32 == 0
      then (fatal, os)
      else get_simple os digest cursors (new_simple_digest digest)

  store :
      CachingOffsetStore S → ℕ → ℕ → Option (List ℕ) → S → Result (Unit {0}) × CachingOffsetStore S
  store os offset length' none backend = (fatal, record os { backend = backend })
  store os offset length' (some simple) backend =
      if length os.table % 2 ^ 32 == 0 then (fatal, record os { backend = backend }) else (
        ok tt,
        record {
          backend = backend;
          table =
              set os.table (slot_of simple (length os.table))
                (record { digest = simple; offset = offset; length = length' });
        },
      )

  put_backend :
      CachingOffsetStore S
      → Digest
      → ℕ
      → ℕ
      → Result (Unit {0}) × S
      → Result (Unit {0}) × CachingOffsetStore S
  unfolding store
  put_backend os digest offset length' (ok _, backend) =
      store os offset length' (new_simple_digest digest) backend
  put_backend os digest offset length' (err e, backend) = (err e, record os { backend = backend })
  put_backend os digest offset length' (fatal, backend) = (fatal, record os { backend = backend })

  unfoldable pub put :
      CachingOffsetStore S → Digest → ℕ → ℕ → Cursors → Result (Unit {0}) × CachingOffsetStore S
  unfolding put_backend
  put os digest offset length' cursors =
      put_backend os digest offset length' (ops.put os.backend digest offset length' cursors)

  abbrev pub caching_offset_store : OffsetStore (CachingOffsetStore S)
  caching_offset_store = record { get = get; put = put }
