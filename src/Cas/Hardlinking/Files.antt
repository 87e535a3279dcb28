-- ===== src/Cas/Hardlinking/Files.antt =====
-- What GetFile makes of the cache of files.
use bazel_buildbarn.Prelude.{
  ◌⊎◌, inl, inr, ℕ, ◌^◌, ◌<◌, ◌≡◌, refl, List, Option, none, some, Bool, length, arith,
}
use bazel_buildbarn.Util.Status.{Error}
use bazel_buildbarn.Util.Digest.{Digest, KeyFormat}
use bazel_buildbarn.Util.KeyMap.{with_key_self}
use bazel_buildbarn.Cas.Hardlinking.{
  Surroundings, HardlinkingStorage, remember, file_key, linked, with_space, add_absent, add_file,
  downloaded, get_absent, get_file_cached,
}
use bazel_buildbarn.Cas.Hardlinking.Limits.{IsCache, Spaced, space_lem, remember_lem}

module _ {W T : Type 0} (surroundings : Surroundings W T) (f : KeyFormat) (max_files max_size : ℕ)
    (random : (w : W) (n : ℕ) → 0 < n → (surroundings.intn w n).0 < n) where
  module _ (files : max_files < 2 ^ 62) (sizes : max_size < 2 ^ 62) where
    -- A result whose file is in the cache when there is no error.
    abbrev Added : List ℕ → Option Error × (HardlinkingStorage × W) → Type 0
    Added key (e, (cas, w)) =
        IsCache max_files max_size cas
        × (e ≡ none → (size : ℕ) × (cas.files_present_size key ≡ some size))

    failure_or_entry :
        (key : List ℕ) (r : Option Error × (HardlinkingStorage × W))
        → Added key r
        → IsCache max_files max_size r.1.0
          × (((x : Error) × (r.0 ≡ some x))
              ⊎ ((size : ℕ) × (r.1.0.files_present_size key ≡ some size)))
    failure_or_entry key (none, st) (cache, added) = (cache, inr (added refl))
    failure_or_entry key (some e, st) (cache, added) = (cache, inl (e, refl))

    linked_lem :
        (cas : HardlinkingStorage) (key : List ℕ) (size : ℕ) (outcome : Option Error × W)
        → IsCache max_files max_size (remember cas key size)
        → IsCache max_files max_size cas
        → Added key (linked surroundings f max_files max_size cas key size outcome)
    unfolding linked remember
    linked_lem cas key size (none, w) h before =
        (h, λ e. (size, with_key_self key size cas.files_present_size))
    linked_lem cas key size (some e, w) h before = (before, λ n. absurd (cc))

    with_space_lem :
        (start : HardlinkingStorage) (key : List ℕ) (size : ℕ) (target : T)
        (result : Option Error × (HardlinkingStorage × W))
        → size < 2 ^ 62
        → start.files_present_size key ≡ none
        → Spaced surroundings f max_files max_size random start size result
        → Added key (with_space surroundings f max_files max_size key size target result)
    unfolding with_space
    with_space_lem start key size target (none, (cas, w)) small absent r =
        linked_lem cas key size (surroundings.link_to_cache w target key)
          (remember_lem surroundings f max_files max_size random files sizes cas key size r.valid
            small (r.room refl) (r.absent key absent))
          r.valid
    with_space_lem start key size target (some e, (cas, w)) small absent r =
        (r.valid, λ n. absurd (cc))

    add_absent_lem :
        (cas : HardlinkingStorage) (key : List ℕ) (size : ℕ) (target : T) (w : W) (o : Option ℕ)
        → IsCache max_files max_size cas
        → size < 2 ^ 62
        → cas.files_present_size key ≡ o
        → Added key (add_absent surroundings f max_files max_size cas key size target w o)
    unfolding add_absent
    add_absent_lem cas key size target w (some s) h small e = (h, λ n. (s, e))
    add_absent_lem cas key size target w none h small e =
        with_space_lem cas key size target _ small e (
          space_lem surroundings f max_files max_size random (length cas.files_present_list) cas
            size w h (omega arith))

    downloaded_lem :
        (cas : HardlinkingStorage) (digest : Digest) (target : T) (x : Bool)
        (outcome : Option Error × W)
        → IsCache max_files max_size cas
        → digest.partial_digest.size_bytes < 2 ^ 62
        → Added
            (file_key f digest x)
            (downloaded surroundings f max_files max_size cas digest target x outcome)
    unfolding downloaded add_file
    downloaded_lem cas digest target x (some e, w) h small = (h, λ n. absurd (cc))
    downloaded_lem cas digest target x (none, w) h small =
        add_absent_lem cas (file_key f digest x) digest.partial_digest.size_bytes target w _ h small
          refl

    get_absent_lem :
        (cas : HardlinkingStorage) (digest : Digest) (target : T) (x : Bool) (w : W) (o : Option ℕ)
        → IsCache max_files max_size cas
        → digest.partial_digest.size_bytes < 2 ^ 62
        → cas.files_present_size (file_key f digest x) ≡ o
        → Added
            (file_key f digest x)
            (get_absent surroundings f max_files max_size cas digest target x w o)
    unfolding get_absent
    get_absent_lem cas digest target x w (some s) h small e = (h, λ n. (s, e))
    get_absent_lem cas digest target x w none h small e =
        downloaded_lem cas digest target x (surroundings.get_file w digest target x) h small

-- GetFile keeps the cache of files in order, whatever the storage and the file system answer: the list
-- and the map have the same keys, each once, and the total is the sum of the sizes; there are at most
-- as many files as the limit or only one, and their total is at most the limit or there is only one.
-- Either GetFile fails, or the file is in the cache. Limits and sizes are below 2 ^ 62, and a random index
-- is within the range that was asked for.
pub get_file_cached-IsCache :
    {W T : Type 0} (surroundings : Surroundings W T) (f : KeyFormat) (max_files max_size : ℕ)
    (cas : HardlinkingStorage) (digest : Digest) (target : T) (is_executable : Bool) (w : W)
    → ((w' : W) (n : ℕ) → 0 < n → (surroundings.intn w' n).0 < n)
    → max_files < 2 ^ 62
    → max_size < 2 ^ 62
    → digest.partial_digest.size_bytes < 2 ^ 62
    → IsCache max_files max_size cas
    → (let (e, (cas', w')) =
          get_file_cached surroundings f max_files max_size cas digest target is_executable w in
        IsCache max_files max_size cas'
        × (((x : Error) × (e ≡ some x))
            ⊎ ((size : ℕ) × (cas'.files_present_size (file_key f digest is_executable)
                  ≡ some size))))
unfolding get_file_cached
get_file_cached-IsCache surroundings f max_files max_size cas digest target x w random files sizes
      small h =
    failure_or_entry surroundings f max_files max_size random files sizes (file_key f digest x)
      (get_absent surroundings f max_files max_size cas digest target x w
        (cas.files_present_size (file_key f digest x)))
      (get_absent_lem surroundings f max_files max_size random files sizes cas digest target x w
        (cas.files_present_size (file_key f digest x)) h small refl)

-- The last section of GetFile does so too, on whatever other calls have left of the cache during the
-- download.
pub add_file-IsCache :
    {W T : Type 0} (surroundings : Surroundings W T) (f : KeyFormat) (max_files max_size : ℕ)
    (cas : HardlinkingStorage) (digest : Digest) (target : T) (is_executable : Bool) (w : W)
    → ((w' : W) (n : ℕ) → 0 < n → (surroundings.intn w' n).0 < n)
    → max_files < 2 ^ 62
    → max_size < 2 ^ 62
    → digest.partial_digest.size_bytes < 2 ^ 62
    → IsCache max_files max_size cas
    → IsCache max_files max_size
        (add_file surroundings f max_files max_size cas digest target is_executable w).1.0
unfolding add_file
add_file-IsCache surroundings f max_files max_size cas digest target x w random files sizes small
      h =
    (add_absent_lem surroundings f max_files max_size random files sizes cas (file_key f digest x)
      digest.partial_digest.size_bytes target w _ h small refl).0
