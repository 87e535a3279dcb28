-- ===== src/Cas/Hardlinking.antt =====
-- The cache of files: pkg/cas/hardlinking_content_addressable_storage.go. `W` is the state of all that
-- the cache acts on: the file system, the storage that it is in front of, and the random numbers. GetFile
-- has two locked sections, with the download in between.
pub mod Invariant
pub mod Limits
pub mod Files
use bazel_buildbarn.Prelude.{
  ℕ, zero, suc, ◌+◌, ◌-◌, ◌≡◌, List, [], ◌∷◌, ◌++◌, Option, none, some, Bool, true, false, not,
  ◌&&◌, ◌||◌, ◌==◌, if◌then◌else◌, length, get_or,
}
use bazel_buildbarn.Prelude.Word.{add64, sub64, leb_int64}
use bazel_buildbarn.Prelude.SwapRemove.{swap_remove}
use bazel_buildbarn.Util.Status.{Error}
use bazel_buildbarn.Util.Digest.{Digest, KeyFormat, get_key}
use bazel_buildbarn.Util.KeyMap.{KeyMap, with_key, without_key}

-- Where GetFile puts the file: a directory and a name in it, which this code only passes on.
pub record Surroundings (W T : Type 0) : Type 0 where
  -- rand.Intn
  pub intn : W → ℕ → ℕ × W
  -- cacheDirectory.Remove
  pub remove : W → List ℕ → Option Error × W
  -- cacheDirectory.Link, of a file of the cache to the target
  pub link : W → List ℕ → T → Option Error × W
  -- Link of the target to a file of the cache
  pub link_to_cache : W → T → List ℕ → Option Error × W
  -- GetFile of the storage
  pub get_file : W → Digest → T → Bool → Option Error × W

pub record HardlinkingStorage : Type 0 where
  pub files_present_list : List (List ℕ)
  pub files_present_size : KeyMap ℕ
  pub files_present_total_size : ℕ

-- The size of a file that is present; the zero value of the map's otherwise.
abbrev pub size_in : KeyMap ℕ → List ℕ → ℕ
size_in m key = elim (m key) [ none ↦ 0 | some size ↦ size ]

-- The bookkeeping of a removal.
unfoldable pub forget : HardlinkingStorage → ℕ → HardlinkingStorage
forget cas idx =
    let key = get_or cas.files_present_list idx [] in
    record {
      files_present_list = swap_remove [] cas.files_present_list idx;
      files_present_size = without_key key cas.files_present_size;
      files_present_total_size =
          sub64 cas.files_present_total_size (size_in cas.files_present_size key);
    }

-- The bookkeeping of a file that has been added.
unfoldable pub remember : HardlinkingStorage → List ℕ → ℕ → HardlinkingStorage
remember cas key size_bytes = record {
  files_present_list = cas.files_present_list ++ key ∷ [];
  files_present_size = with_key key size_bytes cas.files_present_size;
  files_present_total_size = add64 cas.files_present_total_size size_bytes;
}

unfoldable pub file_key : KeyFormat → Digest → Bool → List ℕ
file_key f digest true = get_key digest f ++ b'+' ∷ b'x' ∷ []
file_key f digest false = get_key digest f ++ b'-' ∷ b'x' ∷ []

module _ {W T : Type 0} (surroundings : Surroundings W T) (f : KeyFormat)
    (max_files max_size : ℕ) where
  open surroundings use {intn, remove, link, link_to_cache, get_file}

  -- The condition of the loop. `max_files` is an int, whose values are like those of an int64.
  abbrev pub is_full : HardlinkingStorage → ℕ → Bool
  is_full cas size =
      not (length cas.files_present_list == 0)
      && (leb_int64 max_files (length cas.files_present_list)
          || not (leb_int64 (add64 cas.files_present_total_size size) max_size))

  removed :
      Option Error × W
      → HardlinkingStorage
      → Option Error × (HardlinkingStorage × W)
      → Option Error × (HardlinkingStorage × W)
  removed (none, w) cas rest = rest
  removed (some e, w) cas rest = (some e, (cas, w))

  -- makeSpace, with fuel for so many removals.
  unfoldable pub make_space :
      ℕ → HardlinkingStorage → ℕ → W → Option Error × (HardlinkingStorage × W)
  unfolding removed
  make_space zero cas size w = (none, (cas, w))
  make_space (suc fuel) cas size w =
      let (idx, w') = intn w (length cas.files_present_list) in
      let outcome = remove w' (get_or cas.files_present_list idx []) in
      let rest = make_space fuel (forget cas idx) size outcome.1 in
      if is_full cas size then removed outcome cas rest else (none, (cas, w))

  linked :
      HardlinkingStorage → List ℕ → ℕ → Option Error × W → Option Error × (HardlinkingStorage × W)
  linked cas key size_bytes (none, w) = (none, (remember cas key size_bytes, w))
  linked cas key size_bytes (some e, w) = (some e, (cas, w))

  with_space :
      List ℕ
      → ℕ
      → T
      → Option Error × (HardlinkingStorage × W)
      → Option Error × (HardlinkingStorage × W)
  unfolding linked
  with_space key size_bytes target (none, (cas, w)) =
      linked cas key size_bytes (link_to_cache w target key)
  with_space key size_bytes target (some e, st) = (some e, st)

  add_absent :
      HardlinkingStorage → List ℕ → ℕ → T → W → Option ℕ → Option Error × (HardlinkingStorage × W)
  unfolding with_space
  add_absent cas key size_bytes target w (some _) = (none, (cas, w))
  add_absent cas key size_bytes target w none =
      with_space key size_bytes target (make_space (length cas.files_present_list) cas size_bytes w)

  -- The last section of GetFile.
  unfoldable pub add_file :
      HardlinkingStorage → Digest → T → Bool → W → Option Error × (HardlinkingStorage × W)
  unfolding add_absent
  add_file cas digest target is_executable w =
      let key = file_key f digest is_executable in
      add_absent cas key digest.partial_digest.size_bytes target w (cas.files_present_size key)

  downloaded :
      HardlinkingStorage
      → Digest
      → T
      → Bool
      → Option Error × W
      → Option Error × (HardlinkingStorage × W)
  downloaded cas digest target is_executable (none, w) = add_file cas digest target is_executable w
  downloaded cas digest target is_executable (some e, w) = (some e, (cas, w))

  get_absent :
      HardlinkingStorage
      → Digest
      → T
      → Bool
      → W
      → Option ℕ
      → Option Error × (HardlinkingStorage × W)
  unfolding downloaded
  get_absent cas digest target is_executable w (some _) =
      let (e, w') = link w (file_key f digest is_executable) target in (e, (cas, w'))
  get_absent cas digest target is_executable w none =
      downloaded cas digest target is_executable (get_file w digest target is_executable)

  -- GetFile, when no other call comes in between.
  unfoldable pub get_file_cached :
      HardlinkingStorage → Digest → T → Bool → W → Option Error × (HardlinkingStorage × W)
  unfolding get_absent
  get_file_cached cas digest target is_executable w =
      get_absent cas digest target is_executable w
        (cas.files_present_size (file_key f digest is_executable))
