-- ===== src/Cas/DirectoryCaching.antt =====
-- The cache of directories: pkg/cas/directory_caching_content_addressable_storage.go. `V` are the
-- directory messages, and `W` is the state of the storage within and of the random numbers. The locked
-- sections of GetDirectory are steps of their own, with the download in between.
pub mod Invariant
pub mod Lookups
use bazel_buildbarn.Prelude.{
  ℕ, zero, suc, List, [], ◌∷◌, ◌++◌, Option, none, some, ◌==◌, if◌then◌else◌, length, get_or,
}
use bazel_buildbarn.Prelude.Word.{leb_int64}
use bazel_buildbarn.Prelude.SwapRemove.{swap_remove}
use bazel_buildbarn.Util.Status.{Result, ok, err, fatal, Error, ◌>>=◌}
use bazel_buildbarn.Util.Digest.{Digest, KeyFormat, get_key}
use bazel_buildbarn.Util.KeyMap.{KeyMap, with_key, without_key}

pub record DirectoryCache (V : Type 0) : Type 0 where
  pub directories_present_list : List (List ℕ)
  pub directories_present_message : KeyMap V

module _ {V : Type 0} where
  -- The bookkeeping of a removal.
  unfoldable pub forget : DirectoryCache V → ℕ → DirectoryCache V
  forget cas idx = record {
    directories_present_list = swap_remove [] cas.directories_present_list idx;
    directories_present_message =
        without_key (get_or cas.directories_present_list idx []) cas.directories_present_message;
  }

  unfoldable pub remember : DirectoryCache V → List ℕ → V → DirectoryCache V
  remember cas key directory = record {
    directories_present_list = cas.directories_present_list ++ key ∷ [];
    directories_present_message = with_key key directory cas.directories_present_message;
  }

module _ {V W : Type 0} (intn : W → ℕ → ℕ × W) (download : W → Digest → Result V × W)
    (f : KeyFormat) (max_directories : ℕ) where
  -- makeSpace, with fuel for so many removals. rand.Intn panics for a list of no directories.
  unfoldable pub make_space : ℕ → DirectoryCache V → W → Result (DirectoryCache V) × W
  make_space zero cas w =
      if leb_int64 max_directories (length cas.directories_present_list)
      then (fatal, w)
      else (ok cas, w)
  make_space (suc fuel) cas w =
      let (idx, w') = intn w (length cas.directories_present_list) in
      let rest = make_space fuel (forget cas idx) w' in
      if leb_int64 max_directories (length cas.directories_present_list)
      then (if length cas.directories_present_list == 0 then (fatal, w) else rest)
      else (ok cas, w)

  add_absent : DirectoryCache V → List ℕ → V → W → Option V → Result (DirectoryCache V) × W
  add_absent cas key directory w (some _) = (ok cas, w)
  add_absent cas key directory w none =
      let (r, w') = make_space (length cas.directories_present_list) cas w in
      (r >>= λ cas'. ok (remember cas' key directory), w')

  -- The last section of GetDirectory.
  unfoldable pub add_directory : DirectoryCache V → Digest → V → W → Result (DirectoryCache V) × W
  unfolding add_absent
  add_directory cas digest directory w =
      let key = get_key digest f in
      add_absent cas key directory w (cas.directories_present_message key)

  added : V → Result (DirectoryCache V) × W → Result (V × DirectoryCache V) × W
  added directory (r, w) = (r >>= λ cas. ok (directory, cas), w)

  downloaded : DirectoryCache V → Digest → Result V × W → Result (V × DirectoryCache V) × W
  unfolding added
  downloaded cas digest (ok directory, w) = added directory (add_directory cas digest directory w)
  downloaded cas digest (err e, w) = (err e, w)
  downloaded cas digest (fatal, w) = (fatal, w)

  get_absent : DirectoryCache V → Digest → W → Option V → Result (V × DirectoryCache V) × W
  unfolding downloaded
  get_absent cas digest w (some directory) = (ok (directory, cas), w)
  get_absent cas digest w none = downloaded cas digest (download w digest)

  -- GetDirectory, when no other call comes in between. An error leaves the cache as it was.
  unfoldable pub get_directory : DirectoryCache V → Digest → W → Result (V × DirectoryCache V) × W
  unfolding get_absent
  get_directory cas digest w =
      get_absent cas digest w (cas.directories_present_message (get_key digest f))
