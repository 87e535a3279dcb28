-- ===== src/Environment/Directories.antt =====
-- The managers that prepare directories: pkg/environment/clean_build_directory_manager.go,
-- temp_directory_cleaning_manager.go and action_digest_subdirectory_manager.go. What they log is not
-- modelled.
pub mod Balance
use bazel_buildbarn.Prelude.{ℕ, List, [], ◌∷◌, Option, none, some}
use bazel_buildbarn.Util.Status.{
  Result, ok, err, fatal, Error, Converter, status_wrap_with_code, text, format, bytes, internal,
}
use bazel_buildbarn.Util.Digest.{Digest, KeyFormat, get_key}
use bazel_buildbarn.Environment.{Manager, Platform}

-- pkg/filesystem/directory.go, as far as it is used here
pub record Directories (W D : Type 0) : Type 0 where
  pub mkdir : W → D → List ℕ → ℕ → Option Error × W
  pub enter : W → D → List ℕ → Result D × W
  pub remove : W → D → List ℕ → Option Error × W
  pub remove_all : W → D → List ℕ → Option Error × W
  pub remove_all_children : W → D → Option Error × W
  pub close : W → D → Option Error × W

-- runner.RunRequest
pub record RunRequest : Type 0 where
  pub arguments : List (List ℕ)
  pub environment_variables : List (List ℕ × List ℕ)
  pub working_directory : List ℕ
  pub stdout_path : List ℕ
  pub stderr_path : List ℕ

-- Returning the error after the environment has been released.
unfoldable pub released :
    {W A : Type 0} → Error → Option (Result (Unit {0}) × W) → Option (Result A × W)
released e none = none
released e (some (fatal, w)) = some (fatal, w)
released e (some (_, w)) = some (err e, w)

module _ {W E D : Type 0} (convert : Converter) (directories : Directories W D)
    (build_directory : E → D) (base : Manager W E) where
  cleaned : E → Option Error × W → Option (Result E × W)
  cleaned e (none, w) = some (ok e, w)
  cleaned e (some x, w) =
      released
        (status_wrap_with_code convert x internal
          (text "Failed to clean build directory prior to build"))
        (base.release w e)

  clean_acquired : Option (Result E × W) → Option (Result E × W)
  unfolding cleaned
  clean_acquired none = none
  clean_acquired (some (ok e, w)) =
      cleaned e (directories.remove_all_children w (build_directory e))
  clean_acquired (some (err x, w)) = some (err x, w)
  clean_acquired (some (fatal, w)) = some (fatal, w)

  unfoldable pub clean_build_directory_manager : Manager W E
  unfolding clean_acquired
  clean_build_directory_manager = record base {
    acquire = λ w digest platform. clean_acquired (base.acquire w digest platform);
  }

  temp_cleaned : Digest → Platform → Option Error × W → Option (Result E × W)
  temp_cleaned digest platform (none, w) = base.acquire w digest platform
  temp_cleaned digest platform (some x, w) = some (
    err (
        status_wrap_with_code convert x internal
          (text "Failed to clean temporary directory prior to build")),
    w,
  )

  unfoldable pub temp_directory_cleaning_manager : D → Manager W E
  unfolding temp_cleaned
  temp_directory_cleaning_manager temp_directory = record base {
    acquire = λ w digest platform.
        temp_cleaned digest platform (directories.remove_all_children w temp_directory);
  }

pub record SubdirectoryEnvironment (E D : Type 0) : Type 0 where
  pub base : E
  pub subdirectory : D
  pub subdirectory_name : List ℕ

module _ {W E D : Type 0} (convert : Converter) (directories : Directories W D)
    (build_directory : E → D) (base : Manager W E) (subdirectory_format : KeyFormat) where
  -- The result of Enter.
  entered : E → List ℕ → Result D × W → Option (Result (SubdirectoryEnvironment E D) × W)
  entered e name (ok d, w) =
      some (ok (record { base = e; subdirectory = d; subdirectory_name = name }), w)
  entered e name (err x, w) =
      released
        (status_wrap_with_code convert x internal
          (format "Failed to enter build subdirectory %#v" (bytes name ∷ [])))
        (base.release (directories.remove w (build_directory e) name).1 e)
  entered e name (fatal, w) = some (fatal, w)

  -- The result of Mkdir.
  made : E → List ℕ → Option Error × W → Option (Result (SubdirectoryEnvironment E D) × W)
  unfolding entered
  made e name (none, w) = entered e name (directories.enter w (build_directory e) name)
  made e name (some x, w) =
      released
        (status_wrap_with_code convert x internal
          (format "Failed to create build subdirectory %#v" (bytes name ∷ [])))
        (base.release w e)

  subdirectory_acquired :
      List ℕ → Option (Result E × W) → Option (Result (SubdirectoryEnvironment E D) × W)
  unfolding made
  subdirectory_acquired name none = none
  subdirectory_acquired name (some (ok e, w)) =
      made e name (directories.mkdir w (build_directory e) name 511)
  subdirectory_acquired name (some (err x, w)) = some (err x, w)
  subdirectory_acquired name (some (fatal, w)) = some (fatal, w)

  -- Release closes and removes the directory; errors are logged.
  abbrev tidied : W → SubdirectoryEnvironment E D → W
  tidied w e =
      let closed = (directories.close w e.subdirectory).1 in
      (directories.remove_all closed (build_directory e.base) e.subdirectory_name).1

  unfoldable pub subdirectory_manager : Manager W (SubdirectoryEnvironment E D)
  unfolding subdirectory_acquired
  subdirectory_manager = record {
    acquire = λ w digest platform.
        subdirectory_acquired (get_key digest subdirectory_format) (base.acquire w digest platform);
    release = λ w e. base.release (tidied w e) e.base;
  }

-- The request that Run passes on; `join` is path.Join.
abbrev pub subdirectory_request :
    {E D : Type 0}
    → (List ℕ → List ℕ → List ℕ)
    → SubdirectoryEnvironment E D
    → RunRequest
    → RunRequest
subdirectory_request join e request = record request {
  working_directory = join e.subdirectory_name request.working_directory;
  stdout_path = join e.subdirectory_name request.stdout_path;
  stderr_path = join e.subdirectory_name request.stderr_path;
}
