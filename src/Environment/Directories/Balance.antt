-- ===== src/Environment/Directories/Balance.antt =====
-- No environment is lost when the directories fail.
use bazel_buildbarn.Prelude.{ℕ, ◌+◌, ◌≡◌, refl, ◌∙◌, List, Option, none, some, arith}
use bazel_buildbarn.Util.Status.{Result, ok, err, fatal, Error, Converter}
use bazel_buildbarn.Util.Digest.{KeyFormat, get_key}
use bazel_buildbarn.Environment.{Manager, IsManager, Acquired, Released}
use bazel_buildbarn.Environment.Directories.{
  Directories, released, cleaned, clean_acquired, clean_build_directory_manager,
  SubdirectoryEnvironment, entered, made, subdirectory_acquired, tidied, subdirectory_manager,
}

-- Work on directories neither acquires nor releases environments, and Enter returns.
pub record IsQuiet {W D : Type 0} (directories : Directories W D) (out : W → ℕ) : Type 0 where
  pub mkdir :
      (w : W) (d : D) (name : List ℕ) (mode : ℕ) → out (directories.mkdir w d name mode).1 ≡ out w
  pub enter : (w : W) (d : D) (name : List ℕ) → out (directories.enter w d name).1 ≡ out w
  pub enters : (w : W) (d : D) (name : List ℕ) → (directories.enter w d name).0 ≡ fatal → ⊥
  pub remove : (w : W) (d : D) (name : List ℕ) → out (directories.remove w d name).1 ≡ out w
  pub remove_all : (w : W) (d : D) (name : List ℕ) → out (directories.remove_all w d name).1 ≡ out w
  pub remove_all_children : (w : W) (d : D) → out (directories.remove_all_children w d).1 ≡ out w
  pub close : (w : W) (d : D) → out (directories.close w d).1 ≡ out w

module _ {W E D : Type 0} (convert : Converter) (directories : Directories W D)
    (build_directory : E → D) (base : Manager W E) (out : W → ℕ) (capacity : ℕ)
    (law : IsManager base out capacity) (quiet : IsQuiet directories out) where
  -- A failure after an environment has been acquired.
  released_lem :
      {A : Type 0} (manager : Manager W A) (e : Error) (n : ℕ)
      (outcome : Option (Result (Unit {0}) × W))
      → Released base out capacity (n + 1) outcome
      → Acquired manager out capacity n (released e outcome)
  unfolding released
  released_lem manager e n none r = r
  released_lem manager e n (some (ok _, w)) r = omega arith
  released_lem manager e n (some (err x, w)) r = absurd r
  released_lem manager e n (some (fatal, w)) r = r

  give_up :
      {A : Type 0} (manager : Manager W A) (x : Error) (n : ℕ) (w : W) (e : E)
      → out w ≡ n + 1
      → Acquired manager out capacity n (released x (base.release w e))
  give_up manager x n w e count =
      released_lem manager x n (base.release w e)
        (rw count at (law.release w e (omega (arith, count))))

  abbrev cleaning : Manager W E
  cleaning = clean_build_directory_manager convert directories build_directory base

  cleaned_lem :
      (n : ℕ) (e : E) (outcome : Option Error × W)
      → out outcome.1 ≡ n + 1
      → Acquired cleaning out capacity n
          (cleaned convert directories build_directory base e outcome)
  unfolding cleaned
  cleaned_lem n e (none, w) count = count
  cleaned_lem n e (some x, w) count = give_up cleaning _ n w e count

  clean_acquired_lem :
      (n : ℕ) (outcome : Option (Result E × W))
      → Acquired base out capacity n outcome
      → Acquired cleaning out capacity n
          (clean_acquired convert directories build_directory base outcome)
  unfolding clean_acquired
  clean_acquired_lem n none a = a
  clean_acquired_lem n (some (ok e, w)) a =
      cleaned_lem n e (directories.remove_all_children w (build_directory e))
        (quiet.remove_all_children w (build_directory e) ∙ a)
  clean_acquired_lem n (some (err x, w)) a = a
  clean_acquired_lem n (some (fatal, w)) a = a

  pub clean_build_directory_manager-IsManager : IsManager cleaning out capacity
  unfolding clean_build_directory_manager
  clean_build_directory_manager-IsManager = record {
    acquire = λ w digest platform room.
        clean_acquired_lem (out w) (base.acquire w digest platform)
          (law.acquire w digest platform room);
    release = law.release;
  }

  module _ (f : KeyFormat) where
    abbrev within : Manager W (SubdirectoryEnvironment E D)
    within = subdirectory_manager convert directories build_directory base f

    entered_lem :
        (n : ℕ) (e : E) (name : List ℕ) (outcome : Result D × W)
        → out outcome.1 ≡ n + 1
        → (outcome.0 ≡ fatal → ⊥)
        → Acquired within out capacity n
            (entered convert directories build_directory base f e name outcome)
    unfolding entered
    entered_lem n e name (ok d, w) count alive = count
    entered_lem n e name (err x, w) count alive =
        give_up within _ n _ e (quiet.remove w (build_directory e) name ∙ count)
    entered_lem n e name (fatal, w) count alive = alive refl

    made_lem :
        (n : ℕ) (e : E) (name : List ℕ) (outcome : Option Error × W)
        → out outcome.1 ≡ n + 1
        → Acquired within out capacity n
            (made convert directories build_directory base f e name outcome)
    unfolding made
    made_lem n e name (none, w) count =
        entered_lem n e name (directories.enter w (build_directory e) name)
          (quiet.enter w (build_directory e) name ∙ count) (quiet.enters w (build_directory e) name)
    made_lem n e name (some x, w) count = give_up within _ n w e count

    acquired_lem :
        (n : ℕ) (name : List ℕ) (outcome : Option (Result E × W))
        → Acquired base out capacity n outcome
        → Acquired within out capacity n
            (subdirectory_acquired convert directories build_directory base f name outcome)
    unfolding subdirectory_acquired
    acquired_lem n name none a = a
    acquired_lem n name (some (ok e, w)) a =
        made_lem n e name (directories.mkdir w (build_directory e) name 511)
          (quiet.mkdir w (build_directory e) name 511 ∙ a)
    acquired_lem n name (some (err x, w)) a = a
    acquired_lem n name (some (fatal, w)) a = a

    tidied_lem :
        (w : W) (e : SubdirectoryEnvironment E D)
        → out (tidied convert directories build_directory base f w e) ≡ out w
    tidied_lem w e =
        quiet.remove_all _ (build_directory e.base) e.subdirectory_name
        ∙ quiet.close w e.subdirectory

-- In front of a manager that keeps to the contract of managers, so does the one that makes a
-- subdirectory for each action, if work on directories neither acquires nor releases environments and
-- does not end the process. So an environment is released again on each path on which making or
-- entering the directory fails, and Release releases it.
pub subdirectory_manager-IsManager :
    {W E D : Type 0} (convert : Converter) (directories : Directories W D) (build_directory : E → D)
    (base : Manager W E) (f : KeyFormat) (out : W → ℕ) (capacity : ℕ)
    → IsManager base out capacity
    → IsQuiet directories out
    → IsManager (subdirectory_manager convert directories build_directory base f) out capacity
unfolding subdirectory_manager
subdirectory_manager-IsManager convert directories build_directory base f out capacity law quiet =
    record {
      acquire = λ w digest platform room.
          acquired_lem convert directories build_directory base out capacity law quiet f (out w)
            (get_key digest f) (base.acquire w digest platform)
            (law.acquire w digest platform room);
      release = λ w e some_out.
          (let same =
              tidied_lem convert directories build_directory base out capacity law quiet f w e in
            let t = tidied convert directories build_directory base f w e in
            rw same at (law.release t e.base (omega (arith, same))));
    }
