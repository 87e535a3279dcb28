-- ===== src/Tests/Environments.antt =====
-- pkg/environment
use bazel_buildbarn.Prelude.{ℕ, ◌≡◌, refl, List, [], ◌∷◌, Option, none, some, arith}
use bazel_buildbarn.Util.Status.{ok, err, Error, other, text}
use bazel_buildbarn.Util.Digest.{without_instance}
use bazel_buildbarn.Environment.{
  Manager, IsManager, singleton_manager, taken, singleton_manager-IsManager,
}
use bazel_buildbarn.Environment.Sharing.{Call, take, give_back, Shared, run, IsHeld, run-IsHeld}
use bazel_buildbarn.Environment.Directories.{Directories, subdirectory_manager}
use bazel_buildbarn.Environment.Directories.Balance.{IsQuiet, subdirectory_manager-IsManager}
use bazel_buildbarn.Tests.Data.{hello, convert}

-- Two consumers come, one leaves, one comes again.
abbrev calls : List Call
calls = take hello [] ∷ take hello [] ∷ give_back 0 ∷ take hello [] ∷ give_back 1 ∷ []

abbrev single : Manager (Option ℕ) ℕ
single = singleton_manager

abbrev fresh : Shared single
fresh = (record { refcount = 0; environment = none; base_state = some 7 }, [])

fresh-IsHeld : IsHeld single taken fresh
fresh-IsHeld = record {
  shared = record { counted = omega arith; base_count = refl; there = λ n. absurd (n refl) };
  counted = refl;
  same = λ e m. absurd m;
}

run-IsHeld_example :
    (st' : Shared single) × (run single calls fresh ≡ some (ok tt, st')) × IsHeld single taken st'
run-IsHeld_example =
    run-IsHeld single taken calls fresh singleton_manager-IsManager fresh-IsHeld (omega arith)

-- Directories on which nothing can be made.
abbrev read_only : Error
read_only = other (text "read-only file system")

abbrev directories : Directories (Option ℕ) ℕ
directories = record {
  mkdir = λ w d name mode. (some read_only, w);
  enter = λ w d name. (err read_only, w);
  remove = λ w d name. (some read_only, w);
  remove_all = λ w d name. (some read_only, w);
  remove_all_children = λ w d. (some read_only, w);
  close = λ w d. (none, w);
}

directories-IsQuiet : IsQuiet directories taken
directories-IsQuiet = record {
  mkdir = λ w d name mode. refl;
  enter = λ w d name. refl;
  enters = λ w d name h. cc;
  remove = λ w d name. refl;
  remove_all = λ w d name. refl;
  remove_all_children = λ w d. refl;
  close = λ w d. refl;
}

subdirectory_manager-IsManager_example :
    IsManager (subdirectory_manager convert directories (λ e. e) single without_instance) taken 1
subdirectory_manager-IsManager_example =
    subdirectory_manager-IsManager convert directories (λ e. e) single without_instance taken 1
      singleton_manager-IsManager directories-IsQuiet
