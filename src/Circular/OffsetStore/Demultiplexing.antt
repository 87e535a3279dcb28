-- ===== src/Circular/OffsetStore/Demultiplexing.antt =====
-- demultiplexing_offset_store.go: an offset store for each instance name.
use bazel_buildbarn.Prelude.{ℕ, List, [], ◌∷◌, Option}
use bazel_buildbarn.Util.Status.{
  Result, ok, err, fatal, Converter, status_wrap, format, bytes, Message,
}
use bazel_buildbarn.Util.Digest.{Digest}
use bazel_buildbarn.Circular.Cursors.{Cursors}
use bazel_buildbarn.Circular.OffsetStore.{OffsetStore}

-- The getter is a callback of the program that uses the store; it chooses one of the stores, which
-- share a state.
module _ {S I : Type 0} (convert : Converter) (getter : List ℕ → Result I)
    (stores : I → OffsetStore S) where
  abbrev unobtainable : List ℕ → Message
  unobtainable instance_name =
      format "Failed to obtain offset store for instance %#v" (bytes instance_name ∷ [])

  unfoldable pub get : S → Digest → Cursors → Result (Option (ℕ × ℕ)) × S
  get s digest cursors = elim (getter digest.instance_name) [
    | ok i ↦ (stores i).get s digest cursors
    | err e ↦ (err (status_wrap convert e (unobtainable digest.instance_name)), s)
    | fatal ↦ (fatal, s)
  ]

  unfoldable pub put : S → Digest → ℕ → ℕ → Cursors → Result (Unit {0}) × S
  put s digest offset length cursors = elim (getter digest.instance_name) [
    | ok i ↦ (stores i).put s digest offset length cursors
    | err e ↦ (err (status_wrap convert e (unobtainable digest.instance_name)), s)
    | fatal ↦ (fatal, s)
  ]

  abbrev pub demultiplexing_offset_store : OffsetStore S
  demultiplexing_offset_store = record { get = get; put = put }
