-- ===== src/Cas/Hardlinking/Limits.antt =====
-- The limits of the cache of files.
use bazel_buildbarn.Prelude.{
  ℕ, zero, suc, ◌+◌, ◌^◌, ◌≤◌, ◌<◌, ◌≡◌, refl, ◌∙◌, ◌⊎◌, inl, inr, List, [], ◌∷◌, Option, none,
  some, Bool, true, false, ◌==◌, length, get_or, Bool-cases, arith,
}
use bazel_buildbarn.Prelude.Word.{add64, leb_int64, leb_int64_holds, leb_int64_fails}
use bazel_buildbarn.Prelude.SwapRemove.{total_of}
use bazel_buildbarn.Util.Status.{Error}
use bazel_buildbarn.Util.Digest.{KeyFormat}
use bazel_buildbarn.Util.KeyMap.{without_key_self, without_key_ne, key-cases}
use bazel_buildbarn.Cas.Hardlinking.{
  Surroundings, HardlinkingStorage, size_in, forget, remember, is_full, removed, make_space,
}
use bazel_buildbarn.Cas.Hardlinking.Invariant.{
  IsConsistent, forget-IsConsistent, remember-IsConsistent,
}

-- A single file may be larger than the limits.
pub record IsCache (max_files max_size : ℕ) (cas : HardlinkingStorage) : Type 0 where
  pub consistent : IsConsistent cas
  pub files : (length cas.files_present_list ≤ max_files) ⊎ (length cas.files_present_list ≤ 1)
  pub size : (cas.files_present_total_size ≤ max_size) ⊎ (length cas.files_present_list ≤ 1)

no_files :
    (cas : HardlinkingStorage)
    → IsConsistent cas
    → length cas.files_present_list ≡ 0
    → cas.files_present_total_size ≡ 0
no_files cas h e = h.total ∙ none_total cas.files_present_list (size_in cas.files_present_size) e
  where
    none_total : (keys : List (List ℕ)) (f : List ℕ → ℕ) → length keys ≡ 0 → total_of f keys ≡ 0
    none_total [] f e = refl
    none_total (k ∷ keys) f e = absurd (omega arith)

module _ {W T : Type 0} (surroundings : Surroundings W T) (f : KeyFormat) (max_files max_size : ℕ)
    (random : (w : W) (n : ℕ) → 0 < n → (surroundings.intn w n).0 < n) where
  forget_lem :
      (cas : HardlinkingStorage) (idx : ℕ)
      → IsCache max_files max_size cas
      → idx < length cas.files_present_list
      → IsCache max_files max_size (forget cas idx)
        × (suc (length (forget cas idx).files_present_list) ≡ length cas.files_present_list)
  forget_lem cas idx h up =
      let (consistent, shorter, smaller) = forget-IsConsistent cas idx h.consistent up in
      (
        record {
          consistent = consistent;
          files = elim h.files [
            | inl few ↦ inl (omega (arith, shorter))
            | inr one ↦ inr (omega (arith, shorter))
          ];
          size = elim h.size [
            | inl few ↦ inl (omega (arith, smaller))
            | inr one ↦ inr (omega (arith, shorter))
          ];
        },
        shorter,
      )

  forget_absent :
      (cas : HardlinkingStorage) (idx : ℕ) (key : List ℕ)
      → cas.files_present_size key ≡ none
      → (forget cas idx).files_present_size key ≡ none
  unfolding forget
  forget_absent cas idx key absent =
      let gone = get_or cas.files_present_list idx [] in
      elim (key-cases key gone) [
        | inl e ↦ rw e (without_key_self gone cas.files_present_size)
        | inr n ↦ without_key_ne key gone cas.files_present_size n ∙ absent
      ]

  abbrev pub space : ℕ → HardlinkingStorage → ℕ → W → Option Error × (HardlinkingStorage × W)
  space = make_space surroundings f max_files max_size

  abbrev pub full : HardlinkingStorage → ℕ → Bool
  full = is_full surroundings f max_files max_size

  pub record Spaced (cas : HardlinkingStorage) (size : ℕ)
      (result : Option Error × (HardlinkingStorage × W)) : Type 0 where
    pub valid : IsCache max_files max_size result.1.0
    pub room : result.0 ≡ none → full result.1.0 size ≡ false
    pub absent :
        (key : List ℕ)
        → cas.files_present_size key ≡ none
        → result.1.0.files_present_size key ≡ none

  removed_lem :
      (outcome : Option Error × W) (cas : HardlinkingStorage) (idx size : ℕ)
      (rest : Option Error × (HardlinkingStorage × W))
      → IsCache max_files max_size cas
      → Spaced (forget cas idx) size rest
      → Spaced cas size (removed surroundings f max_files max_size outcome cas rest)
  unfolding removed
  removed_lem (none, w) cas idx size rest h r = record {
    valid = r.valid;
    room = r.room;
    absent = λ key e. r.absent key (forget_absent cas idx key e);
  }
  removed_lem (some e, w) cas idx size rest h r = record {
    valid = h;
    room = λ n. absurd (cc);
    absent = λ key e. e;
  }

  pub space_lem :
      (fuel : ℕ) (cas : HardlinkingStorage) (size : ℕ) (w : W)
      → IsCache max_files max_size cas
      → length cas.files_present_list ≤ fuel
      → Spaced cas size (space fuel cas size w)
  unfolding make_space removed
  space_lem zero cas size w h up =
      let nothing : (length cas.files_present_list == 0) ≡ true = ground arith in
      record { valid = h; room = λ e. rw nothing refl; absent = λ key e. e }
  space_lem (suc fuel) cas size w h up = elim (Bool-cases (full cas size)) [
    | inr room ↦ rw room record { valid = h; room = λ e. room; absent = λ key e. e }
    | inl more ↦
        let some_file : 0 < length cas.files_present_list = ground (arith, more) in
        let drawn = surroundings.intn w (length cas.files_present_list) in
        let (left, shorter) = forget_lem cas drawn.0 h (random w _ some_file) in
        let outcome = surroundings.remove drawn.1 (get_or cas.files_present_list drawn.0 []) in
        let rest = space_lem fuel (forget cas drawn.0) size outcome.1 left (omega arith) in
        rw more (removed_lem outcome cas drawn.0 size _ h rest)
  ]

  -- What remains fits, so that the sum does not wrap around.
  room_for :
      (cas : HardlinkingStorage) (size : ℕ)
      → IsCache max_files max_size cas
      → max_files < 2 ^ 62
      → max_size < 2 ^ 62
      → size < 2 ^ 62
      → full cas size ≡ false
      → (length cas.files_present_list ≡ 0)
        ⊎ ((length cas.files_present_list < max_files)
            × (cas.files_present_total_size + size ≤ max_size))
  room_for cas size h files sizes small room =
      let word = h.consistent.word in
      elim (Bool-cases (length cas.files_present_list == 0)) [
        | inl nothing ↦ inl (ground (arith, nothing))
        | inr filled ↦
            let few : leb_int64 max_files (length cas.files_present_list) ≡ false =
              ground (arith, room, filled) in
            let fits : leb_int64 (add64 cas.files_present_total_size size) max_size ≡ true =
              ground (arith, room, filled) in
            let total : add64 cas.files_present_total_size size
                ≡ cas.files_present_total_size + size =
              omega arith in
            let count : length cas.files_present_list < 2 ^ 63 = elim h.files [
              | inl c ↦ omega arith
              | inr c ↦ omega arith
            ] in
            inr (
              leb_int64_fails max_files (length cas.files_present_list) (omega arith) count few,
              rw (← total) (
                  leb_int64_holds (add64 cas.files_present_total_size size) max_size
                    (omega (arith, total)) (omega arith) fits),
            )
      ]

  module _ (files : max_files < 2 ^ 62) (sizes : max_size < 2 ^ 62) where
    pub remember_lem :
        (cas : HardlinkingStorage) (key : List ℕ) (size : ℕ)
        → IsCache max_files max_size cas
        → size < 2 ^ 62
        → full cas size ≡ false
        → cas.files_present_size key ≡ none
        → IsCache max_files max_size (remember cas key size)
    remember_lem cas key size h small room absent =
        elim (room_for cas size h files sizes small room) [
          | inl nothing ↦
              let zero' = no_files cas h.consistent nothing in
              let (consistent, longer, larger) =
                remember-IsConsistent cas key size h.consistent absent small (omega arith) in
              record {
                consistent = consistent;
                files = inr (omega arith);
                size = inr (omega arith);
              }
          | inr (few, fits) ↦
              let (consistent, longer, larger) =
                remember-IsConsistent cas key size h.consistent absent small (omega arith) in
              record {
                consistent = consistent;
                files = inl (omega arith);
                size = inl (omega arith);
              }
        ]
