-- ===== src/Cas/DirectoryCaching/Lookups.antt =====
-- What GetDirectory returns, and what it leaves in the cache.
use bazel_buildbarn.Prelude.{
  ℕ, zero, suc, ◌^◌, ◌≤◌, ◌<◌, ◌≡◌, ◌≢◌, refl, ◌∙◌, inl, inr, List, [], Option, none, some, false,
  ◌==◌, length, get_or, Bool-cases, arith,
}
use bazel_buildbarn.Prelude.Word.{leb_int64, leb_int64_holds, leb_int64_fails}
use bazel_buildbarn.Util.Status.{Result, ok, err, fatal}
use bazel_buildbarn.Util.Digest.{Digest, KeyFormat, get_key}
use bazel_buildbarn.Util.KeyMap.{without_key_self, without_key_ne, key-cases}
use bazel_buildbarn.Cas.DirectoryCaching.{
  DirectoryCache, forget, remember, make_space, add_absent, add_directory, added, downloaded,
  get_absent, get_directory,
}
use bazel_buildbarn.Cas.DirectoryCaching.Invariant.{IsDirectoryCache, forget_lem, remember_lem}

module _ {V W : Type 0} (Content : List ℕ → V → Type 0) (intn : W → ℕ → ℕ × W)
    (download : W → Digest → Result V × W) (f : KeyFormat) (limit : ℕ) where
  forget_absent :
      (cas : DirectoryCache V) (idx : ℕ) (key : List ℕ)
      → cas.directories_present_message key ≡ none
      → (forget cas idx).directories_present_message key ≡ none
  unfolding forget
  forget_absent cas idx key absent =
      let gone = get_or cas.directories_present_list idx [] in
      elim (key-cases key gone) [
        | inl e ↦ rw e (without_key_self gone cas.directories_present_message)
        | inr n ↦ without_key_ne key gone cas.directories_present_message n ∙ absent
      ]

  record Spaced (cas : DirectoryCache V) (result : Result (DirectoryCache V) × W) : Type 0 where
    left : DirectoryCache V
    returns : result.0 ≡ ok left
    valid : IsDirectoryCache Content limit left
    room : length left.directories_present_list < limit
    absent :
        (key : List ℕ)
        → cas.directories_present_message key ≡ none
        → left.directories_present_message key ≡ none

  -- A call of GetDirectory that returns a directory returns the one of the storage. No call panics.
  abbrev pub Outcome : List ℕ → Result (V × DirectoryCache V) × W → Type 0
  Outcome key (ok (v, cas), w) = Content key v × IsDirectoryCache Content limit cas
  Outcome key (err e, w) = Unit
  Outcome key (fatal, w) = ⊥

  module _ (positive : 0 < limit) (word : limit < 2 ^ 63)
      (random : (w : W) (n : ℕ) → 0 < n → (intn w n).0 < n) where
    abbrev space : ℕ → DirectoryCache V → W → Result (DirectoryCache V) × W
    space = make_space intn download f limit

    space_lem :
        (fuel : ℕ) (cas : DirectoryCache V) (w : W)
        → IsDirectoryCache Content limit cas
        → length cas.directories_present_list ≤ fuel
        → Spaced cas (space fuel cas w)
    unfolding make_space
    space_lem zero cas w h up =
        let small : leb_int64 limit (length cas.directories_present_list) ≡ false =
          ground (arith, positive) in
        rw small
          record { left = cas; returns = refl; valid = h; room = omega arith; absent = λ key e. e }
    space_lem (suc fuel) cas w h up =
        let count : length cas.directories_present_list < 2 ^ 63 =
          let lim = h.limited in omega (arith, lim, word) in
        elim (Bool-cases (leb_int64 limit (length cas.directories_present_list))) [
          | inr room ↦ rw room record {
            left = cas;
            returns = refl;
            valid = h;
            room = leb_int64_fails limit (length cas.directories_present_list) word count room;
            absent = λ key e. e;
          }
          | inl full ↦
              let many =
                leb_int64_holds limit (length cas.directories_present_list) word count full in
              let filled : (length cas.directories_present_list == 0) ≡ false =
                ground (arith, many, positive) in
              let drawn = intn w (length cas.directories_present_list) in
              let (valid, shorter) =
                forget_lem Content cas drawn.0 limit h
                  (random w _ (omega (arith, many, positive))) in
              let rest =
                space_lem fuel (forget cas drawn.0) drawn.1 valid (omega (arith, shorter)) in
              rw (full, filled)
                record {
                  left = rest.left;
                  returns = rest.returns;
                  valid = rest.valid;
                  room = rest.room;
                  absent = λ key e. rest.absent key (forget_absent cas drawn.0 key e);
                }
        ]

    add_absent_lem :
        (cas : DirectoryCache V) (key : List ℕ) (v : V) (w : W) (o : Option V)
        → IsDirectoryCache Content limit cas
        → cas.directories_present_message key ≡ o
        → Content key v
        → (cas' : DirectoryCache V) × ((add_absent intn download f limit cas key v w o).0 ≡ ok cas')
          × IsDirectoryCache Content limit cas'
    unfolding add_absent
    add_absent_lem cas key v w (some x) h e right = (cas, refl, h)
    add_absent_lem cas key v w none h e right =
        let r = space_lem (length cas.directories_present_list) cas w h (omega arith) in
        (
          remember r.left key v,
          rw r.returns refl,
          remember_lem Content r.left key v limit r.valid (r.absent key e) right r.room,
        )

    module _
        (honest : (w : W) (digest : Digest) (v : V)
          → (download w digest).0 ≡ ok v
          → Content (get_key digest f) v)
        (returns : (w : W) (digest : Digest) → (download w digest).0 ≢ fatal) where
      downloaded_lem :
          (cas : DirectoryCache V) (digest : Digest) (outcome : Result V × W)
          → IsDirectoryCache Content limit cas
          → ((v : V) → outcome.0 ≡ ok v → Content (get_key digest f) v)
          → outcome.0 ≢ fatal
          → Outcome (get_key digest f) (downloaded intn download f limit cas digest outcome)
      unfolding downloaded add_directory added
      downloaded_lem cas digest (ok v, w) h right alive =
          let (cas', e, valid) =
            add_absent_lem cas (get_key digest f) v w _ h refl (right v refl) in
          rw e (right v refl, valid)
      downloaded_lem cas digest (err e, w) h right alive = tt
      downloaded_lem cas digest (fatal, w) h right alive = alive refl

      get_absent_lem :
          (cas : DirectoryCache V) (digest : Digest) (w : W) (o : Option V)
          → IsDirectoryCache Content limit cas
          → cas.directories_present_message (get_key digest f) ≡ o
          → Outcome (get_key digest f) (get_absent intn download f limit cas digest w o)
      unfolding get_absent
      get_absent_lem cas digest w (some v) h e = (h.content (get_key digest f) v e, h)
      get_absent_lem cas digest w none h e =
          downloaded_lem cas digest (download w digest) h (honest w digest) (returns w digest)

-- The cache of directories hides nothing. If what the storage returns for a digest is right by any
-- predicate `Content` on the digest's key and a message, then so is what GetDirectory returns, whether
-- it is from the cache or not. The cache stays in order: the list and the map have the same keys, each
-- once, their messages are right, and there are at most as many as the limit, which is positive and
-- below 2 ^ 63. GetDirectory does not panic if the storage does not, and rand.Intn returns an index
-- within the range that was asked for.
pub get_directory-Outcome :
    {V W : Type 0} (Content : List ℕ → V → Type 0) (intn : W → ℕ → ℕ × W)
    (download : W → Digest → Result V × W) (f : KeyFormat) (limit : ℕ) (cas : DirectoryCache V)
    (digest : Digest) (w : W)
    → 0 < limit
    → limit < 2 ^ 63
    → ((w' : W) (n : ℕ) → 0 < n → (intn w' n).0 < n)
    → ((w' : W) (d : Digest) (v : V) → (download w' d).0 ≡ ok v → Content (get_key d f) v)
    → ((w' : W) (d : Digest) → (download w' d).0 ≢ fatal)
    → IsDirectoryCache Content limit cas
    → Outcome Content intn download f limit
        (get_key digest f)
        (get_directory intn download f limit cas digest w)
unfolding get_directory
get_directory-Outcome Content intn download f limit cas digest w positive word random honest returns
      h =
    get_absent_lem Content intn download f limit positive word random honest returns cas digest w _
      h refl
