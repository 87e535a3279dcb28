-- ===== src/Util/KeyMap.antt =====
-- Go's maps whose keys are strings, as functions.
use bazel_buildbarn.Prelude.{
  ℕ, ◌≡◌, ◌≢◌, refl, List, Option, none, some, false, if◌then◌else◌, Bool-cases, inl, inr, ◌⊎◌,
}
use bazel_buildbarn.Circular.Record.{bytes_equal}
use bazel_buildbarn.Circular.Record.Fields.{bytes_equal_sound, bytes_equal_refl}

abbrev pub KeyMap : Type 0 → Type 0
KeyMap V = List ℕ → Option V

differs : (k key : List ℕ) → k ≢ key → bytes_equal k key ≡ false
differs k key ne = elim (Bool-cases (bytes_equal k key)) [
  | inl same ↦ absurd (ne (bytes_equal_sound k key same))
  | inr e ↦ e
]

module _ {V : Type 0} where
  abbrev pub no_keys : KeyMap V
  no_keys k = none

  abbrev pub with_key : List ℕ → V → KeyMap V → KeyMap V
  with_key key v m k = if bytes_equal k key then some v else m k

  abbrev pub without_key : List ℕ → KeyMap V → KeyMap V
  without_key key m k = if bytes_equal k key then none else m k

  pub with_key_self : (key : List ℕ) (v : V) (m : KeyMap V) → with_key key v m key ≡ some v
  with_key_self key v m = rw (bytes_equal_refl key) refl

  pub without_key_self : (key : List ℕ) (m : KeyMap V) → without_key key m key ≡ none
  without_key_self key m = rw (bytes_equal_refl key) refl

  pub with_key_ne : (k key : List ℕ) (v : V) (m : KeyMap V) → k ≢ key → with_key key v m k ≡ m k
  with_key_ne k key v m ne = rw (differs k key ne) refl

  pub without_key_ne : (k key : List ℕ) (m : KeyMap V) → k ≢ key → without_key key m k ≡ m k
  without_key_ne k key m ne = rw (differs k key ne) refl

-- To split on whether two keys are the same.
pub key-cases : (k key : List ℕ) → (k ≡ key) ⊎ (k ≢ key)
key-cases k key = elim (Bool-cases (bytes_equal k key)) [
  | inl same ↦ inl (bytes_equal_sound k key same)
  | inr e ↦ inr (λ same. (let self = bytes_equal_refl key in absurd (cc)))
]
