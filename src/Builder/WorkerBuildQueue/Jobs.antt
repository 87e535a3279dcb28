-- ===== src/Builder/WorkerBuildQueue/Jobs.antt =====
-- Finding a job after the list of jobs, or a map, has changed.
use bazel_buildbarn.Prelude.{
  ℕ, zero, suc, ◌<◌, ◌≡◌, ◌≢◌, refl, ap, ◌⊎◌, inl, inr, List, [], ◌∷◌, ◌++◌, Option, none, some,
  length, arith, Bool-cases, get_elem?, set,
}
use bazel_buildbarn.Circular.Record.{bytes_equal}
use bazel_buildbarn.Circular.Record.Fields.{bytes_equal_sound, bytes_equal_refl}
use bazel_buildbarn.Builder.WorkerBuildQueue.{insert, remove}

module _ {ℓ} {A : Type ℓ} where
  pub found_below : (xs : List A) (i : ℕ) (x : A) → get_elem? xs i ≡ some x → i < length xs
  found_below [] i x h = absurd (cc)
  found_below (y ∷ ys) zero x h = omega arith
  found_below (y ∷ ys) (suc i) x h = let r = found_below ys i x h in omega arith

  pub found-append :
      (xs : List A) (i : ℕ) (x y : A)
      → get_elem? xs i ≡ some x
      → get_elem? (xs ++ y ∷ []) i ≡ some x
  found-append [] i x y h = absurd (cc)
  found-append (z ∷ zs) zero x y h = h
  found-append (z ∷ zs) (suc i) x y h = found-append zs i x y h

  pub found_last : (xs : List A) (y : A) → get_elem? (xs ++ y ∷ []) (length xs) ≡ some y
  found_last [] y = refl
  found_last (z ∷ zs) y = found_last zs y

  pub append_inv :
      (xs : List A) (i : ℕ) (x y : A)
      → get_elem? (xs ++ y ∷ []) i ≡ some x
      → (get_elem? xs i ≡ some x) ⊎ ((i ≡ length xs) × (x ≡ y))
  append_inv [] zero x y h = inr (refl, cc)
  append_inv [] (suc i) x y h = absurd (cc)
  append_inv (z ∷ zs) zero x y h = inl h
  append_inv (z ∷ zs) (suc i) x y h = elim (append_inv zs i x y h) [
    | inl e ↦ inl e
    | inr (e, f) ↦ inr (ap suc e, f)
  ]

  pub found-set_self :
      (xs : List A) (i : ℕ) (x y : A) → get_elem? xs i ≡ some x → get_elem? (set xs i y) i ≡ some y
  found-set_self [] i x y h = absurd (cc)
  found-set_self (z ∷ zs) zero x y h = refl
  found-set_self (z ∷ zs) (suc i) x y h = found-set_self zs i x y h

  pub set_inv :
      (xs : List A) (k i : ℕ) (x y : A)
      → get_elem? (set xs k y) i ≡ some x
      → ((i ≡ k) × (x ≡ y)) ⊎ ((i ≢ k) × (get_elem? xs i ≡ some x))
  set_inv [] k i x y h = absurd (cc)
  set_inv (z ∷ zs) zero zero x y h = inl (refl, cc)
  set_inv (z ∷ zs) zero (suc i) x y h = inr ((λ e. absurd (omega arith)), h)
  set_inv (z ∷ zs) (suc k) zero x y h = inr ((λ e. absurd (omega arith)), h)
  set_inv (z ∷ zs) (suc k) (suc i) x y h = elim (set_inv zs k i x y h) [
    | inl (e, f) ↦ inl (ap suc e, f)
    | inr (ne, f) ↦ inr ((λ e. ne (omega arith)), f)
  ]

pub insert_same : (key : List ℕ) (id : ℕ) (m : List ℕ → Option ℕ) → insert key id m key ≡ some id
insert_same key id m = rw (bytes_equal_refl key) refl

pub insert_inv :
    (key k : List ℕ) (id x : ℕ) (m : List ℕ → Option ℕ)
    → insert key id m k ≡ some x
    → ((k ≡ key) × (x ≡ id)) ⊎ (m k ≡ some x)
insert_inv key k id x m h = elim (Bool-cases (bytes_equal k key)) [
  | inl e ↦ let h' = rw e at h in inl (bytes_equal_sound k key e, cc)
  | inr e ↦ inr (rw e at h)
]

-- A key that is not there yet hides none.
pub insert_keeps :
    (key k : List ℕ) (id x : ℕ) (m : List ℕ → Option ℕ)
    → m key ≡ none
    → m k ≡ some x
    → insert key id m k ≡ some x
insert_keeps key k id x m fresh h = elim (Bool-cases (bytes_equal k key)) [
  | inl e ↦ let same = bytes_equal_sound k key e in let h' = rw same at h in absurd (cc)
  | inr e ↦ rw e h
]

pub remove_inv :
    (key k : List ℕ) (x : ℕ) (m : List ℕ → Option ℕ)
    → remove key m k ≡ some x
    → (k ≢ key) × (m k ≡ some x)
remove_inv key k x m h = elim (Bool-cases (bytes_equal k key)) [
  | inl e ↦ absurd (let h' = rw e at h in cc)
  | inr e ↦ ((λ same. let e' = rw same at e in let r = bytes_equal_refl key in cc), rw e at h)
]

pub remove_keeps :
    (key k : List ℕ) (x : ℕ) (m : List ℕ → Option ℕ)
    → k ≢ key
    → m k ≡ some x
    → remove key m k ≡ some x
remove_keeps key k x m other h = elim (Bool-cases (bytes_equal k key)) [
  | inl e ↦ absurd (other (bytes_equal_sound k key e))
  | inr e ↦ rw e h
]
