-- ===== src/Prelude/SwapRemove.antt =====
-- Taking an element out of a slice whose order does not matter: the last element takes its place.
use Prim.Native.Nat.{ℕ, zero, suc, ◌+◌, ◌-◌, ◌<◌}
use mathlib.Core.Path.{◌≡◌, refl, ap, sym}
use mathlib.Core.Logic.{◌⊎◌, inl, inr, ◌↔◌}
use mathlib.Core.List.{List, [], ◌∷◌, ◌++◌}
use native.Mathlib.Omega.{arith}
use bazel_buildbarn.Prelude.Lists.{length, get_or, set, take, Member, Member_split}

module _ {A : Type 0} where
  -- list[i] = list[len(list) - 1]; list = list[:len(list) - 1]
  unfoldable pub swap_remove : A → List A → ℕ → List A
  swap_remove default xs i = take (length xs - 1) (set xs i (get_or xs (length xs - 1) default))

  abbrev pub total_of : (A → ℕ) → List A → ℕ
  total_of f [] = 0
  total_of f (x ∷ xs) = f x + total_of f xs

  abbrev pub Unique : List A → Type 0
  Unique [] = Unit
  Unique (x ∷ xs) = (Member x xs → ⊥) × Unique xs

  -- The second list has the elements of the first and `x`, each as often.
  pub record Without (x : A) (ys xs : List A) : Type 0 where
    pub member : (a : A) → Member a xs ↔ ((a ≡ x) ⊎ Member a ys)
    pub total : (f : A → ℕ) → total_of f xs ≡ f x + total_of f ys
    pub unique : Unique xs → Unique ys × (Member x ys → ⊥)
    pub size : length xs ≡ suc (length ys)

  at_front : (x : A) (ys : List A) → Without x ys (x ∷ ys)
  at_front x ys = record {
    member = λ a. (λ m. m, λ m. m);
    total = λ f. refl;
    unique = λ u. (u.1, u.0);
    size = refl;
  }

  behind : (x y : A) (ys xs : List A) → Without x ys xs → Without x (y ∷ ys) (y ∷ xs)
  behind x y ys xs h = record {
    member = λ a. (
      λ m. elim m [
        | inl e ↦ inr (inl e)
        | inr n ↦ elim ((h.member a).0 n) [ inl e ↦ inl e | inr o ↦ inr (inr o) ]
      ],
      λ m. elim m [
        | inl e ↦ inr ((h.member a).1 (inl e))
        | inr n ↦ elim n [ inl e ↦ inl e | inr o ↦ inr ((h.member a).1 (inr o)) ]
      ],
    );
    total = λ f. (let t = h.total f in omega arith);
    unique = λ u.
        (let (own, apart) = h.unique u.1 in
          (
            (λ m. u.0 ((h.member y).1 (inr m)), own),
            λ m. elim m [ inl e ↦ u.0 ((h.member y).1 (inl (sym e))) | inr n ↦ apart n ],
          ));
    size = ap suc h.size;
  }

  -- The first of the list goes, and the last comes to the front.
  exchange : (x l : A) (ys xs : List A) → Without l ys xs → Without x (l ∷ ys) (x ∷ xs)
  exchange x l ys xs h = record {
    member = λ a. (
      λ m. elim m [ inl e ↦ inl e | inr n ↦ inr ((h.member a).0 n) ],
      λ m. elim m [ inl e ↦ inl e | inr n ↦ inr ((h.member a).1 n) ],
    );
    total = λ f. (let t = h.total f in omega arith);
    unique = λ u. (let (own, apart) = h.unique u.1 in ((apart, own), λ m. u.0 ((h.member x).1 m)));
    size = ap suc h.size;
  }

  last_Without :
      (default y : A) (ys : List A)
      → Without (get_or (y ∷ ys) (length ys) default) (take (length ys) (y ∷ ys)) (y ∷ ys)
  last_Without default y [] = at_front y []
  last_Without default y (z ∷ ys) =
      behind (get_or (z ∷ ys) (length ys) default) y (take (length ys) (z ∷ ys)) (z ∷ ys)
        (last_Without default z ys)

  step_Without :
      (default y : A) (ys : List A) (i : ℕ)
      → i < length (y ∷ ys)
      → Without
          (get_or (y ∷ ys) i default)
          (take (length ys) (set (y ∷ ys) i (get_or (y ∷ ys) (length ys) default)))
          (y ∷ ys)
  step_Without default y [] zero up = at_front y []
  step_Without default y [] (suc i) up = absurd (omega arith)
  step_Without default y (z ∷ ys) zero up =
      exchange y (get_or (z ∷ ys) (length ys) default) (take (length ys) (z ∷ ys)) (z ∷ ys)
        (last_Without default z ys)
  step_Without default y (z ∷ ys) (suc i) up =
      behind (get_or (z ∷ ys) i default) y _ (z ∷ ys) (step_Without default z ys i (omega arith))

  pub swap_remove-Without :
      (default : A) (xs : List A) (i : ℕ)
      → i < length xs
      → Without (get_or xs i default) (swap_remove default xs i) xs
  unfolding swap_remove
  swap_remove-Without default [] i up = absurd (omega arith)
  swap_remove-Without default (y ∷ ys) i up =
      let one_less : suc (length ys) - 1 ≡ length ys = omega arith in
      rw one_less (step_Without default y ys i up)

  pub Unique-append :
      (keys : List A) (key : A) → Unique keys → (Member key keys → ⊥) → Unique (keys ++ key ∷ [])
  Unique-append [] key u new = ((λ m. m), tt)
  Unique-append (k ∷ keys) key u new = (
    λ m. elim (Member_split k keys (key ∷ []) m) [
      | inl n ↦ u.0 n
      | inr (inl e) ↦ new (inl (sym e))
      | inr (inr n) ↦ n
    ],
    Unique-append keys key u.1 (λ m. new (inr m)),
  )
