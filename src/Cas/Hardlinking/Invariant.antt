-- ===== src/Cas/Hardlinking/Invariant.antt =====
-- The bookkeeping of the cache of files.
use bazel_buildbarn.Prelude.{
  ℕ, suc, ◌+◌, ◌^◌, ◌≤◌, ◌<◌, ◌≡◌, ◌≢◌, ◌↔◌, refl, ap, ◌∙◌, sym, inl, inr, List, [], ◌∷◌, ◌++◌,
  none, some, length, length-append, get_or, Member, Member-append, Member_split, arith,
}
use bazel_buildbarn.Prelude.SwapRemove.{
  swap_remove, total_of, Unique, Unique-append, Without, swap_remove-Without,
}
use bazel_buildbarn.Util.KeyMap.{
  KeyMap, with_key, without_key, with_key_self, without_key_self, with_key_ne, without_key_ne,
  key-cases,
}
use bazel_buildbarn.Cas.Hardlinking.{HardlinkingStorage, size_in, forget, remember}

-- The list has the keys of the map, each once, and the total is that of the sizes.
pub record IsConsistent (cas : HardlinkingStorage) : Type 0 where
  pub unique : Unique cas.files_present_list
  pub listed :
      (key : List ℕ)
      → Member key cas.files_present_list ↔ ((size : ℕ) × (cas.files_present_size key ≡ some size))
  pub total :
      cas.files_present_total_size
      ≡ total_of (size_in cas.files_present_size) cas.files_present_list
  pub small : (key : List ℕ) (size : ℕ) → cas.files_present_size key ≡ some size → size < 2 ^ 62
  pub word : cas.files_present_total_size < 2 ^ 62

total_of_same :
    (f g : List ℕ → ℕ) (keys : List (List ℕ))
    → ((key : List ℕ) → Member key keys → f key ≡ g key)
    → total_of f keys ≡ total_of g keys
total_of_same f g [] same = refl
total_of_same f g (key ∷ keys) same =
    let rest = total_of_same f g keys (λ k m. same k (inr m)) in
    let first = same key (inl refl) in omega arith

total_of-append :
    (f : List ℕ → ℕ) (keys : List (List ℕ)) (key : List ℕ)
    → total_of f (keys ++ key ∷ []) ≡ total_of f keys + f key
total_of-append f [] key = omega arith
total_of-append f (k ∷ keys) key = let rest = total_of-append f keys key in omega arith

size_in_with : (m : KeyMap ℕ) (key : List ℕ) (size : ℕ) → m key ≡ some size → size_in m key ≡ size
size_in_with m key size e = ap (λ o. elim o [ none ↦ 0 | some n ↦ n ]) e

pub forget-IsConsistent :
    (cas : HardlinkingStorage) (idx : ℕ)
    → IsConsistent cas
    → idx < length cas.files_present_list
    → IsConsistent (forget cas idx)
      × (suc (length (forget cas idx).files_present_list) ≡ length cas.files_present_list)
      × ((forget cas idx).files_present_total_size ≤ cas.files_present_total_size)
unfolding forget
forget-IsConsistent cas idx h up =
    let keys = cas.files_present_list in
    let m = cas.files_present_size in
    let key = get_or keys idx [] in
    let left = swap_remove [] keys idx in
    let without : Without key left keys = swap_remove-Without [] keys idx up in
    let (own, apart) = without.unique h.unique in
    let ne : (k : List ℕ) → Member k left → k ≢ key = λ k n e. apart (rw e at n) in
    let same : total_of (size_in (without_key key m)) left ≡ total_of (size_in m) left =
      total_of_same (size_in (without_key key m)) (size_in m) left (λ k n.
        ap (λ o. elim o [ none ↦ 0 | some size ↦ size ]) (without_key_ne k key m (ne k n))) in
    let all : total_of (size_in m) keys ≡ size_in m key + total_of (size_in m) left =
      without.total (size_in m) in
    let whole = h.total in
    let fits = h.word in
    (
      record {
        unique = own;
        listed = λ k. (
          λ n.
              (let (size, e) = (h.listed k).0 ((without.member k).1 (inr n)) in
                (size, without_key_ne k key m (ne k n) ∙ e)),
          λ (size, e). elim (key-cases k key) [
            | inl f ↦ absurd (let gone = without_key_self key m in let e' = rw f at e in cc)
            | inr n ↦
                let found = (h.listed k).1 (size, sym (without_key_ne k key m n) ∙ e) in
                elim ((without.member k).0 found) [ inl f ↦ absurd (n f) | inr o ↦ o ]
          ],
        );
        total = omega (arith, same, all, whole, fits);
        small = λ k size e. elim (key-cases k key) [
          | inl f ↦ absurd (let gone = without_key_self key m in let e' = rw f at e in cc)
          | inr n ↦ h.small k size (sym (without_key_ne k key m n) ∙ e)
        ];
        word = omega (arith, all, whole, fits);
      },
      sym without.size,
      omega (arith, all, whole, fits),
    )

pub remember-IsConsistent :
    (cas : HardlinkingStorage) (key : List ℕ) (size : ℕ)
    → IsConsistent cas
    → cas.files_present_size key ≡ none
    → size < 2 ^ 62
    → cas.files_present_total_size + size < 2 ^ 62
    → IsConsistent (remember cas key size)
      × (length (remember cas key size).files_present_list ≡ length cas.files_present_list + 1)
      × ((remember cas key size).files_present_total_size ≡ cas.files_present_total_size + size)
unfolding remember
remember-IsConsistent cas key size h absent fits room =
    let keys = cas.files_present_list in
    let m = cas.files_present_size in
    let new : Member key keys → ⊥ = λ n. (let (s, e) = (h.listed key).0 n in cc) in
    let ne : (k : List ℕ) → Member k keys → k ≢ key = λ k n e. new (rw e at n) in
    let m' = with_key key size m in
    let same : total_of (size_in m') keys ≡ total_of (size_in m) keys =
      total_of_same (size_in m') (size_in m) keys
        (λ k n. ap (λ o. elim o [ none ↦ 0 | some s ↦ s ]) (with_key_ne k key size m (ne k n))) in
    let own : size_in m' key ≡ size = size_in_with m' key size (with_key_self key size m) in
    let all = total_of-append (size_in m') keys key in
    let whole = h.total in
    let longer = length-append keys (key ∷ []) in
    (
      record {
        unique = Unique-append keys key h.unique new;
        listed = λ k. (
          λ n. elim (Member_split k keys (key ∷ []) n) [
            | inl o ↦ let (s, e) = (h.listed k).0 o in (s, with_key_ne k key size m (ne k o) ∙ e)
            | inr (inl e) ↦ (size, rw e (with_key_self key size m))
            | inr (inr o) ↦ absurd o
          ],
          λ (s, e). Member-append k keys (key ∷ []) (elim (key-cases k key) [
            | inl f ↦ inr (inl f)
            | inr n ↦ inl ((h.listed k).1 (s, sym (with_key_ne k key size m n) ∙ e))
          ]),
        );
        total = omega (arith, same, own, all, whole, room);
        small = λ k s e. elim (key-cases k key) [
          | inl f ↦
              let e' : some size ≡ some s = sym (with_key_self key size m) ∙ ap m' (sym f) ∙ e in
              let size' : size ≡ s = cc in omega arith
          | inr n ↦ h.small k s (sym (with_key_ne k key size m n) ∙ e)
        ];
        word = omega (arith, room);
      },
      omega (arith, longer),
      omega (arith, room),
    )
