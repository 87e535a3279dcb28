-- ===== src/Cas/DirectoryCaching/Invariant.antt =====
-- The cache of directories stays in order, and hides nothing of the storage.
use bazel_buildbarn.Prelude.{
  ℕ, suc, ◌≤◌, ◌<◌, ◌≡◌, ◌↔◌, ap, ◌∙◌, sym, inl, inr, List, [], ◌∷◌, none, some, length,
  length-append, get_or, Member, Member-append, Member_split, arith,
}
use bazel_buildbarn.Prelude.SwapRemove.{
  swap_remove, Unique, Unique-append, Without, swap_remove-Without,
}
use bazel_buildbarn.Util.KeyMap.{
  with_key, with_key_self, without_key_self, with_key_ne, without_key_ne, key-cases,
}
use bazel_buildbarn.Cas.DirectoryCaching.{DirectoryCache, forget, remember}

-- The list has the keys of the map, each once; there are no more than the limit; and every message is
-- one that the storage has for its key.
pub record IsDirectoryCache {V : Type 0} (Content : List ℕ → V → Type 0) (limit : ℕ)
    (cas : DirectoryCache V) : Type 0 where
  pub unique : Unique cas.directories_present_list
  pub listed :
      (key : List ℕ)
      → Member key cas.directories_present_list
        ↔ ((v : V) × (cas.directories_present_message key ≡ some v))
  pub content :
      (key : List ℕ) (v : V) → cas.directories_present_message key ≡ some v → Content key v
  pub limited : length cas.directories_present_list ≤ limit

module _ {V : Type 0} (Content : List ℕ → V → Type 0) where
  pub forget_lem :
      (cas : DirectoryCache V) (idx limit : ℕ)
      → IsDirectoryCache Content limit cas
      → idx < length cas.directories_present_list
      → IsDirectoryCache Content limit (forget cas idx)
        × (suc (length (forget cas idx).directories_present_list)
            ≡ length cas.directories_present_list)
  unfolding forget
  forget_lem cas idx limit h up =
      let keys = cas.directories_present_list in
      let m = cas.directories_present_message in
      let key = get_or keys idx [] in
      let without : Without key (swap_remove [] keys idx) keys =
        swap_remove-Without [] keys idx up in
      let (own, apart) = without.unique h.unique in
      let size = without.size in
      let lim = h.limited in
      let gone = without_key_self key m in
      (
        record {
          unique = own;
          listed = λ k. (
            λ n.
                (let (v, e) = (h.listed k).0 ((without.member k).1 (inr n)) in
                  (v, without_key_ne k key m (λ e. apart (rw e at n)) ∙ e)),
            λ (v, e). elim (key-cases k key) [
              | inl f ↦ absurd (let e' = rw f at e in cc)
              | inr n ↦
                  let found = (h.listed k).1 (v, sym (without_key_ne k key m n) ∙ e) in
                  elim ((without.member k).0 found) [ inl f ↦ absurd (n f) | inr o ↦ o ]
            ],
          );
          content = λ k v e. elim (key-cases k key) [
            | inl f ↦ absurd (let e' = rw f at e in cc)
            | inr n ↦ h.content k v (sym (without_key_ne k key m n) ∙ e)
          ];
          limited = omega (arith, size, lim);
        },
        sym size,
      )

  pub remember_lem :
      (cas : DirectoryCache V) (key : List ℕ) (v : V) (limit : ℕ)
      → IsDirectoryCache Content limit cas
      → cas.directories_present_message key ≡ none
      → Content key v
      → length cas.directories_present_list < limit
      → IsDirectoryCache Content limit (remember cas key v)
  unfolding remember
  remember_lem cas key v limit h absent right room =
      let keys = cas.directories_present_list in
      let m = cas.directories_present_message in
      let new : Member key keys → ⊥ = λ n. (let (s, e) = (h.listed key).0 n in cc) in
      let longer = length-append keys (key ∷ []) in
      record {
        unique = Unique-append keys key h.unique new;
        listed = λ k. (
          λ n. elim (Member_split k keys (key ∷ []) n) [
            | inl o ↦
                let (s, e) = (h.listed k).0 o in
                (s, with_key_ne k key v m (λ e. new (rw e at o)) ∙ e)
            | inr (inl e) ↦ (v, rw e (with_key_self key v m))
            | inr (inr o) ↦ absurd o
          ],
          λ (s, e). Member-append k keys (key ∷ []) (elim (key-cases k key) [
            | inl f ↦ inr (inl f)
            | inr n ↦ inl ((h.listed k).1 (s, sym (with_key_ne k key v m n) ∙ e))
          ]),
        );
        content = λ k s e. elim (key-cases k key) [
          | inl f ↦
              let e' : some v ≡ some s =
                sym (with_key_self key v m) ∙ ap (with_key key v m) (sym f) ∙ e in
              let same : v ≡ s = cc in rw (f, ← same) right
          | inr n ↦ h.content k s (sym (with_key_ne k key v m n) ∙ e)
        ];
        limited = omega (arith, longer, room);
      }
