-- ===== src/Tests/Memory.antt =====
-- A backend in memory, which keeps to the contract of storage backends.
use bazel_buildbarn.Prelude.{
  ℕ, ◌≡◌, ◌≢◌, ◌↔◌, refl, ap, sym, List, [], ◌∷◌, Option, none, some, Bool, true, false, ◌&&◌, ◌==◌,
  if◌then◌else◌, length, filter, Member-filter, Bool-cases, inl, inr, arith,
}
use mathlib.Core.List.{append-nil}
use bazel_buildbarn.Util.Status.{Result, ok, err, Error, eof, status, violation, other}
use bazel_buildbarn.Util.Digest.{Digest}
use bazel_buildbarn.Util.Reader.{Reader, drain, chunks}
use bazel_buildbarn.Circular.Record.{bytes_equal}
use bazel_buildbarn.Circular.Record.Fields.{bytes_equal_sound, bytes_equal_refl}
use bazel_buildbarn.Circular.BlobAccess.{blob_not_found}
use bazel_buildbarn.Blobstore.BlobAccess.{BlobAccess}
use bazel_buildbarn.Blobstore.BlobAccess.Laws.{View, Same, Updated, Got, IsStore}

abbrev digest_equal : Digest → Digest → Bool
digest_equal d e =
    bytes_equal d.instance_name e.instance_name
    && (bytes_equal d.partial_digest.hash e.partial_digest.hash
        && d.partial_digest.size_bytes == e.partial_digest.size_bytes)

digest_equal_sound : (d e : Digest) → digest_equal d e ≡ true → d ≡ e
digest_equal_sound d e h =
    let names : bytes_equal d.instance_name e.instance_name ≡ true = ground arith in
    let hashes : bytes_equal d.partial_digest.hash e.partial_digest.hash ≡ true = ground arith in
    let sizes : d.partial_digest.size_bytes ≡ e.partial_digest.size_bytes = ground arith in
    let names' = bytes_equal_sound _ _ names in
    let hashes' = bytes_equal_sound _ _ hashes in
    λ i. record {
      instance_name = names' i;
      partial_digest = record { hash = hashes' i; size_bytes = sizes i };
    }

digest_equal_refl : (d : Digest) → digest_equal d d ≡ true
digest_equal_refl d =
    let sizes : (d.partial_digest.size_bytes == d.partial_digest.size_bytes) ≡ true =
      ground arith in
    rw (bytes_equal_refl d.instance_name, bytes_equal_refl d.partial_digest.hash, sizes) refl

abbrev pub update : View → Digest → Option (List ℕ) → View
update v d value e = if digest_equal d e then value else v e

abbrev found : View → Option (List ℕ) → Result (ℕ × Reader) × View
found v none = (err blob_not_found, v)
found v (some blob) = (ok (length blob, chunks (blob ∷ [])), v)

abbrev stored : View → Digest → List ℕ × Error → Result (Unit {0}) × View
stored v d (blob, eof) = (ok tt, update v d (some blob))
stored v d (blob, e) = (err e, v)

abbrev is_none : Option (List ℕ) → Bool
is_none none = true
is_none (some blob) = false

abbrev pub memory : BlobAccess View Reader
memory = record {
  get = λ v d. found v (v d);
  put = λ v d size_bytes r. stored v d (drain r);
  delete = λ v d. (ok tt, update v d none);
  find_missing = λ v ds. (ok (filter (λ d. is_none (v d)) ds), v);
  reading = λ r v. (r, v);
}

abbrev pub view : View → View
view v = v

abbrev pub NotFound : Error → Type 0
NotFound e = e ≡ blob_not_found

updated : (v : View) (d : Digest) (value : Option (List ℕ)) → Updated v d value (update v d value)
updated v d value = (
  rw (digest_equal_refl d) refl,
  λ e ne. elim (Bool-cases (digest_equal d e)) [
    | inl same ↦ absurd (ne (sym (digest_equal_sound d e same)))
    | inr differs ↦ rw differs refl
  ],
)

got :
    (v : View) (d : Digest) (value : Option (List ℕ))
    → v d ≡ value
    → Got memory view NotFound v d value
unfolding drain
got v d none e = (blob_not_found, rw e refl, refl)
got v d (some blob) e =
    (chunks (blob ∷ []), rw e refl, ap (λ b. (b, eof)) (append-nil blob), λ d'. rw e refl)

get_same : (v : View) (d : Digest) (value : Option (List ℕ)) → Same v (found v value).1
get_same v d none e = refl
get_same v d (some blob) e = refl

stored_failed :
    (v : View) (d : Digest) (r : List ℕ × Error)
    → r.1 ≢ eof
    → ((e : Error) × ((stored v d r).0 ≡ err e)) × Same v (stored v d r).1
stored_failed v d (b, eof) bad = absurd (bad refl)
stored_failed v d (b, status c m) bad = ((_, refl), λ d'. refl)
stored_failed v d (b, violation c m t u) bad = ((_, refl), λ d'. refl)
stored_failed v d (b, other m) bad = ((_, refl), λ o. refl)

is_none_iff : (value : Option (List ℕ)) → (is_none value ≡ true) ↔ (value ≡ none)
is_none_iff none = (λ h. refl, λ h. refl)
is_none_iff (some blob) = (λ h. absurd (cc), λ h. absurd (cc))

pub memory-IsStore : IsStore memory view NotFound
memory-IsStore = record {
  get = λ v d. got v d (v d) refl;
  get_same = λ v d. get_same v d (v d);
  put = λ v d blob r read. rw read (refl, updated v d (some blob));
  put_failed = λ v d size_bytes r bad. stored_failed v d (drain r) bad;
  delete = λ v d. (refl, updated v d none);
  find_missing = λ v ds. (
    filter (λ d. is_none (v d)) ds,
    refl,
    λ d.
        (let h = Member-filter (λ d. is_none (v d)) d ds in
          (
            λ m. ((h.0 m).0, (is_none_iff (v d)).0 (h.0 m).1),
            λ (m, e). h.1 (m, (is_none_iff (v d)).1 e),
          )),
    λ d. refl,
  );
}
