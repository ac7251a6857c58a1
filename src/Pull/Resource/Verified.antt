-- ===== src/Pull/Resource/Verified.antt =====
-- What a pulled file holds.
use charmstore_client.Base.{
  ◌≡◌, refl, ap, ◌∙◌, ◌⊎◌, inl, inr, ==_true, Bool, false, true, some, none, [], Str, Result, ok,
  err, Error, Reply, ◌==◌, list_eq, nat_eq, if◌then◌else◌,
}
use charmstore_client.Charm.{Url}
use charmstore_client.Pull.Machine.{Machine, IsDisk, file, Keeps}
use charmstore_client.Pull.Images.{Docker}
use charmstore_client.Pull.Resource.{
  PullResourceCommand, channel, target, check_file, close_copied, fill_file, with_reader,
  pull_file_resource,
}

module _ (M : Machine) (D : Docker M.State) (L : IsDisk M) (id_string : Url → Str)
    (c : PullResourceCommand) where
  abbrev pub path : Str
  path = M.abs_path (target M D id_string c)

  -- The state in which the file, created in the state `s` and filled from `r`, is closed.
  abbrev pub closed : M.Reader → M.State → M.State
  closed r s = M.close_file path (M.copy r path (M.create_file path s).1).1

  -- In that state the file cannot be removed.
  abbrev pub Remains : (M.Reader → Type 0) → M.State → Type 0
  Remains IsAnswer s =
      (r : M.Reader) × (e : Error) × IsAnswer r × ((M.remove_file path (closed r s)).0 ≡ err e)

  -- On success the file holds bytes with the hash of the answer; on an error it is gone, or as it
  -- was, or could not be removed.
  abbrev pub Ends : (M.Reader → Type 0) → M.State → Reply → M.State → Type 0
  Ends IsAnswer s x s' =
      ((x ≡ ok tt)
        × ((r : M.Reader) × (d : Str) × IsAnswer r
            × (M.hex_sha384 d ≡ M.expect_hash r)
            × (L.item path s' ≡ some (file d))))
      ⊎ (((e : Error) × (x ≡ err e))
          × ((L.item path s' ≡ none) ⊎ ((L.item path s' ≡ L.item path s) ⊎ Remains IsAnswer s)))

  pub record IsFilePulled (IsAnswer : M.Reader → Type 0) (s : M.State) (y : Reply × M.State)
      : Type 0 where
    pub others : (q : Str) → (q == path) ≡ false → L.item q y.1 ≡ L.item q s
    pub ends : Ends IsAnswer s y.0 y.1

  removed_lem :
      (A : M.Reader → Type 0) (s t u : M.State) (e : Error) (y : Reply)
      → ((q : Str) → (q == path) ≡ false → L.item q t ≡ L.item q s)
      → M.remove_file path t ≡ (y, u)
      → ((x : Error) → y ≡ err x → Remains A s)
      → IsFilePulled A s (err e, u)
  removed_lem A s t u e (ok _) k h left =
      let (gone, others) = L.removed path t u h in
      record { others = λ q n. others q n ∙ k q n; ends = inr ((e, refl), inl gone) }
  removed_lem A s t u e (err x) k h left = record {
    others = λ q n. L.not_removed path x t u h q ∙ k q n;
    ends = inr ((e, refl), inr (inr (left x refl)));
  }

  failed_lem :
      (A : M.Reader → Type 0) (s t : M.State) (e : Error)
      → Keeps M L.item s t
      → IsFilePulled A s (err e, t)
  failed_lem A s t e k = record { others = λ q n. k q; ends = inr ((e, refl), inr (inl (k path))) }

  if-IsFilePulled :
      (b : Bool) (A : M.Reader → Type 0) (s : M.State) (y z : Reply × M.State)
      → (b ≡ true → IsFilePulled A s y)
      → IsFilePulled A s z
      → IsFilePulled A s (if b then y else z)
  if-IsFilePulled true A s y z v w = v refl
  if-IsFilePulled false A s y z v w = w

  check_file_lem :
      (A : M.Reader → Type 0) (r : M.Reader) (s t u : M.State) (y : Result Error Str)
      → A r
      → ((q : Str) → (q == path) ≡ false → L.item q t ≡ L.item q s)
      → L.item path t ≡ some (file [])
      → M.copy r path t ≡ (y, u)
      → closed r s ≡ M.close_file path u
      → IsFilePulled A s
          (check_file M D id_string c r path (close_copied M D id_string c path (y, u)))
  unfolding check_file
  check_file_lem A r s t u (err e) a k f h tied =
      removed_lem A s (M.close_file path u) _ _ (M.remove_file path (M.close_file path u)).0
        (λ q n. L.file_closed path u q ∙ L.not_copied r path e t u h q n ∙ k q n) refl
        (λ x g. (r, x, a, ap (λ v. (M.remove_file path v).0) tied ∙ g))
  check_file_lem A r s t u (ok d) a k f h tied =
      let (there, others) = L.copied r path d t u f h in
      let same : (q : Str) → (q == path) ≡ false → L.item q (M.close_file path u) ≡ L.item q s =
        λ q n. L.file_closed path u q ∙ others q n ∙ k q n in
      if-IsFilePulled (M.hex_sha384 d == M.expect_hash r) A s _ _
        (λ e. record {
          others = same;
          ends = inl (refl, (r, d, a, ==_true _ _ e, L.file_closed path u path ∙ there));
        })
        (removed_lem A s (M.close_file path u) _ _ (M.remove_file path (M.close_file path u)).0 same
          refl (λ x g. (r, x, a, ap (λ v. (M.remove_file path v).0) tied ∙ g)))

  fill_file_lem :
      (A : M.Reader → Type 0) (r : M.Reader) (s t : M.State) (y : Reply)
      → A r
      → M.create_file path s ≡ (y, t)
      → IsFilePulled A s (fill_file M D id_string c r path (y, t))
  fill_file_lem A r s t (err e) a h = failed_lem A s t _ (L.not_created path e s t h)
  fill_file_lem A r s t (ok _) a h =
      let (empty, others) = L.created path s t h in
      check_file_lem A r s t (M.copy r path t).1 (M.copy r path t).0 a others empty refl
        (ap (λ v. M.close_file path (M.copy r path v.1).1) h)

  -- Closing the body changes no file.
  IsFilePulled-to :
      (A : M.Reader → Type 0) (s t u : M.State) (x : Reply)
      → Keeps M L.item t u
      → IsFilePulled A s (x, t)
      → IsFilePulled A s (x, u)
  IsFilePulled-to A s t u x k v = record {
    others = λ q n. k q ∙ v.others q n;
    ends = elim v.ends [
      | inl (g, (r, d, a, same, there)) ↦ inl (g, (r, d, a, same, k path ∙ there))
      | inr (g, w) ↦ inr (
        g,
        elim w [
          | inl gone ↦ inl (k path ∙ gone)
          | inr (inl kept) ↦ inr (inl (k path ∙ kept))
          | inr (inr left) ↦ inr (inr left)
        ],
      )
    ];
  }

  with_reader_lem :
      (A : M.Reader → Type 0) (s : M.State) (y : Result Error M.Reader)
      → ((r : M.Reader) → y ≡ ok r → A r)
      → IsFilePulled A s (with_reader M D id_string c y s)
  with_reader_lem A s (err e) a = failed_lem A s s _ (λ q. refl)
  with_reader_lem A s (ok r) a =
      IsFilePulled-to A s _ _ _ (L.reader_closed r _)
        (fill_file_lem A r s (M.create_file path s).1 (M.create_file path s).0 (a r refl) refl)

  -- Pulling a file resource touches no file but the one it is asked for. When it returns no error,
  -- this file holds bytes whose hash is the one in the answer of the store; when it returns an error,
  -- the file is gone, or as it was before, or the machine refuses to remove it in the state in which
  -- it was closed behind the copy.
  pub pull_file_resource-IsFilePulled :
      (id : Url) (s : M.State)
      → IsFilePulled
          (λ r.
            M.get_resource (channel M D id_string c) id c.resource_name c.resource_revision s
            ≡ ok r)
          s
          (pull_file_resource M D id_string c id s)
  unfolding pull_file_resource
  pull_file_resource-IsFilePulled id s = with_reader_lem _ s _ (λ r h. h)
