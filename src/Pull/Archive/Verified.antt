-- ===== src/Pull/Archive/Verified.antt =====
-- What `charm pull` leaves on the disk.
use charmstore_client.Base.{
  ◌≡◌, refl, sym, ◌∙◌, ◌⊎◌, inl, inr, ==_true, subst, Bool, Bool-cases, false, true, none, Str,
  Result, ok, err, Error, Reply, ◌==◌, int_eq, list_eq, nat_eq, arith, if◌then◌else◌,
}
use charmstore_client.Charm.{Url}
use charmstore_client.Pull.Machine.{Machine, IsDisk, Keeps}
use charmstore_client.Pull.Archive.{
  PullCommand, channel_for, dest, discard, download, with_archive, with_client, check_archive,
  is_free, run,
}
use charmstore_client.Pull.Archive.Checked.{
  Pulled, Expanded, IsChecked, copied-kept, check_archive_lem,
}

module _ (M : Machine) (L : IsDisk M) (id_string : Url → Str) (c : PullCommand) (s0 : M.State) where
  -- This is the temporary file that is made in the state `s0` for the archive that the store gives
  -- there, and in the state behind the check of the archive it cannot be removed.
  abbrev pub Left : Str → Type 0
  Left q =
      (e : Error) × (r : M.Reader) × (id : Url) × (t : M.State) × (M.get_archive
          (channel_for c.id c.channel) c.id s0
        ≡ ok (r, id))
      × (M.temp_file s0 ≡ (ok q, t))
      × ((M.remove_file q (check_archive M id_string c r id q (M.copy r q t)).1).0 ≡ err e)

  pub record IsPulled (s : M.State) (y : Reply × M.State) : Type 0 where
    pub kept : (q : Str) → (L.item q y.1 ≡ L.item q s) ⊎ (Expanded M L id_string c s0 q ⊎ Left q)
    pub pulled : y.0 ≡ ok tt → Pulled M L id_string c s0 y.1

  -- The file is removed at the end, or stays when that fails.
  discard-kept :
      (path : Str) (s t : M.State) (x y : Reply) (u : M.State)
      → L.item path s ≡ none
      → IsChecked M L id_string c s0 path s (x, t)
      → M.remove_file path t ≡ (y, u)
      → ((e : Error) → y ≡ err e → Left path)
      → (q : Str)
      → (L.item q (M.close_file path u) ≡ L.item q s) ⊎ (Expanded M L id_string c s0 q ⊎ Left q)
  discard-kept path s t x (ok _) u fresh v h left q =
      let (gone, others) = L.removed path t u h in
      elim (Bool-cases (q == path)) [
        | inl same ↦ inl (
            subst (λ p. L.item p (M.close_file path u) ≡ L.item p s) (sym (==_true _ _ same))
              (L.file_closed path u path ∙ gone ∙ sym fresh))
        | inr other ↦ elim (v.kept q other) [
          | inl kept ↦ inl (L.file_closed path u q ∙ others q other ∙ kept)
          | inr inside ↦ inr (inl inside)
        ]
      ]
  discard-kept path s t x (err e) u fresh v h left q = elim (Bool-cases (q == path)) [
    | inl same ↦ inr (inr (subst Left (sym (==_true _ _ same)) (left e refl)))
    | inr other ↦ elim (v.kept q other) [
      | inl kept ↦ inl (L.file_closed path u q ∙ L.not_removed path e t u h q ∙ kept)
      | inr inside ↦ inr (inl inside)
    ]
  ]

  -- The removal of the temporary file does not touch the destination.
  discard-there :
      (path : Str) (t u : M.State) (y : Reply)
      → Pulled M L id_string c s0 t × ((dest M id_string c == path) ≡ false)
      → M.remove_file path t ≡ (y, u)
      → Pulled M L id_string c s0 (M.close_file path u)
  discard-there path t u (ok _) ((d, id, a, w, f, g, there), n) h =
      (d, id, a, w, f, g, L.file_closed path u _ ∙ (L.removed path t u h).1 _ n ∙ there)
  discard-there path t u (err e) ((d, id, a, w, f, g, there), n) h =
      (d, id, a, w, f, g, L.file_closed path u _ ∙ L.not_removed path e t u h _ ∙ there)

  discard_lem :
      (path : Str) (s t : M.State) (x : Reply)
      → L.item path s ≡ none
      → IsChecked M L id_string c s0 path s (x, t)
      → ((e : Error) → (M.remove_file path t).0 ≡ err e → Left path)
      → IsPulled s (discard M id_string c path (x, t))
  discard_lem path s t x fresh v left =
      let (y, u) = M.remove_file path t in
      record {
        kept = discard-kept path s t x y u fresh v refl left;
        pulled = λ g. discard-there path t u y (v.pulled g) refl;
      }

  failed_lem : (s t : M.State) (e : Error) → Keeps M L.item s t → IsPulled s (err e, t)
  failed_lem s t e k = record { kept = λ q. inl (k q); pulled = λ g. ground arith }

  -- From a state where everything stands that stood at first.
  IsPulled-from :
      (s t s' : M.State) (x : Reply) → Keeps M L.item s t → IsPulled t (x, s') → IsPulled s (x, s')
  IsPulled-from s t s' x k v = record {
    kept = λ q. elim (v.kept q) [ inl same ↦ inl (same ∙ k q) | inr w ↦ inr w ];
    pulled = v.pulled;
  }

  -- To a state where everything stands that stands before it.
  IsPulled-to :
      (s t s' : M.State) (x : Reply) → Keeps M L.item t s' → IsPulled s (x, t) → IsPulled s (x, s')
  IsPulled-to s t s' x k v = record {
    kept = λ q. elim (v.kept q) [ inl same ↦ inl (k q ∙ same) | inr w ↦ inr w ];
    pulled = λ g.
        let (d, id, a, w, f, r, there) = v.pulled g in
        (d, id, a, w, f, r, k (dest M id_string c) ∙ there);
  }

  download_lem :
      (r : M.Reader) (id : Url) (t : M.State) (y : Result Error Str)
      → M.get_archive (channel_for c.id c.channel) c.id s0 ≡ ok (r, id)
      → M.temp_file s0 ≡ (y, t)
      → IsPulled s0 (download M id_string c r id (y, t))
  unfolding download
  download_lem r id t (err e) g h = failed_lem s0 t _ (L.temp_failed e s0 t h)
  download_lem r id t (ok path) g h =
      let (fresh, (there, others)) = L.temp_made path s0 t h in
      let (y, u) = M.copy r path t in
      discard_lem path s0 _ _ fresh
        (copied-kept M L id_string c s0 path s0 t _ _ others
          (check_archive_lem M L id_string c s0 r id path t u y g h there refl))
        (λ e left. (e, r, id, t, g, h, left))

  with_archive_lem :
      (y : Result Error (M.Reader × Url))
      → M.get_archive (channel_for c.id c.channel) c.id s0 ≡ y
      → IsPulled s0 (with_archive M id_string c y s0)
  with_archive_lem (err e) h = failed_lem s0 s0 e (λ q. refl)
  with_archive_lem (ok (r, id)) h =
      let (y, t) = M.temp_file s0 in
      IsPulled-to s0 _ _ _ (L.reader_closed r _) (download_lem r id t y h refl)

  with_client_lem :
      (s : M.State) (y : Reply)
      → Keeps M L.item s s0
      → IsPulled s (with_client M id_string c (y, s0))
  with_client_lem s (err e) k = failed_lem s s0 _ k
  with_client_lem s (ok _) k =
      IsPulled-from s s0 _ _ k (IsPulled-to s0 _ _ _ (L.jar_saved _) (with_archive_lem _ refl))

  if-IsPulled :
      (b : Bool) (s : M.State) (e : Error) (y : Reply × M.State)
      → IsPulled s y
      → IsPulled s (if b then y else (err e, s)) × (b ≡ false → (if b then y else (err e, s)).1 ≡ s)
  if-IsPulled true s e y v = (v, λ n. ground arith)
  if-IsPulled false s e y v = (failed_lem s s e (λ q. refl), λ n. refl)

module _ (M : Machine) (L : IsDisk M) (id_string : Url → Str) (c : PullCommand) where
  -- The state behind the making of the client
  abbrev pub connected : M.State → M.State
  connected s = (M.new_client (channel_for c.id c.channel) s).1

  -- Whatever `charm pull` returns, everything on the disk is as it was, but for two things. What is
  -- in the destination changes only when the bytes that were copied from the answer of the store
  -- have the hash that the store announced with it. The temporary file of this run stays only if
  -- the machine refuses to remove it in the state behind the check of the archive. When no error is
  -- returned, the entity that was read from the temporary file with these bytes, as a bundle or as a
  -- charm by the series of the id that the store gave, stands in the destination. When anything is
  -- known to be there before, nothing is done at all.
  pub run-IsPulled :
      (s : M.State)
      → IsPulled M L id_string c (connected s) s (run M id_string c s)
        × (is_free (M.stat (dest M id_string c) s) ≡ false → (run M id_string c s).1 ≡ s)
  unfolding run
  run-IsPulled s =
      let channel = channel_for c.id c.channel in
      if-IsPulled M L id_string c (connected s) (is_free (M.stat (dest M id_string c) s)) s _
        (with_client M id_string c (M.new_client channel s))
        (with_client_lem M L id_string c (connected s) s (M.new_client channel s).0
          (L.client_made channel s))
