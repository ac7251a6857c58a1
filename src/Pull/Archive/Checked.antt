-- ===== src/Pull/Archive/Checked.antt =====
-- The part of pullCommand between the copy of the archive and its removal.
use charmstore_client.Base.{
  ◌≡◌, ◌≢◌, refl, sym, ◌∙◌, ◌⊎◌, inl, inr, ==_true, subst, Bool, Bool-cases, false, true, some, [],
  Str, Result, ok, err, Error, Reply, ◌==◌, int_eq, list_eq, nat_eq, arith, if◌then◌else◌,
}
use charmstore_client.Charm.{Url}
use charmstore_client.Pull.Machine.{Machine, IsDisk, file, directory, Keeps}
use charmstore_client.Pull.Archive.{
  PullCommand, channel_for, dest, announced, expand, read_archive, check_archive,
}

module _ (M : Machine) (L : IsDisk M) (id_string : Url → Str) (c : PullCommand) (s0 : M.State) where
  -- In the state `s0` the store gives an archive and its id, and a temporary file is made. These
  -- bytes are copied to it, and have the hash that the store has announced.
  pub record Trusted (d : Str) (id : Url) : Type 0 where
    pub reader : M.Reader
    pub path : Str
    pub before : M.State
    pub after : M.State
    pub got : M.get_archive (channel_for c.id c.channel) c.id s0 ≡ ok (reader, id)
    pub made : M.temp_file s0 ≡ (ok path, before)
    pub copied : M.copy reader path before ≡ (ok d, after)
    pub hash : M.hex_sha384 d ≡ M.expect_hash reader

  -- The entity was read from the temporary file, which holds these bytes, by the series of the id,
  -- and stands in the destination.
  abbrev pub Pulled : M.State → Type 0
  Pulled s' =
      (d : Str) × (id : Url) × (a : M.Entity) × (w : Trusted d id) × (L.item w.path w.after
        ≡ some (file d))
      × (read_archive M id_string c id w.path w.after ≡ ok a)
      × (L.item (dest M id_string c) s' ≡ some (directory a))

  abbrev pub Expanded : Str → Type 0
  Expanded q = (L.within (dest M id_string c) q ≡ true) × (d : Str) × (id : Url) × Trusted d id

  -- Behind the copy of the archive to the file at `path`.
  pub record IsChecked (path : Str) (s : M.State) (y : Reply × M.State) : Type 0 where
    pub kept : (q : Str) → (q == path) ≡ false → (L.item q y.1 ≡ L.item q s) ⊎ Expanded q
    pub pulled : y.0 ≡ ok tt → Pulled y.1 × ((dest M id_string c == path) ≡ false)

  other_path :
      (d path : Str) (s : M.State)
      → L.item path s ≡ some (file d)
      → ((b : Str) → L.item (dest M id_string c) s ≢ some (file b))
      → (dest M id_string c == path) ≡ false
  other_path d path s f n = elim (Bool-cases (dest M id_string c == path)) [
    | inr other ↦ other
    | inl same ↦
        absurd (n d (subst (λ p. L.item p s ≡ some (file d)) (sym (==_true _ path same)) f))
  ]

  -- Only what is in the destination changes.
  expand-kept :
      (d : Str) (id : Url) (a : M.Entity) (q : Str) (s t s' : M.State) (x : Reply)
      → Trusted d id
      → M.expand_to a (dest M id_string c) s ≡ (x, t)
      → Keeps M L.item t s'
      → (L.item q s' ≡ L.item q s) ⊎ Expanded q
  expand-kept d id a q s t s' x w h k = elim (Bool-cases (L.within (dest M id_string c) q)) [
    | inl inside ↦ inr (inside, d, id, w)
    | inr outside ↦ inl (
        k q ∙ subst (λ y. L.item q y.1 ≡ L.item q s) h (L.below a (dest M id_string c) q s outside))
  ]

  announced_lem :
      (d : Str) (id : Url) (a : M.Entity) (t : M.State) (x : Reply) (w : Trusted d id)
      → L.item w.path w.after ≡ some (file d)
      → read_archive M id_string c id w.path w.after ≡ ok a
      → M.expand_to a (dest M id_string c) w.after ≡ (x, t)
      → IsChecked w.path w.after (announced M id_string c id (x, t))
  announced_lem d id a t (ok _) w f u h =
      let (there, free) = L.expanded a (dest M id_string c) w.after t h in
      record {
        kept = λ q n. expand-kept d id a q w.after t (M.print_id id t) (ok tt) w h (L.printed id t);
        pulled = λ g. (
          (d, id, a, w, f, u, L.printed id t (dest M id_string c) ∙ there),
          other_path d w.path w.after f free,
        );
      }
  announced_lem d id a t (err e) w f u h = record {
    kept = λ q n. expand-kept d id a q w.after t t (err e) w h (λ p. refl);
    pulled = λ g. ground arith;
  }

  unchanged_lem : (path : Str) (s : M.State) (e : Error) → IsChecked path s (err e, s)
  unchanged_lem path s e = record { kept = λ q n. inl refl; pulled = λ g. ground arith }

  expand_lem :
      (d : Str) (id : Url) (y : Result Error M.Entity) (w : Trusted d id)
      → L.item w.path w.after ≡ some (file d)
      → read_archive M id_string c id w.path w.after ≡ y
      → IsChecked w.path w.after (expand M id_string c id y w.after)
  expand_lem d id (err e) w f u = unchanged_lem w.path w.after _
  expand_lem d id (ok a) w f u =
      let (x, t) = M.expand_to a (dest M id_string c) w.after in announced_lem d id a t x w f u refl

  -- A copy that failed may have left a part in the file.
  pub copied-kept :
      (path : Str) (s t s' : M.State) (x : Reply)
      → ((q : Str) → (q == path) ≡ false → L.item q t ≡ L.item q s)
      → IsChecked path t (x, s')
      → IsChecked path s (x, s')
  copied-kept path s t s' x k v = record {
    kept = λ q n. elim (v.kept q n) [ inl same ↦ inl (same ∙ k q n) | inr w ↦ inr w ];
    pulled = v.pulled;
  }

  if-IsChecked :
      (b : Bool) (path : Str) (s : M.State) (e : Error) (y : Reply × M.State)
      → (b ≡ true → IsChecked path s y)
      → IsChecked path s (if b then y else (err e, s))
  if-IsChecked true path s e y v = v refl
  if-IsChecked false path s e y v = unchanged_lem path s e

  pub check_archive_lem :
      (r : M.Reader) (id : Url) (path : Str) (s t : M.State) (y : Result Error Str)
      → M.get_archive (channel_for c.id c.channel) c.id s0 ≡ ok (r, id)
      → M.temp_file s0 ≡ (ok path, s)
      → L.item path s ≡ some (file [])
      → M.copy r path s ≡ (y, t)
      → IsChecked path s (check_archive M id_string c r id path (y, t))
  unfolding check_archive
  check_archive_lem r id path s t (err e) g m f h =
      copied-kept path s t t _ (L.not_copied r path e s t h) (unchanged_lem path t _)
  check_archive_lem r id path s t (ok d) g m f h =
      let (there, others) = L.copied r path d s t f h in
      copied-kept path s t _ _ others (
        if-IsChecked (M.hex_sha384 d == M.expect_hash r) path t _
          (expand M id_string c id (read_archive M id_string c id path t) t)
          (λ same.
            expand_lem d id _
              (record {
                reader = r;
                path = path;
                before = s;
                after = t;
                got = g;
                made = m;
                copied = h;
                hash = ==_true _ _ same;
              })
              there refl))
