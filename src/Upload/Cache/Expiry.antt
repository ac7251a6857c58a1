-- ===== src/Upload/Cache/Expiry.antt =====
-- What RemoveExpiredEntries removes and what it keeps.
use charmstore_client.Base.{
  subst, sym, ap, ==_true, ℕ, ◌≤◌, ◌≡◌, refl, ◌∙◌, ◌⊎◌, inl, inr, Bool, true, false, Option, none,
  some, List, [], ◌∷◌, Str, if◌then◌else◌, Result, ok, err, Error, Reply, masked,
  is_cache_entry_not_found, arith, ◌==◌, list_eq, nat_eq, Bool-cases, contains,
}
use charmstore_client.Upload.Files.{FileInfo, Files, IsFileSystem}
use charmstore_client.Upload.Cache.{
  UploadIdCache, Entry, Packages, is_expired, is_entry_file, entry_path, read_entry, swept, sweep,
  remove_expired_entries,
}
use charmstore_client.Upload.Cache.Entries.{is_stale, ReadsEntry, read_entry-ReadsEntry}

module _ (F : Files) (L : IsFileSystem F) (P : Packages) (c : UploadIdCache) where
  -- The paths of the files that the loop looks at.
  abbrev pub entry_paths : List FileInfo → List Str
  entry_paths [] = []
  entry_paths (info ∷ infos) =
      let rest = entry_paths infos in
      if is_entry_file info then entry_path F P c info ∷ rest else rest

  abbrev pub is_stale_file : ℕ → Option Str → Bool
  is_stale_file now none = false
  is_stale_file now (some d) = is_stale P c now d

  pub fresh_file :
      (now : ℕ) (o : Option Str) (d : Str) (e : Entry)
      → o ≡ some d
      → P.unmarshal d ≡ ok e
      → is_expired c now e ≡ false
      → is_stale_file now o ≡ false
  fresh_file now o d e w u n =
      subst (λ x. is_stale_file now x ≡ false) (sym w) (rw (is_stale_file, is_stale, u) n)

  -- From `s` to `s'`, the file at `q` stays as it is, or is a stale one of the paths and is removed.
  abbrev pub IsKept : List Str → Str → F.State → F.State → Type 0
  IsKept paths q s s' =
      (L.content q s' ≡ L.content q s)
      ⊎ ((L.content q s' ≡ none)
          × (contains paths q ≡ true)
          × (is_stale_file (F.now s') (L.content q s) ≡ true))

  stale_later :
      (m n : ℕ) (o : Option Str) → m ≤ n → is_stale_file m o ≡ true → is_stale_file n o ≡ true
  stale_later m n none l h = h
  stale_later m n (some d) l h =
      elim (P.unmarshal d)
          as (λ x.
            elim x [ err _ ↦ true | ok e ↦ is_expired c m e ] ≡ true
            → elim x [ err _ ↦ true | ok e ↦ is_expired c n e ] ≡ true) [
              | err _ ↦ λ _. refl
              | ok e ↦ λ k. ground arith
            ]
        h

  fresh_earlier :
      (m n : ℕ) (o : Option Str) → m ≤ n → is_stale_file n o ≡ false → is_stale_file m o ≡ false
  fresh_earlier m n o l h = elim (Bool-cases (is_stale_file m o)) [
    | inl stale ↦ ground (arith, stale_later m n o l stale)
    | inr fresh ↦ fresh
  ]

  pub record IsSwept (paths : List Str) (q : Str) (s : F.State) (r : Reply) (s' : F.State)
      : Type 0 where
    pub kept : IsKept paths q s s'
    pub later : F.now s ≤ F.now s'
    pub cleaned :
        r ≡ ok tt → contains paths q ≡ true → is_stale_file (F.now s) (L.content q s') ≡ false

  first-IsKept :
      (path q : Str) (paths : List Str) (s s1 : F.State) (r : Result Error Entry)
      → ReadsEntry F L P c path s r s1
      → IsKept (path ∷ paths) q s s1
  first-IsKept path q paths s s1 r v = elim (Bool-cases (q == path)) [
    | inr other ↦ inl (v.others q other)
    | inl this ↦
        subst (λ p. IsKept (path ∷ paths) p s s1) (sym (==_true q path this))
          (elim v.this [
            | inl same ↦ inl same
            | inr (gone, (d, was, stale)) ↦ inr (
              gone,
              ground arith,
              stale_later (F.now s) (F.now s1) (L.content path s) v.later
                  (subst (λ o. is_stale_file (F.now s) o ≡ true) (sym was) stale),
            )
          ])
  ]

  IsKept-trans :
      (path q : Str) (paths : List Str) (s s1 s' : F.State)
      → F.now s1 ≤ F.now s'
      → IsKept (path ∷ paths) q s s1
      → IsKept paths q s1 s'
      → IsKept (path ∷ paths) q s s'
  IsKept-trans path q paths s s1 s' l (inl same) (inl same') = inl (same' ∙ same)
  IsKept-trans path q paths s s1 s' l (inl same) (inr (gone, i, stale)) =
      inr (gone, ground arith, subst (λ o. is_stale_file (F.now s') o ≡ true) same stale)
  IsKept-trans path q paths s s1 s' l (inr (gone, i, stale)) w = inr (
    elim w [ inl same ↦ same ∙ gone | inr (gone', _, _) ↦ gone' ],
    i,
    stale_later (F.now s1) (F.now s') (L.content q s) l stale,
  )

  settled :
      (path : Str) (s s1 : F.State) (r : Result Error Entry)
      → ReadsEntry F L P c path s r s1
      → ((e : Error) → r ≡ err e → is_cache_entry_not_found e ≡ true)
      → is_stale_file (F.now s) (L.content path s1) ≡ false
  settled path s s1 (ok e) v h =
      let (same, (d, was, u, n)) = v.entry e refl in
      subst (λ o. is_stale_file (F.now s) o ≡ false) (sym was ∙ ap (L.content path) (sym same))
        (rw (is_stale_file, is_stale, u) n)
  settled path s s1 (err e) v h = ground (arith, v.gone e refl (h e refl))

  IsSwept-step :
      (path q : Str) (paths : List Str) (s s1 s' : F.State) (r : Result Error Entry) (x : Reply)
      → ReadsEntry F L P c path s r s1
      → ((e : Error) → r ≡ err e → is_cache_entry_not_found e ≡ true)
      → IsSwept paths q s1 x s'
      → IsSwept (path ∷ paths) q s x s'
  IsSwept-step path q paths s s1 s' r x v h w = record {
    kept = IsKept-trans path q paths s s1 s' w.later (first-IsKept path q paths s s1 r v) w.kept;
    later = omega (arith, v.later, w.later);
    cleaned = λ g i. elim (Bool-cases (q == path)) [
      | inr other ↦
          fresh_earlier (F.now s) (F.now s1) (L.content q s') v.later (w.cleaned g (ground arith))
      | inl this ↦ elim w.kept [
        | inr (gone, _, _) ↦ ground arith
        | inl same ↦
            subst (λ o. is_stale_file (F.now s) o ≡ false)
              (ap (λ p. L.content p s1) (sym (==_true q path this)) ∙ sym same)
              (settled path s s1 r v h)
      ]
    ];
  }

  stopped_lem :
      (path q : Str) (paths : List Str) (s s1 : F.State) (r : Result Error Entry) (x : Error)
      → ReadsEntry F L P c path s r s1
      → IsSwept (path ∷ paths) q s (err x) s1
  stopped_lem path q paths s s1 r x v = record {
    kept = first-IsKept path q paths s s1 r v;
    later = v.later;
    cleaned = λ g i. ground arith;
  }

  swept_lem :
      (path q : Str) (paths : List Str) (s s1 : F.State) (r : Result Error Entry)
      (rest : F.State → Reply × F.State)
      → ReadsEntry F L P c path s r s1
      → IsSwept paths q s1 (rest s1).0 (rest s1).1
      → IsSwept (path ∷ paths) q s (swept F P c (r, s1) rest).0 (swept F P c (r, s1) rest).1
  swept_lem path q paths s s1 (ok e) rest v w =
      IsSwept-step path q paths s s1 (rest s1).1 (ok e) (rest s1).0 v (λ e' h. ground arith) w
  swept_lem path q paths s s1 (err e) rest v w = elim (Bool-cases (is_cache_entry_not_found e)) [
    | inl y ↦ ground (
      arith,
      IsSwept-step path q paths s s1 (rest s1).1 (err e) (rest s1).0 v (λ e' h. ground arith) w,
    )
    | inr n ↦ ground (arith, stopped_lem path q paths s s1 (err e) (masked e) v)
  ]

  by_kind :
      (b : Bool) (path q : Str) (paths : List Str) (s : F.State) (x y : Reply × F.State)
      → IsSwept (path ∷ paths) q s x.0 x.1
      → IsSwept paths q s y.0 y.1
      → IsSwept
          (if b then path ∷ paths else paths)
          q
          s
          (elim b as (λ _. Reply × F.State) [ true ↦ x | false ↦ y ]).0
          (elim b as (λ _. Reply × F.State) [ true ↦ x | false ↦ y ]).1
  by_kind true path q paths s x y v w = v
  by_kind false path q paths s x y v w = w

  sweep-IsSwept :
      (infos : List FileInfo) (q : Str) (s : F.State)
      → IsSwept (entry_paths infos) q s (sweep F P c infos s).0 (sweep F P c infos s).1
  unfolding sweep
  sweep-IsSwept [] q s = record {
    kept = inl refl;
    later = omega arith;
    cleaned = λ _ h. ground arith;
  }
  sweep-IsSwept (info ∷ infos) q s =
      let path = entry_path F P c info in
      let x = read_entry F P c path s in
      by_kind (is_entry_file info) path q (entry_paths infos) s (swept F P c x (sweep F P c infos))
        (sweep F P c infos s)
        (swept_lem path q (entry_paths infos) s x.1 x.0 (sweep F P c infos)
          (read_entry-ReadsEntry F L P c path s) (sweep-IsSwept infos q x.1))
        (sweep-IsSwept infos q s)

  -- Where the directory of the cache can be read, RemoveExpiredEntries leaves every file as it is but
  -- those of its entry files that are corrupt or have expired, whether it fails or not; and when
  -- it returns no error, no such file is left.
  pub remove_expired_entries-IsSwept :
      (infos : List FileInfo) (q : Str) (s : F.State)
      → F.read_dir c.dir s ≡ ok infos
      → IsSwept
          (entry_paths infos)
          q
          s
          (remove_expired_entries F P c s).0
          (remove_expired_entries F P c s).1
  unfolding remove_expired_entries
  remove_expired_entries-IsSwept infos q s h =
      rw (remove_expired_entries, h) (sweep-IsSwept infos q s)
