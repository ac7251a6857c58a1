-- ===== src/Upload/Cache/Meets.antt =====
-- The calls of UploadIdCache one by one, against its specification.
use charmstore_client.Base.{
  ℕ, ◌≤◌, ◌≡◌, refl, ap, subst, sym, ◌∙◌, Bool-cases, ==_true, inl, inr, Bool, true, false, Option,
  none, some, List, [], Str, Result, ok, err, Error, Reply, not_exist, arith, ◌==◌, list_eq, nat_eq,
  if◌then◌else◌,
}
use charmstore_client.Charm.{Url}
use charmstore_client.Upload.Files.{FileInfo, Files, IsFileSystem}
use charmstore_client.Upload.Cache.{
  UploadIdCache, Entry, Packages, is_expired, filename, new_entry, masked_reply, marshalled,
  with_dir, removed_reply, listed, remove_expired_entries,
}
use charmstore_client.Upload.Cache.Entries.{is_stale, ReadsEntry}
use charmstore_client.Upload.Cache.Expiry.{is_stale_file, remove_expired_entries-IsSwept}
use charmstore_client.Upload.Cache.Laws.{IsMarshal}
use charmstore_client.Upload.Cache.Spec.{
  Call, store, find, forget, expire, Answer, done, found, Map, IsSame, is_dead, Clears, Allowed,
}

module _ (F : Files) (L : IsFileSystem F) (P : Packages) (c : UploadIdCache) (M : IsMarshal P) where
  -- What a file says.
  abbrev pub decode : Option Str → Option Entry
  decode none = none
  decode (some d) = elim (P.unmarshal d) [ ok e ↦ some e | err _ ↦ none ]

  abbrev pub entries : F.State → Map
  entries s p = decode (L.content p s)

  abbrev pub Meets : Call → Answer → F.State → F.State → Type 0
  Meets k a s s' =
      Allowed c (filename F P c) (new_entry F P c) k a (F.now s) (F.now s') (entries s) (entries s')
      × (F.now s ≤ F.now s')

  decode_ok : (d : Str) (e : Entry) → P.unmarshal d ≡ ok e → decode (some d) ≡ some e
  decode_ok d e h = rw (decode, h) refl

  decode-if :
      (b : Bool) (d : Str) (e : Entry) (o : Option Str)
      → P.unmarshal d ≡ ok e
      → decode (if b then some d else o) ≡ (if b then some e else decode o)
  decode-if true d e o h = decode_ok d e h
  decode-if false d e o h = refl

  decode-if_none :
      (b : Bool) (o : Option Str) → decode (if b then none else o) ≡ (if b then none else decode o)
  decode-if_none true o = refl
  decode-if_none false o = refl

  stale-is_dead :
      (now : ℕ) (d : Str)
      → is_stale P c now d ≡ true
      → is_dead c (filename F P c) (new_entry F P c) now (decode (some d)) ≡ true
  stale-is_dead now d h =
      elim (P.unmarshal d)
          as (λ x.
            elim x [ err _ ↦ true | ok e ↦ is_expired c now e ] ≡ true
            → is_dead c (filename F P c) (new_entry F P c) now
                (elim x as (λ _. Option Entry) [ ok e ↦ some e | err _ ↦ none ])
              ≡ true) [ err _ ↦ λ _. refl | ok e ↦ λ k. k ]
        h

  pub same_lem :
      (s s' : F.State)
      → ((q : Str) → L.content q s' ≡ L.content q s)
      → IsSame (entries s) (entries s')
  same_lem s s' k q = ap decode (k q)

  abbrev IsDead : ℕ → Option Str → Type 0
  IsDead now o = is_dead c (filename F P c) (new_entry F P c) now (decode o) ≡ true

  pub find_lem :
      (curl : Url) (name hash : Str) (s s' : F.State) (r : Result Error Entry)
      → ReadsEntry F L P c (filename F P c curl name hash) s r s'
      → Meets (find curl name hash) (found r) s s'
  find_lem curl name hash s s' (ok e) v =
      let (same, (d, was, u, n)) = v.entry e refl in
      ((ap decode was ∙ decode_ok d e u, n, λ q. ap (λ t. decode (L.content q t)) same), v.later)
  find_lem curl name hash s s' (err e) v =
      let path = filename F P c curl name hash in
      let clears : Clears c (filename F P c) (new_entry F P c) (F.now s) (entries s path)
          (entries s' path) =
        elim v.this [
          | inl same ↦ inl (ap decode same)
          | inr (gone, (d, was, stale)) ↦
              inr (
                ap decode gone,
                subst (IsDead (F.now s)) (sym was) (stale-is_dead (F.now s) d stale),
              )
        ] in
      (
        (
          λ g. elim clears [
            | inl same ↦
                subst (λ o. is_dead c (filename F P c) (new_entry F P c) (F.now s) o ≡ true)
                  (ap decode (sym (v.gone e refl g)) ∙ same) refl
            | inr (_, dead) ↦ dead
          ],
          λ q n. ap decode (v.others q n),
          clears,
        ),
        v.later,
      )

  module _ (u : Str) (curl : Url) (name hash : Str) where
    abbrev path : Str
    path = filename F P c curl name hash

    abbrev made : F.State → Entry
    made t = new_entry F P c u curl name hash (F.now t)

    written_lem :
        (d : Str) (s t v : F.State) (x : Reply)
        → P.unmarshal d ≡ ok (made t)
        → ((q : Str) → (L.content q t ≡ L.content q s) × (F.now s ≤ F.now t))
        → F.write_file path d t ≡ (x, v)
        → Meets
            (store u curl name hash)
            (done (masked_reply F P c (x, v)).0)
            s
            (masked_reply F P c (x, v)).1
    written_lem d s t v (ok _) m k h =
        let later = (L.written path [] d t v h).1 in
        (
          (
            F.now t,
            (k []).1,
            later,
            λ q.
                ap decode (L.written path q d t v h).0
                ∙ decode-if (q == path) d (made t) _ m
                ∙ ap (λ o. if q == path then some (made t) else o) (ap decode (k q).0),
          ),
          omega (arith, (k []).1),
        )
    written_lem d s t v (err e) m k h =
        let later = (L.not_written path [] d t v e h).1 in
        (λ q. ap decode ((L.not_written path q d t v e h).0 ∙ (k q).0), omega (arith, (k []).1))

    marshalled_lem :
        (s t : F.State) (x : Result Error Str)
        → ((q : Str) → (L.content q t ≡ L.content q s) × (F.now s ≤ F.now t))
        → P.marshal (made t) ≡ x
        → Meets
            (store u curl name hash)
            (done (marshalled F P c path x t).0)
            s
            (marshalled F P c path x t).1
    marshalled_lem s t (err e) k h = (λ q. ap decode (k q).0, (k []).1)
    marshalled_lem s t (ok d) k h =
        written_lem d s t (F.write_file path d t).1 (F.write_file path d t).0 (M (made t) d h) k
          refl

    pub with_dir_lem :
        (s t : F.State) (x : Reply)
        → F.make_dirs c.dir s ≡ (x, t)
        → Meets
            (store u curl name hash)
            (done (with_dir F P c u curl name hash (x, t)).0)
            s
            (with_dir F P c u curl name hash (x, t)).1
    with_dir_lem s t (err e) h =
        (λ q. ap decode (L.made c.dir q s t (err e) h).0, (L.made c.dir [] s t (err e) h).1)
    with_dir_lem s t (ok _) h =
        marshalled_lem s t (P.marshal (made t)) (λ q. L.made c.dir q s t (ok tt) h) refl

  absent_lem :
      (q path : Str) (s : F.State)
      → L.content path s ≡ none
      → entries s q ≡ (if q == path then none else entries s q)
  absent_lem q path s h = elim (Bool-cases (q == path)) [
    | inr other ↦ rw other refl
    | inl same ↦
        rw same (ap decode (subst (λ p. L.content p s ≡ none) (sym (==_true q path same)) h))
  ]

  pub forget_lem :
      (curl : Url) (name hash : Str) (s t : F.State) (x : Reply)
      → F.remove_file (filename F P c curl name hash) s ≡ (x, t)
      → Meets
          (forget curl name hash)
          (done (removed_reply F P c (x, t)).0)
          s
          (removed_reply F P c (x, t)).1
  forget_lem curl name hash s t (ok _) h =
      let path = filename F P c curl name hash in
      (
        λ q. ap decode (L.removed path q s t h).0 ∙ decode-if_none (q == path) (L.content q s),
        (L.removed path [] s t h).1,
      )
  forget_lem curl name hash s t (err not_exist) h =
      let path = filename F P c curl name hash in
      (
        λ q.
            ap decode (L.not_removed path q s t not_exist h).0
            ∙ absent_lem q path s (L.none_removed path s t h),
        (L.not_removed path [] s t not_exist h).1,
      )
  forget_lem curl name hash s t (err e) h =
      let path = filename F P c curl name hash in
      (λ q. ap decode (L.not_removed path q s t e h).0, (L.not_removed path [] s t e h).1)

  stale_file-IsDead : (now : ℕ) (o : Option Str) → is_stale_file F L P c now o ≡ true → IsDead now o
  stale_file-IsDead now none h = refl
  stale_file-IsDead now (some d) h = stale-is_dead now d h

  expire_err :
      (s : F.State) (e : Error)
      → Meets expire (done (listed F P c (err e) s).0) s (listed F P c (err e) s).1
  expire_err s not_exist = (λ q. inl refl, omega arith)
  expire_err s e = (λ q. inl refl, omega arith)

  pub expire_lem :
      (s : F.State) (x : Result Error (List FileInfo))
      → F.read_dir c.dir s ≡ x
      → Meets expire (done (remove_expired_entries F P c s).0) s (remove_expired_entries F P c s).1
  unfolding remove_expired_entries
  expire_lem s (err e) h =
      subst (λ y. Meets expire (done (listed F P c y s).0) s (listed F P c y s).1) (sym h)
        (expire_err s e)
  expire_lem s (ok infos) h =
      let swept = λ (q : Str). remove_expired_entries-IsSwept F L P c infos q s h in
      (
        λ q. elim (swept q).kept [
          | inl same ↦ inl (ap decode same)
          | inr (gone, _, stale) ↦ inr (
            ap decode gone,
            stale_file-IsDead (F.now (remove_expired_entries F P c s).1) (L.content q s) stale,
          )
        ],
        (swept []).later,
      )
