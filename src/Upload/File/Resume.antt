-- ===== src/Upload/File/Resume.antt =====
-- The upload of a file in resource.go and the cache of upload ids, after an interruption and at the end.
use charmstore_client.Base.{
  ℕ, ℤ, ◌≡◌, ◌≢◌, refl, ap, ◌∙◌, ◌⊎◌, inl, inr, some, List, Str, Result, Reply, ok, err, Error,
  list_eq, nat_eq, upload_not_found,
}
use charmstore_client.Upload.Files.{Files, IsFileSystem}
use charmstore_client.Upload.Cache.{Entry, Packages, filename, lookup, remove}
use charmstore_client.Upload.Cache.Laws.{lookup-remove}
use charmstore_client.Upload.File.{
  Uploads, UploadResourceParams, cache, send, start_all, restarted, finished,
}

reply_cases : (r : Reply) → (r ≡ ok tt) ⊎ ((e : Error) × (r ≡ err e))
reply_cases (ok _) = inl refl
reply_cases (err e) = inr (e, refl)

module _ (F : Files) (L : IsFileSystem F) (P : Packages) (U : Uploads) (abs_path : Str → Str)
    (p : UploadResourceParams) where
  sent_again :
      (hash u path : Str) (size : ℕ) (s : F.State) (srv srv1 srv2 : U.State) (ids ids' : List Str)
      (rev : ℤ)
      → U.resume_upload_resource u p.charm_id p.resource_name path size srv
        ≡ ((err upload_not_found, ids), srv1)
      → U.upload_resource p.charm_id p.resource_name path size srv1 ≡ ((ok rev, ids'), srv2)
      → send F P U abs_path p (some hash) u path size (s, srv) ≡ (
        ok rev,
        (
          (remove F P (cache F P U abs_path p) p.charm_id p.resource_name hash (
              start_all F P U abs_path p
                (some hash)
                ids'
                (start_all F P U abs_path p (some hash) ids s))).1,
          srv2,
        ),
      )
  unfolding send
  sent_again hash u path size s srv srv1 srv2 ids ids' rev h k =
      ap
        (λ x.
          finished F P U abs_path p (some hash)
            (restarted F P U abs_path p (some hash) path size x s))
        h
      ∙ ap
          (λ (x : (Result Error ℤ × List Str) × U.State). finished F P U abs_path p (some hash) (
            x.0.0,
            (
              start_all F P U abs_path p (some hash) x.0.1
                  (start_all F P U abs_path p (some hash) ids s),
              x.1,
            ),
          ))
          k

  -- Where the store no longer knows the upload id, the upload starts again, and its answer is that of
  -- the new request; where that is a revision, the entry is removed from the cache: unless Remove
  -- failed, Lookup finds none.
  pub send_forgotten :
      (hash u path : Str) (size : ℕ) (s : F.State) (srv srv1 srv2 : U.State) (ids ids' : List Str)
      (rev : ℤ)
      → U.resume_upload_resource u p.charm_id p.resource_name path size srv
        ≡ ((err upload_not_found, ids), srv1)
      → U.upload_resource p.charm_id p.resource_name path size srv1 ≡ ((ok rev, ids'), srv2)
      → ((send F P U abs_path p (some hash) u path size (s, srv)).0 ≡ ok rev)
        × ((send F P U abs_path p (some hash) u path size (s, srv)).1.1 ≡ srv2)
        × (((e : Entry)
              → (lookup F P
                  (cache F P U abs_path p)
                  p.charm_id
                  p.resource_name
                  hash
                  (send F P U abs_path p (some hash) u path size (s, srv)).1.0).0
                ≢ ok e)
            ⊎ ((e : Error) × ((remove F P (cache F P U abs_path p) p.charm_id p.resource_name hash (
                    start_all F P U abs_path p
                      (some hash)
                      ids'
                      (start_all F P U abs_path p (some hash) ids s))).0
                  ≡ err e)))
  send_forgotten hash u path size s srv srv1 srv2 ids ids' rev h k =
      let c = cache F P U abs_path p in
      let sent = sent_again hash u path size s srv srv1 srv2 ids ids' rev h k in
      let t =
        start_all F P U abs_path p (some hash) ids'
          (start_all F P U abs_path p (some hash) ids s) in
      let cleaned = remove F P c p.charm_id p.resource_name hash t in
      (
        ap (λ x. x.0) sent,
        ap (λ x. x.1.1) sent,
        elim (reply_cases cleaned.0) [
          | inl done ↦ inl (
              lookup-remove F L P c p.resource_name hash p.charm_id t cleaned.1
                (send F P U abs_path p (some hash) u path size (s, srv)).1.0
                (ap (λ r. (r, cleaned.1)) done)
                (ap (λ x. L.content (filename F P c p.charm_id p.resource_name hash) x.1.0) sent))
          | inr (e, failed) ↦ inr (e, failed)
        ],
      )
