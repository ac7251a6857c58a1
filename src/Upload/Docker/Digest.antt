-- ===== src/Upload/Docker/Digest.antt =====
-- The digest that resource.go sends to the charm store.
use charmstore_client.Base.{
  ℤ, ◌≡◌, note, ap, subst, refl, ◌⊎◌, inr, false, Option, none, some, [], Str, codes, is_empty,
  Result, ok, err, Error, masked, mask, list_eq, nat_eq, ◌>>=◌, arith,
}
use charmstore_client.Charm.{Url}
use charmstore_client.Upload.Docker.{
  Reference, Response, Docker, tag_or_digest, cannot_add, add_external,
  upload_external_docker_resource, authorized, reference_tag_or_digest, manifest_url, verified,
  check_digest, digest_of, head_reference, registry_authorizer, image_digest_for_reference,
  docker_registry_do, registry_endpoint_for_reference,
}

-- What the documentation of TagNameOnly promises: the result has a tag or a digest.
abbrev pub IsTagged : Docker → Type 0
IsTagged D =
    (ref : Reference)
    → (what : Str) × (tag_or_digest (D.tag_name_only ref).tag (D.tag_name_only ref).digest
        ≡ some what)

note_ok :
    (r : Result Error ℤ) (rev : ℤ) → note "cannot add docker resource" [] r ≡ ok rev → r ≡ ok rev
note_ok (ok x) rev h = h
note_ok (err e) rev h = ground arith

module _ (D : Docker) where
  -- What is known of a digest that was found for a reference.
  abbrev pub IsVerified : Reference → Str → Type 0
  IsVerified ref digest =
      (ref.digest ≡ some digest)
      ⊎ ((authorizer : D.Authorizer) × (resp : Response) × (docker_registry_do D
              (manifest_url D ref digest) authorizer
            ≡ ok resp)
          × (resp.status_code ≡ 200)
          × (is_empty digest ≡ false))

  verified_lem :
      (ref : Reference) (a : D.Authorizer) (found digest : Str) (x : Result Error Response)
      → is_empty found ≡ false
      → docker_registry_do D (manifest_url D ref found) a ≡ x
      → (mask x >>= verified D found) ≡ ok digest
      → IsVerified ref digest
  verified_lem ref a found digest (ok resp) n h k =
      let (good, same) : (resp.status_code ≡ 200) × (found ≡ digest) = ground arith in
      inr (
        a,
        resp,
        subst (λ d. docker_registry_do D (manifest_url D ref d) a ≡ ok resp) same h,
        good,
        subst (λ d. is_empty d ≡ false) same n,
      )
  verified_lem ref a found digest (err e) n h k = ground arith

  check_digest_lem :
      (ref : Reference) (a : D.Authorizer) (found digest : Str) (c : Option Str)
      → ref.digest ≡ c
      → is_empty found ≡ false
      → check_digest D ref a found c ≡ ok digest
      → IsVerified ref digest
  check_digest_lem ref a found digest (some canonical) h n k = ground arith
  check_digest_lem ref a found digest none h n k =
      verified_lem ref a found digest (docker_registry_do D (manifest_url D ref found) a) n refl k

  digest_of_lem :
      (ref : Reference) (a : D.Authorizer) (resp : Response) (digest : Str)
      → digest_of D ref a resp ≡ ok digest
      → IsVerified ref digest
  digest_of_lem ref a resp digest k =
      let found = resp.header (codes "Docker-Content-Digest") in
      let (n, checked) : (is_empty found ≡ false)
          × (check_digest D ref a found ref.digest ≡ ok digest) =
        ground arith in
      check_digest_lem ref a found digest ref.digest refl n checked

  head_lem :
      (ref : Reference) (a : D.Authorizer) (digest : Str) (x : Result Error Response)
      → (mask x >>= digest_of D ref a) ≡ ok digest
      → IsVerified ref digest
  head_lem ref a digest (ok resp) k = digest_of_lem ref a resp digest k
  head_lem ref a digest (err e) k = ground arith

  head_reference_lem :
      (ref : Reference) (a : D.Authorizer) (digest : Str) (what : Option Str)
      → head_reference D ref a what ≡ some (ok digest)
      → IsVerified ref digest
  head_reference_lem ref a digest none k = ground arith
  head_reference_lem ref a digest (some what) k =
      head_lem ref a digest (docker_registry_do D (manifest_url D ref what) a) (ground arith)

  authorized_lem :
      (ref : Reference) (digest : Str) (x : Result Error D.Authorizer)
      → authorized D ref x ≡ some (ok digest)
      → IsVerified ref digest
  authorized_lem ref digest (ok a) k =
      head_reference_lem ref a digest (reference_tag_or_digest D ref) k
  authorized_lem ref digest (err e) k = ground arith

  image_digest_for_reference_lem :
      (ref : Reference) (digest : Str)
      → image_digest_for_reference D ref ≡ some (ok digest)
      → IsVerified ref digest
  unfolding image_digest_for_reference
  image_digest_for_reference_lem ref digest k =
      authorized_lem ref digest
        (registry_authorizer D (registry_endpoint_for_reference ref) ref.path) k

  reference_tag_or_digest_lem :
      IsTagged D → (ref : Reference) → (what : Str) × (reference_tag_or_digest D ref ≡ some what)
  unfolding reference_tag_or_digest
  reference_tag_or_digest_lem t ref = t ref

  authorized-some :
      (ref : Reference) (x : Result Error D.Authorizer)
      → IsTagged D
      → (r : Result Error Str) × (authorized D ref x ≡ some r)
  authorized-some ref (ok a) t =
      let (what, h) = reference_tag_or_digest_lem t ref in
      (
        mask (docker_registry_do D (manifest_url D ref what) a) >>= digest_of D ref a,
        ap (head_reference D ref a) h,
      )
  authorized-some ref (err e) t = (err (masked e), refl)

  image_digest_for_reference-some :
      (ref : Reference)
      → IsTagged D
      → (r : Result Error Str) × (image_digest_for_reference D ref ≡ some r)
  unfolding image_digest_for_reference
  image_digest_for_reference-some ref t =
      authorized-some ref (registry_authorizer D (registry_endpoint_for_reference ref) ref.path) t

  added_lem :
      (id : Url) (name : Str) (ref : Reference) (s : D.State) (x : Option (Result Error Str))
      (r : Result Error Str)
      → x ≡ some r
      → ((digest : Str) → x ≡ some (ok digest) → IsVerified ref digest)
      → (answer : Result Error ℤ × D.State) × (add_external D id name ref x s ≡ some answer)
        × ((rev : ℤ)
            → answer.0 ≡ ok rev
            → (digest : Str) × IsVerified ref digest
              × ((D.add_docker_resource id name ref.name digest s).0 ≡ ok rev))
  added_lem id name ref s x (ok digest) h v = (
    cannot_add D (D.add_docker_resource id name ref.name digest s),
    ap (λ y. add_external D id name ref y s) h,
    λ rev k.
        (digest, v digest h, note_ok (D.add_docker_resource id name ref.name digest s).0 rev k),
  )
  added_lem id name ref s x (err e) h v =
      ((err (masked e), s), ap (λ y. add_external D id name ref y s) h, λ rev k. ground arith)

  -- When TagNameOnly gives a tag or a digest, uploading an image from elsewhere does not panic; and a
  -- revision that it answers is that of a resource with the name of the image and with a digest that
  -- is the one in the reference, or one for which the registry has just answered with status 200.
  pub upload_external_docker_resource-IsVerified :
      IsTagged D
      → (id : Url) (name : Str) (ref : Reference) (s : D.State)
      → (answer : Result Error ℤ × D.State) × (upload_external_docker_resource D id name ref s
          ≡ some answer)
        × ((rev : ℤ)
            → answer.0 ≡ ok rev
            → (digest : Str) × IsVerified ref digest
              × ((D.add_docker_resource id name ref.name digest s).0 ≡ ok rev))
  unfolding upload_external_docker_resource
  upload_external_docker_resource-IsVerified t id name ref s =
      let (r, h) = image_digest_for_reference-some ref t in
      added_lem id name ref s (image_digest_for_reference D ref) r h
        (image_digest_for_reference_lem ref)
