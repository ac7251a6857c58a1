-- ===== src/Pull/Resource/Tagged.antt =====
-- What is left in docker of an image that was pulled.
use charmstore_client.Base.{
  ◌≡◌, refl, ◌∙◌, ap, subst, false, some, none, [], ◌∷◌, Str, Result, ok, err, Error, Reply, ◌==◌,
  list_eq, nat_eq, arith, note,
}
use charmstore_client.Charm.{Url}
use charmstore_client.Upload.Docker.{DockerInfo}
use charmstore_client.Pull.Machine.{Machine}
use charmstore_client.Pull.Images.{Docker, IsDocker, KeepsOthers}
use charmstore_client.Pull.Resource.{
  PullResourceCommand, channel, target, noted_remove, image_tagged, image_shown, with_stream_closed,
  image_pulled, with_info, docker_ready, if_ready, pull_docker_resource,
}

module _ (M : Machine) (D : Docker M.State) (L : IsDocker D) (id_string : Url → Str)
    (c : PullResourceCommand) where
  -- The image stands under the name that was asked for, and no more under that of the answer.
  abbrev pub Tagged : DockerInfo → M.State → M.State → Type 0
  Tagged info s s' =
      ((target M D id_string c == info.image_name) ≡ false
        → (i : Str) × (L.image (target M D id_string c) s' ≡ some i))
      × (L.image info.image_name s' ≡ none)
      × ((q : Str)
          → (q == info.image_name) ≡ false
          → (q == target M D id_string c) ≡ false
          → L.image q s' ≡ L.image q s)

  note_ok :
      (name : Str) (x : Reply) → note "cannot remove image %q" (name ∷ []) x ≡ ok tt → x ≡ ok tt
  note_ok name (ok _) h = refl
  note_ok name (err e) h = ground arith

  remove_lem :
      (name : Str) (u v s' : M.State) (x : Reply)
      → D.image_remove name u ≡ (x, v)
      → noted_remove M D id_string c name (x, v) ≡ (ok tt, s')
      → (L.image name s' ≡ none) × KeepsOthers D L.image name u s'
  remove_lem name u v s' (ok _) h g =
      subst (λ w. (L.image name w ≡ none) × KeepsOthers D L.image name u w) (ap (λ y. y.1) g)
        (L.image_removed name u v h)
  remove_lem name u v s' (err e) h g = ground arith

  tagged_lem :
      (info : DockerInfo) (s t u s' : M.State) (x : Reply)
      → ((i : Str) × (L.image info.image_name t ≡ some i))
      → ((q : Str) → (q == info.image_name) ≡ false → L.image q t ≡ L.image q s)
      → D.image_tag info.image_name (target M D id_string c) t ≡ (x, u)
      → image_tagged M D id_string c info.image_name (x, u) ≡ (ok tt, s')
      → Tagged info s s'
  tagged_lem info s t u s' (err e) i k h g = ground arith
  tagged_lem info s t u s' (ok _) (i, there) k h g =
      let (same, others) = L.tagged info.image_name (target M D id_string c) t u h in
      let (x, v) = D.image_remove info.image_name u in
      let (gone, rest) = remove_lem info.image_name u v s' x refl g in
      (λ n. (i, rest _ n ∙ same ∙ there), gone, λ q n m. rest q n ∙ others q m ∙ k q n)

  shown_lem :
      (info : DockerInfo) (stream : Str) (s t u s' : M.State) (x : Reply)
      → D.image_pull info s ≡ (ok stream, t)
      → D.show_transfer_progress stream t ≡ (x, u)
      → image_shown M D id_string c info (x, u) ≡ (ok tt, s')
      → Tagged info s s'
  shown_lem info stream s t u s' (err e) h k g = ground arith
  shown_lem info stream s t u s' (ok _) h k g =
      let (there, others) = L.pulled info stream s t u h k in
      let (x, v) = D.image_tag info.image_name (target M D id_string c) u in
      tagged_lem info s u v s' x there others refl g

  closed_lem :
      (info : DockerInfo) (stream : Str) (s s' : M.State) (y : Reply × M.State)
      → ((t : M.State) → y ≡ (ok tt, t) → Tagged info s t)
      → with_stream_closed M D id_string c stream y ≡ (ok tt, s')
      → Tagged info s s'
  closed_lem info stream s s' (ok _, w) v g =
      let (there, gone, others) = v w refl in
      subst (Tagged info s) (ap (λ z. z.1) g) (
        λ n. let (i, h) = there n in (i, L.stream_closed _ stream w ∙ h),
        L.stream_closed _ stream w ∙ gone,
        λ q n m. L.stream_closed q stream w ∙ others q n m,
      )
  closed_lem info stream s s' (err x, w) v g = ground arith

  image_pulled_lem :
      (info : DockerInfo) (s t s' : M.State) (x : Result Error Str)
      → D.image_pull info s ≡ (x, t)
      → image_pulled M D id_string c info (x, t) ≡ (ok tt, s')
      → Tagged info s s'
  image_pulled_lem info s t s' (err e) h g = ground arith
  image_pulled_lem info s t s' (ok stream) h g =
      let (x, u) = D.show_transfer_progress stream t in
      closed_lem info stream s s' (image_shown M D id_string c info (x, u))
        (λ w e. shown_lem info stream s t u w x h refl e) g

  with_info_lem :
      (s s' : M.State) (y : Result Error DockerInfo)
      → with_info M D id_string c y s ≡ (ok tt, s')
      → (info : DockerInfo) × (y ≡ ok info) × Tagged info s s'
  with_info_lem s s' (err e) g = ground arith
  with_info_lem s s' (ok info) g =
      let (x, t) = D.image_pull info s in (info, refl, image_pulled_lem info s t s' x refl g)

  if_ready_lem :
      (id : Url) (s s' : M.State) (x : Reply)
      → if_ready M D id_string c x id s ≡ (ok tt, s')
      → (info : DockerInfo) × (D.resource_download_info
            (channel M D id_string c)
            id
            c.resource_name
            c.resource_revision
            s
          ≡ ok info)
        × Tagged info s s'
  if_ready_lem id s s' (err e) g = ground arith
  if_ready_lem id s s' (ok _) g = with_info_lem s s' _ g

  -- When pulling a docker resource returns no error, the store has given the name of an image; no
  -- image has this name any more; the name that was asked for, where it is another one, names an image;
  -- and every other name stands for what it stood for before.
  pub pull_docker_resource-Tagged :
      (id : Url) (s s' : M.State)
      → pull_docker_resource M D id_string c id s ≡ (ok tt, s')
      → (info : DockerInfo) × (D.resource_download_info
            (channel M D id_string c)
            id
            c.resource_name
            c.resource_revision
            s
          ≡ ok info)
        × Tagged info s s'
  unfolding pull_docker_resource
  pull_docker_resource-Tagged id s s' g = if_ready_lem id s s' (docker_ready M D id_string c) g
