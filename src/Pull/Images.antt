-- ===== src/Pull/Images.antt =====
-- What pullDockerResource of cmd/charm/charmcmd/pullresource.go uses of docker and of the store, on
-- the states of a machine. It is not part of the program.
use charmstore_client.Base.{
  ℤ, ◌≡◌, false, Option, some, none, Str, Result, ok, Error, Reply, ◌==◌, list_eq, nat_eq,
}
use charmstore_client.Charm.{Url}
use charmstore_client.Upload.Docker.{DockerInfo}

pub record Docker (State : Type 0) : Type 1 where
  -- reference.ParseNormalizedNamed
  pub parse_normalized_named : Str → Reply
  pub new_docker_client : Reply
  pub resource_download_info : Str → Url → Str → ℤ → State → Result Error DockerInfo
  -- ImagePull with the name and the login of the answer: the stream of its messages
  pub image_pull : DockerInfo → State → Result Error Str × State
  -- showDockerTransferProgress, which reads the stream to its end, and its closing
  pub show_transfer_progress : Str → State → Reply × State
  pub close_stream : Str → State → State
  pub image_tag : Str → Str → State → Reply × State
  pub image_remove : Str → State → Reply × State

module _ {State : Type 0} (D : Docker State) where
  abbrev pub KeepsOthers : (Str → State → Option Str) → Str → State → State → Type 0
  KeepsOthers image name s s' = (q : Str) → (q == name) ≡ false → image q s' ≡ image q s

  -- `image name s` is the image that has this name locally.
  pub record IsDocker : Type 0 where
    pub image : Str → State → Option Str
    -- A pull whose stream ends without an error has brought the image.
    pub pulled :
        (info : DockerInfo) (stream : Str) (s t t' : State)
        → D.image_pull info s ≡ (ok stream, t)
        → D.show_transfer_progress stream t ≡ (ok tt, t')
        → ((i : Str) × (image info.image_name t' ≡ some i)) × KeepsOthers image info.image_name s t'
    pub tagged :
        (a b : Str) (s s' : State)
        → D.image_tag a b s ≡ (ok tt, s')
        → (image b s' ≡ image a s) × KeepsOthers image b s s'
    pub image_removed :
        (a : Str) (s s' : State)
        → D.image_remove a s ≡ (ok tt, s')
        → (image a s' ≡ none) × KeepsOthers image a s s'
    pub stream_closed : (q stream : Str) (s : State) → image q (D.close_stream stream s) ≡ image q s
