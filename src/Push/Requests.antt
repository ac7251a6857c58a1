-- ===== src/Push/Requests.antt =====
-- The requests of a push, by a store that keeps a log of them, and what it is to follow a plan.
use charmstore_client.Base.{
  ◌≡◌, List, [], ◌∷◌, ◌++◌, Str, Result, ok, err, Error, Reply, note, String,
}
use charmstore_client.Charm.{Url}
use charmstore_client.Push.{Entity, charm, bundle, Store}
use charmstore_client.Push.Vcs.{VcsRevision}

-- The requests that change the store.
pub data Request : Type 0 where
  entity_uploaded : Url → Entity → Request
  extra_info_put : Url → List VcsRevision → Request
  resource_uploaded : Url → Str → Str → Request

abbrev pub logged : Store → Store
logged S = record {
  State = S.State × List Request;
  who_am_i = λ s. S.who_am_i s.0;
  upload_charm = λ id ch s.
      let (r, t) = S.upload_charm id ch s.0 in (r, (t, s.1 ++ entity_uploaded id (charm ch) ∷ []));
  upload_bundle = λ id b s.
      let (r, t) = S.upload_bundle id b s.0 in (r, (t, s.1 ++ entity_uploaded id (bundle b) ∷ []));
  put_extra_info =
      λ id x s. let (r, t) = S.put_extra_info id x s.0 in (r, (t, s.1 ++ extra_info_put id x ∷ []));
  upload_resource = λ id name ref s.
      let (r, t) = S.upload_resource id name ref s.0 in
      (r, (t, s.1 ++ resource_uploaded id name ref ∷ []));
}

abbrev pub void : {A : Type 0} → Result Error A → Reply
void (ok _) = ok tt
void (err e) = err e

module _ (S : Store) where
  -- The upload of an entity, and what the store makes of it.
  abbrev pub upload : Url → Entity → S.State → Result Error Url × S.State
  upload id (charm ch) s = S.upload_charm id ch s
  upload id (bundle b) s = S.upload_bundle id b s

  abbrev pub answer : Request → S.State → Reply × S.State
  answer (entity_uploaded id e) s = let (r, t) = upload id e s in (void r, t)
  answer (extra_info_put id x) s = S.put_extra_info id x s
  answer (resource_uploaded id name ref) s =
      let (r, t) = S.upload_resource id name ref s in (void r, t)

  -- From a state and a log on, the requests of a plan are made one after the other, each in the state
  -- that the one before it has left, up to the first that fails or to the end. There is an error
  -- exactly if one has failed.
  pub data Follows
      : List Request → S.State × List Request → Reply × (S.State × List Request) → Type 0 where
    finished : {w : S.State × List Request} → Follows [] w (ok tt, w)
    stopped :
        (q : Request) (plan log : List Request) (s t : S.State) (e f : Error)
        → answer q s ≡ (err e, t)
        → Follows (q ∷ plan) (s, log) (err f, (t, log ++ q ∷ []))
    goes_on :
        (q : Request) (plan log : List Request) (s t : S.State)
        (x : Reply × (S.State × List Request))
        → answer q s ≡ (ok tt, t)
        → Follows plan (t, log ++ q ∷ []) x
        → Follows (q ∷ plan) (s, log) x

  pub Follows-note :
      (message : String) {plan : List Request} {w : S.State × List Request}
      {x : Reply × (S.State × List Request)}
      → Follows plan w x
      → Follows plan w (note message [] x.0, x.1)
  Follows-note message finished = finished
  Follows-note message (stopped q plan log s t e f h) = stopped q plan log s t e _ h
  Follows-note message (goes_on q plan log s t x h more) =
      goes_on q plan log s t _ h (Follows-note message more)
