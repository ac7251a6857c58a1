-- ===== src/Push/Order.antt =====
-- The requests of a push, in their order, by a store that keeps a log of them.
use charmstore_client.Base.{
  codes, ◌&&◌, not, new, if◌then◌else◌, ==_true, ◌≡◌, refl, sym, ap, ◌∙◌, ◌⊎◌, inl, inr, true,
  Option, none, some, List, [], ◌∷◌, ◌++◌, Str, is_empty, Result, ok, err, Error, Reply, map,
  contains, list_eq, nat_eq, arith, ℤ, masked, notef,
}
use charmstore_client.Base.Dict
use charmstore_client.Base.Dict.{Dict}
use charmstore_client.Base.Sort.{sort_strings}
use charmstore_client.Charm.{Url}
use charmstore_client.Push.{
  Charm, Entity, charm, bundle, Directory, Store, PushCommand, validate_resources, resource_pushed,
  push_names, push_resources, push_entity_resources, then_resources, update_extra_info, uploaded,
  checked, upload_entity, found, what_to_push, run, reference, unknown_resources, unknown_error,
}
use charmstore_client.Push.Vcs.{VcsRevision}
use charmstore_client.Push.Requests.{
  Request, entity_uploaded, extra_info_put, resource_uploaded, logged, void, upload, answer,
  Follows, finished, stopped, goes_on, Follows-note,
}

contains-unknown_resources :
    (resources : Dict Str Str) (meta : List Str) (name : Str)
    → contains (unknown_resources resources meta) name
      ≡ (contains (Dict.keys resources) name && not (contains meta name))
unfolding unknown_resources
contains-unknown_resources [] meta name = refl
contains-unknown_resources ((n, _) ∷ resources) meta name =
    ground (arith, contains-unknown_resources resources meta name, ==_true name n)

unknown_error_lem : (l : List Str) → unknown_error l ≡ ok tt → l ≡ []
unknown_error_lem [] h = refl
unknown_error_lem (_ ∷ []) h = ground arith
unknown_error_lem (_ ∷ _ ∷ _) h = ground arith

validate_resources_lem :
    (resources : Dict Str Str) (meta : List Str)
    → validate_resources resources meta ≡ ok tt
    → (name : Str) → contains (Dict.keys resources) name ≡ true
    → contains meta name ≡ true
unfolding validate_resources
validate_resources_lem resources meta h name k =
    let nothing = unknown_error_lem (unknown_resources resources meta) h in
    let no_name = contains-unknown_resources resources meta name in
    let false_eq = sym (ap (λ l. contains l name) nothing) ∙ no_name in ground arith

module _ (S : Store) (library_parse : Str → Result Error Url) (c : PushCommand)
    (d : Directory) where
  abbrev pub resource_requests : Url → List Str → List Request
  resource_requests id =
      map (λ name. resource_uploaded id name (reference (logged S) library_parse c d name))

  resource_pushed-Follows :
      (r : Result Error ℤ) (q : Request) (plan log : List Request) (s t : S.State)
      (rest : S.State × List Request → Reply × (S.State × List Request))
      → answer S q s ≡ (void r, t)
      → Follows S plan (t, log ++ q ∷ []) (rest (t, log ++ q ∷ []))
      → Follows S
          (q ∷ plan)
          (s, log)
          (resource_pushed (logged S) library_parse c d (r, (t, log ++ q ∷ [])) rest)
  resource_pushed-Follows (ok _) q plan log s t rest h f = goes_on q plan log s t _ h f
  resource_pushed-Follows (err e) q plan log s t rest h f =
      stopped q plan log s t e (masked (masked e)) h

  push_names-Follows :
      (id : Url) (names : List Str) (s : S.State) (log : List Request)
      → Follows S
          (resource_requests id names)
          (s, log)
          (push_names (logged S) library_parse c d id names (s, log))
  unfolding push_names
  push_names-Follows id [] s log = finished
  push_names-Follows id (name ∷ names) s log =
      let ref = reference (logged S) library_parse c d name in
      let q = resource_uploaded id name ref in
      let (r, t) = S.upload_resource id name ref s in
      resource_pushed-Follows r q (resource_requests id names) log s t
        (push_names (logged S) library_parse c d id names) refl
        (push_names-Follows id names t (log ++ q ∷ []))

  -- The requests behind the upload: a bundle has no resources.
  abbrev pub resource_plan : Entity → Url → List Request
  resource_plan (charm _) id = resource_requests id (sort_strings (Dict.keys c.resources))
  resource_plan (bundle _) id = []

  abbrev pub extra_info_plan : Url → Option (List VcsRevision) → List Request
  extra_info_plan id none = []
  extra_info_plan id (some revisions) = extra_info_put id revisions ∷ []

  push_entity_resources-Follows :
      (e : Entity) (id : Url) (s : S.State) (log : List Request)
      → Follows S
          (resource_plan e id)
          (s, log)
          (push_entity_resources (logged S) library_parse c d e id (s, log))
  unfolding push_resources
  push_entity_resources-Follows (bundle b) id s log = finished
  push_entity_resources-Follows (charm ch) id s log =
      Follows-note S "cannot push charm resources"
        (push_names-Follows id (sort_strings (Dict.keys c.resources)) s log)

  put-Follows :
      (e : Entity) (id : Url) (revisions : List VcsRevision) (r : Reply) (s t : S.State)
      (log : List Request)
      → S.put_extra_info id revisions s ≡ (r, t)
      → Follows S
          (extra_info_put id revisions ∷ resource_plan e id)
          (s, log)
          (then_resources
            (logged S)
            library_parse
            c
            d
            e
            id
            (r, (t, log ++ extra_info_put id revisions ∷ [])))
  put-Follows e id revisions (ok _) s t log h =
      let q = extra_info_put id revisions in
      goes_on q (resource_plan e id) log s t _ h
        (push_entity_resources-Follows e id t (log ++ q ∷ []))
  put-Follows e id revisions (err x) s t log h =
      stopped (extra_info_put id revisions) (resource_plan e id) log s t x
        (notef x "cannot add extra information" []) h

  then_resources-Follows :
      (e : Entity) (id : Url) (x : Option (List VcsRevision)) (s : S.State) (log : List Request)
      → Follows S
          (extra_info_plan id x ++ resource_plan e id)
          (s, log)
          (then_resources
            (logged S)
            library_parse
            c
            d
            e
            id
            (update_extra_info (logged S) library_parse c d id x (s, log)))
  then_resources-Follows e id none s log = push_entity_resources-Follows e id s log
  then_resources-Follows e id (some revisions) s log =
      let (r, t) = S.put_extra_info id revisions s in put-Follows e id revisions r s t log refl

  -- What is done under the id that the store has answered.
  abbrev pub plan : Entity → Url → List Request
  plan e answered = extra_info_plan answered d.extra_info ++ resource_plan e answered

  -- The entity is uploaded in the state `s`. Where the store refuses it, that is all, and there is an
  -- error; where the store answers an id, the plan for that id is followed.
  abbrev pub Uploads :
      Url
      → Entity
      → S.State
      → Result Error Url
      → S.State
      → Reply × (S.State × List Request)
      → Type 0
  Uploads id e s (ok answered) t x = Follows S (plan e answered) (t, entity_uploaded id e ∷ []) x
  Uploads id e s (err _) t x =
      (x.1 ≡ (t, entity_uploaded id e ∷ [])) × ((f : Error) × (x.0 ≡ err f))

  uploaded-Uploads :
      (id : Url) (e : Entity) (s : S.State) (r : Result Error Url) (t : S.State)
      → Uploads id e s r t
          (uploaded (logged S) library_parse c d e (r, (t, entity_uploaded id e ∷ [])))
  uploaded-Uploads id e s (ok answered) t =
      then_resources-Follows e answered d.extra_info t (entity_uploaded id e ∷ [])
  uploaded-Uploads id e s (err x) t = (refl, (masked x, refl))

  -- A bundle is uploaded with the series "bundle".
  abbrev pub uploaded_id : Entity → Url → Url
  uploaded_id (charm _) id = id
  uploaded_id (bundle _) id = record id { series = codes "bundle" }

  -- The resources of the flags are in the metadata of the charm; a bundle has none.
  abbrev pub IsAccepted : Entity → Type 0
  IsAccepted (charm ch) =
      (name : Str)
      → contains (Dict.keys c.resources) name ≡ true
      → contains ch.meta_resources name ≡ true
  IsAccepted (bundle _) = c.resources ≡ []

  -- Nothing is sent, and there is an error.
  abbrev pub Refuses : S.State → Reply × (S.State × List Request) → Type 0
  Refuses s x = (x.1 ≡ (s, [])) × ((e : Error) × (x.0 ≡ err e))

  -- How the upload of an entity goes.
  abbrev pub Pushes : Url → Entity → S.State → Reply × (S.State × List Request) → Type 0
  Pushes id e s x =
      (IsAccepted e
        × (let (r, t) = upload S (uploaded_id e id) e s in Uploads (uploaded_id e id) e s r t x))
      ⊎ Refuses s x

  checked-Pushes :
      (id : Url) (ch : Charm) (s : S.State) (x : Reply)
      → validate_resources c.resources ch.meta_resources ≡ x
      → Pushes id (charm ch) s (
          checked
            (logged S)
            library_parse
            c
            d
            x
            (λ s.
              uploaded (logged S) library_parse c d (charm ch) ((logged S).upload_charm id ch s))
            (s, []))
  checked-Pushes id ch s (ok _) h =
      let (r, t) = S.upload_charm id ch s in
      inl (
        validate_resources_lem c.resources ch.meta_resources h,
        uploaded-Uploads id (charm ch) s r t,
      )
  checked-Pushes id ch s (err e) h = inr (refl, (masked e, refl))

  bundle-Pushes :
      (id : Url) (b : Str) (s : S.State) (l : Dict Str Str)
      → c.resources ≡ l
      → Pushes id (bundle b) s (
          if is_empty l
          then uploaded
              (logged S)
              library_parse
              c
              d
              (bundle b)
              ((logged S).upload_bundle (record id { series = codes "bundle" }) b (s, []))
          else (err (new "resources not supported on bundles"), (s, [])))
  bundle-Pushes id b s [] h =
      let id' = record id { series = codes "bundle" } in
      let (r, t) = S.upload_bundle id' b s in inl (h, uploaded-Uploads id' (bundle b) s r t)
  bundle-Pushes id b s (_ ∷ _) h = inr (refl, (new "resources not supported on bundles", refl))

  upload_entity-Pushes :
      (id : Url) (e : Entity) (s : S.State)
      → Pushes id e s (upload_entity (logged S) library_parse c d id e (s, []))
  unfolding upload_entity
  upload_entity-Pushes id (charm ch) s =
      checked-Pushes id ch s (validate_resources c.resources ch.meta_resources) refl
  upload_entity-Pushes id (bundle b) s = bundle-Pushes id b s c.resources refl

  found-Pushes :
      (x : Result Error (Url × Entity)) (s : S.State)
      → ((id : Url) × (e : Entity) × (x ≡ ok (id, e))
          × Pushes id e s (found (logged S) library_parse c d x (s, [])))
        ⊎ Refuses s (found (logged S) library_parse c d x (s, []))
  found-Pushes (ok (id, e)) s = inl (id, e, refl, upload_entity-Pushes id e s)
  found-Pushes (err x) s = inr (refl, (x, refl))

  -- A push either sends nothing and fails, or it has found an entity whose resources are accepted:
  -- those of a charm are all in its metadata, and a bundle has none. Then it uploads the entity. If
  -- the store refuses it, nothing else is sent, and there is an error. Otherwise it puts the extra
  -- information, if there is any, and uploads the resources of a charm in the order of their names,
  -- under the URL that the store has answered to the upload; it stops at the first request that the
  -- store refuses, with an error, and without one it has made all of them.
  pub run-Pushes :
      (s : S.State)
      → ((id : Url) × (e : Entity) × (what_to_push S library_parse c d s ≡ ok (id, e))
          × Pushes id e s (run (logged S) library_parse c d (s, [])))
        ⊎ Refuses s (run (logged S) library_parse c d (s, []))
  unfolding run what_to_push
  run-Pushes s = found-Pushes (what_to_push S library_parse c d s) s
