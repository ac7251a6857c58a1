-- ===== src/Ingest/Resources/Once.antt =====
-- The loop of transferResources of ingest.go, which goes through the resources of the entities.
use charmstore_client.Base.{
  ◌≡◌, refl, ◌∙◌, true, false, not, ◌&&◌, ◌+◌, List, [], ◌∷◌, Str, list_eq, nat_eq, int_eq, pair_eq,
  arith, contains, Distinct, map, Bool-cases, inl, inr, length,
}
use charmstore_client.Base.Dict.{Dict}
use charmstore_client.Ingest.Entity.{Env, BaseEntity}
use charmstore_client.Ingest.Client.{Client, Source, World}
use charmstore_client.Ingest.Resources.{
  Disk, Job, ResourceId, resource_id, transfer_jobs, transfer_resource, transfer_resources, jobs,
}

module _ (D : Client) (src : Source) (env : Env) (d : Disk) where
  abbrev pub id_of : Job → ResourceId
  id_of = resource_id D src env d

  run : List Job → List ResourceId → World D → List ResourceId × World D
  run = transfer_jobs D src env d

  module _ (j : Job) (js : List Job) (done : List ResourceId) (w : World D) where
    run_seen : contains done (id_of j) ≡ true → run (j ∷ js) done w ≡ run js done w
    unfolding run transfer_jobs
    run_seen seen = rw (transfer_jobs, seen)

    run_fresh :
        contains done (id_of j) ≡ false
        → run (j ∷ js) done w ≡ run js (id_of j ∷ done) (transfer_resource D src env d j w)
    unfolding run transfer_jobs
    run_fresh fresh = rw (transfer_jobs, fresh)

  -- transferResource for each of some jobs, in their order
  unfoldable pub transfer_each : List Job → World D → World D
  unfolding transfer_resource
  transfer_each [] w = w
  transfer_each (j ∷ js) w = transfer_each js (transfer_resource D src env d j w)

  -- `r` is what the loop over `js` makes of `done` and `w`.
  record Takes (js : List Job) (done : List ResourceId) (w : World D)
      (r : List ResourceId × World D) : Type 0 where
    picked : List Job
    world : r.1 ≡ transfer_each picked w
    count : length r.0 ≡ length picked + length done
    distinct : Distinct (map id_of picked)
    same :
        (i : ResourceId)
        → contains (map id_of picked) i ≡ (contains (map id_of js) i && not (contains done i))

  run-Takes :
      (js : List Job) (done : List ResourceId) (w : World D) → Takes js done w (run js done w)
  unfolding transfer_each
  run-Takes [] done w =
      unfold run transfer_jobs in
      record { picked = []; world = refl; count = ground arith; distinct = tt; same = λ i. refl }
  run-Takes (j ∷ js) done w = elim (Bool-cases (contains done (id_of j))) [
    | inl seen ↦
        let x = run-Takes js done w in
        rw (run_seen j js done w seen) (record {
          picked = x.picked;
          world = x.world;
          count = x.count;
          distinct = x.distinct;
          same = λ i. x.same i ∙ ground arith;
        })
    | inr fresh ↦
        let x = run-Takes js (id_of j ∷ done) (transfer_resource D src env d j w) in
        rw (run_fresh j js done w fresh) (record {
          picked = j ∷ x.picked;
          world = x.world;
          count = x.count ∙ ground arith;
          distinct = (x.same (id_of j) ∙ ground arith, x.distinct);
          same = λ i. ground (arith, x.same i);
        })
  ]

  -- The run of transferResources does what transferResource does for each of some jobs in turn, and
  -- nothing else. Their resources are distinct; they are exactly the resources of the resolved
  -- entities, by base URL, name and revision; and their number is the count that is returned.
  pub transfer_resources_once :
      (bases : Dict Str BaseEntity) (w : World D)
      → let r = transfer_resources D src env d bases w in
        (picked : List Job) × (r.1 ≡ transfer_each picked w)
        × Distinct (map id_of picked)
        × ((i : ResourceId) → contains (map id_of picked) i ≡ contains (map id_of (jobs bases)) i)
        × (r.0 ≡ length picked)
  unfolding transfer_resources run
  transfer_resources_once bases w =
      let x = run-Takes (jobs bases) [] w in
      (x.picked, x.world, x.distinct, λ i. x.same i ∙ ground arith, x.count ∙ ground arith)
