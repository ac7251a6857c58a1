-- ===== src/Ingest/Run/Complete/Phases.antt =====
-- A phase of a run, for any task.
use charmstore_client.Base.{◌≡◌, refl, Bool, true, false, [], ◌∷◌, Str}
use charmstore_client.Base.Dict.{Dict}
use charmstore_client.Ingest.Entity.{Env, EntityInfo, BaseEntity}
use charmstore_client.Ingest.Client.{Client, World}
use charmstore_client.Ingest.Run.{run_if, each_entity, phase}
use charmstore_client.Ingest.Run.Complete.{
  Sound, Sound-refl, Sound-trans, AllIn, AllEntities, IsStable, Keeps,
}

module _ (D : Client) (env : Env) where
  AllIn-stable :
      (Q : EntityInfo → D.State → Type 0)
      → IsStable D env Q
      → (entities : Dict Str EntityInfo) (s s' : D.State) → Keeps D env s s'
      → AllIn D env Q entities s
      → AllIn D env Q entities s'
  AllIn-stable Q st [] s s' k a = tt
  AllIn-stable Q st ((_, e) ∷ entities) s s' k (q, a) =
      (st e s s' k q, AllIn-stable Q st entities s s' k a)

  pub AllEntities-stable :
      (Q : EntityInfo → D.State → Type 0)
      → IsStable D env Q
      → (bases : Dict Str BaseEntity) (s s' : D.State) → Keeps D env s s'
      → AllEntities D env Q bases s
      → AllEntities D env Q bases s'
  AllEntities-stable Q st [] s s' k a = tt
  AllEntities-stable Q st ((_, base) ∷ bases) s s' k (q, a) =
      (AllIn-stable Q st base.entities s s' k q, AllEntities-stable Q st bases s s' k a)

  module _ (Pre Post : EntityInfo → D.State → Type 0) (pre_stable : IsStable D env Pre)
      (post_stable : IsStable D env Post) (task : EntityInfo → World D → EntityInfo × World D)
      (wanted : EntityInfo → Bool)
      (does : (e : EntityInfo) (w : World D)
        → wanted e ≡ true
        → Sound D env w (task e w).1
          × ((task e w).1.errors ≡ [] → Pre e w.dest → Post (task e w).0 (task e w).1.dest))
      (skips : (e : EntityInfo) (s : D.State) → wanted e ≡ false → Pre e s → Post e s) where
    run_if-Sound :
        (b : Bool) (e : EntityInfo) (w : World D)
        → wanted e ≡ b
        → Sound D env w (run_if task b e w).1
          × ((run_if task b e w).1.errors ≡ []
              → Pre e w.dest
              → Post (run_if task b e w).0 (run_if task b e w).1.dest)
    run_if-Sound true e w h = does e w h
    run_if-Sound false e w h = (Sound-refl D env w, λ _ p. skips e w.dest h p)

    each_entity-Sound :
        (entities : Dict Str EntityInfo) (w : World D)
        → Sound D env w (each_entity task wanted entities w).1
          × ((each_entity task wanted entities w).1.errors ≡ []
              → AllIn D env Pre entities w.dest
              → AllIn D env Post
                  (each_entity task wanted entities w).0
                  (each_entity task wanted entities w).1.dest)
    unfolding each_entity
    each_entity-Sound [] w = (Sound-refl D env w, λ _ _. tt)
    each_entity-Sound ((k, e) ∷ entities) w =
        let (first, result) = run_if-Sound (wanted e) e w refl in
        let (e', w1) = run_if task (wanted e) e w in
        let (rest, results) = each_entity-Sound entities w1 in
        (
          Sound-trans D env first rest,
          λ h (p, a). (
            post_stable e' _ _ rest.keeps (result (rest.clean h) p),
            results h (AllIn-stable Pre pre_stable entities _ _ first.keeps a),
          ),
        )

    -- Where every entity has what the task needs before a phase, and no error was reported by its end,
    -- every entity has what the task gives behind it.
    pub phase-Sound :
        (bases : Dict Str BaseEntity) (w : World D)
        → Sound D env w (phase task wanted bases w).1
          × ((phase task wanted bases w).1.errors ≡ []
              → AllEntities D env Pre bases w.dest
              → AllEntities D env Post
                  (phase task wanted bases w).0
                  (phase task wanted bases w).1.dest)
    unfolding phase
    phase-Sound [] w = (Sound-refl D env w, λ _ _. tt)
    phase-Sound ((k, base) ∷ bases) w =
        let (first, result) = each_entity-Sound base.entities w in
        let (entities, w1) = each_entity task wanted base.entities w in
        let (rest, results) = phase-Sound bases w1 in
        (
          Sound-trans D env first rest,
          λ h (p, a). (
            AllIn-stable Post post_stable entities _ _ rest.keeps (result (rest.clean h) p),
            results h (AllEntities-stable Pre pre_stable bases _ _ first.keeps a),
          ),
        )
