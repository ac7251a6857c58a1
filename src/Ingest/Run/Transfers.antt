-- ===== src/Ingest/Run/Transfers.antt =====
-- The requests of the first phase of a run, charm by charm.
use charmstore_client.Base.{
  ◌≡◌, refl, ◌∙◌, Bool, true, false, List, [], ◌∷◌, ◌++◌, Str, All, ◌⊎◌, inl, inr, append_assoc,
  append-nil, if◌then◌else◌,
}
use charmstore_client.Base.Dict.{Dict}
use charmstore_client.Charm.{Url}
use charmstore_client.Ingest.Entity.{Env, EntityInfo, BaseEntity}
use charmstore_client.Ingest.Client.{Client, Source, World}
use charmstore_client.Ingest.Trace.{Call, traced, log, Extends}
use charmstore_client.Ingest.Transfer.{transfer_entity}
use charmstore_client.Ingest.Run.{run_if, each_entity, phase, is_charm}
use charmstore_client.Ingest.Run.Calls.{IsUpload, IsUpdate, transfer_entity-OneTransfer}

-- The charms, in the order in which the loops of a phase come to them
abbrev pub charms_of : Dict Str EntityInfo → List EntityInfo
charms_of [] = []
charms_of ((_, e) ∷ entities) = if is_charm e then e ∷ charms_of entities else charms_of entities

abbrev pub charms : Dict Str BaseEntity → List EntityInfo
charms [] = []
charms ((_, base) ∷ bases) = charms_of base.entities ++ charms bases

-- The requests for one charm: its upload, or its update with its releases, but never both
abbrev OneTransfer : Url → List Call → Type 0
OneTransfer id calls = All (IsUpload id) calls ⊎ All (IsUpdate id) calls

-- The requests for some charms, those of each behind those of the one before
pub data Transfers : List EntityInfo → List Call → Type 0 where
  nothing : Transfers [] []
  next :
      (e : EntityInfo) (calls : List Call) {es : List EntityInfo} {rest : List Call}
      → OneTransfer e.id calls
      → Transfers es rest
      → Transfers (e ∷ es) (calls ++ rest)

Transfers-append :
    {es fs : List EntityInfo} {l m : List Call}
    → Transfers es l
    → Transfers fs m
    → Transfers (es ++ fs) (l ++ m)
Transfers-append nothing u = u
Transfers-append (next e calls one t) u = rw append_assoc (next e calls one (Transfers-append t u))

module _ (D : Client) where
  pub record Grows (es : List EntityInfo) (w w' : World (traced D)) : Type 0 where
    pub added : List Call
    pub grown : log D w' ≡ log D w ++ added
    pub each : Transfers es added

  Grows-refl : (w : World (traced D)) → Grows [] w w
  Grows-refl w = record { added = []; grown = rw append-nil; each = nothing }

  Grows-trans :
      {es fs : List EntityInfo} {w w1 w2 : World (traced D)}
      → Grows es w w1
      → Grows fs w1 w2
      → Grows (es ++ fs) w w2
  Grows-trans x y = record {
    added = x.added ++ y.added;
    grown = y.grown ∙ rw x.grown (simp append_assoc);
    each = Transfers-append x.each y.each;
  }

  one-Grows :
      (e : EntityInfo) (w w' : World (traced D))
      → (Extends D (IsUpload e.id) w w' ⊎ Extends D (IsUpdate e.id) w w')
      → Grows (e ∷ []) w w'
  one-Grows e w w' (inl x) = record {
    added = x.added ++ [];
    grown = rw append-nil x.grown;
    each = next e x.added (inl x.meets) nothing;
  }
  one-Grows e w w' (inr x) = record {
    added = x.added ++ [];
    grown = rw append-nil x.grown;
    each = next e x.added (inr x.meets) nothing;
  }

  module _ (src : Source) (env : Env) where
    run_if-Grows :
        (b : Bool) (e : EntityInfo) (w : World (traced D))
        → Grows (if b then e ∷ [] else []) w (run_if (transfer_entity (traced D) src env) b e w).1
    run_if-Grows true e w = one-Grows e w _ (transfer_entity-OneTransfer D src env e w)
    run_if-Grows false e w = Grows-refl w

    chosen :
        (b : Bool) (e : EntityInfo) (es : List EntityInfo)
        → ((if b then e ∷ [] else []) ++ es) ≡ (if b then e ∷ es else es)
    chosen true e es = refl
    chosen false e es = refl

    each_entity-Grows :
        (entities : Dict Str EntityInfo) (w : World (traced D))
        → Grows
            (charms_of entities)
            w
            (each_entity (transfer_entity (traced D) src env) is_charm entities w).1
    unfolding each_entity
    each_entity-Grows [] w = Grows-refl w
    each_entity-Grows ((k, e) ∷ entities) w =
        rw (← chosen (is_charm e) e (charms_of entities))
          (Grows-trans (run_if-Grows (is_charm e) e w) (each_entity-Grows entities _))

    pub phase-Grows :
        (bases : Dict Str BaseEntity) (w : World (traced D))
        → Grows (charms bases) w (phase (transfer_entity (traced D) src env) is_charm bases w).1
    unfolding phase
    phase-Grows [] w = Grows-refl w
    phase-Grows ((k, base) ∷ bases) w =
        Grows-trans (each_entity-Grows base.entities w) (phase-Grows bases _)
