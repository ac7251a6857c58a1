-- ===== src/Ingest/Run/Complete.antt =====
-- What a run without errors has done, over a destination that keeps what it is sent: the parts of a
-- run and what they leave.
pub mod Phases
pub mod Requests
pub mod Rest
pub mod Same
pub mod Done
use charmstore_client.Base.{
  ℕ, ℤ, Option, Bool, true, false, ◌≡◌, refl, ◌∙◌, List, [], ◌∷◌, ◌++◌, Str, Result, ok, err, Error,
  not_found, arith, list_eq, nat_eq,
}
use charmstore_client.Base.Dict
use charmstore_client.Base.Dict.{Dict}
use charmstore_client.Charm.{Url}
use charmstore_client.Ingest.Entity.{Env, EntityInfo, BaseEntity}
use charmstore_client.Ingest.Client.{Client, World, Upload, Permission, errorf, request}

module _ (D : Client) (env : Env) where
  -- The store has an archive of this size and hash under the id.
  abbrev pub Holds : Url → ℕ → Str → D.State → Type 0
  Holds id size hash s =
      (d : EntityInfo) × (D.entity_info env.no_channel id s ≡ ok d)
      × (d.archive_size ≡ size)
      × (d.hash ≡ hash)

  -- The store shows that the entity has been published in the channel, where another revision may be
  -- current by now.
  abbrev pub Released : Url → Str → D.State → Type 0
  Released id ch s =
      (d : EntityInfo) × (D.entity_info env.no_channel id s ≡ ok d)
      × (Dict.has ch d.channels ≡ true)

  -- What stays in a store.
  pub data Fact : Type 0 where
    archived : Url → ℕ → Str → Fact
    released : Url → Str → Fact

  abbrev pub Is : Fact → D.State → Type 0
  Is (archived id size hash) s = Holds id size hash s
  Is (released id ch) s = Released id ch s

  abbrev pub Keeps : D.State → D.State → Type 0
  Keeps s s' = (f : Fact) → Is f s → Is f s'

  -- What the documentation of a charm store promises: an archive that it has accepted is there, an
  -- entity whose release it has accepted is published, and no request takes an archive away, changes
  -- one that is there, or undoes a release.
  pub record IsStore : Type 0 where
    pub stored :
        (id : Url) (u : Upload) (s s' : D.State)
        → D.put_archive id u s ≡ (ok tt, s')
        → Holds id u.size u.hash s'
    pub published :
        (id : Url) (ch : Str) (r : Dict Str ℤ) (s s' : D.State)
        → D.publish id (ch ∷ []) r s ≡ (ok tt, s')
        → Released id ch s'
    pub archive_kept :
        (id : Url) (u : Upload) (s : D.State)
        → D.entity_info env.no_channel id s ≡ err not_found
        → Keeps s (D.put_archive id u s).1
    pub extra_info_kept :
        (id : Url) (f : Dict Str (Option Str)) (s : D.State) → Keeps s (D.put_extra_info id f s).1
    pub perm_kept :
        (id : Url) (ch : Str) (p : Permission) (s : D.State) → Keeps s (D.set_perm id ch p s).1
    pub publish_kept :
        (id : Url) (chs : List Str) (r : Dict Str ℤ) (s : D.State)
        → Keeps s (D.publish id chs r s).1
    pub resource_kept :
        (id : Url) (name : Str) (rev : ℤ) (content : Str) (s : D.State)
        → Keeps s (D.put_resource id name rev content s).1

  pub record Sound (w w' : World D) : Type 0 where
    pub clean : w'.errors ≡ [] → w.errors ≡ []
    pub keeps : Keeps w.dest w'.dest

  pub Sound-refl : (w : World D) → Sound w w
  Sound-refl w = record { clean = λ h. h; keeps = λ f h. h }

  pub Sound-trans : {w w1 w2 : World D} → Sound w w1 → Sound w1 w2 → Sound w w2
  Sound-trans a b = record {
    clean = λ h. a.clean (b.clean h);
    keeps = λ f h. b.keeps f (a.keeps f h);
  }

  pub not_clean : {Q : Type 0} (e : Error) (w : World D) → (errorf e w).errors ≡ [] → Q
  not_clean e w h = absurd (go w.errors h)
    where
      go : (l : List Error) → l ++ e ∷ [] ≡ [] → ⊥
      go [] h = ground arith
      go (_ ∷ _) h = ground arith

  pub errorf-Sound : (e : Error) (w : World D) → Sound w (errorf e w)
  errorf-Sound e w = record { clean = λ h. not_clean e w h; keeps = λ f h. h }

  -- Something holds of each entity, in a state of the destination.
  abbrev pub AllIn : (EntityInfo → D.State → Type 0) → Dict Str EntityInfo → D.State → Type 0
  AllIn Q [] s = Unit
  AllIn Q ((_, e) ∷ entities) s = Q e s × AllIn Q entities s

  abbrev pub AllEntities : (EntityInfo → D.State → Type 0) → Dict Str BaseEntity → D.State → Type 0
  AllEntities Q [] s = Unit
  AllEntities Q ((_, base) ∷ bases) s = AllIn Q base.entities s × AllEntities Q bases s

  -- An entity with some channels has been published in those in which it is current.
  abbrev pub AllReleased : Url → Dict Str Bool → D.State → Type 0
  AllReleased id [] s = Unit
  AllReleased id ((ch, true) ∷ channels) s = Released id ch s × AllReleased id channels s
  AllReleased id ((ch, false) ∷ channels) s = AllReleased id channels s

  pub AllReleased-stable :
      (id : Url) (channels : Dict Str Bool) (s s' : D.State)
      → Keeps s s'
      → AllReleased id channels s
      → AllReleased id channels s'
  AllReleased-stable id [] s s' k a = tt
  AllReleased-stable id ((ch, true) ∷ channels) s s' k (r, a) =
      (k (released id ch) r, AllReleased-stable id channels s s' k a)
  AllReleased-stable id ((ch, false) ∷ channels) s s' k a = AllReleased-stable id channels s s' k a

  abbrev pub IsStable : (EntityInfo → D.State → Type 0) → Type 0
  IsStable Q = (e : EntityInfo) (s s' : D.State) → Keeps s s' → Q e s → Q e s'
