-- ===== src/Ingest/Trace.antt =====
-- A charm store that keeps a log of the requests that change it, and what a part of a run adds.
use charmstore_client.Base.{
  ℤ, ◌≡◌, refl, ◌∙◌, sym, ap, List, [], ◌∷◌, ◌++◌, Str, list_eq, nat_eq, All, All-append,
  append_assoc, append-nil, Error,
}
use charmstore_client.Charm.{Url}
use charmstore_client.Ingest.Client.{Client, World, Reply, errorf, request}

pub data Call : Type 0 where
  put_archive put_extra_info : Url → Call
  publish : Url → List Str → Call
  set_perm : Url → Str → Call
  put_resource : Url → Str → ℤ → Call

-- `D` with a log behind its state
abbrev pub logged : {S : Type 0} → Call → (S → Reply × S) → S × List Call → Reply × (S × List Call)
logged c f (s, log) = let (r, s') = f s in (r, (s', log ++ c ∷ []))

abbrev pub traced : Client → Client
traced D = record {
  State = D.State × List Call;
  entity_info = λ ch id s. D.entity_info ch id s.0;
  get_base_entity = λ id s. D.get_base_entity id s.0;
  put_archive = λ id u. logged (put_archive id) (D.put_archive id u);
  put_extra_info = λ id x. logged (put_extra_info id) (D.put_extra_info id x);
  set_perm = λ id ch p. logged (set_perm id ch) (D.set_perm id ch p);
  publish = λ id chs r. logged (publish id chs) (D.publish id chs r);
  resource_info = λ id name rev s. D.resource_info id name rev s.0;
  put_resource = λ id name rev x. logged (put_resource id name rev) (D.put_resource id name rev x);
}

module _ (D : Client) where
  abbrev pub log : World (traced D) → List Call
  log w = w.dest.1

  -- From `w` to `w'` only requests that meet `P` are added to the log.
  pub record Extends (P : Call → Type 0) (w w' : World (traced D)) : Type 0 where
    pub added : List Call
    pub grown : log w' ≡ log w ++ added
    pub meets : All P added

module _ (D : Client) {P : Call → Type 0} where
  pub Extends-refl : (w : World (traced D)) → Extends D P w w
  Extends-refl w = record { added = []; grown = sym (append-nil (log D w)); meets = tt }

  pub Extends-errorf :
      (e : Error) {w w' : World (traced D)} → Extends D P w w' → Extends D P w (errorf e w')
  Extends-errorf e x = record { added = x.added; grown = x.grown; meets = x.meets }

  pub Extends-trans :
      {w w1 w2 : World (traced D)} → Extends D P w w1 → Extends D P w1 w2 → Extends D P w w2
  Extends-trans {w} x y = record {
    added = x.added ++ y.added;
    grown = y.grown ∙ ap (λ l. l ++ y.added) x.grown ∙ append_assoc (log D w) x.added y.added;
    meets = All-append P x.added y.added x.meets y.meets;
  }

  -- One request.
  pub Extends-request :
      (c : Call) (f : D.State → Reply × D.State) (w : World (traced D))
      → P c
      → Extends D P w (request (logged c f) w).1
  Extends-request c f w h = record { added = c ∷ []; grown = refl; meets = (h, tt) }
