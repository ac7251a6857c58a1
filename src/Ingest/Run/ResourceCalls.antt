-- ===== src/Ingest/Run/ResourceCalls.antt =====
-- What requests the transfer of resources adds to the log.
use charmstore_client.Base.{
  ℕ, refl, Bool, true, false, List, [], ◌∷◌, Str, ◌==◌, list_eq, nat_eq, Error, Result, ok, err,
  is_not_found, if◌then◌else◌, int_eq, pair_eq, contains,
}
use charmstore_client.Ingest.Entity.{Env}
use charmstore_client.Ingest.Client.{Client, Source, Reader, World, Reply, request}
use charmstore_client.Ingest.Trace.{
  put_resource, traced, Extends, Extends-refl, Extends-errorf, Extends-trans,
}
use charmstore_client.Ingest.Resources.{
  Disk, Job, ResourceId, resource_id, report_put, copy_file, after_copy, send_content, get_disk,
  close_file, with_file, with_resource, with_answer, transfer_resource, transfer_jobs,
}
use charmstore_client.Ingest.Run.Calls.{IsPutResource}

module _ (D : Client) (src : Source) (env : Env) (d : Disk) where
  abbrev pub Puts : World (traced D) → World (traced D) → Type 0
  Puts = Extends D IsPutResource

  report_put-Puts :
      (j : Job) (r : Reply) (w w' : World (traced D))
      → Puts w w'
      → Puts w (report_put (traced D) src env d j (r, w'))
  report_put-Puts j (ok _) w w' x = x
  report_put-Puts j (err e) w w' x = Extends-errorf D _ x

  if-Puts :
      (b : Bool) (w x y : World (traced D)) → Puts w x → Puts w y → Puts w (if b then x else y)
  if-Puts true w x y h k = h
  if-Puts false w x y h k = k

  after_copy-Puts :
      (j : Job) (content : Str) (size : ℕ) (r : Result Error ℕ) (w : World (traced D))
      → Puts w (after_copy (traced D) src env d j content size r w)
  after_copy-Puts j content size (err e) w = Extends-errorf D _ (Extends-refl D w)
  after_copy-Puts j content size (ok n) w =
      let put = request ((traced D).put_resource j.entity_id j.name j.rev content) w in
      if-Puts (n == size) w _ _
        (report_put-Puts j put.0 w put.1 (record {
          added = put_resource j.entity_id j.name j.rev ∷ [];
          grown = refl;
          meets = (tt, tt);
        }))
        (Extends-errorf D _ (Extends-refl D w))

  send_content-Puts :
      (j : Job) (reader : Reader) (size : ℕ) (w : World (traced D))
      → Puts w (send_content (traced D) src env d j reader size w)
  unfolding send_content
  send_content-Puts j reader size w = after_copy-Puts j reader.0 size (copy_file d j reader size) w

  close_file-Puts :
      (r : Result Error (Unit {0})) (w w' : World (traced D))
      → Puts w w'
      → Puts w (close_file (traced D) src env d r w')
  close_file-Puts (ok _) w w' x = x
  close_file-Puts (err e) w w' x = Extends-errorf D _ x

  with_file-Puts :
      (j : Job) (reader : Reader) (size : ℕ) (r : Result Error (Unit {0})) (w : World (traced D))
      → Puts w (with_file (traced D) src env d j reader size r w)
  with_file-Puts j reader size (ok _) w =
      close_file-Puts (d.remove_file j) w _ (send_content-Puts j reader size w)
  with_file-Puts j reader size (err e) w = Extends-errorf D _ (Extends-refl D w)

  with_resource-Puts :
      (j : Job) (r : Result Error (Reader × ℕ)) (w : World (traced D))
      → Puts w (with_resource (traced D) src env d j r w)
  with_resource-Puts j (ok (reader, size)) w = with_file-Puts j reader size (get_disk d j size) w
  with_resource-Puts j (err e) w = Extends-errorf D _ (Extends-refl D w)

  with_answer-Puts :
      (j : Job) (r : Result Error (Unit {0})) (w : World (traced D))
      → Puts w (with_answer (traced D) src env d j r w)
  with_answer-Puts j (ok _) w = Extends-refl D w
  with_answer-Puts j (err e) w =
      if-Puts (is_not_found e) w _ _
        (with_resource-Puts j (src.get_resource j.entity_id j.name j.rev) w)
        (Extends-errorf D _ (Extends-refl D w))

  pub transfer_jobs-Puts :
      (js : List Job) (done : List ResourceId) (w : World (traced D))
      → Puts w (transfer_jobs (traced D) src env d js done w).1
  unfolding transfer_jobs transfer_resource
  transfer_jobs-Puts [] done w = Extends-refl D w
  transfer_jobs-Puts (j ∷ js) done w =
      elim (contains done (resource_id (traced D) src env d j))
        as (λ b.
          Puts w
            (elim b as (λ _. List ResourceId × World (traced D)) [
              | true ↦ transfer_jobs (traced D) src env d js done w
              | false ↦
                  transfer_jobs (traced D) src env d js (resource_id (traced D) src env d j ∷ done)
                    (transfer_resource (traced D) src env d j w)
            ]).1) [
              | true ↦ transfer_jobs-Puts js done w
              | false ↦ Extends-trans D (with_answer-Puts j _ w) (transfer_jobs-Puts js _ _)
            ]
