-- ===== src/Ingest/Resources.antt =====
-- transferResources and transferResource of ingest.go.
pub mod Once
use charmstore_client.Base.{
  ℕ, ℤ, Bool, true, false, List, [], ◌∷◌, ◌++◌, Str, ◌==◌, list_eq, nat_eq, int_eq, pair_eq,
  if◌then◌else◌, Result, ok, err, Error, newf, notef, mask, is_not_found, ◌>>=◌, length, contains,
  ltb, suc,
}
use charmstore_client.Base.Dict.{Dict}
use charmstore_client.Charm.{Url}
use charmstore_client.Ingest.Entity.{Env, EntityInfo, BaseEntity, base_entity_id}
use charmstore_client.Ingest.Client.{Client, Source, Reader, World, Reply, errorf, request}

-- resourceId: the base URL, the name of the resource and its revision
abbrev pub ResourceId : Type 0
ResourceId = Str × (Str × ℤ)

pub record Job : Type 0 where
  pub entity_id : Url
  pub name : Str
  pub rev : ℤ

abbrev revision_jobs : Url → Str → List ℤ → List Job
revision_jobs id name [] = []
revision_jobs id name (rev ∷ revs) =
    record { entity_id = id; name = name; rev = rev } ∷ revision_jobs id name revs

pub resource_jobs : Url → Dict Str (List ℤ) → List Job
resource_jobs id [] = []
resource_jobs id ((name, revs) ∷ resources) =
    revision_jobs id name revs ++ resource_jobs id resources

pub entity_jobs : Dict Str EntityInfo → List Job
entity_jobs [] = []
entity_jobs ((_, e) ∷ entities) = resource_jobs e.id e.resources ++ entity_jobs entities

-- What the nested loops of transferResources go through, in their order.
unfoldable pub jobs : Dict Str BaseEntity → List Job
unfolding resource_jobs entity_jobs
jobs [] = []
jobs ((_, base) ∷ bases) = entity_jobs base.entities ++ jobs bases

-- The limit on temporary files, and the file system as far as they need it.
pub record Disk : Type 0 where
  -- the limit; 0 for none
  pub max_disk : ℕ
  pub soft_disk_limit : Bool
  -- the answers of the file system to what is asked for the file of each job
  pub temp_file : Job → Result Error (Unit {0})
  pub write_file : Job → Result Error (Unit {0})
  pub remove_file : Job → Result Error (Unit {0})

-- What getDisk takes of the disk for a file of a size, where there is a limit.
unfoldable pub share : Disk → ℕ → Result Error ℕ
share d size =
    if ltb d.max_disk size
    then (if d.soft_disk_limit
        then ok d.max_disk
        else err (newf "too much space required (need %d, max %d)" []))
    else ok size

abbrev pub create_file : Disk → Job → Result Error (Unit {0})
create_file d j = mask (d.temp_file j)

-- getDisk for one transfer at a time: its error, or a file.
unfoldable pub get_disk : Disk → Job → ℕ → Result Error (Unit {0})
unfolding share
get_disk d j size =
    if ltb 0 d.max_disk then share d size >>= (λ _. create_file d j) else create_file d j

-- The copy of one byte more than `size` at most into the file: a reader that yields more is not read
-- to its end.
unfoldable pub copy_file : Disk → Job → Reader → ℕ → Result Error ℕ
copy_file d j (content, end) size = d.write_file j >>= (λ _.
    if ltb size (length content) then ok (suc size) else end >>= (λ _. ok (length content)))

module _ (D : Client) (src : Source) (env : Env) (d : Disk) where
  abbrev pub resource_id : Job → ResourceId
  resource_id j = (env.id_string (base_entity_id j.entity_id), (j.name, j.rev))

  abbrev about : Job → List Str
  about j = env.id_string j.entity_id ∷ j.name ∷ []

  -- f.Close(), with the answer to the removal of the file
  abbrev pub close_file : Result Error (Unit {0}) → World D → World D
  close_file (ok _) w = w
  close_file (err e) w = errorf e w

  abbrev pub report_put : Job → Reply × World D → World D
  report_put j (ok _, w) = w
  report_put j (err e, w) = errorf (notef e "cannot put resource %v/%v" (about j)) w

  abbrev pub after_copy : Job → Str → ℕ → Result Error ℕ → World D → World D
  after_copy j content size (ok n) w =
      if n == size
      then report_put j (request (D.put_resource j.entity_id j.name j.rev content) w)
      else errorf (newf "%v/%v: unexpected EOF" (about j)) w
  after_copy j content size (err e) w = errorf (notef e "failed to copy resource %v/%v" (about j)) w

  -- The bytes that are uploaded are those of the reader, since there are `size` of them.
  unfoldable pub send_content : Job → Reader → ℕ → World D → World D
  unfolding copy_file
  send_content j reader size w = after_copy j reader.0 size (copy_file d j reader size) w

  -- transferResource behind getDisk
  abbrev pub with_file : Job → Reader → ℕ → Result Error (Unit {0}) → World D → World D
  with_file j reader size (ok _) w = close_file (d.remove_file j) (send_content j reader size w)
  with_file j reader size (err e) w =
      errorf (notef e "cannot make temp file for resource %v/%v" (about j)) w

  -- transferResource behind getResource
  abbrev pub with_resource : Job → Result Error (Reader × ℕ) → World D → World D
  with_resource j (ok (reader, size)) w = with_file j reader size (get_disk d j size) w
  with_resource j (err e) w = errorf (notef e "cannot get resource %v/%v" (about j)) w

  -- transferResource behind its question to the destination
  abbrev pub with_answer : Job → Result Error (Unit {0}) → World D → World D
  with_answer j (ok _) w = w
  with_answer j (err e) w =
      if is_not_found e
      then with_resource j (src.get_resource j.entity_id j.name j.rev) w
      else errorf e w

  unfoldable pub transfer_resource : Job → World D → World D
  unfolding send_content get_disk
  transfer_resource j w = with_answer j (D.resource_info j.entity_id j.name j.rev w.dest) w

  -- The loop with its set `done`.
  unfoldable pub transfer_jobs : List Job → List ResourceId → World D → List ResourceId × World D
  unfolding transfer_resource
  transfer_jobs [] done w = (done, w)
  transfer_jobs (j ∷ js) done w = elim (contains done (resource_id j)) [
    | true ↦ transfer_jobs js done w
    | false ↦ transfer_jobs js (resource_id j ∷ done) (transfer_resource j w)
  ]

  unfoldable pub transfer_resources : Dict Str BaseEntity → World D → ℕ × World D
  unfolding transfer_jobs jobs
  transfer_resources bases w = let (done, w') = transfer_jobs (jobs bases) [] w in (length done, w')
