-- ===== src/Upload/Files.antt =====
-- What cmd/charm/charmcmd/uploadidcache.go and resource.go use of the file system and of the clock.
-- It is not part of the program: a record of operations, with their documented behaviour as laws.
use charmstore_client.Base.{
  ℕ, ◌≤◌, ◌≡◌, Bool, Option, some, none, List, Str, Result, ok, err, Error, Reply, not_exist, ◌==◌,
  list_eq, nat_eq, if◌then◌else◌,
}

-- os.FileInfo: the name in the directory, and whether it is a regular file
pub record FileInfo : Type 0 where
  pub name : Str
  pub is_regular : Bool

pub record Files : Type 1 where
  pub State : Type 0
  -- time.Now(), in nanoseconds
  pub now : State → ℕ
  pub open_file : Str → State → Reply
  pub file_size : Str → State → Result Error ℕ
  pub read_file : Str → State → Result Error Str
  pub read_dir : Str → State → Result Error (List FileInfo)
  pub make_dirs : Str → State → Reply × State
  -- utils.AtomicWriteFile
  pub write_file : Str → Str → State → Reply × State
  pub remove_file : Str → State → Reply × State

-- `content p s` is what the file at the path `p` holds. What fails changes no file.
pub record IsFileSystem (F : Files) : Type 0 where
  pub content : Str → F.State → Option Str
  pub reads : (p : Str) (s : F.State) (d : Str) → F.read_file p s ≡ ok d → content p s ≡ some d
  pub not_there : (p : Str) (s : F.State) → F.read_file p s ≡ err not_exist → content p s ≡ none
  pub made :
      (p q : Str) (s s' : F.State) (r : Reply)
      → F.make_dirs p s ≡ (r, s')
      → (content q s' ≡ content q s) × (F.now s ≤ F.now s')
  pub written :
      (p q d : Str) (s s' : F.State)
      → F.write_file p d s ≡ (ok tt, s')
      → (content q s' ≡ (if q == p then some d else content q s)) × (F.now s ≤ F.now s')
  pub not_written :
      (p q d : Str) (s s' : F.State) (e : Error)
      → F.write_file p d s ≡ (err e, s')
      → (content q s' ≡ content q s) × (F.now s ≤ F.now s')
  pub removed :
      (p q : Str) (s s' : F.State)
      → F.remove_file p s ≡ (ok tt, s')
      → (content q s' ≡ (if q == p then none else content q s)) × (F.now s ≤ F.now s')
  pub not_removed :
      (p q : Str) (s s' : F.State) (e : Error)
      → F.remove_file p s ≡ (err e, s')
      → (content q s' ≡ content q s) × (F.now s ≤ F.now s')
  pub none_removed :
      (p : Str) (s s' : F.State) → F.remove_file p s ≡ (err not_exist, s') → content p s ≡ none
