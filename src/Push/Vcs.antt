-- ===== src/Push/Vcs.antt =====
-- The logs of version control in cmd/charm/charmcmd/push.go: getExtraInfo and the parsers that it
-- uses. Running the programs, the dates and the addresses of net/mail are parameters.
pub mod Log
pub mod Bzr
pub mod ExtraInfo
use charmstore_client.Base.{
  ℕ, ℤ, pos, Bool, true, false, not, ◌&&◌, Option, none, some, List, [], ◌∷◌, ◌++◌, Str, codes,
  is_empty, is_space, split, split_2, atoi, ◌==◌, if◌then◌else◌, Result, ok, err, Error, new, newf,
  notef, masked, note, mask, list_eq, nat_eq, ◌>>=◌, map,
}

pub record VcsAuthor : Type 0 where
  pub name : Str
  pub email : Str

-- vcsRevision. A date is an instant, in any unit.
pub record VcsRevision : Type 0 where
  pub authors : List VcsAuthor
  pub date : ℤ
  pub message : Str
  pub commit : Str
  pub revno : ℤ

-- strings.TrimLeft for white space, and for blanks
unfoldable pub trim_left : (ℕ → Bool) → Str → Str
trim_left cut [] = []
trim_left cut (c ∷ s) = let rest = trim_left cut s in if cut c then rest else c ∷ s

unfoldable pub trim_right : Str → Str
trim_right [] = []
trim_right (c ∷ s) = let rest = trim_right s in if is_space c && is_empty rest then [] else c ∷ rest

-- strings.TrimSpace for ASCII text
unfoldable pub trim_space : Str → Str
unfolding trim_left trim_right
trim_space s = trim_left is_space (trim_right s)

module _ (parse_date : Str → Str → Result Error ℤ) where
  -- The fields of a commit, with their number checked.
  unfoldable pub parse_fields : List Str → Result Error VcsRevision
  parse_fields (commit ∷ name ∷ email ∷ date ∷ message ∷ _) = do
    t ←
        note "cannot parse commit timestamp" []
          (parse_date (codes "2006-01-02 15:04:05 -0700") date)
    ok (record {
      authors = record { name = name; email = email } ∷ [];
      date = t;
      message = message;
      commit = commit;
      revno = pos 0;
    })
  parse_fields _ = err (new "unexpected field count in commit log")

  unfoldable pub parse_commits : List Str → Result Error (List VcsRevision)
  unfolding parse_fields trim_space
  parse_commits [] = ok []
  parse_commits (commit ∷ commits) =
      let rest = parse_commits commits in
      let text = trim_space commit in
      if is_empty text
      then rest
      else (parse_fields (split 31 text) >>= λ r. rest >>= λ rs. ok (r ∷ rs))

  unfoldable pub parse_log_output : Str → Result Error (List VcsRevision)
  unfolding parse_commits
  parse_log_output output = parse_commits (split 30 output)
