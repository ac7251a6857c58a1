-- ===== src/Push/Vcs/ExtraInfo.antt =====
-- getExtraInfo and getRevisions of cmd/charm/charmcmd/push.go: the first version control whose directory is
-- there and whose log can be read. Log messages are left out.
use charmstore_client.Base.{
  Option, none, some, List, [], ◌∷◌, Str, codes, is_empty, Result, ok, err, Error, Reply, notef,
  newf, if◌then◌else◌, ℤ,
}
use charmstore_client.Push.Vcs.{VcsAuthor, VcsRevision, parse_log_output}
use charmstore_client.Push.Vcs.Bzr.{parse_bzr_log_output}

-- vcsLogParser, with the file of its name in the source directory, and what its command prints, or
-- the error of running it
pub record VcsLogParser : Type 0 where
  pub name : Str
  pub stat : Reply
  pub output : Result Error Str
  pub parse : Str → Result Error (List VcsRevision)

-- The error, with the output of the command if there is one.
abbrev pub output_err : Str → Error → Error
output_err output e = if is_empty output then e else newf "%v\n%s" (output ∷ [])

abbrev pub parsed_output : Str → Result Error (List VcsRevision) → Result Error (List VcsRevision)
parsed_output output (ok revisions) = ok revisions
parsed_output output (err e) = err (output_err output e)

abbrev pub read_output : VcsLogParser → Result Error Str → Result Error (List VcsRevision)
read_output p (err e) = err (notef e "%s command failed" (p.name ∷ []))
read_output p (ok output) = parsed_output output (p.parse output)

unfoldable pub get_revisions : VcsLogParser → Result Error (List VcsRevision)
get_revisions p = read_output p p.output

abbrev pub or_next :
    Result Error (List VcsRevision) → Option (List VcsRevision) → Option (List VcsRevision)
or_next (ok revisions) next = some revisions
or_next (err _) next = next

-- `none` for no information. A parser is passed over where its directory is not there.
unfoldable pub get_extra_info : List VcsLogParser → Option (List VcsRevision)
unfolding get_revisions
get_extra_info [] = none
get_extra_info (p ∷ parsers) =
    let next = get_extra_info parsers in
    elim p.stat [ err _ ↦ next | ok _ ↦ or_next (get_revisions p) next ]

abbrev pub parser_of :
    (Str → Reply × Result Error Str) → Str → (Str → Result Error (List VcsRevision)) → VcsLogParser
parser_of directory name parse = record {
  name = name;
  stat = (directory name).0;
  output = (directory name).1;
  parse = parse;
}

-- What the commands and the directories of git, bzr and hg give, to the parsers of the three.
unfoldable pub vcs_log_parsers :
    (Str → Str → Result Error ℤ)
    → (Str → Result Error (List VcsAuthor))
    → ℤ
    → (Str → Reply × Result Error Str)
    → List VcsLogParser
unfolding parse_log_output parse_bzr_log_output
vcs_log_parsers parse_date parse_address_list no_time directory =
    parser_of directory (codes "git") (parse_log_output parse_date)
    ∷ parser_of directory (codes "bzr") (parse_bzr_log_output parse_date parse_address_list no_time)
    ∷ parser_of directory (codes "hg") (parse_log_output parse_date)
    ∷ []
