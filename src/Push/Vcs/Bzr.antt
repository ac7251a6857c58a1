-- ===== src/Push/Vcs/Bzr.antt =====
-- parseBzrLogOutput, parseBzrLogEntry and what they use, in cmd/charm/charmcmd/push.go. The dates and
-- the addresses of net/mail are parameters. Log messages are left out.

pub mod Entry
use charmstore_client.Base.{
  ℕ, ℤ, pos, zero, suc, ◌-◌, Bool, true, false, Option, none, some, List, [], ◌∷◌, ◌++◌, Str,
  String, codes, is_empty, has_prefix, strip_prefix, split, split_2, join, atoi, on_head, length,
  ◌==◌, if◌then◌else◌, Result, ok, err, Error, new, newf, notef, masked, note, mask, list_eq,
  nat_eq, ◌>>=◌, map,
}
use charmstore_client.Push.Vcs.{VcsAuthor, VcsRevision, trim_left, trim_space}

pub record BzrLogEntry : Type 0 where
  pub revno : ℤ
  pub commit : Str
  pub author : Str
  pub committer : Str
  pub date : ℤ
  pub message : Str

-- The zero value of a time.
abbrev pub empty_entry : ℤ → BzrLogEntry
empty_entry no_time = record {
  revno = pos 0;
  commit = [];
  author = [];
  committer = [];
  date = no_time;
  message = [];
}

-- strings.Split(s, sep) for a longer `sep`; `skip` bytes still belong to a separator.
unfoldable pub split_text : Str → ℕ → Str → List Str
split_text sep skip [] = [] ∷ []
split_text sep (suc skip) (c ∷ s) = split_text sep skip s
split_text sep zero (c ∷ s) =
    let rest = split_text sep zero s in
    let behind = split_text sep (length sep - 1) s in
    if has_prefix (c ∷ s) sep then [] ∷ behind else on_head c rest

-- strings.TrimSuffix(s, suffix)
unfoldable pub trim_suffix_text : Str → Str → Str
trim_suffix_text suffix [] = []
trim_suffix_text suffix (c ∷ s) =
    let rest = trim_suffix_text suffix s in if (c ∷ s) == suffix then [] else c ∷ rest

abbrev pub is_blank : ℕ → Bool
is_blank c = c == b' '

abbrev pub with_revno : BzrLogEntry → Str → Option ℤ → Result Error BzrLogEntry
with_revno entry val none = err (newf "invalid revision number %q" (val ∷ []))
with_revno entry val (some revno) = ok (record entry { revno = revno })

abbrev pub with_date : BzrLogEntry → Result Error ℤ → Result Error BzrLogEntry
with_date entry t = mask t >>= λ d. ok (record entry { date = d })

-- bzrLogDivider: 60 dashes
abbrev pub bzr_log_divider : Str
bzr_log_divider = codes "------------------------------------------------------------"

module _ (parse_date : Str → Str → Result Error ℤ) where
  -- The cases of the switch but that of the message.
  unfoldable pub with_field : BzrLogEntry → Str → Str → Result Error BzrLogEntry
  unfolding trim_suffix_text
  with_field entry key val =
      if key == codes "revno"
      then (let val = trim_suffix_text (codes " [merge]") val in with_revno entry val (atoi val))
      else if key == codes "revision-id"
      then ok (record entry { commit = val })
      else if key == codes "author"
      then ok (record entry { author = val })
      else if key == codes "committer"
      then ok (record entry { committer = val })
      else if key == codes "timestamp"
      then with_date entry (parse_date (codes "Mon 2006-01-02 15:04:05 Z0700") val)
      else ok entry

  -- The loop over the lines.
  abbrev pub with_pair :
      BzrLogEntry
      → List Str
      → Option (Str × Str)
      → (BzrLogEntry → Result Error BzrLogEntry)
      → Result Error BzrLogEntry
  with_pair entry lines none rest = rest entry
  with_pair entry lines (some (key, val)) rest =
      if key == codes "message"
      then ok (record entry { message = join b'\n' lines })
      else (with_field entry key (trim_left is_blank val) >>= rest)

  unfoldable pub parse_lines : BzrLogEntry → List Str → Result Error BzrLogEntry
  unfolding with_field
  parse_lines entry [] = err (new "no commit message found in bzr log entry")
  parse_lines entry (line ∷ lines) = elim (is_empty (trim_space line)) [
    | true ↦ parse_lines entry lines
    | false ↦ with_pair entry lines (split_2 (codes ":") line) (λ e. parse_lines e lines)
  ]

  unfoldable pub parse_bzr_log_entry : ℤ → Str → Result Error BzrLogEntry
  unfolding parse_lines
  parse_bzr_log_entry no_time text = parse_lines (empty_entry no_time) (split b'\n' text)

-- Author, or else the committer.
abbrev pub get_apparent_authors : BzrLogEntry → Str
get_apparent_authors entry = if is_empty entry.author then entry.committer else entry.author

-- `parse_address_list` is that of net/mail.
unfoldable pub parse_email_addresses : (Str → Result Error (List VcsAuthor)) → Str → List VcsAuthor
parse_email_addresses parse_address_list emails = elim (parse_address_list emails) [
  | ok authors ↦ authors
  | err _ ↦ record { name = emails; email = [] } ∷ []
]

abbrev pub hint : Str
hint = codes "\nUse --include-merged or -n0 to see merged revisions.\n"

-- logs[:lastindex] where the last item is the hint
unfoldable pub without_hint : List Str → List Str
without_hint [] = []
without_hint (log ∷ []) = if log == hint then [] else log ∷ []
without_hint (log ∷ log' ∷ logs) = log ∷ without_hint (log' ∷ logs)

-- The item before the first divider, where it is empty.
abbrev pub without_first : List Str → List Str
without_first [] = []
without_first (log ∷ logs) = if is_empty log then logs else log ∷ logs

module _ (parse_date : Str → Str → Result Error ℤ)
    (parse_address_list : Str → Result Error (List VcsAuthor)) (no_time : ℤ) where
  abbrev pub revision_of : BzrLogEntry → VcsRevision
  revision_of entry = record {
    authors = parse_email_addresses parse_address_list (get_apparent_authors entry);
    date = entry.date;
    message = entry.message;
    commit = entry.commit;
    revno = entry.revno;
  }

  unfoldable pub parse_entries : List Str → Result Error (List VcsRevision)
  unfolding parse_bzr_log_entry parse_email_addresses
  parse_entries [] = ok []
  parse_entries (log ∷ logs) =
      let rest = parse_entries logs in
      note "cannot parse bzr log entry" [] (parse_bzr_log_entry parse_date no_time log) >>= λ entry.
      rest >>= λ revisions. ok (revision_of entry ∷ revisions)

  abbrev pub some_entries : List Str → Result Error (List VcsRevision)
  some_entries [] = err (new "no log entries")
  some_entries (log ∷ logs) = parse_entries (log ∷ logs)

  unfoldable pub parse_bzr_log_output : Str → Result Error (List VcsRevision)
  unfolding parse_entries split_text without_hint
  parse_bzr_log_output bzrlog =
      some_entries (without_first (without_hint (split_text bzr_log_divider 0 bzrlog)))
