-- ===== src/Push/Vcs/Log.antt =====
-- parseLogOutput of push.go, and the logs that git and hg are asked for.
use charmstore_client.Base.{
  ℕ, ℤ, pos, ◌≡◌, refl, ap, ◌∙◌, true, false, List, [], ◌∷◌, ◌++◌, Str, codes, is_empty, is_space,
  split, Result, ok, Error, list_eq, nat_eq, map, contains, All, arith, join, contains-append,
}
use charmstore_client.Push.Vcs.{
  VcsRevision, trim_left, trim_right, trim_space, parse_fields, parse_commits, parse_log_output,
}

-- A commit as the program is asked to print it, with its date as an instant.
pub record Commit : Type 0 where
  pub commit : Str
  pub name : Str
  pub email : Str
  pub date : Str
  pub message : Str
  pub time : ℤ

abbrev pub field_list : Commit → List Str
field_list c = c.commit ∷ c.name ∷ c.email ∷ c.date ∷ c.message ∷ []

abbrev pub revision : Commit → VcsRevision
revision c = record {
  authors = record { name = c.name; email = c.email } ∷ [];
  date = c.time;
  message = c.message;
  commit = c.commit;
  revno = pos 0;
}

-- A commit in a log, with what stands before its fields, and behind them: in the log of git a message
-- ends with a new line, which stands before the separator of the commits.
pub record Printed : Type 0 where
  pub gap : Str
  pub entry : Commit
  pub tail : Str

abbrev pub text_of : Printed → Str
text_of p = p.gap ++ (join 31 (field_list p.entry) ++ p.tail)

-- The log, and what stands behind the last separator.
pub format : List Printed → Str → Str
format [] end = end
format (p ∷ commits) end = text_of p ++ 30 ∷ format commits end

abbrev pub IsBlank : Str → Type 0
IsBlank = All (λ c. is_space c ≡ true)

-- The separators are not in the fields; as a whole the fields neither begin nor end with white
-- space; and the date is one that time.Parse accepts.
pub record IsCommit (parse_date : Str → Str → Result Error ℤ) (c : Commit) : Type 0 where
  pub separated : All (λ f. contains f 31 ≡ false) (field_list c)
  pub one_entry : contains (join 31 (field_list c)) 30 ≡ false
  pub trimmed : trim_space (join 31 (field_list c)) ≡ join 31 (field_list c)
  pub dated : parse_date (codes "2006-01-02 15:04:05 -0700") c.date ≡ ok c.time

-- White space stands around the fields of a commit.
abbrev pub IsPrinted : (Str → Str → Result Error ℤ) → Printed → Type 0
IsPrinted parse_date p = IsBlank p.gap × IsCommit parse_date p.entry × IsBlank p.tail

pub split-cut :
    (sep : ℕ) (a s : Str) → contains a sep ≡ false → split sep (a ++ sep ∷ s) ≡ a ∷ split sep s
unfolding split
split-cut sep [] s h = ground arith
split-cut sep (c ∷ a) s h = ground (arith, split-cut sep a s)

pub split-whole : (sep : ℕ) (a : Str) → contains a sep ≡ false → split sep a ≡ a ∷ []
unfolding split
split-whole sep [] h = refl
split-whole sep (c ∷ a) h = ground (arith, split-whole sep a)

pub split-join :
    (sep : ℕ) (f : Str) (fs : List Str)
    → All (λ f. contains f sep ≡ false) (f ∷ fs)
    → split sep (join sep (f ∷ fs)) ≡ f ∷ fs
unfolding join
split-join sep f [] h = split-whole sep f h.0
split-join sep f (g ∷ fs) h =
    split-cut sep f (join sep (g ∷ fs)) h.0 ∙ ap (λ l. f ∷ l) (split-join sep g fs h.1)

trim_space-gap : (gap s : Str) → IsBlank gap → trim_space (gap ++ s) ≡ trim_space s
unfolding trim_space trim_left trim_right
trim_space-gap [] s h = refl
trim_space-gap (c ∷ gap) s h = ground (arith, trim_space-gap gap s h.1)

trim_space-blank : (gap : Str) → IsBlank gap → trim_space gap ≡ []
unfolding trim_space trim_left trim_right
trim_space-blank [] h = refl
trim_space-blank (c ∷ gap) h = ground (arith, trim_space-blank gap h.1)

trim_right-blank : (tail : Str) → IsBlank tail → trim_right tail ≡ []
unfolding trim_right
trim_right-blank [] h = refl
trim_right-blank (c ∷ tail) h = ground (arith, trim_right-blank tail h.1)

trim_right-tail : (s tail : Str) → IsBlank tail → trim_right (s ++ tail) ≡ trim_right s
unfolding trim_right
trim_right-tail [] tail h = trim_right-blank tail h
trim_right-tail (c ∷ s) tail h = rw (trim_right-tail s tail h) refl

trim_space-tail : (s tail : Str) → IsBlank tail → trim_space (s ++ tail) ≡ trim_space s
unfolding trim_space
trim_space-tail s tail h = ap (trim_left is_space) (trim_right-tail s tail h)

trim_space-text_of :
    (parse_date : Str → Str → Result Error ℤ) (p : Printed)
    → IsPrinted parse_date p
    → trim_space (text_of p) ≡ join 31 (field_list p.entry)
trim_space-text_of parse_date p (b, v, t) =
    let text = join 31 (field_list p.entry) in
    trim_space-gap p.gap (text ++ p.tail) b ∙ trim_space-tail text p.tail t ∙ v.trimmed

IsBlank-contains : (gap : Str) → IsBlank gap → contains gap 30 ≡ false
IsBlank-contains [] h = refl
IsBlank-contains (c ∷ gap) h = ground (arith, IsBlank-contains gap h.1)

module _ (parse_date : Str → Str → Result Error ℤ) where
  parse_fields-field_list :
      (c : Commit)
      → IsCommit parse_date c
      → parse_fields parse_date (split 31 (join 31 (field_list c))) ≡ ok (revision c)
  unfolding parse_fields
  parse_fields-field_list c v =
      let fields =
        split-join 31 c.commit (c.name ∷ c.email ∷ c.date ∷ c.message ∷ []) v.separated in
      ap (parse_fields parse_date) fields ∙ rw (v.dated) refl

  parse_commits_blank : (gap : Str) → IsBlank gap → parse_commits parse_date (gap ∷ []) ≡ ok []
  unfolding parse_commits
  parse_commits_blank gap h = rw (parse_commits, trim_space-blank gap h) refl

  append_filled : (a s : Str) → is_empty (a ++ 31 ∷ s) ≡ false
  append_filled [] s = refl
  append_filled (c ∷ a) s = refl

  text_filled : (c : Commit) → is_empty (join 31 (field_list c)) ≡ false
  unfolding join
  text_filled c = append_filled c.commit (join 31 (c.name ∷ c.email ∷ c.date ∷ c.message ∷ []))

  parse_commits_first :
      (p : Printed) (l : List Str) (revisions : List VcsRevision)
      → IsPrinted parse_date p
      → parse_commits parse_date l ≡ ok revisions
      → parse_commits parse_date (text_of p ∷ l) ≡ ok (revision p.entry ∷ revisions)
  unfolding parse_commits
  parse_commits_first p l revisions v h =
      let c = p.entry in
      rw
        (
          parse_commits,
          trim_space-text_of parse_date p v,
          text_filled c,
          parse_fields-field_list c v.1,
          h,
        )
        refl

  split-text_of :
      (p : Printed) (s : Str)
      → IsPrinted parse_date p
      → split 30 (text_of p ++ 30 ∷ s) ≡ text_of p ∷ split 30 s
  split-text_of p s (b, v, t) =
      let text = join 31 (field_list p.entry) in
      let behind : contains (text ++ p.tail) 30 ≡ false =
        contains-append text p.tail 30 ∙ rw (v.one_entry, IsBlank-contains p.tail t) refl in
      let free : contains (text_of p) 30 ≡ false =
        contains-append p.gap (text ++ p.tail) 30 ∙ rw (IsBlank-contains p.gap b, behind) refl in
      split-cut 30 (text_of p) s free

  -- The log that is one commit behind the other, each with its five fields between separators and
  -- with white space around them, before the separator of the commits too, is read as those
  -- commits, in their order.
  pub parse_log_output-format :
      (commits : List Printed) (end : Str)
      → All (IsPrinted parse_date) commits
      → IsBlank end
      → parse_log_output parse_date (format commits end)
        ≡ ok (map (λ (p : Printed). revision p.entry) commits)
  unfolding parse_log_output format
  parse_log_output-format [] end h b =
      ap (parse_commits parse_date) (split-whole 30 end (IsBlank-contains end b))
      ∙ parse_commits_blank end b
  parse_log_output-format (p ∷ commits) end h b =
      let rest = parse_log_output-format commits end h.1 b in
      ap (parse_commits parse_date) (split-text_of p (format commits end) h.0)
      ∙ parse_commits_first p (split 30 (format commits end))
          (map (λ (p : Printed). revision p.entry) commits) h.0 rest
