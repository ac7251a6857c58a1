-- ===== src/Push/Vcs/Bzr/Entry.antt =====
-- parseBzrLogEntry of push.go, on an entry whose fields stand on a line each before the message.
use charmstore_client.Base.{
  ℕ, ℤ, ◌≡◌, refl, ap, ◌∙◌, true, false, some, List, [], ◌∷◌, ◌++◌, Str, codes, is_empty, is_space,
  split_2, strip_prefix, join, ◌==◌, Result, ok, err, Error, list_eq, nat_eq, ◌>>=◌, map, contains,
  All, arith, contains-append,
}
use charmstore_client.Push.Vcs.{trim_left, trim_right, trim_space}
use charmstore_client.Push.Vcs.Bzr.{
  BzrLogEntry, empty_entry, is_blank, with_field, with_pair, parse_lines, parse_bzr_log_entry,
}
use charmstore_client.Push.Vcs.Log.{split-join}

-- A field by its key and its value.
abbrev pub line : Str × Str → Str
line (key, val) = key ++ b':' ∷ b' ' ∷ val

-- The lines of an entry; the first one is what stands behind the divider.
abbrev pub entry_lines : List (Str × Str) → List Str → List Str
entry_lines pairs message = map line pairs ++ codes "message:" ∷ message

-- A key is not that of the message and has no colon, a value does not begin with a blank, and both
-- are on one line.
pub record IsField (f : Str × Str) : Type 0 where
  pub no_colon : contains f.0 b':' ≡ false
  pub on_line : contains (line f) b'\n' ≡ false
  pub no_message : (f.0 == codes "message") ≡ false
  pub trimmed : trim_left is_blank f.1 ≡ f.1

split_2-cut :
    (key val : Str)
    → contains key b':' ≡ false
    → split_2 (codes ":") (key ++ b':' ∷ val) ≡ some (key, val)
unfolding split_2 strip_prefix
split_2-cut [] val h = ground arith
split_2-cut (c ∷ key) val h = ground (arith, split_2-cut key val)

contains-trim_right :
    (s : Str) (c : ℕ) → is_space c ≡ false → contains (trim_right s) c ≡ contains s c
unfolding trim_right
contains-trim_right [] c h = refl
contains-trim_right (d ∷ s) c h = ground (arith, contains-trim_right s c h)

contains-trim_left :
    (s : Str) (c : ℕ) → is_space c ≡ false → contains (trim_left is_space s) c ≡ contains s c
unfolding trim_left
contains-trim_left [] c h = refl
contains-trim_left (d ∷ s) c h = ground (arith, contains-trim_left s c h)

trim_left-blank : (s : Str) → trim_left is_blank (b' ' ∷ s) ≡ trim_left is_blank s
unfolding trim_left nat_eq
trim_left-blank s = refl

contains-filled : (s : Str) (c : ℕ) → contains s c ≡ true → is_empty s ≡ false
contains-filled [] c h = ground arith
contains-filled (d ∷ s) c h = refl

contains-line : (f : Str × Str) → contains (line f) b':' ≡ true
contains-line f = contains-append f.0 (b':' ∷ b' ' ∷ f.1) b':' ∙ ground arith

line_filled : (f : Str × Str) → is_empty (trim_space (line f)) ≡ false
unfolding trim_space
line_filled f =
    let colon : is_space b':' ≡ false = ground arith in
    contains-filled (trim_space (line f)) b':' (
      contains-trim_left (trim_right (line f)) b':' colon
      ∙ contains-trim_right (line f) b':' colon
      ∙ contains-line f)

message_line :
    (is_empty (trim_space (codes "message:")) ≡ false)
    × (split_2 (codes ":") (codes "message:") ≡ some (codes "message", []))
    × ((codes "message" == codes "message") ≡ true)
unfolding trim_space split_2 trim_left trim_right strip_prefix nat_eq list_eq
message_line = (refl, refl, refl)

bind_lem {ℓ κ ι} :
    {A : Type ℓ} {B : Type κ} {C : Type ι} (x : Result Error A) (f : A → Result Error C)
    (g : A → Result Error B) (h : B → Result Error C)
    → ((a : A) → f a ≡ (g a >>= h))
    → (x >>= f) ≡ (x >>= g >>= h)
bind_lem (ok a) f g h e = e a
bind_lem (err x) f g h e = refl

module _ (parse_date : Str → Str → Result Error ℤ) where
  -- The fields, one after the other.
  unfoldable pub with_fields : BzrLogEntry → List (Str × Str) → Result Error BzrLogEntry
  with_fields entry [] = ok entry
  with_fields entry ((key, val) ∷ pairs) =
      with_field parse_date entry key val >>= λ e. with_fields e pairs

  parse_lines-cons :
      (entry : BzrLogEntry) (l : Str) (lines : List Str) (pair : Str × Str)
      → is_empty (trim_space l) ≡ false
      → split_2 (codes ":") l ≡ some pair
      → parse_lines parse_date entry (l ∷ lines)
        ≡ with_pair parse_date entry lines (some pair) (λ e. parse_lines parse_date e lines)
  unfolding parse_lines
  parse_lines-cons entry l lines pair h k = rw (parse_lines, h, k) refl

  parse_lines-blank :
      (entry : BzrLogEntry) (lines : List Str)
      → parse_lines parse_date entry ([] ∷ lines) ≡ parse_lines parse_date entry lines
  unfolding parse_lines trim_space trim_left trim_right
  parse_lines-blank entry lines = refl

  with_pair-line :
      (entry : BzrLogEntry) (f : Str × Str) (lines : List Str)
      (rest : BzrLogEntry → Result Error BzrLogEntry)
      → IsField f
      → with_pair parse_date entry lines (some (f.0, b' ' ∷ f.1)) rest
        ≡ (with_field parse_date entry f.0 f.1 >>= rest)
  unfolding trim_left
  with_pair-line entry f lines rest v =
      let val = trim_left-blank f.1 ∙ v.trimmed in
      rw (v.no_message) (ap (λ x. with_field parse_date entry f.0 x >>= rest) val)

  parse_lines-entry_lines :
      (entry : BzrLogEntry) (pairs : List (Str × Str)) (message : List Str)
      → All IsField pairs
      → parse_lines parse_date entry (entry_lines pairs message)
        ≡ (with_fields entry pairs >>= λ e. ok (record e { message = join b'\n' message }))
  unfolding parse_lines with_fields
  parse_lines-entry_lines entry [] message h =
      parse_lines-cons entry (codes "message:") message (codes "message", []) message_line.0
        message_line.1
      ∙ ground arith
  parse_lines-entry_lines entry (f ∷ pairs) message h =
      parse_lines-cons entry (line f) (entry_lines pairs message) (f.0, b' ' ∷ f.1) (line_filled f)
        (split_2-cut f.0 (b' ' ∷ f.1) h.0.no_colon)
      ∙ with_pair-line entry f (entry_lines pairs message)
          (λ e. parse_lines parse_date e (entry_lines pairs message)) h.0
      ∙ bind_lem (with_field parse_date entry f.0 f.1)
          (λ e. parse_lines parse_date e (entry_lines pairs message)) (λ e. with_fields e pairs)
          (λ e. ok (record e { message = join b'\n' message }))
          (λ e. parse_lines-entry_lines e pairs message h.1)

  All-lines :
      (pairs : List (Str × Str)) (message : List Str)
      → All IsField pairs
      → All (λ l. contains l b'\n' ≡ false) message
      → All (λ l. contains l b'\n' ≡ false) (entry_lines pairs message)
  All-lines [] message h k = (ground arith, k)
  All-lines (f ∷ pairs) message h k = (h.0.on_line, All-lines pairs message h.1 k)

  -- An entry of a log that has its fields on a line each, then the line "message:" and the lines of
  -- the message, is read by taking the fields in their order, those with an unknown key being passed
  -- over, and the lines as the message; and where the value of a field is not accepted, the error
  -- is that of the first such field.
  parse_bzr_log_entry-entry_lines :
      (no_time : ℤ) (pairs : List (Str × Str)) (message : List Str)
      → All IsField pairs
      → All (λ l. contains l b'\n' ≡ false) message
      → parse_bzr_log_entry parse_date no_time (join b'\n' ([] ∷ entry_lines pairs message)) ≡ (
          with_fields (empty_entry no_time) pairs >>= λ e.
          ok (record e { message = join b'\n' message }))
  unfolding parse_bzr_log_entry
  parse_bzr_log_entry-entry_lines no_time pairs message h k =
      ap (parse_lines parse_date (empty_entry no_time))
        (split-join b'\n' [] (entry_lines pairs message) (refl, All-lines pairs message h k))
      ∙ parse_lines-blank (empty_entry no_time) (entry_lines pairs message)
      ∙ parse_lines-entry_lines (empty_entry no_time) pairs message h
