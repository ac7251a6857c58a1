-- ===== src/Whitelist.antt =====
-- cmd/charm-ingest/whitelist.go: the file that says which entities to copy. A line is what
-- bufio.Scanner yields, as ASCII bytes without the line's end.
pub mod Laws
use charmstore_client.Base.{
  ℕ, suc, ◌+◌, Bool, true, false, Option, none, some, List, [], ◌∷◌, ◌++◌, Str, Result, ok, err,
  Error, newf, masked, is_empty, if◌then◌else◌, fields,
}
use charmstore_client.Ingest.Entity.{WhitelistEntity}

pub record ParseError : Type 0 where
  pub filename : Str
  pub line : ℕ
  pub reason : Error

-- The error of parseWhitelist: a line that cannot be parsed, or the failure of the scanner.
pub data WhitelistError : Type 0 where
  parse_error : ParseError → WhitelistError
  scan_error : Error → WhitelistError

-- `valid_channel` is params.ValidChannels.
module _ (valid_channel : Str → Bool) where
  unfoldable pub parse_channels : Str → List Str → Result Error (List Str)
  parse_channels entity_id [] = ok []
  parse_channels entity_id (channel ∷ rest) = elim (valid_channel channel) [
    | false ↦ err (newf "invalid channel %q for entity %q" (channel ∷ entity_id ∷ []))
    | true ↦ elim (parse_channels entity_id rest) [
      | ok channels ↦ ok (channel ∷ channels)
      | err e ↦ err e
    ]
  ]

  abbrev no_entity : WhitelistEntity
  no_entity = record { entity_id = []; channels = []; resources = [] }

  abbrev with_channels : Str → Result Error (List Str) → Result Error WhitelistEntity
  with_channels entity_id (ok channels) =
      ok (record { entity_id = entity_id; channels = channels; resources = [] })
  with_channels entity_id (err e) = err e

  abbrev parse_fields : List Str → Result Error WhitelistEntity
  parse_fields [] = ok no_entity
  parse_fields (entity_id ∷ channels) = with_channels entity_id (parse_channels entity_id channels)

  -- If the line is empty, it returns the zero WhitelistEntity value.
  unfoldable pub parse_line : Str → Result Error WhitelistEntity
  unfolding parse_channels
  parse_line line = parse_fields (fields line)

  -- An entity of an empty line is ignored.
  abbrev pub keep : WhitelistEntity → List WhitelistEntity → List WhitelistEntity
  keep entity entities = if is_empty entity.entity_id then entities else entities ++ entity ∷ []

  -- The loop over the lines; at its end the scanner may have failed.
  unfoldable pub parse_lines :
      Str
      → ℕ
      → List WhitelistEntity
      → List Str
      → Option Error
      → Result WhitelistError (List WhitelistEntity)
  unfolding parse_line
  parse_lines filename line_num entities [] none = ok entities
  parse_lines filename line_num entities [] (some e) = err (scan_error (masked e))
  parse_lines filename line_num entities (line ∷ lines) failure = elim (parse_line line) [
    | err e ↦ err (parse_error (record { filename = filename; line = line_num + 1; reason = e }))
    | ok entity ↦ parse_lines filename (line_num + 1) (keep entity entities) lines failure
  ]

  unfoldable pub parse_whitelist :
      Str → List Str → Option Error → Result WhitelistError (List WhitelistEntity)
  unfolding parse_lines
  parse_whitelist filename lines failure = parse_lines filename 0 [] lines failure
