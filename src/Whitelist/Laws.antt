-- ===== src/Whitelist/Laws.antt =====
-- The lines of a whitelist, written and read again; and the line that an error names.
use charmstore_client.Base.{
  ℕ, suc, ◌+◌, ◌≡◌, refl, ◌∙◌, ap, Bool, true, Option, none, List, [], ◌∷◌, ◌++◌, Str, ok, err,
  Error, All, arith, append_assoc, append-nil, length, map, nat_eq, list_eq, join,
}
use charmstore_client.Base.Fields.{IsWord, fields-join}
use charmstore_client.Ingest.Entity.{WhitelistEntity}
use charmstore_client.Whitelist.{
  parse_error, parse_channels, parse_line, parse_lines, parse_whitelist, keep,
}

-- The line for an entity: its id and its channels, with a space between them.
abbrev pub format_line : WhitelistEntity → Str
format_line e = join b' ' (e.entity_id ∷ e.channels)

module _ (valid_channel : Str → Bool) where
  -- What a line can say: words, channels that exist, and no resources.
  abbrev pub Writable : WhitelistEntity → Type 0
  Writable e =
      IsWord e.entity_id
      × All IsWord e.channels
      × All (λ ch. valid_channel ch ≡ true) e.channels
      × (e.resources ≡ [])

  parse_channels-valid :
      (id : Str) (chs : List Str)
      → All (λ ch. valid_channel ch ≡ true) chs
      → parse_channels valid_channel id chs ≡ ok chs
  unfolding parse_channels
  parse_channels-valid id [] h = refl
  parse_channels-valid id (ch ∷ chs) (h, a) = ground (arith, parse_channels-valid id chs a)

  parse_line-format_line :
      (e : WhitelistEntity) → Writable e → parse_line valid_channel (format_line e) ≡ ok e
  unfolding parse_line
  parse_line-format_line e (word, words, valid, bare) =
      rw
        (
          fields-join e.entity_id e.channels word words,
          parse_channels-valid e.entity_id e.channels valid,
        )
        (ground arith)

  parse_lines-cons :
      (filename line : Str) (n : ℕ) (seen : List WhitelistEntity) (lines : List Str)
      (failure : Option Error) (e : WhitelistEntity)
      → parse_line valid_channel line ≡ ok e
      → parse_lines valid_channel filename n seen (line ∷ lines) failure
        ≡ parse_lines valid_channel filename (n + 1) (keep valid_channel e seen) lines failure
  unfolding parse_lines
  parse_lines-cons filename line n seen lines failure e h = rw (parse_lines, h)

  parse_lines-map :
      (filename : Str) (n : ℕ) (seen es : List WhitelistEntity)
      → All Writable es
      → parse_lines valid_channel filename n seen (map format_line es) none ≡ ok (seen ++ es)
  parse_lines-map filename n seen [] h = unfold parse_lines in rw append-nil
  parse_lines-map filename n seen (e ∷ es) (h, a) =
      parse_lines-cons filename _ n seen _ none e (parse_line-format_line e h)
      ∙ rw (h.0.0) (
          parse_lines-map filename (n + 1) (seen ++ e ∷ []) es a
          ∙ ap ok (append_assoc seen (e ∷ []) es))

  -- A whitelist that is written one entity to a line is read as those entities.
  pub parse_whitelist-map :
      (filename : Str) (es : List WhitelistEntity)
      → All Writable es
      → parse_whitelist valid_channel filename (map format_line es) none ≡ ok es
  unfolding parse_whitelist
  parse_whitelist-map filename es h = parse_lines-map filename 0 [] es h

  -- Every line of a list can be parsed.
  abbrev pub AllParse : List Str → Type 0
  AllParse = All (λ line. (e : WhitelistEntity) × (parse_line valid_channel line ≡ ok e))

  parse_lines_stop :
      (filename line : Str) (n : ℕ) (seen : List WhitelistEntity) (lines : List Str)
      (failure : Option Error) (reason : Error)
      → parse_line valid_channel line ≡ err reason
      → parse_lines valid_channel filename n seen (line ∷ lines) failure
        ≡ err (parse_error (record { filename = filename; line = n + 1; reason = reason }))
  unfolding parse_lines
  parse_lines_stop filename line n seen lines failure reason h = rw (parse_lines, h)

  parse_lines-first_error :
      (filename : Str) (n : ℕ) (seen : List WhitelistEntity) (good : List Str) (bad : Str)
      (rest : List Str) (failure : Option Error) (reason : Error)
      → AllParse good
      → parse_line valid_channel bad ≡ err reason
      → parse_lines valid_channel filename n seen (good ++ bad ∷ rest) failure
        ≡ err (
            parse_error
              (record { filename = filename; line = n + length good + 1; reason = reason }))
  parse_lines-first_error filename n seen [] bad rest failure reason h k =
      let here : n + 0 + 1 ≡ n + 1 = omega arith in
      rw here (parse_lines_stop filename bad n seen rest failure reason k)
  parse_lines-first_error filename n seen (line ∷ good) bad rest failure reason ((e, p), h) k =
      let shift : n + suc (length good) + 1 ≡ n + 1 + length good + 1 = omega arith in
      parse_lines-cons filename line n seen _ failure e p
      ∙ rw shift (parse_lines-first_error filename (n + 1) _ good bad rest failure reason h k)

  -- The first line that cannot be parsed stops the reading, and the error names the file, the number
  -- of that line counted from one, and the reason.
  parse_whitelist_first_error :
      (filename : Str) (good : List Str) (bad : Str) (rest : List Str) (failure : Option Error)
      (reason : Error)
      → AllParse good
      → parse_line valid_channel bad ≡ err reason
      → parse_whitelist valid_channel filename (good ++ bad ∷ rest) failure
        ≡ err
            (parse_error (record { filename = filename; line = length good + 1; reason = reason }))
  unfolding parse_whitelist
  parse_whitelist_first_error filename good bad rest failure reason h k =
      let count : 0 + length good + 1 ≡ length good + 1 = omega arith in
      rw count at (parse_lines-first_error filename 0 [] good bad rest failure reason h k)
