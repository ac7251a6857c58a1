-- ===== src/Charm.antt =====
-- internal/charm/charm.go. The URL type and its parser belong to the library that the package wraps:
-- `Url` has the fields that the program reads or writes, and the parser is a parameter.
use charmstore_client.Base.{
  Str, ℤ, Result, ok, err, Error, Option, none, some, codes, contains, nat_eq, ◌++◌, if◌then◌else◌,
}

pub record Url : Type 0 where
  pub schema : Str
  pub user : Str
  pub name : Str
  pub series : Str
  pub revision : ℤ

module _ (library_parse : Str → Result Error Url) where
  -- The only legal place for a ":" is behind the scheme; without one the scheme is "cs".
  unfoldable pub parse_url : Str → Result Error Url
  parse_url s = library_parse (if contains s b':' then s else codes "cs:" ++ s)

  -- A panic is `none`.
  unfoldable pub must_parse_url : Str → Option Url
  unfolding parse_url
  must_parse_url s = elim (parse_url s) [ ok u ↦ some u | err _ ↦ none ]
