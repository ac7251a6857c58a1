-- ===== src/Ingest/Resolve/Channels.antt =====
-- The channels of what is sent.
use charmstore_client.Base.{
  ℤ, minus_one, ◌≡◌, Bool, false, Option, none, some, List, [], ◌∷◌, Str, ◌==◌, list_eq, nat_eq,
  int_eq, if◌then◌else◌, arith, contains,
}
use charmstore_client.Base.Dict
use charmstore_client.Base.Dict.{Dict}
use charmstore_client.Ingest.Resolve.{narrow_channels}

-- The published state of a channel that was asked for.
abbrev pub narrowed : ℤ → Option Bool → Option Bool
narrowed revision none = none
narrowed revision (some current) = some (if revision == minus_one then current else false)

-- Of the published channels exactly those that are asked for are left, and one of them is left as
-- current if and only if it was current and the id names no revision.
lookup-narrow_channels :
    (needed : List Str) (revision : ℤ) (channels : Dict Str Bool) (ch : Str)
    → Dict.lookup ch (narrow_channels needed revision channels)
      ≡ (if contains needed ch then narrowed revision (Dict.lookup ch channels) else none)
unfolding narrow_channels Dict.lookup
lookup-narrow_channels needed revision [] ch = ground arith
lookup-narrow_channels needed revision ((pch, current) ∷ channels) ch =
    ground (arith, lookup-narrow_channels needed revision channels ch)
