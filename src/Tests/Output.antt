-- ===== src/Tests/Output.antt =====
-- The theorems on the whitelist file and on the progress of transfers, at concrete inputs.
use charmstore_client.Base.{
  ℕ, ◌≡◌, refl, Bool, none, List, [], ◌∷◌, ◌++◌, Str, codes, ok, map, contains, nat_eq, list_eq,
}
use charmstore_client.Ingest.Entity.{WhitelistEntity}
use charmstore_client.Whitelist.{parse_whitelist}
use charmstore_client.Whitelist.Laws.{format_line, parse_whitelist-map}
use charmstore_client.Iomon.Monitor.{Event, updated, tick, zero_status, new_monitor, run}
use charmstore_client.Iomon.Monitor.Laws.{
  last_of, last_count, last_update, NoRepeat, run_final_status,
}
use charmstore_client.Iomon.Printer.{spaces}
use charmstore_client.Iomon.Printer.Screen.{Op, show, wipe, line, last_shown, run_shows_last}
use charmstore_client.Iomon.Printer.Screen

-- Two channels.
abbrev known_channel : Str → Bool
known_channel ch = contains (codes "stable" ∷ codes "edge" ∷ []) ch

abbrev listed : List WhitelistEntity
listed =
    record { entity_id = codes "wp"; channels = codes "edge" ∷ []; resources = [] }
    ∷ record { entity_id = codes "~b/x-3"; channels = codes "edge" ∷ []; resources = [] }
    ∷ []

parse_whitelist-map_example :
    parse_whitelist known_channel (codes "f") (map format_line listed) none ≡ ok listed
unfolding nat_eq list_eq
parse_whitelist-map_example = parse_whitelist-map known_channel (codes "f") listed (
  ((refl, (refl, (refl, tt))), ((refl, (refl, (refl, (refl, (refl, tt))))), tt), (refl, tt), refl),
  (
    (
      (refl, (refl, (refl, (refl, (refl, (refl, (refl, tt))))))),
      ((refl, (refl, (refl, (refl, (refl, tt))))), tt),
      (refl, tt),
      refl,
    ),
    tt,
  ),
)

abbrev progress : List Event
progress = updated 10 ∷ tick ∷ tick ∷ updated 25 ∷ tick ∷ updated 40 ∷ []

run_final_status_example :
    let m = run (3 ∷ 7 ∷ []) progress (new_monitor 40) in
    (last_of zero_status m.sent
      ≡ record { current = last_update (last_count 0 (3 ∷ 7 ∷ [])) progress; total = 40 })
    × NoRepeat zero_status m.sent
run_final_status_example = run_final_status 40 (3 ∷ 7 ∷ []) progress

abbrev display : List Op
display = show (codes "mysql 100%") ∷ show (codes "vsftpd") ∷ []

run_shows_last_example :
    (k : ℕ) × (line
        (Screen.run display (record { prev_width = 0 }) (record { before = []; after = [] })).1
      ≡ last_shown [] display ++ spaces k)
unfolding nat_eq
run_shows_last_example = run_shows_last display (
  (refl, (refl, (refl, (refl, (refl, (refl, (refl, (refl, (refl, (refl, tt)))))))))),
  ((refl, (refl, (refl, (refl, (refl, (refl, tt)))))), tt),
)
