-- ===== src/Tests/Shows.antt =====
-- The theorems on charm show and charm set, at concrete inputs.
use charmstore_client.Base.{
  pos, minus_one, ◌≡◌, refl, Bool, true, false, ◌==◌, Option, none, some, List, [], ◌∷◌, Str, codes,
  ok, arith, nat_eq, list_eq,
}
use charmstore_client.Base.Dict
use charmstore_client.Base.Dict.{Dict}
use charmstore_client.Charm.{Url}
use charmstore_client.Metadata.{
  common_info, handle_includes, is_common_field, require_common, include_loop, handle_include,
  Value, json,
}
use charmstore_client.Metadata.Json.{Json, text, object, member, no_members, members}
use charmstore_client.Metadata.Set
use charmstore_client.Metadata.Set.{SetCommand, FieldStore}
use charmstore_client.Metadata.Set.Stored.{changed, Stored}
use charmstore_client.Metadata.Show.{MetaStore, fields, show_includes}
use charmstore_client.Metadata.Show.Fields.{IsAnswer, shown_field, show_includes-fields}
use charmstore_client.Metadata.Summary.{ShowData, new_show_data, format_tabular}
use charmstore_client.Metadata.Summary.Encoded.{encode, new_show_data-encode}

abbrev mysql : Url
mysql = record {
  schema = codes "cs";
  user = [];
  name = codes "m";
  series = [];
  revision = minus_one;
}

-- The page of the bugs is not known.
abbrev info : Dict Str Json
info = (codes "homepage", text (codes "x.org")) ∷ []

abbrev answer : Dict Str Json
answer =
    (codes "id", text (codes "m"))
    ∷ (common_info, object (member (codes "homepage") (text (codes "x.org")) no_members))
    ∷ []

abbrev store : MetaStore
store = record {
  meta_endpoints = ok (codes "id" ∷ []);
  meta_any = λ id includes. ok answer;
  path = λ id includes. codes "/m/meta/any";
}

abbrev wanted : List Str
wanted = codes "bugs-url" ∷ codes "id" ∷ codes "homepage" ∷ []

request_lem : (handle_includes wanted).new_includes ≡ codes "id" ∷ common_info ∷ []
unfolding handle_includes list_eq nat_eq require_common include_loop handle_include is_common_field
request_lem = refl

answer-IsAnswer : IsAnswer (codes "id" ∷ common_info ∷ []) answer
unfolding Dict.lookup
answer-IsAnswer x = ground arith

show_includes-fields_example :
    (out : Dict Str Json) × (show_includes store mysql wanted ≡ some (ok (fields out)))
    × ((x : Str) → Dict.lookup x out ≡ shown_field store mysql wanted answer info x)
unfolding handle_includes list_eq nat_eq Dict.lookup require_common include_loop handle_include
    is_common_field members
show_includes-fields_example =
    show_includes-fields store mysql wanted answer info refl answer-IsAnswer (λ n. refl)

abbrev summary : ShowData
summary = record {
  name = codes "m";
  summary = codes "a base";
  owner = codes "bob";
  supported_series = codes "xenial" ∷ [];
  tags = [];
  terms = codes "t" ∷ codes "u" ∷ [];
  promulgated = true;
  subordinate = false;
  revision = pos 3;
  bugs_url = [];
  home_page = codes "x.org";
  read = codes "everyone" ∷ [];
  write = codes "bob" ∷ [];
  channels = [];
  bundle = false;
}

summary_read : new_show_data (encode summary) ≡ some summary
summary_read = new_show_data-encode summary refl

summary_text :
    format_tabular (λ n. codes "3") (λ x. codes "s") (λ x. codes "t") summary
    ≡ some (
        codes
          "a base\n\nName\tm\nOwner\tbob\nRevision\t3\nSupported Series\txenial\nTags\t\nSubordinate\tfalse\nPromulgated\ttrue\nHome page\tx.org\nBugs url\t\nRead\teveryone\nWrite\tbob\nTerms\tt, u\n \t \nNot released to any channel.\n")
unfolding format_tabular
summary_text = refl

-- A store that keeps the fields of one entity, as functions of their names.
abbrev Kept : Type 0
Kept = (Str → Option Value) × (Str → Option Value)

-- A JSON null removes a field.
abbrev is_null : Value → Bool
is_null (Value.text _) = false
is_null (json v) = v == codes "null"

abbrev field_store : FieldStore
field_store = record {
  State = Kept;
  put_common_info = λ _ d s. (none, ((λ j. changed is_null (Dict.lookup j d) (s.0 j)), s.1));
  put_extra_info = λ _ d s. (none, (s.0, (λ j. changed is_null (Dict.lookup j d) (s.1 j))));
}

abbrev no_command : SetCommand
no_command = record { id = mysql; common_fields = []; extra_fields = [] }

abbrev given : Dict Str Value
given = (codes "homepage", Value.text (codes "x.org")) ∷ (codes "x", json (codes "1")) ∷ []
