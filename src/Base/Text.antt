-- ===== src/Base/Text.antt =====
-- Go strings as lists of bytes, and what the program uses of the package `strings`.
use Prim.Native.Nat.{ℕ, zero, suc, ◌+◌, ◌*◌, ◌-◌, ◌^◌}
use Prim.Native.Char.{code}
use Prim.Native.String.{String}
use mathlib.Core.Bool.{Bool, true, false, not, ◌&&◌, ◌||◌}
use mathlib.Core.Option.{Option, none, some}
use mathlib.Core.List.{List, [], ◌∷◌, ◌++◌}
use charmstore_client.Base.Tests.{◌==◌, nat_eq, list_eq, if◌then◌else◌, ltb, leb}
use charmstore_client.Base.Lists.{is_empty}
use charmstore_client.Base.Int.{ℤ, pos, negsuc}

abbrev pub Str : Type 0
Str = List ℕ

-- A literal of the source, which is ASCII.
abbrev pub codes : String → Str
codes String.[] = []
codes (String.◌∷◌ c s) = code c ∷ codes s

-- The rest of `s` behind the prefix `p`.
unfoldable pub strip_prefix : Str → Str → Option Str
strip_prefix [] s = some s
strip_prefix (c ∷ p) [] = none
strip_prefix (c ∷ p) (d ∷ s) = let rest = strip_prefix p s in if c == d then rest else none

-- strings.HasPrefix(s, p)
abbrev pub has_prefix : Str → Str → Bool
has_prefix s p = elim (strip_prefix p s) [ none ↦ false | some _ ↦ true ]

-- strings.HasSuffix(s, p)
unfoldable pub has_suffix : Str → Str → Bool
has_suffix [] p = is_empty p
has_suffix (c ∷ s) p = let rest = has_suffix s p in if (c ∷ s) == p then true else rest

abbrev pub cons_first : ℕ → Option (Str × Str) → Option (Str × Str)
cons_first c none = none
cons_first c (some (a, b)) = some (c ∷ a, b)

-- strings.SplitN(s, sep, 2) for a `sep` that is not empty: `none` for a slice of length one.
unfoldable pub split_2 : Str → Str → Option (Str × Str)
unfolding strip_prefix
split_2 sep [] = none
split_2 sep (c ∷ s) =
    let rest = split_2 sep s in
    elim (strip_prefix sep (c ∷ s)) [ some r ↦ some ([], r) | none ↦ cons_first c rest ]

-- The parts of `s` before and after `s[strings.LastIndex(s, c)]`; `none` for index -1.
unfoldable pub last_cut : ℕ → Str → Option (Str × Str)
last_cut c [] = none
last_cut c (d ∷ s) = elim (last_cut c s) [
  | some (a, b) ↦ some (d ∷ a, b)
  | none ↦ if d == c then some ([], s) else none
]

abbrev pub on_head : ℕ → List Str → List Str
on_head d [] = (d ∷ []) ∷ []
on_head d (h ∷ t) = (d ∷ h) ∷ t

-- strings.Split(s, c) for a separator of one byte; the result is never empty.
unfoldable pub split : ℕ → Str → List Str
split c [] = [] ∷ []
split c (d ∷ s) = let rest = split c s in if d == c then [] ∷ rest else on_head d rest

-- strings.Join(l, c) for a separator of one byte.
unfoldable pub join : ℕ → List Str → Str
join c [] = []
join c (x ∷ []) = x
join c (x ∷ y ∷ l) = x ++ c ∷ join c (y ∷ l)

-- strings.Join(l, ", ")
abbrev pub join_comma : List Str → Str
join_comma [] = []
join_comma (x ∷ []) = x
join_comma (x ∷ y ∷ l) = x ++ codes ", " ++ join_comma (y ∷ l)

-- strings.TrimSuffix(s, c) for a suffix of one byte.
unfoldable pub trim_suffix : ℕ → Str → Str
trim_suffix c [] = []
trim_suffix c (d ∷ []) = if d == c then [] else d ∷ []
trim_suffix c (d ∷ d' ∷ s) = d ∷ trim_suffix c (d' ∷ s)

-- unicode.IsSpace on an ASCII byte
abbrev pub is_space : ℕ → Bool
is_space c = c == b' ' || (leb 9 c && leb c 13)

abbrev starts_word : Str → Bool
starts_word [] = false
starts_word (c ∷ _) = not (is_space c)

-- strings.Fields(s) for ASCII text
unfoldable pub fields : Str → List Str
fields [] = []
fields (c ∷ s) =
    let rest = fields s in
    if is_space c then rest else if starts_word s then on_head c rest else (c ∷ []) ∷ rest

-- A sequence of decimal digits, to a number.
unfoldable pub digits : ℕ → Str → Option ℕ
digits n [] = some n
digits n (c ∷ s) =
    let rest = digits (n * 10 + (c - b'0')) s in if leb b'0' c && leb c b'9' then rest else none

abbrev below_limit : ℕ → (ℕ → ℤ) → Option ℕ → Option ℤ
below_limit limit f none = none
below_limit limit f (some n) = if ltb n limit then some (f n) else none

abbrev negate : ℕ → ℤ
negate zero = pos zero
negate (suc n) = negsuc n

-- strconv.Atoi(s); `none` for its error. The result lies in the range of a 64-bit `int`.
unfoldable pub atoi : Str → Option ℤ
unfolding digits
atoi [] = none
atoi (c ∷ s) =
    if c == b'-' || c == b'+'
    then (if is_empty s
        then none
        else (if c == b'-'
            then below_limit (2 ^ 63 + 1) negate (digits 0 s)
            else below_limit (2 ^ 63) pos (digits 0 s)))
    else below_limit (2 ^ 63) pos (digits 0 (c ∷ s))
