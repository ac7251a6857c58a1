-- ===== src/Flags/Attach.antt =====
-- The arguments of `charm attach`.
use charmstore_client.Base.{
  ◌≡◌, refl, false, Option, none, some, [], ◌∷◌, ◌++◌, Str, split_2, contains, ok, is_empty, nat_eq,
  arith, subst,
}
use charmstore_client.Flags.{named_reference, parse_resource_file_arg}
use charmstore_client.Flags.Auth.{split_2-append, split_2-first}

named_reference-append :
    (raw : Str) (named : Str × Str) (o : Option (Str × Str))
    → split_2 (b'=' ∷ []) raw ≡ o
    → named_reference o ≡ ok named
    → named.0 ++ b'=' ∷ named.1 ≡ raw
named_reference-append raw named none cut h = ground arith
named_reference-append raw named (some ([], r)) cut h = ground arith
named_reference-append raw named (some (c ∷ n, [])) cut h = ground arith
named_reference-append raw named (some (c ∷ n, d ∷ r)) cut h =
    subst (λ x. x.0 ++ b'=' ∷ x.1 ≡ raw) {x = (c ∷ n, d ∷ r)} {y = named} (ground arith)
      (split_2-append b'=' raw (c ∷ n) (d ∷ r) cut)

-- An argument that is accepted is its name, "=" and its reference.
pub parse_resource_file_arg-append :
    (raw : Str) (named : Str × Str)
    → parse_resource_file_arg raw ≡ ok named
    → named.0 ++ b'=' ∷ named.1 ≡ raw
unfolding parse_resource_file_arg
parse_resource_file_arg-append raw named h = named_reference-append raw named _ refl h

-- Any name without "=" and any reference, neither of them empty, is accepted; the reference may
-- hold a "=".
pub parse_resource_file_arg-accepts :
    (name reference : Str)
    → is_empty name ≡ false
    → is_empty reference ≡ false
    → contains name b'=' ≡ false
    → parse_resource_file_arg (name ++ b'=' ∷ reference) ≡ ok (name, reference)
unfolding parse_resource_file_arg
parse_resource_file_arg-accepts name reference h k free =
    rw (split_2-first b'=' name reference free) (ground arith)
