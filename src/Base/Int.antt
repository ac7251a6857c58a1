-- ===== src/Base/Int.antt =====
-- Go's `int` where the program only stores, compares and prints it.
use Prim.Native.Nat.{ℕ}
use native.Mathlib.Decide.{ℕ_discrete}
use charmstore_client.Base.Tests.{Eq}

-- `negsuc n` is -(n + 1).
pub data ℤ : Type 0 where
  pos : ℕ → ℤ
  negsuc : ℕ → ℤ

int_dec : Discrete ℤ
unfolding ℕ_discrete
int_dec (pos m) (pos n) = elim (ℕ_discrete m n) [ yes p ↦ yes (cc) | no p ↦ no (λ r. p (cc)) ]
int_dec (pos m) (negsuc n) = no (λ r. cc)
int_dec (negsuc m) (pos n) = no (λ r. cc)
int_dec (negsuc m) (negsuc n) = elim (ℕ_discrete m n) [ yes p ↦ yes (cc) | no p ↦ no (λ r. p (cc)) ]

instance unfoldable pub int_eq : Eq ℤ
unfolding int_dec
int_eq = record { dec = int_dec }

-- -1, the revision of an id that names none.
abbrev pub minus_one : ℤ
minus_one = negsuc 0
