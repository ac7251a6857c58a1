-- ===== src/Iomon/Printer.antt =====
-- The printer of status.go. The text of a status, with the name in front, is an argument: it is
-- formatted by code that works with floating-point numbers.
pub mod Screen
use charmstore_client.Base.{
  ℕ, suc, ◌-◌, Str, List, [], ◌∷◌, ◌++◌, if◌then◌else◌, ltb, length, replicate,
}

-- The width of the last line, its carriage return counted.
pub record Printer : Type 0 where
  pub prev_width : ℕ

abbrev pub carriage_return : ℕ
carriage_return = 13

abbrev pub spaces : ℕ → Str
spaces n = replicate n b' '

-- SetStatus: the printer, and what it writes.
unfoldable pub set_status : Str → Printer → Printer × Str
set_status text p =
    let s = carriage_return ∷ text in
    let width = length s in
    (
      record { prev_width = width },
      if ltb width p.prev_width then s ++ spaces (p.prev_width - width) else s,
    )

unfoldable pub clear : Printer → Printer × Str
clear p =
    (record { prev_width = 0 }, carriage_return ∷ (spaces p.prev_width ++ carriage_return ∷ []))
