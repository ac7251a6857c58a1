-- ===== src/Iomon/Printer/Screen.antt =====
-- What a terminal shows of the printer's output.
use charmstore_client.Base.{
  ℕ, zero, suc, ◌+◌, ◌-◌, ◌≤◌, ◌≡◌, refl, ◌∙◌, ap, false, Str, List, [], ◌∷◌, ◌++◌, ◌==◌, nat_eq,
  if◌then◌else◌, ltb, length, length-append, length-replicate, All, All-append, append_assoc,
  append-nil, arith, Bool-cases, inl, inr, subst,
}
use native.Mathlib.Numerals.{unary_clauses}
use charmstore_client.Iomon.Printer.{Printer, carriage_return, spaces, set_status, clear}

-- One line of a terminal: the cells before the cursor, and the rest.
pub record Terminal : Type 0 where
  pub before : Str
  pub after : Str

abbrev pub line : Terminal → Str
line t = t.before ++ t.after

abbrev pub drop : ℕ → Str → Str
drop zero s = s
drop (suc n) [] = []
drop (suc n) (c ∷ s) = drop n s

-- A carriage return moves the cursor to the first cell; any other byte goes over the cell there.
pub type_out : Str → Terminal → Terminal
type_out [] t = t
type_out (c ∷ s) t = type_out s (
    if c == carriage_return
    then record { before = []; after = line t }
    else record { before = t.before ++ c ∷ []; after = drop 1 t.after })

-- A text that stays on its line.
abbrev pub IsPlain : Str → Type 0
IsPlain = All (λ c. (c == carriage_return) ≡ false)

drop-drop_1 : (n : ℕ) (s : Str) → drop n (drop 1 s) ≡ drop (suc n) s
drop-drop_1 zero [] = refl
drop-drop_1 (suc n) [] = refl
drop-drop_1 n (c ∷ s) = refl

type_out-plain :
    (s : Str) (b a : Str)
    → IsPlain s
    → type_out s (record { before = b; after = a })
      ≡ record { before = b ++ s; after = drop (length s) a }
unfolding type_out
type_out-plain [] b a h = rw append-nil refl
type_out-plain (c ∷ s) b a (h, k) = rw h (
    type_out-plain s (b ++ c ∷ []) (drop 1 a) k
    ∙ rw (append_assoc b (c ∷ []) s, drop-drop_1 (length s) a) refl)

-- What has been shown last is at the front of the line with spaces behind it, and the printer
-- knows how far it goes.
record Shows (text : Str) (p : Printer) (t : Terminal) : Type 0 where
  blanks : ℕ
  line_is : line t ≡ text ++ spaces blanks
  is_known : length text ≤ p.prev_width - 1

-- What is done with a printer.
pub data Op : Type 0 where
  show : Str → Op
  wipe : Op

abbrev pub written : Op → Printer → Printer × Str
written (show text) = set_status text
written wipe = clear

abbrev pub shown : Op → Str
shown (show text) = text
shown wipe = []

-- A printer and its terminal after some operations, and what should then be on the line.
pub run : List Op → Printer → Terminal → Printer × Terminal
run [] p t = (p, t)
run (op ∷ ops) p t = let (p', s) = written op p in run ops p' (type_out s t)

abbrev pub last_shown : Str → List Op → Str
last_shown text [] = text
last_shown text (op ∷ ops) = last_shown (shown op) ops

spaces_add : (m n : ℕ) → spaces m ++ spaces n ≡ spaces (m + n)
spaces_add zero n = ap spaces (omega arith)
spaces_add (suc m) n =
    ap (λ s. b' ' ∷ s) (spaces_add m n) ∙ ap spaces {x = suc (m + n)} {y = suc m + n} (omega arith)

spaces-IsPlain : (n : ℕ) → IsPlain (spaces n)
unfolding nat_eq
spaces-IsPlain zero = tt
spaces-IsPlain (suc n) = (refl, spaces-IsPlain n)

drop-spaces : (n k : ℕ) → drop n (spaces k) ≡ spaces (k - n)
drop-spaces zero k = ap spaces (omega arith)
drop-spaces (suc n) zero = ap spaces {x = 0} {y = 0 - suc n} (omega arith)
drop-spaces (suc n) (suc k) = simp unary_clauses (drop-spaces n k)

-- Past the text there are spaces only.
drop-past :
    (n : ℕ) (text : Str) (k : ℕ)
    → length text ≤ n
    → (j : ℕ) × (drop n (text ++ spaces k) ≡ spaces j)
drop-past n [] k h = (k - n, drop-spaces n k)
drop-past zero (c ∷ text) k h = absurd (omega arith)
drop-past (suc n) (c ∷ text) k h = drop-past n text k (omega arith)

-- What a plain text does behind a carriage return.
type_out-return :
    (s : Str) (t : Terminal)
    → IsPlain s
    → type_out (carriage_return ∷ s) t ≡ record { before = s; after = drop (length s) (line t) }
unfolding type_out nat_eq
type_out-return s t h = type_out-plain s [] (line t) h

length-padded : (text : Str) (m : ℕ) → length (text ++ spaces m) ≡ length text + m
length-padded text m =
    length-append text (spaces m) ∙ ap (λ n. length text + n) (length-replicate m b' ')

-- A text with enough spaces behind it covers the one before.
Shows-padded :
    (old text : Str) (m : ℕ) (p p' : Printer) (t : Terminal)
    → Shows old p t
    → IsPlain text
    → length old ≤ length text + m
    → length text ≤ p'.prev_width - 1
    → Shows text p' (type_out (carriage_return ∷ (text ++ spaces m)) t)
Shows-padded old text m p p' t h plain covers known =
    let (j, past) =
      drop-past (length (text ++ spaces m)) old h.blanks (rw (length-padded text m) covers) in
    rw
      (type_out-return (text ++ spaces m) t (All-append _ text (spaces m) plain (spaces-IsPlain m)))
      (record {
        blanks = m + j;
        line_is =
            rw (h.line_is, past, append_assoc text (spaces m) (spaces j), spaces_add m j) refl;
        is_known = known;
      })

set_status-Shows :
    (old text : Str) (p : Printer) (t : Terminal)
    → Shows old p t
    → IsPlain text
    → Shows text (set_status text p).0 (type_out (set_status text p).1 t)
unfolding set_status
set_status-Shows old text p t h plain =
    elim (Bool-cases (ltb (suc (length text)) p.prev_width))
      as (λ _. Shows text (set_status text p).0 (type_out (set_status text p).1 t)) [
        | inl wider ↦ rw wider (
            Shows-padded old text (p.prev_width - suc (length text)) p _ t h plain (ground arith)
              (ground arith))
        | inr narrower ↦ rw narrower (
            subst
              (λ s.
                Shows text (record { prev_width = suc (length text) })
                  (type_out (carriage_return ∷ s) t))
              (append-nil text)
              (Shows-padded old text 0 p (record { prev_width = suc (length text) }) t h plain
                (ground arith) (ground arith)))
      ]

type_out-append : (s s' : Str) (t : Terminal) → type_out (s ++ s') t ≡ type_out s' (type_out s t)
unfolding type_out
type_out-append [] s' t = refl
type_out-append (c ∷ s) s' t = type_out-append s s' _

-- A carriage return alone leaves the line as it is.
Shows-return :
    (text : Str) (p : Printer) (t : Terminal)
    → Shows text p t
    → Shows text p (type_out (carriage_return ∷ []) t)
unfolding type_out nat_eq
Shows-return text p t h = record { blanks = h.blanks; line_is = h.line_is; is_known = h.is_known }

clear-Shows :
    (old : Str) (p : Printer) (t : Terminal)
    → Shows old p t
    → Shows [] (clear p).0 (type_out (clear p).1 t)
unfolding clear
clear-Shows old p t h =
    rw (type_out-append (carriage_return ∷ spaces p.prev_width) (carriage_return ∷ []) t) (
      Shows-return [] (record { prev_width = 0 })
        (type_out (carriage_return ∷ spaces p.prev_width) t)
        (Shows-padded old [] p.prev_width p (record { prev_width = 0 }) t h tt (omega arith)
          (omega arith)))

-- Each operation shows what it is given.
written-Shows :
    (op : Op) (old : Str) (p : Printer) (t : Terminal)
    → Shows old p t
    → IsPlain (shown op)
    → Shows (shown op) (written op p).0 (type_out (written op p).1 t)
written-Shows (show text) old p t h plain = set_status-Shows old text p t h plain
written-Shows wipe old p t h plain = clear-Shows old p t h

run-Shows :
    (ops : List Op) (old : Str) (p : Printer) (t : Terminal)
    → Shows old p t
    → All (λ op. IsPlain (shown op)) ops
    → Shows (last_shown old ops) (run ops p t).0 (run ops p t).1
unfolding run
run-Shows [] old p t h plain = h
run-Shows (op ∷ ops) old p t h plain =
    run-Shows ops (shown op) _ _ (written-Shows op old p t h plain.0) plain.1

-- After any sequence of SetStatus and Clear on a new Printer, of texts without a carriage
-- return, what the terminal's line shows is the text of the last of them, and nothing after a
-- Clear, with only spaces behind it: no byte of an earlier and longer text is left.
pub run_shows_last :
    (ops : List Op)
    → All (λ op. IsPlain (shown op)) ops
    → (k : ℕ) × (line (run ops (record { prev_width = 0 }) (record { before = []; after = [] })).1
        ≡ last_shown [] ops ++ spaces k)
run_shows_last ops plain =
    let h =
      run-Shows ops [] (record { prev_width = 0 }) (record { before = []; after = [] })
        (record { blanks = 0; line_is = refl; is_known = omega arith }) plain in
    (h.blanks, h.line_is)
