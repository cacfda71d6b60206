-- ===== src/FileWatcher/Lines.antt =====
-- What one scan reads: the lines of what is left of the file.
use mathlib.Core.Path.{subst}
use wifigateway_server.Base.{
  true, ◌+◌, ℕ, zero, suc, ◌≤◌, ◌<◌, ◌≡◌, ◌≢◌, refl, sym, ap, ◌∙◌, false, List, [], ◌∷◌, ◌++◌,
  arith, ◌==◌, if◌then◌else◌, Bool-cases, inl, inr,
}
use wifigateway_server.Qt.Text.{QString, is_empty, of_bytes}
use wifigateway_server.FileWatcher.{
  length, read_line, read_whole_line, read_lines, scan_all, scan_lines, scan_rest,
}

-- A unit in front of the first line.
abbrev pub glue : ℕ → List QString → List QString
glue b [] = (b ∷ []) ∷ []
glue b (l ∷ ls) = (b ∷ l) ∷ ls

-- The lines of a text, each with its newline; the last one may have none.
abbrev pub lines : QString → List QString
lines [] = []
lines (b ∷ s) = if b == b'\n' then (b ∷ []) ∷ lines s else glue b (lines s)

-- The text is empty or ends with a newline.
abbrev pub IsComplete : QString → Type 0
IsComplete [] = Unit {0}
IsComplete (b ∷ []) = b ≡ b'\n'
IsComplete (b ∷ c ∷ s) = IsComplete (c ∷ s)

-- The first line is no longer than the limit of the first read.
abbrev pub FirstFits : QString → Type 0
FirstFits s = length (read_whole_line s).0 ≤ 1024

read_line_nil : (n : ℕ) → read_line n [] ≡ ([], [])
read_line_nil zero = refl
read_line_nil (suc n) = refl

-- A read that is long enough takes the first line.
read_line-lines :
    (n b : ℕ) (s : QString)
    → length s < n
    → lines (b ∷ s) ≡ (read_line n (b ∷ s)).0 ∷ lines (read_line n (b ∷ s)).1
read_line-lines zero b s h = absurd (omega arith)
read_line-lines (suc n) b [] h = ground (arith, read_line_nil n)
read_line-lines (suc n) b (c ∷ s) h = ground (arith, read_line-lines n c s (omega arith))

read_line_shorter : (n : ℕ) (s : QString) → length (read_line n s).1 ≤ length s
read_line_shorter zero s = omega arith
read_line_shorter (suc n) [] = omega arith
read_line_shorter (suc n) (b ∷ s) = ground (arith, read_line_shorter n s)

read_line_some :
    (n b : ℕ) (s : QString)
    → (is_empty (read_line (suc n) (b ∷ s)).0 ≡ false)
      × (length (read_line (suc n) (b ∷ s)).1 ≤ length s)
read_line_some n b s = ground (arith, read_line_shorter n s)

-- A limit that the line does not reach does not matter.
read_line_limit :
    (m n : ℕ) (s : QString)
    → length s ≤ m
    → length (read_line m s).0 ≤ n
    → read_line n s ≡ read_line m s
read_line_limit m n [] h k = rw (read_line_nil m, read_line_nil n) refl
read_line_limit zero n (b ∷ s) h k = absurd (omega arith)
read_line_limit (suc m) zero (b ∷ s) h k = absurd (ground arith)
read_line_limit (suc m) (suc n) (b ∷ s) h k = elim (Bool-cases (b == b'\n')) [
  | inl newline ↦ ground arith
  | inr other ↦ ground (arith, read_line_limit m n s (omega arith) (ground arith))
]

abbrev pub concat : List QString → QString
concat [] = []
concat (l ∷ ls) = l ++ concat ls

-- No line is empty as a QString, as one that starts with NUL is.
abbrev pub AllSpeak : List QString → Type 0
AllSpeak [] = Unit {0}
AllSpeak (l ∷ ls) = (is_empty (of_bytes l) ≡ false) × AllSpeak ls

-- The fuel of the loop is enough, and it reads on to the end.
read_lines-lines :
    (fuel : ℕ) (line rest : QString)
    → is_empty (of_bytes line) ≡ false
    → AllSpeak (lines rest)
    → length rest < fuel
    → read_lines fuel line rest ≡ (line ∷ lines rest, [])
unfolding read_lines
read_lines-lines zero line rest e v h = absurd (omega arith)
read_lines-lines (suc zero) line [] e v h = ground arith
read_lines-lines (suc (suc fuel)) line [] e v h = ground arith
read_lines-lines (suc fuel) line (b ∷ s) e v h =
    let (some_read, shorter) = read_line_some (length s) b s in
    let first = read_line-lines (suc (length s)) b s (omega arith) in
    let (speaks, v') = subst AllSpeak first v in
    let more =
      read_lines-lines fuel (read_line (suc (length s)) (b ∷ s)).0
        (read_line (suc (length s)) (b ∷ s)).1 speaks v' (omega (arith, shorter, h)) in
    ground (arith, first, more)

-- If the first line is not over the limit and none starts with NUL, a scan reads the lines of the
-- text and leaves nothing.
scan_all_lem : (s : QString) → FirstFits s → AllSpeak (lines s) → scan_all s ≡ (lines s, [])
unfolding scan_all read_lines
scan_all_lem [] fits v = refl
scan_all_lem (b ∷ s) fits v =
    let (some_read, shorter) = read_line_some (length s) b s in
    let first = read_line-lines (suc (length s)) b s (omega arith) in
    let (speaks, v') = subst AllSpeak first v in
    rw (read_line_limit (suc (length s)) 1024 (b ∷ s) (omega arith) fits) (
      read_lines-lines (suc (suc (length s))) (read_whole_line (b ∷ s)).0
        (read_whole_line (b ∷ s)).1 speaks v' (omega (arith, shorter))
      ∙ ap (λ (ls : List QString). (ls, [])) (sym first))

pub scan_lines_lem : (s : QString) → FirstFits s → AllSpeak (lines s) → scan_lines s ≡ lines s
unfolding scan_lines
scan_lines_lem s fits v = ap (λ (r : List QString × QString). r.0) (scan_all_lem s fits v)

pub scan_rest_lem : (s : QString) → FirstFits s → AllSpeak (lines s) → scan_rest s ≡ []
unfolding scan_rest
scan_rest_lem s fits v = ap (λ (r : List QString × QString). r.1) (scan_all_lem s fits v)

-- What a scan has read: the lines that it goes on with, and then a line that is empty or starts
-- with NUL, at which it stops.
pub record Parts (bytes : QString) (ls : List QString) (unread : QString) : Type 0 where
  pub stop : QString
  pub parts : bytes ≡ concat ls ++ (stop ++ unread)
  pub speak : AllSpeak ls
  pub stops : is_empty (of_bytes stop) ≡ true
  pub at_end : stop ≡ [] → unread ≡ []

pub length_append : (s t : QString) → length (s ++ t) ≡ length s + length t
length_append [] t = ground arith
length_append (b ∷ s) t = ground (arith, length_append s t)

-- A unit in front of a text, on its lines.
abbrev add_unit : ℕ → List QString → List QString
add_unit b ls = if b == b'\n' then (b ∷ []) ∷ ls else glue b ls

add_unit_some : (b : ℕ) (ls : List QString) → add_unit b ls ≢ []
add_unit_some b [] e = ground arith
add_unit_some b (l ∷ ls) e = ground arith

lines_some : (b : ℕ) (s : QString) → lines (b ∷ s) ≢ []
lines_some b s = add_unit_some b (lines s)

add_unit-append :
    (b : ℕ) (ls ms : List QString) → ls ≢ [] → add_unit b (ls ++ ms) ≡ add_unit b ls ++ ms
add_unit-append b [] ms n = absurd (n refl)
add_unit-append b (l ∷ ls) ms n = ground arith

-- The lines of a text that goes on after a newline.
pub lines_append : (s t : QString) → IsComplete s → lines (s ++ t) ≡ lines s ++ lines t
lines_append [] t c = refl
lines_append (b ∷ []) t c = ground arith
lines_append (b ∷ d ∷ s) t c =
    ap (add_unit b) (lines_append (d ∷ s) t c)
    ∙ add_unit-append b (lines (d ∷ s)) (lines t) (lines_some d s)
