-- ===== src/Turing/Text/Lines.antt =====
-- Lines of a file and what `readline` makes of them.
use ift.Base.{
  ℕ, zero, suc, ◌+◌, ◌≤◌, ◌<◌, ◌≡◌, ◌≢◌, refl, ◌∙◌, ap, false, none, some, List, [], ◌∷◌, ◌++◌,
  arith, ◌==◌, length, All,
}
use ift.Turing.Text.{lines_from, no_of_lines, line_from, readline, c_string}

-- A byte of a name, and one that a line can hold.
pub record IsNameByte (c : ℕ) : Type 0 where
  pub no_null : c ≢ 0
  pub no_newline : c ≢ b'\n'
  pub no_comma : c ≢ b','

abbrev pub IsLineByte : ℕ → Type 0
IsLineByte c = (c ≢ 0) × (c ≢ b'\n')

abbrev pub IsName : List ℕ → Type 0
IsName s = All IsNameByte s × (length s ≤ 5)

line_from-line :
    (left : ℕ) (line rest : List ℕ)
    → All IsLineByte line
    → length line < left
    → line_from left (line ++ b'\n' ∷ rest) ≡ some (line, rest)
unfolding line_from
line_from-line zero line rest h lt = absurd (omega arith)
line_from-line (suc left) [] rest h lt = refl
line_from-line (suc left) (c ∷ line) rest h lt =
    let ne : c ≢ b'\n' = h.0.1 in
    let e : (c == b'\n') ≡ false = ground arith in
    rw (e, line_from-line left line rest h.1 (omega arith)) refl

-- A line that is not too long is read whole, and the file behind its newline is left.
pub readline-line :
    (line rest : List ℕ) (max_len : ℕ)
    → All IsLineByte line
    → length line ≤ max_len
    → readline (line ++ b'\n' ∷ rest) max_len ≡ some (line, rest)
unfolding readline
readline-line line rest max_len h le = line_from-line (max_len + 1) line rest h (omega arith)

pub line_from-long :
    (line rest : List ℕ) → All IsLineByte line → line_from (length line) (line ++ rest) ≡ none
unfolding line_from
line_from-long [] [] h = refl
line_from-long [] (c ∷ rest) h = refl
line_from-long (c ∷ line) rest h =
    let ne : c ≢ b'\n' = h.0.1 in
    let e : (c == b'\n') ≡ false = ground arith in rw (e, line_from-long line rest h.1) refl

-- the lines of a file, each with its newline
abbrev pub unlines : List (List ℕ) → List ℕ
unlines [] = []
unlines (l ∷ ls) = l ++ b'\n' ∷ unlines ls

lines_from-line :
    (previous : ℕ) (l rest : List ℕ)
    → All IsLineByte l
    → lines_from previous (l ++ b'\n' ∷ rest) ≡ suc (lines_from b'\n' rest)
unfolding lines_from
lines_from-line previous [] rest h = refl
lines_from-line previous (c ∷ l) rest h =
    let ne : c ≢ b'\n' = h.0.1 in
    let e : (c == b'\n') ≡ false = ground arith in rw e (lines_from-line c l rest h.1)

lines_from-unlines :
    (ls : List (List ℕ)) → All (All IsLineByte) ls → lines_from b'\n' (unlines ls) ≡ length ls
unfolding lines_from
lines_from-unlines [] h = refl
lines_from-unlines (l ∷ ls) h =
    lines_from-line b'\n' l (unlines ls) h.0 ∙ ap suc (lines_from-unlines ls h.1)

-- `no_of_lines` counts the lines of a file.
pub no_of_lines-unlines :
    (ls : List (List ℕ)) → All (All IsLineByte) ls → no_of_lines (unlines ls) ≡ length ls
unfolding no_of_lines
no_of_lines-unlines ls h = lines_from-unlines ls h

pub c_string-line : (l : List ℕ) → All IsLineByte l → c_string l ≡ l
unfolding c_string
c_string-line [] h = refl
c_string-line (c ∷ l) h =
    let ne : c ≢ 0 = h.0.0 in
    let e : (c == 0) ≡ false = ground arith in rw e (ap (λ z. c ∷ z) (c_string-line l h.1))
