-- ===== src/Shell/Chars.antt =====
-- tp1/src/tokenizer.c: the classes of characters and the standard input. A `char` is its bit
-- pattern, so that `(char) EOF` is 255: a byte 255 of the input reads as its end.
use ift.Base.{ℕ, Bool, not, ◌&&◌, ◌||◌, List, [], ◌∷◌, ◌==◌, if◌then◌else◌}

abbrev pub eof : ℕ
eof = 255

-- `(char) getchar()`
unfoldable pub getchar : List ℕ → ℕ × List ℕ
getchar [] = (eof, [])
getchar (c ∷ cs) = (c, cs)

-- `ungetc(EOF, stdin)` does nothing
unfoldable pub ungetc : ℕ → List ℕ → List ℕ
ungetc c cs = if c == eof then cs else c ∷ cs

unfoldable pub is_whitespace : ℕ → Bool
is_whitespace c = c == b' ' || c == b'\t' || c == b'\r'

unfoldable pub is_operator : ℕ → Bool
is_operator c = c == b'&' || c == b'|' || c == b';' || c == b'\n'

unfoldable pub is_terminator : ℕ → Bool
is_terminator c = c == 0 || c == eof

unfoldable pub is_symbol_char : ℕ → Bool
unfolding is_whitespace is_operator is_terminator
is_symbol_char c = not (is_whitespace c) && not (is_operator c) && not (is_terminator c)

-- `toEscaped`
unfoldable pub to_escaped : ℕ → ℕ
to_escaped c =
    if c == b'a'
    then 7
    else if c == b'b'
    then 8
    else if c == b't'
    then 9
    else if c == b'n'
    then 10
    else if c == b'r'
    then 13
    else if c == b'\\'
    then b'\\'
    else if c == b'\''
    then b'\''
    else if c == b'"'
    then b'"'
    else if c == b'0'
    then 0
    else c
