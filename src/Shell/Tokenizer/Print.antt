-- ===== src/Shell/Tokenizer/Print.antt =====
-- A line of tokens that is written out and read back.
use ift.Base.{
  ℕ, zero, suc, ◌<◌, ◌≤◌, ◌≡◌, ◌≢◌, refl, sym, ◌∙◌, ap, true, false, ◌||◌, Option, some, List, [],
  ◌∷◌, ◌++◌, map, arith, ◌==◌, All, length, length-append, ◌>>=◌, Yields-some,
}
use mathlib.Core.List.{append_assoc, append-nil}
use ift.Shell.Chars.{
  eof, getchar, ungetc, is_whitespace, is_operator, is_terminator, is_symbol_char,
}
use ift.Shell.Tokenizer.{
  invalid, symbol, string_literal, semicolon, pipe, logical_and, logical_or, newline, Token, plain,
  Buffer, Read, push, close, finish, literal_from, read_string_literal, symbol_from, read_symbol,
  peek, valued, read_token, tok_next, line_from, link, tok_next_line,
}
use ift.Shell.Tokenizer.Bounds.{Fits, push-Fits, fresh-Fits}
use ift.Shell.Tokenizer.Escapes.{IsPlain, literal_from-plain, append-ne-nil}

-- a token of a line, as its writer sees it
pub data Word : Type 0 where
  sym_word : ℕ → List ℕ → Word
  quoted : List ℕ → Word
  semi bar ampersand and_and or_or : Word

abbrev pub text : Word → List ℕ
text (sym_word c cs) = c ∷ cs
text (quoted bytes) = b'"' ∷ (bytes ++ b'"' ∷ [])
text semi = b';' ∷ []
text bar = b'|' ∷ []
text ampersand = b'&' ∷ []
text and_and = b'&' ∷ b'&' ∷ []
text or_or = b'|' ∷ b'|' ∷ []

abbrev pub token_of : Word → Token
token_of (sym_word c cs) = record { category = symbol; value = some (c ∷ cs) }
token_of (quoted bytes) = record { category = string_literal; value = some bytes }
token_of semi = plain semicolon
token_of bar = plain pipe
token_of ampersand = plain invalid
token_of and_and = plain logical_and
token_of or_or = plain logical_or

-- A symbol does not begin with a quote, and a quoted text has no escapes.
abbrev pub IsWritable : Word → Type 0
IsWritable (sym_word c cs) =
    (is_symbol_char c ≡ true) × (c ≢ b'"') × (c ≢ b'\'') × All (λ d. is_symbol_char d ≡ true) cs
IsWritable (quoted bytes) = All (IsPlain b'"') bytes
IsWritable _ = Unit

-- each word, and a space behind it
abbrev pub spell : List Word → List ℕ → List ℕ
spell [] end = end
spell (w ∷ ws) end = text w ++ b' ' ∷ spell ws end

finish-Fits : (b : Buffer) (rest : List ℕ) → Fits b → finish b rest ≡ some (some b.bytes, rest)
unfolding finish close
finish-Fits b rest f = ground arith

grown :
    (b b' : Buffer) (c : ℕ) (cs rest : List ℕ)
    → b'.bytes ≡ b.bytes ++ c ∷ []
    → ◌≡◌ {A = Option Read}
        (some (some (b'.bytes ++ cs), rest))
        (some (some (b.bytes ++ c ∷ cs), rest))
grown b b' c cs rest e =
    ap (λ (l : List ℕ). some (some l, rest))
      (ap (λ l. l ++ cs) e ∙ append_assoc b.bytes (c ∷ []) cs)

symbol_from-space :
    (b : Buffer) (rest : List ℕ) → symbol_from b (b' ' ∷ rest) ≡ finish b (b' ' ∷ rest)
unfolding symbol_from is_symbol_char ungetc
symbol_from-space b rest = refl

symbol_from-reads :
    (b : Buffer) (cs rest : List ℕ)
    → Fits b
    → All (λ d. is_symbol_char d ≡ true) cs
    → symbol_from b (cs ++ b' ' ∷ rest) ≡ some (some (b.bytes ++ cs), b' ' ∷ rest)
unfolding symbol_from
symbol_from-reads b [] rest f a =
    symbol_from-space b rest
    ∙ finish-Fits b (b' ' ∷ rest) f
    ∙ ap (λ (l : List ℕ). some (some l, b' ' ∷ rest)) (sym (append-nil b.bytes))
symbol_from-reads b (c ∷ cs) rest f a =
    let (b', e, (fits, bytes)) = Yields-some _ (push b c) (push-Fits b c f) in
    let e2 : is_symbol_char c ≡ true = a.0 in
    rw (e2, e) (symbol_from-reads b' cs rest fits a.1 ∙ grown b b' c cs (b' ' ∷ rest) bytes)

literal_from-end : (b : Buffer) (rest : List ℕ) → literal_from b'"' b (b'"' ∷ rest) ≡ finish b rest
unfolding literal_from
literal_from-end b [] = refl
literal_from-end b (c ∷ cs) = refl

literal_from-reads :
    (b : Buffer) (cs rest : List ℕ)
    → Fits b
    → All (IsPlain b'"') cs
    → literal_from b'"' b (cs ++ b'"' ∷ rest) ≡ some (some (b.bytes ++ cs), rest)
literal_from-reads b [] rest f a =
    literal_from-end b rest
    ∙ finish-Fits b rest f
    ∙ ap (λ (l : List ℕ). some (some l, rest)) (sym (append-nil b.bytes))
literal_from-reads b (c ∷ cs) rest f a =
    let (b', fits, bytes, e) =
      literal_from-plain b'"' b c (cs ++ b'"' ∷ rest) f a.0 (append-ne-nil cs (b'"') rest) in
    e ∙ literal_from-reads b' cs rest fits a.1 ∙ grown b b' c cs rest bytes

tok_next-space : (cs : List ℕ) → tok_next (b' ' ∷ cs) ≡ tok_next cs
unfolding tok_next is_whitespace
tok_next-space cs = refl

-- what a symbol's first character is not
record IsFirst (c : ℕ) : Type 0 where
  pub no_space : is_whitespace c ≡ false
  pub no_eof : (c == eof) ≡ false
  pub no_newline : (c == b'\n') ≡ false
  pub no_semicolon : (c == b';') ≡ false
  pub no_bar : (c == b'|') ≡ false
  pub no_and : (c == b'&') ≡ false

is_symbol_char-IsFirst : (c : ℕ) → is_symbol_char c ≡ true → IsFirst c
unfolding is_symbol_char is_operator is_terminator
is_symbol_char-IsFirst c e = record {
  no_space = ground arith;
  no_eof = ground arith;
  no_newline = ground arith;
  no_semicolon = ground arith;
  no_bar = ground arith;
  no_and = ground arith;
}

next_symbol :
    (c : ℕ) (cs rest : List ℕ)
    → IsWritable (sym_word c cs)
    → tok_next (c ∷ (cs ++ b' ' ∷ rest)) ≡ some (some (token_of (sym_word c cs)), b' ' ∷ rest)
unfolding tok_next getchar read_token read_symbol
next_symbol c cs rest (e, ne, ne2, a) =
    let f = is_symbol_char-IsFirst c e in
    let q : (c == b'"' || c == b'\'') ≡ false = ground arith in
    rw (f.no_space, f.no_eof, f.no_newline, f.no_semicolon, f.no_bar, f.no_and, q, e)
      (ap (valued symbol) (
        symbol_from-reads (record { bytes = c ∷ []; size = 64 }) cs rest
          (fresh-Fits (c ∷ []) 64 (omega arith) (omega arith)) a))

next_quoted :
    (bytes rest : List ℕ)
    → All (IsPlain b'"') bytes
    → tok_next (b'"' ∷ (bytes ++ b'"' ∷ rest)) ≡ some (some (token_of (quoted bytes)), rest)
unfolding tok_next getchar read_token read_string_literal is_whitespace
next_quoted bytes rest a = ap (valued string_literal) (
    literal_from-reads (record { bytes = []; size = 32 }) bytes rest
      (fresh-Fits [] 32 (omega arith) (omega arith)) a)

next_word :
    (w : Word) (cs : List ℕ)
    → IsWritable w
    → tok_next (text w ++ b' ' ∷ cs) ≡ some (some (token_of w), b' ' ∷ cs)
unfolding tok_next getchar ungetc read_token peek is_whitespace
next_word (sym_word c bytes) cs h = next_symbol c bytes cs h
next_word (quoted bytes) cs h =
    ap (λ l. tok_next (b'"' ∷ l)) (append_assoc bytes (b'"' ∷ []) (b' ' ∷ cs))
    ∙ next_quoted bytes (b' ' ∷ cs) h
next_word semi cs h = refl
next_word bar cs h = refl
next_word ampersand cs h = refl
next_word and_and cs h = refl
next_word or_or cs h = refl

link-word :
    (more : List ℕ → Option (List Token × List ℕ)) (w : Word) (rest : List ℕ)
    → link more (some (token_of w)) rest ≡ (more rest >>= λ (ts, end). some (token_of w ∷ ts, end))
unfolding link
link-word more (sym_word c cs) rest = refl
link-word more (quoted bytes) rest = refl
link-word more semi rest = refl
link-word more bar rest = refl
link-word more ampersand rest = refl
link-word more and_and rest = refl
link-word more or_or rest = refl

line_from-spell :
    (fuel : ℕ) (ws : List Word) (cs : List ℕ)
    → All IsWritable ws
    → length ws < fuel
    → line_from fuel (b' ' ∷ spell ws (b'\n' ∷ cs))
      ≡ some (map token_of ws ++ plain newline ∷ [], cs)
unfolding line_from link tok_next getchar read_token is_whitespace
line_from-spell zero ws cs h lt = absurd (omega arith)
line_from-spell (suc fuel) [] cs h lt = refl
line_from-spell (suc fuel) (w ∷ ws) cs h lt =
    let all = spell (w ∷ ws) (b'\n' ∷ cs) in
    let e = tok_next-space all ∙ next_word w (spell ws (b'\n' ∷ cs)) h.0 in
    let ih = line_from-spell fuel ws cs h.1 (omega arith) in
    rw (e, link-word (line_from fuel) w, ih)

line_from-space :
    (fuel : ℕ) (cs : List ℕ) → line_from (suc fuel) (b' ' ∷ cs) ≡ line_from (suc fuel) cs
unfolding line_from
line_from-space fuel cs =
    ap (λ o. o >>= λ (token, rest). link (line_from fuel) token rest) (tok_next-space cs)

length-spell : (ws : List Word) (end : List ℕ) → length ws ≤ length (spell ws end)
length-spell [] end = omega arith
length-spell (w ∷ ws) end =
    omega (arith, length-spell ws end, length-append (text w) (b' ' ∷ spell ws end))

-- A line of words, each with a space behind it, is read back as the tokens of the words and a
-- newline, and the input behind the line is left. The words are symbols that begin with no quote,
-- string literals in double quotes without escapes, and operators.
pub tok_next_line-spell :
    (ws : List Word) (cs : List ℕ)
    → All IsWritable ws
    → tok_next_line (spell ws (b'\n' ∷ cs)) ≡ some (map token_of ws ++ plain newline ∷ [], cs)
unfolding tok_next_line
tok_next_line-spell ws cs h =
    let all = spell ws (b'\n' ∷ cs) in
    sym (line_from-space (length all) all)
    ∙ line_from-spell (suc (length all)) ws cs h (omega (arith, length-spell ws (b'\n' ∷ cs)))
