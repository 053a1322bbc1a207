-- ===== src/Shell/Tokenizer.antt =====
-- tp1/src/tokenizer.c and tokenizer.h: the reading of tokens. `malloc` and `realloc` are taken to
-- succeed; the size of the buffer is kept, and a write beyond it has no result.
mod Tests
pub mod Bounds
pub mod Escapes
pub mod Print
pub mod Values
use ift.Base.{
  ℕ, zero, suc, ◌+◌, ◌-◌, ◌/◌, Bool, true, false, not, ◌&&◌, ◌||◌, Option, none, some, List, [],
  ◌∷◌, ◌++◌, ltb, ◌==◌, if◌then◌else◌, length, ◌>>=◌,
}
use ift.Shell.Chars.{eof, getchar, ungetc, is_whitespace, is_symbol_char, to_escaped}

-- `enum token_category`
pub data Category : Type 0 where
  invalid symbol string_literal semicolon pipe logical_and logical_or newline : Category

-- `struct token`; a list of tokens is a `List`. The value is the bytes that were written to the
-- buffer before its final NUL.
pub record Token : Type 0 where
  pub category : Category
  pub value : Option (List ℕ)

-- `buffer[i++] = c; buffer_check_sub(...)`: the bytes so far and the size of the buffer, which is
-- taken to stay in the range of an `int`
pub record Buffer : Type 0 where
  pub bytes : List ℕ
  pub size : ℕ

-- `buffer_check_sub`
pub buffer_check_sub : ℕ → ℕ → ℕ
buffer_check_sub size i = if ltb i (size - 1) then size else size + size / 2

-- `none` is a write behind the end of the buffer
pub push : Buffer → ℕ → Option Buffer
unfolding buffer_check_sub
push b c =
    if ltb (length b.bytes) b.size
    then some
        (record { bytes = b.bytes ++ c ∷ []; size = buffer_check_sub b.size (length b.bytes + 1) })
    else none

-- `buffer[i] = '\0'`
pub close : Buffer → Option (List ℕ)
close b = if ltb (length b.bytes) b.size then some b.bytes else none

-- What a reader returns: the value, if it is not NULL, and the rest of the input.
abbrev pub Read : Type 0
Read = Option (List ℕ) × List ℕ

finish : Buffer → List ℕ → Option Read
unfolding close
finish b rest = close b >>= λ bytes. some (some bytes, rest)

-- the loop of `read_string_literal`
pub literal_from : ℕ → Buffer → List ℕ → Option Read
unfolding finish push
literal_from end b [] = some (none, [])
literal_from end b (c ∷ []) =
    if c == end
    then finish b []
    else if c == eof
    then some (none, [])
    else if c == b'\\'
    then some (none, [])
    else push b c >>= λ b'. some (none, [])
literal_from end b (c ∷ d ∷ cs) =
    let escaped = push b (to_escaped d) >>= λ b'. literal_from end b' cs in
    let plain = push b c >>= λ b'. literal_from end b' (d ∷ cs) in
    if c == end
    then finish b (d ∷ cs)
    else if c == eof
    then some (none, d ∷ cs)
    else if c == b'\\'
    then (if d == eof || to_escaped d == d then some (none, cs) else escaped)
    else plain

pub read_string_literal : ℕ → List ℕ → Option Read
unfolding literal_from
read_string_literal end cs = literal_from end (record { bytes = []; size = 32 }) cs

-- the loop of `read_symbol`
pub symbol_from : Buffer → List ℕ → Option Read
unfolding finish push
symbol_from b [] = finish b []
symbol_from b (c ∷ cs) =
    let more = push b c >>= λ b'. symbol_from b' cs in
    if not (is_symbol_char c) then finish b (ungetc c cs) else more

pub read_symbol : ℕ → List ℕ → Option Read
unfolding symbol_from
read_symbol c cs =
    if not (is_symbol_char c)
    then some (none, cs)
    else symbol_from (record { bytes = c ∷ []; size = 64 }) cs

-- `while (is_whitespace(c = getchar()));` stands before the first character that is no whitespace
pub skip_whitespace : List ℕ → List ℕ
skip_whitespace [] = []
skip_whitespace (c ∷ cs) = if is_whitespace c then skip_whitespace cs else c ∷ cs

abbrev pub plain : Category → Token
plain k = record { category = k; value = none }

-- a token of a category that has a value; without one the result is NULL
abbrev pub valued : Category → Option Read → Option (Option Token × List ℕ)
valued k r = r >>= λ (v, rest).
    some (
      elim v [ none ↦ none | some bytes ↦ some (record { category = k; value = some bytes }) ],
      rest,
    )

-- the cases `'|'` and `'&'`: one character more decides
pub peek : ℕ → Category → Category → List ℕ → Option (Option Token × List ℕ)
peek c twice once cs =
    let (d, rest) = getchar cs in
    if d == c then some (some (plain twice), rest) else some (some (plain once), ungetc d rest)

-- the `switch` of `tok_next`, at the first character that is no whitespace
pub read_token : ℕ → List ℕ → Option (Option Token × List ℕ)
unfolding peek read_string_literal read_symbol
read_token c rest =
    if c == b'\n'
    then some (some (plain newline), rest)
    else if c == b';'
    then some (some (plain semicolon), rest)
    else if c == b'|'
    then peek b'|' logical_or pipe rest
    else if c == b'&'
    then peek b'&' logical_and invalid rest
    else if c == b'"' || c == b'\''
    then valued string_literal (read_string_literal c rest)
    else valued symbol (read_symbol c rest)

pub tok_next : List ℕ → Option (Option Token × List ℕ)
unfolding skip_whitespace read_token
tok_next cs =
    let (c, rest) = getchar (skip_whitespace cs) in
    if c == eof then some (none, rest) else read_token c rest

abbrev pub is_newline : Category → Bool
is_newline newline = true
is_newline _ = false

-- the body of the loop of `tok_next_line`; `more` is the rest of the loop
pub link :
    (List ℕ → Option (List Token × List ℕ)) → Option Token → List ℕ → Option (List Token × List ℕ)
link more none rest = some ([], rest)
link more (some t) rest =
    if is_newline t.category
    then some (t ∷ [], rest)
    else (more rest >>= λ (ts, end). some (t ∷ ts, end))

-- The loop of `tok_next_line`; the fuel bounds the number of tokens.
pub line_from : ℕ → List ℕ → Option (List Token × List ℕ)
unfolding tok_next link
line_from zero cs = none
line_from (suc fuel) cs = tok_next cs >>= λ (token, rest). link (line_from fuel) token rest

-- Each token takes a character at least, so the length of the input is fuel enough.
pub tok_next_line : List ℕ → Option (List Token × List ℕ)
unfolding line_from
tok_next_line cs = line_from (suc (length cs)) cs
