-- ===== src/Shell/Tokenizer/Tests.antt =====
-- Lines that the tokenizer reads.
use ift.Base.{
  Yields, length, ◌+◌, ◌≤◌, ℕ, ◌≡◌, ◌≢◌, refl, inr, arith, none, some, List, [], ◌∷◌, ◌++◌, map,
}
use ift.Shell.Chars.{is_symbol_char, is_whitespace, is_operator, is_terminator}
use ift.Shell.Tokenizer.{newline, Token, plain, tok_next_line, read_string_literal}
use ift.Shell.Tokenizer.Bounds.{tok_next_line-returns}
use ift.Shell.Tokenizer.Escapes.{IsPlain, read_string_literal-special}
use ift.Shell.Tokenizer.Print.{
  Word, sym_word, quoted, and_and, spell, token_of, tok_next_line-spell,
}

-- `ls && "a b"`
abbrev line : List Word
line = sym_word b'l' (b's' ∷ []) ∷ and_and ∷ quoted (b'a' ∷ b' ' ∷ b'b' ∷ []) ∷ []

IsPlain-byte : (c : ℕ) → c ≢ b'"' → c ≢ 255 → c ≢ b'\\' → IsPlain b'"' c
IsPlain-byte c ne ne2 ne3 = record { ne_end = ne; ne_eof = ne2; ne_backslash = ne3 }

tok_next_line-spell_example :
    tok_next_line (spell line (b'\n' ∷ b'x' ∷ []))
    ≡ some (map token_of line ++ plain newline ∷ [], b'x' ∷ [])
unfolding is_symbol_char is_whitespace is_operator is_terminator
tok_next_line-spell_example = tok_next_line-spell line (b'x' ∷ []) (
  (refl, (λ e. absurd (omega arith)), (λ e. absurd (omega arith)), (refl, tt)),
  (
    tt,
    (
      (
        IsPlain-byte b'a' (λ e. absurd (omega arith)) (λ e. absurd (omega arith))
            (λ e. absurd (omega arith)),
        (
          IsPlain-byte b' ' (λ e. absurd (omega arith)) (λ e. absurd (omega arith))
              (λ e. absurd (omega arith)),
          (
            IsPlain-byte b'b' (λ e. absurd (omega arith)) (λ e. absurd (omega arith))
                (λ e. absurd (omega arith)),
            tt,
          ),
        ),
      ),
      tt,
    ),
  ),
)

-- `"a\"`
read_string_literal-special_example :
    read_string_literal b'"' (b'a' ∷ b'\\' ∷ b'"' ∷ b'c' ∷ []) ≡ some (none, b'c' ∷ [])
read_string_literal-special_example =
    read_string_literal-special b'"' (b'a' ∷ []) (b'"') (b'c' ∷ []) (λ e. absurd (omega arith))
      (
        IsPlain-byte b'a' (λ e. absurd (omega arith)) (λ e. absurd (omega arith))
            (λ e. absurd (omega arith)),
        tt,
      )
      (inr (inr refl))

tok_next_line-returns_example :
    Yields
      (λ (r : List Token × List ℕ). length r.0 + length r.1 ≤ 3)
      (tok_next_line (b'a' ∷ b';' ∷ b'\n' ∷ []))
tok_next_line-returns_example = tok_next_line-returns (b'a' ∷ b';' ∷ b'\n' ∷ [])
