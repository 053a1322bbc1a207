-- ===== src/Shell/Tokenizer/Escapes.antt =====
-- Which escape sequences a string literal can hold.
use ift.Base.{
  ◌∙◌, ℕ, ◌≡◌, ◌≢◌, ◌⊎◌, inl, inr, refl, false, none, some, List, [], ◌∷◌, ◌++◌, arith, ◌==◌, All,
  Yields-some,
}
use ift.Shell.Chars.{eof, to_escaped}
use ift.Shell.Tokenizer.{Buffer, push, literal_from, read_string_literal}
use ift.Shell.Tokenizer.Bounds.{Fits, push-Fits, fresh-Fits}

-- a byte that stands for itself in a literal between `end` characters
pub record IsPlain (end c : ℕ) : Type 0 where
  pub ne_end : c ≢ end
  pub ne_eof : c ≢ eof
  pub ne_backslash : c ≢ b'\\'

-- a backslash or a quote
abbrev pub IsSpecial : ℕ → Type 0
IsSpecial q = (q ≡ b'\\') ⊎ (q ≡ b'\'') ⊎ (q ≡ b'"')

pub append-ne-nil : (xs : List ℕ) (y : ℕ) (ys : List ℕ) → xs ++ y ∷ ys ≢ []
append-ne-nil [] y ys e = cc
append-ne-nil (x ∷ xs) y ys e = cc

-- A plain byte goes into the buffer.
pub literal_from-plain :
    (end : ℕ) (b : Buffer) (c : ℕ) (cs : List ℕ)
    → Fits b
    → IsPlain end c
    → cs ≢ []
    → (b' : Buffer) × Fits b'
      × (b'.bytes ≡ b.bytes ++ c ∷ [])
      × (literal_from end b (c ∷ cs) ≡ literal_from end b' cs)
unfolding literal_from
literal_from-plain end b c [] f p ne = absurd (ne refl)
literal_from-plain end b c (d ∷ cs) f p ne =
    let (b', pushed, (fits, bytes)) = Yields-some _ (push b c) (push-Fits b c f) in
    let e : (c == end) ≡ false = ground arith in
    let e2 : (c == eof) ≡ false = ground arith in
    let e3 : (c == b'\\') ≡ false = ground arith in (b', fits, bytes, rw (e, e2, e3, pushed))

-- A backslash before a backslash or a quote is refused.
literal_from-special :
    (end : ℕ) (b : Buffer) (q : ℕ) (cs : List ℕ)
    → end ≢ b'\\'
    → IsSpecial q
    → literal_from end b (b'\\' ∷ q ∷ cs) ≡ some (none, cs)
unfolding literal_from to_escaped
literal_from-special end b q cs ne s =
    let e : (b'\\' == end) ≡ false = ground arith in
    rw e (elim s [ inl x ↦ rw x | inr y ↦ elim y [ inl x ↦ rw x | inr x ↦ rw x ] ])

special_from :
    (end : ℕ) (b : Buffer) (pre : List ℕ) (q : ℕ) (cs : List ℕ)
    → Fits b
    → end ≢ b'\\'
    → All (IsPlain end) pre
    → IsSpecial q
    → literal_from end b (pre ++ b'\\' ∷ q ∷ cs) ≡ some (none, cs)
special_from end b [] q cs f ne p s = literal_from-special end b q cs ne s
special_from end b (c ∷ pre) q cs f ne p s =
    let (b', fits, bytes, e) =
      literal_from-plain end b c (pre ++ b'\\' ∷ q ∷ cs) f p.0
        (append-ne-nil pre (b'\\') (q ∷ cs)) in
    e ∙ special_from end b' pre q cs fits ne p.1 s

-- A string literal whose first escape sequence is a backslash before a backslash or a quote is
-- refused, and the input behind the escape is left for the next token.
pub read_string_literal-special :
    (end : ℕ) (pre : List ℕ) (q : ℕ) (cs : List ℕ)
    → end ≢ b'\\'
    → All (IsPlain end) pre
    → IsSpecial q
    → read_string_literal end (pre ++ b'\\' ∷ q ∷ cs) ≡ some (none, cs)
unfolding read_string_literal
read_string_literal-special end pre q cs =
    special_from end _ pre q cs (fresh-Fits [] 32 (omega arith) (omega arith))
