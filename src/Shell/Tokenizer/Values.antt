-- ===== src/Shell/Tokenizer/Values.antt =====
-- Each token that is an argument has a value.
use ift.Base.{
  ℕ, zero, suc, ◌≡◌, refl, subst, inl, inr, ◌⊎◌, Bool, true, false, ◌||◌, Option, none, some,
  is_some, List, ◌∷◌, ◌==◌, if◌then◌else◌, All, length, ◌>>=◌,
}
use ift.Shell.Chars.{eof, getchar}
use ift.Shell.Parser.{is_arg}
use ift.Shell.Tokenizer.{
  Category, invalid, symbol, string_literal, pipe, logical_and, logical_or, Token, Read, valued,
  peek, read_string_literal, read_symbol, skip_whitespace, read_token, tok_next, link, line_from,
  tok_next_line, is_newline,
}

abbrev pub HasValue : Token → Type 0
HasValue t = (is_arg t.category ≡ false) ⊎ (is_some t.value ≡ true)

abbrev Good : Option Token × List ℕ → Type 0
Good r = elim r.0 [ none ↦ Unit | some t ↦ HasValue t ]

-- `none` stands for a write behind a buffer, which is excluded elsewhere.
abbrev Whenever {ℓ} : {A : Type ℓ} → (A → Type 0) → Option A → Type 0
Whenever P none = Unit
Whenever P (some a) = P a

Whenever-if {ℓ} :
    {A : Type ℓ}
    → (P : A → Type 0) (b : Bool) (x y : Option A) → Whenever P x
    → Whenever P y
    → Whenever P (if b then x else y)
Whenever-if P true x y h k = h
Whenever-if P false x y h k = k

valued-Good : (k : Category) (o : Option Read) → Whenever Good (valued k o)
valued-Good k none = tt
valued-Good k (some (none, rest)) = tt
valued-Good k (some (some v, rest)) = inr refl

peek-Good :
    (c : ℕ) (twice once : Category) (cs : List ℕ)
    → is_arg twice ≡ false
    → is_arg once ≡ false
    → Whenever Good (peek c twice once cs)
unfolding peek
peek-Good c twice once cs h k = Whenever-if Good ((getchar cs).0 == c) _ _ (inl h) (inl k)

read_token-Good : (c : ℕ) (rest : List ℕ) → Whenever Good (read_token c rest)
unfolding read_token is_arg
read_token-Good c rest = Whenever-if Good (c == b'\n') _ _ (inl refl) (
    Whenever-if Good (c == b';') _ _ (inl refl) (
      Whenever-if Good (c == b'|') _ _ (peek-Good b'|' logical_or pipe rest refl refl) (
        Whenever-if Good (c == b'&') _ _ (peek-Good b'&' logical_and invalid rest refl refl) (
          Whenever-if Good (c == b'"' || c == b'\'') _ _
            (valued-Good string_literal (read_string_literal c rest))
            (valued-Good symbol (read_symbol c rest))))))

tok_next-Good : (cs : List ℕ) → Whenever Good (tok_next cs)
unfolding tok_next
tok_next-Good cs =
    let (c, rest) = getchar (skip_whitespace cs) in
    Whenever-if Good (c == eof) _ _ tt (read_token-Good c rest)

abbrev AllGood : List Token × List ℕ → Type 0
AllGood r = All HasValue r.0

link-Good :
    (more : List ℕ → Option (List Token × List ℕ))
    → ((rest : List ℕ) → Whenever AllGood (more rest))
    → (token : Option Token) (rest : List ℕ) → Good (token, rest)
    → Whenever AllGood (link more token rest)
unfolding link
link-Good more h none rest g = tt
link-Good more h (some t) rest g =
    Whenever-if AllGood (is_newline t.category) _ _ (g, tt) (behind (more rest) (h rest))
  where
    behind :
        (o : Option (List Token × List ℕ))
        → Whenever AllGood o
        → Whenever AllGood (o >>= λ (ts, end). some (t ∷ ts, end))
    behind none k = tt
    behind (some r) k = (g, k)

line_from-Good : (fuel : ℕ) (cs : List ℕ) → Whenever AllGood (line_from fuel cs)
unfolding line_from
line_from-Good zero cs = tt
line_from-Good (suc fuel) cs = next (tok_next cs) (tok_next-Good cs) (line_from-Good fuel)
  where
    next :
        (o : Option (Option Token × List ℕ))
        → Whenever Good o
        → ((rest : List ℕ) → Whenever AllGood (line_from fuel rest))
        → Whenever AllGood (o >>= λ (token, rest). link (line_from fuel) token rest)
    next none g ih = tt
    next (some (token, rest)) g ih = link-Good (line_from fuel) ih token rest g

-- Each token of a line that is an argument has a value.
pub tok_next_line-HasValue :
    (cs : List ℕ) (ts : List Token) (rest : List ℕ)
    → tok_next_line cs ≡ some (ts, rest)
    → All HasValue ts
unfolding tok_next_line
tok_next_line-HasValue cs ts rest e =
    subst (Whenever AllGood) e (line_from-Good (suc (length cs)) cs)
