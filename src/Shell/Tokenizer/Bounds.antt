-- ===== src/Shell/Tokenizer/Bounds.antt =====
-- No reader writes behind its buffer, and every call of the tokenizer returns.
use ift.Base.{
  ℕ, zero, suc, ◌+◌, ◌≤◌, ◌<◌, ◌≡◌, refl, inl, inr, not, ◌||◌, Option, none, some, List, [], ◌∷◌,
  ◌++◌, arith, ltb, ◌==◌, length, length-append, ◌>>=◌, Bool-cases, Yields, Yields-if, Yields-bind,
  Yields-mono,
}
use ift.Shell.Chars.{eof, getchar, ungetc, is_symbol_char, to_escaped}
use ift.Shell.Tokenizer.{
  Category, Token, Buffer, Read, push, finish, literal_from, read_string_literal, symbol_from,
  read_symbol, read_token, skip_whitespace, peek, valued, tok_next, line_from, link, tok_next_line,
  is_newline, pipe, logical_or, logical_and, invalid, string_literal, symbol,
}

-- There is room for the next byte, and the buffer can grow.
pub record Fits (b : Buffer) : Type 0 where
  pub room : length b.bytes < b.size
  pub grows : 2 ≤ b.size

pub push-Fits :
    (b : Buffer) (c : ℕ)
    → Fits b
    → Yields (λ b'. Fits b' × (b'.bytes ≡ b.bytes ++ c ∷ [])) (push b c)
unfolding push
push-Fits b c f = elim (Bool-cases (ltb (length b.bytes) b.size)) [
  | inr full ↦ absurd (ground arith)
  | inl room ↦
      rw room (
        record { room = ground (arith, length-append b.bytes (c ∷ [])); grows = ground arith },
        refl,
      )
]

-- A reader returns, and leaves no more input than it was given.
abbrev pub Reads {ℓ} : {A : Type ℓ} → List ℕ → A × List ℕ → Type 0
Reads cs r = length r.1 ≤ length cs

finish-Reads :
    (b : Buffer) (rest cs : List ℕ)
    → Fits b
    → length rest ≤ length cs
    → Yields (Reads cs) (finish b rest)
unfolding finish
finish-Reads b rest cs f le = ground arith

Reads-mono :
    {A : Type 0} (cs ds : List ℕ) (o : Option (A × List ℕ))
    → length cs ≤ length ds
    → Yields (Reads cs) o
    → Yields (Reads ds) o
Reads-mono cs ds o le h = Yields-mono (Reads cs) (Reads ds) o (λ r k. omega arith) h

pushed :
    (b : Buffer) (c : ℕ) (cs : List ℕ) (k : Buffer → Option Read)
    → Fits b
    → ((b' : Buffer) → Fits b' → Yields (Reads cs) (k b'))
    → Yields (Reads cs) (push b c >>= k)
pushed b c cs k f h =
    Yields-bind (λ b'. Fits b' × (b'.bytes ≡ b.bytes ++ c ∷ [])) (Reads cs) (push b c) k
      (push-Fits b c f) λ b' p. h b' p.0

literal_from-Reads :
    (end : ℕ) (b : Buffer) (cs : List ℕ) → Fits b → Yields (Reads cs) (literal_from end b cs)
unfolding literal_from
literal_from-Reads end b [] f = omega arith
literal_from-Reads end b (c ∷ []) f =
    Yields-if (Reads (c ∷ [])) (c == end) _ _ (finish-Reads b [] (c ∷ []) f (omega arith)) (
      Yields-if (Reads (c ∷ [])) (c == eof) _ _ (omega arith) (
        Yields-if (Reads (c ∷ [])) (c == b'\\') _ _ (omega arith)
          (pushed b c (c ∷ []) _ f λ b' f'. omega arith)))
literal_from-Reads end b (c ∷ d ∷ cs) f =
    let all = c ∷ d ∷ cs in
    Yields-if (Reads all) (c == end) _ _ (finish-Reads b (d ∷ cs) all f (omega arith)) (
      Yields-if (Reads all) (c == eof) _ _ (omega arith) (
        Yields-if (Reads all) (c == b'\\') _ _
          (Yields-if (Reads all) (d == eof || to_escaped d == d) _ _ (omega arith) (
            pushed b (to_escaped d) all _ f λ b' f'.
              Reads-mono cs all (literal_from end b' cs) (omega arith)
                (literal_from-Reads end b' cs f')))
          (pushed b c all _ f λ b' f'.
            Reads-mono (d ∷ cs) all (literal_from end b' (d ∷ cs)) (omega arith)
              (literal_from-Reads end b' (d ∷ cs) f'))))

length-ungetc : (c : ℕ) (cs : List ℕ) → length (ungetc c cs) ≤ length cs + 1
unfolding ungetc
length-ungetc c cs = ground arith

symbol_from-Reads : (b : Buffer) (cs : List ℕ) → Fits b → Yields (Reads cs) (symbol_from b cs)
unfolding symbol_from
symbol_from-Reads b [] f = finish-Reads b [] [] f (omega arith)
symbol_from-Reads b (c ∷ cs) f =
    let all = c ∷ cs in
    Yields-if (Reads all) (not (is_symbol_char c)) _ _
      (finish-Reads b (ungetc c cs) all f (omega (arith, length-ungetc c cs)))
      (pushed b c all _ f
        λ b' f'. Reads-mono cs all (symbol_from b' cs) (omega arith) (symbol_from-Reads b' cs f'))

length-skip : (cs : List ℕ) → length (skip_whitespace cs) ≤ length cs
unfolding skip_whitespace
length-skip [] = omega arith
length-skip (c ∷ cs) = ground (arith, length-skip cs)

-- A token takes a character at least; NULL may take none.
abbrev pub Tokenizes : List ℕ → Option Token × List ℕ → Type 0
Tokenizes cs r = elim r.0 [ none ↦ length r.1 ≤ length cs | some t ↦ length r.1 < length cs ]

valued-Tokenizes :
    (k : Category) (cs ds : List ℕ) (o : Option Read)
    → length cs < length ds
    → Yields (Reads cs) o
    → Yields (Tokenizes ds) (valued k o)
valued-Tokenizes k cs ds none lt h = h
valued-Tokenizes k cs ds (some (none, rest)) lt h = omega arith
valued-Tokenizes k cs ds (some (some v, rest)) lt h = omega arith

peek-Tokenizes :
    (c : ℕ) (twice once : Category) (cs ds : List ℕ)
    → length cs < length ds
    → Yields (Tokenizes ds) (peek c twice once cs)
unfolding peek getchar ungetc
peek-Tokenizes c twice once [] ds lt =
    Yields-if (Tokenizes ds) (eof == c) _ _ (omega arith) (omega arith)
peek-Tokenizes c twice once (d ∷ cs) ds lt =
    Yields-if (Tokenizes ds) (d == c) _ _ (omega arith) (omega (arith, length-ungetc d cs))

pub fresh-Fits :
    (bytes : List ℕ) (n : ℕ) → length bytes < n → 2 ≤ n → Fits (record { bytes = bytes; size = n })
fresh-Fits bytes n lt le = record { room = lt; grows = le }

read_token-Tokenizes :
    (c : ℕ) (cs ds : List ℕ) → length cs < length ds → Yields (Tokenizes ds) (read_token c cs)
unfolding read_token
read_token-Tokenizes c cs ds lt = Yields-if (Tokenizes ds) (c == b'\n') _ _ (omega arith) (
    Yields-if (Tokenizes ds) (c == b';') _ _ (omega arith) (
      Yields-if (Tokenizes ds) (c == b'|') _ _ (peek-Tokenizes b'|' logical_or pipe cs ds lt) (
        Yields-if (Tokenizes ds) (c == b'&') _ _ (peek-Tokenizes b'&' logical_and invalid cs ds lt)
          (Yields-if (Tokenizes ds) (c == b'"' || c == b'\'') _ _
            (valued-Tokenizes string_literal cs ds (read_string_literal c cs) lt
              (literal_from-Reads c _ cs (fresh-Fits [] 32 (omega arith) (omega arith))))
            (valued-Tokenizes symbol cs ds (read_symbol c cs) lt (
              Yields-if (Reads cs) (not (is_symbol_char c)) _ _ (omega arith)
                (symbol_from-Reads _ cs (fresh-Fits (c ∷ []) 64 (omega arith) (omega arith)))))))))

next_from :
    (cs ds : List ℕ)
    → length cs ≤ length ds
    → skip_whitespace ds ≡ cs
    → Yields (Tokenizes ds) (tok_next ds)
unfolding tok_next getchar
next_from [] ds le e = rw e (omega arith)
next_from (c ∷ cs) ds le e = rw e (
    Yields-if (Tokenizes ds) (c == eof) _ _ (omega arith)
      (read_token-Tokenizes c cs ds (omega arith)))

-- `tok_next` returns on every input, and consumes a character for each token.
pub tok_next-Tokenizes : (cs : List ℕ) → Yields (Tokenizes cs) (tok_next cs)
tok_next-Tokenizes cs = next_from (skip_whitespace cs) cs (length-skip cs) refl

abbrev Counts : List ℕ → List Token × List ℕ → Type 0
Counts cs r = length r.0 + length r.1 ≤ length cs

link-Counts :
    (fuel : ℕ) (cs : List ℕ) (more : List ℕ → Option (List Token × List ℕ))
    → ((rest : List ℕ) → length rest < fuel → Yields (Counts rest) (more rest))
    → length cs < suc fuel
    → (token : Option Token) (rest : List ℕ) → Tokenizes cs (token, rest)
    → Yields (Counts cs) (link more token rest)
unfolding link
link-Counts fuel cs more ih lt none rest k = omega arith
link-Counts fuel cs more ih lt (some t) rest k =
    Yields-if (Counts cs) (is_newline t.category) _ _ (omega arith) (
      Yields-bind (Counts rest) (Counts cs) (more rest) _ (ih rest (omega arith))
        λ r q. omega arith)

line_from-Counts :
    (fuel : ℕ) (cs : List ℕ) → length cs < fuel → Yields (Counts cs) (line_from fuel cs)
unfolding line_from
line_from-Counts zero cs lt = absurd (omega arith)
line_from-Counts (suc fuel) cs lt =
    Yields-bind (Tokenizes cs) (Counts cs) (tok_next cs) _ (tok_next-Tokenizes cs)
      λ (token, rest) k.
        link-Counts fuel cs (line_from fuel) (line_from-Counts fuel) lt token rest k

-- On every input `tok_next_line` returns, without a write behind a buffer, and each token that it
-- returns takes one character of the input at least.
pub tok_next_line-returns :
    (cs : List ℕ)
    → Yields (λ (r : List Token × List ℕ). length r.0 + length r.1 ≤ length cs) (tok_next_line cs)
unfolding tok_next_line
tok_next_line-returns cs = line_from-Counts (suc (length cs)) cs (omega arith)
