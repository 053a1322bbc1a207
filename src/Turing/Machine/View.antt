-- ===== src/Turing/Machine/View.antt =====
-- The tape as a machine sees it: what stands to the left of the head, and what stands at it and to
use ift.Base.{
  inl, inr, ℕ, zero, suc, ◌+◌, ◌-◌, ◌*◌, ◌/◌, ◌≤◌, ◌<◌, ◌≡◌, refl, List, [], ◌∷◌, arith, ltb,
  if◌then◌else◌, length, get_or, set, replicate, write_at, length-replicate, get_or-set,
  get_or-write_at, get_or-replicate, Bool-cases,
}
use ift.Turing.Machine.{Movement, backward, stay, forward, Tape, blank}

-- The head stands in the tape, and not on its first cell.
pub record IsValid (tape : Tape) : Type 0 where
  pub above : 1 ≤ tape.position
  pub below : tape.position < length tape.cells

abbrev pub left_of : Tape → ℕ → ℕ
left_of tape n =
    if ltb n tape.position then get_or tape.cells (tape.position - 1 - n) blank else blank

abbrev pub right_of : Tape → ℕ → ℕ
right_of tape n = get_or tape.cells (tape.position + n) blank

pub get_or-behind : (xs : List ℕ) (i : ℕ) → length xs ≤ i → get_or xs i blank ≡ blank
get_or-behind [] i h = refl
get_or-behind (x ∷ xs) zero h = absurd (omega arith)
get_or-behind (x ∷ xs) (suc i) h = get_or-behind xs i (omega arith)

half : (n : ℕ) → n / 2 + n ≤ n * 2
half n = omega arith

abbrev pub resized : List ℕ → List ℕ
resized cells = write_at (replicate (length cells * 2) blank) (length cells / 2) cells

-- The old cells stand behind the offset ...
pub resized-cell :
    (cells : List ℕ) (i : ℕ)
    → get_or (resized cells) (length cells / 2 + i) blank ≡ get_or cells i blank
resized-cell cells i =
    let space = replicate (length cells * 2) blank in
    let off = length cells / 2 in
    let fits : off + length cells ≤ length space =
      omega (arith, length-replicate (length cells * 2) blank, half (length cells)) in
    let e = get_or-write_at space off cells (off + i) blank fits in
    elim (Bool-cases (ltb i (length cells))) [
      | inl t ↦ let same : off + i - off ≡ i = omega arith in ground (arith, e, same)
      | inr t ↦
          ground
            (arith, e, get_or-replicate (length cells * 2) (off + i) blank, get_or-behind cells i)
    ]

-- ... and blanks before it.
pub resized-blank :
    (cells : List ℕ) (i : ℕ) → i < length cells / 2 → get_or (resized cells) i blank ≡ blank
resized-blank cells i lt =
    let space = replicate (length cells * 2) blank in
    let off = length cells / 2 in
    let fits : off + length cells ≤ length space =
      omega (arith, length-replicate (length cells * 2) blank, half (length cells)) in
    ground (
      arith,
      get_or-write_at space off cells i blank fits,
      get_or-replicate (length cells * 2) i blank,
    )

-- A tape without ends, around the head.
pub record Infinite : Type 0 where
  pub left : ℕ → ℕ
  pub right : ℕ → ℕ

pub record Sees (tape : Tape) (inf : Infinite) : Type 0 where
  pub lefts : (n : ℕ) → left_of tape n ≡ inf.left n
  pub rights : (n : ℕ) → right_of tape n ≡ inf.right n

-- the tape with `w` at the head
abbrev pub written : ℕ → Infinite → Infinite
written w inf = record {
  left = inf.left;
  right = λ n. elim n [ zero ↦ w | suc m ↦ inf.right (suc m) ];
}

-- ... and the head moved
abbrev pub moved : Movement → Infinite → Infinite
moved backward inf = record {
  left = λ n. inf.left (suc n);
  right = λ n. elim n [ zero ↦ inf.left 0 | suc m ↦ inf.right m ];
}
moved stay inf = inf
moved forward inf = record {
  left = λ n. elim n [ zero ↦ inf.right 0 | suc m ↦ inf.left m ];
  right = λ n. inf.right (suc n);
}

pub set-Sees :
    (tape : Tape) (w : ℕ) (inf : Infinite)
    → IsValid tape
    → Sees tape inf
    → Sees
        (record { cells = set tape.cells tape.position w; position = tape.position })
        (written w inf)
set-Sees tape w inf v s = record {
  lefts = λ n. ground (
    arith,
    s.lefts n,
    get_or-set tape.cells tape.position (tape.position - 1 - n) w blank,
    v.below,
  );
  rights = λ n. at n;
}
  where
    at :
        (n : ℕ)
        → get_or (set tape.cells tape.position w) (tape.position + n) blank
          ≡ (written w inf).right n
    at zero =
        ground (arith, get_or-set tape.cells tape.position (tape.position + 0) w blank, v.below)
    at (suc n) = ground (
      arith,
      s.rights (suc n),
      get_or-set tape.cells tape.position (tape.position + suc n) w blank,
      v.below,
    )
