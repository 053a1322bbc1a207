-- ===== src/Turing/Machine/Move.antt =====
-- A move of the head on the tape that is resized and on the one without ends.
use ift.Base.{
  inl, inr, ℕ, zero, suc, ◌+◌, ◌-◌, ◌*◌, ◌/◌, ◌≤◌, ◌<◌, ◌≡◌, refl, sym, ◌∙◌, ap, subst, ltb→lt,
  ◌||◌, List, arith, ltb, leb, length, get_or, set, replicate, length-set, length-replicate,
  length-write_at, Bool-cases,
}
use ift.Turing.Machine.{
  Movement, backward, stay, forward, Transition, Tape, blank, advance, resize_tape, apply,
}
use ift.Turing.Machine.View.{
  IsValid, left_of, right_of, resized, resized-cell, resized-blank, Infinite, Sees, written, moved,
  set-Sees,
}

-- The cell before position `k`, and a blank before the first one.
before : List ℕ → ℕ → ℕ
before cells zero = blank
before cells (suc k) = get_or cells k blank

left_of-before : (tape : Tape) (n : ℕ) → left_of tape n ≡ before tape.cells (tape.position - n)
unfolding before
left_of-before tape n = elim (Bool-cases (ltb n tape.position)) [
  | inl t ↦
      let lt : n < tape.position = ltb→lt n tape.position t in
      let e : tape.position - n ≡ suc (tape.position - 1 - n) = omega arith in
      rw t (ap (before tape.cells) (sym e))
  | inr t ↦
      let ge : tape.position ≤ n = ground arith in
      let e : tape.position - n ≡ 0 = omega arith in rw t (ap (before tape.cells) (sym e))
]

before-blank : (cells : List ℕ) (k : ℕ) → k ≤ length cells / 2 → before (resized cells) k ≡ blank
unfolding before
before-blank cells zero le = refl
before-blank cells (suc k) le = resized-blank cells k (omega arith)

backward_rights :
    (cells : List ℕ) (position : ℕ) (inf : Infinite)
    → 1 ≤ position
    → Sees (record { cells = cells; position = position }) inf
    → (n : ℕ)
    → right_of (record { cells = cells; position = position - 1 }) n ≡ (moved backward inf).right n
unfolding before
backward_rights cells position inf le s zero =
    let e : suc (position - 1 + 0) ≡ position - 0 = omega arith in
    ap (before cells) e
    ∙ sym (left_of-before (record { cells = cells; position = position }) 0)
    ∙ s.lefts 0
backward_rights cells position inf le s (suc m) =
    ap (λ i. get_or cells i blank) (omega arith) ∙ s.rights m

forward_lefts :
    (cells : List ℕ) (position : ℕ) (inf : Infinite)
    → Sees (record { cells = cells; position = position }) inf
    → (n : ℕ)
    → left_of (record { cells = cells; position = position + 2 - 1 }) n ≡ (moved forward inf).left n
unfolding before
forward_lefts cells position inf s zero =
    let e : position + 2 - 1 - 0 ≡ suc (position + 0) = omega arith in
    left_of-before (record { cells = cells; position = position + 2 - 1 }) 0
    ∙ ap (before cells) e
    ∙ s.rights 0
forward_lefts cells position inf s (suc m) =
    let e : position + 2 - 1 - suc m ≡ position - m = omega arith in
    left_of-before (record { cells = cells; position = position + 2 - 1 }) (suc m)
    ∙ ap (before cells) e
    ∙ sym (left_of-before (record { cells = cells; position = position }) m)
    ∙ s.lefts m

-- The head moves on the cells, be it behind their end.
move-Sees :
    (cells : List ℕ) (position : ℕ) (m : Movement) (inf : Infinite)
    → 1 ≤ position
    → Sees (record { cells = cells; position = position }) inf
    → Sees (record { cells = cells; position = advance m position - 1 }) (moved m inf)
move-Sees cells position stay inf le s =
    let e : position + 1 - 1 ≡ position = omega arith in
    subst (λ k. Sees (record { cells = cells; position = k }) inf) (sym e) s
move-Sees cells position backward inf le s = record {
  lefts = λ n.
      left_of-before (record { cells = cells; position = position - 1 }) n
      ∙ ap (before cells) (omega arith)
      ∙ sym (left_of-before (record { cells = cells; position = position }) (suc n))
      ∙ s.lefts (suc n);
  rights = backward_rights cells position inf le s;
}
move-Sees cells position forward inf le s = record {
  lefts = forward_lefts cells position inf s;
  rights = λ n. ap (λ i. get_or cells i blank) (omega arith) ∙ s.rights (suc n);
}

-- The cells to the left, at the new offset.
before-resized :
    (cells : List ℕ) (above n : ℕ)
    → 1 ≤ above
    → before (resized cells) (length cells / 2 + above - 1 - n) ≡ before cells (above - 1 - n)
unfolding before
before-resized cells above n le =
    let off = length cells / 2 in
    elim (Bool-cases (ltb n (above - 1))) [
      | inl t ↦
          let lt : n < above - 1 = ltb→lt n (above - 1) t in
          let e : off + above - 1 - n ≡ suc (off + (above - 1 - n - 1)) = omega arith in
          let e2 : suc (above - 1 - n - 1) ≡ above - 1 - n = omega arith in
          ap (before (resized cells)) e
          ∙ resized-cell cells (above - 1 - n - 1)
          ∙ ap (before cells) e2
      | inr t ↦
          let ge : above - 1 ≤ n = ground arith in
          let e : above - 1 - n ≡ 0 = omega arith in
          before-blank cells (off + above - 1 - n) (omega arith) ∙ ap (before cells) (sym e)
    ]

resize-Sees :
    (cells : List ℕ) (above : ℕ) (inf : Infinite)
    → 1 ≤ above
    → Sees (record { cells = cells; position = above - 1 }) inf
    → Sees (resize_tape cells above) inf
unfolding resize_tape
resize-Sees cells above inf le s = record {
  lefts = λ n.
      left_of-before (resize_tape cells above) n
      ∙ before-resized cells above n le
      ∙ sym (left_of-before (record { cells = cells; position = above - 1 }) n)
      ∙ s.lefts n;
  rights = λ n.
      ap (λ i. get_or (resized cells) i blank) (omega arith)
      ∙ resized-cell cells (above - 1 + n)
      ∙ s.rights n;
}

resize-IsValid :
    (cells : List ℕ) (above : ℕ)
    → 1 ≤ above
    → above ≤ length cells + 1
    → 2 ≤ length cells
    → IsValid (resize_tape cells above)
unfolding resize_tape
resize-IsValid cells above le le2 long =
    let len =
      length-write_at (replicate (length cells * 2) blank) (length cells / 2) cells
      ∙ length-replicate (length cells * 2) blank in
    record { above = omega arith; below = omega (arith, len) }

advance-bounds :
    (m : Movement) (position : ℕ)
    → 1 ≤ position
    → (1 ≤ advance m position) × (advance m position ≤ position + 2)
advance-bounds backward position le = (omega arith, omega arith)
advance-bounds stay position le = (omega arith, omega arith)
advance-bounds forward position le = (omega arith, omega arith)

-- A turn writes, moves, and resizes the tape where it must: the head sees what it would see on a tape
-- without ends, and stands in the tape.
pub apply-Sees :
    (t : Transition) (tape : Tape) (inf : Infinite)
    → IsValid tape
    → Sees tape inf
    → IsValid (apply t tape) × Sees (apply t tape) (moved t.movement (written t.write inf))
unfolding apply
apply-Sees t tape inf v s =
    let cells = set tape.cells tape.position t.write in
    let above = advance t.movement tape.position in
    let (lo, hi) = advance-bounds t.movement tape.position v.above in
    let len = length-set tape.cells tape.position t.write in
    let seen =
      move-Sees cells tape.position t.movement (written t.write inf) v.above
        (set-Sees tape t.write inf v s) in
    elim (Bool-cases (leb above 1 || ltb (length cells) above)) [
      | inl e ↦ rw e (
        resize-IsValid cells above lo (omega (arith, len, v.below))
            (omega (arith, len, v.below, v.above)),
        resize-Sees cells above (moved t.movement (written t.write inf)) lo seen,
      )
      | inr e ↦ rw e (record { above = ground arith; below = ground arith }, seen)
    ]
