-- ===== src/Fat/Path/Resolved.antt =====
-- The simplification of a path against the list of its parts.
use ift.Base.{
  inl, inr, ℕ, zero, suc, ◌≤◌, ◌<◌, ◌≡◌, refl, sym, ◌∙◌, ap, true, false, List, [], ◌∷◌, arith,
  ◌==◌, length, drop, Bool-cases,
}
use ift.Fat.Path.{
  skip_slashes, is_dot, is_dot_dot, take_name, Simplified, names, above_root, walk,
  get_simplified_path,
}
use ift.Fat.Path.Parts.{
  parts_from, resolve, parts_slash, take_other, parts_from-skip, first_part, dot_part, dot_dot_part,
  other_part,
}

length-skip : (path : List ℕ) → length (skip_slashes path) ≤ length path
unfolding skip_slashes
length-skip [] = omega arith
length-skip (c ∷ cs) = ground (arith, length-skip cs)

length-take_name : (path : List ℕ) → length (take_name path).1 ≤ length path
unfolding take_name
length-take_name [] = omega arith
length-take_name (c ∷ cs) = elim (Bool-cases (c == b'/')) [
  | inl t ↦ rw t (omega arith)
  | inr t ↦ rw t (omega (arith, length-take_name cs))
]

length-drop : (n : ℕ) (path : List ℕ) → length (drop n path) ≤ length path
length-drop zero path = omega arith
length-drop (suc n) [] = omega arith
length-drop (suc n) (c ∷ cs) = omega (arith, length-drop n cs)

resolve-dot :
    (parts stack : List (List ℕ)) → resolve ((b'.' ∷ []) ∷ parts) stack ≡ resolve parts stack
unfolding resolve is_dot
resolve-dot parts stack = refl

resolve-other :
    (name : List ℕ) (parts stack : List (List ℕ))
    → is_dot name ≡ false
    → is_dot_dot name ≡ false
    → resolve (name ∷ parts) stack ≡ resolve parts (name ∷ stack)
unfolding resolve
resolve-other name parts stack e e2 = rw (e, e2) refl

resolve-root : (parts : List (List ℕ)) → resolve ((b'.' ∷ b'.' ∷ []) ∷ parts) [] ≡ above_root
unfolding resolve is_dot is_dot_dot
resolve-root parts = refl

resolve-up :
    (parts : List (List ℕ)) (name : List ℕ) (below : List (List ℕ))
    → resolve ((b'.' ∷ b'.' ∷ []) ∷ parts) (name ∷ below) ≡ resolve parts below
unfolding resolve is_dot is_dot_dot
resolve-up parts name below = refl

resolve-nothing : (stack : List (List ℕ)) → names stack ≡ resolve (parts_from [] []) stack
unfolding resolve parts_from
resolve-nothing stack = refl

popped :
    (fuel : ℕ) (path : List ℕ) (stack : List (List ℕ))
    → is_dot_dot path ≡ true
    → ((below : List (List ℕ))
        → walk fuel (drop 3 path) below ≡ resolve (parts_from [] (drop 3 path)) below)
    → ◌≡◌ {A = Simplified}
        (elim stack [ [] ↦ above_root | name ∷ below ↦ walk fuel (drop 3 path) below ])
        (resolve (parts_from [] path) stack)
popped fuel path [] e ih =
    sym
      (ap (λ ps. resolve ps []) (dot_dot_part path e) ∙ resolve-root (parts_from [] (drop 3 path)))
popped fuel path (name ∷ below) e ih =
    ih below
    ∙ sym (
        ap (λ ps. resolve ps (name ∷ below)) (dot_dot_part path e)
        ∙ resolve-up (parts_from [] (drop 3 path)) name below)

walk-resolve :
    (fuel : ℕ) (path : List ℕ) (stack : List (List ℕ))
    → length path < fuel
    → walk fuel path stack ≡ resolve (parts_from [] path) stack
unfolding walk
walk-resolve zero path stack lt = absurd (omega arith)
walk-resolve (suc fuel) [] stack lt = resolve-nothing stack
walk-resolve (suc fuel) (c ∷ cs) stack lt = elim (Bool-cases (c == b'/')) [
  | inl t ↦ rw t (
      walk-resolve fuel (skip_slashes cs) stack (omega (arith, length-skip cs))
      ∙ ap (λ ps. resolve ps stack) (parts_from-skip cs ∙ sym (parts_slash [] c cs t)))
  | inr t ↦ elim (Bool-cases (is_dot (c ∷ cs))) [
    | inl e ↦
        rw (t, e)
          (walk-resolve fuel (drop 1 cs) stack (omega (arith, length-drop 1 cs))
            ∙ sym (ap (λ ps. resolve ps stack) (dot_part (c ∷ cs) e) ∙ resolve-dot _ stack))
    | inr e ↦ elim (Bool-cases (is_dot_dot (c ∷ cs))) [
      | inl e2 ↦
          rw (t, e, e2)
            (popped fuel (c ∷ cs) stack e2
              λ below. walk-resolve fuel (drop 2 cs) below (omega (arith, length-drop 2 cs)))
      | inr e2 ↦
          let (o, o2) = other_part c cs t e e2 in
          rw (t, e, e2)
            (walk-resolve fuel (take_name cs).1 ((c ∷ (take_name cs).0) ∷ stack)
                (omega (arith, length-take_name cs))
              ∙ sym (
                  ap (λ ps. resolve ps stack) (first_part c cs t)
                  ∙ resolve-other (take_name (c ∷ cs)).0 (parts_from [] (take_name (c ∷ cs)).1)
                      stack o o2
                  ∙ ap (λ (r : List ℕ × List ℕ). resolve (parts_from [] r.1) (r.0 ∷ stack))
                      (take_other c cs t)))
    ]
  ]
]

-- `get_simplified_path` ends on every path, with the names that its parts between slashes resolve to:
-- `.` and empty parts are dropped, `..` takes the part before it away, and -2 is returned where there
-- is none. Both are resolved in the text of the path, and neither is left as a part.
pub get_simplified_path-resolve :
    (path : List ℕ) → get_simplified_path path ≡ resolve (parts_from [] path) []
unfolding get_simplified_path
get_simplified_path-resolve path = walk-resolve (suc (length path)) path [] (omega arith)
