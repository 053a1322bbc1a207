-- ===== src/Fat/Path/Parts.antt =====
-- The parts of a path and what they mean.
use ift.Base.{
  inl, inr, ℕ, ◌≡◌, refl, sym, ◌∙◌, ap, subst, Bool, true, false, ◌&&◌, List, [], ◌∷◌, ◌++◌, arith,
  ◌==◌, if◌then◌else◌, drop, Bool-cases,
}
use mathlib.Core.List.{append_assoc, append-nil}
use ift.Fat.Path.{skip_slashes, is_dot, is_dot_dot, take_name, Simplified, names, above_root}

abbrev flush : List ℕ → List (List ℕ) → List (List ℕ)
flush [] parts = parts
flush (c ∷ name) parts = (c ∷ name) ∷ parts

-- the names between the slashes of a path; `name` is the one that has begun
unfoldable pub parts_from : List ℕ → List ℕ → List (List ℕ)
parts_from name [] = flush name []
parts_from name (c ∷ cs) =
    let fresh = parts_from [] cs in
    let longer = parts_from (name ++ c ∷ []) cs in if c == b'/' then flush name fresh else longer

-- What the parts mean: `.` stays, `..` leaves a directory, and any other part enters one.
unfoldable pub resolve : List (List ℕ) → List (List ℕ) → Simplified
resolve [] stack = names stack
resolve (part ∷ parts) stack =
    let up : Simplified = elim stack [ [] ↦ above_root | name ∷ below ↦ resolve parts below ] in
    let here = resolve parts stack in
    let down = resolve parts (part ∷ stack) in
    if is_dot part then here else if is_dot_dot part then up else down

pub parts_slash :
    (name : List ℕ) (c : ℕ) (cs : List ℕ)
    → (c == b'/') ≡ true
    → parts_from name (c ∷ cs) ≡ flush name (parts_from [] cs)
unfolding parts_from
parts_slash name c cs t = rw t refl

parts_other :
    (name : List ℕ) (c : ℕ) (cs : List ℕ)
    → (c == b'/') ≡ false
    → parts_from name (c ∷ cs) ≡ parts_from (name ++ c ∷ []) cs
unfolding parts_from
parts_other name c cs t = rw t refl

take_slash : (c : ℕ) (cs : List ℕ) → (c == b'/') ≡ true → take_name (c ∷ cs) ≡ ([], c ∷ cs)
unfolding take_name
take_slash c cs t = rw t refl

pub take_other :
    (c : ℕ) (cs : List ℕ)
    → (c == b'/') ≡ false
    → take_name (c ∷ cs) ≡ (c ∷ (take_name cs).0, (take_name cs).1)
unfolding take_name
take_other c cs t = rw t refl

-- the parts, of a path of which the first name is taken
abbrev taken : List ℕ → List ℕ × List ℕ → List (List ℕ)
taken name r = flush (name ++ r.0) (parts_from [] r.1)

parts_from-take_name : (name path : List ℕ) → parts_from name path ≡ taken name (take_name path)
unfolding parts_from take_name
parts_from-take_name name [] = ap (λ l. flush l []) (sym (append-nil name))
parts_from-take_name name (c ∷ cs) = elim (Bool-cases (c == b'/')) [
  | inl t ↦
      parts_slash name c cs t
      ∙ sym (
          ap (taken name) (take_slash c cs t)
          ∙ ap (λ l. flush l (parts_from [] (c ∷ cs))) (append-nil name)
          ∙ ap (flush name) (parts_slash [] c cs t))
  | inr t ↦
      parts_other name c cs t
      ∙ parts_from-take_name (name ++ c ∷ []) cs
      ∙ ap (λ l. flush l (parts_from [] (take_name cs).1))
          (append_assoc name (c ∷ []) (take_name cs).0)
      ∙ sym (ap (taken name) (take_other c cs t))
]

pub parts_from-skip : (path : List ℕ) → parts_from [] (skip_slashes path) ≡ parts_from [] path
unfolding skip_slashes
parts_from-skip [] = refl
parts_from-skip (c ∷ cs) = elim (Bool-cases (c == b'/')) [
  | inl t ↦
      ap (λ b. parts_from [] (if b then skip_slashes cs else c ∷ cs)) t
      ∙ parts_from-skip cs
      ∙ sym (parts_slash [] c cs t)
  | inr t ↦ ap (λ b. parts_from [] (if b then skip_slashes cs else c ∷ cs)) t
]

-- The first part of a path that does not begin with a slash.
pub first_part :
    (c : ℕ) (cs : List ℕ)
    → (c == b'/') ≡ false
    → parts_from [] (c ∷ cs) ≡ (take_name (c ∷ cs)).0 ∷ parts_from [] (take_name (c ∷ cs)).1
first_part c cs t =
    parts_from-take_name [] (c ∷ cs)
    ∙ ap (taken []) (take_other c cs t)
    ∙ sym (ap (λ (r : List ℕ × List ℕ). r.0 ∷ parts_from [] r.1) (take_other c cs t))

and_true : (a b : Bool) → (a && b) ≡ true → (a ≡ true) × (b ≡ true)
and_true true true e = (refl, refl)
and_true true false e = absurd (cc e)
and_true false b e = absurd (cc e)

regroup : (a b c : Bool) → (a && b && c) ≡ true → ((a && b) && c) ≡ true
regroup true b c e = e
regroup false b c e = e

-- `.` as the first part
pub dot_part :
    (path : List ℕ)
    → is_dot path ≡ true
    → parts_from [] path ≡ (b'.' ∷ []) ∷ parts_from [] (drop 2 path)
unfolding is_dot parts_from
dot_part [] e = absurd (cc e)
dot_part (c ∷ []) e =
    let e2 : c ≡ b'.' = ground arith in
    subst (λ x. parts_from [] (x ∷ []) ≡ (b'.' ∷ []) ∷ []) (sym e2) refl
dot_part (c ∷ d ∷ cs) e =
    let (h, k) = and_true (c == b'.') (d == b'/') e in
    let e2 : c ≡ b'.' = ground arith in let e3 : d ≡ b'/' = ground arith in rw (e2, e3) refl

pub dot_dot_part :
    (path : List ℕ)
    → is_dot_dot path ≡ true
    → parts_from [] path ≡ (b'.' ∷ b'.' ∷ []) ∷ parts_from [] (drop 3 path)
unfolding is_dot_dot parts_from
dot_dot_part [] e = absurd (cc e)
dot_dot_part (c ∷ []) e = absurd (cc e)
dot_dot_part (c ∷ d ∷ []) e =
    let (h, k) = and_true (c == b'.') (d == b'.') e in
    let e2 : c ≡ b'.' = ground arith in let e3 : d ≡ b'.' = ground arith in rw (e2, e3) refl
dot_dot_part (c ∷ d ∷ e ∷ cs) eq =
    let (h, hk) =
      and_true (c == b'.' && d == b'.') (e == b'/')
        (regroup (c == b'.') (d == b'.') (e == b'/') eq) in
    let (h1, h2) = and_true (c == b'.') (d == b'.') h in
    let e2 : c ≡ b'.' = ground arith in
    let e3 : d ≡ b'.' = ground arith in let e4 : e ≡ b'/' = ground arith in rw (e2, e3, e4) refl

-- Any other first part is neither `.` nor `..`.
pub other_part :
    (c : ℕ) (cs : List ℕ)
    → (c == b'/') ≡ false
    → is_dot (c ∷ cs) ≡ false
    → is_dot_dot (c ∷ cs) ≡ false
    → (is_dot (take_name (c ∷ cs)).0 ≡ false) × (is_dot_dot (take_name (c ∷ cs)).0 ≡ false)
unfolding is_dot is_dot_dot take_name
other_part c [] t e e2 = rw t (e, refl)
other_part c (d ∷ []) t e e2 = elim (Bool-cases (d == b'/')) [
  | inl k ↦ let one : (c == b'.') ≡ false = ground arith in rw (t, k) (one, refl)
  | inr k ↦ rw (t, k) (e, e2)
]
other_part c (d ∷ x ∷ cs) t e e2 = elim (Bool-cases (d == b'/')) [
  | inl k ↦ let one : (c == b'.') ≡ false = ground arith in rw (t, k) (one, refl)
  | inr k ↦ elim (Bool-cases (x == b'/')) [
    | inl l ↦ let two : (c == b'.' && d == b'.') ≡ false = ground arith in rw (t, k, l) (e, two)
    | inr l ↦ rw (t, k, l) (e, e2)
  ]
]
