-- ===== src/Fat/Name/Arrays.antt =====
-- Strings in arrays: what is copied, cleaned and compared.
use ift.Base.{
  ℕ, zero, suc, ◌+◌, ◌-◌, ◌≤◌, ◌<◌, ◌≡◌, refl, sym, ap, ◌∙◌, Bool, true, false, ◌&&◌, none, some,
  List, [], ◌∷◌, ◌++◌, arith, ◌==◌, length, drop, get_or, set, replicate, All, All-append,
  All-replicate, ==-self, length-append, length-replicate,
}
use mathlib.Core.List.{append_assoc, append-nil}
use mathlib.Core.Option
use ift.Fat.Name.{
  c_string, copied, overlay, strncpy, remove_spaces, clean, tolower, same_case, strchr,
}

abbrev pub IsPlain : ℕ → Type 0
IsPlain c = (c == 0) ≡ false

c_string-append : (xs ys : List ℕ) → All IsPlain xs → c_string (xs ++ ys) ≡ xs ++ c_string ys
unfolding c_string
c_string-append [] ys h = refl
c_string-append (x ∷ xs) ys h = rw h.0 (ap (λ l. x ∷ l) (c_string-append xs ys h.1))

c_string-zeros : (n : ℕ) → c_string (replicate n 0) ≡ []
unfolding c_string
c_string-zeros zero = refl
c_string-zeros (suc n) = refl

pub copied-append :
    (xs ys : List ℕ) (n : ℕ) → n ≡ length xs → All IsPlain xs → copied n (xs ++ ys) ≡ xs
unfolding copied
copied-append [] ys zero e h = refl
copied-append [] ys (suc n) e h = absurd (omega arith)
copied-append (x ∷ xs) ys zero e h = absurd (omega arith)
copied-append (x ∷ xs) ys (suc n) e h =
    rw h.0 (ap (λ l. x ∷ l) (copied-append xs ys n (omega arith) h.1))

set-append : (xs ys : List ℕ) (y v : ℕ) → set (xs ++ y ∷ ys) (length xs) v ≡ xs ++ v ∷ ys
set-append [] ys y v = refl
set-append (x ∷ xs) ys y v = ap (λ l. x ∷ l) (set-append xs ys y v)

get_or-append_at : (xs ys : List ℕ) (y d : ℕ) → get_or (xs ++ y ∷ ys) (length xs) d ≡ y
get_or-append_at [] ys y d = refl
get_or-append_at (x ∷ xs) ys y d = get_or-append_at xs ys y d

get_or-append_lt :
    (xs ys : List ℕ) (i d : ℕ) → i < length xs → get_or (xs ++ ys) i d ≡ get_or xs i d
get_or-append_lt [] ys i d h = absurd (omega arith)
get_or-append_lt (x ∷ xs) ys zero d h = refl
get_or-append_lt (x ∷ xs) ys (suc i) d h = get_or-append_lt xs ys i d (omega arith)

replicate-snoc : (n c : ℕ) (ys : List ℕ) → replicate (suc n) c ++ ys ≡ replicate n c ++ (c ∷ ys)
replicate-snoc zero c ys = refl
replicate-snoc (suc n) c ys = ap (λ l. c ∷ l) (replicate-snoc n c ys)

-- The string does not end in a space.
abbrev pub IsTrimmed : List ℕ → Type 0
IsTrimmed xs = (get_or xs (length xs - 1) 0 == b' ') ≡ false

remove_spaces-stops :
    (xs ys : List ℕ) → IsTrimmed xs → remove_spaces (length xs) (xs ++ ys) ≡ xs ++ ys
unfolding remove_spaces
remove_spaces-stops [] ys h = refl
remove_spaces-stops (x ∷ xs) ys h =
    let e : suc (length xs) - 1 ≡ length xs = omega arith in
    let t : (get_or ((x ∷ xs) ++ ys) (length xs) 0 == b' ') ≡ false =
      ap (λ c. c == b' ')
        (get_or-append_lt (x ∷ xs) ys (length xs) 0 (omega arith)
          ∙ ap (λ i. get_or (x ∷ xs) i 0) (sym e))
      ∙ h in
    rw t refl

remove_spaces-space :
    (xs ys : List ℕ)
    → remove_spaces (suc (length xs)) (xs ++ b' ' ∷ ys) ≡ remove_spaces (length xs) (xs ++ 0 ∷ ys)
unfolding remove_spaces
remove_spaces-space xs ys =
    let t : (get_or (xs ++ b' ' ∷ ys) (length xs) 0 == b' ') ≡ true =
      ap (λ c. c == b' ') (get_or-append_at xs ys b' ' 0) in
    rw t (ap (remove_spaces (length xs)) (set-append xs ys b' ' 0))

remove_spaces-last :
    (k : ℕ) (xs ys : List ℕ)
    → remove_spaces (suc k + length xs) (xs ++ (replicate (suc k) b' ' ++ ys))
      ≡ remove_spaces (k + length xs) (xs ++ (replicate k b' ' ++ (0 ∷ ys)))
remove_spaces-last k xs ys =
    let zs = xs ++ replicate k b' ' in
    let e : length zs ≡ k + length xs =
      omega (arith, length-append xs (replicate k b' '), length-replicate {A = ℕ} k b' ') in
    let f : suc k + length xs ≡ suc (length zs) = omega (arith, e) in
    ap (remove_spaces (suc k + length xs)) (
      ap (λ l. xs ++ l) (replicate-snoc k b' ' ys)
      ∙ sym (append_assoc xs (replicate k b' ') (b' ' ∷ ys)))
    ∙ ap (λ i. remove_spaces i (zs ++ b' ' ∷ ys)) f
    ∙ remove_spaces-space zs ys
    ∙ ap (λ i. remove_spaces i (zs ++ 0 ∷ ys)) e
    ∙ ap (remove_spaces (k + length xs)) (append_assoc xs (replicate k b' ') (0 ∷ ys))

remove_spaces-append :
    (k : ℕ) (xs ys : List ℕ)
    → IsTrimmed xs
    → remove_spaces (k + length xs) (xs ++ (replicate k b' ' ++ ys)) ≡ xs ++ (replicate k 0 ++ ys)
unfolding remove_spaces
remove_spaces-append zero xs ys h =
    let e : 0 + length xs ≡ length xs = omega arith in
    ap (λ i. remove_spaces i (xs ++ ys)) e ∙ remove_spaces-stops xs ys h
remove_spaces-append (suc k) xs ys h =
    remove_spaces-last k xs ys
    ∙ remove_spaces-append k xs (0 ∷ ys) h
    ∙ ap (λ l. xs ++ l) (sym (replicate-snoc k 0 ys))

-- An array of an entry, `xs` and spaces up to its size, is cleaned into the string `xs`.
pub clean-padded :
    (n k : ℕ) (xs rest : List ℕ)
    → n ≡ k + length xs
    → All IsPlain xs
    → IsTrimmed xs
    → clean n ((xs ++ replicate k b' ') ++ rest) ≡ xs ++ replicate (suc k) 0
unfolding clean
clean-padded n k xs rest e h t =
    let zs = xs ++ replicate k b' ' in
    let size : n ≡ length zs =
      omega (arith, e, length-append xs (replicate k b' '), length-replicate {A = ℕ} k b' ') in
    let plain : All IsPlain zs =
      All-append IsPlain xs (replicate k b' ') h (All-replicate IsPlain k b' ' refl) in
    ap (λ l. remove_spaces n (l ++ 0 ∷ [])) (copied-append zs rest n size plain)
    ∙ ap (remove_spaces n) (append_assoc xs (replicate k b' ') (0 ∷ []))
    ∙ ap (λ i. remove_spaces i (xs ++ (replicate k b' ' ++ (0 ∷ [])))) e
    ∙ remove_spaces-append k xs (0 ∷ []) t
    ∙ ap (λ l. xs ++ l) (sym (replicate-snoc k 0 []) ∙ append-nil (replicate (suc k) 0))

pub c_string-padded : (xs : List ℕ) (k : ℕ) → All IsPlain xs → c_string (xs ++ replicate k 0) ≡ xs
c_string-padded xs k h =
    c_string-append xs (replicate k 0) h ∙ ap (λ l. xs ++ l) (c_string-zeros k) ∙ append-nil xs

pub overlay-append :
    (xs ys zs : List ℕ)
    → length ys ≤ length xs
    → overlay (xs ++ zs) ys ≡ (ys ++ drop (length ys) xs) ++ zs
unfolding overlay
overlay-append xs [] zs h = refl
overlay-append [] (y ∷ ys) zs h = absurd (omega arith)
overlay-append (x ∷ xs) (y ∷ ys) zs h = ap (λ l. y ∷ l) (overlay-append xs ys zs (omega arith))

pub same_case_self : (xs : List ℕ) → same_case xs xs ≡ true
unfolding same_case
same_case_self [] = refl
same_case_self (x ∷ xs) = let t = ==-self (tolower x) in rw t (same_case_self xs)

-- Strings of one length are compared apart from what follows them.
pub same_case-append :
    (xs ys us vs : List ℕ)
    → length xs ≡ length ys
    → same_case (xs ++ us) (ys ++ vs) ≡ same_case xs ys && same_case us vs
unfolding same_case
same_case-append [] [] us vs e = refl
same_case-append [] (y ∷ ys) us vs e = absurd (omega arith)
same_case-append (x ∷ xs) [] us vs e = absurd (omega arith)
same_case-append (x ∷ xs) (y ∷ ys) us vs e =
    and_next (tolower x == tolower y) _ _ _ (same_case-append xs ys us vs (omega arith))
  where
    and_next : (a b c d : Bool) → b ≡ c && d → (a && b) ≡ (a && c) && d
    and_next true b c d e = e
    and_next false b c d e = refl

pub strchr-append :
    (xs ys : List ℕ) (c : ℕ)
    → All (λ x. (x == c) ≡ false) xs
    → strchr (xs ++ c ∷ ys) c ≡ some (length xs)
unfolding strchr
strchr-append [] ys c h = let t = ==-self c in rw t refl
strchr-append (x ∷ xs) ys c h = rw h.0 (ap (Option.map suc) (strchr-append xs ys c h.1))

pub strchr-none : (xs : List ℕ) (c : ℕ) → All (λ x. (x == c) ≡ false) xs → strchr xs c ≡ none
unfolding strchr
strchr-none [] c h = refl
strchr-none (x ∷ xs) c h = rw h.0 (ap (Option.map suc) (strchr-none xs c h.1))

-- A string of up to three bytes, written over an array of three and a NUL.
pub c_string-strncpy :
    (a b c : ℕ) (xs : List ℕ)
    → length xs ≤ 3
    → All IsPlain xs
    → c_string (strncpy (a ∷ b ∷ c ∷ 0 ∷ []) xs 3) ≡ xs
unfolding c_string strncpy overlay copied
c_string-strncpy a b c [] l h = refl
c_string-strncpy a b c (x ∷ []) l h = rw (h.0, h.0) refl
c_string-strncpy a b c (x ∷ y ∷ []) l h = rw (h.0, h.1.0, h.0, h.1.0) refl
c_string-strncpy a b c (x ∷ y ∷ z ∷ []) l h = rw (h.0, h.1.0, h.1.1.0, h.0, h.1.0, h.1.1.0) refl
c_string-strncpy a b c (x ∷ y ∷ z ∷ u ∷ us) l h = absurd (omega arith)
