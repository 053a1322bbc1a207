-- ===== src/Fat/File/Slices.antt =====
-- Pieces of arrays.
use ift.Base.{
  ℕ, zero, suc, ◌+◌, ◌-◌, ◌≤◌, ◌≡◌, refl, sym, ap, ◌∙◌, List, [], ◌∷◌, ◌++◌, arith, length, take,
  write_at, set,
}

pub take-nil : (n : ℕ) → take {A = ℕ} n [] ≡ []
take-nil zero = refl
take-nil (suc n) = refl

pub take-take : (m n : ℕ) (xs : List ℕ) → m ≤ n → take m (take n xs) ≡ take m xs
take-take zero n xs h = refl
take-take (suc m) zero xs h = absurd (omega arith)
take-take (suc m) (suc n) [] h = refl
take-take (suc m) (suc n) (x ∷ xs) h = ap (λ l. x ∷ l) (take-take m n xs (omega arith))

pub take-append_le : (n : ℕ) (xs ys : List ℕ) → n ≤ length xs → take n (xs ++ ys) ≡ take n xs
take-append_le zero xs ys h = refl
take-append_le (suc n) [] ys h = absurd (omega arith)
take-append_le (suc n) (x ∷ xs) ys h = ap (λ l. x ∷ l) (take-append_le n xs ys (omega arith))

pub take-append_ge :
    (n : ℕ) (xs ys : List ℕ) → length xs ≤ n → take n (xs ++ ys) ≡ xs ++ take (n - length xs) ys
take-append_ge n [] ys h = let e : n ≡ n - 0 = omega arith in ap (λ k. take k ys) e
take-append_ge zero (x ∷ xs) ys h = absurd (omega arith)
take-append_ge (suc n) (x ∷ xs) ys h =
    let e : suc n - length (x ∷ xs) ≡ n - length xs = omega arith in
    ap (λ l. x ∷ l) (take-append_ge n xs ys (omega arith)) ∙ ap (λ k. x ∷ (xs ++ take k ys)) (sym e)

pub write_at-append :
    (buff : List ℕ) (n : ℕ) (xs ys : List ℕ)
    → write_at (write_at buff n xs) (n + length xs) ys ≡ write_at buff n (xs ++ ys)
write_at-append buff n [] ys = let e : n + 0 ≡ n = omega arith in ap (λ k. write_at buff k ys) e
write_at-append buff n (x ∷ xs) ys =
    let e : n + suc (length xs) ≡ suc n + length xs = omega arith in
    ap (λ k. write_at (write_at buff n (x ∷ xs)) k ys) e
    ∙ write_at-append (set buff n x) (suc n) xs ys
