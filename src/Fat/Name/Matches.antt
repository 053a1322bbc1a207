-- ===== src/Fat/Name/Matches.antt =====
-- The names that an entry matches.
use ift.Base.{
  ℕ, zero, suc, ◌+◌, ◌-◌, ◌≤◌, ◌≡◌, refl, sym, ap, ◌∙◌, false, ◌&&◌, none, some, List, [], ◌∷◌,
  ◌++◌, arith, leb, ◌==◌, if◌then◌else◌, length, take, drop, replicate, All, All-append,
  length-append, length-replicate, length-drop, length-take, take-append-drop, drop-append,
}
use mathlib.Core.List.{append-nil}
use mathlib.Core.Bool.{and-true}
use ift.Fat.File.{FatEntry}
use ift.Fat.Name.{
  c_string, strncpy, overlay, clean, concat, same_case, strchr, compare_names, file_has_name,
}
use ift.Fat.Name.Arrays.{
  IsPlain, IsTrimmed, c_string-padded, copied-append, clean-padded, overlay-append, same_case_self,
  same_case-append, strchr-append, strchr-none, c_string-strncpy,
}

abbrev padded : ℕ → List ℕ → List ℕ
padded n xs = xs ++ replicate (n - length xs) b' '

-- The entry has a name and an extension, padded with spaces.
pub record Names (entry : FatEntry) (stem ext : List ℕ) : Type 0 where
  pub bytes : entry.dir_name ≡ padded 8 stem ++ padded 3 ext
  pub stem_size : length stem ≤ 8
  pub ext_size : length ext ≤ 3
  pub stem_plain : All IsPlain stem
  pub ext_plain : All IsPlain ext
  pub stem_trimmed : IsTrimmed stem
  pub ext_trimmed : IsTrimmed ext

abbrev HasNo : ℕ → List ℕ → Type 0
HasNo c xs = All (λ x. (x == c) ≡ false) xs

length-padded : (n : ℕ) (xs : List ℕ) → length xs ≤ n → length (padded n xs) ≡ n
length-padded n xs h = omega (
  arith,
  length-append xs (replicate (n - length xs) b' '),
  length-replicate {A = ℕ} (n - length xs) b' ',
)

take_all : (n : ℕ) (xs : List ℕ) → length xs ≤ n → take n xs ≡ xs
take_all zero [] h = refl
take_all zero (x ∷ xs) h = absurd (omega arith)
take_all (suc n) [] h = refl
take_all (suc n) (x ∷ xs) h = ap (λ l. x ∷ l) (take_all n xs (omega arith))

All-drop : (n : ℕ) (xs : List ℕ) → All IsPlain xs → All IsPlain (drop n xs)
All-drop zero xs h = h
All-drop (suc n) [] h = tt
All-drop (suc n) (x ∷ xs) h = All-drop n xs h.1

drop-dot : (pre suf : List ℕ) → drop (suc (length pre)) (pre ++ b'.' ∷ suf) ≡ suf
drop-dot [] suf = refl
drop-dot (c ∷ pre) suf = drop-dot pre suf

concat-of :
    (x y xs ys : List ℕ)
    → c_string x ≡ xs
    → c_string y ≡ ys
    → length xs + length ys ≤ 11
    → concat x y ≡ xs ++ ys
unfolding concat
concat-of x y xs ys e f h =
    ap (λ l. take 11 (l ++ c_string y)) e
    ∙ ap (λ l. take 11 (xs ++ l)) f
    ∙ take_all 11 (xs ++ ys) (omega (arith, length-append xs ys))

-- An array of three bytes and a NUL.
extension-strncpy :
    (ext suf : List ℕ)
    → length ext ≤ 3
    → length suf ≤ 3
    → All IsPlain suf
    → c_string (strncpy (ext ++ replicate (suc (3 - length ext)) 0) suf 3) ≡ suf
extension-strncpy [] suf h l p = c_string-strncpy 0 0 0 suf l p
extension-strncpy (a ∷ []) suf h l p = c_string-strncpy a 0 0 suf l p
extension-strncpy (a ∷ b ∷ []) suf h l p = c_string-strncpy a b 0 suf l p
extension-strncpy (a ∷ b ∷ c ∷ []) suf h l p = c_string-strncpy a b c suf l p
extension-strncpy (a ∷ b ∷ c ∷ d ∷ ext) suf h l p = absurd (omega arith)

module _ (entry : FatEntry) (stem ext : List ℕ) (named : Names entry stem ext) where
  open named use {bytes, stem_size, ext_size, stem_plain, ext_plain, stem_trimmed, ext_trimmed}

  abbrev stem_array : List ℕ
  stem_array = stem ++ replicate (suc (8 - length stem)) 0

  abbrev ext_array : List ℕ
  ext_array = ext ++ replicate (suc (3 - length ext)) 0

  clean-stem : clean 8 entry.dir_name ≡ stem_array
  clean-stem =
      ap (clean 8) bytes
      ∙ clean-padded 8 (8 - length stem) stem (padded 3 ext) (omega (arith, stem_size)) stem_plain
          stem_trimmed

  clean-ext : clean 3 (drop 8 entry.dir_name) ≡ ext_array
  clean-ext =
      ap (λ l. clean 3 (drop 8 l)) bytes
      ∙ ap (clean 3) (
          drop-append (padded 8 stem) (padded 3 ext) 8 (sym (length-padded 8 stem stem_size))
          ∙ sym (append-nil (padded 3 ext)))
      ∙ clean-padded 3 (3 - length ext) ext [] (omega (arith, ext_size)) ext_plain ext_trimmed

  file_has_name-compare :
      (name : List ℕ)
      → file_has_name entry name ≡ compare_names stem_array ext_array name (strchr name b'.')
  unfolding file_has_name
  file_has_name-compare name = rw (clean-stem, clean-ext) refl

  concat-stem : concat stem_array ext_array ≡ stem ++ ext
  concat-stem =
      concat-of stem_array ext_array stem ext
        (c_string-padded stem (suc (8 - length stem)) stem_plain)
        (c_string-padded ext (suc (3 - length ext)) ext_plain) (omega (arith, stem_size, ext_size))

  -- Without a dot, a name is compared with the two parts of the entry in a row.
  file_has_name-plain :
      (name : List ℕ)
      → HasNo b'.' name
      → file_has_name entry name ≡ some (same_case (stem ++ ext) name)
  unfolding compare_names
  file_has_name-plain name h =
      file_has_name-compare name
      ∙ ap (compare_names stem_array ext_array name) (strchr-none name b'.' h)
      ∙ ap (λ l. some (same_case l name)) concat-stem

  module _ (pre suf : List ℕ) (fits : length pre ≤ length stem) (pre_plain : All IsPlain pre) where
    strncpy-stem :
        c_string (strncpy stem_array (pre ++ b'.' ∷ suf) (length pre))
        ≡ pre ++ drop (length pre) stem
    unfolding strncpy
    strncpy-stem =
        ap (λ l. c_string (overlay stem_array l))
          (copied-append pre (b'.' ∷ suf) (length pre) refl pre_plain)
        ∙ ap c_string (overlay-append stem pre (replicate (suc (8 - length stem)) 0) fits)
        ∙ c_string-padded (pre ++ drop (length pre) stem) (suc (8 - length stem)) (
            All-append IsPlain pre (drop (length pre) stem) pre_plain
              (All-drop (length pre) stem stem_plain))

    same_case-stem :
        same_case stem (pre ++ drop (length pre) stem) ≡ same_case (take (length pre) stem) pre
    same_case-stem =
        ap (λ l. same_case l (pre ++ drop (length pre) stem))
          (sym (take-append-drop (length pre) stem))
        ∙ same_case-append (take (length pre) stem) pre (drop (length pre) stem)
            (drop (length pre) stem) (omega (arith, length-take (length pre) stem, fits))
        ∙ ap (λ b. same_case (take (length pre) stem) pre && b)
            (same_case_self (drop (length pre) stem))
        ∙ and-true (same_case (take (length pre) stem) pre)

    size_kept : length (pre ++ drop (length pre) stem) ≡ length stem
    size_kept =
        omega
          (arith, length-append pre (drop (length pre) stem), length-drop (length pre) stem, fits)

    concat-name :
        length suf ≤ 3
        → All IsPlain suf
        → concat (strncpy stem_array (pre ++ b'.' ∷ suf) (length pre)) (strncpy ext_array suf 3)
          ≡ (pre ++ drop (length pre) stem) ++ suf
    concat-name suf_size suf_plain =
        concat-of (strncpy stem_array (pre ++ b'.' ∷ suf) (length pre)) (strncpy ext_array suf 3)
          (pre ++ drop (length pre) stem) suf strncpy-stem
          (extension-strncpy ext suf ext_size suf_size suf_plain)
          (omega (arith, size_kept, stem_size))

    -- For an entry of a padded name and extension, and a name with a dot, whose part before the dot is
    -- not longer than that of the entry and whose part behind it has three bytes at most, the
    -- extensions are compared, and of the entry's name as many bytes as the part before the dot has.
    pub file_has_name-dot :
        length suf ≤ 3
        → All IsPlain suf
        → HasNo b'.' pre
        → file_has_name entry (pre ++ b'.' ∷ suf)
          ≡ some (same_case (take (length pre) stem) pre && same_case ext suf)
    unfolding compare_names
    file_has_name-dot suf_size suf_plain no_dot =
        let name = pre ++ b'.' ∷ suf in
        let short : leb 9 (length pre) ≡ false = ground (arith, fits, stem_size) in
        let after : drop (suc (length pre)) name ≡ suf = drop-dot pre suf in
        file_has_name-compare name
        ∙ ap (compare_names stem_array ext_array name) (strchr-append pre suf b'.' no_dot)
        ∙ ap
            (λ b.
              if b
              then none
              else some (
                  same_case (concat stem_array ext_array) (
                    concat (strncpy stem_array name (length pre))
                      (strncpy ext_array (drop (suc (length pre)) name) 3))))
            short
        ∙ ap
            (λ l. some (
              same_case (concat stem_array ext_array)
                (concat (strncpy stem_array name (length pre)) (strncpy ext_array l 3))))
            after
        ∙ ap
            (λ l. some (
              same_case l
                (concat (strncpy stem_array name (length pre)) (strncpy ext_array suf 3))))
            concat-stem
        ∙ ap (λ l. some (same_case (stem ++ ext) l)) (concat-name suf_size suf_plain)
        ∙ ap some (
            same_case-append stem (pre ++ drop (length pre) stem) ext suf (sym size_kept)
            ∙ ap (λ b. b && same_case ext suf) same_case-stem)
