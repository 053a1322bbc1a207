-- ===== src/Fat/Find/Directory/Lookup.antt =====
-- The loop of the search against the description level by level.
use ift.Base.{
  ℕ, zero, suc, ◌+◌, ◌*◌, ◌%◌, ◌^◌, ◌≤◌, ◌<◌, ◌≡◌, refl, sym, ap, ◌∙◌, true, false, none, some,
  List, [], ◌∷◌, inl, inr, arith, if◌then◌else◌, length, get_elem?, drop, length-drop, ◌-◌,
  Option-cases, Bool-cases,
}
use native.Mathlib.Nat.{mul-le-mul_right}
use ift.Fat.Path.{break_up_path}
use ift.Fat.Path.Levels.{level_of}
use ift.Fat.Block.{Bpb, fread_at}
use ift.Fat.Block.Chain.{fread_at-le}
use ift.Fat.File.{FatEntry, entry_at, first_cluster, cluster_offset}
use ift.Fat.Name.{file_has_name}
use ift.Fat.Find.{Find, general_err, is_directory, is_last, find_loop, find_from}
use ift.Fat.Find.Directory.{Match, first_match, entries_from, descend}

drop-suc {ℓ} :
    {A : Type ℓ} (n : ℕ) (xs : List A) (y : A) (ys : List A)
    → drop n xs ≡ y ∷ ys
    → drop (suc n) xs ≡ ys
drop-suc {A = A} n [] y ys e = ap tail (sym (drop-none n) ∙ e)
  where
    tail : List A → List A
    tail [] = []
    tail (x ∷ xs) = xs

    drop-none : (n : ℕ) → drop {A = A} n [] ≡ []
    drop-none zero = refl
    drop-none (suc n) = refl
drop-suc {A = A} zero (x ∷ xs) y ys e = ap tail e
  where
    tail : List A → List A
    tail [] = []
    tail (z ∷ zs) = zs
drop-suc (suc n) (x ∷ xs) y ys e = drop-suc n xs y ys e

get_elem?-drop {ℓ} : {A : Type ℓ} (n : ℕ) (xs : List A) → get_elem? xs n ≡ get_elem? (drop n xs) 0
get_elem?-drop zero xs = refl
get_elem?-drop (suc n) [] = refl
get_elem?-drop (suc n) (x ∷ xs) = get_elem?-drop n xs

pub entries_from-none :
    (archive : List ℕ) (block : Bpb) (first_data_sector n offset : ℕ)
    → fread_at archive offset 32 ≡ none
    → entries_from archive block first_data_sector n offset ≡ []
unfolding entries_from
entries_from-none archive block first_data_sector zero offset e = refl
entries_from-none archive block first_data_sector (suc n) offset e = rw (e, entries_from) refl

pub entries_from-some :
    (archive : List ℕ) (block : Bpb) (first_data_sector n offset : ℕ) (bytes : List ℕ)
    → fread_at archive offset 32 ≡ some bytes
    → 0 < n
    → entries_from archive block first_data_sector n offset
      ≡ entry_at bytes ∷ entries_from archive block first_data_sector (n - 1) (offset + 32)
unfolding entries_from
entries_from-some archive block first_data_sector zero offset bytes e h = absurd (omega arith)
entries_from-some archive block first_data_sector (suc n) offset bytes e h =
    let k : n ≡ suc n - 1 = omega arith in
    rw (e, entries_from)
      (ap (λ m. entry_at bytes ∷ entries_from archive block first_data_sector m (offset + 32)) k)

next_offset : (root i : ℕ) → root + suc i * 32 ≡ root + i * 32 + 32
next_offset root i = omega arith

first_offset : (root : ℕ) → root + 0 * 32 ≡ root
first_offset root = omega arith

module _ (archive : List ℕ) (block : Bpb) (path : List ℕ) (first_data_sector : ℕ) where
  abbrev loop : ℕ → ℕ → ℕ → ℕ → List ℕ → Find
  loop = find_loop archive block path first_data_sector

  abbrev below : Match → List (List ℕ) → Find
  below = descend archive block first_data_sector

  abbrev entries : ℕ → ℕ → List FatEntry
  entries = entries_from archive block first_data_sector

  next_level :
      (all : List (List ℕ)) (depth : ℕ) (name : List ℕ) (rest : List (List ℕ))
      → ((level : ℕ) → break_up_path path level ≡ level_of (get_elem? all level))
      → length all ≤ 255
      → drop depth all ≡ name ∷ rest
      → break_up_path path (suc depth % 2 ^ 8) ≡ level_of (get_elem? rest 0)
  next_level all depth name rest broken few here =
      let size : length all - depth ≡ length (name ∷ rest) =
        sym (length-drop depth all) ∙ ap length here in
      let e : suc depth % 2 ^ 8 ≡ suc depth = omega arith in
      ap (break_up_path path) e
      ∙ broken (suc depth)
      ∙ ap level_of (
          get_elem?-drop (suc depth) all
          ∙ ap (λ l. get_elem? l 0) (drop-suc depth all name rest here))

  loop-Lookup :
      (all : List (List ℕ))
      → ((level : ℕ) → break_up_path path level ≡ level_of (get_elem? all level))
      → length all ≤ 255
      → (fuel n root i depth : ℕ) (name : List ℕ) (rest : List (List ℕ))
      → drop depth all ≡ name ∷ rest
      → n + length rest * suc (length archive) < fuel
      → length archive < root + i * 32 + n * 32 + 32
      → loop fuel root i depth name ≡ below (first_match (entries n (root + i * 32)) name) rest
  unfolding find_loop first_match descend entries_from
  loop-Lookup all broken few zero n root i depth name rest here enough end = absurd (omega arith)
  loop-Lookup all broken few (suc fuel) zero root i depth name rest here enough end =
      elim (Option-cases (fread_at archive (root + i * 32) 32)) [
        | inl e ↦ rw (e, find_loop) refl
        | inr (bytes, e) ↦ absurd (omega (arith, fread_at-le archive (root + i * 32) 32 bytes e))
      ]
  loop-Lookup all broken few (suc fuel) (suc n) root i depth name [] here enough end =
      elim (Option-cases (fread_at archive (root + i * 32) 32)) [
        | inl e ↦ rw (e, find_loop, entries_from) refl
        | inr (bytes, e) ↦ elim (Option-cases (file_has_name (entry_at bytes) name)) [
          | inl f ↦ rw (e, find_loop, entries_from, f, first_match) refl
          | inr (true, f) ↦
              rw
                (
                  e,
                  find_loop,
                  entries_from,
                  f,
                  first_match,
                  next_level all depth name [] broken few here,
                )
                refl
          | inr (false, f) ↦ elim (Bool-cases (is_last (entry_at bytes))) [
            | inl t ↦ rw (e, find_loop, entries_from, f, first_match, t) refl
            | inr t ↦
                rw (e, find_loop, entries_from, f, first_match, t)
                  (loop-Lookup all broken few fuel n root (suc i) depth name [] here (omega arith)
                      (omega arith)
                    ∙ ap (λ o. below (first_match (entries n o) name) []) (next_offset root i))
          ]
        ]
      ]
  loop-Lookup all broken few (suc fuel) (suc n) root i depth name (name' ∷ rest) here enough end =
      elim (Option-cases (fread_at archive (root + i * 32) 32)) [
        | inl e ↦ rw (e, find_loop, entries_from) refl
        | inr (bytes, e) ↦ elim (Option-cases (file_has_name (entry_at bytes) name)) [
          | inl f ↦ rw (e, find_loop, entries_from, f, first_match) refl
          | inr (true, f) ↦
              rw
                (
                  e,
                  find_loop,
                  entries_from,
                  f,
                  first_match,
                  next_level all depth name (name' ∷ rest) broken few here,
                )
                (ap (λ r. if is_directory (entry_at bytes) then r else general_err)
                  (loop-Lookup all broken few fuel (length archive)
                      (cluster_offset block first_data_sector (first_cluster (entry_at bytes))) 0
                      (suc depth) name' rest (drop-suc depth all name (name' ∷ rest) here)
                      (omega arith) (omega arith)
                    ∙ ap (λ o. below (first_match (entries (length archive) o) name') rest)
                        (first_offset (
                          cluster_offset block first_data_sector
                            (first_cluster (entry_at bytes))))))
          | inr (false, f) ↦ elim (Bool-cases (is_last (entry_at bytes))) [
            | inl t ↦ rw (e, find_loop, entries_from, f, first_match, t) refl
            | inr t ↦
                rw (e, find_loop, entries_from, f, first_match, t)
                  (loop-Lookup all broken few fuel n root (suc i) depth name (name' ∷ rest) here
                      (omega arith) (omega arith)
                    ∙ ap (λ o. below (first_match (entries n o) name) (name' ∷ rest))
                        (next_offset root i))
          ]
        ]
      ]

pub find_from-descend :
    (archive : List ℕ) (block : Bpb) (path : List ℕ) (first_data_sector root : ℕ) (name : List ℕ)
    (rest : List (List ℕ))
    → ((level : ℕ) → break_up_path path level ≡ level_of (get_elem? (name ∷ rest) level))
    → length (name ∷ rest) ≤ 255
    → find_from archive block path first_data_sector root (break_up_path path 0)
      ≡ descend archive block first_data_sector
          (first_match (entries_from archive block first_data_sector (length archive) root) name)
          rest
unfolding find_from
find_from-descend archive block path first_data_sector root name rest broken few =
    let k : length rest ≤ 254 = omega (arith, few) in
    let size : length rest * suc (length archive) ≤ 254 * suc (length archive) =
      mul-le-mul_right (suc (length archive)) k in
    ap (find_from archive block path first_data_sector root) (broken 0)
    ∙ loop-Lookup archive block path first_data_sector (name ∷ rest) broken few
        (suc (256 * suc (length archive))) (length archive) root 0 0 name rest refl
        (omega (arith, size)) (omega arith)
    ∙ ap
        (λ o.
          descend archive block first_data_sector
            (first_match (entries_from archive block first_data_sector (length archive) o) name)
            rest)
        (first_offset root)
