-- ===== src/Fat/Block/Chain.antt =====
-- The entry of a cluster in the table.
use ift.Base.{
  ℕ, zero, suc, ◌+◌, ◌*◌, ◌/◌, ◌%◌, ◌^◌, ◌≤◌, ◌<◌, ◌≡◌, refl, sym, ap, ◌∙◌, some, List, [], ◌∷◌,
  ◌++◌, length, take, drop, get_or, length-append, All, All-get_or, arith, ltb, leb, true,
}
use ift.Fat.Block.{uint32, Bpb, as_uint32, fread_at, entry_of, fat_table, get_cluster_chain_value}

-- the four bytes of an entry
abbrev le32 : ℕ → List ℕ
le32 n = n % 256 ∷ n / 256 % 256 ∷ n / 65536 % 256 ∷ n / 16777216 ∷ []

abbrev pub table : List ℕ → List ℕ
table [] = []
table (e ∷ es) = le32 e ++ table es

as_uint32-le32 : (n : ℕ) → n < 2 ^ 32 → as_uint32 (le32 n) ≡ n
unfolding as_uint32
as_uint32-le32 n h = omega arith

entry_of-le32 : (n : ℕ) → n < 2 ^ 32 → entry_of (some (le32 n)) ≡ some (n % 2 ^ 28)
unfolding entry_of
entry_of-le32 n h = ap (λ m. some (m % 2 ^ 28)) (as_uint32-le32 n h)

length-table : (es : List ℕ) → length (table es) ≡ 4 * length es
length-table [] = refl
length-table (e ∷ es) = omega (arith, length-table es)

drop-append_add {ℓ} :
    {A : Type ℓ} (xs ys : List A) (k : ℕ) → drop (length xs + k) (xs ++ ys) ≡ drop k ys
drop-append_add [] ys k = let e : 0 + k ≡ k = omega arith in ap (λ n. drop n ys) e
drop-append_add (x ∷ xs) ys k =
    let e : suc (length xs) + k ≡ suc (length xs + k) = omega arith in
    ap (λ n. drop n (x ∷ xs ++ ys)) e ∙ drop-append_add xs ys k

take-drop-table :
    (es rest : List ℕ) (c : ℕ)
    → c < length es
    → take 4 (drop (c * 4) (table es ++ rest)) ≡ le32 (get_or es c 0)
take-drop-table [] rest c h = absurd (omega arith)
take-drop-table (e ∷ es) rest zero h = refl
take-drop-table (e ∷ es) rest (suc c) h =
    let four : suc c * 4 ≡ suc (suc (suc (suc (c * 4)))) = omega arith in
    ap (λ n. take 4 (drop n (table (e ∷ es) ++ rest))) four
    ∙ take-drop-table es rest c (omega arith)

pub fread_at-inside :
    (archive : List ℕ) (offset size : ℕ)
    → 0 < size
    → offset + size ≤ length archive
    → fread_at archive offset size ≡ some (take size (drop offset archive))
unfolding fread_at
fread_at-inside archive offset size h k =
    let t : ltb 0 size ≡ true = ground arith in
    let u : leb (offset + size) (length archive) ≡ true = ground arith in rw (t, u) refl

pub fread_at-size :
    (archive : List ℕ) (offset size : ℕ) (bytes : List ℕ)
    → fread_at archive offset size ≡ some bytes
    → 0 < size
unfolding fread_at
fread_at-size archive offset size bytes e = ground arith

pub fread_at-le :
    (archive : List ℕ) (offset size : ℕ) (bytes : List ℕ)
    → fread_at archive offset size ≡ some bytes
    → offset + size ≤ length archive
unfolding fread_at
fread_at-le archive offset size bytes e = ground arith

-- Where the table of clusters stands at `fat_table`, in four little-endian bytes for each cluster and
-- below 4 GB, the call returns the low 28 bits of the entry of each of its clusters.
pub get_cluster_chain_value-entry :
    (block : Bpb) (before entries rest : List ℕ) (cluster : ℕ)
    → length before ≡ fat_table block
    → length before + 4 * length entries < 2 ^ 32
    → All (λ e. e < 2 ^ 32) entries
    → cluster < length entries
    → get_cluster_chain_value block cluster (before ++ (table entries ++ rest))
      ≡ some (get_or entries cluster 0 % 2 ^ 28)
unfolding get_cluster_chain_value
get_cluster_chain_value-entry block before entries rest cluster start small words h =
    let archive = before ++ (table entries ++ rest) in
    let offset = fat_table block + cluster * 4 in
    let wrapped : uint32 offset ≡ offset = omega (arith, start) in
    let size : length archive ≡ length before + (4 * length entries + length rest) = omega (
      arith,
      length-append before (table entries ++ rest),
      length-append (table entries) rest,
      length-table entries,
    ) in
    let found : take 4 (drop offset archive) ≡ le32 (get_or entries cluster 0) =
      ap (λ n. take 4 (drop (n + cluster * 4) archive)) (sym start)
      ∙ ap (take 4) (drop-append_add before (table entries ++ rest) (cluster * 4))
      ∙ take-drop-table entries rest cluster h in
    let word : get_or entries cluster 0 < 2 ^ 32 =
      All-get_or (λ e. e < 2 ^ 32) entries cluster 0 h words in
    ap (λ n. entry_of (fread_at archive n 4)) wrapped
    ∙ ap entry_of (fread_at-inside archive offset 4 (omega arith) (omega (arith, start, size)))
    ∙ ap (λ bytes. entry_of (some bytes)) found
    ∙ entry_of-le32 (get_or entries cluster 0) word
