-- ===== src/Vmm/Tlb/Victim.antt =====
-- Which entry `tlb_add_entry` overwrites.
use ift.Base.{
  subst, ap, below-suc, Bool-cases, ℕ, suc, ◌+◌, ◌≤◌, ◌<◌, ◌≡◌, refl, ◌⊎◌, inl, inr, true, false,
  not, ◌&&◌, Option, none, some, List, [], ◌∷◌, arith, leb, ◌==◌, is_some, length, get_or,
}
use ift.Vmm.Tlb.{TlbEntry, blank, prefer, lru_from, get_least_recently_used, last_free_from, victim}

abbrev entry : List TlbEntry → ℕ → TlbEntry
entry es i = get_or es i blank

-- Among the entries below `i`, `l` is a live one with the highest counter, or nothing is live.
abbrev Highest : List TlbEntry → ℕ → ℕ → Type 0
Highest es i l =
    (j : ℕ)
    → j < i
    → is_some (entry es j).frame_number ≡ true
    → (entry es j).counter ≤ (entry es l).counter

-- the two results of the comparison
Chose : ℕ → TlbEntry → ℕ → TlbEntry → Type 0
Chose l el i ei =
    ((prefer l el i ei ≡ l) × (is_some ei.frame_number ≡ true → ei.counter ≤ el.counter))
    ⊎ ((prefer l el i ei ≡ i) × (el.counter ≤ ei.counter))

prefer-Chose : (l : ℕ) (el : TlbEntry) (i : ℕ) (ei : TlbEntry) → Chose l el i ei
unfolding prefer Chose
prefer-Chose l el i ei = elim (Bool-cases (is_some ei.frame_number && leb el.counter ei.counter)) [
  | inr lower ↦ rw lower (inl (refl, λ live. ground arith))
  | inl higher ↦ rw higher (elim (Bool-cases (el.counter == ei.counter)) [
    | inr differ ↦ rw differ (inr (refl, ground arith))
    | inl tie ↦ rw tie (elim (Bool-cases (el.readonly && not ei.readonly)) [
      | inl dirty ↦ rw dirty (inr (refl, ground arith))
      | inr keep ↦ rw keep (inl (refl, λ live. ground arith))
    ])
  ])
]

prefer_step :
    (es : List TlbEntry) (i l : ℕ)
    → l ≤ i
    → Highest es i l
    → (prefer l (entry es l) i (entry es i) ≤ i)
      × Highest es (suc i) (prefer l (entry es l) i (entry es i))
unfolding Chose
prefer_step es i l at h = elim (prefer-Chose l (entry es l) i (entry es i)) [
  | inl (same, below) ↦ rw same (at, below-suc _ i h below)
  | inr (new, above) ↦
      rw new
        (omega arith, below-suc _ i (λ j lt live. omega (arith, h j lt live)) (λ live. omega arith))
]

lru_from-Highest :
    (all : List TlbEntry) (i : ℕ) (es : List TlbEntry) (l : ℕ)
    → ((k : ℕ) → k < length es → entry all (i + k) ≡ get_or es k blank)
    → i + length es ≡ length all
    → l ≤ i
    → Highest all i l
    → (lru_from all i es l ≤ length all) × Highest all (length all) (lru_from all i es l)
unfolding lru_from
lru_from-Highest all i [] l at len le h = let e : length all ≡ i = omega arith in rw e (le, h)
lru_from-Highest all i (e ∷ es) l at len le h =
    let here : entry all i ≡ e = subst (λ n. entry all n ≡ e) (omega arith) (at 0 (omega arith)) in
    let step = rw here at (prefer_step all i l le h) in
    lru_from-Highest all (suc i) es _
      (λ k lt.
        subst (λ n. entry all n ≡ get_or es k blank) (omega arith) (at (suc k) (omega arith)))
      (omega arith) (omega arith) step.1

-- The chosen entry has the highest counter of all live entries.
pub least_recently_used-Highest :
    (es : List TlbEntry) (j : ℕ)
    → j < length es
    → is_some (get_or es j blank).frame_number ≡ true
    → (get_or es j blank).counter ≤ (get_or es (get_least_recently_used es) blank).counter
unfolding get_least_recently_used
least_recently_used-Highest es =
    (lru_from-Highest es 0 es 0 (λ k h. ap (λ n. entry es n) (omega arith)) (omega arith)
      (omega arith) (λ j lt. absurd (omega arith))).1

-- what the first loop has found below `i`
abbrev LastFree : List TlbEntry → ℕ → Option ℕ → Type 0
LastFree es i none = (j : ℕ) → j < i → is_some (entry es j).frame_number ≡ true
LastFree es i (some k) = is_some (entry es k).frame_number ≡ false

last_free_from-LastFree :
    (all : List TlbEntry) (i : ℕ) (es : List TlbEntry) (o : Option ℕ)
    → ((k : ℕ) → k < length es → entry all (i + k) ≡ get_or es k blank)
    → i + length es ≡ length all
    → LastFree all i o
    → LastFree all (length all) (last_free_from i es o)
unfolding last_free_from
last_free_from-LastFree all i [] o at len h = let e : length all ≡ i = omega arith in rw e h
last_free_from-LastFree all i (e ∷ es) o at len h =
    let here : entry all i ≡ e = subst (λ n. entry all n ≡ e) (omega arith) (at 0 (omega arith)) in
    last_free_from-LastFree all (suc i) es _
      (λ k lt.
        subst (λ n. entry all n ≡ get_or es k blank) (omega arith) (at (suc k) (omega arith)))
      (omega arith)
      (elim (Bool-cases (is_some e.frame_number)) [
        | inr free ↦ rw free (rw here free)
        | inl live ↦ rw live (keep o h (rw here live))
      ])
  where
    keep :
        (p : Option ℕ)
        → LastFree all i p
        → is_some (entry all i).frame_number ≡ true
        → LastFree all (suc i) p
    keep none k live = below-suc _ i k live
    keep (some m) k live = k

-- `tlb_add_entry` overwrites a live entry only when every entry is live, and then one that was not
-- used for the longest time.
pub victim-live :
    (es : List TlbEntry)
    → is_some (get_or es (victim es) blank).frame_number ≡ true
    → (j : ℕ) → j < length es
    → (is_some (get_or es j blank).frame_number ≡ true)
      × ((get_or es j blank).counter ≤ (get_or es (victim es) blank).counter)
unfolding victim
victim-live es live j lt =
    go (last_free_from 0 es none)
      (last_free_from-LastFree es 0 es none (λ k h. ap (λ n. entry es n) (omega arith))
        (omega arith) (λ k h. absurd (omega arith)))
      live
  where
    Chosen : Option ℕ → ℕ
    Chosen o = elim o [ some i ↦ i | none ↦ get_least_recently_used es ]

    go :
        (o : Option ℕ)
        → LastFree es (length es) o
        → is_some (entry es (Chosen o)).frame_number ≡ true
        → (is_some (entry es j).frame_number ≡ true)
          × ((entry es j).counter ≤ (entry es (Chosen o)).counter)
    go (some i) free alive = absurd (cc)
    go none all alive = (all j lt, least_recently_used-Highest es j lt (all j lt))
