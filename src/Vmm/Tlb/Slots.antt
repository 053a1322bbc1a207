-- ===== src/Vmm/Tlb/Slots.antt =====
-- What the TLB maps: each entry seen as its page and frame, without its counter and its right.
use ift.Base.{
  replicate, ℕ, zero, suc, ◌≡◌, ◌≢◌, refl, sym, ap, ◌∙◌, inl, inr, Bool, true, false, ◌&&◌, Option,
  none, some, List, [], ◌∷◌, map, arith, ◌==◌, if◌then◌else◌, is_some, set, Bool-cases, All,
  AllPairs, All-every, All-mono, AllPairs-set, subst,
}
use ift.Vmm.Conf.{tlb_num_entries}
use ift.Vmm.Tlb.{
  init, zeroed, TlbEntry, Tlb, increment_counters, probe, lookup, victim, add_entry, holds_frame,
  remove_from, remove_page_from_tlb,
}

abbrev pub Slot : Type 0
Slot = ℕ × Option ℕ

abbrev pub slot : TlbEntry → Slot
slot e = (e.page_number, e.frame_number)

abbrev pub slots : Tlb → List Slot
slots t = map slot t.entries

-- the first live slot of page `n`
unfoldable pub find_slot : List Slot → ℕ → Option ℕ
find_slot [] n = none
find_slot ((m, frame) ∷ ss) n = if is_some frame && m == n then frame else find_slot ss n

abbrev pub names_frame : Slot → ℕ → Bool
names_frame s frame = elim s.1 [ none ↦ false | some f ↦ f == frame ]

-- the first slot of a frame, set free
unfoldable pub free_slot : List Slot → ℕ → Option ℕ × List Slot
free_slot [] frame = (none, [])
free_slot (s ∷ ss) frame =
    let rest = free_slot ss frame in
    if names_frame s frame then (some s.0, (s.0, none) ∷ ss) else (rest.0, s ∷ rest.1)

slots-increment : (es : List TlbEntry) → map slot (increment_counters es) ≡ map slot es
unfolding increment_counters
slots-increment [] = refl
slots-increment (e ∷ es) = ground (arith, slots-increment es)

slots-probe :
    (es : List TlbEntry) (n : ℕ) (write : Bool)
    → ((probe es n write).0 ≡ find_slot (map slot es) n)
      × (map slot (probe es n write).1 ≡ map slot es)
unfolding probe find_slot
slots-probe [] n write = (refl, refl)
slots-probe (e ∷ es) n write = elim (Bool-cases (is_some e.frame_number && e.page_number == n)) [
  | inl hit ↦ rw hit (refl, refl)
  | inr miss ↦
      rw miss ((slots-probe es n write).0, ap (λ ss. slot e ∷ ss) (slots-probe es n write).1)
]

-- `tlb_lookup` answers from the slots and leaves them as they were.
pub lookup-find_slot :
    (t : Tlb) (n : ℕ) (write : Bool)
    → ((lookup t n write).0 ≡ find_slot (slots t) n) × (slots (lookup t n write).1 ≡ slots t)
unfolding lookup
lookup-find_slot t n write =
    let p = slots-probe (increment_counters t.entries) n write in
    (p.0 ∙ ap (λ ss. find_slot ss n) (slots-increment t.entries), p.1 ∙ slots-increment t.entries)

map-slot-set :
    (es : List TlbEntry) (i : ℕ) (e : TlbEntry)
    → map slot (set es i e) ≡ set (map slot es) i (slot e)
map-slot-set [] i e = refl
map-slot-set (d ∷ es) zero e = refl
map-slot-set (d ∷ es) (suc i) e = ap (λ ss. slot d ∷ ss) (map-slot-set es i e)

-- `tlb_add_entry` writes one slot.
pub slots-add_entry :
    (t : Tlb) (n frame : ℕ) (readonly : Bool)
    → slots (add_entry t n frame readonly) ≡ set (slots t) (victim t.entries) (n, some frame)
unfolding add_entry
slots-add_entry t n frame readonly = map-slot-set t.entries (victim t.entries) _

slots-remove :
    (es : List TlbEntry) (frame : ℕ)
    → ((remove_from es frame).0 ≡ (free_slot (map slot es) frame).0)
      × (map slot (remove_from es frame).1 ≡ (free_slot (map slot es) frame).1)
unfolding remove_from free_slot
slots-remove [] frame = (refl, refl)
slots-remove (e ∷ es) frame = elim (Bool-cases (holds_frame e frame)) [
  | inl hit ↦ rw hit (refl, refl)
  | inr miss ↦ rw miss ((slots-remove es frame).0, ap (λ ss. slot e ∷ ss) (slots-remove es frame).1)
]

-- `remove_page_from_tlb` frees one slot and returns its page.
pub remove-free_slot :
    (t : Tlb) (frame : ℕ)
    → ((remove_page_from_tlb t frame).0 ≡ (free_slot (slots t) frame).0)
      × (slots (remove_page_from_tlb t frame).1 ≡ (free_slot (slots t) frame).1)
unfolding remove_page_from_tlb
remove-free_slot t frame = slots-remove t.entries frame

-- Every live slot `(n, some f)` has `P n f`.
abbrev pub Live {ℓ} : (ℕ → ℕ → Type ℓ) → Slot → Type ℓ
Live P s = (f : ℕ) → s.1 ≡ some f → P s.0 f

-- Two live slots are of different pages.
abbrev pub Apart : Slot → Slot → Type 0
Apart s r = (f g : ℕ) → s.1 ≡ some f → r.1 ≡ some g → s.0 ≢ r.0

pub find_slot-hit {ℓ} :
    (P : ℕ → ℕ → Type ℓ) (ss : List Slot) (n f : ℕ)
    → find_slot ss n ≡ some f
    → All (Live P) ss
    → P n f
unfolding find_slot
find_slot-hit P [] n f h a = absurd (ground arith)
find_slot-hit P ((m, none) ∷ ss) n f h a = find_slot-hit P ss n f h a.1
find_slot-hit P ((m, some g) ∷ ss) n f h a = elim (Bool-cases (m == n)) [
  | inl hit ↦ let e : m ≡ n = ground arith in rw (← e) (a.0 f (rw hit at h))
  | inr miss ↦ find_slot-hit P ss n f (rw miss at h) a.1
]

-- A page that is not found has no live slot.
pub find_slot-miss : (ss : List Slot) (n : ℕ) → find_slot ss n ≡ none → All (Live (λ m f. m ≢ n)) ss
unfolding find_slot
find_slot-miss [] n h = tt
find_slot-miss ((m, none) ∷ ss) n h = (λ f e. cc, find_slot-miss ss n h)
find_slot-miss ((m, some g) ∷ ss) n h = elim (Bool-cases (m == n)) [
  | inl hit ↦ absurd (ground arith)
  | inr miss ↦ (λ f e. ground arith, find_slot-miss ss n (rw miss at h))
]

-- Freeing a slot keeps every property of the live ones.
pub free_slot-All {ℓ} :
    (P : ℕ → ℕ → Type ℓ) (ss : List Slot) (frame : ℕ)
    → All (Live P) ss
    → All (Live P) (free_slot ss frame).1
unfolding free_slot
free_slot-All P [] frame a = tt
free_slot-All P (s ∷ ss) frame a = elim (Bool-cases (names_frame s frame)) [
  | inl hit ↦ rw hit (λ f e. cc, a.1)
  | inr miss ↦ rw miss (a.0, free_slot-All P ss frame a.1)
]

-- the part of `Apart` that speaks of one page
abbrev pub Not : ℕ → ℕ → ℕ → Type 0
Not n m f = m ≢ n

Apart-free :
    (s : Slot) (ss : List Slot) (frame : ℕ)
    → All (Apart s) ss
    → All (Apart s) (free_slot ss frame).1
unfolding free_slot
Apart-free s [] frame a = tt
Apart-free s (r ∷ ss) frame a = elim (Bool-cases (names_frame r frame)) [
  | inl hit ↦ rw hit (λ f g e h. cc, a.1)
  | inr miss ↦ rw miss (a.0, Apart-free s ss frame a.1)
]

pub free_slot-Apart :
    (ss : List Slot) (frame : ℕ) → AllPairs Apart ss → AllPairs Apart (free_slot ss frame).1
unfolding free_slot
free_slot-Apart [] frame a = tt
free_slot-Apart (s ∷ ss) frame a = elim (Bool-cases (names_frame s frame)) [
  | inl hit ↦ rw hit (All-every (Apart (s.0, none)) ss (λ r f g e. cc), a.1)
  | inr miss ↦ rw miss (Apart-free s ss frame a.0, free_slot-Apart ss frame a.1)
]

names_frame-eq : (s : Slot) (frame : ℕ) → names_frame s frame ≡ true → s.1 ≡ some frame
names_frame-eq (m, none) frame h = cc
names_frame-eq (m, some f) frame h = ground arith

names_frame-ne : (s : Slot) (frame : ℕ) → names_frame s frame ≡ false → Live (λ m f. f ≢ frame) s
names_frame-ne (m, none) frame h f e = cc
names_frame-ne (m, some g) frame h f e = ground arith

-- The page of the freed slot was live with that frame.
pub free_slot-page {ℓ} :
    (P : ℕ → ℕ → Type ℓ) (ss : List Slot) (frame m : ℕ)
    → (free_slot ss frame).0 ≡ some m
    → All (Live P) ss
    → P m frame
unfolding free_slot
free_slot-page P [] frame m h a = absurd (ground arith)
free_slot-page P (s ∷ ss) frame m h a = elim (Bool-cases (names_frame s frame)) [
  | inl hit ↦
      let e : s.0 ≡ m = ground arith in
      subst (λ k. P k frame) e (a.0 frame (names_frame-eq s frame hit))
  | inr miss ↦ free_slot-page P ss frame m (rw miss at h) a.1
]

-- It has no live slot any more.
pub free_slot-gone :
    (ss : List Slot) (frame m : ℕ)
    → (free_slot ss frame).0 ≡ some m
    → AllPairs Apart ss
    → All (Live (Not m)) (free_slot ss frame).1
unfolding free_slot
free_slot-gone [] frame m h apart = absurd (ground arith)
free_slot-gone (s ∷ ss) frame m h apart = elim (Bool-cases (names_frame s frame)) [
  | inl hit ↦
      let e : s.0 ≡ m = ground arith in
      let live = names_frame-eq s frame hit in
      rw hit (
        λ f q. cc,
        All-mono (Apart s) (Live (Not m)) ss (λ r k f q same. k frame f live q (e ∙ sym same))
            apart.0,
      )
  | inr miss ↦
      let later = rw miss at h in
      let other =
        free_slot-page (λ k g. (f : ℕ) → s.1 ≡ some f → s.0 ≢ k) ss frame m later
          (All-mono (Apart s) (Live (λ k g. (f : ℕ) → s.1 ≡ some f → s.0 ≢ k)) ss
            (λ r k g q f p. k f g p q) apart.0) in
      rw miss (other, free_slot-gone ss frame m later apart.1)
]

-- If no slot is freed then no live slot has the frame.
pub free_slot-none :
    (ss : List Slot) (frame : ℕ) → (free_slot ss frame).0 ≡ none → All (Live (λ m f. f ≢ frame)) ss
unfolding free_slot
free_slot-none [] frame h = tt
free_slot-none (s ∷ ss) frame h = elim (Bool-cases (names_frame s frame)) [
  | inl hit ↦ absurd (ground arith)
  | inr miss ↦ (names_frame-ne s frame miss, free_slot-none ss frame (rw miss at h))
]

pub set-Apart :
    (ss : List Slot) (i n f : ℕ)
    → All (Live (Not n)) ss
    → AllPairs Apart ss
    → AllPairs Apart (set ss i (n, some f))
set-Apart ss i n f fresh apart =
    AllPairs-set Apart ss i (n, some f)
      (All-mono (Live (Not n)) (Apart (n, some f)) ss (λ r k g h p q same. k h q (sym same)) fresh)
      (All-mono (Live (Not n)) (λ r. Apart r (n, some f)) ss (λ r k g h p q. k g p) fresh) apart

-- After the initialisation every slot is free.
pub slots-init : slots (init zeroed) ≡ replicate tlb_num_entries (0, none)
unfolding init
slots-init = refl
