-- ===== src/Vmm/Frame/Private.antt =====
-- Whether two pages can share a frame.
use ift.Base.{
  ℕ, ◌<◌, ◌≡◌, ◌≢◌, inl, inr, refl, sym, ◌∙◌, subst, ap, Bool, true, false, some, List, arith,
  length, get_or, get_or-set, set, All, Option-cases, Bool-cases, Yields, Yields-bind, Yields-mono,
  Yields-both, lt→ltb,
}
use ift.Vmm.Conf.{num_frames, num_pages}
use ift.Vmm.Memory.{find_free_frame_number}
use ift.Vmm.Memory.Laws.{find_free-some, find_free-none, bitmap-download}
use ift.Vmm.PageTable
use ift.Vmm.PageTable.{
  PageTable, page, set_entry, unset_entry, set_readonly, update_counters, find_page,
  find_victim_frame_number,
}
use ift.Vmm.PageTable.Laws.{Maps, lookup_lem, set_entry-IsSized, find_page-some, find_page-pages}
use ift.Vmm.PageTable.Victim.{find_victim-pages}
use ift.Vmm.Tlb
use ift.Vmm.Tlb.Slots.{
  slots, Live, Not, lookup-find_slot, find_slot-hit, find_slot-miss, free_slot-page,
}
use ift.Vmm.Frame.Mapped.{
  Maps-pages, IsMapped, Maps-lt, Maps-set_entry_inv, Maps-unset_entry_inv, Maps-set_readonly_inv,
  Maps-update_counters_inv,
}
use ift.Vmm.Frame.Fault.{IsValid, Evicted, evict-Evicted, Acquired, acquire-Acquired}
use ift.Vmm.Frame.Translate.{
  Placed, tlb_hit-Placed, tlb_miss-Placed, looked_up, looked_up-IsValid, pt_looked_up,
  pt_looked_up-IsValid,
}
use ift.Vmm.Frame.{Vmm, evict, acquire, fault_in, tlb_miss, tlb_hit, get_frame}

-- No two valid pages have one frame, and a frame that is marked free has no page.
pub record IsPrivate (t : PageTable) (bits : List Bool) : Type 0 where
  pub exclusive : (n m f : ℕ) → Maps t n f → Maps t m f → n ≡ m
  pub covered : (n f : ℕ) → Maps t n f → get_or bits f true ≡ true

-- The search for the victim's page, which reads entries that are not valid too, finds a valid one.
abbrev pub FindsOwner : PageTable → Type 0
FindsOwner t =
    (frame w : ℕ)
    → find_victim_frame_number t ≡ some frame
    → find_page t frame ≡ some w
    → (page t w).valid ≡ true

-- The same mapping, or less of it.
IsPrivate-sub :
    (t u : PageTable) (bits : List Bool)
    → ((n f : ℕ) → Maps u n f → Maps t n f)
    → IsPrivate t bits
    → IsPrivate u bits
IsPrivate-sub t u bits k p = record {
  exclusive = λ n m f a b. p.exclusive n m f (k n f a) (k m f b);
  covered = λ n f a. p.covered n f (k n f a);
}

-- no page has frame `f`
abbrev Unused : PageTable → ℕ → Type 0
Unused t f = (m : ℕ) → Maps t m f → ⊥

-- an unused frame that is given to page `n` and marked
IsPrivate-set_entry :
    (t : PageTable) (bits : List Bool) (n f : ℕ)
    → length t.pages ≡ num_pages
    → n < num_pages
    → f < num_frames
    → f < length bits
    → Unused t f
    → IsPrivate t bits
    → IsPrivate (set_entry t n f) (set bits f true)
IsPrivate-set_entry t bits n f sized h lt inside unused p = record {
  exclusive = λ a b g ma mb. elim (Maps-set_entry_inv t sized n h f a g lt ma) [
    | inl (x, y) ↦ elim (Maps-set_entry_inv t sized n h f b g lt mb) [
      | inl (x', y') ↦ x ∙ sym x'
      | inr (x', mb') ↦ absurd (unused b (subst (Maps t b) y mb'))
    ]
    | inr (x, ma') ↦ elim (Maps-set_entry_inv t sized n h f b g lt mb) [
      | inl (x', y') ↦ absurd (unused a (subst (Maps t a) y' ma'))
      | inr (x', mb') ↦ p.exclusive a b g ma' mb'
    ]
  ];
  covered = λ a g ma. elim (Maps-set_entry_inv t sized n h f a g lt ma) [
    | inl (x, y) ↦ ground (arith, get_or-set bits f g true true)
    | inr (x, ma') ↦ ground (arith, get_or-set bits f g true true, p.covered a g ma')
  ];
}

-- after `acquire`: still private, and the frame is unused
record Vacant (r : ℕ × Vmm) : Type 0 where
  private : IsPrivate r.1.pt r.1.pm.bitmap
  unused : Unused r.1.pt r.0

Evicted-Vacant :
    (s : Vmm)
    → IsMapped s.pt (slots s.tlb)
    → IsPrivate s.pt s.pm.bitmap
    → FindsOwner s.pt
    → (r : ℕ × Vmm) → Evicted s r
    → Vacant r
Evicted-Vacant s v p finds r e =
    let (w, o, out) = e.owner in
    let owns : Maps s.pt w r.0 = elim o [
      | inl cached ↦ free_slot-page (Maps s.pt) (slots s.tlb) r.0 w cached v.cached
      | inr found ↦ (finds r.0 w e.victim found.1, (find_page-some s.pt r.0 w found.1).1)
    ] in
    let lt = Maps-lt s.pt v.sized w r.0 owns in
    let back : (n f : ℕ) → Maps r.1.pt n f → (n ≢ w) × Maps s.pt n f =
      λ n f m. Maps-unset_entry_inv s.pt v.sized w lt n f (subst (λ t. Maps t n f) out m) in
    record {
      private =
          subst (IsPrivate r.1.pt) (sym e.bitmap)
            (IsPrivate-sub s.pt r.1.pt s.pm.bitmap (λ n f m. (back n f m).1) p);
      unused = λ m q. (back m r.0 q).0 (p.exclusive m w r.0 (back m r.0 q).1 owns);
    }

acquire-Vacant :
    (s : Vmm) → IsValid s → IsPrivate s.pt s.pm.bitmap → FindsOwner s.pt → Yields Vacant (acquire s)
unfolding acquire
acquire-Vacant s v p finds = elim (Option-cases (find_free_frame_number s.pm)) [
  | inr (f, free) ↦
      rw (free, Yields)
        (record {
          private = p;
          unused =
              λ m q. let used = p.covered m f q in let open_ = (find_free-some s.pm f free).1 in cc;
        })
  | inl full ↦
      let (n, lt, valid) = v.taken 0 (find_free-none s.pm 0 full (omega (arith, v.bitmap_sized))) in
      rw (full, Yields)
        (Yields-mono (Evicted s) Vacant (evict s) (Evicted-Vacant s v.mapped p finds)
          (evict-Evicted s n v.mapped lt valid))
]

abbrev After : ℕ × Vmm → Type 0
After r = IsPrivate r.1.pt r.1.pm.bitmap

fault_in-After :
    (s : Vmm) (n : ℕ) (write : Bool)
    → IsValid s
    → n < num_pages
    → IsPrivate s.pt s.pm.bitmap
    → FindsOwner s.pt
    → Yields After (fault_in s n write)
unfolding fault_in
fault_in-After s n write v lt p finds =
    Yields-bind (λ r. Acquired s r × Vacant r) After (acquire s) _
      (Yields-both (Acquired s) Vacant (acquire s) (acquire-Acquired s v)
        (acquire-Vacant s v p finds))
      λ (f, t) h.
        let inside : f < length t.pm.bitmap =
          omega (arith, h.0.frame_in, ap length h.0.bitmap, v.bitmap_sized) in
        let q =
          IsPrivate-set_entry t.pt t.pm.bitmap n f h.0.mapped.sized lt h.0.frame_in inside
            h.1.unused h.1.private in
        let q' = subst (IsPrivate (set_entry t.pt n f)) (sym (bitmap-download t.pm n f)) q in
        elim (Bool-cases write) [
          | inr reading ↦ rw reading q'
          | inl writing ↦ rw writing (
              IsPrivate-sub (set_entry t.pt n f) _ _
                (Maps-set_readonly_inv (set_entry t.pt n f)
                  (set_entry-IsSized t.pt h.0.mapped.sized n f) n lt false)
                q')
        ]

IsPrivate-pages :
    (t u : PageTable) (bits : List Bool) → t.pages ≡ u.pages → IsPrivate t bits → IsPrivate u bits
IsPrivate-pages t u bits e = IsPrivate-sub t u bits (Maps-pages u t (sym e))

tlb_miss-After :
    (s : Vmm) (n : ℕ) (write : Bool)
    → IsValid s
    → n < num_pages
    → IsPrivate s.pt s.pm.bitmap
    → FindsOwner s.pt
    → Yields After (tlb_miss s n write)
unfolding tlb_miss
tlb_miss-After s n write v lt p finds =
    let t = pt_looked_up s n in
    let same = sym (lookup_lem s.pt n).1 in
    let p' = IsPrivate-pages s.pt t.pt s.pm.bitmap same p in
    let finds' : FindsOwner t.pt = λ frame w victim at.
      (Maps-pages s.pt t.pt same w (page s.pt w).frame_number (
        finds frame w (find_victim-pages s.pt t.pt same ∙ victim)
            (find_page-pages s.pt t.pt frame same ∙ at),
        refl,
      )).0 in
    elim (Option-cases (PageTable.lookup s.pt n).0) [
      | inr (f, here) ↦ rw here p'
      | inl gone ↦ rw gone (
          Yields-bind After After (fault_in t n write) _
            (fault_in-After t n write (pt_looked_up-IsValid s n v) lt p' finds') (λ r q. q))
    ]

tlb_hit-After :
    (s : Vmm) (f n : ℕ) (write : Bool)
    → length s.pt.pages ≡ num_pages
    → n < num_pages
    → IsPrivate s.pt s.pm.bitmap
    → Yields After (tlb_hit s f n write)
unfolding tlb_hit
tlb_hit-After s f n write sized lt p = elim (Bool-cases write) [
  | inr reading ↦ rw reading p
  | inl writing ↦
      rw writing (IsPrivate-sub s.pt _ s.pm.bitmap (Maps-set_readonly_inv s.pt sized n lt false) p)
]

-- If the search for the victim's page finds a valid page, `get_frame` lets no two pages share a
-- frame: it keeps the pages' frames distinct, and the free frames without a page.
pub get_frame-IsPrivate :
    (s : Vmm) (n : ℕ) (write : Bool)
    → IsValid s
    → n < num_pages
    → IsPrivate s.pt s.pm.bitmap
    → FindsOwner s.pt
    → Yields (λ r. IsPrivate r.1.pt r.1.pm.bitmap) (get_frame s n write)
unfolding get_frame
get_frame-IsPrivate s n write v lt p finds =
    let t = looked_up s n write in
    let v' = looked_up-IsValid s n write v in
    let (answer, same) = lookup-find_slot s.tlb n write in
    rw (lt→ltb n num_pages lt) (elim (Option-cases (Tlb.lookup s.tlb n write).0) [
      | inl miss ↦
          let fresh =
            subst (All (Live (Not n))) (sym same)
              (find_slot-miss (slots s.tlb) n (sym answer ∙ miss)) in
          rw miss (
            Yields-bind (λ r. Placed n r × After r) After (tlb_miss t n write) _
              (Yields-both (Placed n) After (tlb_miss t n write)
                (tlb_miss-Placed t n write v' lt fresh) (tlb_miss-After t n write v' lt p finds))
              finish)
      | inr (f, hit) ↦
          let maps =
            find_slot-hit (Maps s.pt) (slots s.tlb) n f (sym answer ∙ hit) v.mapped.cached in
          rw hit (
            Yields-bind (λ r. Placed n r × After r) After (tlb_hit t f n write)
              (λ (g, u). some (g, record u { pt = update_counters u.pt n }))
              (Yields-both (Placed n) After (tlb_hit t f n write)
                (tlb_hit-Placed t f n write v' maps)
                (tlb_hit-After t f n write v.mapped.sized lt p))
              finish)
    ])
  where
    finish :
        (r : ℕ × Vmm) → Placed n r × After r → IsPrivate (update_counters r.1.pt n) r.1.pm.bitmap
    finish r (placed, q) =
        IsPrivate-sub r.1.pt _ r.1.pm.bitmap
          (Maps-update_counters_inv r.1.pt placed.mapped.sized n lt) q
