-- ===== src/Vmm/Frame/Shared.antt =====
-- What happens when the search for the victim's page stops at a page that is not valid.
use ift.Base.{
  ℕ, ◌<◌, ◌≡◌, ◌≢◌, inl, inr, sym, ◌∙◌, subst, ap, Bool, true, false, none, some, arith, get_or,
  All, Bool-cases, Yields, Yields-bind, Yields-both, lt→ltb,
}
use ift.Vmm.Conf.{num_pages}
use ift.Vmm.Memory.{find_free_frame_number}
use ift.Vmm.Memory.Laws.{find_free-none}
use ift.Vmm.PageTable
use ift.Vmm.PageTable.{
  PageTable, page, set_entry, unset_entry, set_readonly, update_counters, find_page,
  find_victim_frame_number,
}
use ift.Vmm.PageTable.Laws.{Maps, lookup_lem, set_entry-IsSized, find_page-pages, find_page-some}
use ift.Vmm.PageTable.Victim.{find_victim_frame_number-IsVictim, find_victim-pages}
use ift.Vmm.Tlb
use ift.Vmm.Tlb.{remove_page_from_tlb}
use ift.Vmm.Tlb.Slots.{
  slots, Live, Not, free_slot, lookup-find_slot, find_slot-miss, remove-free_slot,
}
use ift.Vmm.Frame.Mapped.{
  Maps-pages, IsMapped, Maps-set_entry_ne, Maps-unset_entry, Maps-set_readonly,
  Maps-update_counters,
}
use ift.Vmm.Frame.Fault.{IsValid, Evicted, evict-Evicted}
use ift.Vmm.Frame.Translate.{
  Placed, tlb_miss-Placed, looked_up, looked_up-IsValid, pt_looked_up, pt_looked_up-IsValid,
}
use ift.Vmm.Frame.{Vmm, evict, acquire, fault_in, tlb_miss, get_frame}

-- Memory is full, the TLB does not know the victim's frame, and the first entry of the page table
-- that names the frame is page `w`, which is not valid.
pub record FindsStale (s : Vmm) (w frame : ℕ) : Type 0 where
  pub full : find_free_frame_number s.pm ≡ none
  pub victim : find_victim_frame_number s.pt ≡ some frame
  pub uncached : (remove_page_from_tlb s.tlb frame).0 ≡ none
  pub found : find_page s.pt frame ≡ some w
  pub stale : (page s.pt w).valid ≡ false

acquire_full : (s : Vmm) → find_free_frame_number s.pm ≡ none → acquire s ≡ evict s
unfolding acquire
acquire_full s h = rw (h, acquire)

module _ (k frame : ℕ) where
  abbrev Keeps : ℕ × Vmm → Type 0
  Keeps r = (r.0 ≡ frame) × Maps r.1.pt k frame

  Evicted-Keeps :
      (s : Vmm) (w : ℕ)
      → IsMapped s.pt (slots s.tlb)
      → FindsStale s w frame
      → Maps s.pt k frame
      → (r : ℕ × Vmm) → Evicted s r
      → Keeps r
  Evicted-Keeps s w v f maps r e =
      let at : r.0 ≡ frame = cc (e.victim, f.victim) in
      let (w', o, out) = e.owner in
      let absent : (free_slot (slots s.tlb) frame).0 ≡ none =
        sym (remove-free_slot s.tlb frame).0 ∙ f.uncached in
      elim o [
        | inl cached ↦
            absurd (let c = subst (λ g. (free_slot (slots s.tlb) g).0 ≡ some w') at cached in cc)
        | inr found ↦
            let same : w' ≡ w =
              let g = subst (λ g. find_page s.pt g ≡ some w') at found.1 in cc (f.found) in
            let other : k ≢ w' = λ q.
              let live : (page s.pt w).valid ≡ true =
                subst (λ j. (page s.pt j).valid ≡ true) (q ∙ same) maps.0 in
              let dead = f.stale in cc in
            (
              at,
              subst (λ t. Maps t k frame) (sym out)
                  (Maps-unset_entry s.pt v.sized w'
                    (omega (arith, v.sized, (find_page-some s.pt r.0 w' found.1).0)) k frame other
                    maps),
            )
      ]

  fault_in-Keeps :
      (s : Vmm) (n w : ℕ) (write : Bool)
      → IsValid s
      → n < num_pages
      → k ≢ n
      → FindsStale s w frame
      → Maps s.pt k frame
      → Yields Keeps (fault_in s n write)
  unfolding fault_in
  fault_in-Keeps s n w write v lt ne f maps =
      let (m, in_m, live) =
        v.taken 0 (find_free-none s.pm 0 f.full (omega (arith, v.bitmap_sized))) in
      rw (acquire_full s f.full) (
        Yields-bind (Evicted s) Keeps (evict s) _ (evict-Evicted s m v.mapped in_m live) λ (g, t) e.
          let keep = Evicted-Keeps s w v.mapped f maps (g, t) e in
          let kept = Maps-set_entry_ne t.pt e.mapped.sized n lt g k frame ne keep.1 in
          elim (Bool-cases write) [
            | inr reading ↦ rw reading (keep.0, kept)
            | inl writing ↦ rw writing (
              keep.0,
              Maps-set_readonly (set_entry t.pt n g) (set_entry-IsSized t.pt e.mapped.sized n g) n
                  lt false k frame kept,
            )
          ])

  tlb_miss-Keeps :
      (s : Vmm) (n w : ℕ) (write : Bool)
      → IsValid s
      → n < num_pages
      → (page s.pt n).valid ≡ false
      → FindsStale s w frame
      → Maps s.pt k frame
      → Yields Keeps (tlb_miss s n write)
  unfolding tlb_miss
  tlb_miss-Keeps s n w write v lt gone f maps =
      let t = pt_looked_up s n in
      let same = sym (lookup_lem s.pt n).1 in
      let absent : (PageTable.lookup s.pt n).0 ≡ none = (lookup_lem s.pt n).0 ∙ rw gone in
      let ne : k ≢ n = λ q.
        let live : (page s.pt n).valid ≡ true = subst (λ j. (page s.pt j).valid ≡ true) q maps.0 in
        cc in
      let f' : FindsStale t w frame = record {
        full = f.full;
        victim = sym (find_victim-pages s.pt t.pt same) ∙ f.victim;
        uncached = f.uncached;
        found = sym (find_page-pages s.pt t.pt frame same) ∙ f.found;
        stale = subst (λ es. (get_or es w PageTable.blank).valid ≡ false) same f.stale;
      } in
      rw absent (
        Yields-bind Keeps Keeps (fault_in t n write) _
          (fault_in-Keeps t n w write (pt_looked_up-IsValid s n v) lt ne f'
            (Maps-pages s.pt t.pt same k frame maps))
          (λ r q. q))

-- Two pages of one frame.
pub record IsShared (n : ℕ) (r : ℕ × Vmm) : Type 0 where
  pub other : ℕ
  pub distinct : other ≢ n
  pub first : Maps r.1.pt other r.0
  pub second : Maps r.1.pt n r.0

-- A page fault for page `n` with a stale entry in the way: the victim's page stays valid beside `n`
-- and both name the returned frame.
pub get_frame-IsShared :
    (s : Vmm) (n w frame : ℕ) (write : Bool)
    → IsValid s
    → n < num_pages
    → (Tlb.lookup s.tlb n write).0 ≡ none
    → (page s.pt n).valid ≡ false
    → FindsStale s w frame
    → Yields (IsShared n) (get_frame s n write)
unfolding get_frame
get_frame-IsShared s n w frame write v lt miss gone f =
    let t = looked_up s n write in
    let v' = looked_up-IsValid s n write v in
    let (answer, same) = lookup-find_slot s.tlb n write in
    let fresh =
      subst (All (Live (Not n))) (sym same) (find_slot-miss (slots s.tlb) n (sym answer ∙ miss)) in
    let (m, in_m, live) =
      v.taken 0 (find_free-none s.pm 0 f.full (omega (arith, v.bitmap_sized))) in
    let (k, found, victim) =
      find_victim_frame_number-IsVictim s.pt m (omega (arith, v.mapped.sized)) live in
    let maps : Maps s.pt k frame = (victim.valid, cc (found, f.victim)) in
    let ne : k ≢ n = λ q.
      let alive : (page s.pt n).valid ≡ true = subst (λ j. (page s.pt j).valid ≡ true) q maps.0 in
      cc in
    let f' : FindsStale t w frame = record {
      full = f.full;
      victim = f.victim;
      uncached =
          (remove-free_slot t.tlb frame).0
          ∙ ap (λ ss. (free_slot ss frame).0) same
          ∙ sym (remove-free_slot s.tlb frame).0
          ∙ f.uncached;
      found = f.found;
      stale = f.stale;
    } in
    rw (lt→ltb n num_pages lt, miss)
      (Yields-bind (λ r. Placed n r × Keeps k frame r) (IsShared n) (tlb_miss t n write) _
        (Yields-both (Placed n) (Keeps k frame) (tlb_miss t n write)
          (tlb_miss-Placed t n write v' lt fresh)
          (tlb_miss-Keeps k frame t n w write v' lt gone f' maps))
        λ (g, u) (placed, keeps). record {
          other = k;
          distinct = ne;
          first =
              Maps-update_counters u.pt placed.mapped.sized n lt k g
                (subst (Maps u.pt k) (sym keeps.0) keeps.1);
          second = Maps-update_counters u.pt placed.mapped.sized n lt n g placed.maps;
        })
