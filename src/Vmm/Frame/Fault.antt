-- ===== src/Vmm/Frame/Fault.antt =====
-- The branches of `get_frame` for a page that is not in memory: a frame is found or given up.
use ift.Base.{
  ℕ, ◌<◌, ◌≡◌, inl, inr, refl, sym, ◌∙◌, subst, ap, Bool, true, false, some, arith, length, get_or,
  set, All, Option-cases, Bool-cases, Yields, Yields-bind, Yields-mono,
}
use ift.Vmm.Conf.{num_frames, num_pages, physical_memory_size}
use ift.Vmm.Memory.{find_free_frame_number}
use ift.Vmm.Memory.Laws.{
  find_free-some, find_free-none, bitmap-backup, bitmap-download, memory-backup, length-download,
}
use ift.Vmm.PageTable.{page, readonly_p, unset_entry, find_page, find_victim_frame_number}
use ift.Vmm.PageTable.Laws.{Maps, find_page-none}
use ift.Vmm.PageTable.Victim.{find_victim_frame_number-IsVictim}
use ift.Vmm.Tlb.{remove_page_from_tlb}
use ift.Vmm.Tlb.Slots.{slots, Live, Not, free_slot, remove-free_slot, free_slot-All}
use ift.Vmm.Frame.Mapped.{
  IsMapped, Owner, unset_entry-IsMapped, set_entry-IsMapped, set_readonly-IsMapped,
  Maps-set_entry_self, Maps-set_readonly,
}
use ift.Vmm.Frame.{Vmm, unmap, evict, acquire, fault_in}

-- A taken frame shows that some page is valid, so that a victim can be found.
pub record IsValid (s : Vmm) : Type 0 where
  pub mapped : IsMapped s.pt (slots s.tlb)
  pub bitmap_sized : length s.pm.bitmap ≡ num_frames
  pub memory_sized : length s.pm.memory ≡ physical_memory_size
  pub taken :
      (f : ℕ)
      → get_or s.pm.bitmap f false ≡ true
      → (n : ℕ) × (n < num_pages) × ((page s.pt n).valid ≡ true)

-- Giving up a frame.
pub record Evicted (s : Vmm) (r : ℕ × Vmm) : Type 0 where
  pub frame_in : r.0 < num_frames
  pub victim : find_victim_frame_number s.pt ≡ some r.0
  pub owner : (w : ℕ) × Owner s.pt (slots s.tlb) r.0 w × (r.1.pt ≡ unset_entry s.pt w)
  pub mapped : IsMapped r.1.pt (slots r.1.tlb)
  pub kept : slots r.1.tlb ≡ (free_slot (slots s.tlb) r.0).1
  pub bitmap : r.1.pm.bitmap ≡ s.pm.bitmap
  pub memory : length r.1.pm.memory ≡ length s.pm.memory

unmap-Evicted :
    (s : Vmm) (frame w : ℕ)
    → IsMapped s.pt (slots s.tlb)
    → frame < num_frames
    → find_victim_frame_number s.pt ≡ some frame
    → Owner s.pt (slots s.tlb) frame w
    → Evicted s (frame, unmap (record s { tlb = (remove_page_from_tlb s.tlb frame).1 }) frame w)
unfolding unmap
unmap-Evicted s frame w v lt found o =
    let kept = (remove-free_slot s.tlb frame).1 in
    record {
      frame_in = lt;
      victim = found;
      owner = (w, o, refl);
      mapped =
          subst (λ ss. IsMapped (unset_entry s.pt w) ss) (sym kept)
            (unset_entry-IsMapped s.pt (slots s.tlb) v frame w o);
      kept = kept;
      bitmap = elim (Bool-cases (readonly_p s.pt w)) [
        | inl clean ↦ rw clean
        | inr dirty ↦ rw dirty (bitmap-backup s.pm frame w)
      ];
      memory = elim (Bool-cases (readonly_p s.pt w)) [
        | inl clean ↦ rw clean
        | inr dirty ↦ rw dirty (ap length (memory-backup s.pm frame w))
      ];
    }

pub evict-Evicted :
    (s : Vmm) (n : ℕ)
    → IsMapped s.pt (slots s.tlb)
    → n < num_pages
    → (page s.pt n).valid ≡ true
    → Yields (Evicted s) (evict s)
unfolding evict
evict-Evicted s n v lt valid =
    let (k, found, victim) =
      find_victim_frame_number-IsVictim s.pt n (omega (arith, v.sized)) valid in
    let frame = (page s.pt k).frame_number in
    let lt = v.framed k frame (victim.valid, refl) in
    let answer = (remove-free_slot s.tlb frame).0 in
    rw found (elim (Option-cases (remove_page_from_tlb s.tlb frame).0) [
      | inr (w, present) ↦
          rw present (unmap-Evicted s frame w v lt found (inl (sym answer ∙ present)))
      | inl absent ↦ rw absent (elim (Option-cases (find_page s.pt frame)) [
        | inl lost ↦ absurd (find_page-none s.pt frame k lost victim.inside refl)
        | inr (w, at) ↦ rw at (unmap-Evicted s frame w v lt found (inr (sym answer ∙ absent, at)))
      ])
    ])

-- Finding a frame: free, or given up.
pub record Acquired (s : Vmm) (r : ℕ × Vmm) : Type 0 where
  pub frame_in : r.0 < num_frames
  pub mapped : IsMapped r.1.pt (slots r.1.tlb)
  pub fresh : (n : ℕ) → All (Live (Not n)) (slots s.tlb) → All (Live (Not n)) (slots r.1.tlb)
  pub bitmap : r.1.pm.bitmap ≡ s.pm.bitmap
  pub memory : length r.1.pm.memory ≡ length s.pm.memory

Evicted-Acquired : (s : Vmm) (r : ℕ × Vmm) → Evicted s r → Acquired s r
Evicted-Acquired s r h = record {
  frame_in = h.frame_in;
  mapped = h.mapped;
  fresh =
      λ n a. subst (All (Live (Not n))) (sym h.kept) (free_slot-All (Not n) (slots s.tlb) r.0 a);
  bitmap = h.bitmap;
  memory = h.memory;
}

pub acquire-Acquired : (s : Vmm) → IsValid s → Yields (Acquired s) (acquire s)
unfolding acquire
acquire-Acquired s v = elim (Option-cases (find_free_frame_number s.pm)) [
  | inr (f, free) ↦
      rw (free, Yields)
        (record {
          frame_in = omega (arith, v.bitmap_sized, (find_free-some s.pm f free).0);
          mapped = v.mapped;
          fresh = λ n a. a;
          bitmap = refl;
          memory = refl;
        })
  | inl full ↦
      let (n, lt, valid) = v.taken 0 (find_free-none s.pm 0 full (omega (arith, v.bitmap_sized))) in
      rw (full, Yields)
        (Yields-mono (Evicted s) (Acquired s) (evict s) (Evicted-Acquired s)
          (evict-Evicted s n v.mapped lt valid))
]

-- Bringing page `n` in.
pub record FaultedIn (s : Vmm) (n : ℕ) (r : ℕ × Vmm) : Type 0 where
  pub frame_in : r.0 < num_frames
  pub mapped : IsMapped r.1.pt (slots r.1.tlb)
  pub fresh : All (Live (Not n)) (slots r.1.tlb)
  pub bitmap : r.1.pm.bitmap ≡ set s.pm.bitmap r.0 true
  pub memory : length r.1.pm.memory ≡ length s.pm.memory
  pub maps : Maps r.1.pt n r.0

pub fault_in-FaultedIn :
    (s : Vmm) (n : ℕ) (write : Bool)
    → IsValid s
    → n < num_pages
    → All (Live (Not n)) (slots s.tlb)
    → Yields (FaultedIn s n) (fault_in s n write)
unfolding fault_in
fault_in-FaultedIn s n write v lt fresh =
    Yields-bind (Acquired s) (FaultedIn s n) (acquire s) _ (acquire-Acquired s v) λ (f, t) a.
      let gone = a.fresh n fresh in
      let mapped = set_entry-IsMapped t.pt (slots t.tlb) a.mapped n lt f a.frame_in gone in
      let maps = Maps-set_entry_self t.pt a.mapped.sized n lt f a.frame_in in
      let bitmap = bitmap-download t.pm n f ∙ ap (λ b. set b f true) a.bitmap in
      let memory = length-download t.pm n f ∙ a.memory in
      elim (Bool-cases write) [
        | inr reading ↦ rw reading (record {
          frame_in = a.frame_in;
          mapped = mapped;
          fresh = gone;
          bitmap = bitmap;
          memory = memory;
          maps = maps;
        })
        | inl writing ↦ rw writing (record {
          frame_in = a.frame_in;
          mapped = set_readonly-IsMapped _ (slots t.tlb) mapped n lt false;
          fresh = gone;
          bitmap = bitmap;
          memory = memory;
          maps = Maps-set_readonly _ mapped.sized n lt false n f maps;
        })
      ]
