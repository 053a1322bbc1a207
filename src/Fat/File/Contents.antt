-- ===== src/Fat/File/Contents.antt =====
-- What a chain of clusters holds, and that the loop reads it.
use mathlib.Core.Option
use ift.Base.{
  ℕ, zero, suc, ◌+◌, ◌-◌, ◌*◌, ◌≤◌, ◌<◌, min, ◌≡◌, refl, sym, ap, ◌∙◌, true, false, some, List, [],
  ◌∷◌, ◌++◌, arith, leb, if◌then◌else◌, length, take, drop, write_at, length-take, length-drop,
}
use native.Mathlib.Decide.{dec_lt}
use mathlib.Core.List.{append-nil}
use ift.Fat.Block.{Bpb, fread_at, get_cluster_chain_value, get_first_data_sector}
use ift.Fat.Block.Chain.{fread_at-inside}
use ift.Fat.File.{
  FatEntry, ReadFile, bytes_read, next_cluster, cluster_offset, cluster_size, read_loop, read_from,
  read_file, first_cluster,
}
use ift.Fat.File.Slices.{take-nil, take-take, take-append_le, take-append_ge, write_at-append}

module _ (archive : List ℕ) (block : Bpb) (first_data_sector : ℕ) where
  abbrev pub Inside : ℕ → Type 0
  Inside cluster =
      cluster_offset block first_data_sector cluster + cluster_size block ≤ length archive

  abbrev pub cluster_bytes : ℕ → List ℕ
  cluster_bytes cluster =
      take (cluster_size block) (drop (cluster_offset block first_data_sector cluster) archive)

  abbrev pub contents : List ℕ → List ℕ
  contents [] = []
  contents (c ∷ cs) = cluster_bytes c ++ contents cs

  -- The clusters follow one another in the table up to a mark of the end, inside the archive.
  abbrev pub IsChain : ℕ → List ℕ → Type 0
  IsChain c [] =
      Inside c × ((n : ℕ) × (get_cluster_chain_value block c archive ≡ some n) × (0xFFFFFF8 ≤ n))
  IsChain c (d ∷ cs) =
      Inside c × (get_cluster_chain_value block c archive ≡ some d) × (d < 0xFFFFFF8) × IsChain d cs

  take-contents :
      (c : ℕ) (k : ℕ) (rest : List ℕ)
      → Inside c
      → take k (cluster_bytes c ++ rest)
        ≡ take
            (min (cluster_size block) k)
            (drop (cluster_offset block first_data_sector c) archive)
          ++ take (k - min (cluster_size block) k) rest
  take-contents c k rest inside =
      let size = cluster_size block in
      let here = drop (cluster_offset block first_data_sector c) archive in
      let whole : length (take size here) ≡ size = omega (
        arith,
        length-take size here,
        length-drop (cluster_offset block first_data_sector c) archive,
      ) in
      elim (dec_lt k size) [
        | yes p ↦
            let e : min size k ≡ k = omega arith in
            let z : k - k ≡ 0 = omega arith in
            take-append_le k (take size here) rest (omega (arith, whole))
            ∙ take-take k size here (omega arith)
            ∙ sym (append-nil (take k here))
            ∙ ap (λ j. take k here ++ take j rest) (sym z)
            ∙ ap (λ j. take j here ++ take (k - j) rest) (sym e)
        | no p ↦
            let e : min size k ≡ size = omega arith in
            take-append_ge k (take size here) rest (omega (arith, whole))
            ∙ ap (λ j. take size here ++ take (k - j) rest) whole
            ∙ ap (λ j. take j here ++ take (k - j) rest) (sym e)
      ]

  next_cluster-some :
      (torn : ℕ → ℕ) (c d : ℕ)
      → get_cluster_chain_value block c archive ≡ some d
      → next_cluster torn archive block c ≡ d
  unfolding next_cluster
  next_cluster-some torn c d e = ap (λ o. Option.get_or o (torn c)) e

  module _ (torn : ℕ → ℕ) (max_len : ℕ) where
    abbrev loop : ℕ → List ℕ → ℕ → ℕ → ReadFile
    loop = read_loop torn archive block first_data_sector max_len

    read_loop-full :
        (fuel : ℕ) (buff : List ℕ) (n c : ℕ)
        → max_len ≤ n
        → loop (suc fuel) buff n c ≡ bytes_read n buff
    unfolding read_loop
    read_loop-full fuel buff n c h = let t : leb max_len n ≡ true = ground arith in rw t refl

    abbrev after : ℕ → List ℕ → ℕ → ℕ → ReadFile
    after fuel buff n next = if leb 0xFFFFFF8 next then bytes_read n buff else loop fuel buff n next

    read_loop-turn :
        (fuel : ℕ) (buff : List ℕ) (n c : ℕ) (bytes : List ℕ) (next : ℕ)
        → n < max_len
        → fread_at archive
            (cluster_offset block first_data_sector c)
            (min (cluster_size block) (max_len - n))
          ≡ some bytes
        → next_cluster torn archive block c ≡ next
        → loop (suc fuel) buff n c
          ≡ after fuel (write_at buff n bytes) (n + min (cluster_size block) (max_len - n)) next
    unfolding read_loop
    read_loop-turn fuel buff n c bytes next h e f =
        let t : leb max_len n ≡ false = ground arith in rw (t, e, f) refl

    -- One turn inside a chain, that does not find the buffer full.
    read_loop-Inside :
        (fuel : ℕ) (buff : List ℕ) (n c d : ℕ)
        → 0 < cluster_size block
        → n < max_len
        → Inside c
        → get_cluster_chain_value block c archive ≡ some d
        → loop (suc fuel) buff n c
          ≡ after fuel
              (write_at buff n (
                take
                  (min (cluster_size block) (max_len - n))
                  (drop (cluster_offset block first_data_sector c) archive)))
              (n + min (cluster_size block) (max_len - n))
              d
    read_loop-Inside fuel buff n c d size h inside e =
        read_loop-turn fuel buff n c _ d h
          (fread_at-inside archive (cluster_offset block first_data_sector c)
            (min (cluster_size block) (max_len - n)) (omega arith) (omega arith))
          (next_cluster-some torn c d e)

    -- what has been read of the chain `c ∷ cs` when the loop ends
    abbrev Reads : ℕ → List ℕ → ℕ → ℕ → List ℕ → Type 0
    Reads fuel buff n c cs =
        loop fuel buff n c
        ≡ bytes_read (n + min (max_len - n) (length (c ∷ cs) * cluster_size block))
            (write_at buff n (take (max_len - n) (contents (c ∷ cs))))

    read_loop-full_Reads :
        (fuel : ℕ) (buff : List ℕ) (n c : ℕ) (cs : List ℕ)
        → n ≡ max_len
        → Reads (suc fuel) buff n c cs
    read_loop-full_Reads fuel buff n c cs e =
        let z : max_len - n ≡ 0 = omega arith in
        let m : n ≡ n + min 0 (length (c ∷ cs) * cluster_size block) = omega arith in
        read_loop-full fuel buff n c (omega arith)
        ∙ ap (λ k. bytes_read k buff) m
        ∙ ap
            (λ k.
              bytes_read (n + min k (length (c ∷ cs) * cluster_size block))
                (write_at buff n (take k (contents (c ∷ cs)))))
            (sym z)

    read_loop-Reads :
        (fuel : ℕ) (buff : List ℕ) (n c : ℕ) (cs : List ℕ)
        → 0 < cluster_size block
        → n ≤ max_len
        → max_len < n + fuel
        → IsChain c cs
        → Reads fuel buff n c cs
    -- the number of bytes of the turn
    read_loop-Reads zero buff n c cs size le enough chain = absurd (omega arith)
    read_loop-Reads (suc fuel) buff n c [] size le enough chain = elim (dec_lt n max_len) [
      | no p ↦ read_loop-full_Reads fuel buff n c [] (omega arith)
      | yes p ↦
          let (inside, (d, e, eoc)) = chain in
          let t : leb 0xFFFFFF8 d ≡ true = ground arith in
          let got =
            take (min (cluster_size block) (max_len - n))
              (drop (cluster_offset block first_data_sector c) archive) in
          let k : n + min (max_len - n) (1 * cluster_size block)
              ≡ n + (min (cluster_size block) (max_len - n)) =
            omega arith in
          let read : take (max_len - n) (contents (c ∷ [])) ≡ got =
            take-contents c (max_len - n) [] inside
            ∙ ap (λ l. got ++ l) (take-nil (max_len - n - (min (cluster_size block) (max_len - n))))
            ∙ append-nil got in
          read_loop-Inside fuel buff n c d size p inside e
          ∙ ap
              (λ b.
                if b
                then bytes_read (n + (min (cluster_size block) (max_len - n))) (write_at buff n got)
                else loop fuel (write_at buff n got) (n + (min (cluster_size block) (max_len - n)))
                    d)
              t
          ∙ ap (λ l. bytes_read (n + (min (cluster_size block) (max_len - n))) (write_at buff n l))
              (sym read)
          ∙ ap (λ j. bytes_read j (write_at buff n (take (max_len - n) (contents (c ∷ [])))))
              (sym k)
    ]
    read_loop-Reads (suc fuel) buff n c (d ∷ cs) size le enough chain = elim (dec_lt n max_len) [
      | no p ↦ read_loop-full_Reads fuel buff n c (d ∷ cs) (omega arith)
      | yes p ↦
          let (inside, e, more, chain') = chain in
          let t : leb 0xFFFFFF8 d ≡ false = ground arith in
          let got =
            take (min (cluster_size block) (max_len - n))
              (drop (cluster_offset block first_data_sector c) archive) in
          let length_got : length got ≡ (min (cluster_size block) (max_len - n)) = omega (
            arith,
            length-take (min (cluster_size block) (max_len - n))
                (drop (cluster_offset block first_data_sector c) archive),
            length-drop (cluster_offset block first_data_sector c) archive,
          ) in
          let k : n
                + (min (cluster_size block) (max_len - n))
                + min (max_len - (n + (min (cluster_size block) (max_len - n))))
                    (length (d ∷ cs) * cluster_size block)
              ≡ n + min (max_len - n) (length (c ∷ d ∷ cs) * cluster_size block) =
            omega arith in
          let total = n + min (max_len - n) (length (c ∷ d ∷ cs) * cluster_size block) in
          let left : max_len - (n + (min (cluster_size block) (max_len - n)))
              ≡ max_len - n - (min (cluster_size block) (max_len - n)) =
            omega arith in
          read_loop-Inside fuel buff n c d size p inside e
          ∙ ap
              (λ b.
                if b
                then bytes_read (n + (min (cluster_size block) (max_len - n))) (write_at buff n got)
                else loop fuel (write_at buff n got) (n + (min (cluster_size block) (max_len - n)))
                    d)
              t
          ∙ read_loop-Reads fuel (write_at buff n got)
              (n + (min (cluster_size block) (max_len - n))) d cs size (omega arith) (omega arith)
              chain'
          ∙ ap
              (λ j. bytes_read j (
                write_at (write_at buff n got) (n + (min (cluster_size block) (max_len - n))) (
                  take (max_len - (n + (min (cluster_size block) (max_len - n))))
                    (contents (d ∷ cs)))))
              k
          ∙ ap (bytes_read total) (
              ap
                (λ j. write_at (write_at buff n got) (n + j) (
                  take (max_len - (n + (min (cluster_size block) (max_len - n))))
                    (contents (d ∷ cs))))
                (sym length_got)
              ∙ write_at-append buff n got _
              ∙ ap (λ j. write_at buff n (got ++ take j (contents (d ∷ cs)))) left
              ∙ ap (write_at buff n)
                  (sym (take-contents c (max_len - n) (contents (d ∷ cs)) inside)))
    ]

-- For an entry whose clusters follow one another inside the archive up to a mark of the end, and
-- clusters that are not empty, `read_file` writes the bytes of the clusters in order at the front of
-- the buffer, as far as `max_len` goes, and returns their number.
pub read_file-contents :
    (torn : ℕ → ℕ) (archive : List ℕ) (block : Bpb) (entry : FatEntry) (buff : List ℕ)
    (max_len first_data_sector : ℕ) (cs : List ℕ)
    → get_first_data_sector block ≡ some first_data_sector
    → 0 < cluster_size block
    → IsChain archive block first_data_sector (first_cluster entry) cs
    → read_file torn archive block entry buff max_len
      ≡ bytes_read (min max_len (suc (length cs) * cluster_size block)) (
          write_at buff 0
            (take max_len (contents archive block first_data_sector (first_cluster entry ∷ cs))))
unfolding read_file read_from
read_file-contents torn archive block entry buff max_len first_data_sector cs e size chain =
    let c = first_cluster entry in
    let z : max_len - 0 ≡ max_len = omega arith in
    let w : 0 + min max_len (suc (length cs) * cluster_size block)
        ≡ min max_len (suc (length cs) * cluster_size block) =
      omega arith in
    ap (read_from torn archive block entry buff max_len) e
    ∙ read_loop-Reads archive block first_data_sector torn max_len (suc max_len) buff 0 c cs size
        (omega arith) (omega arith) chain
    ∙ ap
        (λ k.
          bytes_read (0 + min k (suc (length cs) * cluster_size block))
            (write_at buff 0 (take k (contents archive block first_data_sector (c ∷ cs)))))
        z
    ∙ ap
        (λ k.
          bytes_read k
            (write_at buff 0 (take max_len (contents archive block first_data_sector (c ∷ cs)))))
        w
