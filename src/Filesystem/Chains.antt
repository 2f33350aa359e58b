-- ===== src/Filesystem/Chains.antt =====
-- The reading of a file over the chain of its clusters.
use sector_os.Base.{
  ℕ, zero, suc, ◌+◌, ◌-◌, ◌*◌, ◌/◌, ◌%◌, ◌≡◌, ◌≢◌, ◌<◌, ◌≤◌, refl, sym, ap, ◌∙◌, Bool, false, none,
  some, List, [], ◌∷◌, ◌++◌, min, arith, u32, sub32, lt→ltb, ne→==, eq→==, ℕ_discrete,
}
use mathlib.Core.List.{append_assoc}
use sector_os.Drivers.Disk.Sectors.{IsDrive}
use sector_os.Filesystem.{
  read_sector, Files, say, BiosParameterBlock32, cluster_sector, Disk, is_init, read_cluster,
  next_cluster, read_file, read32,
}
use sector_os.Filesystem.Clusters.{
  reads, reads-append, run_of, sectors_of, load_ends, shown, cluster_step, read_cluster_reads,
}

run_of-last :
    (sector offset n : ℕ)
    → run_of sector offset (suc n) ≡ run_of sector offset n ++ u32 (sector + (offset + n)) ∷ []
run_of-last sector offset zero = ap (λ (o : ℕ). u32 (sector + o) ∷ []) (omega arith)
run_of-last sector offset (suc n) =
    let same : offset + 1 + n ≡ offset + suc n = omega arith in
    ap (λ (ss : List ℕ). u32 (sector + offset) ∷ ss)
      (run_of-last sector (offset + 1) n ∙ rw same refl)

neighbour :
    (start spc cluster : ℕ)
    → 2 ≤ cluster
    → cluster < 0x10000000
    → u32 (cluster_sector start spc cluster + spc) ≡ cluster_sector start spc (cluster + 1)
unfolding cluster_sector
neighbour start spc cluster low high =
    let before : sub32 cluster 2 ≡ cluster - 2 = omega arith in
    let behind : sub32 (cluster + 1) 2 ≡ suc (cluster - 2) = omega arith in
    let product : spc * suc (cluster - 2) ≡ spc * (cluster - 2) + spc = grind arith in
    rw (before, behind) (omega arith)

module _ (hd : Disk) (image : Bool → ℕ → ℕ → ℕ) (w : IsDrive hd.drive hd.wait image)
    (bpb : BiosParameterBlock32) (dirent : ℕ → ℕ) (i : ℕ)
    (ordinary : is_init dirent i ≡ false) where
  pub next_ends :
      (fat_sector cluster : ℕ) (fat : ℕ → ℕ)
      → (next : ℕ) × (fat' : ℕ → ℕ) × (next_cluster hd bpb dirent i fat_sector cluster fat
          ≡ some (next, fat'))
  unfolding next_cluster
  next_ends fat_sector cluster fat =
      let (b, done) = load_ends hd image w fat_sector fat in
      (read32 b (cluster % 128 * 4) % 0x10000000, b, rw done refl)

  -- One round of the `while` loop.
  file_round :
      (fuel fat_start start cluster size : ℕ) (buffer fat : ℕ → ℕ) (s : Files)
      → size ≢ 0
      → bpb.sectors_per_cluster < fuel
      → s.halted ≡ false
      → (next : ℕ) × (b : ℕ → ℕ) × (fat' : ℕ → ℕ) × (s' : Files) × (read_file hd bpb dirent i
            (suc fuel)
            fat_start
            start
            cluster
            size
            buffer
            fat
            s
          ≡ read_file hd bpb dirent i fuel fat_start start next
              (size - 512 * bpb.sectors_per_cluster)
              b
              fat'
              s')
        × (s'.halted ≡ false)
        × (reads s'.events
            ≡ reads s.events
              ++ (run_of
                    (cluster_sector start bpb.sectors_per_cluster cluster)
                    0
                    (min (sectors_of size) (suc bpb.sectors_per_cluster))
                  ++ u32 (fat_start + cluster / 128) ∷ []))
  unfolding read_file say
  file_round fuel fat_start start cluster size buffer fat s some_left enough on =
      let file_sector = cluster_sector start bpb.sectors_per_cluster cluster in
      let (b, s', done, on', read) =
        read_cluster_reads hd image w bpb dirent i ordinary bpb.sectors_per_cluster (suc fuel)
          file_sector 0 size buffer s (omega arith) (omega arith) on in
      let (next, fat', found) = next_ends (u32 (fat_start + cluster / 128)) cluster fat in
      (
        next,
        b,
        fat',
        say (read_sector (u32 (fat_start + cluster / 128)) ∷ []) s',
        rw (ne→== size 0 some_left, done, found, on') refl,
        on',
        reads-append s'.events _ ∙ rw read (append_assoc (reads s.events) _ _),
      )

  -- On a drive that settles without an error, a file that is not empty, is not that of the initial program
  -- and fits into its first cluster is read in one round, with two rounds of fuel more than the cluster has
  -- sectors: the sectors of its size, one after the other from the beginning of the cluster, and then
  -- the sector of the table with the cluster's entry.
  read_file_fits :
      (fuel fat_start start cluster size : ℕ) (buffer fat : ℕ → ℕ) (s : Files)
      → size ≢ 0
      → size ≤ 512 * bpb.sectors_per_cluster
      → bpb.sectors_per_cluster + 1 < fuel
      → s.halted ≡ false
      → (s' : Files) × (read_file hd bpb dirent i fuel fat_start start cluster size buffer fat s
          ≡ some s')
        × (reads s'.events
            ≡ reads s.events
              ++ (run_of (cluster_sector start bpb.sectors_per_cluster cluster) 0 (sectors_of size)
                  ++ u32 (fat_start + cluster / 128) ∷ []))
  unfolding read_file
  read_file_fits zero fat_start start cluster size buffer fat s some_left fits enough on =
      absurd (omega arith)
  read_file_fits (suc zero) fat_start start cluster size buffer fat s some_left fits enough on =
      absurd (omega arith)
  read_file_fits (suc (suc fuel)) fat_start start cluster size buffer fat s some_left fits enough
        on =
      let (next, b, fat', s', done, on', read) =
        file_round (suc fuel) fat_start start cluster size buffer fat s some_left (omega arith)
          on in
      let nothing : size - 512 * bpb.sectors_per_cluster ≡ 0 = omega arith in
      let all : min (sectors_of size) (suc bpb.sectors_per_cluster) ≡ sectors_of size =
        omega arith in
      (s', done ∙ rw nothing refl, rw (sym all) read)

  -- On a drive that settles without an error, with a sector per cluster at least, the reading of a file
  -- that is not that of the initial program ends, with more fuel than its bytes, the sectors of a
  -- cluster and one.
  pub read_file_ends :
      (fuel fat_start start cluster size : ℕ) (buffer fat : ℕ → ℕ) (s : Files)
      → 0 < bpb.sectors_per_cluster
      → bpb.sectors_per_cluster + 1 + size < fuel
      → s.halted ≡ false
      → (s' : Files) × (read_file hd bpb dirent i fuel fat_start start cluster size buffer fat s
          ≡ some s')
        × (s'.halted ≡ false)
  unfolding read_file
  read_file_ends zero fat_start start cluster size buffer fat s some_sectors enough on =
      absurd (omega arith)
  read_file_ends (suc fuel) fat_start start cluster size buffer fat s some_sectors enough on =
      elim (ℕ_discrete size 0) [
        | yes empty ↦ (s, rw (eq→== size 0 empty) refl, on)
        | no some_left ↦
            let (next, b, fat', s', done, on', read) =
              file_round fuel fat_start start cluster size buffer fat s some_left (omega arith)
                on in
            let (s2, ends, on2) =
              read_file_ends fuel fat_start start next (size - 512 * bpb.sectors_per_cluster) b fat'
                s' some_sectors (omega arith) on' in
            (s2, done ∙ ends, on2)
      ]

  -- On a drive that settles without an error, with no sectors per cluster, the reading of a file that is not empty never ends.
  read_file_diverges :
      (fuel fat_start start cluster size : ℕ) (buffer fat : ℕ → ℕ) (s : Files)
      → size ≢ 0
      → bpb.sectors_per_cluster ≡ 0
      → s.halted ≡ false
      → read_file hd bpb dirent i fuel fat_start start cluster size buffer fat s ≡ none
  unfolding read_file
  read_file_diverges zero fat_start start cluster size buffer fat s some_left empty on = refl
  read_file_diverges (suc zero) fat_start start cluster size buffer fat s some_left empty on =
      let file_sector = cluster_sector start bpb.sectors_per_cluster cluster in
      let (b, s', done, on', read) =
        shown hd image w bpb dirent i ordinary (u32 (file_sector + 0)) size buffer s on in
      let step =
        cluster_step hd image w bpb dirent i ordinary 0 file_sector 0 size buffer s b s' some_left
          done on' in
      let last = lt→ltb bpb.sectors_per_cluster (0 + 1) (omega arith) in
      let (next, fat', found) = next_ends (u32 (fat_start + cluster / 128)) cluster fat in
      rw (ne→== size 0 some_left, step, last, on', found) refl
  read_file_diverges (suc (suc fuel)) fat_start start cluster size buffer fat s some_left empty on =
      let (next, b, fat', s', done, on', read) =
        file_round (suc fuel) fat_start start cluster size buffer fat s some_left (omega arith)
          on in
      let same : size - 512 * bpb.sectors_per_cluster ≡ size = omega arith in
      done
      ∙ rw same
          (read_file_diverges (suc fuel) fat_start start next size b fat' s' some_left empty on')

  -- On a drive that settles without an error, of a file that is not that of the initial program and is
  -- longer than its cluster, numbered from 2 on in 28 bits, the sectors of the cluster are read and then the
  -- first one of the neighbouring cluster, whichever is the file's next one; the bytes of the
  -- cluster are taken from its size. Two rounds of fuel more than the sectors are enough.
  pub read_cluster_overruns :
      (fuel start cluster size : ℕ) (buffer : ℕ → ℕ) (s : Files)
      → 512 * bpb.sectors_per_cluster < size
      → (2 ≤ cluster) × (cluster < 0x10000000)
      → bpb.sectors_per_cluster + 1 < fuel
      → s.halted ≡ false
      → (b : ℕ → ℕ) × (s' : Files) × (read_cluster hd bpb dirent i fuel
            (cluster_sector start bpb.sectors_per_cluster cluster)
            0
            size
            buffer
            s
          ≡ some (size - 512 * bpb.sectors_per_cluster, b, s'))
        × (reads s'.events
            ≡ reads s.events
              ++ (run_of
                    (cluster_sector start bpb.sectors_per_cluster cluster)
                    0
                    bpb.sectors_per_cluster
                  ++ cluster_sector start bpb.sectors_per_cluster (cluster + 1) ∷ []))
  read_cluster_overruns fuel start cluster size buffer s big known enough on =
      let file_sector = cluster_sector start bpb.sectors_per_cluster cluster in
      let (b, s', done, on', read) =
        read_cluster_reads hd image w bpb dirent i ordinary bpb.sectors_per_cluster fuel file_sector
          0 size buffer s (omega arith) (omega arith) on in
      let rounds : min (sectors_of size) (suc bpb.sectors_per_cluster)
          ≡ suc bpb.sectors_per_cluster =
        omega arith in
      let from_start : 0 + bpb.sectors_per_cluster ≡ bpb.sectors_per_cluster = omega arith in
      (
        b,
        s',
        done,
        read
            ∙ rw (rounds, run_of-last file_sector 0 bpb.sectors_per_cluster, from_start)
                (ap
                  (λ (n : ℕ).
                    reads s.events ++ (run_of file_sector 0 bpb.sectors_per_cluster ++ n ∷ []))
                  (neighbour start bpb.sectors_per_cluster cluster known.0 known.1)),
      )
