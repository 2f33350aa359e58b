-- ===== src/Filesystem/Clusters.antt =====
-- The sectors that are read for a file, cluster by cluster.
use sector_os.Base.{
  append_nil, ℕ, zero, suc, ◌+◌, ◌-◌, ◌*◌, ◌/◌, ◌≡◌, ◌≢◌, ◌<◌, refl, sym, ap, ◌∙◌, Bool, false,
  Option, some, ◌>>=◌, List, [], ◌∷◌, ◌++◌, min, ltb, if◌then◌else◌, arith, update, u32, ne→==,
  lt→ltb, ge→ltb, dec_lt, ℕ_discrete, codes,
}
use mathlib.Core.List.{append_assoc}
use sector_os.Drivers.Disk.{Transfer}
use sector_os.Drivers.Disk.Sectors.{IsDrive, read28_reads, read28_refused}
use sector_os.Filesystem.{
  FileEvent, print, print_from, print_hex, read_sector, stop, Files, say, BiosParameterBlock32,
  Disk, load, entry, is_init, show_file, show_sector, read_cluster,
}

-- The sectors among the events.
abbrev pub reads : List FileEvent → List ℕ
reads [] = []
reads (print t ∷ es) = reads es
reads (print_from b j ∷ es) = reads es
reads (print_hex n ∷ es) = reads es
reads (read_sector n ∷ es) = n ∷ reads es
reads (stop ∷ es) = reads es

-- As many sectors from an offset on.
abbrev pub run_of : ℕ → ℕ → ℕ → List ℕ
run_of sector offset zero = []
run_of sector offset (suc n) = u32 (sector + offset) ∷ run_of sector (offset + 1) n

pub reads-append : (es fs : List FileEvent) → reads (es ++ fs) ≡ reads es ++ reads fs
reads-append [] fs = refl
reads-append (print t ∷ es) fs = reads-append es fs
reads-append (print_from b j ∷ es) fs = reads-append es fs
reads-append (print_hex n ∷ es) fs = reads-append es fs
reads-append (read_sector n ∷ es) fs = rw (reads-append es fs) refl
reads-append (stop ∷ es) fs = reads-append es fs

-- The sectors of a file's size.
abbrev pub sectors_of : ℕ → ℕ
sectors_of size = (size + 511) / 512

module _ (hd : Disk) (image : Bool → ℕ → ℕ → ℕ) (w : IsDrive hd.drive hd.wait image) where
  -- A sector is read, or refused.
  pub load_ends : (sector : ℕ) (buffer : ℕ → ℕ) → (b : ℕ → ℕ) × (load hd sector buffer 512 ≡ some b)
  unfolding load
  load_ends sector buffer = elim (dec_lt sector 0x10000000) [
    | yes fits ↦ (
      _,
      ap (λ (o : Option Transfer). o >>= λ r. some r.buffer)
          (read28_reads hd.drive hd.wait image w hd.master sector fits buffer 512 (omega arith)),
    )
    | no big ↦ (
      buffer,
      ap (λ (o : Option Transfer). o >>= λ r. some r.buffer)
          (read28_refused hd.wait hd.drive hd.master sector buffer 512 (omega arith)),
    )
  ]

  module _ (bpb : BiosParameterBlock32) (dirent : ℕ → ℕ) (i : ℕ)
      (ordinary : is_init dirent i ≡ false) where
    -- The buffer and the state after a sector of which these bytes were read.
    abbrev pub text : ℕ → (ℕ → ℕ) → ℕ → ℕ
    text size bytes = update bytes (min size 512) 0

    abbrev pub after : ℕ → ℕ → (ℕ → ℕ) → Files → Files
    after sector size bytes s =
        say
          (read_sector sector
            ∷ (print_from dirent (entry i 0)
                ∷ (print (codes " :\n") ∷ (print_from (text size bytes) 0 ∷ []))))
          s

    pub shown :
        (sector size : ℕ) (buffer : ℕ → ℕ) (s : Files)
        → s.halted ≡ false
        → (b : ℕ → ℕ) × (s' : Files) × (show_sector hd bpb dirent i sector size buffer s
            ≡ some (b, s'))
          × (s'.halted ≡ false)
          × (reads s'.events ≡ reads s.events ++ sector ∷ [])
    unfolding show_sector show_file say
    shown sector size buffer s on =
        let (b, done) = load_ends sector buffer in
        (text size b, after sector size b s, rw (ordinary, done) refl, on, reads-append s.events _)

    pub cluster_step :
        (fuel file_sector offset size : ℕ) (buffer : ℕ → ℕ) (s : Files) (b : ℕ → ℕ) (s' : Files)
        → size ≢ 0
        → show_sector hd bpb dirent i (u32 (file_sector + offset)) size buffer s ≡ some (b, s')
        → s'.halted ≡ false
        → read_cluster hd bpb dirent i (suc fuel) file_sector offset size buffer s ≡ (
            if ltb bpb.sectors_per_cluster (offset + 1)
            then some (size, b, s')
            else read_cluster hd bpb dirent i fuel file_sector (offset + 1) (size - 512) b s')
    unfolding read_cluster
    cluster_step fuel file_sector offset size buffer s b s' some_left done on =
        rw (ne→== size 0 some_left, done, on) refl

    empty_ends :
        (fuel file_sector offset left : ℕ) (buffer : ℕ → ℕ) (s : Files)
        → s.halted ≡ false
        → (b : ℕ → ℕ) × (s' : Files) × (read_cluster hd bpb dirent i
              (suc fuel)
              file_sector
              offset
              0
              buffer
              s
            ≡ some (0 - 512 * left, b, s'))
          × (s'.halted ≡ false)
          × (reads s'.events
              ≡ reads s.events ++ run_of file_sector offset (min (sectors_of 0) (suc left)))
    unfolding read_cluster
    empty_ends fuel file_sector offset left buffer s on =
        let none_left : 0 - 512 * left ≡ 0 = omega arith in
        let none_read : min (sectors_of 0) (suc left) ≡ 0 = omega arith in
        (buffer, s, rw none_left refl, on, rw none_read (sym (append_nil (reads s.events))))

    -- A run of the `for` loop from an offset on, with as many sectors of the cluster left: it reads the
    -- sectors of what is left of the file, but at most one more than are left of the cluster, and takes
    -- from the size what lies in the cluster.
    pub read_cluster_reads :
        (left fuel file_sector offset size : ℕ) (buffer : ℕ → ℕ) (s : Files)
        → offset + left ≡ bpb.sectors_per_cluster
        → left + 1 < fuel
        → s.halted ≡ false
        → (b : ℕ → ℕ) × (s' : Files) × (read_cluster hd bpb dirent i fuel file_sector offset size
              buffer s
            ≡ some (size - 512 * left, b, s'))
          × (s'.halted ≡ false)
          × (reads s'.events
              ≡ reads s.events ++ run_of file_sector offset (min (sectors_of size) (suc left)))
    read_cluster_reads left zero file_sector offset size buffer s inside enough on =
        absurd (omega arith)
    read_cluster_reads zero (suc fuel) file_sector offset size buffer s inside enough on =
        elim (ℕ_discrete size 0) [
          | yes empty ↦ rw empty (empty_ends fuel file_sector offset 0 buffer s on)
          | no some_left ↦
              let (b, s', done, on', read) = shown (u32 (file_sector + offset)) size buffer s on in
              let step =
                cluster_step fuel file_sector offset size buffer s b s' some_left done on' in
              let one_read : min (sectors_of size) 1 ≡ 1 = omega arith in
              let all_left : size - 512 * 0 ≡ size = omega arith in
              let last = lt→ltb bpb.sectors_per_cluster (offset + 1) (omega arith) in
              (b, s', step ∙ rw (last, all_left) refl, on', rw one_read read)
        ]
    read_cluster_reads (suc left) (suc fuel) file_sector offset size buffer s inside enough on =
        elim (ℕ_discrete size 0) [
          | yes empty ↦ rw empty (empty_ends fuel file_sector offset (suc left) buffer s on)
          | no some_left ↦
              let (b, s', done, on', read) = shown (u32 (file_sector + offset)) size buffer s on in
              let step =
                cluster_step fuel file_sector offset size buffer s b s' some_left done on' in
              let (b2, s2, done2, on2, read2) =
                read_cluster_reads left fuel file_sector (offset + 1) (size - 512) b s'
                  (omega arith) (omega arith) on' in
              let one_more : min (sectors_of size) (suc (suc left))
                  ≡ suc (min (sectors_of (size - 512)) (suc left)) =
                omega arith in
              let less : size - 512 * suc left ≡ size - 512 - 512 * left = omega arith in
              let more = ge→ltb bpb.sectors_per_cluster (offset + 1) (omega arith) in
              (
                b2,
                s2,
                step ∙ rw (more, less) done2,
                on2,
                read2
                    ∙ rw (one_more, read)
                        (append_assoc (reads s.events) (u32 (file_sector + offset) ∷ []) _),
              )
        ]
