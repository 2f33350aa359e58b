-- ===== src/Filesystem/Contents.antt =====
-- The contents of a file, as they are printed.
use sector_os.Base.{
  ℕ, zero, suc, ◌+◌, ◌-◌, ◌*◌, ◌/◌, ◌≡◌, ◌≢◌, ◌<◌, ◌≤◌, refl, sym, ap, ◌∙◌, Bool, false, Option,
  some, ◌>>=◌, List, [], ◌∷◌, ◌++◌, append_nil, min, ltb, if◌then◌else◌, arith, update, update_self,
  update_ne, u32, codes, ne→==, lt→ltb, ge→ltb, ℕ_discrete,
}
use mathlib.Core.List.{append_assoc}
use sector_os.Drivers.Disk.{Transfer}
use sector_os.Drivers.Disk.Words.{byte_of}
use sector_os.Drivers.Disk.Sectors.{IsDrive, read28_reads}
use sector_os.Filesystem.{
  FileEvent, print, print_from, read_sector, Files, say, BiosParameterBlock32, cluster_sector, Disk,
  load, entry, is_init, show_file, show_sector, read_cluster, read_file,
}
use sector_os.Filesystem.Clusters.{text, after, cluster_step}
use sector_os.Filesystem.Chains.{next_ends}

-- The events of a file of so many bytes from a sector on: each sector is read, and printed behind the name
-- of the entry, up to a zero behind its bytes.
pub data Shown (words : ℕ → ℕ → ℕ) (dirent : ℕ → ℕ) (i : ℕ) : ℕ → ℕ → List FileEvent → Type 0 where
  nothing : (n : ℕ) → Shown words dirent i n 0 []
  sector :
      (n size : ℕ) (es : List FileEvent) (t : ℕ → ℕ)
      → size ≢ 0
      → ((j : ℕ) → j < min size 512 → t j ≡ byte_of (words n) j)
      → t (min size 512) ≡ 0
      → Shown words dirent i (n + 1) (size - 512) es
      → Shown words dirent i n size (
          read_sector n
          ∷ (print_from dirent (entry i 0) ∷ (print (codes " :\n") ∷ (print_from t 0 ∷ es))))

module _ (hd : Disk) (image : Bool → ℕ → ℕ → ℕ) (w : IsDrive hd.drive hd.wait image)
    (bpb : BiosParameterBlock32) (dirent : ℕ → ℕ) (i : ℕ)
    (ordinary : is_init dirent i ≡ false) where
  abbrev loaded : ℕ → (ℕ → ℕ) → ℕ → ℕ
  loaded n buffer j = if ltb j 512 then byte_of (image hd.master n) j else buffer j

  load_lem :
      (n : ℕ) (buffer : ℕ → ℕ) → n < 0x10000000 → load hd n buffer 512 ≡ some (loaded n buffer)
  unfolding load
  load_lem n buffer fits =
      ap (λ (o : Option Transfer). o >>= λ r. some r.buffer)
        (read28_reads hd.drive hd.wait image w hd.master n fits buffer 512 (omega arith))

  sector_shown :
      (n size : ℕ) (buffer : ℕ → ℕ) (s : Files)
      → n < 0x10000000
      → show_sector hd bpb dirent i n size buffer s
        ≡ some (
          text hd image w bpb dirent i ordinary size (loaded n buffer),
          after hd image w bpb dirent i ordinary n size (loaded n buffer) s,
        )
  unfolding show_sector show_file
  sector_shown n size buffer s fits = rw (ordinary, load_lem n buffer fits) refl

  text_bytes :
      (n size : ℕ) (buffer : ℕ → ℕ) (j : ℕ)
      → j < min size 512
      → update (loaded n buffer) (min size 512) 0 j ≡ byte_of (image hd.master n) j
  text_bytes n size buffer j lt =
      update_ne (loaded n buffer) (min size 512) j 0 (omega arith)
      ∙ rw (lt→ltb j 512 (omega arith)) refl

  empty-Shown :
      (fuel file_sector offset : ℕ) (buffer : ℕ → ℕ) (s : Files)
      → s.halted ≡ false
      → (b : ℕ → ℕ) × (s' : Files) × (es : List FileEvent) × (read_cluster hd bpb dirent i
            (suc fuel)
            file_sector
            offset
            0
            buffer
            s
          ≡ some (0, b, s'))
        × (s'.halted ≡ false)
        × (s'.events ≡ s.events ++ es)
        × Shown (image hd.master) dirent i (file_sector + offset) 0 es
  unfolding read_cluster
  empty-Shown fuel file_sector offset buffer s on =
      (buffer, s, [], refl, on, sym (append_nil s.events), nothing (file_sector + offset))

  cluster-Shown :
      (left fuel file_sector offset size : ℕ) (buffer : ℕ → ℕ) (s : Files)
      → offset + left ≡ bpb.sectors_per_cluster
      → size ≤ 512 * left
      → left < fuel
      → file_sector + offset + left ≤ 0x10000000
      → s.halted ≡ false
      → (b : ℕ → ℕ) × (s' : Files) × (es : List FileEvent) × (read_cluster hd bpb dirent i fuel
            file_sector offset size buffer s
          ≡ some (0, b, s'))
        × (s'.halted ≡ false)
        × (s'.events ≡ s.events ++ es)
        × Shown (image hd.master) dirent i (file_sector + offset) size es
  unfolding say
  cluster-Shown left zero file_sector offset size buffer s inside fits enough low on =
      absurd (omega arith)
  cluster-Shown zero (suc fuel) file_sector offset size buffer s inside fits enough low on =
      let empty : size ≡ 0 = omega arith in
      rw empty (empty-Shown fuel file_sector offset buffer s on)
  cluster-Shown (suc left) (suc fuel) file_sector offset size buffer s inside fits enough low on =
      elim (ℕ_discrete size 0) [
        | yes empty ↦ rw empty (empty-Shown fuel file_sector offset buffer s on)
        | no some_left ↦
            let n = file_sector + offset in
            let here : u32 n ≡ n = omega arith in
            let t = text hd image w bpb dirent i ordinary size (loaded n buffer) in
            let s1 = after hd image w bpb dirent i ordinary n size (loaded n buffer) s in
            let done : show_sector hd bpb dirent i (u32 n) size buffer s ≡ some (t, s1) =
              rw here (sector_shown n size buffer s (omega arith)) in
            let step =
              cluster_step hd image w bpb dirent i ordinary fuel file_sector offset size buffer s t
                s1 some_left done on in
            let (b, s', es, rest, on', added, shown) =
              cluster-Shown left fuel file_sector (offset + 1) (size - 512) t s1 (omega arith)
                (omega arith) (omega arith) (omega arith) on in
            let next : file_sector + (offset + 1) ≡ file_sector + offset + 1 = omega arith in
            (
              b,
              s',
              _,
              step ∙ rw (ge→ltb bpb.sectors_per_cluster (offset + 1) (omega arith)) rest,
              on',
              added ∙ append_assoc s.events _ es,
              sector n size es t some_left (text_bytes n size buffer)
                  (update_self (loaded n buffer) (min size 512) 0) (rw next at shown),
            )
      ]

  -- On a drive that settles without an error, a file that is not empty, is not that of the initial program
  -- and fits into its first cluster, on sectors of 28 bits, is printed with two rounds of fuel more than
  -- the cluster has sectors: each of its sectors is read and printed, up to the file's end, with the bytes
  -- that the drive has for it, and then the sector of the table with the cluster's entry is read.
  pub read_file-Shown :
      (fuel fat_start start cluster size : ℕ) (buffer fat : ℕ → ℕ) (s : Files)
      → size ≢ 0
      → size ≤ 512 * bpb.sectors_per_cluster
      → cluster_sector start bpb.sectors_per_cluster cluster + bpb.sectors_per_cluster ≤ 0x10000000
      → bpb.sectors_per_cluster + 1 < fuel
      → s.halted ≡ false
      → (s' : Files) × (es : List FileEvent) × (read_file hd bpb dirent i fuel fat_start start
            cluster size buffer fat s
          ≡ some s')
        × (s'.events ≡ s.events ++ (es ++ read_sector (u32 (fat_start + cluster / 128)) ∷ []))
        × Shown
            (image hd.master)
            dirent
            i
            (cluster_sector start bpb.sectors_per_cluster cluster)
            size
            es
  unfolding read_file say
  read_file-Shown zero fat_start start cluster size buffer fat s some_left fits low enough on =
      absurd (omega arith)
  read_file-Shown (suc zero) fat_start start cluster size buffer fat s some_left fits low enough
        on =
      absurd (omega arith)
  read_file-Shown (suc (suc fuel)) fat_start start cluster size buffer fat s some_left fits low
        enough on =
      let first = cluster_sector start bpb.sectors_per_cluster cluster in
      let fat_sector = u32 (fat_start + cluster / 128) in
      let (b, s', es, done, on', added, shown) =
        cluster-Shown bpb.sectors_per_cluster (suc (suc fuel)) first 0 size buffer s (omega arith)
          fits (omega arith) (omega arith) on in
      let (next, fat', found) = next_ends hd image w bpb dirent i ordinary fat_sector cluster fat in
      let here : first + 0 ≡ first = omega arith in
      (
        say (read_sector fat_sector ∷ []) s',
        es,
        rw (ne→== size 0 some_left, done, found, on') refl,
        rw added (append_assoc s.events es (read_sector fat_sector ∷ [])),
        rw here at shown,
      )
