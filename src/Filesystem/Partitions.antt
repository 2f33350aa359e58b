-- ===== src/Filesystem/Partitions.antt =====
-- Filesystem/MSDOSPT.cpp: the partition table.
use sector_os.Base.{
  ℕ, zero, suc, ◌+◌, ◌*◌, Option, some, ◌>>=◌, List, [], ◌∷◌, ◌==◌, if◌then◌else◌, u8, codes,
}
use sector_os.Filesystem.{
  FileEvent, print, print_hex, read_sector, Files, say, read16, read32, Disk, load,
}
use sector_os.Filesystem.Directory.{Unset, read_bios_block}

module _ (fuel : ℕ) (hd : Disk) (unset : Unset) where
  -- The entry of the partition table, and the line that is printed for it.
  abbrev pub partition : ℕ → ℕ → ℕ
  partition i member = 446 + 16 * i + member

  unfoldable pub partition_line : (ℕ → ℕ) → ℕ → List FileEvent
  partition_line mbr i =
      print (codes " Partition ")
      ∷ (print_hex (u8 i)
          ∷ (print (
                if mbr (partition i 0) == 0x80
                then codes " bootable. Type"
                else codes " not bootable. Type ")
              ∷ (print_hex (mbr (partition i 4)) ∷ [])))

  -- `for (i = 0; i < 4; i++)`, from a partition on, as many.
  unfoldable pub read_entries : (ℕ → ℕ) → ℕ → ℕ → Files → Option Files
  unfolding partition_line read_bios_block say
  read_entries mbr zero i s = some s
  read_entries mbr (suc n) i s = do
    let begun = say (print (codes "Partition ") ∷ (print_hex (u8 i) ∷ (print (codes "\n") ∷ []))) s
    let described = say (partition_line mbr i) begun
    s' ←
        if mbr (partition i 4) == 0
        then some begun
        else read_bios_block fuel hd unset (read32 mbr (partition i 8)) described
    let rest = read_entries mbr n (i + 1) s'
    if s'.halted then some s' else rest

  -- `ReadPartitions`, with the table, which `MBR` points to.
  unfoldable pub read_partitions : Files → Option ((ℕ → ℕ) × Files)
  unfolding load read_entries say
  read_partitions s = do
    mbr ← load hd 0 unset.mbr 512
    let begun = say (print (codes "MBR: ") ∷ (read_sector 0 ∷ [])) s
    let refused = say (print (codes "illegal MBR") ∷ []) begun
    s' ← if read16 mbr 510 == 0xAA55 then read_entries mbr 4 0 begun else some refused
    some (mbr, s')
