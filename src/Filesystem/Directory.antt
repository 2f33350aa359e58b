-- ===== src/Filesystem/Directory.antt =====
-- `ReadBiosBlock` of Filesystem/FATFS.cpp: the root directory of a partition.
use sector_os.Base.{
  ℕ, zero, suc, ◌+◌, ◌*◌, true, false, ◌&&◌, Option, some, ◌>>=◌, List, [], ◌∷◌, ◌++◌, map, ltb,
  ◌==◌, if◌then◌else◌, bit_and, u32, codes,
}
use sector_os.Filesystem.{
  print, print_hex, read_sector, Files, say, read16, read32, BiosParameterBlock32,
  bios_parameter_block, data_start, cluster_sector, Disk, load, entry, read_file,
}

-- What the variables on the stack hold before they are written.
pub record Unset : Type 0 where
  pub mbr : ℕ → ℕ
  pub bpb : ℕ → ℕ
  pub dirent : ℕ → ℕ
  pub buffer : ℕ → ℕ
  pub fatbuffer : ℕ → ℕ

-- What `printf` shows of a text: it ends at the first zero.
unfoldable pub until_zero : List ℕ → List ℕ
until_zero [] = []
until_zero (c ∷ rest) = let more = until_zero rest in if c == 0 then [] else c ∷ more

-- The name that is printed for an entry: eight bytes and a newline, up to the first zero.
unfoldable pub name_line : (ℕ → ℕ) → ℕ → List ℕ
unfolding until_zero
name_line dirent i =
    until_zero (
      map (λ j. dirent (entry i j)) (0 ∷ (1 ∷ (2 ∷ (3 ∷ (4 ∷ (5 ∷ (6 ∷ (7 ∷ []))))))))
      ++ b'\n' ∷ [])

-- A directory, which may be that of the programs.
unfoldable pub enter_directory : (ℕ → ℕ) → ℕ → Files → Files
unfolding say
enter_directory dirent i s =
    if dirent (entry i 0) == b'P'
      && dirent (entry i 1) == b'R'
      && dirent (entry i 2) == b'O'
      && dirent (entry i 3) == b'G'
      && dirent (entry i 4) == b'S'
    then say (print (codes "\n") ∷ (print (codes "prog dir found\n") ∷ (print (codes "\n") ∷ [])))
        (record s { is_dir = true; is_prog_dir = true })
    else record s { is_dir = true; is_prog_dir = false }

module _ (fuel : ℕ) (hd : Disk) (unset : Unset) where
  -- An entry that is a file.
  unfoldable pub show_entry : BiosParameterBlock32 → (ℕ → ℕ) → ℕ → ℕ → ℕ → Files → Option Files
  unfolding read_file
  show_entry bpb dirent fat_start start i s =
      let cluster = read16 dirent (entry i 20) * 65536 + read16 dirent (entry i 26) in
      let size = read32 dirent (entry i 28) in
      read_file hd bpb dirent i fuel fat_start start cluster
        (if ltb size 0x80000000 then size else 0) unset.buffer unset.fatbuffer s

  -- What is done with an entry: one of a long name is passed over, and a directory is only named.
  unfoldable pub visit_entry : BiosParameterBlock32 → (ℕ → ℕ) → ℕ → ℕ → ℕ → Files → Option Files
  unfolding name_line enter_directory show_entry say
  visit_entry bpb dirent fat_start start i s =
      let named = say (print (name_line dirent i) ∷ []) s in
      if bit_and (dirent (entry i 11)) 0x0F == 0x0F
      then some s
      else if bit_and (dirent (entry i 11)) 0x10 == 0x10
      then some (enter_directory dirent i named)
      else show_entry bpb dirent fat_start start i named

  -- `for (i = 0; i < 16; i++)`, from an entry on, as many.
  unfoldable pub visit_entries :
      BiosParameterBlock32 → (ℕ → ℕ) → ℕ → ℕ → ℕ → ℕ → Files → Option Files
  unfolding visit_entry
  visit_entries bpb dirent fat_start start zero i s = some s
  visit_entries bpb dirent fat_start start (suc n) i s =
      if dirent (entry i 0) == 0 then some s else do
        s' ← visit_entry bpb dirent fat_start start i s
        let rest = visit_entries bpb dirent fat_start start n (i + 1) s'
        if s'.halted then some s' else rest

  -- `ReadBiosBlock`
  unfoldable pub read_bios_block : ℕ → Files → Option Files
  unfolding bios_parameter_block data_start cluster_sector load visit_entries say
  read_bios_block partition_offset s = do
    block ← load hd partition_offset unset.bpb 90
    let bpb = bios_parameter_block block
    let fat_start = u32 (partition_offset + bpb.reserved_sectors)
    let start = data_start fat_start bpb
    let root_start = cluster_sector start bpb.sectors_per_cluster bpb.root_cluster
    dirent ← load hd root_start unset.dirent 512
    let head =
        print (codes "sectors per cluster: ")
        ∷ (print_hex bpb.sectors_per_cluster ∷ (print (codes "\n") ∷ []))
    let reads = read_sector partition_offset ∷ (head ++ read_sector root_start ∷ [])
    visit_entries bpb dirent fat_start start 16 0 (say reads s)
