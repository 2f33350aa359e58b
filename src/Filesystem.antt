-- ===== src/Filesystem.antt =====
-- Filesystem/: the partition table (MSDOSPT.cpp), and the files of a FAT32 partition (FATFS.cpp).
-- What is read comes from the disk of Drivers/HDD-ATA.cpp. A packed struct is its bytes, with its members
-- at their offsets. The memory of a variable that the source does not initialise is a parameter.
pub mod Directory
pub mod Partitions
pub mod Clusters
pub mod Chains
pub mod Contents
mod Tests
use sector_os.Base.{
  ℕ, zero, suc, ◌+◌, ◌-◌, ◌*◌, ◌/◌, ◌%◌, Bool, true, false, ◌&&◌, ◌||◌, Option, none, some, ◌>>=◌,
  List, [], ◌∷◌, ◌++◌, map, min, ltb, ◌==◌, if◌then◌else◌, bit_and, bit_or, update, u8, u32, sub32,
  codes, String,
}
use sector_os.Drivers.Disk.{Drive, Transfer, read28}

-- What is printed, the sectors that are read, and the stop of the machine by `cli` and `hlt`. A text that is
-- printed from memory goes from a byte to the first zero.
pub data FileEvent : Type 0 where
  print : List ℕ → FileEvent
  print_from : (ℕ → ℕ) → ℕ → FileEvent
  print_hex : ℕ → FileEvent
  read_sector : ℕ → FileEvent
  stop : FileEvent

-- `IsDir`, `IsProgDir` and `INITS`, and what happened.
pub record Files : Type 0 where
  pub is_dir : Bool
  pub is_prog_dir : Bool
  pub inits : ℕ → ℕ
  pub halted : Bool
  pub events : List FileEvent

unfoldable pub say : List FileEvent → Files → Files
say es s = record s { events = s.events ++ es }

abbrev pub read16 : (ℕ → ℕ) → ℕ → ℕ
read16 bytes i = bytes i + bytes (i + 1) * 256

abbrev pub read32 : (ℕ → ℕ) → ℕ → ℕ
read32 bytes i = read16 bytes i + read16 bytes (i + 2) * 65536

-- The members of the BIOS parameter block that are used.
pub record BiosParameterBlock32 : Type 0 where
  pub sectors_per_cluster : ℕ
  pub reserved_sectors : ℕ
  pub fat_copies : ℕ
  pub table_size : ℕ
  pub root_cluster : ℕ

unfoldable pub bios_parameter_block : (ℕ → ℕ) → BiosParameterBlock32
bios_parameter_block bytes = record {
  sectors_per_cluster = bytes 13;
  reserved_sectors = read16 bytes 14;
  fat_copies = bytes 16;
  table_size = read32 bytes 36;
  root_cluster = read32 bytes 44;
}

unfoldable pub data_start : ℕ → BiosParameterBlock32 → ℕ
data_start fat_start bpb = u32 (fat_start + bpb.table_size * bpb.fat_copies)

-- `dataStart + sectorsPerCluster * (cluster - 2)`
unfoldable pub cluster_sector : ℕ → ℕ → ℕ → ℕ
cluster_sector start sectors_per_cluster cluster =
    u32 (start + sectors_per_cluster * sub32 cluster 2)

-- The disk that is read, and the fuel of its waiting loop.
pub record Disk : Type 0 where
  pub drive : Drive
  pub master : Bool
  pub wait : ℕ

-- `hd->Read28(sector, buffer, count)`: the buffer after it.
unfoldable pub load : Disk → ℕ → (ℕ → ℕ) → ℕ → Option (ℕ → ℕ)
load hd sector buffer count = do
  r ← read28 hd.wait hd.drive hd.master sector buffer count
  some r.buffer

-- The entry `dirent[i]`: the place of a member.
abbrev pub entry : ℕ → ℕ → ℕ
entry i member = 32 * i + member

-- The test for the file of the initial program. Its last condition looks at another entry.
unfoldable pub is_init : (ℕ → ℕ) → ℕ → Bool
is_init dirent i =
    dirent (entry i 1) == b'I'
    && dirent (entry i 2) == b'N'
    && dirent (entry i 3) == b'I'
    && dirent (entry 4 3) == b'T'

module _ (hd : Disk) (bpb : BiosParameterBlock32) (dirent : ℕ → ℕ) (i : ℕ) where
  -- The two branches of the body of the `for` loop. The buffer on the stack keeps what was read before.
  unfoldable pub show_init : ℕ → ℕ → (ℕ → ℕ) → Files → Option ((ℕ → ℕ) × Files)
  unfolding load say
  show_init sector size buffer s = do
    inits ← load hd sector s.inits 512
    let text = update inits (min size 512) 0
    let shown = print (codes "INIT: ") ∷ (print_from text 0 ∷ (stop ∷ []))
    some (buffer, record (say (read_sector sector ∷ shown) s) { inits = text; halted = true })

  unfoldable pub show_file : ℕ → ℕ → (ℕ → ℕ) → Files → Option ((ℕ → ℕ) × Files)
  unfolding load say
  show_file sector size buffer s = do
    bytes ← load hd sector buffer 512
    let text = update bytes (min size 512) 0
    let shown = print_from dirent (entry i 0) ∷ (print (codes " :\n") ∷ (print_from text 0 ∷ []))
    some (text, say (read_sector sector ∷ shown) s)

  unfoldable pub show_sector : ℕ → ℕ → (ℕ → ℕ) → Files → Option ((ℕ → ℕ) × Files)
  unfolding is_init show_init show_file
  show_sector sector size buffer s =
      if is_init dirent i then show_init sector size buffer s else show_file sector size buffer s

  -- `for (; SIZE > 0; SIZE -= 512)`, on fuel. A negative size ends it as 0 does, so that the subtraction
  -- that stops at 0 is as good.
  unfoldable pub read_cluster : ℕ → ℕ → ℕ → ℕ → (ℕ → ℕ) → Files → Option (ℕ × (ℕ → ℕ) × Files)
  unfolding show_sector
  read_cluster zero file_sector offset size buffer s = none
  read_cluster (suc fuel) file_sector offset size buffer s =
      if size == 0 then some (size, buffer, s) else do
        (buffer', s') ← show_sector (u32 (file_sector + offset)) size buffer s
        let rest = read_cluster fuel file_sector (offset + 1) (size - 512) buffer' s'
        if s'.halted || ltb bpb.sectors_per_cluster (offset + 1)
            then some (size, buffer', s')
            else rest

  -- The sector of the table with the entry of a cluster, and the entry.
  unfoldable pub next_cluster : ℕ → ℕ → (ℕ → ℕ) → Option (ℕ × (ℕ → ℕ))
  unfolding load
  next_cluster fat_sector cluster fat = do
    fat' ← load hd fat_sector fat 512
    some (read32 fat' (cluster % 128 * 4) % 0x10000000, fat')

  -- `while (SIZE > 0)`, on fuel, with the sectors where the table and the data begin.
  unfoldable pub read_file : ℕ → ℕ → ℕ → ℕ → ℕ → (ℕ → ℕ) → (ℕ → ℕ) → Files → Option Files
  unfolding cluster_sector next_cluster say
  read_file zero fat_start start cluster size buffer fat s = none
  read_file (suc fuel) fat_start start cluster size buffer fat s = if size == 0 then some s else do
    let file_sector = cluster_sector start bpb.sectors_per_cluster cluster
    (left, buffer', s') ← read_cluster (suc fuel) file_sector 0 size buffer s
    let fat_sector = u32 (fat_start + cluster / 128)
    let rest = do
      (next, fat') ← next_cluster fat_sector cluster fat
      read_file fuel fat_start start next left buffer' fat' (say (read_sector fat_sector ∷ []) s')
    if s'.halted then some s' else rest
