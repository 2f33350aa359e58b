-- ===== src/Filesystem/Tests.antt =====
-- A small file on a drive that is always ready.
use sector_os.Base.{
  ℕ, ◌+◌, ◌/◌, ◌≡◌, refl, Bool, true, false, some, [], ◌∷◌, ◌++◌, arith, u32, List,
}
use sector_os.Drivers.Disk.{Drive}
use sector_os.Drivers.Disk.Words.{addressed, selects_master}
use sector_os.Drivers.Disk.Sectors.{IsDrive}
use sector_os.Filesystem.{
  FileEvent, read_sector, Files, BiosParameterBlock32, Disk, cluster_sector, is_init, read_cluster,
  read_file,
}
use sector_os.Filesystem.Clusters.{reads, run_of}
use sector_os.Filesystem.Contents.{Shown, read_file-Shown}
use sector_os.Filesystem.Chains.{read_file_ends, read_cluster_overruns}

abbrev image : Bool → ℕ → ℕ → ℕ
image master sector i = sector + i

abbrev drive : Drive
drive = record { status = λ w n. 0x58; word = λ w i. image (selects_master w) (addressed w) i }

abbrev disk : Disk
disk = record { drive = drive; master = true; wait = 1 }

drive-IsDrive : IsDrive drive 1 image
drive-IsDrive = record {
  settles = λ w. (0, omega arith, λ k h. absurd (omega arith), refl, refl);
  reads = λ w i command one lt. refl;
}

abbrev block : BiosParameterBlock32
block = record {
  sectors_per_cluster = 2;
  reserved_sectors = 32;
  fat_copies = 2;
  table_size = 100;
  root_cluster = 2;
}

abbrev no_bytes : ℕ → ℕ
no_bytes j = 0

abbrev files : Files
files = record {
  is_dir = false;
  is_prog_dir = false;
  inits = no_bytes;
  halted = false;
  events = [];
}

no_bytes-ordinary : is_init no_bytes 0 ≡ false
unfolding is_init
no_bytes-ordinary = refl

read_file-Shown_example :
    (s' : Files) × (es : List FileEvent) × (read_file disk block no_bytes 0 10 32 232 5 700 no_bytes
        no_bytes files
      ≡ some s')
    × (s'.events ≡ es ++ read_sector (u32 (32 + 5 / 128)) ∷ [])
    × Shown (image true) no_bytes 0 (cluster_sector 232 2 5) 700 es
unfolding cluster_sector
read_file-Shown_example =
    read_file-Shown disk image drive-IsDrive block no_bytes 0 no_bytes-ordinary 10 32 232 5 700
      no_bytes no_bytes files (omega arith) (omega arith) (omega arith) (omega arith) refl

read_file_ends_example :
    (s' : Files) × (read_file disk block no_bytes 0 3000 32 232 5 2000 no_bytes no_bytes files
      ≡ some s')
    × (s'.halted ≡ false)
read_file_ends_example =
    read_file_ends disk image drive-IsDrive block no_bytes 0 no_bytes-ordinary 3000 32 232 5 2000
      no_bytes no_bytes files (omega arith) (omega arith) refl

read_cluster_overruns_example :
    (b : ℕ → ℕ) × (s' : Files) × (read_cluster disk block no_bytes 0 10
        (cluster_sector 232 2 5)
        0
        2000
        no_bytes
        files
      ≡ some (976, b, s'))
    × (reads s'.events ≡ run_of (cluster_sector 232 2 5) 0 2 ++ cluster_sector 232 2 6 ∷ [])
read_cluster_overruns_example =
    read_cluster_overruns disk image drive-IsDrive block no_bytes 0 no_bytes-ordinary 10 232 5 2000
      no_bytes files (omega arith) (omega arith, omega arith) (omega arith) refl
