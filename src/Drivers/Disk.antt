-- ===== src/Drivers/Disk.antt =====
-- Drivers/HDD-ATA.cpp and Drivers/HDD-ATA.h: the hard disk behind its ports. A port is named by its
-- distance from the base. The device is a parameter: what it answers is a function of all that was
-- written to its ports and printed since the operation began, and of the number of the read.
pub mod Words
pub mod Sectors
use sector_os.Base.{
  ℕ, zero, suc, ◌+◌, ◌-◌, ◌*◌, ◌/◌, ◌%◌, Bool, true, false, not, ◌&&◌, Option, none, some, ◌>>=◌,
  List, [], ◌∷◌, ◌++◌, ltb, ◌==◌, if◌then◌else◌, bit_and, bit_or, update, codes,
}

-- The distances of the ports.
abbrev pub data_port : ℕ
data_port = 0

abbrev pub error_port : ℕ
error_port = 1

abbrev pub sector_count_port : ℕ
sector_count_port = 2

abbrev pub lba_low_port : ℕ
lba_low_port = 3

abbrev pub lba_mid_port : ℕ
lba_mid_port = 4

abbrev pub lba_hi_port : ℕ
lba_hi_port = 5

abbrev pub device_port : ℕ
device_port = 6

abbrev pub command_port : ℕ
command_port = 7

abbrev pub control_port : ℕ
control_port = 0x206

abbrev pub bytes_per_sector : ℕ
bytes_per_sector = 512

-- A write to a port, or a text that is printed.
pub data DiskEvent : Type 0 where
  write_to_port : ℕ → ℕ → DiskEvent
  print : List ℕ → DiskEvent

pub record Drive : Type 0 where
  pub status : List DiskEvent → ℕ → ℕ
  pub word : List DiskEvent → ℕ → ℕ

-- What an operation leaves: the events, the caller's buffer, and the reads of the data port.
pub record Transfer : Type 0 where
  pub events : List DiskEvent
  pub buffer : ℕ → ℕ
  pub words_read : ℕ

-- `((status & 0x80) == 0x80) && ((status & 0x01) != 0x01)`
unfoldable pub is_busy : ℕ → Bool
is_busy status = bit_and status 0x80 == 0x80 && not (bit_and status 0x01 == 0x01)

-- The first status and the `while` behind it, on fuel, from the read of a number on.
unfoldable pub wait_ready : ℕ → (ℕ → ℕ) → ℕ → Option ℕ
wait_ready zero status n = none
wait_ready (suc fuel) status n =
    let rest = wait_ready fuel status (n + 1) in
    if is_busy (status n) then rest else some (status n)

unfoldable pub has_error : ℕ → Bool
has_error status = not (bit_and status 0x01 == 0)

-- The writes that address a sector and give the command.
unfoldable pub address : Bool → ℕ → ℕ → List DiskEvent
address master sector command =
    write_to_port device_port (bit_or (if master then 0xE0 else 0xF0) (sector / 16777216 % 16))
    ∷ (write_to_port error_port 0
        ∷ (write_to_port sector_count_port 1
            ∷ (write_to_port lba_low_port (sector % 256)
                ∷ (write_to_port lba_mid_port (sector / 256 % 256)
                    ∷ (write_to_port lba_hi_port (sector / 65536 % 256)
                        ∷ (write_to_port command_port command ∷ []))))))

-- The two tests of `Read28` and `Write28`: `sector & 0xF0000000`, and `count > bytesPerSector`.
unfoldable pub is_refused : ℕ → ℕ → Bool
is_refused sector count = if sector / 0x10000000 == 0 then ltb bytes_per_sector count else true

-- `for (i = 0; i < count; i += 2)` of `Read28`, from the word `k` on, with the bytes that are left.
unfoldable pub read_words : (ℕ → ℕ) → ℕ → ℕ → (ℕ → ℕ) → ℕ → ℕ
read_words word zero k bytes = bytes
read_words word (suc zero) k bytes = update bytes (2 * k) (word k % 256)
read_words word (suc (suc n)) k bytes =
    read_words word n (k + 1)
      (update (update bytes (2 * k) (word k % 256)) (2 * k + 1) (word k / 256 % 256))

-- The rounds of a loop over as many bytes, two at a time.
unfoldable pub rounds : ℕ → ℕ
rounds zero = 0
rounds (suc zero) = 1
rounds (suc (suc n)) = rounds n + 1

-- `Read28`
unfoldable pub read28 : ℕ → Drive → Bool → ℕ → (ℕ → ℕ) → ℕ → Option Transfer
unfolding is_refused has_error rounds
read28 fuel drive master sector bytes count =
    if is_refused sector count
    then some record { events = []; buffer = bytes; words_read = 0 }
    else do
      let w = address master sector 0x20
      status ← wait_ready fuel (drive.status w) 0
      if has_error status
          then some
              record { events = w ++ print (codes "ERROR") ∷ []; buffer = bytes; words_read = 0 }
          else some record {
            events = w;
            buffer = read_words (drive.word w) count 0 bytes;
            words_read = rounds count + rounds (bytes_per_sector - (count + count % 2));
          }

-- A word of `Write28`: `foo` is printed, and the word is sent.
unfoldable pub send_word : ℕ → List DiskEvent
send_word wdata =
    print (wdata % 256 ∷ (wdata / 256 % 256 ∷ [])) ∷ (write_to_port data_port wdata ∷ [])

-- `for (i = 0; i < count; i += 2)` of `Write28`.
unfoldable pub send_words : (ℕ → ℕ) → ℕ → ℕ → List DiskEvent
unfolding send_word
send_words bytes zero k = []
send_words bytes (suc zero) k = send_word (bytes (2 * k))
send_words bytes (suc (suc n)) k =
    send_word (bit_or (bytes (2 * k)) (bytes (2 * k + 1) * 256)) ++ send_words bytes n (k + 1)

-- The loop that fills the sector, as many rounds.
unfoldable pub fill_sector : ℕ → List DiskEvent
fill_sector zero = []
fill_sector (suc n) = write_to_port data_port 0 ∷ fill_sector n

-- `Write28`
unfoldable pub write28 : Bool → ℕ → (ℕ → ℕ) → ℕ → List DiskEvent
unfolding is_refused rounds
write28 master sector bytes count =
    if is_refused sector count
    then []
    else address master sector 0x30
      ++ (send_words bytes count 0 ++ fill_sector (rounds (bytes_per_sector - (count + count % 2))))

-- `Flush`
unfoldable pub flush_events : Bool → List DiskEvent
flush_events master =
    write_to_port device_port (if master then 0xE0 else 0xF0)
    ∷ (write_to_port command_port 0xE7 ∷ [])

unfoldable pub flush : ℕ → Drive → Bool → Option (List DiskEvent)
unfolding has_error flush_events
flush fuel drive master = do
  let w = flush_events master
  status ← wait_ready fuel (drive.status w) 0
  some (if has_error status then w ++ print (codes "ERROR") ∷ [] else w)

-- The 256 words of `Identify`, each printed as two characters.
unfoldable pub print_words : ℕ → (ℕ → ℕ) → ℕ → List DiskEvent
print_words zero word i = []
print_words (suc n) word i =
    print (word i % 256 ∷ (word i / 256 % 256 ∷ [])) ∷ print_words n word (i + 1)

-- `Identify`: the writes before the first status, and those before the command.
unfoldable pub select_events : Bool → List DiskEvent
select_events master =
    write_to_port device_port (if master then 0xA0 else 0xB0)
    ∷ (write_to_port control_port 0 ∷ (write_to_port device_port 0xA0 ∷ []))

unfoldable pub identify_events : Bool → List DiskEvent
unfolding select_events
identify_events master =
    select_events master
    ++ write_to_port device_port (if master then 0xA0 else 0xB0)
      ∷ (write_to_port sector_count_port 0
          ∷ (write_to_port lba_low_port 0
              ∷ (write_to_port lba_mid_port 0
                  ∷ (write_to_port lba_hi_port 0 ∷ (write_to_port command_port 0xEC ∷ [])))))

unfoldable pub identify : ℕ → Drive → Bool → Option (List DiskEvent)
unfolding has_error
identify fuel drive master =
    let w = select_events master in
    let v = identify_events master in
    if drive.status w 0 == 0xFF then some w else if drive.status v 0 == 0x00 then some v else do
      status ← wait_ready fuel (drive.status v) 0
      let failed = v ++ print (codes "ERROR") ∷ []
      let done = v ++ print_words 256 (drive.word v) 0
      some (if has_error status then failed else done)
