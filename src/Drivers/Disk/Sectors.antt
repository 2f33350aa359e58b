-- ===== src/Drivers/Disk/Sectors.antt =====
-- Whole sectors: what `Read28` finds, what `Write28` sends, and the two together.
use sector_os.Base.{
  ℕ, zero, suc, ◌+◌, ◌-◌, ◌/◌, ◌%◌, ◌≡◌, ◌<◌, ◌≤◌, refl, sym, ap, ◌∙◌, Bool, inr, [], ◌++◌, fun_ext,
  lt→ltb, dec_lt, true, false, some, List, get_or, length, ltb, if◌then◌else◌, arith, bit_and,
  ne→==, ge→ltb,
}
use sector_os.Drivers.Disk.{
  DiskEvent, Drive, Transfer, address, is_busy, has_error, is_refused, wait_ready, read_words,
  rounds, read28, write28, send_words, fill_sector,
}
use sector_os.Drivers.Disk.Words.{
  latest, sent, addressed, selects_master, byte_of, byte_in, read_words-inside, read_words-outside,
  latest-send_words, latest-fill_sector, sent_bytes, sent_zero, length-sent, byte_in-byte_of,
  rounds_half, address_lem,
}

-- A reading of all words of a sector.
abbrev pub whole_sector : Bool → ℕ → (ℕ → ℕ) → Transfer
whole_sector master sector b = record {
  events = address master sector 0x20;
  buffer = b;
  words_read = 256;
}

-- A drive that settles after every command without an error, within some reads of its status, and that
-- answers the command to read with the words of the sector which its registers select.
pub record IsDrive (drive : Drive) (fuel : ℕ) (image : Bool → ℕ → ℕ → ℕ) : Type 0 where
  pub settles :
      (w : List DiskEvent)
      → (n : ℕ) × (n < fuel)
        × ((k : ℕ) → k < n → is_busy (drive.status w k) ≡ true)
        × (bit_and (drive.status w n) 0x80 ≡ 0)
        × (bit_and (drive.status w n) 0x01 ≡ 0)
  pub reads :
      (w : List DiskEvent) (i : ℕ)
      → latest 7 w 0 ≡ 0x20
      → latest 2 w 0 ≡ 1
      → i < 256
      → drive.word w i ≡ image (selects_master w) (addressed w) i

wait_settles :
    (n fuel from last : ℕ) (status : ℕ → ℕ)
    → n < fuel
    → from + n ≡ last
    → ((k : ℕ) → k < last → is_busy (status k) ≡ true)
    → bit_and (status last) 0x80 ≡ 0
    → wait_ready fuel status from ≡ some (status last)
unfolding wait_ready is_busy
wait_settles n zero from last status lt end busy idle = absurd (omega arith)
wait_settles zero (suc fuel) from last status lt end busy idle =
    let here : from ≡ last = omega arith in rw (here, idle) refl
wait_settles (suc n) (suc fuel) from last status lt end busy idle =
    rw (busy from (omega arith))
      (wait_settles n fuel (from + 1) last status (omega arith) (omega arith) busy idle)

accepted : (sector count : ℕ) → sector < 0x10000000 → count ≤ 512 → is_refused sector count ≡ false
unfolding is_refused
accepted sector count fits size = ground arith

-- A number of a sector that needs more than 28 bits is refused, without an event.
pub read28_refused :
    (fuel : ℕ) (drive : Drive) (master : Bool) (sector : ℕ) (buffer : ℕ → ℕ) (count : ℕ)
    → 0x10000000 ≤ sector
    → read28 fuel drive master sector buffer count
      ≡ some record { events = []; buffer = buffer; words_read = 0 }
unfolding read28 is_refused
read28_refused fuel drive master sector buffer count big =
    rw (ne→== (sector / 0x10000000) 0 (omega arith)) refl

module _ (drive : Drive) (fuel : ℕ) (image : Bool → ℕ → ℕ → ℕ) (w : IsDrive drive fuel image)
    (master : Bool) (sector : ℕ) (fits : sector < 0x10000000) where
  -- The reading in one equation.
  read28_done :
      (buffer : ℕ → ℕ) (count : ℕ)
      → count ≤ 512
      → read28 fuel drive master sector buffer count
        ≡ some record {
          events = address master sector 0x20;
          buffer = read_words (drive.word (address master sector 0x20)) count 0 buffer;
          words_read = 256;
        }
  unfolding read28 has_error
  read28_done buffer count size =
      let (n, early, busy, idle, good) = w.settles (address master sector 0x20) in
      let all : rounds count + rounds (512 - (count + count % 2)) ≡ 256 =
        omega (arith, rounds_half count, rounds_half (512 - (count + count % 2))) in
      rw
        (
          accepted sector count fits size,
          wait_settles n fuel 0 n (drive.status (address master sector 0x20)) early (omega arith)
              busy idle,
          good,
          all,
        )
        refl

  word_read : (i : ℕ) → i < 256 → drive.word (address master sector 0x20) i ≡ image master sector i
  unfolding address
  word_read i lt =
      let (there, chosen, one, command) = address_lem master sector 0x20 [] (λ p v. refl) fits in
      w.reads (address master sector 0x20) i command one lt
      ∙ ap (λ (m : Bool). image m (addressed (address master sector 0x20)) i) chosen
      ∙ ap (λ (s : ℕ). image master s i) there

  read_word_bytes :
      (buffer : ℕ → ℕ) (count : ℕ)
      → count ≤ 512
      → (j : ℕ)
      → read_words (drive.word (address master sector 0x20)) count 0 buffer j
        ≡ (if ltb j count then byte_of (image master sector) j else buffer j)
  read_word_bytes buffer count size j = elim (dec_lt j count) [
    | yes lt ↦
        rw
          (
            read_words-inside (drive.word (address master sector 0x20)) count 0 buffer j
                (omega arith) (omega arith),
            word_read (j / 2) (omega arith),
            lt→ltb j count lt,
          )
          refl
    | no ge ↦
        rw (ge→ltb j count (omega arith))
          (read_words-outside _ count 0 buffer j (inr (omega arith)))
  ]

  -- Reading from a drive that settles without an error takes the 256 words of the sector from it,
  -- whatever part of them is asked for, fills the part of the buffer with the bytes of the selected
  -- drive's sector, and leaves the rest of the buffer.
  pub read28_reads :
      (buffer : ℕ → ℕ) (count : ℕ)
      → count ≤ 512
      → read28 fuel drive master sector buffer count
        ≡ some (
            whole_sector master sector
              (λ j. if ltb j count then byte_of (image master sector) j else buffer j))
  read28_reads buffer count size =
      read28_done buffer count size
      ∙ ap (λ (b : ℕ → ℕ). some (whole_sector master sector b))
          (fun_ext (read_word_bytes buffer count size))

sent-address :
    (master : Bool) (sector command : ℕ) (es : List DiskEvent)
    → sent (address master sector command ++ es) ≡ sent es
unfolding address
sent-address master sector command es = refl

module _ (master : Bool) (sector : ℕ) (bytes : ℕ → ℕ) (count : ℕ) (fits : sector < 0x10000000)
    (size : count ≤ 512) (small : (j : ℕ) → bytes j < 256) where
  abbrev filled : ℕ
  filled = rounds (512 - (count + count % 2))

  write28_events :
      write28 master sector bytes count
      ≡ address master sector 0x30 ++ (send_words bytes count 0 ++ fill_sector filled)
  unfolding write28
  write28_events = rw (accepted sector count fits size) refl

  all_words : rounds count + filled ≡ 256
  all_words = omega (arith, rounds_half count, rounds_half (512 - (count + count % 2)))

  word_bytes :
      (j : ℕ)
      → byte_in (sent (send_words bytes count 0 ++ fill_sector filled)) j
        ≡ (if ltb j count then bytes j else 0)
  word_bytes j = elim (dec_lt j count) [
    | yes lt ↦
        rw (sent_bytes bytes small count 0 j (fill_sector filled) lt, lt→ltb j count lt)
          (ap bytes (omega arith))
    | no ge ↦
        rw (sent_zero bytes small count 0 filled j (omega arith), ge→ltb j count (omega arith)) refl
  ]

  -- Writing at most a sector selects the drive and the sector, gives the command to write one sector,
  -- and sends 256 words: the bytes of the buffer, and zeros behind them.
  write28_sends :
      (addressed (write28 master sector bytes count) ≡ sector)
      × (selects_master (write28 master sector bytes count) ≡ master)
      × (latest 2 (write28 master sector bytes count) 0 ≡ 1)
      × (latest 7 (write28 master sector bytes count) 0 ≡ 0x30)
      × (length (sent (write28 master sector bytes count)) ≡ 256)
      × ((j : ℕ)
          → byte_in (sent (write28 master sector bytes count)) j
            ≡ (if ltb j count then bytes j else 0))
  write28_sends =
      let kept = λ (p v : ℕ).
        latest-send_words bytes count 0 p v (fill_sector filled) ∙ latest-fill_sector filled p v in
      let (there, chosen, one, command) =
        address_lem master sector 0x30 (send_words bytes count 0 ++ fill_sector filled) kept fits in
      let erased =
        sent-address master sector 0x30 (send_words bytes count 0 ++ fill_sector filled) in
      let sent_all = ap length erased ∙ length-sent bytes small count 0 filled ∙ all_words in
      let sent_byte = λ (j : ℕ). ap (λ (ws : List ℕ). byte_in ws j) erased ∙ word_bytes j in
      rw write28_events (there, chosen, one, command, sent_all, sent_byte)

  -- At most a sector of bytes that is written to a sector of 28 bits is read back from a drive that settles
  -- without an error and keeps, for the sector that they were addressed to, the words that it was sent: a
  -- buffer gets the bytes, and zeros behind them, up to the number that is asked for, at most a sector, and
  -- keeps the rest.
  pub write28-read28 :
      (drive : Drive) (fuel : ℕ) (image : Bool → ℕ → ℕ → ℕ)
      → IsDrive drive fuel image
      → ((i : ℕ)
          → i < 256
          → image
              (selects_master (write28 master sector bytes count))
              (addressed (write28 master sector bytes count))
              i
            ≡ get_or (sent (write28 master sector bytes count)) i 0)
      → (buffer : ℕ → ℕ) (n : ℕ) → n ≤ 512
      → read28 fuel drive master sector buffer n
        ≡ some (
            whole_sector master sector
              (λ j. if ltb j n then if ltb j count then bytes j else 0 else buffer j))
  write28-read28 drive fuel image w keeps buffer n room =
      let (there, chosen, one, command, all, sent_byte) = write28_sends in
      let stored = λ (i : ℕ) (lt : i < 256).
        ap (λ (m : Bool). image m sector i) (sym chosen)
        ∙ ap (λ (s : ℕ). image (selects_master (write28 master sector bytes count)) s i) (sym there)
        ∙ keeps i lt in
      let same : (j : ℕ)
          → (if ltb j n then byte_of (image master sector) j else buffer j)
            ≡ (if ltb j n then if ltb j count then bytes j else 0 else buffer j) =
        λ j. elim (dec_lt j n) [
          | yes lt ↦ rw (lt→ltb j n lt) (
              rw (stored (j / 2) (omega arith))
                (byte_in-byte_of (sent (write28 master sector bytes count)) j)
              ∙ sent_byte j)
          | no ge ↦ rw (ge→ltb j n (omega arith)) refl
        ] in
      read28_reads drive fuel image w master sector fits buffer n room
      ∙ ap (λ (b : ℕ → ℕ). some (whole_sector master sector b)) (fun_ext same)
