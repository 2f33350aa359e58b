-- ===== src/Drivers/Disk/Words.antt =====
-- What a drive sees of the events of an operation, and the bytes of its words.
use sector_os.Base.{
  ℕ, zero, suc, ◌+◌, ◌*◌, ◌/◌, ◌%◌, ◌≡◌, ◌<◌, ◌≤◌, refl, ◌⊎◌, ◌&&◌, inl, eq→==, ne→==, update_self,
  ℕ_discrete, dec_lt, ap, ◌∙◌, Bool, true, false, List, [], ◌∷◌, ◌++◌, get_or, length, ◌==◌,
  if◌then◌else◌, arith, bit_and, bit_or, holds_below, holds_below_at,
}
use sector_os.Base.Bits.{bit_or_disjoint, bit_or_comm}
use sector_os.Drivers.Disk.{
  DiskEvent, write_to_port, print, address, read_words, rounds, send_word, send_words, fill_sector,
}

-- The value that a port was given last.
abbrev pub latest : ℕ → List DiskEvent → ℕ → ℕ
latest port [] v = v
latest port (write_to_port p u ∷ es) v = latest port es (if p == port then u else v)
latest port (print t ∷ es) v = latest port es v

-- The words that went to the data port.
abbrev pub sent : List DiskEvent → List ℕ
sent [] = []
sent (write_to_port zero u ∷ es) = u ∷ sent es
sent (write_to_port (suc p) u ∷ es) = sent es
sent (print t ∷ es) = sent es

-- The sector and the drive that the registers select.
abbrev pub addressed : List DiskEvent → ℕ
addressed w =
    latest 3 w 0 + latest 4 w 0 * 256 + latest 5 w 0 * 65536 + latest 6 w 0 % 16 * 16777216

abbrev pub selects_master : List DiskEvent → Bool
selects_master w = bit_and (latest 6 w 0) 0x10 == 0

abbrev device : Bool → ℕ → ℕ
device master x = bit_or (if master then 0xE0 else 0xF0) x

device_table :
    (master : Bool)
    → holds_below
        (λ x.
          device master x % 16 == x
          && (bit_and (device master x) 0x10 == (if master then 0 else 0x10)))
        16
      ≡ true
unfolding holds_below
device_table true = refl
device_table false = refl

device_lem :
    (master : Bool) (x : ℕ)
    → x < 16
    → (device master x % 16 ≡ x) × ((bit_and (device master x) 0x10 == 0) ≡ master)
device_lem true x lt =
    let e =
      holds_below_at (λ n. device true n % 16 == n && (bit_and (device true n) 0x10 == 0)) 16
        (device_table true) x lt in
    (ground arith, ground arith)
device_lem false x lt =
    let e =
      holds_below_at (λ n. device false n % 16 == n && (bit_and (device false n) 0x10 == 0x10)) 16
        (device_table false) x lt in
    (ground arith, ground arith)

-- The byte of a place in a row of words.
abbrev pub byte_of : (ℕ → ℕ) → ℕ → ℕ
byte_of word j = if j % 2 == 0 then word (j / 2) % 256 else word (j / 2) / 256 % 256

byte_of-even : (word : ℕ → ℕ) (k : ℕ) → byte_of word (2 * k) ≡ word k % 256
byte_of-even word k =
    let half : 2 * k / 2 ≡ k = omega arith in rw (eq→== (2 * k % 2) 0 (omega arith), half) refl

byte_of-odd : (word : ℕ → ℕ) (k : ℕ) → byte_of word (2 * k + 1) ≡ word k / 256 % 256
byte_of-odd word k =
    let half : (2 * k + 1) / 2 ≡ k = omega arith in
    rw (ne→== ((2 * k + 1) % 2) 0 (omega arith), half) refl

pub read_words-outside :
    (word : ℕ → ℕ) (n k : ℕ) (bytes : ℕ → ℕ) (j : ℕ)
    → (j < 2 * k) ⊎ (2 * k + n ≤ j)
    → read_words word n k bytes j ≡ bytes j
unfolding read_words
read_words-outside word zero k bytes j out = refl
read_words-outside word (suc zero) k bytes j out = ground arith
read_words-outside word (suc (suc n)) k bytes j out =
    rw (read_words-outside word n (k + 1) _ j (ground arith)) (ground arith)

pub read_words-inside :
    (word : ℕ → ℕ) (n k : ℕ) (bytes : ℕ → ℕ) (j : ℕ)
    → 2 * k ≤ j
    → j < 2 * k + n
    → read_words word n k bytes j ≡ byte_of word j
unfolding read_words
read_words-inside word zero k bytes j low high = absurd (omega arith)
read_words-inside word (suc zero) k bytes j low high =
    let e : j ≡ 2 * k = omega arith in
    rw (e, byte_of-even word k) (update_self bytes (2 * k) (word k % 256))
read_words-inside word (suc (suc n)) k bytes j low high = elim (dec_lt j (2 * k + 2)) [
  | yes early ↦
      rw (read_words-outside word n (k + 1) _ j (inl (omega arith))) (elim (ℕ_discrete j (2 * k)) [
        | yes e ↦ rw (e, byte_of-even word k) (ground arith)
        | no ne ↦ let e : j ≡ 2 * k + 1 = omega arith in rw (e, byte_of-odd word k) (ground arith)
      ])
  | no late ↦ read_words-inside word n (k + 1) _ j (omega arith) (omega arith)
]

-- Registers but the data port keep their values while words are sent.
pub latest-fill_sector : (n p v : ℕ) → latest (suc p) (fill_sector n) v ≡ v
unfolding fill_sector
latest-fill_sector zero p v = refl
latest-fill_sector (suc n) p v =
    let kept : (if 0 == suc p then 0 else v) ≡ v = ground arith in
    ap (latest (suc p) (fill_sector n)) kept ∙ latest-fill_sector n p v

pub latest-send_words :
    (bytes : ℕ → ℕ) (n k p v : ℕ) (es : List DiskEvent)
    → latest (suc p) (send_words bytes n k ++ es) v ≡ latest (suc p) es v
unfolding send_words send_word
latest-send_words bytes zero k p v es = refl
latest-send_words bytes (suc zero) k p v es = rw (ne→== 0 (suc p) (omega arith)) refl
latest-send_words bytes (suc (suc n)) k p v es =
    rw (ne→== 0 (suc p) (omega arith)) (latest-send_words bytes n (k + 1) p v es)

-- A byte of a list of words.
abbrev pub byte_in : List ℕ → ℕ → ℕ
byte_in [] j = 0
byte_in (w ∷ ws) zero = w % 256
byte_in (w ∷ ws) (suc zero) = w / 256 % 256
byte_in (w ∷ ws) (suc (suc j)) = byte_in ws j

joined : (a b : ℕ) → a < 256 → b < 256 → bit_or a (b * 256) ≡ b * 256 + a
joined a b p q = bit_or_comm a (b * 256) ∙ bit_or_disjoint 8 b a p

module _ (bytes : ℕ → ℕ) (small : (j : ℕ) → bytes j < 256) where
  pub sent_bytes :
      (n k j : ℕ) (es : List DiskEvent)
      → j < n
      → byte_in (sent (send_words bytes n k ++ es)) j ≡ bytes (2 * k + j)
  unfolding send_words send_word
  sent_bytes zero k j es lt = absurd (omega arith)
  sent_bytes (suc zero) k zero es lt =
      let e : 2 * k + 0 ≡ 2 * k = omega arith in rw e (omega (arith, small (2 * k)))
  sent_bytes (suc zero) k (suc j) es lt = absurd (omega arith)
  sent_bytes (suc (suc n)) k zero es lt =
      let e : 2 * k + 0 ≡ 2 * k = omega arith in
      rw (e, joined (bytes (2 * k)) (bytes (2 * k + 1)) (small (2 * k)) (small (2 * k + 1)))
        (omega (arith, small (2 * k)))
  sent_bytes (suc (suc n)) k (suc zero) es lt =
      rw (joined (bytes (2 * k)) (bytes (2 * k + 1)) (small (2 * k)) (small (2 * k + 1)))
        (omega (arith, small (2 * k), small (2 * k + 1)))
  sent_bytes (suc (suc n)) k (suc (suc j)) es lt =
      sent_bytes n (k + 1) j es (omega arith) ∙ ap bytes (omega arith)

  pub length-sent :
      (n k m : ℕ) → length (sent (send_words bytes n k ++ fill_sector m)) ≡ rounds n + m
  unfolding send_words send_word rounds fill_sector
  length-sent zero k zero = refl
  length-sent zero k (suc m) = omega (arith, length-sent zero k m)
  length-sent (suc zero) k m = omega (arith, length-sent zero k m)
  length-sent (suc (suc n)) k m = omega (arith, length-sent n (k + 1) m)

  -- What follows the bytes is zero.
  pub sent_zero :
      (n k m j : ℕ) → n ≤ j → byte_in (sent (send_words bytes n k ++ fill_sector m)) j ≡ 0
  unfolding send_words send_word fill_sector
  sent_zero zero k zero j low = refl
  sent_zero zero k (suc m) zero low = refl
  sent_zero zero k (suc m) (suc zero) low = refl
  sent_zero zero k (suc m) (suc (suc j)) low = sent_zero zero k m j (omega arith)
  sent_zero (suc zero) k m zero low = absurd (omega arith)
  sent_zero (suc zero) k m (suc zero) low = omega (arith, small (2 * k))
  sent_zero (suc zero) k m (suc (suc j)) low = sent_zero zero k m j (omega arith)
  sent_zero (suc (suc n)) k m zero low = absurd (omega arith)
  sent_zero (suc (suc n)) k m (suc zero) low = absurd (omega arith)
  sent_zero (suc (suc n)) k m (suc (suc j)) low = sent_zero n (k + 1) m j (omega arith)

-- The bytes of a list of words are those of the words by their places.
pub byte_in-byte_of : (ws : List ℕ) (j : ℕ) → byte_of (λ i. get_or ws i 0) j ≡ byte_in ws j
byte_in-byte_of [] j = ground arith
byte_in-byte_of (w ∷ ws) zero = refl
byte_in-byte_of (w ∷ ws) (suc zero) = refl
byte_in-byte_of (w ∷ ws) (suc (suc j)) =
    let even : suc (suc j) % 2 ≡ j % 2 = omega arith in
    let half : suc (suc j) / 2 ≡ suc (j / 2) = omega arith in rw (even, half) (byte_in-byte_of ws j)

pub rounds_half : (n : ℕ) → rounds n ≡ (n + 1) / 2
unfolding rounds
rounds_half zero = refl
rounds_half (suc zero) = refl
rounds_half (suc (suc n)) = omega (arith, rounds_half n)

pub address_lem :
    (master : Bool) (sector command : ℕ) (es : List DiskEvent)
    → ((p v : ℕ) → latest (suc p) es v ≡ v)
    → sector < 0x10000000
    → (addressed (address master sector command ++ es) ≡ sector)
      × (selects_master (address master sector command ++ es) ≡ master)
      × (latest 2 (address master sector command ++ es) 0 ≡ 1)
      × (latest 7 (address master sector command ++ es) 0 ≡ command)
unfolding address
address_lem master sector command es kept fits =
    let (nibble, chosen) = device_lem master (sector / 16777216 % 16) (omega arith) in
    (
      rw
          (
            kept 2 (sector % 256),
            kept 3 (sector / 256 % 256),
            kept 4 (sector / 65536 % 256),
            kept 5 (device master (sector / 16777216 % 16)),
            nibble,
          )
          (omega arith),
      rw (kept 5 (device master (sector / 16777216 % 16))) chosen,
      kept 1 1,
      kept 6 command,
    )
