-- ===== src/Network/Tcp/Wire.antt =====
-- The bytes that `Send` puts on the wire.
use sector_os.Base.{
  sym, ap, ◌∙◌, [], ◌/◌, ◌%◌, ◌<◌, ℕ, ◌+◌, ◌≡◌, ◌≤◌, refl, some, List, ◌∷◌, ◌++◌, length, arith,
  u16, take_all, length-append,
}
use mathlib.Core.List.{append_assoc}
use sector_os.Network.ByteOrder.{swap16, swap16_sum, le16, le32}
use sector_os.Network.Checksum.{checksum}
use sector_os.Network.Checksum.Verify.{IsWords, checksum_verifies}
use sector_os.Network.Tcp.Socket.{Socket}
use sector_os.Network.Tcp.Send.{pseudo_header, header_front, header_back, segment_checksum, segment}

front-IsWords :
    (s : Socket) (total flags : ℕ) → IsWords (pseudo_header s total ++ header_front s flags)
unfolding pseudo_header header_front
front-IsWords s total flags = omega arith

back-IsWords : (flags : ℕ) (bytes : List ℕ) → IsWords bytes → IsWords (header_back flags ++ bytes)
unfolding header_back
back-IsWords flags bytes h =
    (omega arith, omega arith, (omega arith, omega arith, (omega arith, omega arith, h)))

front-length :
    (s : Socket) (total flags : ℕ) → length (pseudo_header s total ++ header_front s flags) ≡ 28
unfolding pseudo_header header_front
front-length s total flags = refl

back-length : (flags : ℕ) (bytes : List ℕ) → length (header_back flags ++ bytes) ≡ 6 + length bytes
unfolding header_back
back-length flags bytes = omega arith

segment_checksum_of :
    (s : Socket) (bytes : List ℕ) (flags c : ℕ)
    → length bytes ≤ 65498
    → checksum (
        pseudo_header s (u16 (length bytes + 24))
        ++ header_front s flags
        ++ 0 ∷ (0 ∷ (header_back flags ++ bytes)))
      ≡ some c
    → segment_checksum s bytes flags ≡ c
unfolding segment_checksum
segment_checksum_of s bytes flags c small e =
    let total = u16 (length bytes + 24) in
    let front = pseudo_header s total ++ header_front s flags in
    let packet = front ++ 0 ∷ (0 ∷ (header_back flags ++ bytes)) in
    let whole : length packet ≤ u16 (total + 12) = omega (
      arith,
      length-append front (0 ∷ (0 ∷ (header_back flags ++ bytes))),
      front-length s total flags,
      back-length flags bytes,
    ) in
    rw (segment_checksum, take_all (u16 (total + 12)) packet whole, e)

-- The pseudo header as the receiver of a segment of `n` bytes makes it: the addresses, a zero, the
-- protocol 6 and the length, in the byte order of the network.
abbrev pub receiver_header : Socket → ℕ → List ℕ
receiver_header s n =
    le32 s.local_ip ++ (le32 s.remote_ip ++ (0 ∷ (6 ∷ (n / 256 ∷ (n % 256 ∷ [])))))

same_header : (s : Socket) (n : ℕ) → n < 65536 → pseudo_header s n ≡ receiver_header s n
unfolding pseudo_header
same_header s n small =
    let high : swap16 n % 256 ≡ n / 256 = omega (arith, swap16_sum n) in
    let low : swap16 n / 256 % 256 ≡ n % 256 = omega (arith, swap16_sum n) in rw (high, low) refl

-- The segment that `Send` builds of data of an even number of bytes, at most 65498, is 24 bytes longer
-- than the data. Behind the pseudo header that its receiver makes for TCP, from the addresses and the
-- length of the segment, it sums to a checksum of zero.
pub segment_verifies :
    (s : Socket) (bytes : List ℕ) (flags : ℕ)
    → IsWords bytes
    → length bytes ≤ 65498
    → (length (segment s bytes flags).bytes ≡ length bytes + 24)
      × (checksum (receiver_header s (length bytes + 24) ++ (segment s bytes flags).bytes) ≡ some 0)
unfolding segment header_front
segment_verifies s bytes flags h small =
    let total = u16 (length bytes + 24) in
    let front = pseudo_header s total ++ header_front s flags in
    let back = header_back flags ++ bytes in
    let (c, e, v) =
      checksum_verifies front back (front-IsWords s total flags) (back-IsWords flags bytes h)
        (omega (arith, front-length s total flags, back-length flags bytes)) in
    let same = segment_checksum_of s bytes flags c small e in
    let n : length (header_front s flags ++ (le16 c ++ back)) ≡ length bytes + 24 = omega (
      arith,
      length-append (header_front s flags) (le16 c ++ back),
      length-append (pseudo_header s total) (header_front s flags),
      front-length s total flags,
      back-length flags bytes,
    ) in
    let whole : length (header_front s flags ++ (le16 c ++ back)) ≤ total = omega (arith, n) in
    let exact : total ≡ length bytes + 24 = omega arith in
    let cut = take_all total (header_front s flags ++ (le16 c ++ back)) whole in
    let summed : checksum (pseudo_header s total ++ (header_front s flags ++ (le16 c ++ back)))
        ≡ some 0 =
      rw append_assoc at v in
    let headed : pseudo_header s total ≡ receiver_header s (length bytes + 24) =
      same_header s total (omega arith) ∙ ap (receiver_header s) exact in
    (
      rw (same, cut) n,
      rw (same, cut)
          (ap (λ (l : List ℕ). checksum (l ++ (header_front s flags ++ (le16 c ++ back))))
              (sym headed)
            ∙ summed),
    )
