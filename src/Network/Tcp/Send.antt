-- ===== src/Network/Tcp/Send.antt =====
-- `TransmissionControlProtocolProvider::Send`, with the segment as the bytes of the packed structs.
-- The allocation of the buffer is taken to succeed, as the source does.
use sector_os.Base.{
  ℕ, ◌+◌, none, some, List, ◌∷◌, ◌++◌, length, if◌then◌else◌, ◌==◌, u8, u16, u32, bit_and, take,
}
use sector_os.Network.ByteOrder.{swap16, big_endian32, le16, le32}
use sector_os.Network.Checksum.{checksum}
use sector_os.Network.Tcp.Socket.{Socket, Segment, syn}

-- The pseudo header: `srcIP`, `dstIP`, `protocol` and `totalLength`, 12 bytes.
unfoldable pub pseudo_header : Socket → ℕ → List ℕ
pseudo_header s total =
    le32 s.local_ip ++ (le32 s.remote_ip ++ (le16 0x0600 ++ le16 (swap16 total)))

-- The 16 bytes of the header in front of its checksum: ports, numbers, `headerSize32` in the high
-- half of a byte, flags and window.
unfoldable pub header_front : Socket → ℕ → List ℕ
header_front s flags =
    le16 s.local_port
    ++ (le16 s.remote_port
        ++ (le32 (big_endian32 s.sequence_number)
            ++ (le32 (big_endian32 s.acknowledgement_number) ++ (0x60 ∷ (u8 flags ∷ le16 0xFFFF)))))

-- The urgent pointer and the options behind it.
unfoldable pub header_back : ℕ → List ℕ
header_back flags = le16 0 ++ le32 (if bit_and flags syn == 0 then 0 else 0xB4050402)

-- The checksum, 0 while it is computed over the first `lengthInclPHdr` bytes of pseudo header,
-- header and data; that length and the segment's own are `uint16_t`. The fold of the sum does not
-- run out of fuel.
unfoldable pub segment_checksum : Socket → List ℕ → ℕ → ℕ
segment_checksum s bytes flags =
    let total = u16 (length bytes + 24) in
    elim (checksum (
      take (u16 (total + 12)) (
        pseudo_header s total ++ header_front s flags ++ 0 ∷ (0 ∷ (header_back flags ++ bytes))))) [
          | none ↦ 0
          | some c ↦ c
        ]

unfoldable pub segment : Socket → List ℕ → ℕ → Segment
segment s bytes flags = record {
  destination = s.remote_ip;
  bytes = take (u16 (length bytes + 24)) (
      header_front s flags
      ++ (le16 (segment_checksum s bytes flags) ++ (header_back flags ++ bytes)));
}

-- The sequence number grows by the size of the data once it is in the header.
unfoldable pub send : Socket → List ℕ → ℕ → Socket × Segment
send s bytes flags =
    (record s { sequence_number = u32 (s.sequence_number + length bytes) }, segment s bytes flags)
