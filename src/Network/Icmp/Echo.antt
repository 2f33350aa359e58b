-- ===== src/Network/Icmp/Echo.antt =====
-- A ping through the layers.
use sector_os.Base.{
  ℕ, ◌-◌, ◌≡◌, ◌≤◌, ◌<◌, refl, true, some, ◌>>=◌, List, [], ◌∷◌, ◌++◌, take, drop, ◌==◌, arith,
  sub32, ge→ltb, eq→==, Bool-cases, inl, inr,
}
use sector_os.Network.ByteOrder.{le16, le32, le48, get16, get32, get48}
use sector_os.Network.Checksum.{checksum}
use sector_os.Network.Checksum.Verify.{IsWords}
use sector_os.Network.Ip.Receive.{checksum_of-verifies}
use sector_os.Network.Ethernet.{
  EtherHandler, EtherHandlers, broadcast, call_ether_handler, turn, on_raw_data_received,
}
use sector_os.Network.Ip.{
  IpHandlers, header_bytes, packet_length, turned, checksum_of, with_checksum, send_packet_back,
  call_ip_handler, on_packet_received,
}
use sector_os.Network.Icmp.{echo_reply, on_icmp_received}

module _ {S : Type 0} (s : S) where
  echo_answered :
      (code k0 k1 d0 d1 d2 d3 src dst size : ℕ) (rest : List ℕ)
      → 8 ≤ size
      → on_icmp_received s src dst
          (8 ∷ (code ∷ (k0 ∷ (k1 ∷ (d0 ∷ (d1 ∷ (d2 ∷ (d3 ∷ rest))))))))
          size
        ≡ some (
          true,
          0
              ∷ (code
                  ∷ (le16 (checksum_of (0 ∷ (code ∷ (0 ∷ (0 ∷ (d0 ∷ (d1 ∷ (d2 ∷ (d3 ∷ [])))))))))
                      ++ (d0 ∷ (d1 ∷ (d2 ∷ (d3 ∷ rest)))))),
          s,
        )
  unfolding on_icmp_received echo_reply
  echo_answered code k0 k1 d0 d1 d2 d3 src dst size rest h = ground arith

-- A header without options, around its addresses; `sum` are the two bytes of its checksum.
abbrev pub ip_header : List ℕ → ℕ → List ℕ → ℕ → ℕ → List ℕ
ip_header fields ttl sum src dst = 0x45 ∷ (fields ++ (ttl ∷ (1 ∷ (sum ++ (le32 src ++ le32 dst)))))

-- The second to the eighth byte of a header, for a packet of `l` bytes.
abbrev pub fields : ℕ → ℕ → ℕ → ℕ → ℕ → ℕ → List ℕ
fields tos l i0 i1 f0 f1 = tos ∷ (0 ∷ (l ∷ (i0 ∷ (i1 ∷ (f0 ∷ (f1 ∷ []))))))

abbrev pub echo_message : ℕ → ℕ → List ℕ → List ℕ → List ℕ
echo_message type code sum body = type ∷ (code ∷ (sum ++ body))

module _ {S : Type 0} (s : S) (handlers : IpHandlers S)
    (ping_handler : handlers 1 ≡ some on_icmp_received)
    (tos l i0 i1 f0 f1 ttl c0 c1 code k0 k1 d0 d1 d2 d3 src own_ip : ℕ) (rest : List ℕ)
    (whole : 28 ≤ l) (short : l < 256) (src_range : src < 4294967296)
    (ip_range : own_ip < 4294967296) where
  packet_answered :
      (size : ℕ)
      → 28 ≤ size
      → on_packet_received own_ip handlers s
          (ip_header (fields tos l i0 i1 f0 f1) ttl (c0 ∷ (c1 ∷ [])) src own_ip
            ++ (echo_message 8 code (k0 ∷ (k1 ∷ [])) (d0 ∷ (d1 ∷ (d2 ∷ (d3 ∷ [])))) ++ rest))
          size
        ≡ some (
          true,
          ip_header
                (fields tos l i0 i1 f0 f1)
                0x40
                (le16 (
                  checksum_of
                    (ip_header (fields tos l i0 i1 f0 f1) 0x40 (0 ∷ (0 ∷ [])) own_ip src)))
                own_ip
                src
              ++ (echo_message 0 code
                    (le16 (
                      checksum_of
                        (echo_message 0 code (0 ∷ (0 ∷ [])) (d0 ∷ (d1 ∷ (d2 ∷ (d3 ∷ [])))))))
                    (d0 ∷ (d1 ∷ (d2 ∷ (d3 ∷ []))))
                  ++ rest),
          s,
        )
  unfolding on_packet_received call_ip_handler send_packet_back with_checksum turned header_bytes
      packet_length
  packet_answered size h =
      let p =
        ip_header (fields tos l i0 i1 f0 f1) ttl (c0 ∷ (c1 ∷ [])) src own_ip
        ++ (echo_message 8 code (k0 ∷ (k1 ∷ [])) (d0 ∷ (d1 ∷ (d2 ∷ (d3 ∷ [])))) ++ rest) in
      let to_us : get32 p 16 ≡ own_ip = omega arith in
      let from : get32 p 12 ≡ src = omega arith in
      let long : 8 ≤ sub32 (packet_length p size) 20 = ground arith in
      let answered =
        echo_answered s code k0 k1 d0 d1 d2 d3 src own_ip (sub32 (packet_length p size) 20) rest
          long in
      let called : call_ip_handler p size s (some on_icmp_received) ≡ (
          on_icmp_received s (get32 p 12) (get32 p 16) (drop 20 p) (sub32 (packet_length p size) 20)
          >>= λ (b, q, t). some (b, send_packet_back b (take 20 p ++ q), t)) =
        refl in
      rw
        (
          ge→ltb size 20 (omega arith),
          to_us,
          eq→== own_ip own_ip refl,
          ping_handler,
          called,
          to_us,
          from,
          answered,
        )
        refl

frame_answered :
    {S : Type 0} (s : S) (ethers : EtherHandlers S) (h : EtherHandler S) (mac peer size : ℕ)
    (p q : List ℕ)
    → ethers 8 ≡ some h
    → mac < 281474976710656
    → peer < 281474976710656
    → 14 ≤ size
    → h s p (size - 14) ≡ some (true, q, s)
    → on_raw_data_received mac ethers (le48 mac ++ (le48 peer ++ (le16 8 ++ p))) size s
      ≡ some (true, le48 peer ++ (le48 mac ++ (le16 8 ++ q)), s)
unfolding on_raw_data_received call_ether_handler turn
frame_answered s ethers h mac peer size p q there hm hp whole answered =
    let frame = le48 mac ++ (le48 peer ++ (le16 8 ++ p)) in
    let to_us : get48 frame 0 ≡ mac = omega arith in
    let typed : get16 frame 12 ≡ 8 = omega arith in
    elim (Bool-cases (mac == broadcast)) [
      | inl e ↦ rw (ge→ltb size 14 whole, to_us, e, typed, there, answered) refl
      | inr e ↦ rw (ge→ltb size 14 whole, to_us, e, eq→== mac mac refl, typed, there, answered) refl
    ]

-- A host answers a ping. The frame goes to its MAC address and holds an IP packet without options of
-- 28 to 255 bytes to its IP address, with an echo request; the handlers of the two protocols are in
-- place. The same frame goes back with the MAC addresses and the IP addresses exchanged, as an echo
-- reply with the same data. The header and the first eight bytes of the reply each sum to a checksum
-- of zero, and any data behind the eight bytes is in neither sum. No other state changes.
pub ping :
    {S : Type 0} (s : S) (ethers : EtherHandlers S) (handlers : IpHandlers S)
    (mac peer own_ip src size tos l i0 i1 f0 f1 ttl c0 c1 code k0 k1 d0 d1 d2 d3 : ℕ)
    (rest : List ℕ)
    → ethers 8 ≡ some (on_packet_received own_ip handlers)
    → handlers 1 ≡ some on_icmp_received
    → mac < 281474976710656
    → peer < 281474976710656
    → own_ip < 4294967296
    → src < 4294967296
    → IsWords (tos ∷ (i0 ∷ (i1 ∷ (f0 ∷ (f1 ∷ (code ∷ (d0 ∷ (d1 ∷ (d2 ∷ (d3 ∷ []))))))))))
    → 28 ≤ l
    → l < 256
    → 42 ≤ size
    → (sum sum' : List ℕ) × (on_raw_data_received mac ethers
          (le48 mac
            ++ (le48 peer
                ++ (le16 8
                    ++ (ip_header (fields tos l i0 i1 f0 f1) ttl (c0 ∷ (c1 ∷ [])) src own_ip
                        ++ (echo_message 8 code (k0 ∷ (k1 ∷ [])) (d0 ∷ (d1 ∷ (d2 ∷ (d3 ∷ []))))
                            ++ rest)))))
          size
          s
        ≡ some (
          true,
          le48 peer
              ++ (le48 mac
                  ++ (le16 8
                      ++ (ip_header (fields tos l i0 i1 f0 f1) 0x40 sum own_ip src
                          ++ (echo_message 0 code sum' (d0 ∷ (d1 ∷ (d2 ∷ (d3 ∷ [])))) ++ rest)))),
          s,
        ))
      × (checksum (ip_header (fields tos l i0 i1 f0 f1) 0x40 sum own_ip src) ≡ some 0)
      × (checksum (echo_message 0 code sum' (d0 ∷ (d1 ∷ (d2 ∷ (d3 ∷ []))))) ≡ some 0)
ping s ethers handlers mac peer own_ip src size tos l i0 i1 f0 f1 ttl c0 c1 code k0 k1 d0 d1 d2 d3
      rest ether_there icmp_there hm hp hi hs bytes low high whole =
    let body = d0 ∷ (d1 ∷ (d2 ∷ (d3 ∷ []))) in
    let front = 0x45 ∷ (fields tos l i0 i1 f0 f1 ++ (0x40 ∷ (1 ∷ []))) in
    let sum =
      le16 (checksum_of (ip_header (fields tos l i0 i1 f0 f1) 0x40 (0 ∷ (0 ∷ [])) own_ip src)) in
    let sum' = le16 (checksum_of (echo_message 0 code (0 ∷ (0 ∷ [])) body)) in
    let inner =
      packet_answered s handlers icmp_there tos l i0 i1 f0 f1 ttl c0 c1 code k0 k1 d0 d1 d2 d3 src
        own_ip rest low high hs hi (size - 14) (omega arith) in
    (
      sum,
      sum',
      frame_answered s ethers (on_packet_received own_ip handlers) mac peer size _ _ ether_there hm
          hp (omega arith) inner,
      checksum_of-verifies front (le32 own_ip ++ le32 src) (omega arith) (omega arith)
          (omega arith),
      checksum_of-verifies (0 ∷ (code ∷ [])) body (omega arith) (omega arith) (omega arith),
    )
