-- ===== src/Network/Ip.antt =====
-- Network/InternetProtocolV4.cpp but for its checksum. A handler overrides the virtual
-- `OnInternetProtocolReceived`: a function of the shared state, the two addresses, the payload and
-- its size. `none` is a fault of the handler, an access outside the array of 255 handlers, or an
-- address that is never resolved.
pub mod Receive
use sector_os.Base.{
  ℕ, ◌+◌, ◌-◌, ◌*◌, ◌%◌, Bool, true, false, Option, none, some, ◌>>=◌, List, [], ◌∷◌, ◌++◌, length,
  take, drop, get_or, ltb, ◌==◌, if◌then◌else◌, u8, u16, u32, sub32, update, bit_and,
}
use sector_os.Network.ByteOrder.{swap16, le16, le32, get16, get32}
use sector_os.Network.Checksum.{checksum}

abbrev pub IpHandler : Type 0 → Type 0
IpHandler S = S → ℕ → ℕ → List ℕ → ℕ → Option (Bool × List ℕ × S)

abbrev pub IpHandlers : Type 0 → Type 0
IpHandlers S = ℕ → Option (IpHandler S)

abbrev pub ip_header_size : ℕ
ip_header_size = 20

-- `4 * headerLength`
unfoldable pub header_bytes : List ℕ → ℕ
header_bytes p = 4 * (get_or p 0 0 % 16)

-- `int length = ipmessage->totalLength; if (length > size) length = size;`, with the two bytes of
-- the field in the order of this machine.
unfoldable pub packet_length : List ℕ → ℕ → ℕ
packet_length p size = if ltb size (get16 p 2) then size else get16 p 2

-- A packet that is sent back: the addresses exchanged, a fresh time to live, no checksum.
unfoldable pub turned : List ℕ → List ℕ
turned p =
    take 8 p
    ++ (0x40 ∷ (get_or p 9 0 ∷ (0 ∷ (0 ∷ (le32 (get32 p 16) ++ (le32 (get32 p 12) ++ drop 20 p))))))

-- The loops of the checksum end.
unfoldable pub checksum_of : List ℕ → ℕ
checksum_of p = elim (checksum p) [ none ↦ 0 | some c ↦ c ]

unfoldable pub with_checksum : ℕ → List ℕ → List ℕ
with_checksum n p = take 10 p ++ (le16 (checksum_of (take n p)) ++ drop 12 p)

unfoldable pub send_packet_back : Bool → List ℕ → List ℕ
send_packet_back send_back p = if send_back then with_checksum (header_bytes p) (turned p) else p

unfoldable pub call_ip_handler :
    {S : Type 0} → List ℕ → ℕ → S → Option (IpHandler S) → Option (Bool × List ℕ × S)
call_ip_handler p size s none = some (false, p, s)
call_ip_handler p size s (some h) = do
  let n = header_bytes p
  (send_back, payload, s') ←
      h s (get32 p 12) (get32 p 16) (drop n p) (sub32 (packet_length p size) n)
  some (send_back, send_packet_back send_back (take n p ++ payload), s')

-- `OnEtherFrameReceived`
unfoldable pub on_packet_received :
    {S : Type 0} → ℕ → IpHandlers S → S → List ℕ → ℕ → Option (Bool × List ℕ × S)
on_packet_received own_ip handlers s p size =
    if ltb size ip_header_size
    then some (false, p, s)
    else if get32 p 16 == own_ip
    then (if ltb (get_or p 9 0) 255
        then call_ip_handler p size s (handlers (get_or p 9 0))
        else none)
    else some (false, p, s)

-- The header that `Send` fills in, around its checksum.
unfoldable pub ip_front : ℕ → ℕ → List ℕ
ip_front protocol size =
    0x45
    ∷ (0
        ∷ (le16 (swap16 (u16 (size + ip_header_size)))
            ++ (le16 0x0100 ++ (le16 0x0040 ++ (0x40 ∷ (u8 protocol ∷ []))))))

unfoldable pub ip_back : ℕ → ℕ → List ℕ
ip_back own_ip dst_ip = le32 own_ip ++ le32 dst_ip

unfoldable pub packet : ℕ → ℕ → ℕ → List ℕ → List ℕ
packet own_ip dst_ip protocol bytes =
    let front = ip_front protocol (length bytes) in
    let back = ip_back own_ip dst_ip in
    front ++ (le16 (checksum_of (front ++ (0 ∷ (0 ∷ back)))) ++ (back ++ bytes))

-- The address that the frame goes to: the gateway's for a host outside the subnet.
unfoldable pub route : ℕ → ℕ → ℕ → ℕ → ℕ
route own_ip gateway_ip subnet_mask dst_ip =
    if bit_and dst_ip subnet_mask == bit_and own_ip subnet_mask then dst_ip else gateway_ip

-- `Send`: the MAC address and the packet that go to the layer below. `resolve` is the call of the
-- address resolution.
unfoldable pub send_packet : ℕ → ℕ → ℕ → (ℕ → Option ℕ) → ℕ → ℕ → List ℕ → Option (ℕ × List ℕ)
send_packet own_ip gateway_ip subnet_mask resolve dst_ip protocol bytes = do
  mac ← resolve (route own_ip gateway_ip subnet_mask dst_ip)
  some (mac, packet own_ip dst_ip protocol bytes)
