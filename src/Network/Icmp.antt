-- ===== src/Network/Icmp.antt =====
-- Network/ICMP.cpp. What is printed for a ping response is left out.
pub mod Echo
use sector_os.Base.{
  ℕ, Bool, true, false, Option, none, some, List, [], ◌∷◌, ◌++◌, take, drop, get_or, ltb, ◌==◌,
  if◌then◌else◌,
}
use sector_os.Network.ByteOrder.{le16, le32}
use sector_os.Network.Ip.{IpHandler, checksum_of}

abbrev pub icmp_size : ℕ
icmp_size = 8

-- The message of eight bytes behind its type, with a checksum over those eight.
unfoldable pub echo_reply : List ℕ → List ℕ
echo_reply p =
    let blank = 0 ∷ (get_or p 1 0 ∷ (0 ∷ (0 ∷ drop 4 p))) in
    take 2 blank ++ (le16 (checksum_of (take icmp_size blank)) ++ drop 4 blank)

-- `OnInternetProtocolReceived`
unfoldable pub on_icmp_received : {S : Type 0} → IpHandler S
on_icmp_received s src_ip dst_ip p size =
    if ltb size icmp_size
    then some (false, p, s)
    else if get_or p 0 0 == 8
    then some (true, echo_reply p, s)
    else some (false, p, s)

-- `RequestEchoReply`: the message that goes to the layer below.
unfoldable pub echo_request : List ℕ
echo_request =
    let back = le32 0x3713 in 8 ∷ (0 ∷ (le16 (checksum_of (8 ∷ (0 ∷ (0 ∷ (0 ∷ back))))) ++ back))
