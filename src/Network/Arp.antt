-- ===== src/Network/Arp.antt =====
-- Network/arp.cpp and Network/arp.h. The addresses of this host, which the card's driver knows, are
-- arguments; numbers are in the byte order of the wire.
pub mod Exchange
use sector_os.Base.{
  ℕ, zero, suc, ◌+◌, Bool, true, false, ◌&&◌, Option, none, some, List, [], ◌∷◌, ◌++◌, length, drop,
  get_or, ltb, ◌==◌, if◌then◌else◌,
}
use sector_os.Network.ByteOrder.{le16, le32, le48, get16, get32, get48}

-- `AddressResolutionProtocolMessage`
pub record ArpMessage : Type 0 where
  pub hardware_type : ℕ
  pub protocol : ℕ
  pub hardware_address_size : ℕ
  pub protocol_address_size : ℕ
  pub command : ℕ
  pub src_mac : ℕ
  pub src_ip : ℕ
  pub dst_mac : ℕ
  pub dst_ip : ℕ

abbrev pub message_size : ℕ
message_size = 28

-- The packed struct in memory, and a buffer read as one.
unfoldable pub bytes_of : ArpMessage → List ℕ
bytes_of m =
    le16 m.hardware_type
    ++ (le16 m.protocol
        ++ (m.hardware_address_size
            ∷ (m.protocol_address_size
                ∷ (le16 m.command
                    ++ (le48 m.src_mac ++ (le32 m.src_ip ++ (le48 m.dst_mac ++ le32 m.dst_ip)))))))

unfoldable pub message_of : List ℕ → ArpMessage
message_of p = record {
  hardware_type = get16 p 0;
  protocol = get16 p 2;
  hardware_address_size = get_or p 4 0;
  protocol_address_size = get_or p 5 0;
  command = get16 p 6;
  src_mac = get48 p 8;
  src_ip = get32 p 14;
  dst_mac = get48 p 18;
  dst_ip = get32 p 24;
}

-- `IPcache` and `MACcache`, in the order of the indices; `numCacheEntries` is the length.
abbrev pub Cache : Type 0
Cache = List (ℕ × ℕ)

abbrev pub cache_size : ℕ
cache_size = 128

abbrev pub no_mac : ℕ
no_mac = 0xFFFFFFFFFFFF

unfoldable pub get_mac_from_cache : Cache → ℕ → ℕ
get_mac_from_cache [] ip = no_mac
get_mac_from_cache ((ip', mac) ∷ rest) ip = if ip' == ip then mac else get_mac_from_cache rest ip

-- The tests around the `switch`.
unfoldable pub is_for_us : ℕ → ArpMessage → Bool
is_for_us own_ip m =
    m.hardware_type == 0x0100
    && m.protocol == 0x0008
    && m.hardware_address_size == 6
    && m.protocol_address_size == 4
    && m.dst_ip == own_ip

-- The case of a request: the message turned into its answer.
unfoldable pub reply_to : ℕ → ℕ → ArpMessage → ArpMessage
reply_to own_mac own_ip m = record m {
  command = 0x0200;
  dst_ip = m.src_ip;
  dst_mac = m.src_mac;
  src_ip = own_ip;
  src_mac = own_mac;
}

-- The case of an answer.
unfoldable pub remember : ArpMessage → Cache → Cache
remember m cache =
    if ltb (length cache) cache_size then cache ++ (m.src_ip, m.src_mac) ∷ [] else cache

-- `OnEtherFrameReceived`: whether the buffer is to be sent back, the buffer, and the cache.
unfoldable pub on_arp_received : ℕ → ℕ → List ℕ → ℕ → Cache → Bool × List ℕ × Cache
on_arp_received own_mac own_ip payload size cache =
    let m = message_of payload in
    if ltb size message_size
    then (false, payload, cache)
    else if is_for_us own_ip m && m.command == 0x0100
    then (true, bytes_of (reply_to own_mac own_ip m) ++ drop message_size payload, cache)
    else if is_for_us own_ip m && m.command == 0x0200
    then (false, payload, remember m cache)
    else (false, payload, cache)

-- `RequestMACAddress` and `BroadcastMACAddress`, by the message that they send; it goes to the MAC
-- address in it.
unfoldable pub request_mac_address : ℕ → ℕ → ℕ → ArpMessage
request_mac_address own_mac own_ip ip = record {
  hardware_type = 0x0100;
  protocol = 0x0008;
  hardware_address_size = 6;
  protocol_address_size = 4;
  command = 0x0100;
  src_mac = own_mac;
  src_ip = own_ip;
  dst_mac = no_mac;
  dst_ip = ip;
}

unfoldable pub broadcast_mac_address : ℕ → ℕ → ℕ → ℕ → ArpMessage
unfolding request_mac_address
broadcast_mac_address own_mac own_ip ip resolved = record (request_mac_address own_mac own_ip ip) {
  command = 0x0200;
  dst_mac = resolved;
}

-- `while (result == 0xFFFFFFFFFFFF) result = GetMACFromCache(IP_BE);` over the caches that its rounds
-- find, which an interrupt may have changed; on fuel.
unfoldable pub poll : ℕ → (ℕ → Cache) → ℕ → ℕ → Option ℕ
poll zero caches i ip = none
poll (suc fuel) caches i ip =
    let rest = poll fuel caches (suc i) ip in
    let result = get_mac_from_cache (caches i) ip in if result == no_mac then rest else some result

-- `Resolve`: the request that goes out, if any, and the address that is found.
unfoldable pub resolve : ℕ → ℕ → ℕ → (ℕ → Cache) → ℕ → List ArpMessage × Option ℕ
resolve fuel own_mac own_ip caches ip = (
  if get_mac_from_cache (caches 0) ip == no_mac
      then request_mac_address own_mac own_ip ip ∷ []
      else [],
  poll fuel caches 0 ip,
)
