-- ===== src/Network/Arp/Exchange.antt =====
-- Two hosts that resolve an address, and what the cache keeps.
use sector_os.Base.{
  ℕ, zero, suc, ◌≡◌, ◌≤◌, ◌<◌, refl, ◌≢◌, true, false, none, some, List, [], ◌∷◌, ◌++◌, length,
  drop, arith, ne→==, eq→==, ap, ◌∙◌,
}
use sector_os.Network.Arp.{
  ArpMessage, bytes_of, message_of, Cache, cache_size, no_mac, get_mac_from_cache, is_for_us,
  reply_to, remember, on_arp_received, request_mac_address, poll, resolve,
}

-- The fields are as wide as their types.
pub record IsMessage (m : ArpMessage) : Type 0 where
  pub hardware_type_range : m.hardware_type < 65536
  pub protocol_range : m.protocol < 65536
  pub command_range : m.command < 65536
  pub src_mac_range : m.src_mac < 281474976710656
  pub src_ip_range : m.src_ip < 4294967296
  pub dst_mac_range : m.dst_mac < 281474976710656
  pub dst_ip_range : m.dst_ip < 4294967296

-- A message that is written and read back is the same.
pub message_of-bytes_of :
    (m : ArpMessage) (rest : List ℕ) → IsMessage m → message_of (bytes_of m ++ rest) ≡ m
unfolding message_of bytes_of
message_of-bytes_of m rest h = ground arith

drop-bytes_of : (m : ArpMessage) (rest : List ℕ) → drop 28 (bytes_of m ++ rest) ≡ rest
unfolding bytes_of
drop-bytes_of m rest = refl

-- A request is answered by the host that it asks for, whatever follows it in the frame.
request_answered :
    (mac ip mac' ip' size : ℕ) (rest : List ℕ) (cache : Cache)
    → mac < 281474976710656
    → ip < 4294967296
    → ip' < 4294967296
    → 28 ≤ size
    → on_arp_received mac' ip' (bytes_of (request_mac_address mac ip ip') ++ rest) size cache
      ≡ (true, bytes_of (reply_to mac' ip' (request_mac_address mac ip ip')) ++ rest, cache)
unfolding on_arp_received request_mac_address is_for_us
request_answered mac ip mac' ip' size rest cache hm hi hi' whole =
    let m = request_mac_address mac ip ip' in
    let valid : IsMessage m = omega arith in
    rw (message_of-bytes_of m rest valid, drop-bytes_of m rest) (ground arith)

reply_remembered :
    (mac ip mac' ip' size : ℕ) (rest : List ℕ) (cache : Cache)
    → mac < 281474976710656
    → mac' < 281474976710656
    → ip < 4294967296
    → ip' < 4294967296
    → 28 ≤ size
    → on_arp_received mac ip
        (bytes_of (reply_to mac' ip' (request_mac_address mac ip ip')) ++ rest)
        size
        cache
      ≡ (
        false,
        bytes_of (reply_to mac' ip' (request_mac_address mac ip ip')) ++ rest,
        remember (reply_to mac' ip' (request_mac_address mac ip ip')) cache,
      )
unfolding on_arp_received request_mac_address is_for_us reply_to
reply_remembered mac ip mac' ip' size rest cache hm hm' hi hi' whole =
    let m = reply_to mac' ip' (request_mac_address mac ip ip') in
    let valid : IsMessage m = omega arith in rw (message_of-bytes_of m rest valid) (ground arith)

-- No entry is for the address.
abbrev pub IsNew : ℕ → Cache → Type 0
IsNew ip [] = Unit {0}
IsNew ip ((ip', mac) ∷ rest) = (ip' ≢ ip) × IsNew ip rest

get_mac-IsNew : (cache : Cache) (ip : ℕ) → IsNew ip cache → get_mac_from_cache cache ip ≡ no_mac
unfolding get_mac_from_cache
get_mac-IsNew [] ip h = refl
get_mac-IsNew ((ip', mac) ∷ rest) ip h = rw (ne→== ip' ip h.0) (get_mac-IsNew rest ip h.1)

get_mac-append :
    (cache : Cache) (ip mac : ℕ)
    → IsNew ip cache
    → get_mac_from_cache (cache ++ (ip, mac) ∷ []) ip ≡ mac
unfolding get_mac_from_cache
get_mac-append [] ip mac h = rw (eq→== ip ip refl)
get_mac-append ((ip', mac') ∷ rest) ip mac h =
    rw (ne→== ip' ip h.0) (get_mac-append rest ip mac h.1)

poll_now :
    (fuel ip mac : ℕ) (caches : ℕ → Cache)
    → get_mac_from_cache (caches 0) ip ≡ mac
    → mac ≢ no_mac
    → poll (suc fuel) caches 0 ip ≡ some mac
unfolding poll
poll_now fuel ip mac caches e ne = rw (e, ne→== mac no_mac ne)

-- A host that has no entry for an address and room for one sends a request for it. The host with that
-- address answers the request and keeps its cache as it is; the answer puts the address into the
-- cache of the first host, which then resolves it at once, with no other request. The addresses are as
-- wide as their fields, the second host's MAC address is not the broadcast address, and what a frame
-- holds behind the message makes no difference.
pub resolve_exchange :
    (mac ip mac' ip' size fuel : ℕ) (rest : List ℕ) (cache cache' : Cache)
    → mac < 281474976710656
    → mac' < 281474976710655
    → ip < 4294967296
    → ip' < 4294967296
    → 28 ≤ size
    → IsNew ip' cache
    → length cache < cache_size
    → (request answer : ArpMessage) × (after : Cache) × ((resolve fuel mac ip (λ _. cache) ip').0
        ≡ request ∷ [])
      × (on_arp_received mac' ip' (bytes_of request ++ rest) size cache'
          ≡ (true, bytes_of answer ++ rest, cache'))
      × (on_arp_received mac ip (bytes_of answer ++ rest) size cache
          ≡ (false, bytes_of answer ++ rest, after))
      × (resolve (suc fuel) mac ip (λ _. after) ip' ≡ ([], some mac'))
unfolding resolve remember reply_to
resolve_exchange mac ip mac' ip' size fuel rest cache cache' hm hm' hi hi' whole new room =
    let request = request_mac_address mac ip ip' in
    let found = get_mac-append cache ip' mac' new in
    let other : mac' ≢ no_mac = omega arith in
    let kept : remember (reply_to mac' ip' request) cache ≡ cache ++ (ip', mac') ∷ [] =
      ground arith in
    (
      request,
      reply_to mac' ip' request,
      cache ++ (ip', mac') ∷ [],
      rw (get_mac-IsNew cache ip' new),
      request_answered mac ip mac' ip' size rest cache' hm hi hi' whole,
      rw kept at (reply_remembered mac ip mac' ip' size rest cache hm (omega arith) hi hi' whole),
      rw (
        poll_now fuel ip' mac' (λ _. cache ++ (ip', mac') ∷ []) found other,
        found,
        ne→== mac' no_mac other,
      ),
    )

on_arp_received_full :
    (mac ip size : ℕ) (payload : List ℕ) (cache : Cache)
    → cache_size ≤ length cache
    → (on_arp_received mac ip payload size cache).2 ≡ cache
unfolding on_arp_received remember
on_arp_received_full mac ip size payload cache full = ground arith

full_stays :
    (mac ip : ℕ) (frames : ℕ → List ℕ × ℕ) (caches : ℕ → Cache)
    → cache_size ≤ length (caches 0)
    → ((n : ℕ) → caches (suc n) ≡ (on_arp_received mac ip (frames n).0 (frames n).1 (caches n)).2)
    → (n : ℕ) → caches n ≡ caches 0
full_stays mac ip frames caches full steps zero = refl
full_stays mac ip frames caches full steps (suc n) =
    let same = full_stays mac ip frames caches full steps n in
    steps n ∙ on_arp_received_full mac ip (frames n).1 (frames n).0 (caches n) (rw same full) ∙ same

poll_never :
    (fuel i ip : ℕ) (caches : ℕ → Cache)
    → ((n : ℕ) → get_mac_from_cache (caches n) ip ≡ no_mac)
    → poll fuel caches i ip ≡ none
unfolding poll
poll_never zero i ip caches h = refl
poll_never (suc fuel) i ip caches h = rw (h i, poll_never fuel (suc i) ip caches h)

-- Once the cache is full, an address that it lacks is never resolved: whatever frames arrive, one
-- between each two rounds of the loop, it has not ended after any number of rounds.
pub resolve_never :
    (mac ip ip' fuel : ℕ) (frames : ℕ → List ℕ × ℕ) (caches : ℕ → Cache)
    → cache_size ≤ length (caches 0)
    → IsNew ip' (caches 0)
    → ((n : ℕ) → caches (suc n) ≡ (on_arp_received mac ip (frames n).0 (frames n).1 (caches n)).2)
    → (resolve fuel mac ip caches ip').1 ≡ none
unfolding resolve
resolve_never mac ip ip' fuel frames caches full new steps = poll_never fuel 0 ip' caches λ n.
    ap (λ (c : Cache). get_mac_from_cache c ip') (full_stays mac ip frames caches full steps n)
    ∙ get_mac-IsNew (caches 0) ip' new
