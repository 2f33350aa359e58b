-- ===== src/Network/LayerTests.antt =====
-- The layers below TCP, and UDP, at concrete inputs.
use sector_os.Base.{
  ℕ, ◌≡◌, ◌+◌, ◌-◌, refl, true, false, none, some, List, [], ◌∷◌, ◌++◌, take, arith, update,
}
use sector_os.Network.ByteOrder.{le16, le48, swap16}
use sector_os.Network.Checksum.{checksum}
use sector_os.Network.Ethernet.{EtherHandlers, add_handler, on_raw_data_received}
use sector_os.Network.Ip.{IpHandler, IpHandlers, on_packet_received, packet}
use sector_os.Network.Ip.Receive.{handled, packet_delivered, packet_wraps}
use sector_os.Network.Icmp.{on_icmp_received}
use sector_os.Network.Icmp.Echo.{fields, ip_header, echo_message, ping}
use sector_os.Network.Arp.{ArpMessage, Cache, on_arp_received, bytes_of, resolve}
use sector_os.Network.Arp.Exchange.{resolve_exchange, resolve_never}
use sector_os.Network.Udp.{UdpSocket, UdpProvider, Delivered, udp_handler, is_open, is_connected}
use sector_os.Network.Udp.Delivery.{taken}
use sector_os.Network.Udp.Conversation.{arrives, takes_in, conversation}

abbrev our_ip : ℕ
our_ip = 0x0f02000a

abbrev our_mac : ℕ
our_mac = 0x563412005452

abbrev peer_ip : ℕ
peer_ip = 0x0202000a

abbrev peer_mac : ℕ
peer_mac = 0x020200005452

abbrev ip_handlers : IpHandlers ℕ
ip_handlers = update (λ _. none) 1 (some on_icmp_received)

abbrev ether_handlers : EtherHandlers ℕ
ether_handlers = add_handler 0x0800 (on_packet_received our_ip ip_handlers) (λ _. none)

ether_handlers_ip : ether_handlers 8 ≡ some (on_packet_received our_ip ip_handlers)
unfolding add_handler swap16
ether_handlers_ip = refl

ping_example :
    (sum sum' : List ℕ) × (on_raw_data_received our_mac ether_handlers
        (le48 our_mac
          ++ (le48 peer_mac
              ++ (le16 8
                  ++ (ip_header (fields 0 28 1 0 64 0) 64 (9 ∷ (9 ∷ [])) peer_ip our_ip
                      ++ (echo_message 8 0 (7 ∷ (7 ∷ [])) (1 ∷ (2 ∷ (3 ∷ (4 ∷ [])))) ++ [])))))
        42
        5
      ≡ some (
        true,
        le48 peer_mac
            ++ (le48 our_mac
                ++ (le16 8
                    ++ (ip_header (fields 0 28 1 0 64 0) 0x40 sum our_ip peer_ip
                        ++ (echo_message 0 0 sum' (1 ∷ (2 ∷ (3 ∷ (4 ∷ [])))) ++ [])))),
        5,
      ))
    × (checksum (ip_header (fields 0 28 1 0 64 0) 0x40 sum our_ip peer_ip) ≡ some 0)
    × (checksum (echo_message 0 0 sum' (1 ∷ (2 ∷ (3 ∷ (4 ∷ []))))) ≡ some 0)
ping_example =
    ping 5 ether_handlers ip_handlers our_mac peer_mac our_ip peer_ip 42 0 28 1 0 64 0 64 9 9 0 7 7
      1 2 3 4 [] ether_handlers_ip refl (omega arith) (omega arith) (omega arith) (omega arith)
      (omega arith) (omega arith) (omega arith) (omega arith)

-- A handler that takes every packet.
abbrev taking : IpHandler ℕ
taking s src_ip dst_ip p size = some (false, p, s)

abbrev taking_handlers : IpHandlers ℕ
taking_handlers = update (λ _. none) 17 (some taking)

packet_delivered_example :
    on_packet_received peer_ip taking_handlers 5
      (packet our_ip peer_ip 17 (1 ∷ (2 ∷ [])) ++ (0 ∷ []))
      23
    ≡ handled taking 5 our_ip peer_ip
        (take 20 (packet our_ip peer_ip 17 (1 ∷ (2 ∷ []))))
        ((1 ∷ (2 ∷ [])) ++ (0 ∷ []))
        (23 - 20)
packet_delivered_example =
    packet_delivered 5 taking_handlers taking our_ip peer_ip 17 (1 ∷ (2 ∷ [])) (0 ∷ []) refl
      (omega arith) (omega arith) (omega arith) (omega arith) 23 (omega arith) (omega arith)
      (omega arith)

abbrev four_zeros : List ℕ
four_zeros = 0 ∷ (0 ∷ (0 ∷ (0 ∷ [])))

-- 236 bytes: a packet of 256.
abbrev twenty : List ℕ
twenty = four_zeros ++ (four_zeros ++ (four_zeros ++ (four_zeros ++ four_zeros)))

abbrev many_zeros : List ℕ
many_zeros =
    twenty
    ++ (twenty
        ++ (twenty
            ++ (twenty
                ++ (twenty
                    ++ (twenty
                        ++ (twenty
                            ++ (twenty
                                ++ (twenty
                                    ++ (twenty
                                        ++ (twenty
                                            ++ (four_zeros
                                                ++ (four_zeros
                                                    ++ (four_zeros ++ four_zeros)))))))))))))

packet_wraps_example :
    on_packet_received peer_ip taking_handlers 5 (packet our_ip peer_ip 17 many_zeros ++ []) 256
    ≡ handled taking 5 our_ip peer_ip
        (take 20 (packet our_ip peer_ip 17 many_zeros))
        (many_zeros ++ [])
        (4294967276 + 1)
packet_wraps_example =
    packet_wraps 5 taking_handlers taking our_ip peer_ip 17 many_zeros [] refl (omega arith)
      (omega arith) (omega arith) (omega arith) 256 1 refl (omega arith) (omega arith)

resolve_exchange_example :
    (request answer : ArpMessage) × (after : Cache) × ((resolve 0 our_mac our_ip
        (λ _. [])
        peer_ip).0
      ≡ request ∷ [])
    × (on_arp_received peer_mac peer_ip (bytes_of request ++ (0 ∷ [])) 29 []
        ≡ (true, bytes_of answer ++ (0 ∷ []), []))
    × (on_arp_received our_mac our_ip (bytes_of answer ++ (0 ∷ [])) 29 []
        ≡ (false, bytes_of answer ++ (0 ∷ []), after))
    × (resolve 1 our_mac our_ip (λ _. after) peer_ip ≡ ([], some peer_mac))
resolve_exchange_example =
    resolve_exchange our_mac our_ip peer_mac peer_ip 29 0 (0 ∷ []) [] [] (omega arith) (omega arith)
      (omega arith) (omega arith) (omega arith) tt (omega arith)

abbrev eight : Cache → Cache
eight c = (1, 7) ∷ ((1, 7) ∷ ((1, 7) ∷ ((1, 7) ∷ ((1, 7) ∷ ((1, 7) ∷ ((1, 7) ∷ ((1, 7) ∷ c)))))))

-- A full cache, all of whose entries are for one address.
abbrev full : Cache
full = eight (
    eight (
      eight (
        eight (
          eight (
            eight (
              eight (eight (eight (eight (eight (eight (eight (eight (eight (eight [])))))))))))))))

resolve_never_example : (resolve 1000 our_mac our_ip (λ _. full) peer_ip).1 ≡ none
unfolding on_arp_received
resolve_never_example =
    resolve_never our_mac our_ip peer_ip 1000 (λ n. ([], 0)) (λ _. full) (omega arith) (omega arith)
      (λ n. refl)

abbrev client : UdpSocket
client = record {
  remote_port = 0x3500;
  remote_ip = peer_ip;
  local_port = 4;
  local_ip = our_ip;
  handler = some 2;
  listening = false;
}

abbrev server : UdpSocket
server = record {
  remote_port = 0;
  remote_ip = 0;
  local_port = 0x3500;
  local_ip = peer_ip;
  handler = some 3;
  listening = true;
}

-- UDP on both hosts.
abbrev udp_handlers : IpHandlers (UdpProvider × List Delivered)
udp_handlers = update (λ _. none) 17 (some udp_handler)

conversation_example :
    (arrives peer_ip udp_handlers
        (record { sockets = [] ++ server ∷ []; free_port = 1024 }, [])
        client
        (1 ∷ [])
        (0 ∷ [])
      ≡ takes_in
          (record { sockets = [] ++ taken client server ∷ []; free_port = 1024 })
          []
          client
          (1 ∷ [])
          (0 ∷ [])
          3
          (taken client server))
    × (arrives our_ip udp_handlers
          (record { sockets = (server ∷ []) ++ client ∷ []; free_port = 1025 }, [])
          (taken client server)
          (5 ∷ (6 ∷ []))
          []
        ≡ takes_in
            (record { sockets = (server ∷ []) ++ client ∷ []; free_port = 1025 })
            []
            (taken client server)
            (5 ∷ (6 ∷ []))
            []
            2
            client)
unfolding is_open is_connected
conversation_example =
    conversation udp_handlers udp_handlers client server [] [] (server ∷ []) [] 1024 1025 3 2 [] []
      (1 ∷ []) (5 ∷ (6 ∷ [])) (0 ∷ []) [] refl refl (refl, refl) (omega arith, omega arith)
      (omega arith, omega arith) refl refl refl refl tt (refl, refl, tt) (omega arith, omega arith)
      (omega arith, omega arith)
