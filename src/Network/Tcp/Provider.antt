-- ===== src/Network/Tcp/Provider.antt =====
-- `Connect`, `Listen`, `Disconnect` and `Bind`. `ip` is the address of the card; `room` says whether
-- the allocation of the socket succeeded.
use sector_os.Base.{
  ℕ, ◌+◌, Bool, Option, none, some, List, [], ◌∷◌, ◌++◌, length, u16, u32, if◌then◌else◌,
}
use sector_os.Network.ByteOrder.{swap16}
use sector_os.Network.Tcp.Socket.{
  closed, listen, syn_sent, fin_wait1, Socket, Provider, Segment, fin, syn, ack,
}
use sector_os.Network.Tcp.Send.{send}

-- The constructor; `fresh` stands for what the allocated memory holds in the fields that it leaves.
unfoldable pub new_socket : Socket → Socket
new_socket fresh = record fresh { handler = none; state = closed }

-- The provider, the index of the new socket, and what was sent.
unfoldable pub connect : Bool → Socket → ℕ → ℕ → ℕ → Provider → Provider × Option ℕ × List Segment
unfolding new_socket
connect room fresh own_ip ip port p =
    if room
    then (let s = record (new_socket fresh) {
      remote_port = swap16 port;
      remote_ip = ip;
      local_port = swap16 p.free_port;
      local_ip = own_ip;
      state = syn_sent;
      sequence_number = 0xbeefcafe;
    } in
        (
          record {
            sockets = p.sockets ++ (send s [] syn).0 ∷ [];
            free_port = u16 (p.free_port + 1);
          },
          some (length p.sockets),
          (send s [] syn).1 ∷ [],
        ))
    else (p, none, [])

unfoldable pub listen_on : Bool → Socket → ℕ → ℕ → Provider → Provider × Option ℕ
unfolding new_socket
listen_on room fresh own_ip port p =
    if room
    then (let s = record (new_socket fresh) {
      state = listen;
      local_ip = own_ip;
      local_port = swap16 port;
    } in
        (record p { sockets = p.sockets ++ s ∷ [] }, some (length p.sockets)))
    else (p, none)

-- On the socket itself: FIN and ACK go out, and then the sequence number grows by one.
unfoldable pub disconnect : Socket → Socket × Segment
disconnect s =
    let (t, out) = send (record s { state = fin_wait1 }) [] (fin + ack) in
    (record t { sequence_number = u32 (t.sequence_number + 1) }, out)

unfoldable pub bind : ℕ → Socket → Socket
bind handler s = record s { handler = some handler }
