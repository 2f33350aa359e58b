-- ===== src/Network/Tcp/Connections.antt =====
-- The connections that this side opens and closes.
use sector_os.Base.{
  ℕ, ◌+◌, ◌≡◌, refl, true, false, some, List, [], ◌∷◌, ◌++◌, length, get_elem?, arith, u16, u32,
  get_elem?-append_length,
}
use sector_os.Network.ByteOrder.{swap16, big_endian32}
use sector_os.Network.Tcp.Socket.{
  closed, syn_sent, established, fin_wait1, fin_wait2, Socket, Provider, Header, fin, syn, ack,
}
use sector_os.Network.Tcp.Send.{send, segment}
use sector_os.Network.Tcp.Receive.{
  Reaction, Handle, kind_of, on_syn_ack, on_ack, on_fin, dispatch, react, quiet,
}
use sector_os.Network.Tcp.Provider.{new_socket, connect, disconnect}

-- The socket that `Connect` makes.
abbrev pub opened : Socket → ℕ → ℕ → ℕ → Provider → Socket
opened fresh own_ip ip port p = record (new_socket fresh) {
  remote_port = swap16 port;
  remote_ip = ip;
  local_port = swap16 p.free_port;
  local_ip = own_ip;
  state = syn_sent;
  sequence_number = 0xbeefcafe;
}

-- The same socket behind the answer to its SYN.
abbrev pub answered_syn : Header → Socket → Socket
answered_syn h s = record s {
  state = established;
  acknowledgement_number = u32 (big_endian32 h.sequence_number + 1);
  sequence_number = 0xbeefcaff;
}

-- With room for a socket, `Connect` adds one behind the others, returns its index, and sends one SYN
-- to the peer. The peer's SYN and ACK establish it, without a call of the handler, and are answered_syn by
-- one ACK that acknowledges the peer's number plus one.
pub connect_handshake :
    (handle : Handle) (fresh : Socket) (own_ip ip port n : ℕ) (p : Provider) (h : Header)
    (payload : List ℕ)
    → h.flags ≡ syn + ack
    → (q : Provider) × (s : Socket) × (connect true fresh own_ip ip port p
        ≡ (q, some (length p.sockets), segment (opened fresh own_ip ip port p) [] syn ∷ []))
      × (get_elem? q.sockets (length p.sockets) ≡ some s)
      × (q.free_port ≡ u16 (p.free_port + 1))
      × (react handle h ip payload n s
          ≡ some (record {
            socket = answered_syn h s;
            sent = segment (answered_syn h s) [] ack ∷ [];
            reset = false;
          }))
unfolding connect send react dispatch kind_of on_syn_ack new_socket
connect_handshake handle fresh own_ip ip port n p h payload f =
    let s = (send (opened fresh own_ip ip port p) [] syn).0 in
    (
      record { sockets = p.sockets ++ s ∷ []; free_port = u16 (p.free_port + 1) },
      s,
      refl,
      get_elem?-append_length p.sockets s,
      refl,
      ground arith,
    )

-- `Disconnect` sends FIN and ACK. If the peer acknowledges first and then sends its own FIN, or sends
-- it at once, the socket is closed, and that FIN is answered_syn by one segment; no handler is called.
pub disconnect_closes :
    (handle : Handle) (s : Socket) (h k : Header) (ip n : ℕ) (payload : List ℕ)
    → h.flags ≡ ack
    → k.flags ≡ fin + ack
    → (r t u : Reaction) × ((disconnect s).1
        ≡ segment (record s { state = fin_wait1 }) [] (fin + ack))
      × (react handle h ip payload n (disconnect s).0 ≡ some r)
      × (r.sent ≡ [])
      × (react handle k ip payload n r.socket ≡ some t)
      × (t.socket.state ≡ closed)
      × (length t.sent ≡ 1)
      × (react handle k ip payload n (disconnect s).0 ≡ some u)
      × (u.socket ≡ t.socket)
      × (u.sent ≡ t.sent)
unfolding disconnect send react dispatch kind_of on_ack on_fin
disconnect_closes handle s h k ip n payload f g =
    let waiting = (disconnect s).0 in
    let half_closed = record waiting { state = fin_wait2 } in
    (
      quiet half_closed,
      on_fin fin_wait2 half_closed,
      on_fin fin_wait1 waiting,
      refl,
      ground arith,
      refl,
      ground arith,
      refl,
      refl,
      ground arith,
      refl,
      refl,
    )
