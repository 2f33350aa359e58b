-- ===== src/Network/Tcp/Diagram/Sockets.antt =====
-- The socket table behind `OnInternetProtocolReceived` of Network/tcp.cpp.
use sector_os.Base.{
  ℕ, ◌≡◌, ◌<◌, ◌≤◌, ◌⊎◌, refl, inl, inr, Bool, Option, none, some, List, [], ◌∷◌, set, get_or,
  get_elem?, arith, Always, Always-bind, Bool-cases, ge→ltb, lt→ltb, dec_lt,
}
use sector_os.Network.Tcp.Socket.{Socket, Provider}
use sector_os.Network.Tcp.Receive.{
  Handle, react, finish, is_for, find_socket, on_received, on_found, header_of, byte_at,
}
use sector_os.Network.Tcp.Transitions.{MayDisconnect, finish-state}
use sector_os.Network.Tcp.Diagram.{IsNext, Always-map, react-IsNext}

abbrev FoundAt : List Socket → ℕ × Socket → Type 0
FoundAt ss r = get_elem? ss r.0 ≡ some r.1

found_there : (test : Socket → Bool) (ss : List Socket) → Always (FoundAt ss) (find_socket test ss)
unfolding find_socket
found_there test [] = tt
found_there test (x ∷ ss) = elim (Bool-cases (test x)) [
  | inl e ↦ rw e refl
  | inr e ↦ rw e (
      Always-bind (FoundAt ss) (FoundAt (x ∷ ss)) (find_socket test ss) _ (found_there test ss)
        (λ r h. h))
]

-- The sockets behind a segment with these flags, by the socket that was found for it.
abbrev pub OneMoves : ℕ → Option (ℕ × Socket) → List Socket → List Socket → Type 0
OneMoves flags found ss ts =
    ((found ≡ none) × (ts ≡ ss))
    ⊎ ((i : ℕ) × (s : Socket) × (t : Socket) × (found ≡ some (i, s))
        × (get_elem? ss i ≡ some s)
        × (ts ≡ set ss i t)
        × IsNext flags s.state t.state)

module _ (handle : Handle) (may : MayDisconnect handle) (src_ip : ℕ) (payload : List ℕ)
    (size : ℕ) where
  on_found-OneMoves :
      (p : Provider) (o : Option (ℕ × Socket))
      → Always (FoundAt p.sockets) o
      → get_or payload 13 0 < 256
      → Always
          (λ q. OneMoves (get_or payload 13 0) o p.sockets q.0.sockets)
          (on_found handle src_ip payload size p o)
  unfolding on_found header_of byte_at
  on_found-OneMoves p none there byte = inl (refl, refl)
  on_found-OneMoves p (some (i, s)) there byte =
      Always-bind (λ r. IsNext (get_or payload 13 0) s.state r.socket.state)
        (λ q. OneMoves (get_or payload 13 0) (some (i, s)) p.sockets q.0.sockets)
        (react handle (header_of payload) src_ip payload size s) _
        (react-IsNext handle may (header_of payload) src_ip payload size s byte)
        (λ r n. inr (i, s, (finish r).0, refl, there, refl, rw (finish-state r) n))

  -- A segment of less than 20 bytes, or one that no socket is for, leaves every socket as it is. With any
  -- other, the first socket that it is for is stored back in its place and all others stay as they
  -- are. With RST its state is closed then. Otherwise its state is the next one by the flags SYN, ACK
  -- and FIN: LISTEN to SYN_RECEIVED with SYN alone; SYN_SENT to ESTABLISHED with SYN and ACK; with FIN,
  -- with or without ACK, ESTABLISHED to CLOSE_WAIT, and CLOSE_WAIT, FIN_WAIT1 and FIN_WAIT2 to
  -- CLOSED; with ACK alone SYN_RECEIVED to ESTABLISHED, FIN_WAIT1 to FIN_WAIT2 and CLOSE_WAIT to
  -- CLOSED; else the same one. Or it is FIN_WAIT1, where the data may reach a handler: without SYN
  -- and FIN, in an open state in which ACK alone changes nothing, or without ACK. A handler does no
  -- more to a socket's state than disconnect it, the byte of the flags is below 256, and no data
  -- comes for a socket without handler.
  pub on_received-OneMoves :
      (dst_ip : ℕ) (p : Provider)
      → get_or payload 13 0 < 256
      → Always
          (λ q.
            ((size < 20) × (q.0.sockets ≡ p.sockets))
            ⊎ ((20 ≤ size)
                × OneMoves
                    (get_or payload 13 0)
                    (find_socket (is_for (header_of payload) src_ip dst_ip) p.sockets)
                    p.sockets
                    q.0.sockets))
          (on_received handle src_ip dst_ip payload size p)
  unfolding on_received
  on_received-OneMoves dst_ip p byte = elim (dec_lt size 20) [
    | yes short ↦ rw (lt→ltb size 20 short) (inl (short, refl))
    | no long ↦
        let test = is_for (header_of payload) src_ip dst_ip in
        let found = find_socket test p.sockets in
        rw (ge→ltb size 20 (omega arith)) (
          Always-map (λ q. OneMoves (get_or payload 13 0) found p.sockets q.0.sockets) _
            (on_found handle src_ip payload size p found)
            (on_found-OneMoves p found (found_there test p.sockets) byte)
            (λ q m. inr (omega arith, m)))
  ]
