-- ===== src/Network/Tcp/Diagram.antt =====
-- `OnInternetProtocolReceived` of Network/tcp.cpp against a diagram of a socket's states.
pub mod Sockets
use sector_os.Base.{
  drop, u16, sub32, ℕ, ◌/◌, ◌%◌, ◌*◌, ◌≡◌, ◌<◌, ◌⊎◌, refl, ap, sym, ◌∙◌, inl, inr, Bool, true,
  false, Option, none, some, List, [], ◌∷◌, set, get_or, get_elem?, arith, Always, Always-bind,
  Bool-cases, ◌==◌, bit_and, holds_below, holds_below_at, ge→ltb, lt→ltb, dec_lt, if◌then◌else◌,
  ◌≤◌,
}
use sector_os.Network.Tcp.Socket.{
  State, closed, listen, syn_sent, syn_received, established, fin_wait1, fin_wait2, close_wait,
  Socket, Provider, Header, rst, ack,
}
use sector_os.Network.Tcp.Send.{send}
use sector_os.Network.ByteOrder.{big_endian32}
use sector_os.Network.Tcp.Receive.{
  quiet, is_state, Kind, syn_only, syn_ack, syn_fin, fin_seen, ack_only, data_only, kind_of, Handle,
  on_syn, on_syn_ack, on_fin, on_ack, deliver, dispatch, react, finish, is_for, find_socket,
  on_received, call_handler, on_found, header_of, byte_at, quiet, is_state,
}
use sector_os.Network.Tcp.Flags.{has, kind_by, kind_of-kind_by, reset_bit}
use sector_os.Network.Tcp.Transitions.{MayDisconnect, accept-state, finish-state}

-- The diagram: the state behind a segment without RST, by its flags SYN, ACK and FIN.
abbrev pub next : Bool → Bool → Bool → State → State
next true false false listen = syn_received
next true true false syn_sent = established
next false _ true established = close_wait
next false _ true close_wait = closed
next false _ true fin_wait1 = closed
next false _ true fin_wait2 = closed
next false true false syn_received = established
next false true false fin_wait1 = fin_wait2
next false true false close_wait = closed
next _ _ _ s = s

-- Where the data of such a segment may reach a handler.
abbrev pub to_handler : Bool → Bool → Bool → State → Bool
to_handler true _ _ _ = false
to_handler false _ true _ = false
to_handler false _ false closed = false
to_handler false true false syn_received = false
to_handler false true false fin_wait1 = false
to_handler false true false close_wait = false
to_handler false _ false _ = true

abbrev pub Next : Bool → Bool → Bool → State → State → Type 0
Next syn' ack' fin' s t =
    (t ≡ next syn' ack' fin' s) ⊎ ((to_handler syn' ack' fin' s ≡ true) × (t ≡ fin_wait1))

-- RST closes. Otherwise the diagram is followed, but for a handler that disconnects.
abbrev pub IsNext : ℕ → State → State → Type 0
IsNext flags s t =
    ((has flags 4 ≡ true) × (t ≡ closed))
    ⊎ ((has flags 4 ≡ false) × Next (has flags 2) (has flags 16) (has flags 1) s t)

on_syn-Next :
    (h : Header) (ip : ℕ) (st : State) (s : Socket)
    → s.state ≡ st
    → Next true false false st (on_syn h ip st s).socket.state
unfolding on_syn send
on_syn-Next h ip listen s e = inl refl
on_syn-Next h ip _ s e = inl e

on_syn_ack-Next :
    (h : Header) (st : State) (s : Socket)
    → s.state ≡ st
    → Next true true false st (on_syn_ack h st s).socket.state
unfolding on_syn_ack send
on_syn_ack-Next h syn_sent s e = inl refl
on_syn_ack-Next h _ s e = inl e

on_fin-Next :
    (b : Bool) (st : State) (s : Socket)
    → s.state ≡ st
    → Next false b true st (on_fin st s).socket.state
unfolding on_fin send
on_fin-Next b established s e = inl refl
on_fin-Next b close_wait s e = inl refl
on_fin-Next b fin_wait1 s e = inl refl
on_fin-Next b fin_wait2 s e = inl refl
on_fin-Next b _ s e = inl e

pub Always-map :
    {A : Type 0} (P Q : A → Type 0) (m : Option A) → Always P m → ((r : A) → P r → Q r) → Always Q m
Always-map P Q none h f = tt
Always-map P Q (some r) h f = f r h

module _ (handle : Handle) (may : MayDisconnect handle) (h : Header) (ip : ℕ) (payload : List ℕ)
    (size : ℕ) where
  call_handler-either :
      (P : State → Type 0) (offset : ℕ) (o : Option ℕ) (s : Socket)
      → P s.state
      → P fin_wait1
      → Always (λ r. P r.socket.state) (call_handler handle offset payload size o s)
  unfolding call_handler
  call_handler-either P offset none s p q = tt
  call_handler-either P offset (some o) s p q =
      rw
        (accept-state handle may payload size offset
          (handle o s (drop offset payload) (u16 (sub32 size offset))))
        (elim (may o s (drop offset payload) (u16 (sub32 size offset))) [
          | inl e ↦ rw e p
          | inr e ↦ rw e q
        ])

  -- What a handler leaves is the socket's state or that of `Disconnect`.
  deliver-either :
      (P : State → Type 0) (s : Socket)
      → P s.state
      → P fin_wait1
      → Always (λ r. P r.socket.state) (deliver handle h payload size s)
  unfolding deliver
  deliver-either P s p q =
      elim (Bool-cases (big_endian32 h.sequence_number == s.acknowledgement_number)) [
        | inl e ↦ rw e (call_handler-either P _ s.handler s p q)
        | inr e ↦ rw e p
      ]

  on_ack-either :
      (P : State → Type 0) (s : Socket)
      → P s.state
      → P fin_wait1
      → Always
          (λ r. P r.socket.state)
          (if h.flags == ack then some (quiet s) else deliver handle h payload size s)
  on_ack-either P s p q = elim (Bool-cases (h.flags == ack)) [
    | inl e ↦ rw e p
    | inr e ↦ rw e (deliver-either P s p q)
  ]

  on_ack-Next :
      (st : State) (s : Socket)
      → s.state ≡ st
      → (st ≡ closed → ⊥)
      → Always (λ r. Next false true false st r.socket.state) (on_ack handle h payload size st s)
  unfolding on_ack
  on_ack-Next syn_received s e o = inl refl
  on_ack-Next fin_wait1 s e o = inl refl
  on_ack-Next close_wait s e o = inl refl
  on_ack-Next closed s e o = absurd (o refl)
  on_ack-Next st s e o = on_ack-either (Next false true false st) s (inl e) (inr (refl, refl))

  deliver-Next :
      (st : State) (s : Socket)
      → s.state ≡ st
      → (st ≡ closed → ⊥)
      → Always (λ r. Next false false false st r.socket.state) (deliver handle h payload size s)
  deliver-Next closed s e o = absurd (o refl)
  deliver-Next st s e o = deliver-either (Next false false false st) s (inl e) (inr (refl, refl))

  dispatch-Next :
      (a b c : Bool) (s : Socket)
      → (s.state ≡ closed → ⊥)
      → Always
          (λ r. Next a b c s.state r.socket.state)
          (dispatch handle h ip payload size (kind_by a b c) s)
  unfolding dispatch kind_by
  dispatch-Next true false false s o = on_syn-Next h ip s.state s refl
  dispatch-Next true true false s o = on_syn_ack-Next h s.state s refl
  dispatch-Next true true true s o = inl refl
  dispatch-Next true false true s o = inl refl
  dispatch-Next false b true s o = on_fin-Next b s.state s refl
  dispatch-Next false true false s o = on_ack-Next s.state s refl o
  dispatch-Next false false false s o = deliver-Next s.state s refl o

  open_or_closed : (st : State) → (st ≡ closed) ⊎ ((is_state st closed ≡ false) × (st ≡ closed → ⊥))
  open_or_closed closed = inl refl
  open_or_closed st =
      inr (refl, λ e. let different : false ≡ true = ap (λ x. is_state x closed) e in ground arith)

  next-closed : (a b c : Bool) → next a b c closed ≡ closed
  next-closed true true true = refl
  next-closed true true false = refl
  next-closed true false true = refl
  next-closed true false false = refl
  next-closed false true true = refl
  next-closed false true false = refl
  next-closed false false true = refl
  next-closed false false false = refl

  pub react-IsNext :
      (s : Socket)
      → h.flags < 256
      → Always (λ r. IsNext h.flags s.state r.socket.state) (react handle h ip payload size s)
  unfolding react
  react-IsNext s byte =
      let kind = kind_of-kind_by h.flags byte in
      let reset = reset_bit h.flags byte in
      let a = has h.flags 2 in
      let b = has h.flags 16 in
      let c = has h.flags 1 in
      elim (Bool-cases (has h.flags 4)) [
        | inl e ↦
            let set_ : (bit_and h.flags rst == 0) ≡ false = ground arith in rw set_ (inl (e, refl))
        | inr e ↦
            let clear : (bit_and h.flags rst == 0) ≡ true = ground arith in
            elim (open_or_closed s.state) [
              | inl shut ↦ rw (clear, shut) (inr (e, inl (sym (next-closed a b c))))
              | inr (open_, o) ↦
                  rw (clear, open_, kind)
                    (Always-map (λ r. Next a b c s.state r.socket.state)
                      (λ r. IsNext h.flags s.state r.socket.state)
                      (dispatch handle h ip payload size (kind_by a b c) s)
                      (dispatch-Next a b c s o) (λ r n. inr (e, n)))
            ]
      ]
