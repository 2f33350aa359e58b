-- ===== src/Drivers/Mouse/Packets.antt =====
-- Whole packets.
use sector_os.Base.{
  append_nil, ap, ◌∙◌, ℕ, ◌≡◌, refl, true, List, [], ◌∷◌, ◌++◌, bit_and, eq→==, ◌%◌, ◌<◌, ◌-◌, ◌==◌,
  ◌&&◌, if◌then◌else◌, arith, holds_below, holds_below_at, Bool-cases, inl, inr,
}
use sector_os.Drivers.Mouse.{
  Mouse, MouseEvent, on_mouse_move, on_mouse_down, on_mouse_up, moved, button_event, button_events,
  on_packet, on_mouse_byte,
}

-- Bytes, one interrupt after the other.
abbrev pub mouse_bytes : List ℕ → Mouse → List MouseEvent × Mouse
mouse_bytes [] m = ([], m)
mouse_bytes (b ∷ bs) m =
    let (es, m') = on_mouse_byte 0x20 b m in let (es', m'') = mouse_bytes bs m' in (es ++ es', m'')

button_event-same : (number mask now : ℕ) → button_event number mask now now ≡ []
unfolding button_event
button_event-same number mask now = rw (eq→== (bit_and now mask) (bit_and now mask) refl) refl

-- A driver with a handler at the beginning of a packet.
abbrev pub waiting : ℕ → ℕ → ℕ → ℕ → Mouse
waiting b0 b1 b2 buttons = record {
  buffer = b0 ∷ (b1 ∷ (b2 ∷ []));
  offset = 0;
  buttons = buttons;
  has_handler = true;
}

packet_reported :
    (b0 b1 b2 buttons now dx dy : ℕ) (rest : List ℕ)
    → mouse_bytes (now ∷ (dx ∷ (dy ∷ rest))) (waiting b0 b1 b2 buttons) ≡ (
      (moved (now ∷ (dx ∷ (dy ∷ []))) ++ button_event 1 1 now buttons)
          ++ (mouse_bytes rest (waiting now dx dy now)).0,
      (mouse_bytes rest (waiting now dx dy now)).1,
    )
unfolding on_mouse_byte on_packet button_events
packet_reported b0 b1 b2 buttons now dx dy rest =
    rw
      (
        button_event-same 2 2 now,
        button_event-same 3 4 now,
        append_nil (button_event 1 1 now buttons),
      )
      refl

-- The bytes of packets.
abbrev pub packets : List (ℕ × ℕ × ℕ) → List ℕ
packets [] = []
packets ((now, dx, dy) ∷ ps) = now ∷ (dx ∷ (dy ∷ packets ps))

-- What a packet says of a move: the distances to the right and, negated in 32 bits, down.
abbrev pub distance : ℕ → ℕ → List MouseEvent
distance dx dy =
    if dx == 0 && dy == 0 then [] else on_mouse_move dx ((4294967296 - dy) % 4294967296) ∷ []

-- And of the first button, whose state is the lowest bit, 1 while it is pressed.
abbrev pub first_button : ℕ → ℕ → List MouseEvent
first_button was now =
    if now == was then [] else if now == 1 then on_mouse_down 1 ∷ [] else on_mouse_up 1 ∷ []

-- What a driver of a mouse with one button reports: each move, and each change of the button, from
-- the buttons of the packet before.
abbrev pub one_button : ℕ → List (ℕ × ℕ × ℕ) → List MouseEvent
one_button buttons [] = []
one_button buttons ((now, dx, dy) ∷ ps) =
    (distance dx dy ++ first_button (buttons % 2) (now % 2)) ++ one_button now ps

moved-distance : (now dx dy : ℕ) → moved (now ∷ (dx ∷ (dy ∷ []))) ≡ distance dx dy
unfolding moved
moved-distance now dx dy = elim (Bool-cases (dx == 0)) [
  | inl e ↦ elim (Bool-cases (dy == 0)) [ inl f ↦ rw (e, f) refl | inr f ↦ rw (e, f) refl ]
  | inr e ↦ rw e refl
]

lowest_table : holds_below (λ n. bit_and n 1 == n % 2) 256 ≡ true
unfolding holds_below
lowest_table = refl

lowest : (n : ℕ) → n < 256 → bit_and n 1 ≡ n % 2
lowest n lt =
    let e = holds_below_at (λ n. bit_and n 1 == n % 2) 256 lowest_table n lt in ground arith

button_event-first_button :
    (now buttons : ℕ)
    → now < 256
    → buttons < 256
    → button_event 1 1 now buttons ≡ first_button (buttons % 2) (now % 2)
unfolding button_event
button_event-first_button now buttons h h' =
    let bit : now % 2 < 2 = omega arith in
    let bit' : buttons % 2 < 2 = omega arith in rw (lowest now h, lowest buttons h') (ground arith)

-- The first bytes of the packets are bytes.
abbrev pub AllBytes : List (ℕ × ℕ × ℕ) → Type 0
AllBytes [] = Unit {0}
AllBytes ((now, dx, dy) ∷ ps) = (now < 256) × AllBytes ps

-- From the beginning of a packet, with a handler, any number of packets, a byte to an interrupt, are
-- reported as by a driver that knows the first button only: the changes of the other two are lost.
-- The first byte of each packet and the buttons before are bytes.
pub packets_reported :
    (ps : List (ℕ × ℕ × ℕ)) (b0 b1 b2 buttons : ℕ)
    → AllBytes ps
    → buttons < 256
    → (mouse_bytes (packets ps) (waiting b0 b1 b2 buttons)).0 ≡ one_button buttons ps
packets_reported [] b0 b1 b2 buttons all h = refl
packets_reported ((now, dx, dy) ∷ ps) b0 b1 b2 buttons all h =
    let here = moved (now ∷ (dx ∷ (dy ∷ []))) ++ button_event 1 1 now buttons in
    let same : here ≡ distance dx dy ++ first_button (buttons % 2) (now % 2) =
      rw (moved-distance now dx dy, button_event-first_button now buttons all.0 h) refl in
    ap (λ (r : List MouseEvent × Mouse). r.0)
      (packet_reported b0 b1 b2 buttons now dx dy (packets ps))
    ∙ ap (λ (es : List MouseEvent). here ++ es) (packets_reported ps now dx dy now all.1 all.0)
    ∙ ap (λ (es : List MouseEvent). es ++ one_button now ps) same
