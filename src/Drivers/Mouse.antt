-- ===== src/Drivers/Mouse.antt =====
-- Drivers/Mouse.cpp: the mouse sends packets of three bytes, one to an interrupt.
pub mod Packets
use sector_os.Base.{
  ℕ, ◌+◌, ◌-◌, ◌%◌, Bool, true, false, not, ◌&&◌, ◌||◌, List, [], ◌∷◌, ◌++◌, set, get_or, ◌==◌,
  if◌then◌else◌, bit_and, u32, sub32,
}

-- `handler` says whether there is a handler; its methods are the events.
pub record Mouse : Type 0 where
  pub buffer : List ℕ
  pub offset : ℕ
  pub buttons : ℕ
  pub has_handler : Bool

-- A call of the handler. The distances are `int`, as their 32 bits.
pub data MouseEvent : Type 0 where
  on_activate : MouseEvent
  on_mouse_move : ℕ → ℕ → MouseEvent
  on_mouse_down : ℕ → MouseEvent
  on_mouse_up : ℕ → MouseEvent

-- `activate`, but for what it writes to the controller.
unfoldable pub activate_mouse : Mouse → List MouseEvent × Mouse
activate_mouse m =
    ((if m.has_handler then on_activate ∷ [] else []), record m { offset = 0; buttons = 0 })

-- `buffer[1]` and `-buffer[2]`.
unfoldable pub moved : List ℕ → List MouseEvent
moved buffer =
    if not (get_or buffer 1 0 == 0) || not (get_or buffer 2 0 == 0)
    then on_mouse_move (get_or buffer 1 0) (sub32 0 (get_or buffer 2 0)) ∷ []
    else []

-- One round of the loop over the buttons, with the mask of the button.
unfoldable pub button_event : ℕ → ℕ → ℕ → ℕ → List MouseEvent
button_event number mask now buttons =
    if bit_and now mask == bit_and buttons mask
    then []
    else if not (bit_and buttons mask == 0)
    then on_mouse_up number ∷ []
    else on_mouse_down number ∷ []

-- The loop: each of its rounds ends with `buttons = buffer[0]`.
unfoldable pub button_events : ℕ → ℕ → List MouseEvent
unfolding button_event
button_events now buttons =
    button_event 1 1 now buttons ++ (button_event 2 2 now now ++ button_event 3 4 now now)

unfoldable pub on_packet : Mouse → List MouseEvent × Mouse
on_packet m =
    let now = get_or m.buffer 0 0 in
    (moved m.buffer ++ button_events now m.buttons, record m { buttons = now })

-- `HandleInterrupt`, with the status and the byte that the ports give.
unfoldable pub on_mouse_byte : ℕ → ℕ → Mouse → List MouseEvent × Mouse
on_mouse_byte status byte m =
    let stored = record m { buffer = set m.buffer m.offset byte } in
    let next = record stored { offset = (m.offset + 1) % 3 } in
    if bit_and status 0x20 == 0
    then ([], m)
    else if not m.has_handler
    then ([], stored)
    else if next.offset == 0
    then on_packet next
    else ([], next)
