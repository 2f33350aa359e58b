-- ===== src/Drivers/Keyboard/Handler.antt =====
-- `HandleInterrupt` of Drivers/Keyboard.cpp and the methods around it. A custom shell is a class of its
-- own: its methods are calls among the events, and do not change the driver.
use sector_os.Base.{
  ℕ, ◌+◌, Bool, true, false, not, ◌&&◌, ◌||◌, Option, none, some, ◌>>=◌, List, [], ◌∷◌, ◌++◌, leb,
  ltb, ◌==◌, if◌then◌else◌, take, codes,
}
use sector_os.Drivers.Keyboard.Keys.{find_key, print_keys}
use sector_os.Drivers.Keyboard.State.{
  Keyboard, buffer_size, Output, letter, text, hex, banner, date, prompt, shell_key, shell_run,
  letters, clear_key_buffer, store_key, pop_key, zeros,
}
use sector_os.Drivers.Keyboard.Commands.{command_interpreter}

-- The constructor, with the variables as they start.
unfoldable pub new_keyboard : Keyboard
new_keyboard = record {
  is_shift = false;
  is_ctrled = false;
  is_txt_mode = false;
  is_shell_disabled = false;
  has_shell = false;
  can_new_line = true;
  key_buffer = zeros buffer_size;
  key_buffer_index = 0;
  sp = codes "%u@%h[%d};~#> ";
}

-- `returnHScreen`
unfoldable pub return_home : Keyboard → List Output × Keyboard
return_home k =
    let (es, k') = clear_key_buffer k in
    (es ++ (letter 5 ∷ (banner ∷ (date ∷ (prompt ∷ [])))), record k' { is_txt_mode = false })

-- `ChangeEventHandler`, whether it is given a shell or the null pointer, and `ResetEventHandler`.
unfoldable pub change_event_handler : Bool → Keyboard → List Output × Keyboard
change_event_handler given k = (
  text "Event handler changed to custom shell\n" ∷ [],
  record k { has_shell = given; is_shell_disabled = true },
)

unfoldable pub reset_event_handler : Keyboard → Keyboard
reset_event_handler k = record k { has_shell = false; is_shell_disabled = false }

-- The enter key.
unfoldable pub enter_key : Bool → Keyboard → Option (List Output × Keyboard)
enter_key card k =
    if not k.is_shell_disabled
    then (if not k.is_txt_mode then command_interpreter card k else some (letter b'\n' ∷ [], k))
    else some ((if k.has_shell then shell_run ∷ [] else []), k)

-- The key of `c`, which leaves the text mode with the control key.
unfoldable pub c_key : Keyboard → List Output × Keyboard
c_key k =
    if k.is_txt_mode && k.is_ctrled
    then return_home k
    else (letter (if k.is_shift then b'C' else b'c') ∷ [], k)

unfoldable pub backspace_key : Keyboard → List Output × Keyboard
backspace_key k = (letter (if k.is_txt_mode then 12 else 3) ∷ [], pop_key k)

-- The key of F4 prints what is stored: the array has to hold that much.
unfoldable pub show_buffer : Keyboard → Option (List Output × Keyboard)
show_buffer k =
    if leb k.key_buffer_index buffer_size
    then some (letters (take k.key_buffer_index k.key_buffer), k)
    else none

unfoldable pub right_key : Keyboard → List Output × Keyboard
right_key k = (
  letter 6 ∷ [],
  (if k.key_buffer_index == 0 then k else record k { key_buffer_index = k.key_buffer_index + 1 }),
)

-- The cases of one `if` over `isShift`, and `default`.
unfoldable pub print_key : ℕ → Keyboard → Option ℕ → List Output × Keyboard
print_key key k (some c) = (letter c ∷ [], k)
print_key key k none = ((if ltb key 0x80 then text "KEYBOARD 0x" ∷ (hex key ∷ []) else []), k)

-- The `switch`.
unfoldable pub on_key : Bool → ℕ → Keyboard → Option (List Output × Keyboard)
on_key card key k =
    if key == 0xFA
    then some ([], k)
    else if key == 0x45 || key == 0xC5 || key == 0x61
    then some (clear_key_buffer k)
    else if key == 0x1C
    then enter_key card k
    else if key == 0x2A || key == 0x36
    then some ([], record k { is_shift = true })
    else if key == 0x2E
    then some (c_key k)
    else if key == 0xAA || key == 0xB6
    then some ([], record k { is_shift = false })
    else if key == 0x3A
    then some ([], record k { is_shift = not k.is_shift })
    else if key == 0x1D
    then some ([], record k { is_ctrled = true })
    else if key == 0xE0 || key == 0x9D
    then some ([], record k { is_ctrled = false })
    else if key == 0x0E
    then some (backspace_key k)
    else if key == 0x39
    then some (letter b' ' ∷ [], k)
    else if key == 0x48
    then some ((if k.is_txt_mode then letter 7 ∷ [] else []), k)
    else if key == 0x50
    then some ((if k.is_txt_mode then letter 2 ∷ [] else []), k)
    else if key == 0x4B
    then some (letter 4 ∷ [], pop_key k)
    else if key == 0x3E
    then show_buffer k
    else if key == 0x4D
    then some (right_key k)
    else some (print_key key k (find_key k.is_shift key print_keys))

-- `HandleInterrupt`, with the key that the port gives.
unfoldable pub handle_interrupt : Bool → ℕ → ℕ → Keyboard → Option (List Output × Keyboard)
handle_interrupt card unset key k = do
  let first = if k.has_shell && k.is_shell_disabled then shell_key key ∷ [] else []
  stored ← store_key unset key k
  (es, k') ← on_key card key stored
  some (first ++ es, k')

-- Keys, one interrupt after the other.
abbrev pub type_keys : Bool → ℕ → List ℕ → Keyboard → Option (List Output × Keyboard)
type_keys card unset [] k = some ([], k)
type_keys card unset (key ∷ keys) k = do
  (es, k') ← handle_interrupt card unset key k
  (es', k'') ← type_keys card unset keys k'
  some (es ++ es', k'')
