-- ===== src/Drivers/Keyboard/State.antt =====
-- The state of the driver (Drivers/Keyboard.h, with the variables of Include/Public_VAR.h that it
-- uses), what it prints and calls, and the key buffer.
use sector_os.Base.{
  zero, suc, ℕ, ◌+◌, ◌-◌, Bool, true, not, ◌&&◌, Option, none, some, List, [], ◌∷◌, set, get_or,
  ltb, ◌==◌, if◌then◌else◌, String, codes, suc, ◌>>=◌,
}
use sector_os.Drivers.Keyboard.Keys.{keycode_to_ascii}

-- `key_buffer` holds pointers to texts of one character, which the code compares with literals: each is
-- the code of its character, and 0 for `"\0"`. `sp` is `SP`, up to `SPIndex`.
pub record Keyboard : Type 0 where
  pub is_shift : Bool
  pub is_ctrled : Bool
  pub is_txt_mode : Bool
  pub is_shell_disabled : Bool
  pub has_shell : Bool
  pub can_new_line : Bool
  pub key_buffer : List ℕ
  pub key_buffer_index : ℕ
  pub sp : List ℕ

abbrev pub buffer_size : ℕ
buffer_size = 256

abbrev pub sp_size : ℕ
sp_size = 30

pub data Help : Type 0 where
  page : ℕ → Help
  sd_options : Help
  sysinfo_options : Help
  net_options : Help

-- What the driver prints and calls: a text of one character, a text, a number, a help text, the texts
-- of a title line around the date (`banner`, with `date` behind it), and the calls of other
-- components.
pub data Output : Type 0 where
  letter : ℕ → Output
  text : String → Output
  hex : ℕ → Output
  help_text : Help → Output
  banner : Output
  date : Output
  prompt : Output
  shell_key : ℕ → Output
  shell_run : Output
  shell_clear : Output
  halt : Output
  stop_virtual_box : Output
  reboot : Output
  to_serial : ℕ → Output
  from_serial : Output
  detect_cpu : Output
  memory_info : Output
  kernel_info : Output
  kernel_arch : Output
  kernel_version : Output
  kernel_build : Output
  os_name : Output
  print_sata : Output
  vga : Output
  print_partitions : Output
  boot_sound : Output
  web_server : Output
  net_missing : Output
  ip_address : Output
  mac_address : Output
  switch_to : ℕ → Output
  beep : Output
  list_files : Output
  execute_prg : Output

abbrev pub letters : List ℕ → List Output
letters [] = []
letters (c ∷ cs) = letter c ∷ letters cs

abbrev pub zeros : ℕ → List ℕ
zeros zero = []
zeros (suc n) = 0 ∷ zeros n

unfoldable pub clear_key_buffer : Keyboard → List Output × Keyboard
clear_key_buffer k =
    if not k.is_shell_disabled
    then ([], record k { key_buffer = zeros buffer_size; key_buffer_index = 0 })
    else ((if k.has_shell then shell_clear ∷ [] else []), k)

-- `key_buffer[key_buffer_index] = c; key_buffer_index++;`, where the array has room.
unfoldable pub push_key : ℕ → Keyboard → Option Keyboard
push_key c k =
    if ltb k.key_buffer_index buffer_size
    then some (record k {
      key_buffer = set k.key_buffer k.key_buffer_index c;
      key_buffer_index = k.key_buffer_index + 1;
    })
    else none

unfoldable pub pop_key : Keyboard → Keyboard
pop_key k = record k { key_buffer_index = k.key_buffer_index - 1 }

-- The keys that are stored: the presses, but for those of the modifiers and the backspace.
unfoldable pub is_stored : ℕ → Bool
is_stored key =
    ltb key 0x80
    && not (key == 0x3A)
    && not (key == 0x2A)
    && not (key == 0x36)
    && not (key == 0x0E)
    && not (key == 0x38)
    && not (key == 0x1D)

abbrev pub or_unset : ℕ → Option ℕ → ℕ
or_unset unset none = unset
or_unset unset (some c) = c

-- `unset` is what the result of `KeycodeToASCII` happens to be for a key without a case.
unfoldable pub store_key : ℕ → ℕ → Keyboard → Option Keyboard
store_key unset key k =
    if is_stored key && not k.is_shell_disabled && not k.is_txt_mode
    then push_key (or_unset unset (keycode_to_ascii k.is_shift key)) k
    else some k

-- `key_buffer[i] == "a" & key_buffer[i + 1] == "b" & ...`
abbrev spells_codes : List ℕ → ℕ → List ℕ → Bool
spells_codes buffer i [] = true
spells_codes buffer i (c ∷ cs) = get_or buffer i 0 == c && spells_codes buffer (suc i) cs

abbrev pub spells : Keyboard → ℕ → String → Bool
spells k i s = spells_codes k.key_buffer i (codes s)

-- `for (int i = from; key_buffer[i] != "\n"; i++)`: the texts up to there, if the array has one.
unfoldable pub until_newline : List ℕ → Option (List ℕ)
until_newline [] = none
until_newline (c ∷ cs) =
    let rest = until_newline cs in if c == b'\n' then some [] else (rest >>= λ t. some (c ∷ t))
