-- ===== src/Drivers/Keyboard/Commands.antt =====
-- `CommandInterpreter` of Drivers/Keyboard.cpp. What it logs to the serial port is left out.
use sector_os.Base.{
  Bool, true, false, not, Option, some, ◌>>=◌, List, [], ◌∷◌, ◌++◌, drop, get_or, if◌then◌else◌,
}
use sector_os.Drivers.Keyboard.State.{
  Keyboard, Output, letter, text, help_text, banner, date, prompt, from_serial, vga,
  print_partitions, boot_sound, web_server, switch_to, beep, list_files, execute_prg, letters,
  clear_key_buffer, spells, until_newline,
}
use sector_os.Drivers.Keyboard.Options.{
  echo_command, help_command, sd_command, add_digits, sub_digits, mul_digits, sysinfo_command,
  net_command, set_command, to_serials,
}

pub data Command : Type 0 where
  echo : Command
  help : Command
  clear : Command
  sd : Command
  add1 : Command
  sub1 : Command
  mul1 : Command
  txt : Command
  spo : Command
  spi : Command
  sysinfo : Command
  show_vga : Command
  lspt : Command
  bmus : Command
  wserver : Command
  net : Command
  tsk : Command
  set_variable : Command
  do_beep : Command
  ls : Command
  exec : Command
  unknown : Command

-- The tests of the chain, in its order.
unfoldable pub command_of : Keyboard → Command
command_of k =
    if spells k 0 "echo"
    then echo
    else if spells k 0 "help"
    then help
    else if spells k 0 "clear"
    then clear
    else if spells k 0 "sd"
    then sd
    else if spells k 0 "add1"
    then add1
    else if spells k 0 "sub1"
    then sub1
    else if spells k 0 "mul1"
    then mul1
    else if spells k 0 "txt"
    then txt
    else if spells k 0 "spo"
    then spo
    else if spells k 0 "spi"
    then spi
    else if spells k 0 "sysinfo"
    then sysinfo
    else if spells k 0 "vga"
    then show_vga
    else if spells k 0 "lspt"
    then lspt
    else if spells k 0 "bmus"
    then bmus
    else if spells k 0 "wserver"
    then wserver
    else if spells k 0 "net"
    then net
    else if spells k 0 "tsk"
    then tsk
    else if spells k 0 "set"
    then set_variable
    else if spells k 0 "beep"
    then do_beep
    else if spells k 0 "ls"
    then ls
    else if spells k 0 "exec"
    then exec
    else unknown

-- The branches of the chain.
unfoldable pub carry_out : Bool → Keyboard → Command → Option (List Output × Keyboard)
carry_out card k echo = echo_command k >>= λ es. some (es, k)
carry_out card k help = some (help_text (help_command k) ∷ [], k)
carry_out card k clear = some (letter 5 ∷ (banner ∷ (date ∷ [])), record k { can_new_line = false })
carry_out card k sd = some (sd_command k, k)
carry_out card k add1 =
    some (text (add_digits (get_or k.key_buffer 5 0) (get_or k.key_buffer 7 0)) ∷ [], k)
carry_out card k sub1 =
    some (text (sub_digits (get_or k.key_buffer 5 0) (get_or k.key_buffer 7 0)) ∷ [], k)
carry_out card k mul1 =
    some (text (mul_digits (get_or k.key_buffer 5 0) (get_or k.key_buffer 7 0)) ∷ [], k)
carry_out card k txt = some (
  text "Entering Text editing mode. Please wait...." ∷ (letter 5 ∷ (banner ∷ (date ∷ []))),
  record k { is_txt_mode = true },
)
carry_out card k spo = until_newline (drop 4 k.key_buffer) >>= λ t. some (to_serials t, k)
carry_out card k spi = some (from_serial ∷ [], k)
carry_out card k sysinfo = some (sysinfo_command k, k)
carry_out card k show_vga = some (vga ∷ [], k)
carry_out card k lspt = some (print_partitions ∷ [], k)
carry_out card k bmus = some (boot_sound ∷ [], k)
carry_out card k wserver = some (web_server ∷ [], k)
carry_out card k net = some (net_command card k, k)
carry_out card k tsk = some (switch_to (get_or k.key_buffer 4 0) ∷ [], k)
carry_out card k set_variable = set_command k
carry_out card k do_beep = some (beep ∷ [], k)
carry_out card k ls = some (list_files ∷ [], k)
carry_out card k exec = some (execute_prg ∷ [], record k { can_new_line = false })
carry_out card k unknown = until_newline k.key_buffer >>= λ t. some (
  text "Unknown Command \""
      ∷ (letters t ++ text "\". Type help in console to get all the commands" ∷ []),
  k,
)

-- What follows the chain.
unfoldable pub finish_command : List Output → Keyboard → List Output × Keyboard
unfolding clear_key_buffer
finish_command es k =
    if not k.is_txt_mode
    then (
      es ++ ((if k.can_new_line then letter b'\n' ∷ [] else []) ++ prompt ∷ []),
      (clear_key_buffer (record k { can_new_line = true })).1,
    )
    else (es, (clear_key_buffer k).1)

unfoldable pub command_interpreter : Bool → Keyboard → Option (List Output × Keyboard)
unfolding clear_key_buffer
command_interpreter card k =
    if not k.is_shell_disabled
    then (carry_out card k (command_of k) >>= λ (es, k').
        some (finish_command (letter b'\n' ∷ es) k'))
    else some ([], k)
