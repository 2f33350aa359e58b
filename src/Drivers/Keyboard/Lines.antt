-- ===== src/Drivers/Keyboard/Lines.antt =====
-- Lines that are typed and carried out, with those of `echo`.
use sector_os.Base.{
  ℕ, suc, ◌+◌, ◌-◌, ◌≡◌, ◌<◌, ◌≤◌, refl, ◌≢◌, Bool, true, false, ◌&&◌, none, some, ◌>>=◌, List, [],
  ◌∷◌, ◌++◌, length, ◌==◌, arith, ap, ◌∙◌, sym, lt→ltb, ne→==, length-append, codes,
}
use sector_os.Drivers.Keyboard.Keys.{find_key, ascii_keys, keycode_to_ascii}
use sector_os.Drivers.Keyboard.State.{
  Output, letter, prompt, letters, zeros, is_stored, store_key, push_key, clear_key_buffer,
  until_newline,
}
use sector_os.Drivers.Keyboard.Options.{echo_command}
use sector_os.Drivers.Keyboard.Commands.{command_of, carry_out, finish_command, command_interpreter}
use sector_os.Drivers.Keyboard.Handler.{enter_key, on_key, handle_interrupt, type_keys}
use sector_os.Drivers.Keyboard.Letters.{IsLetter-facts}
use sector_os.Drivers.Keyboard.Typing.{
  holding, AreLetters, behind-nil, Result, letters_typed, type_keys-append, behind, set-zeros,
  append_next,
}

enter_code : (shift : Bool) → keycode_to_ascii shift 0x1C ≡ some b'\n'
unfolding keycode_to_ascii find_key ascii_keys
enter_code true = refl
enter_code false = refl

events_nil : (es : List Output) → es ++ [] ≡ es
events_nil [] = refl
events_nil (e ∷ es) = ap (λ (l : List Output). e ∷ l) (events_nil es)

then_nothing :
    (es : List Output) (m : Result) → behind es (m >>= λ (fs, k). some (fs ++ [], k)) ≡ behind es m
then_nothing es none = refl
then_nothing es (some (fs, k)) = rw (events_nil fs) refl

until_newline-letters :
    (shift : Bool) (keys cs ys : List ℕ)
    → AreLetters shift keys cs
    → until_newline (cs ++ b'\n' ∷ ys) ≡ some cs
unfolding until_newline
until_newline-letters shift [] [] ys h = refl
until_newline-letters shift [] (c ∷ cs) ys h = absurd h
until_newline-letters shift (key ∷ keys) [] ys h = absurd h
until_newline-letters shift (key ∷ keys) (c ∷ cs) ys (h, hs) =
    let other : (c == b'\n') ≡ false = ne→== c b'\n' (IsLetter-facts shift key c h).3 in
    rw (other, until_newline-letters shift keys cs ys hs) refl

module _ (card shift ctrled has_shell : Bool) (unset : ℕ) (sp : List ℕ) where
  enter_typed :
      (n : ℕ) (xs : List ℕ)
      → length xs < 256
      → handle_interrupt card unset 0x1C (holding shift ctrled has_shell sp xs (suc n))
        ≡ command_interpreter card (holding shift ctrled has_shell sp (xs ++ b'\n' ∷ []) n)
  unfolding handle_interrupt store_key push_key is_stored on_key enter_key
  enter_typed n xs room =
      let no_shell : (has_shell && false) ≡ false = ground arith in
      let index : length xs + 1 ≡ length (xs ++ b'\n' ∷ []) = sym (length-append xs (b'\n' ∷ [])) in
      rw (no_shell, enter_code shift, lt→ltb (length xs) 256 room, set-zeros xs b'\n' n, index)
        (sym (behind-nil _))

  -- A line and the enter key: what is printed while it is typed, and then the command interpreter on it.
  pub line_typed :
      (keys cs : List ℕ) (n : ℕ)
      → AreLetters shift keys cs
      → length cs + suc n ≡ 256
      → type_keys card unset (keys ++ 0x1C ∷ []) (holding shift ctrled has_shell sp [] 256)
        ≡ behind
            (letters cs)
            (command_interpreter card (holding shift ctrled has_shell sp (cs ++ b'\n' ∷ []) n))
  line_typed keys cs n h full =
      let typed : type_keys card unset keys (holding shift ctrled has_shell sp [] 256)
          ≡ some (letters cs, holding shift ctrled has_shell sp cs (suc n)) =
        rw full at
          (letters_typed card shift ctrled has_shell unset sp keys cs (suc n) [] h (omega arith)) in
      rw
        (
          type_keys-append card unset (0x1C ∷ []) keys (holding shift ctrled has_shell sp [] 256),
          typed,
          enter_typed n cs (omega arith),
        )
        (then_nothing (letters cs) _)

-- The keys of `echo `.
abbrev pub echo_keys : List ℕ
echo_keys = 0x12 ∷ (0x2E ∷ (0x23 ∷ (0x18 ∷ (0x39 ∷ []))))

echo_letters :
    (keys cs : List ℕ)
    → AreLetters false keys cs
    → AreLetters false (echo_keys ++ keys) (codes "echo " ++ cs)
unfolding keycode_to_ascii find_key ascii_keys
echo_letters keys cs h = (
  (omega arith, omega arith, refl),
  (
    (omega arith, omega arith, refl),
    (
      (omega arith, omega arith, refl),
      ((omega arith, omega arith, refl), ((omega arith, omega arith, refl), h)),
    ),
  ),
)

module _ (card ctrled has_shell : Bool) (unset : ℕ) (sp : List ℕ) where
  echo_carried_out :
      (keys t : List ℕ) (c n : ℕ)
      → AreLetters false keys (c ∷ t)
      → c ≢ b'$'
      → command_interpreter card
          (holding false ctrled has_shell sp ((codes "echo " ++ c ∷ t) ++ b'\n' ∷ []) n)
        ≡ some (
          letter b'\n' ∷ (letters (c ∷ t) ++ (letter b'\n' ∷ (prompt ∷ []))),
          holding false ctrled has_shell sp [] 256,
        )
  unfolding command_interpreter command_of carry_out echo_command finish_command clear_key_buffer
  echo_carried_out keys t c n h plain =
      let no_prompt : (c == b'$') ≡ false = ne→== c b'$' plain in
      let found : until_newline (c ∷ ((t ++ b'\n' ∷ []) ++ zeros n)) ≡ some (c ∷ t) =
        rw (append_next t (zeros n) b'\n') (until_newline-letters false keys (c ∷ t) (zeros n) h) in
      rw (no_prompt, found) refl

  -- `echo ` and a text of up to 249 characters, without shift and not beginning with a dollar sign, are
  -- typed on a clear buffer, and then enter: the line is printed as it is typed, then the text once more
  -- on a line of its own, and the prompt. The buffer is clear again, and nothing else has changed.
  pub echo_prints :
      (keys t : List ℕ) (c : ℕ)
      → AreLetters false keys (c ∷ t)
      → c ≢ b'$'
      → length t ≤ 248
      → type_keys card unset
          ((echo_keys ++ keys) ++ 0x1C ∷ [])
          (holding false ctrled has_shell sp [] 256)
        ≡ some (
          letters (codes "echo " ++ c ∷ t)
              ++ letter b'\n' ∷ (letters (c ∷ t) ++ (letter b'\n' ∷ (prompt ∷ []))),
          holding false ctrled has_shell sp [] 256,
        )
  echo_prints keys t c h plain short =
      let n = 249 - length t in
      line_typed card false ctrled has_shell unset sp (echo_keys ++ keys) (codes "echo " ++ c ∷ t) n
        (echo_letters keys (c ∷ t) h) (omega arith)
      ∙ rw (echo_carried_out keys t c n h plain) refl
