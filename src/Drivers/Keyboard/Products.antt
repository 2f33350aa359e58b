-- ===== src/Drivers/Keyboard/Products.antt =====
-- The command `mul1`, with the text that the kernel has for the product.
use sector_os.Base.{
  ℕ, ◌+◌, ◌-◌, ◌*◌, ◌≡◌, ◌<◌, ◌≤◌, refl, ◌≢◌, ◌↔◌, inl, inr, Bool, true, false, Option, none, some,
  List, [], ◌∷◌, ◌++◌, leb, ◌==◌, if◌then◌else◌, arith, ap, ◌∙◌, holds_below, holds_below_at, codes,
}
use sector_os.Kernel.IntText.{int_to_char_point}
use sector_os.Kernel.IntText.Decimal.{read_decimal, IsGap, int_to_char_point_range}
use sector_os.Drivers.Keyboard.Keys.{find_key, ascii_keys, keycode_to_ascii}
use sector_os.Drivers.Keyboard.State.{letter, text, prompt, letters, clear_key_buffer}
use sector_os.Drivers.Keyboard.Options.{mul_digits}
use sector_os.Drivers.Keyboard.Commands.{command_of, carry_out, finish_command, command_interpreter}
use sector_os.Drivers.Keyboard.Handler.{type_keys}
use sector_os.Drivers.Keyboard.Letters.{IsLetter}
use sector_os.Drivers.Keyboard.Typing.{holding, AreLetters}
use sector_os.Drivers.Keyboard.Lines.{line_typed}

-- The keys of `mul1 `.
abbrev pub mul1_keys : List ℕ
mul1_keys = 0x32 ∷ (0x16 ∷ (0x26 ∷ (0x02 ∷ (0x39 ∷ []))))

-- The key of a digit.
abbrev pub digit_key : ℕ → ℕ
digit_key d = if d == 0 then 0x0B else d + 1

is_digit_key : ℕ → Bool
is_digit_key d = elim (keycode_to_ascii false (digit_key d)) [ none ↦ false | some c ↦ c == 48 + d ]

digit_table : holds_below is_digit_key 10 ≡ true
unfolding is_digit_key holds_below keycode_to_ascii find_key ascii_keys
digit_table = refl

some_code : (o : Option ℕ) (c : ℕ) → elim o [ none ↦ false | some d ↦ d == c ] ≡ true → o ≡ some c
some_code none c h = ground arith
some_code (some d) c h = let same : d ≡ c = ground arith in ap some same

is_digit_key_sound :
    (d : ℕ) → is_digit_key d ≡ true → keycode_to_ascii false (digit_key d) ≡ some (48 + d)
unfolding is_digit_key
is_digit_key_sound d h = some_code (keycode_to_ascii false (digit_key d)) (48 + d) h

digit-IsLetter : (d : ℕ) → d < 10 → IsLetter false (digit_key d) (48 + d)
digit-IsLetter d h =
    let key = is_digit_key_sound d (holds_below_at is_digit_key 10 digit_table d h) in
    (ground arith, ground arith, key)

-- The keys of a command with two digits, and its characters.
abbrev pub product_keys : ℕ → ℕ → List ℕ
product_keys d e = mul1_keys ++ digit_key d ∷ (0x39 ∷ (digit_key e ∷ []))

abbrev pub product_codes : ℕ → ℕ → List ℕ
product_codes d e = codes "mul1 " ++ (48 + d) ∷ (b' ' ∷ ((48 + e) ∷ []))

product_letters :
    (d e : ℕ) → d < 10 → e < 10 → AreLetters false (product_keys d e) (product_codes d e)
unfolding keycode_to_ascii find_key ascii_keys
product_letters d e h h' =
    let first = digit-IsLetter d h in
    let second = digit-IsLetter e h' in
    (
      (omega arith, omega arith, refl),
      (
        (omega arith, omega arith, refl),
        (
          (omega arith, omega arith, refl),
          (
            (omega arith, omega arith, refl),
            (
              (omega arith, omega arith, refl),
              (first, ((omega arith, omega arith, refl), (second, tt))),
            ),
          ),
        ),
      ),
    )

others_have_text : (n : ℕ) → n ≤ 81 → n ≢ 27 → ¬ IsGap n
others_have_text n small other (inl e) = other e
others_have_text n small other (inr (inl e)) = omega arith
others_have_text n small other (inr (inr e)) = omega arith

module _ (card ctrled has_shell : Bool) (unset : ℕ) (sp : List ℕ) where
  mul1_carried_out :
      (d e n : ℕ)
      → command_interpreter card (
          holding false ctrled has_shell sp
            ((codes "mul1 " ++ (48 + d) ∷ (b' ' ∷ ((48 + e) ∷ []))) ++ b'\n' ∷ [])
            n)
        ≡ some (
          letter b'\n' ∷ (text (int_to_char_point (d * e)) ∷ (letter b'\n' ∷ (prompt ∷ []))),
          holding false ctrled has_shell sp [] 256,
        )
  unfolding command_interpreter command_of carry_out mul_digits finish_command clear_key_buffer
  mul1_carried_out d e n =
      let first : leb 48 (48 + d) ≡ true = ground arith in
      let second : leb 48 (48 + e) ≡ true = ground arith in
      let left : 48 + d - 48 ≡ d = omega arith in
      let right : 48 + e - 48 ≡ e = omega arith in rw (first, second, left, right) refl

  -- `mul1 ` and two digits are typed on a clear buffer, without shift, and then enter: the kernel prints
  -- its text for their product on a line of its own, and the prompt, and the buffer is clear again. The
  -- text reads back as the product exactly if the product is not 27.
  pub mul1_prints :
      (d e : ℕ)
      → d < 10
      → e < 10
      → (type_keys card unset
            (product_keys d e ++ 0x1C ∷ [])
            (holding false ctrled has_shell sp [] 256)
          ≡ some (
            letters (product_codes d e)
                ++ letter b'\n'
                  ∷ (text (int_to_char_point (d * e)) ∷ (letter b'\n' ∷ (prompt ∷ []))),
            holding false ctrled has_shell sp [] 256,
          ))
        × ((read_decimal (int_to_char_point (d * e)) ≡ some (d * e)) ↔ (d * e ≢ 27))
  mul1_prints d e h h' =
      let small : d * e ≤ 81 = grind arith in
      let (to, from) = int_to_char_point_range (d * e) (omega arith) in
      (
        line_typed card false ctrled has_shell unset sp (product_keys d e) (product_codes d e) 247
              (product_letters d e h h') refl
            ∙ rw (mul1_carried_out d e 247) refl,
        (λ reads same. to reads (inl same), λ other. from (others_have_text (d * e) small other)),
      )
