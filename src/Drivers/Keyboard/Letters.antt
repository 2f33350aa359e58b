-- ===== src/Drivers/Keyboard/Letters.antt =====
-- The keys with a character: the tables against each other, and what such a key does.
use sector_os.Base.{
  ℕ, ◌≡◌, ◌<◌, refl, ◌≢◌, ◌⊎◌, inl, inr, Bool, true, false, not, ◌&&◌, ◌||◌, Option, none, some, [],
  ◌∷◌, ◌==◌, if◌then◌else◌, arith, ap, Bool-cases, holds_below, holds_below_at, ne→==, ℕ_discrete,
}
use sector_os.Drivers.Keyboard.Keys.{
  find_key, char_keys, ascii_keys, print_keys, key_code_to_char, keycode_to_ascii,
}
use sector_os.Drivers.Keyboard.State.{Keyboard, letter, is_stored}
use sector_os.Drivers.Keyboard.Handler.{c_key, print_key, on_key}

same_code : Option ℕ → Option ℕ → Bool
same_code none none = true
same_code none (some d) = false
same_code (some c) none = false
same_code (some c) (some d) = c == d

same_code_sound : (o p : Option ℕ) → same_code o p ≡ true → o ≡ p
unfolding same_code
same_code_sound none none h = refl
same_code_sound none (some d) h = ground arith
same_code_sound (some c) none h = ground arith
same_code_sound (some c) (some d) h = let same : c ≡ d = ground arith in ap some same

agree_at : Bool → ℕ → Bool
agree_at shift key =
    (key == 0x30 && not shift)
    || same_code (key_code_to_char shift key) (keycode_to_ascii shift key)

agree_table : (shift : Bool) → holds_below (agree_at shift) 128 ≡ true
unfolding agree_at holds_below same_code key_code_to_char keycode_to_ascii find_key char_keys
    ascii_keys
agree_table true = refl
agree_table false = refl

agree_at-other :
    (shift : Bool) (key : ℕ)
    → (key == 0x30) ≡ false
    → agree_at shift key ≡ true
    → same_code (key_code_to_char shift key) (keycode_to_ascii shift key) ≡ true
unfolding agree_at
agree_at-other shift key other h = rw other at h

-- For each of the 128 keys, with shift and without, the two tables of the kernel have the same
-- character or both none, but for the key of B without shift, which is `v` in one of them.
pub tables_agree :
    (shift : Bool) (key : ℕ)
    → key < 128
    → ((key_code_to_char shift key ≡ keycode_to_ascii shift key) × ((key ≢ 0x30) ⊎ (shift ≡ true)))
      ⊎ ((key ≡ 0x30)
          × (shift ≡ false)
          × (key_code_to_char shift key ≡ some b'v')
          × (keycode_to_ascii shift key ≡ some b'b'))
unfolding key_code_to_char keycode_to_ascii find_key char_keys ascii_keys
tables_agree shift key h = elim (ℕ_discrete key 0x30) [
  | no ne ↦
      let other : (key == 0x30) ≡ false = ne→== key 0x30 ne in
      let fits = holds_below_at (agree_at shift) 128 (agree_table shift) key h in
      inl (same_code_sound _ _ (agree_at-other shift key other fits), inl ne)
  | yes e ↦ elim (Bool-cases shift) [
    | inl s ↦ rw (e, s) (inl (refl, inr refl))
    | inr s ↦ rw (e, s) (inr (refl, refl, refl, refl))
  ]
]

-- The keys that `HandleInterrupt` treats in a way of their own.
pub special : ℕ → Bool
special key =
    key == 0xFA
    || ((key == 0x45 || key == 0xC5 || key == 0x61)
        || (key == 0x1C
            || ((key == 0x2A || key == 0x36)
                || ((key == 0xAA || key == 0xB6)
                    || (key == 0x3A
                        || (key == 0x1D
                            || ((key == 0xE0 || key == 0x9D)
                                || (key == 0x0E
                                    || (key == 0x48
                                        || (key == 0x50
                                            || (key == 0x4B
                                                || (key == 0x3E || key == 0x4D))))))))))))

pub printed : Bool → ℕ → Option ℕ
printed shift key =
    if key == 0x2E
    then some (if shift then b'C' else b'c')
    else if key == 0x39
    then some b' '
    else find_key shift key print_keys

letter_at : Bool → ℕ → Bool
letter_at shift key =
    key == 0x1C
    || same_code (keycode_to_ascii shift key) none
    || (is_stored key
        && not (special key)
        && same_code (printed shift key) (keycode_to_ascii shift key)
        && not (same_code (keycode_to_ascii shift key) (some b'\n')))

letter_table : (shift : Bool) → holds_below (letter_at shift) 128 ≡ true
unfolding letter_at holds_below same_code printed special is_stored keycode_to_ascii find_key
    ascii_keys print_keys
letter_table true = refl
letter_table false = refl

-- The key, other than enter, is for the character `c`.
abbrev pub IsLetter : Bool → ℕ → ℕ → Type 0
IsLetter shift key c = (key < 128) × (key ≢ 0x1C) × (keycode_to_ascii shift key ≡ some c)

all_four :
    (a b c d : Bool)
    → (a && not b && c && not d) ≡ true
    → (a ≡ true) × (b ≡ false) × (c ≡ true) × (d ≡ false)
all_four a b c d h = ground arith

neither : (a b : Bool) → (a || b) ≡ false → (a ≡ false) × (b ≡ false)
neither a b h = ground arith

pub IsLetter-facts :
    (shift : Bool) (key c : ℕ)
    → IsLetter shift key c
    → (is_stored key ≡ true) × (special key ≡ false) × (printed shift key ≡ some c) × (c ≢ b'\n')
unfolding letter_at same_code
IsLetter-facts shift key c (h, enter, e) =
    let fits : letter_at shift key ≡ true =
      holds_below_at (letter_at shift) 128 (letter_table shift) key h in
    let other : (key == 0x1C) ≡ false = ne→== key 0x1C enter in
    let tests : (is_stored key
          && not (special key)
          && same_code (printed shift key) (some c)
          && not (c == b'\n'))
        ≡ true =
      rw (other, e) at fits in
    let (stored, plain, prints, line) = all_four _ _ _ _ tests in
    (stored, plain, same_code_sound _ _ prints, ground arith)

same_some : (a b : ℕ) → some a ≡ some b → a ≡ b
same_some a b e = cc

plain_cases :
    (key c : ℕ) (k : Keyboard)
    → k.is_txt_mode ≡ false
    → printed k.is_shift key ≡ some c
    → (if key == 0x2E
        then some (c_key k)
        else if key == 0x39
        then some (letter b' ' ∷ [], k)
        else some (print_key key k (find_key k.is_shift key print_keys)))
      ≡ some (letter c ∷ [], k)
unfolding printed c_key print_key
plain_cases key c k t p = elim (Bool-cases (key == 0x2E)) [
  | inl e ↦
      let same : (if k.is_shift then b'C' else b'c') ≡ c = same_some _ _ (rw e at p) in
      rw (e, t, same) refl
  | inr e ↦ elim (Bool-cases (key == 0x39)) [
    | inl f ↦ let same : b' ' ≡ c = same_some _ _ (rw (e, f) at p) in rw (e, f, same) refl
    | inr f ↦
        let found : find_key k.is_shift key print_keys ≡ some c = rw (e, f) at p in
        rw (e, f, found) refl
  ]
]

pub on_plain_key :
    (card : Bool) (key c : ℕ) (k : Keyboard)
    → special key ≡ false
    → k.is_txt_mode ≡ false
    → printed k.is_shift key ≡ some c
    → on_key card key k ≡ some (letter c ∷ [], k)
unfolding on_key special printed c_key print_key
on_plain_key card key c k s t p =
    let (s0, r0) = neither (key == 0xFA) _ s in
    let (s1, r1) = neither (key == 0x45 || key == 0xC5 || key == 0x61) _ r0 in
    let (s2, r2) = neither (key == 0x1C) _ r1 in
    let (s3, r3) = neither (key == 0x2A || key == 0x36) _ r2 in
    let (s4, r4) = neither (key == 0xAA || key == 0xB6) _ r3 in
    let (s5, r5) = neither (key == 0x3A) _ r4 in
    let (s6, r6) = neither (key == 0x1D) _ r5 in
    let (s7, r7) = neither (key == 0xE0 || key == 0x9D) _ r6 in
    let (s8, r8) = neither (key == 0x0E) _ r7 in
    let (s9, r9) = neither (key == 0x48) _ r8 in
    let (s10, r10) = neither (key == 0x50) _ r9 in
    let (s11, r11) = neither (key == 0x4B) _ r10 in
    let (s12, s13) = neither (key == 0x3E) _ r11 in
    rw (s0, s1, s2, s3, s4, s5, s6, s7, s8, s9, s10, s11, s12, s13) (plain_cases key c k t p)
