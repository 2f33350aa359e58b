-- ===== src/Drivers/Keyboard/Typing.antt =====
-- Lines that are typed in the kernel's own shell.
use sector_os.Base.{
  ℕ, suc, ◌+◌, ◌≡◌, ◌<◌, ◌≤◌, refl, Bool, true, false, Option, none, some, ◌>>=◌, List, [], ◌∷◌,
  ◌++◌, length, set, arith, ap, sym, lt→ltb, ge→ltb, length-append, ◌&&◌,
}
use sector_os.Drivers.Keyboard.State.{
  Keyboard, Output, letter, letters, zeros, is_stored, store_key, push_key,
}
use sector_os.Drivers.Keyboard.Handler.{handle_interrupt, type_keys}
use sector_os.Drivers.Keyboard.Letters.{IsLetter, IsLetter-facts, on_plain_key}

-- The driver in the kernel's shell, with the texts `xs` in its buffer and room for `n` more.
abbrev pub holding : Bool → Bool → Bool → List ℕ → List ℕ → ℕ → Keyboard
holding shift ctrled has_shell sp xs n = record {
  is_shift = shift;
  is_ctrled = ctrled;
  is_txt_mode = false;
  is_shell_disabled = false;
  has_shell = has_shell;
  can_new_line = true;
  key_buffer = xs ++ zeros n;
  key_buffer_index = length xs;
  sp = sp;
}

-- The keys are those of the characters.
abbrev pub AreLetters : Bool → List ℕ → List ℕ → Type 0
AreLetters shift [] [] = Unit {0}
AreLetters shift [] (c ∷ cs) = ⊥
AreLetters shift (key ∷ keys) [] = ⊥
AreLetters shift (key ∷ keys) (c ∷ cs) = IsLetter shift key c × AreLetters shift keys cs

pub set-zeros :
    (xs : List ℕ) (c n : ℕ) → set (xs ++ zeros (suc n)) (length xs) c ≡ (xs ++ c ∷ []) ++ zeros n
set-zeros [] c n = refl
set-zeros (x ∷ xs) c n = ap (λ (l : List ℕ). x ∷ l) (set-zeros xs c n)

pub append_next : (xs ys : List ℕ) (c : ℕ) → (xs ++ c ∷ []) ++ ys ≡ xs ++ c ∷ ys
append_next [] ys c = refl
append_next (x ∷ xs) ys c = ap (λ (l : List ℕ). x ∷ l) (append_next xs ys c)

append_assoc : (xs ys zs : List Output) → (xs ++ ys) ++ zs ≡ xs ++ (ys ++ zs)
append_assoc [] ys zs = refl
append_assoc (x ∷ xs) ys zs = ap (λ (l : List Output). x ∷ l) (append_assoc xs ys zs)

abbrev pub Result : Type 0
Result = Option (List Output × Keyboard)

-- A run behind some output, and a run of more keys behind a run.
abbrev pub behind : List Output → Result → Result
behind es m = m >>= λ (fs, k). some (es ++ fs, k)

abbrev and_then : Bool → ℕ → List ℕ → List Output → Keyboard → Result
and_then card unset keys es k = behind es (type_keys card unset keys k)

abbrev pub runs_on : Bool → ℕ → List ℕ → Result → Result
runs_on card unset keys m = m >>= λ (es, k). and_then card unset keys es k

pub behind-nil : (m : Result) → m ≡ behind [] m
behind-nil none = refl
behind-nil (some (fs, k)) = refl

behind-append : (es fs : List Output) (m : Result) → behind es (behind fs m) ≡ behind (es ++ fs) m
behind-append es fs none = refl
behind-append es fs (some (gs, k)) =
    ap (λ (l : List Output). some (l, k)) (sym (append_assoc es fs gs))

module _ (card : Bool) (unset : ℕ) (keys' : List ℕ) where
  behind-runs_on :
      (es : List Output) (m : Result)
      → behind es (runs_on card unset keys' m) ≡ runs_on card unset keys' (behind es m)
  behind-runs_on es none = refl
  behind-runs_on es (some (fs, k)) = behind-append es fs (type_keys card unset keys' k)

  first_key :
      (keys : List ℕ) (m : Result)
      → ((k : Keyboard)
          → type_keys card unset (keys ++ keys') k
            ≡ runs_on card unset keys' (type_keys card unset keys k))
      → runs_on card unset (keys ++ keys') m ≡ runs_on card unset keys' (runs_on card unset keys m)
  first_key keys none later = refl
  first_key keys (some (es, k)) later =
      rw (later k) (behind-runs_on es (type_keys card unset keys k))

  pub type_keys-append :
      (keys : List ℕ) (k : Keyboard)
      → type_keys card unset (keys ++ keys') k
        ≡ runs_on card unset keys' (type_keys card unset keys k)
  type_keys-append [] k = behind-nil (type_keys card unset keys' k)
  type_keys-append (key ∷ keys) k =
      first_key keys (handle_interrupt card unset key k) (type_keys-append keys)

append_nil : (xs : List ℕ) → xs ++ [] ≡ xs
append_nil [] = refl
append_nil (x ∷ xs) = ap (λ (l : List ℕ). x ∷ l) (append_nil xs)

module _ (card shift ctrled has_shell : Bool) (unset : ℕ) (sp : List ℕ) where
  letter_stored :
      (key c n : ℕ) (xs : List ℕ)
      → IsLetter shift key c
      → length xs < 256
      → store_key unset key (holding shift ctrled has_shell sp xs (suc n))
        ≡ some (holding shift ctrled has_shell sp (xs ++ c ∷ []) n)
  unfolding store_key push_key
  letter_stored key c n xs h room =
      let (stored, plain, prints, line) = IsLetter-facts shift key c h in
      let index : length xs + 1 ≡ length (xs ++ c ∷ []) = sym (length-append xs (c ∷ [])) in
      rw (stored, h.2, lt→ltb (length xs) 256 room, set-zeros xs c n, index) refl

  letter_typed :
      (key c n : ℕ) (xs : List ℕ)
      → IsLetter shift key c
      → length xs < 256
      → handle_interrupt card unset key (holding shift ctrled has_shell sp xs (suc n))
        ≡ some (letter c ∷ [], holding shift ctrled has_shell sp (xs ++ c ∷ []) n)
  unfolding handle_interrupt
  letter_typed key c n xs h room =
      let (stored, plain, prints, line) = IsLetter-facts shift key c h in
      let k = holding shift ctrled has_shell sp (xs ++ c ∷ []) n in
      let no_shell : (has_shell && false) ≡ false = ground arith in
      rw (no_shell, letter_stored key c n xs h room, on_plain_key card key c k plain refl prints)
        refl

  -- Characters of keys other than enter, as many as there is room for, are stored in the buffer behind
  -- what it holds, and printed.
  pub letters_typed :
      (keys cs : List ℕ) (n : ℕ) (xs : List ℕ)
      → AreLetters shift keys cs
      → length xs + length cs ≤ 256
      → type_keys card unset keys (holding shift ctrled has_shell sp xs (length cs + n))
        ≡ some (letters cs, holding shift ctrled has_shell sp (xs ++ cs) n)
  letters_typed [] [] n xs h room =
      let start : 0 + n ≡ n = omega arith in rw (append_nil xs, start) refl
  letters_typed [] (c ∷ cs) n xs h room = absurd h
  letters_typed (key ∷ keys) [] n xs h room = absurd h
  letters_typed (key ∷ keys) (c ∷ cs) n xs (h, hs) room =
      let first = letter_typed key c (length cs + n) xs h (omega arith) in
      let all : suc (length cs) + n ≡ suc (length cs + n) = omega arith in
      let more : length (xs ++ c ∷ []) ≡ length xs + 1 = length-append xs (c ∷ []) in
      let rest = letters_typed keys cs n (xs ++ c ∷ []) hs (omega (arith, more)) in
      rw (all, first, rest, append_next xs cs c) refl

  no_room :
      (key : ℕ) (cs : List ℕ)
      → is_stored key ≡ true
      → 256 ≤ length cs
      → and_then card unset (key ∷ []) (letters cs) (holding shift ctrled has_shell sp cs 0) ≡ none
  unfolding handle_interrupt store_key push_key
  no_room key cs stored full = rw (stored, ge→ltb (length cs) 256 full) refl

  -- The 256 characters that fill the buffer leave no room: any further key that is stored is a fault, a
  -- write behind the end of the array.
  pub full_buffer_faults :
      (keys cs : List ℕ) (key : ℕ)
      → AreLetters shift keys cs
      → length cs ≡ 256
      → is_stored key ≡ true
      → type_keys card unset (keys ++ key ∷ []) (holding shift ctrled has_shell sp [] 256) ≡ none
  full_buffer_faults keys cs key h full stored =
      let all : length cs + 0 ≡ 256 = omega arith in
      let typed : type_keys card unset keys (holding shift ctrled has_shell sp [] 256)
          ≡ some (letters cs, holding shift ctrled has_shell sp cs 0) =
        rw all at (letters_typed keys cs 0 [] h (omega arith)) in
      rw
        (
          type_keys-append card unset (key ∷ []) keys (holding shift ctrled has_shell sp [] 256),
          typed,
        )
        (no_room key cs stored (omega arith))
