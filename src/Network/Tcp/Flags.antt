-- ===== src/Network/Tcp/Flags.antt =====
-- The flags of a segment of Network/tcp.cpp as bits, and the cases of the `switch` over them.
use sector_os.Base.{
  ℕ, ◌/◌, ◌%◌, ◌*◌, ◌≡◌, ◌<◌, refl, ap, sym, ◌∙◌, Bool, true, false, arith, ◌==◌, bit_and,
  holds_below, holds_below_at, if◌then◌else◌,
}
use sector_os.Network.Tcp.Receive.{
  Kind, syn_only, syn_ack, syn_fin, fin_seen, ack_only, data_only, kind_of,
}

-- Whether the flag of a weight is set.
abbrev pub has : ℕ → ℕ → Bool
has flags weight = flags / weight % 2 == 1

unfoldable pub kind_by : Bool → Bool → Bool → Kind
kind_by true false false = syn_only
kind_by true true false = syn_ack
kind_by true _ true = syn_fin
kind_by false _ true = fin_seen
kind_by false true false = ack_only
kind_by false false false = data_only

kind_number : Kind → ℕ
kind_number syn_only = 0
kind_number syn_ack = 1
kind_number syn_fin = 2
kind_number fin_seen = 3
kind_number ack_only = 4
kind_number data_only = 5

of_number : ℕ → Kind
of_number n =
    if n == 0
    then syn_only
    else if n == 1
    then syn_ack
    else if n == 2
    then syn_fin
    else if n == 3
    then fin_seen
    else if n == 4
    then ack_only
    else data_only

of_number-kind_number : (k : Kind) → of_number (kind_number k) ≡ k
unfolding of_number kind_number
of_number-kind_number syn_only = refl
of_number-kind_number syn_ack = refl
of_number-kind_number syn_fin = refl
of_number-kind_number fin_seen = refl
of_number-kind_number ack_only = refl
of_number-kind_number data_only = refl

same_kind : ℕ → Bool
unfolding kind_by kind_number
same_kind f = kind_number (kind_of f) == kind_number (kind_by (has f 2) (has f 16) (has f 1))

kind_table : holds_below same_kind 256 ≡ true
unfolding holds_below same_kind kind_of kind_by kind_number
kind_table = refl

pub kind_of-kind_by : (f : ℕ) → f < 256 → kind_of f ≡ kind_by (has f 2) (has f 16) (has f 1)
unfolding same_kind
kind_of-kind_by f lt =
    let k = kind_by (has f 2) (has f 16) (has f 1) in
    let e = holds_below_at same_kind 256 kind_table f lt in
    let same : kind_number (kind_of f) ≡ kind_number k = ground arith in
    sym (of_number-kind_number (kind_of f)) ∙ ap of_number same ∙ of_number-kind_number k

reset_table : holds_below (λ f. bit_and f 4 == f / 4 % 2 * 4) 256 ≡ true
unfolding holds_below
reset_table = refl

pub reset_bit : (f : ℕ) → f < 256 → bit_and f 4 ≡ f / 4 % 2 * 4
reset_bit f lt =
    let e = holds_below_at (λ f. bit_and f 4 == f / 4 % 2 * 4) 256 reset_table f lt in ground arith
