-- ===== src/Drivers/Card/Ring.antt =====
-- The loop of `receive` ends.
use sector_os.Base.{
  ℕ, zero, suc, ◌≡◌, ◌<◌, ◌≤◌, refl, Bool, true, false, Option, none, some, List, [], ◌∷◌, length,
  get_elem?, set, if◌then◌else◌, arith, Bool-cases, inl, inr, Ensures, Ensures-bind, length-set,
  some-injective, get_elem?-some, ap, ◌∙◌,
}
use sector_os.Drivers.Card.{
  Descriptor, Card, RawHandler, is_owned, released, send_raw, answer_raw, take_frame, release,
  receive, prepared, write_bytes, is_frame, sent_size, frame_size, read_bytes,
}

-- Both rings have their eight descriptors, and the indices are within them.
pub record IsCard (c : Card) : Type 0 where
  pub sends : length c.send_descriptors ≡ 8
  pub send_index : c.current_send < 8
  pub receives : length c.recv_descriptors ≡ 8
  pub recv_index : c.current_recv < 8

-- The descriptors that the card has handed over.
abbrev pub pending : List Descriptor → ℕ
pending [] = 0
pending (d ∷ ds) = if is_owned d then pending ds else suc (pending ds)

pending-length : (ds : List Descriptor) → pending ds ≤ length ds
pending-length [] = omega arith
pending-length (d ∷ ds) = let rest = pending-length ds in ground (arith, rest)

released-owned : (d : Descriptor) → is_owned (released d) ≡ true
unfolding is_owned released
released-owned d = refl

pending-set :
    (ds : List Descriptor) (i : ℕ) (d e : Descriptor)
    → get_elem? ds i ≡ some d
    → is_owned d ≡ false
    → is_owned e ≡ true
    → suc (pending (set ds i e)) ≡ pending ds
pending-set (x ∷ ds) zero d e there free owned =
    let same : x ≡ d = some-injective x d there in rw (same, free, owned) refl
pending-set (x ∷ ds) (suc i) d e there free owned =
    let rest = pending-set ds i d e there free owned in ground (arith, rest)
pending-set [] i d e there free owned = ground arith

-- A handler that returns on every buffer.
abbrev pub Returns : {S : Type 0} → Option (RawHandler S) → Type 0
Returns none = Unit {0}
Returns {S} (some h) =
    (s : S) (buffer : List ℕ) (size : ℕ) → Ensures (λ r. Unit {0}) (h s buffer size)

-- What the body of the loop leaves of the rings: the receive ring is as it was.
abbrev IsKept : Card → Card → Type 0
IsKept c c' =
    IsCard c' × (c'.recv_descriptors ≡ c.recv_descriptors) × (c'.current_recv ≡ c.current_recv)

send_raw-IsCard :
    (buffer : List ℕ) (size : ℕ) (c : Card) → IsCard c → Ensures (IsKept c) (send_raw buffer size c)
unfolding send_raw
send_raw-IsCard buffer size c v =
    let (d, e) =
      get_elem?-some c.send_descriptors c.current_send (omega (arith, v.sends, v.send_index)) in
    let kept = length-set c.send_descriptors c.current_send (prepared (sent_size size) d) in
    rw e (
      record {
        sends = kept ∙ v.sends;
        send_index = omega arith;
        receives = v.receives;
        recv_index = v.recv_index;
      },
      refl,
      refl,
    )

module _ {S : Type 0} (h : Option (RawHandler S)) where
  answer_raw-IsKept :
      (d : Descriptor) (c : Card) (r : Bool × List ℕ × S)
      → IsCard c
      → Ensures (λ q. IsKept c q.0) (answer_raw d c r)
  unfolding answer_raw
  answer_raw-IsKept d c (true, buffer, s) v =
      let left : Card = record c { memory = write_bytes d.address buffer c.memory } in
      let left-IsCard : IsCard left = record {
        sends = v.sends;
        send_index = v.send_index;
        receives = v.receives;
        recv_index = v.recv_index;
      } in
      Ensures-bind (IsKept c) (λ q. IsKept c q.0) (send_raw buffer (frame_size d) left)
        (λ c'. some (c', s)) (send_raw-IsCard buffer (frame_size d) left left-IsCard) (λ c' k. k)
  answer_raw-IsKept d c (false, buffer, s) v = (
    record {
      sends = v.sends;
      send_index = v.send_index;
      receives = v.receives;
      recv_index = v.recv_index;
    },
    refl,
    refl,
  )

take_frame-IsKept :
    {S : Type 0} (h : Option (RawHandler S)) (d : Descriptor) (c : Card) (s : S)
    → IsCard c
    → Returns h
    → Ensures (λ q. IsKept c q.0) (take_frame h d c s)
unfolding take_frame
take_frame-IsKept none d c s v total = (v, refl, refl)
take_frame-IsKept (some h) d c s v total = elim (Bool-cases (is_frame d)) [
  | inl e ↦ rw e (
      Ensures-bind (λ r. Unit {0}) (λ q. IsKept c q.0)
        (h s (read_bytes (frame_size d) d.address c.memory) (frame_size d)) (answer_raw d c)
        (total s (read_bytes (frame_size d) d.address c.memory) (frame_size d))
        (λ r _. answer_raw-IsKept (some h) d c r v))
  | inr e ↦ rw e (v, refl, refl)
]

-- Where the loop stops: at a descriptor that the card owns.
abbrev pub AtOwned : Card → Type 0
AtOwned c =
    IsCard c × Ensures (λ d. is_owned d ≡ true) (get_elem? c.recv_descriptors c.current_recv)

release-IsCard :
    (d : Descriptor) (c : Card)
    → IsCard c
    → get_elem? c.recv_descriptors c.current_recv ≡ some d
    → is_owned d ≡ false
    → IsCard (release d c)
      × (suc (pending (release d c).recv_descriptors) ≡ pending c.recv_descriptors)
unfolding release
release-IsCard d c v e free = (
  record {
    sends = v.sends;
    send_index = v.send_index;
    receives = length-set c.recv_descriptors c.current_recv (released d) ∙ v.receives;
    recv_index = omega arith;
  },
  pending-set c.recv_descriptors c.current_recv d (released d) e free (released-owned d),
)

module _ {S : Type 0} (h : Option (RawHandler S)) (total : Returns h) where
  receive-AtOwned :
      (fuel : ℕ) (c : Card) (s : S)
      → IsCard c
      → pending c.recv_descriptors < fuel
      → Ensures (λ r. AtOwned r.0) (receive fuel h c s)
  unfolding receive
  receive-AtOwned zero c s v enough = elim enough [ ]
  receive-AtOwned (suc fuel) c s v enough =
      let (d, e) =
        get_elem?-some c.recv_descriptors c.current_recv
          (omega (arith, v.receives, v.recv_index)) in
      elim (Bool-cases (is_owned d)) [
        | inl owned ↦ rw (e, owned) (v, rw e owned)
        | inr free ↦
            rw (e, free)
              (Ensures-bind (λ q. IsKept c q.0) (λ r. AtOwned r.0) (take_frame h d c s)
                (λ (c', s'). receive fuel h (release d c') s') (take_frame-IsKept h d c s v total)
                (λ (c', s') (v', ds, i).
                  let there : get_elem? c'.recv_descriptors c'.current_recv ≡ some d =
                    rw (ds, i) e in
                  let same = ap pending ds in
                  let (v'', less) = release-IsCard d c' v' there free in
                  receive-AtOwned fuel (release d c') s' v'' (omega (arith, less, same, enough))))
      ]

  -- On rings of eight descriptors the loop ends within nine rounds, for any handler that returns: it
  -- stops at a descriptor that the card owns, and the rings are still in order.
  pub receive_ends : (c : Card) (s : S) → IsCard c → Ensures (λ r. AtOwned r.0) (receive 9 h c s)
  receive_ends c s v =
      receive-AtOwned 9 c s v (omega (arith, pending-length c.recv_descriptors, v.receives))
