-- ===== src/Pci/Made.antt =====
-- The drivers that the scan of Hardcom/pci.cpp makes, one after the other, while memory lasts.
use sector_os.Base.{
  append_nil, ℕ, ◌≡◌, ◌<◌, ◌≤◌, refl, sym, ◌∙◌, true, inl, inr, Option, none, some, ◌>>=◌, List, [],
  ◌∷◌, ◌++◌, length, leb, if◌then◌else◌, arith, Bool-cases, gt→leb, dec_lt, lt→ltb, ge→ltb,
  length-append,
}
use mathlib.Core.List.{append_assoc}
use sector_os.Drivers.Manager.{DriverManager, add_driver}
use sector_os.Pci.{PciDeviceDescriptor, Machine, Allocate}

abbrev pub Managed : Type 0 → Type 0
Managed H = DriverManager PciDeviceDescriptor × H

abbrev pub managed : {H : Type 0} → Option (Machine H) → Option (DriverManager PciDeviceDescriptor)
managed none = none
managed (some m) = some m.manager

abbrev pub managed_heap : {H : Type 0} → Option (Machine H) → Option (Managed H)
managed_heap none = none
managed_heap (some m) = some (m.manager, m.heap)

-- The cards that memory is there for: a card takes two allocations, if the first succeeds, and else
-- one.
abbrev pub made :
    {H : Type 0} → Allocate H → H → List PciDeviceDescriptor → List PciDeviceDescriptor
made allocate h [] = []
made allocate h (c ∷ cs) =
    let (room, h') = allocate h in
    let with_room = made allocate (allocate h').1 cs in
    let without = made allocate h' cs in if room then c ∷ with_room else without

within : (n : ℕ) → n ≤ 255 → leb n 255 ≡ true
within n h = ground arith

pub managed-managed_heap :
    {H : Type 0} (o : Option (Machine H)) → managed o ≡ (managed_heap o >>= λ x. some x.0)
managed-managed_heap none = refl
managed-managed_heap (some m) = refl

module _ {H : Type 0} (allocate : Allocate H) where
  -- Drivers made one after the other.
  abbrev pub add_all : List PciDeviceDescriptor → Managed H → Option (Managed H)
  add_all [] x = some x
  add_all (c ∷ cs) x =
      let (room, h') = allocate x.1 in
      if room
      then (add_driver c x.0 >>= λ m'. add_all cs (m', (allocate h').1))
      else add_all cs (x.0, h')

  add_all-append :
      (ds es : List PciDeviceDescriptor) (x : Managed H)
      → add_all (ds ++ es) x ≡ (add_all ds x >>= add_all es)
  add_all-append [] es x = refl
  add_all-append (d ∷ ds) es x = elim (Bool-cases (allocate x.1).0) [
    | inl room ↦
        rw room
          (elim (add_driver d x.0)
            as (λ o.
              (o >>= λ m'. add_all (ds ++ es) (m', (allocate (allocate x.1).1).1))
              ≡ ((o >>= λ m'. add_all ds (m', (allocate (allocate x.1).1).1)) >>= add_all es)) [
                | none ↦ refl
                | some m' ↦ add_all-append ds es (m', (allocate (allocate x.1).1).1)
              ])
    | inr full ↦ rw full (add_all-append ds es (x.0, (allocate x.1).1))
  ]

  pub managed-bind :
      (o : Option (Machine H)) (f : Machine H → Option (Machine H))
      (ds es : List PciDeviceDescriptor) (x : Managed H)
      → managed_heap o ≡ add_all ds x
      → ((m : Machine H) → managed_heap (f m) ≡ add_all es (m.manager, m.heap))
      → managed_heap (o >>= f) ≡ add_all (ds ++ es) x
  managed-bind none f ds es x e next = sym (add_all-append ds es x ∙ rw (sym e) refl)
  managed-bind (some m') f ds es x e next =
      sym (add_all-append ds es x ∙ rw (sym e) (sym (next m')))

  pub managed_set :
      (o : Option (DriverManager PciDeviceDescriptor))
      (f : DriverManager PciDeviceDescriptor → Machine H) (h : H)
      → ((d : DriverManager PciDeviceDescriptor) → ((f d).manager ≡ d) × ((f d).heap ≡ h))
      → managed_heap (o >>= λ d. some (f d)) ≡ (o >>= λ d. some (d, h))
  managed_set none f h same = refl
  managed_set (some d) f h same = rw ((same d).0, (same d).1) refl

  pub add_all_room :
      (ds : List PciDeviceDescriptor) (m : DriverManager PciDeviceDescriptor) (h : H)
      → length m.drivers ≤ 255
      → (add_all ds (m, h) >>= λ x. some x.0) ≡ (
          if leb (length (m.drivers ++ made allocate h ds)) 255
          then some record { drivers = m.drivers ++ made allocate h ds }
          else none)
  unfolding add_driver
  add_all_room [] m h room = rw (append_nil m.drivers, within (length m.drivers) room) refl
  add_all_room (d ∷ ds) m h room = elim (Bool-cases (allocate h).0) [
    | inr full ↦ rw full (add_all_room ds m (allocate h).1 room)
    | inl there ↦
        let h' = (allocate (allocate h).1).1 in
        elim (dec_lt (length m.drivers) 255) [
          | yes lt ↦
              let longer : length (m.drivers ++ d ∷ []) ≤ 255 =
                omega (arith, length-append m.drivers (d ∷ [])) in
              rw (there, lt→ltb (length m.drivers) 255 lt)
                (add_all_room ds (record { drivers = m.drivers ++ d ∷ [] }) h' longer
                  ∙ rw (append_assoc m.drivers (d ∷ []) (made allocate h' ds)) refl)
          | no ge ↦
              let full : 255 < length (m.drivers ++ d ∷ made allocate h' ds) =
                omega (arith, length-append m.drivers (d ∷ made allocate h' ds)) in
              rw
                (
                  there,
                  ge→ltb (length m.drivers) 255 (omega arith),
                  gt→leb (length (m.drivers ++ d ∷ made allocate h' ds)) 255 full,
                )
                refl
        ]
  ]
