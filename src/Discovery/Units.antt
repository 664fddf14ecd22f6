-- ===== src/Discovery/Units.antt =====
-- The units that DiscoverUnits of src/unit_discovery.c registers.
use mathlib.Core.List.{append-nil, append_assoc}
use virtual_scsidevice.Base.{
  ℕ, zero, suc, ◌+◌, ◌-◌, ◌≡◌, ◌≤◌, ◌<◌, refl, sym, ap, subst, ◌∙◌, leb, Bool, true, false, ◌&&◌,
  if◌then◌else◌, if_ind, none, some, List, [], ◌∷◌, ◌++◌, length, length-append, take, arith,
}
use virtual_scsidevice.Discovery.{
  Probe, FoundUnit, accepts, max_found, probe_unit, scan_luns, scan_targets, discover_units,
}

-- The addresses that answer as a disk or a CD-ROM and get memory, in their order.
abbrev pub answers_as_disk : Probe → Bool
answers_as_disk answer = elim answer.inq_data [
  | none ↦ false
  | some inq_data ↦ accepts inq_data && answer.memory
]

abbrev pub disk_luns : (ℕ → ℕ → Probe) → ℕ → (l left : ℕ) → List (ℕ × ℕ)
disk_luns answers t l zero = []
disk_luns answers t l (suc left) =
    let rest = disk_luns answers t (l + 1) left in
    if answers_as_disk (answers t l) then (t, l) ∷ rest else rest

abbrev pub disks : (ℕ → ℕ → Probe) → (t left : ℕ) → List (ℕ × ℕ)
disks answers t zero = []
disks answers t (suc left) = disk_luns answers t 0 8 ++ disks answers (t + 1) left

-- units at these addresses, numbered from `n` on
abbrev pub numbered : ℕ → List (ℕ × ℕ) → List FoundUnit
numbered n [] = []
numbered n ((t, l) ∷ rest) =
    record { unit_num = n; target_id = t; lun_id = l } ∷ numbered (n + 1) rest

-- the units with those of the addresses that there is room for
abbrev filled_up : List FoundUnit → List (ℕ × ℕ) → List FoundUnit
filled_up units found = units ++ numbered (length units) (take (max_found - length units) found)

filled_up_full :
    (units : List FoundUnit) (found : List (ℕ × ℕ))
    → leb max_found (length units) ≡ true
    → filled_up units found ≡ units
filled_up_full units found h =
    let none_left : 8 - length units ≡ 0 = ground (arith, h) in
    subst (λ k. units ++ numbered (length units) (take k found) ≡ units) (sym none_left)
      (append-nil units)

filled_up_next :
    (units : List FoundUnit) (t l : ℕ) (found : List (ℕ × ℕ))
    → leb max_found (length units) ≡ false
    → filled_up
        (units ++ (record { unit_num = length units; target_id = t; lun_id = l } ∷ []))
        found
      ≡ filled_up units ((t, l) ∷ found)
filled_up_next units t l found h =
    let n = length units in
    let unit : FoundUnit = record { unit_num = n; target_id = t; lun_id = l } in
    let room : 8 - n ≡ suc (7 - n) = ground (arith, h) in
    let longer : length (units ++ (unit ∷ [])) ≡ n + 1 =
      omega (arith, length-append units (unit ∷ [])) in
    let less : 8 - (n + 1) ≡ 7 - n = omega (arith, room) in
    subst
      (λ m.
        (units ++ (unit ∷ [])) ++ numbered m (take (8 - m) found)
        ≡ units ++ (unit ∷ numbered (n + 1) (take (7 - n) found)))
      (sym longer)
      (subst
        (λ k.
          (units ++ (unit ∷ [])) ++ numbered (n + 1) (take k found)
          ≡ units ++ (unit ∷ numbered (n + 1) (take (7 - n) found)))
        (sym less) (append_assoc units (unit ∷ []) (numbered (n + 1) (take (7 - n) found))))
    ∙ subst
        (λ k.
          units ++ (unit ∷ numbered (n + 1) (take (7 - n) found))
          ≡ units ++ numbered n (take k ((t, l) ∷ found)))
        (sym room) refl

-- one address
probe_unit-filled :
    (answer : Probe) (t l : ℕ) (units : List FoundUnit) (found : List (ℕ × ℕ))
    → leb max_found (length units) ≡ false
    → filled_up (probe_unit answer t l units) found
      ≡ filled_up units (if answers_as_disk answer then (t, l) ∷ found else found)
unfolding probe_unit
probe_unit-filled answer t l units found h =
    elim answer.inq_data
      as (λ d.
        let o : Probe = record answer { inq_data = d } in
        filled_up (probe_unit o t l units) found
        ≡ filled_up units (if answers_as_disk o then (t, l) ∷ found else found)) [
          | none ↦ refl
          | some inq_data ↦
              elim (accepts inq_data && answer.memory)
                as (λ b.
                  filled_up
                    (if b
                      then units
                        ++ (record { unit_num = length units; target_id = t; lun_id = l } ∷ [])
                      else units)
                    found
                  ≡ filled_up units (if b then (t, l) ∷ found else found)) [
                    | true ↦ filled_up_next units t l found h
                    | false ↦ refl
                  ]
        ]

take-append-found :
    (ps qs : List (ℕ × ℕ)) (c : Bool) (p : ℕ × ℕ)
    → (if c then p ∷ ps else ps) ++ qs ≡ (if c then p ∷ (ps ++ qs) else ps ++ qs)
take-append-found ps qs true p = refl
take-append-found ps qs false p = refl

scan_luns-filled :
    (answers : ℕ → ℕ → Probe) (t l left : ℕ) (units : List FoundUnit) (found : List (ℕ × ℕ))
    → filled_up (scan_luns answers t l left units) found
      ≡ filled_up units (disk_luns answers t l left ++ found)
unfolding scan_luns
scan_luns-filled answers t l zero units found = refl
scan_luns-filled answers t l (suc left) units found =
    let more = disk_luns answers t (l + 1) left in
    let next = probe_unit (answers t l) t l units in
    if_ind (λ us. filled_up us found ≡ filled_up units (disk_luns answers t l (suc left) ++ found))
      (leb max_found (length units)) units (scan_luns answers t (l + 1) left next)
      (λ e. filled_up_full units found e ∙ sym (filled_up_full units _ e))
      (λ e.
        scan_luns-filled answers t (l + 1) left next found
        ∙ (probe_unit-filled (answers t l) t l units (more ++ found) e
            ∙ ap (filled_up units)
                (sym (take-append-found more found (answers_as_disk (answers t l)) (t, l)))))

scan_targets-filled :
    (answers : ℕ → ℕ → Probe) (t left : ℕ) (units : List FoundUnit)
    → filled_up (scan_targets answers t left units) [] ≡ filled_up units (disks answers t left)
unfolding scan_targets
scan_targets-filled answers t zero units = refl
scan_targets-filled answers t (suc left) units =
    scan_targets-filled answers (t + 1) left (scan_luns answers t 0 8 units)
    ∙ scan_luns-filled answers t 0 8 units (disks answers (t + 1) left)

abbrev nobody : List (ℕ × ℕ)
nobody = []

take_none : (n : ℕ) → take n nobody ≡ nobody
take_none zero = refl
take_none (suc n) = refl

filled_up_nothing : (units : List FoundUnit) → filled_up units [] ≡ units
filled_up_nothing units =
    ap (λ ps. units ++ numbered (length units) ps) (take_none (8 - length units)) ∙ append-nil units

-- DiscoverUnits registers exactly the first eight addresses, by target and then by LUN, at which
-- INQUIRY answers with a disk or a CD-ROM and for which there is memory, and numbers them from 0 on.
pub discover_units-numbered :
    (answers : ℕ → ℕ → Probe)
    → discover_units answers ≡ numbered 0 (take max_found (disks answers 0 8))
unfolding discover_units
discover_units-numbered answers =
    sym (filled_up_nothing (scan_targets answers 0 8 [])) ∙ scan_targets-filled answers 0 8 []

-- The numbers and addresses that the rest of the driver relies on.
abbrev pub AllSmall : List FoundUnit → Type 0
AllSmall [] = Unit
AllSmall (u ∷ units) =
    ((u.unit_num < max_found) × (u.target_id < 8) × (u.lun_id < 8)) × AllSmall units

abbrev AllBelow : List (ℕ × ℕ) → Type 0
AllBelow [] = Unit
AllBelow ((t, l) ∷ ps) = ((t < 8) × (l < 8)) × AllBelow ps

AllBelow-append : (ps qs : List (ℕ × ℕ)) → AllBelow ps → AllBelow qs → AllBelow (ps ++ qs)
AllBelow-append [] qs h k = k
AllBelow-append (p ∷ ps) qs h k = (h.0, AllBelow-append ps qs h.1 k)

disk_luns-AllBelow :
    (answers : ℕ → ℕ → Probe) (t l left : ℕ)
    → t < 8
    → l + left ≤ 8
    → AllBelow (disk_luns answers t l left)
disk_luns-AllBelow answers t l zero h k = tt
disk_luns-AllBelow answers t l (suc left) h k =
    let more = disk_luns-AllBelow answers t (l + 1) left h (omega (arith, k)) in
    if_ind AllBelow (answers_as_disk (answers t l)) _ _ (λ _. ((h, omega (arith, k)), more))
      (λ _. more)

disks-AllBelow :
    (answers : ℕ → ℕ → Probe) (t left : ℕ) → t + left ≤ 8 → AllBelow (disks answers t left)
disks-AllBelow answers t zero h = tt
disks-AllBelow answers t (suc left) h =
    AllBelow-append (disk_luns answers t 0 8) (disks answers (t + 1) left)
      (disk_luns-AllBelow answers t 0 8 (omega (arith, h)) (omega arith))
      (disks-AllBelow answers (t + 1) left (omega (arith, h)))

numbered-AllSmall :
    (n room : ℕ) (ps : List (ℕ × ℕ))
    → n + room ≤ 8
    → AllBelow ps
    → AllSmall (numbered n (take room ps))
numbered-AllSmall n zero ps h k = tt
numbered-AllSmall n (suc room) [] h k = tt
numbered-AllSmall n (suc room) (p ∷ ps) h k =
    ((omega (arith, h), k.0.0, k.0.1), numbered-AllSmall (n + 1) room ps (omega (arith, h)) k.1)

-- Every unit that DiscoverUnits registers has a number, a target and a LUN below 8, whatever the
-- device answers.
pub discover_units-AllSmall : (answers : ℕ → ℕ → Probe) → AllSmall (discover_units answers)
discover_units-AllSmall answers = subst AllSmall (sym (discover_units-numbered answers)) (
    numbered-AllSmall 0 8 (disks answers 0 8) (omega arith)
      (disks-AllBelow answers 0 8 (omega arith)))
