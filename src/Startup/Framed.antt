-- ===== src/Startup/Framed.antt =====
-- The order in which _manager_Init (src/Init.c) and _manager_Expunge (src/Expunge.c) release.
use mathlib.Core.List.{append_assoc}
use virtual_scsidevice.Base.{
  ℕ, ◌+◌, ◌≡◌, refl, sym, subst, Bool, true, false, List, [], ◌∷◌, ◌++◌, arith,
}
use virtual_scsidevice.Startup.{
  Event, acquire, release, event_if, take_ranges, release_device, expansion, ipci, device, utility,
  iutility, int_server, inquiry_buffer, take_units, free_units, scan_events,
}
use virtual_scsidevice.Discovery.{FoundUnit}
use virtual_scsidevice.Startup.Events.{
  acquired, released, AllReleased, acquired-append, released-append,
}

abbrev pub found : Bool → Bool → List Event
found bar0 bar4 = acquire expansion ∷ acquire ipci ∷ acquire device ∷ take_ranges bar0 bar4

-- The libraries, the device and its ranges are taken; the device and its ranges are given back.
found-taken :
    (p : ℕ) (bar0 bar4 : Bool)
    → (acquired p (found bar0 bar4)
        ≡ released p (release_device bar0 bar4)
          + acquired p (acquire expansion ∷ acquire ipci ∷ []))
      × (released p (found bar0 bar4) ≡ 0)
      × (acquired p (release_device bar0 bar4) ≡ 0)
found-taken p true true = (omega arith, refl, refl)
found-taken p true false = (omega arith, refl, refl)
found-taken p false true = (omega arith, refl, refl)
found-taken p false false = (omega arith, refl, refl)

-- What is done between taking the device and giving it back, and what is given back after it.
framed :
    (bar0 bar4 : Bool) (mid off : List Event)
    → ((p : ℕ)
        → acquired p (acquire expansion ∷ acquire ipci ∷ []) + acquired p mid + acquired p off
          ≡ released p mid + released p off)
    → AllReleased (found bar0 bar4 ++ (mid ++ (release_device bar0 bar4 ++ off)))
framed bar0 bar4 mid off h p =
    let pci = release_device bar0 bar4 in
    omega (
      arith,
      h p,
      found-taken p bar0 bar4,
      acquired-append p (found bar0 bar4) (mid ++ (pci ++ off)),
      released-append p (found bar0 bar4) (mid ++ (pci ++ off)),
      acquired-append p mid (pci ++ off),
      released-append p mid (pci ++ off),
      acquired-append p pci off,
      released-append p pci off,
    )

AllReleased-append : (es : List Event) → AllReleased es → AllReleased (es ++ [])
AllReleased-append es h p = omega (arith, h p, acquired-append p es [], released-append p es [])

pub framed_failed :
    (bar0 bar4 : Bool) (mid off : List Event)
    → ((p : ℕ)
        → acquired p (acquire expansion ∷ acquire ipci ∷ []) + acquired p mid + acquired p off
          ≡ released p mid + released p off)
    → AllReleased ((found bar0 bar4 ++ (mid ++ (release_device bar0 bar4 ++ off))) ++ [])
framed_failed bar0 bar4 mid off h =
    AllReleased-append (found bar0 bar4 ++ (mid ++ (release_device bar0 bar4 ++ off)))
      (framed bar0 bar4 mid off h)

-- The queues' events `es` and what frees them, `cs`, with `taken` before and `after` behind the former.
queues_freed :
    (p : ℕ) (taken es after cs : List Event)
    → acquired p es ≡ released p es + released p cs
    → acquired p cs ≡ 0
    → (acquired p (taken ++ (es ++ (after ++ cs)))
        ≡ acquired p taken + acquired p after + released p es + released p cs)
      × (released p (taken ++ (es ++ (after ++ cs)))
          ≡ released p taken + released p after + released p es + released p cs)
queues_freed p taken es after cs h k = (
  omega (
    arith,
    h,
    k,
    acquired-append p taken (es ++ (after ++ cs)),
    acquired-append p es (after ++ cs),
    acquired-append p after cs,
  ),
  omega (
    arith,
    released-append p taken (es ++ (after ++ cs)),
    released-append p es (after ++ cs),
    released-append p after cs,
  ),
)

-- the interfaces, and all libraries
abbrev pub interfaces : List Event
interfaces = acquire utility ∷ acquire iutility ∷ []

abbrev pub libraries_off : List Event
libraries_off = release iutility ∷ release utility ∷ release ipci ∷ release expansion ∷ []

pub queues_failed-AllReleased :
    (bar0 bar4 : Bool) (es cs : List Event)
    → ((p : ℕ) → acquired p es ≡ released p es + released p cs)
    → ((p : ℕ) → acquired p cs ≡ 0)
    → AllReleased (
        (found bar0 bar4
          ++ (interfaces ++ (es ++ (cs ++ (release_device bar0 bar4 ++ libraries_off)))))
        ++ [])
queues_failed-AllReleased bar0 bar4 es cs h k =
    subst (λ l. AllReleased ((found bar0 bar4 ++ (interfaces ++ l)) ++ []))
      (append_assoc es cs (release_device bar0 bar4 ++ libraries_off))
      (framed_failed bar0 bar4 (interfaces ++ (es ++ cs)) libraries_off
        (λ p. omega (arith, queues_freed p interfaces es [] cs (h p) (k p))))

event_if-freed :
    (p : ℕ) (b : Bool) (piece : ℕ)
    → (acquired p (event_if b (acquire piece)) ≡ released p (event_if b (release piece)))
      × (released p (event_if b (acquire piece)) ≡ 0)
      × (acquired p (event_if b (release piece)) ≡ 0)
event_if-freed p true piece = (refl, refl, refl)
event_if-freed p false piece = (refl, refl, refl)

units-freed :
    (p : ℕ) (units : List FoundUnit)
    → (acquired p (take_units units) ≡ released p (free_units units))
      × (released p (take_units units) ≡ 0)
      × (acquired p (free_units units) ≡ 0)
units-freed p [] = (refl, refl, refl)
units-freed p (u ∷ units) =
    let rest = units-freed p units in (omega (arith, rest.0), rest.1, rest.2)

-- the interrupt, the units and the buffer that finds them
pub extras-freed :
    (p : ℕ) (irq has_buffer : Bool) (units : List FoundUnit)
    → (has_buffer ≡ false → units ≡ [])
    → let on = event_if irq (acquire int_server) ++ scan_events has_buffer units in
      acquired p on + acquired p (event_if irq (release int_server)) + acquired p (free_units units)
      ≡ released p on
        + released p (event_if irq (release int_server))
        + released p (free_units units)
extras-freed p irq true units h =
    let buffer = acquire inquiry_buffer ∷ (take_units units ++ (release inquiry_buffer ∷ [])) in
    omega (
      arith,
      event_if-freed p irq int_server,
      units-freed p units,
      acquired-append p (event_if irq (acquire int_server)) buffer,
      released-append p (event_if irq (acquire int_server)) buffer,
      acquired-append p (take_units units) (release inquiry_buffer ∷ []),
      released-append p (take_units units) (release inquiry_buffer ∷ []),
    )
extras-freed p irq false units h =
    subst
      (λ us.
        acquired p (event_if irq (acquire int_server) ++ [])
          + acquired p (event_if irq (release int_server))
          + acquired p (free_units us)
        ≡ released p (event_if irq (acquire int_server) ++ [])
          + released p (event_if irq (release int_server))
          + released p (free_units us))
      (sym (h refl))
      (omega (
        arith,
        event_if-freed p irq int_server,
        acquired-append p (event_if irq (acquire int_server)) [],
        released-append p (event_if irq (acquire int_server)) [],
      ))

pub loaded-AllReleased :
    (bar0 bar4 : Bool) (on off es cs us : List Event)
    → ((p : ℕ)
        → acquired p on + acquired p off + acquired p us
          ≡ released p on + released p off + released p us)
    → ((p : ℕ) → acquired p es ≡ released p es + released p cs)
    → ((p : ℕ) → acquired p cs ≡ 0)
    → AllReleased (
        (found bar0 bar4 ++ (interfaces ++ (es ++ on)))
        ++ (off ++ (cs ++ (us ++ (release_device bar0 bar4 ++ libraries_off)))))
loaded-AllReleased bar0 bar4 on off es cs us m h k p =
    let pci = release_device bar0 bar4 in
    let first = found bar0 bar4 ++ (interfaces ++ (es ++ on)) in
    let last = off ++ (cs ++ (us ++ (pci ++ libraries_off))) in
    omega (
      arith,
      m p,
      h p,
      k p,
      found-taken p bar0 bar4,
      acquired-append p first last,
      released-append p first last,
      acquired-append p (found bar0 bar4) (interfaces ++ (es ++ on)),
      released-append p (found bar0 bar4) (interfaces ++ (es ++ on)),
      acquired-append p es on,
      released-append p es on,
      acquired-append p off (cs ++ (us ++ (pci ++ libraries_off))),
      released-append p off (cs ++ (us ++ (pci ++ libraries_off))),
      acquired-append p cs (us ++ (pci ++ libraries_off)),
      released-append p cs (us ++ (pci ++ libraries_off)),
      acquired-append p us (pci ++ libraries_off),
      released-append p us (pci ++ libraries_off),
      acquired-append p pci libraries_off,
      released-append p pci libraries_off,
    )
