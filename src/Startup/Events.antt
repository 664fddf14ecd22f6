-- ===== src/Startup/Events.antt =====
-- The pieces that the driver acquires and releases when it is loaded (src/Init.c), counted.

use virtual_scsidevice.Base.{ℕ, ◌+◌, ◌≡◌, ◌==◌, if◌then◌else◌, List, [], ◌∷◌, ◌++◌, arith}
use virtual_scsidevice.Startup.{Event, acquire, release}

-- How often a piece is acquired, and how often it is released.
abbrev pub acquired : ℕ → List Event → ℕ
acquired p [] = 0
acquired p (acquire piece ∷ es) = (if piece == p then 1 else 0) + acquired p es
acquired p (release piece ∷ es) = acquired p es

abbrev pub released : ℕ → List Event → ℕ
released p [] = 0
released p (acquire piece ∷ es) = released p es
released p (release piece ∷ es) = (if piece == p then 1 else 0) + released p es

-- Every piece is released as often as it is acquired.
abbrev pub AllReleased : List Event → Type 0
AllReleased es = (p : ℕ) → acquired p es ≡ released p es

pub acquired-append :
    (p : ℕ) (es fs : List Event) → acquired p (es ++ fs) ≡ acquired p es + acquired p fs
acquired-append p [] fs = omega arith
acquired-append p (acquire piece ∷ es) fs = omega (arith, acquired-append p es fs)
acquired-append p (release piece ∷ es) fs = omega (arith, acquired-append p es fs)

pub released-append :
    (p : ℕ) (es fs : List Event) → released p (es ++ fs) ≡ released p es + released p fs
released-append p [] fs = omega arith
released-append p (acquire piece ∷ es) fs = omega (arith, released-append p es fs)
released-append p (release piece ∷ es) fs = omega (arith, released-append p es fs)
