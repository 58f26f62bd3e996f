-- ===== src/ThermalInfo/Severities.antt =====
-- `ThrottlingSeverity`: the order of the enumeration, as `::ndk::enum_range` walks it.
use mathlib.Core.Path.{◌≡◌, refl}
use mathlib.Core.Bool.{Bool}
use mathlib.Core.List.{List, [], ◌∷◌}
use mathlib.Core.Option
use Prim.Native.Nat.{ℕ}
use native.Mathlib.Omega.{arith}
use hardware_mediatek.Base.{ltb, leb, ◌==◌, if◌then◌else◌, get_elem?, ◌≤◌}

pub data ThrottlingSeverity : Type 0 where
  none light moderate severe critical emergency shutdown : ThrottlingSeverity

-- `static_cast<size_t>(severity)`
abbrev pub index : ThrottlingSeverity → ℕ
index none = 0
index light = 1
index moderate = 2
index severe = 3
index critical = 4
index emergency = 5
index shutdown = 6

abbrev pub last_index : ℕ
last_index = 6

-- `::ndk::enum_range<ThrottlingSeverity>()`
abbrev pub severities : List ThrottlingSeverity
severities = none ∷ light ∷ moderate ∷ severe ∷ critical ∷ emergency ∷ shutdown ∷ []

-- `for (size_t i = SHUTDOWN; i > NONE; --i)`
abbrev pub severities_down : List ThrottlingSeverity
severities_down = shutdown ∷ emergency ∷ critical ∷ severe ∷ moderate ∷ light ∷ []

-- `static_cast<ThrottlingSeverity>`, within the range of the enumeration
abbrev pub severity_of : ℕ → Option.Option ThrottlingSeverity
severity_of = get_elem? severities

abbrev pub sev_lt : ThrottlingSeverity → ThrottlingSeverity → Bool
sev_lt a b = ltb (index a) (index b)

abbrev pub sev_le : ThrottlingSeverity → ThrottlingSeverity → Bool
sev_le a b = leb (index a) (index b)

abbrev pub sev_eq : ThrottlingSeverity → ThrottlingSeverity → Bool
sev_eq a b = index a == index b

abbrev pub max_sev : ThrottlingSeverity → ThrottlingSeverity → ThrottlingSeverity
max_sev a b = if sev_lt a b then b else a

pub severity_of-index : (s : ThrottlingSeverity) → severity_of (index s) ≡ Option.some s
severity_of-index none = refl
severity_of-index light = refl
severity_of-index moderate = refl
severity_of-index severe = refl
severity_of-index critical = refl
severity_of-index emergency = refl
severity_of-index shutdown = refl

pub index_injective : (s t : ThrottlingSeverity) → index s ≡ index t → s ≡ t
index_injective s t h = ground arith

pub index-le_last : (s : ThrottlingSeverity) → index s ≤ last_index
index-le_last s = ground arith
