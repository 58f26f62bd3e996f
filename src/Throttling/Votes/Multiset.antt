-- ===== src/Throttling/Votes/Multiset.antt =====
-- `std::multiset<int, std::greater<int>>`, as the descending list of its elements.
use mathlib.Core.Option.{some-injective}
use hardware_mediatek.Base.{
  ℕ, ◌+◌, ◌≤◌, ◌≡◌, refl, Option, none, some, List, [], ◌∷◌, ◌>>=◌, arith, if◌then◌else◌, ℤ, ◌≤ℤ◌,
  ltb_ℤ, eqb_ℤ, All, eqb_ℤ_eq, eqb_ℤ_refl, Bool-cases, inl, inr,
}

unfoldable pub insert_vote : ℤ → List ℤ → List ℤ
insert_vote v [] = v ∷ []
insert_vote v (x ∷ xs) = if ltb_ℤ x v then v ∷ x ∷ xs else x ∷ insert_vote v xs

-- `erase(find(v))`; erasing `end()` is undefined.
unfoldable pub erase : ℤ → List ℤ → Option (List ℤ)
erase v [] = none
erase v (x ∷ xs) = if eqb_ℤ x v then some xs else (erase v xs >>= λ r. some (x ∷ r))

-- `*begin()`
abbrev pub begin : List ℤ → Option ℤ
begin [] = none
begin (x ∷ xs) = some x

unfoldable pub count : ℤ → List ℤ → ℕ
count v [] = 0
count v (x ∷ xs) = (if eqb_ℤ x v then 1 else 0) + count v xs

abbrev pub IsDescending : List ℤ → Type 0
IsDescending [] = Unit
IsDescending (x ∷ xs) = All (λ y. y ≤ℤ x) xs × IsDescending xs

pub count-insert_vote :
    (w v : ℤ) (xs : List ℤ) → count w (insert_vote v xs) ≡ (if eqb_ℤ v w then 1 else 0) + count w xs
unfolding count insert_vote
count-insert_vote w v [] = refl
count-insert_vote w v (x ∷ xs) = ground (arith, count-insert_vote w v xs)

All-insert_vote :
    (b v : ℤ) (xs : List ℤ) → v ≤ℤ b → All (λ y. y ≤ℤ b) xs → All (λ y. y ≤ℤ b) (insert_vote v xs)
unfolding insert_vote
All-insert_vote b v [] h a = (h, tt)
All-insert_vote b v (x ∷ xs) h a = ground (arith, All-insert_vote b v xs h a.1)

All-weaken : (b c : ℤ) (xs : List ℤ) → b ≤ℤ c → All (λ y. y ≤ℤ b) xs → All (λ y. y ≤ℤ c) xs
All-weaken b c [] h a = tt
All-weaken b c (x ∷ xs) h a = (omega arith, All-weaken b c xs h a.1)

pub insert_vote-IsDescending :
    (v : ℤ) (xs : List ℤ) → IsDescending xs → IsDescending (insert_vote v xs)
unfolding insert_vote
insert_vote-IsDescending v [] d = (tt, tt)
insert_vote-IsDescending v (x ∷ xs) d =
    ground (arith, insert_vote-IsDescending v xs d.1, All-insert_vote x v xs, All-weaken x v xs)

All-erase :
    (b v : ℤ) (xs ys : List ℤ) → erase v xs ≡ some ys → All (λ y. y ≤ℤ b) xs → All (λ y. y ≤ℤ b) ys
unfolding erase
All-erase b v [] ys e a = cc
All-erase b v (x ∷ xs) ys e a = grind (arith, All-erase b v xs)

pub erase-IsDescending :
    (v : ℤ) (xs ys : List ℤ) → erase v xs ≡ some ys → IsDescending xs → IsDescending ys
unfolding erase
erase-IsDescending v [] ys e d = cc
erase-IsDescending v (x ∷ xs) ys e d = grind (arith, erase-IsDescending v xs, All-erase x v xs)

pub count-erase :
    (w v : ℤ) (xs ys : List ℤ)
    → erase v xs ≡ some ys
    → count w xs ≡ (if eqb_ℤ v w then 1 else 0) + count w ys
unfolding erase count
count-erase w v [] ys e = cc
count-erase w v (x ∷ xs) ys e = grind (arith, count-erase w v xs)

-- A value that occurs can be erased.
pub erase-some : (v : ℤ) (xs : List ℤ) → 1 ≤ count v xs → (ys : List ℤ) × (erase v xs ≡ some ys)
unfolding erase count
erase-some v [] h = absurd (omega arith)
erase-some v (x ∷ xs) h = elim (Bool-cases (eqb_ℤ x v)) [
  | inl e ↦ (xs, rw e)
  | inr e ↦ let (ys, g) = erase-some v xs (ground arith) in (x ∷ ys, ground arith)
]

le_of_count : (v b : ℤ) (xs : List ℤ) → All (λ y. y ≤ℤ b) xs → 1 ≤ count v xs → v ≤ℤ b
unfolding count
le_of_count v b [] a h = absurd (omega arith)
le_of_count v b (x ∷ xs) a h = elim (Bool-cases (eqb_ℤ x v)) [
  | inl e ↦ rw (← eqb_ℤ_eq x v e) a.0
  | inr e ↦ le_of_count v b xs a.1 (ground arith)
]

-- The first element of a descending list bounds every element that occurs.
pub begin-max :
    (v m : ℤ) (xs : List ℤ) → IsDescending xs → begin xs ≡ some m → 1 ≤ count v xs → v ≤ℤ m
unfolding count
begin-max v m [] d e h = cc
begin-max v m (x ∷ xs) d e h =
    let top = some-injective x m e in
    let bound : All (λ y. y ≤ℤ x) (x ∷ xs) = (omega arith, All-weaken x x xs (omega arith) d.0) in
    rw top at (le_of_count v x (x ∷ xs) bound h)

-- The first element occurs.
pub count-begin : (m : ℤ) (xs : List ℤ) → begin xs ≡ some m → 1 ≤ count m xs
unfolding count
count-begin m [] e = cc
count-begin m (x ∷ xs) e = rw (← some-injective x m e, eqb_ℤ_refl x) (omega arith)

-- A multiset with an element has a first one.
pub begin-some : (v : ℤ) (xs : List ℤ) → 1 ≤ count v xs → (m : ℤ) × (begin xs ≡ some m)
unfolding count
begin-some v [] h = absurd (omega arith)
begin-some v (x ∷ xs) h = (x, refl)
