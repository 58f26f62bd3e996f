-- ===== src/Floats.antt =====
-- What the thermal code does with `float`: the arithmetic, the comparisons, NaN, the two extreme
-- finite values and the conversions from and to integers. The arithmetic is a parameter, so nothing
-- is assumed of rounding; `IsOrdered` is what IEEE 754 says of the comparisons.
use hardware_mediatek.Base.{
  ◌≡◌, ◌⊎◌, Bool, true, false, not, Option, some, none, arith, ℤ, pos, negsuc, ◌+ℤ◌, ◌-ℤ◌, ◌*ℤ◌,
  ltb_ℤ, leb_ℤ, eqb_ℤ, abs_ℤ, if◌then◌else◌, pos_part, ◌/◌, suc,
}

pub record Float {ℓ} (W : Type ℓ) : Type ℓ where
  pub nan : W
  -- `std::numeric_limits<float>::max()` and `lowest()`
  pub biggest : W
  pub lowest : W
  -- `std::numeric_limits<float>::min()`, the least positive number of full precision
  pub smallest : W
  pub add : W → W → W
  pub sub : W → W → W
  pub mul : W → W → W
  pub div : W → W → W
  pub lt : W → W → Bool
  pub le : W → W → Bool
  pub eq : W → W → Bool
  pub isnan : W → Bool
  pub fabs : W → W
  -- conversions; `to_int` cuts the fraction off and `lround` rounds
  pub of_int : ℤ → W
  pub to_int : W → ℤ
  pub lround : W → ℤ

module _ {ℓ} {W : Type ℓ} ⦃f : Float W⦄ where
  abbrev pub zero_f : W
  zero_f = f.of_int (pos 0)

  abbrev pub neg_f : W → W
  neg_f x = f.sub zero_f x

  -- `std::min`, `std::max` and `std::clamp`, with the order of their comparisons
  abbrev pub min_f : W → W → W
  min_f x y = if f.lt y x then y else x

  abbrev pub max_f : W → W → W
  max_f x y = if f.lt x y then y else x

  abbrev pub clamp : W → W → W → W
  clamp x lo hi = if f.lt x lo then lo else if f.lt hi x then hi else x

infix 4 ◌≼◌
abbrev pub ◌≼◌ {ℓ} : {W : Type ℓ} ⦃f : Float W⦄ → W → W → Type 0
◌≼◌ ⦃f⦄ x y = f.le x y ≡ true

abbrev pub IsNumber {ℓ} : {W : Type ℓ} ⦃f : Float W⦄ → W → Type 0
IsNumber ⦃f⦄ x = f.isnan x ≡ false

-- The comparisons of IEEE 754: with NaN every one is false; numbers are totally ordered.
pub record IsOrdered {ℓ} (W : Type ℓ) ⦃f : Float W⦄ : Type ℓ where
  pub le_refl : (x : W) → IsNumber x → x ≼ x
  pub le_number : (x y : W) → x ≼ y → (f.isnan x ≡ false) × (f.isnan y ≡ false)
  pub lt_number : (x y : W) → f.lt x y ≡ true → (f.isnan x ≡ false) × (f.isnan y ≡ false)
  pub le_trans : (x y z : W) → x ≼ y → y ≼ z → x ≼ z
  pub le_total : (x y : W) → IsNumber x → IsNumber y → (x ≼ y) ⊎ (y ≼ x)
  pub lt-eq-not-le : (x y : W) → IsNumber x → IsNumber y → f.lt x y ≡ not (f.le y x)

-- A model of the laws: whole numbers, with `none` for NaN.
abbrev pub Whole : Type 0
Whole = Option ℤ

abbrev pub on_numbers : (ℤ → ℤ → Bool) → Whole → Whole → Bool
on_numbers p (some a) (some b) = p a b
on_numbers p _ _ = false

abbrev pub on_both : (ℤ → ℤ → ℤ) → Whole → Whole → Whole
on_both g (some a) (some b) = some (g a b)
on_both g _ _ = none

-- division towards zero
abbrev div_ℤ : ℤ → ℤ → ℤ
div_ℤ (pos a) (pos b) = pos (a / b)
div_ℤ (negsuc a) (negsuc b) = pos (suc a / suc b)
div_ℤ a b = pos 0 -ℤ pos (pos_part (abs_ℤ a) / pos_part (abs_ℤ b))

abbrev value_of : Whole → ℤ
value_of none = pos 0
value_of (some a) = a

instance abbrev pub whole_float : Float Whole
whole_float = record {
  nan = none;
  biggest = some (pos 1_000_000);
  lowest = some (negsuc 999_999);
  smallest = some (pos 1);
  add = on_both ◌+ℤ◌;
  sub = on_both ◌-ℤ◌;
  mul = on_both ◌*ℤ◌;
  div = on_both div_ℤ;
  lt = on_numbers ltb_ℤ;
  le = on_numbers leb_ℤ;
  eq = on_numbers eqb_ℤ;
  isnan = λ x. elim x [ none ↦ true | some _ ↦ false ];
  fabs = λ x. elim x [ none ↦ none | some a ↦ some (abs_ℤ a) ];
  of_int = some;
  to_int = value_of;
  lround = value_of;
}

pub Whole-IsOrdered : IsOrdered Whole
Whole-IsOrdered = ground arith
