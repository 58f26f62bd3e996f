-- ===== src/Base/Maps.antt =====
-- `std::unordered_map<std::string, V>` as an association list: the order of the list is the order in
-- which a range-for visits the entries.
use Prim.Native.String.{String}
use mathlib.Core.Path.{◌≡◌, refl, subst}
use mathlib.Core.Logic.{◌≢◌, inl, inr}
use mathlib.Core.Bool.{Bool, true, false, ◌||◌}
use mathlib.Core.Option.{Option, none, some, some-injective}
use mathlib.Core.List.{List, [], ◌∷◌}
use native.Mathlib.Omega.{arith}
use text.Mathlib.Text.{◌==◌}
use text.Mathlib.TextEquality.{eq_iff}
use hardware_mediatek.Base.Tests.{if◌then◌else◌, Bool-cases}

abbrev pub str_eq : String → String → Bool
str_eq a b = a == b

pub str_eq_iff : (a b : String) → str_eq a b ≡ true → a ≡ b
str_eq_iff a b = (eq_iff a b).0

pub str_eq_refl : (a : String) → str_eq a a ≡ true
str_eq_refl a = (eq_iff a a).1 refl

pub str_eq_ne : (a b : String) → a ≢ b → str_eq a b ≡ false
str_eq_ne a b h = elim (Bool-cases (str_eq a b)) [
  | inl e ↦ absurd (h (str_eq_iff a b e))
  | inr e ↦ e
]

-- Whether a name is among others: `std::find`, or `count` on a set.
unfoldable pub mem_name : String → List String → Bool
mem_name s [] = false
mem_name s (x ∷ xs) = str_eq x s || mem_name s xs

abbrev pub Map {ℓ} : Type ℓ → Type ℓ
Map V = List (String × V)

module _ {ℓ} {V : Type ℓ} where
  -- `find` and `at`
  unfoldable pub lookup : String → Map V → Option V
  lookup key [] = none
  lookup key ((name, value) ∷ entries) = if str_eq name key then some value else lookup key entries

  -- `m[key] = value`
  unfoldable pub insert : String → V → Map V → Map V
  insert key value [] = (key, value) ∷ []
  insert key value ((name, old) ∷ entries) =
      if str_eq name key then (key, value) ∷ entries else (name, old) ∷ insert key value entries

  -- `count` and `contains`
  abbrev pub contains : String → Map V → Bool
  contains k m = elim (lookup k m) [ none ↦ false | some _ ↦ true ]

  -- a range-for that assigns every value
  unfoldable pub map_values : (V → V) → Map V → Map V
  map_values f [] = []
  map_values f ((j, v) ∷ m) = (j, f v) ∷ map_values f m

  pub lookup-insert :
      (key name : String) (value : V) (entries : Map V)
      → lookup name (insert key value entries)
        ≡ (if str_eq key name then some value else lookup name entries)
  unfolding lookup insert
  lookup-insert key name value [] = refl
  lookup-insert key name value ((first, old) ∷ entries) =
      let same = eq_iff first in
      ground (arith, eq_iff key name, same key, same name, lookup-insert key name value entries)

  pub lookup-insert_self : (k : String) (v : V) (m : Map V) → lookup k (insert k v m) ≡ some v
  lookup-insert_self k v m = rw (lookup-insert k k v m, str_eq_refl k)

  pub lookup-insert_ne :
      (k j : String) (v : V) (m : Map V) → k ≢ j → lookup j (insert k v m) ≡ lookup j m
  lookup-insert_ne k j v m h = rw (lookup-insert k j v m, str_eq_ne k j h)

  pub lookup-map_values :
      (f : V → V) (k : String) (m : Map V)
      → lookup k (map_values f m) ≡ elim (lookup k m) [ none ↦ none | some v ↦ some (f v) ]
  unfolding lookup map_values
  lookup-map_values f k [] = refl
  lookup-map_values f k ((j, v) ∷ m) = ground (arith, lookup-map_values f k m)

  pub contains-lookup :
      (k : String) (m : Map V) → contains k m ≡ true → (v : V) × (lookup k m ≡ some v)
  contains-lookup k m h = ground arith

  pub contains-insert_self : (k : String) (v : V) (m : Map V) → contains k (insert k v m) ≡ true
  contains-insert_self k v m = ground (arith, lookup-insert_self k v m)

  pub contains-insert :
      (k name : String) (v : V) (m : Map V)
      → contains name m ≡ true
      → contains name (insert k v m) ≡ true
  contains-insert k name v m known = ground (arith, lookup-insert k name v m)

  pub lookup_of_not_contains : (k : String) (m : Map V) → contains k m ≡ false → lookup k m ≡ none
  lookup_of_not_contains k m h = ground arith

  -- A predicate of every entry.
  abbrev pub Each {κ} : (String → V → Type κ) → Map V → Type κ
  Each P [] = Unit
  Each P ((name, v) ∷ rest) = P name v × Each P rest

  pub Each-insert {κ} :
      (P : String → V → Type κ) (key : String) (v : V) (m : Map V)
      → P key v
      → Each P m
      → Each P (insert key v m)
  unfolding insert
  Each-insert P key v [] p all = (p, tt)
  Each-insert P key v ((name, old) ∷ rest) p all = elim (Bool-cases (str_eq name key)) [
    | inl same ↦ rw same (p, all.1)
    | inr other ↦ rw other (all.0, Each-insert P key v rest p all.1)
  ]

  pub Each-lookup {κ} :
      (P : String → V → Type κ) (key : String) (v : V) (m : Map V)
      → Each P m
      → lookup key m ≡ some v
      → P key v
  unfolding lookup
  Each-lookup P key v [] all found = absurd (cc)
  Each-lookup P key v ((name, old) ∷ rest) all found = elim (Bool-cases (str_eq name key)) [
    | inl same ↦
        subst (λ w. P key w) (some-injective old v (rw same at found))
          (subst (λ n. P n old) (str_eq_iff name key same) all.0)
    | inr other ↦ Each-lookup P key v rest all.1 (rw other at found)
  ]
