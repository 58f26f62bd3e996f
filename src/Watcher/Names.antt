-- ===== src/Watcher/Names.antt =====
-- The sensors with a status are those that the handler goes through, also after its events.
use hardware_mediatek.Base.{
  ℕ, ◌≡◌, true, some, [], ◌∷◌, >>=-eq-some, String, Map, lookup, contains, contains-insert, All,
  Bool-cases, inl, inr, subst, str_eq, str_eq_iff,
}
use mathlib.Core.Option.{some-injective}
use hardware_mediatek.Floats.{Float}
use hardware_mediatek.Emulation.{Statuses, names_of}
use hardware_mediatek.Watcher.Due.{store_events}

module _ {ℓ} {W : Type ℓ} where
  pub among_names {κ} :
      (P : String → Type κ) (name : String) (m : Statuses W)
      → All P (names_of m)
      → contains name m ≡ true
      → P name
  unfolding lookup
  among_names P name [] all known = absurd (cc)
  among_names P name ((k, s) ∷ m) all known = elim (Bool-cases (str_eq k name)) [
    | inl same ↦ subst P (str_eq_iff k name same) all.0
    | inr other ↦ among_names P name m all.1 (rw (other, contains) at known)
  ]

module _ {ℓ} {W : Type ℓ} ⦃f : Float W⦄ where
  pub contains-store_events :
      (now : ℕ) (events : Map W) (name : String) (statuses out : Statuses W)
      → store_events now events statuses ≡ some out
      → contains name statuses ≡ true
      → contains name out ≡ true
  unfolding store_events
  contains-store_events now [] name statuses out run known =
      subst (λ (m : Statuses W). contains name m ≡ true) (some-injective statuses out run) known
  contains-store_events now ((k, temp) ∷ events) name statuses out run known =
      elim (Bool-cases (f.isnan temp)) [
        | inl nan ↦ contains-store_events now events name statuses out (rw nan at run) known
        | inr number ↦
            let (status, _, rest) = >>=-eq-some (lookup k statuses) _ (rw number at run) in
            contains-store_events now events name _ out rest
              (contains-insert k name _ statuses known)
      ]
