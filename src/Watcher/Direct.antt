-- ===== src/Watcher/Direct.antt =====
-- A write to a cooling device that takes its state directly is the greatest request for it.
use hardware_mediatek.Base.{
  ℕ, zero, suc, ◌≡◌, false, some, List, [], ◌∷◌, >>=-eq-some, String, ℤ, Map, lookup, Option-cases,
  inl, inr, get_elem?, subst, sym, ap, ◌∙◌,
}
use mathlib.Core.Option.{some-injective}
use hardware_mediatek.Floats.{Float}
use hardware_mediatek.ThermalInfo.{CdevInfo}
use hardware_mediatek.Throttling.Votes.{get_cdev_max_request}
use hardware_mediatek.Cooling.{request_for, update_cooling_devices}

nothing_at : (i : ℕ) (w : String × ℤ) → get_elem? [] i ≡ some w → ⊥
nothing_at i w h = cc

direct_state {ℓ} :
    {W : Type ℓ} ⦃f : Float W⦄ (info : CdevInfo W) (max_state request : ℤ)
    → info.apply_powercap ≡ false
    → request_for info max_state ≡ some request
    → max_state ≡ request
unfolding request_for
direct_state info max_state request direct asked =
    some-injective max_state request (rw direct at asked)

-- The write at a place, with what the later places say.
at_write {ℓ} :
    {W : Type ℓ} ⦃f : Float W⦄ (cooling : Map (CdevInfo W)) (requests : Map (List ℤ))
    (c cdev : String) (max_state request m : ℤ) (cdev_info info : CdevInfo W)
    (rest : List (String × ℤ)) (i : ℕ)
    → get_cdev_max_request c requests ≡ some max_state
    → lookup c cooling ≡ some cdev_info
    → request_for cdev_info max_state ≡ some request
    → lookup cdev cooling ≡ some info
    → info.apply_powercap ≡ false
    → get_elem? ((c, request) ∷ rest) i ≡ some (cdev, m)
    → ((j : ℕ) → get_elem? rest j ≡ some (cdev, m) → get_cdev_max_request cdev requests ≡ some m)
    → get_cdev_max_request cdev requests ≡ some m
unfolding request_for
at_write cooling requests c cdev max_state request m cdev_info info rest (suc j) greatest found
      asked known direct at later =
    later j at
at_write {W = W} cooling requests c cdev max_state request m cdev_info info rest zero greatest found
      asked known direct at later =
    let same = some-injective (c, request) (cdev, m) at in
    let name : c ≡ cdev = ap (λ (x : String × ℤ). x.0) same in
    let value : request ≡ m = ap (λ (x : String × ℤ). x.1) same in
    let device : cdev_info ≡ info =
      some-injective cdev_info info (sym found ∙ ap (λ k. lookup k cooling) name ∙ known) in
    let capped : cdev_info.apply_powercap ≡ false =
      ap (λ (x : CdevInfo W). x.apply_powercap) device ∙ direct in
    let state : max_state ≡ request = direct_state cdev_info max_state request capped asked in
    subst (λ k. get_cdev_max_request k requests ≡ some m) name (greatest ∙ ap some (state ∙ value))

-- A write to a device that takes its state directly is the greatest request for it.
pub direct_write {ℓ} :
    {W : Type ℓ} ⦃f : Float W⦄ (cooling : Map (CdevInfo W)) (requests : Map (List ℤ))
    (cdevs : List String) (writes : List (String × ℤ)) (i : ℕ) (cdev : String) (m : ℤ)
    (info : CdevInfo W)
    → update_cooling_devices cooling requests cdevs ≡ some writes
    → get_elem? writes i ≡ some (cdev, m)
    → lookup cdev cooling ≡ some info
    → info.apply_powercap ≡ false
    → get_cdev_max_request cdev requests ≡ some m
unfolding update_cooling_devices request_for
direct_write cooling requests [] writes i cdev m info run at known direct = absurd (
    nothing_at i (cdev, m)
      (subst (λ ws. get_elem? ws i ≡ some (cdev, m)) (sym (some-injective _ writes run)) at))
direct_write cooling requests (c ∷ cdevs) writes i cdev m info run at known direct =
    let (cdev_info, found, run1) = >>=-eq-some (lookup c cooling) _ run in
    let (rest, runs, run2) = >>=-eq-some (update_cooling_devices cooling requests cdevs) _ run1 in
    let later = λ (j : ℕ) (there : get_elem? rest j ≡ some (cdev, m)).
      direct_write cooling requests cdevs rest j cdev m info runs there known direct in
    elim (Option-cases (get_cdev_max_request c requests)) [
      | inl absent ↦ later i (
          subst (λ ws. get_elem? ws i ≡ some (cdev, m))
            (sym (some-injective rest writes (rw absent at run2))) at)
      | inr (max_state, greatest) ↦
          let (request, asked, run3) =
            >>=-eq-some (request_for cdev_info max_state) _ (rw greatest at run2) in
          at_write cooling requests c cdev max_state request m cdev_info info rest i greatest found
            asked known direct
            (subst (λ ws. get_elem? ws i ≡ some (cdev, m)) (sym (some-injective _ writes run3)) at)
            later
    ]
