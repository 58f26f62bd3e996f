-- ===== src/Throttling/PowerState.antt =====
-- `updateCdevRequestByPower` against its purpose: the lowest state whose power the budget covers.
use hardware_mediatek.Base.{
  is_empty, ap, ℕ, zero, suc, Bool, true, false, Option, none, some, List, [], ◌∷◌, ◌≡◌, refl, ◌≤◌,
  ◌<◌, ◌⊎◌, inl, inr, arith, String, ℤ, pos, Map, lookup, insert, contains, map_values,
  lookup-insert, lookup-map_values, length, get_elem?, Bool-cases, Option-cases, if◌then◌else◌,
  >>=-eq-some,
}
use hardware_mediatek.Floats.{Float, IsOrdered, ◌≼◌}
use hardware_mediatek.ThermalInfo.{CdevInfo}
use hardware_mediatek.Throttling.Allocate.{assign}
use hardware_mediatek.Throttling.Update.{state_for_power, update_cdev_request_by_power}

module _ {ℓ} {W : Type ℓ} ⦃f : Float W⦄ where
  state-lt : (budget : W) (p : W) (ps : List W) → state_for_power budget (p ∷ ps) < suc (length ps)
  unfolding state_for_power
  state-lt budget p [] = omega arith
  state-lt budget p (q ∷ ps) = ground (arith, state-lt budget q ps)

  below_state :
      (budget : W) (p : W) (ps : List W) (j : ℕ) (q : W)
      → j < state_for_power budget (p ∷ ps)
      → get_elem? (p ∷ ps) j ≡ some q
      → f.le q budget ≡ false
  unfolding state_for_power
  below_state budget p [] j q h e = absurd (omega arith)
  below_state budget p (x ∷ ps) zero q h e = ground arith
  below_state budget p (x ∷ ps) (suc j) q h e = ground (arith, below_state budget x ps j q)

  covers_state :
      (budget : W) (p : W) (ps : List W)
      → (state_for_power budget (p ∷ ps) ≡ length ps)
        ⊎ ((q : W) × (get_elem? (p ∷ ps) (state_for_power budget (p ∷ ps)) ≡ some q) × (q ≼ budget))
  unfolding state_for_power
  covers_state budget p [] = inl refl
  covers_state budget p (x ∷ ps) = elim (Bool-cases (f.le p budget)) [
    | inl fits ↦ rw fits (inr (p, refl, fits))
    | inr over ↦
        rw over
          (elim (covers_state budget x ps) [ inl last ↦ inl (ap suc last) | inr found ↦ inr found ])
  ]

  -- The state for a power budget is a state of the table. The power of every lower state exceeds the
  -- budget, and its own does not, unless it is the last one.
  pub state_for_power_lem :
      (budget p : W) (ps : List W)
      → let i = state_for_power budget (p ∷ ps) in
        (i < length (p ∷ ps))
        × ((j : ℕ) (q : W) → j < i → get_elem? (p ∷ ps) j ≡ some q → f.le q budget ≡ false)
        × ((i ≡ length ps) ⊎ ((q : W) × (get_elem? (p ∷ ps) i ≡ some q) × (q ≼ budget)))
  state_for_power_lem budget p ps =
      (state-lt budget p ps, λ j q. below_state budget p ps j q, covers_state budget p ps)

  -- More power never throttles more: where comparisons are ordered, a greater budget has no higher
  -- state.
  pub state_for_power_anti :
      IsOrdered W
      → (low high : W) (powers : List W) → low ≼ high
      → state_for_power high powers ≤ state_for_power low powers
  unfolding state_for_power
  state_for_power_anti laws low high [] h = omega arith
  state_for_power_anti laws low high (p ∷ []) h = omega arith
  state_for_power_anti laws low high (p ∷ q ∷ ps) h =
      ground (arith, laws.le_trans p low high, state_for_power_anti laws low high (q ∷ ps))

-- Two request maps agree on a device, or a budget is still to set its request.
abbrev Agrees : Map ℤ → Map ℤ → Map ℤ → String → Type 0
Agrees budgets m m' c = (lookup c m ≡ lookup c m') ⊎ (contains c budgets ≡ true)

assign-eq : (cdev : String) (v : ℤ) (m r : Map ℤ) → assign cdev v m ≡ some r → r ≡ insert cdev v m
unfolding assign
assign-eq cdev v m r e = let (_, _, done) = >>=-eq-some (lookup cdev m) _ e in cc

assign-Agrees :
    (cdev : String) (budget v : ℤ) (budgets m m' r r' : Map ℤ)
    → assign cdev v m ≡ some r
    → assign cdev v m' ≡ some r'
    → ((c : String) → Agrees ((cdev, budget) ∷ budgets) m m' c)
    → (c : String) → Agrees budgets r r' c
unfolding lookup
assign-Agrees cdev budget v budgets m m' r r' e e' agree c =
    rw (assign-eq cdev v m r e, assign-eq cdev v m' r' e')
      (ground (arith, lookup-insert cdev c v m, lookup-insert cdev c v m', agree c))

module _ {ℓ} {W : Type ℓ} ⦃f : Float W⦄ where
  by_power-found :
      (cooling : Map (CdevInfo W)) (cdev : String) (budget : ℤ) (budgets m r : Map ℤ)
      → lookup cdev cooling ≡ none
      → update_cdev_request_by_power cooling ((cdev, budget) ∷ budgets) m ≡ some r
      → ⊥
  unfolding update_cdev_request_by_power
  by_power-found cooling cdev budget budgets m r missing e =
      let (info, found, _) = >>=-eq-some (lookup cdev cooling) _ e in cc

  by_power-step :
      (cooling : Map (CdevInfo W)) (cdev : String) (budget : ℤ) (budgets : Map ℤ)
      (info : CdevInfo W) (m r : Map ℤ)
      → lookup cdev cooling ≡ some info
      → update_cdev_request_by_power cooling ((cdev, budget) ∷ budgets) m ≡ some r
      → (n : Map ℤ) × (assign cdev (pos (state_for_power (f.of_int budget) info.state2power)) m
          ≡ some n)
        × (update_cdev_request_by_power cooling budgets n ≡ some r)
  unfolding update_cdev_request_by_power
  by_power-step cooling cdev budget budgets info m r found e =
      let state = pos (state_for_power (f.of_int budget) info.state2power) in
      let run = rw found at e in
      let (n, set, rest) =
        >>=-eq-some (if is_empty info.state2power then none else assign cdev state m) _ run in
      (n, nonempty (is_empty info.state2power) set, rest)
    where
      nonempty :
          {n : Map ℤ} (b : Bool) {o : Option (Map ℤ)}
          → (if b then none else o) ≡ some n
          → o ≡ some n
      nonempty true h = cc
      nonempty false h = h

  by_power-Agrees :
      (cooling : Map (CdevInfo W)) (budgets m m' r r' : Map ℤ)
      → update_cdev_request_by_power cooling budgets m ≡ some r
      → update_cdev_request_by_power cooling budgets m' ≡ some r'
      → ((c : String) → Agrees budgets m m' c)
      → (c : String) → lookup c r ≡ lookup c r'
  unfolding update_cdev_request_by_power lookup
  by_power-Agrees cooling [] m m' r r' e e' agree c = ground (arith, agree c)
  by_power-Agrees cooling ((cdev, budget) ∷ budgets) m m' r r' e e' agree c =
      elim (Option-cases (lookup cdev cooling)) [
        | inl missing ↦ absurd (by_power-found cooling cdev budget budgets m r missing e)
        | inr (info, found) ↦
            let (n, set, run) = by_power-step cooling cdev budget budgets info m r found e in
            let (n', set', run') = by_power-step cooling cdev budget budgets info m' r' found e' in
            by_power-Agrees cooling budgets n n' r r' run run'
              (assign-Agrees cdev budget _ budgets m m' n n' set set' agree) c
      ]

  -- Clearing the requests after a failed allocation has no effect, since the requests are then set
  -- from the budgets: where every device with a request has a budget, the result is the same.
  pub by_power_clear :
      (cooling : Map (CdevInfo W)) (budgets requests r r' : Map ℤ)
      → ((c : String) → contains c requests ≡ true → contains c budgets ≡ true)
      → update_cdev_request_by_power cooling budgets (map_values (λ _. pos 0) requests) ≡ some r
      → update_cdev_request_by_power cooling budgets requests ≡ some r'
      → (c : String) → lookup c r ≡ lookup c r'
  by_power_clear cooling budgets requests r r' budgeted e e' =
      by_power-Agrees cooling budgets (map_values (λ _. pos 0) requests) requests r r' e e'
        λ c. ground (arith, lookup-map_values (λ _. pos 0) c requests, budgeted c)
