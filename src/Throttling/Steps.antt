-- ===== src/Throttling/Steps.antt =====
-- The limits on the release and throttle steps, and the request that results.
use hardware_mediatek.Base.{
  ℕ, zero, suc, ◌≤◌, Bool, true, false, some, List, ◌≡◌, ◌⊎◌, inl, inr, arith, ℤ, pos, ◌-ℤ◌, ◌≤ℤ◌,
  ◌<ℤ◌, ltb_ℤ, eqb_ℤ, max_ℤ, min_ℤ, pos_part, if◌then◌else◌, Bool-cases, -ℤ_parts, min_ℤ-le_right,
  min_ℤ-le_left, le-min_ℤ, max_ℤ-le, le-max_ℤ_right, ≤ℤ_trans, ≤ℤ_refl, eqb_ℤ_ne, refl, leb_ℤ,
  not_ltb_ℤ→le, ltb_ℤ→lt, ℤ,
}
use hardware_mediatek.Floats.{Float}
use hardware_mediatek.Throttling.Pid.{elem_at}
use hardware_mediatek.Throttling.Limits.{release_target, release_state}
use hardware_mediatek.Throttling.Request.{request_state}

if_le : (b : Bool) (x y m : ℤ) → x ≤ℤ m → y ≤ℤ m → (if b then x else y) ≤ℤ m
if_le true x y m h k = h
if_le false x y m h k = k

sub_le : (a b : ℤ) → pos 0 ≤ℤ b → a -ℤ b ≤ℤ a
sub_le a b h = omega (arith, -ℤ_parts a b)

le_if : (b : Bool) (x y m : ℤ) → m ≤ℤ x → m ≤ℤ y → m ≤ℤ (if b then x else y)
le_if true x y m h k = h
le_if false x y m h k = k

max_nonneg : (a b : ℤ) → pos 0 ≤ℤ a → pos 0 ≤ℤ max_ℤ a b
max_nonneg a b h = ground arith

released_nonneg : (top release : ℤ) → pos 0 ≤ℤ (if leb_ℤ top release then pos 0 else top -ℤ release)
released_nonneg top release = ground (arith, -ℤ_parts top release)

released_eq :
    (top release : ℤ)
    → (if leb_ℤ top release then pos 0 else top -ℤ release) ≡ max_ℤ (pos 0) (top -ℤ release)
released_eq top release = ground (arith, -ℤ_parts top release)

between : (x floor ceiling : ℤ) → floor ≤ℤ x → x ≤ℤ ceiling → min_ℤ (max_ℤ x floor) ceiling ≡ x
between x floor ceiling low high = ground arith

at_floor :
    (x floor ceiling : ℤ) → x ≤ℤ floor → floor ≤ℤ ceiling → min_ℤ (max_ℤ x floor) ceiling ≡ floor
at_floor x floor ceiling low high = ground arith

at_ceiling : (x floor ceiling : ℤ) → ceiling ≤ℤ x → min_ℤ (max_ℤ x floor) ceiling ≡ ceiling
at_ceiling x floor ceiling high = ground arith

fuel_down :
    (state limit : ℤ) (fuel : ℕ)
    → pos_part (state -ℤ limit) ≤ suc fuel
    → limit <ℤ state
    → pos_part (state -ℤ pos 1 -ℤ limit) ≤ fuel
unfolding ◌-ℤ◌
fuel_down state limit fuel h above = ground arith

-- A request of a sensor is never over the ceiling. Without a release step it is the greater of the two
-- requests, as far as the ceiling allows. With one it is that greater request less the step, but at
-- least 0, where that lies between the floor and the ceiling; it is the floor where that lies below
-- it and the floor is at most the ceiling, and the ceiling where that lies above it. So with a floor
-- up to the ceiling it is at least the floor. It is not above the greater request where the step and
-- that request are not negative and the floor is at most that request.
pub request_state_lem :
    (pid hardlimit release floor ceiling : ℤ)
    → let r = request_state pid hardlimit release floor ceiling in
      let lowered = max_ℤ (pos 0) (max_ℤ pid hardlimit -ℤ release) in
      (r ≤ℤ ceiling)
      × (release ≡ pos 0 → r ≡ min_ℤ (max_ℤ pid hardlimit) ceiling)
      × ((release ≡ pos 0 → ⊥) → floor ≤ℤ ceiling → floor ≤ℤ r)
      × (pos 0 ≤ℤ release
          → floor ≤ℤ max_ℤ pid hardlimit
          → pos 0 ≤ℤ max_ℤ pid hardlimit
          → r ≤ℤ max_ℤ pid hardlimit)
      × ((release ≡ pos 0 → ⊥) → floor ≤ℤ lowered → lowered ≤ℤ ceiling → r ≡ lowered)
      × ((release ≡ pos 0 → ⊥) → lowered ≤ℤ floor → floor ≤ℤ ceiling → r ≡ floor)
      × ((release ≡ pos 0 → ⊥) → ceiling ≤ℤ lowered → r ≡ ceiling)
unfolding request_state
request_state_lem pid hardlimit release floor ceiling =
    let top = max_ℤ pid hardlimit in
    let released = if leb_ℤ top release then pos 0 else top -ℤ release in
    let wanted = if eqb_ℤ release (pos 0) then top else max_ℤ released floor in
    let same : released ≡ max_ℤ (pos 0) (top -ℤ release) = released_eq top release in
    (
      min_ℤ-le_right wanted ceiling,
      λ e. rw e refl,
      λ ne le.
          rw (eqb_ℤ_ne release (pos 0) ne)
            (le-min_ℤ (max_ℤ released floor) ceiling floor (le-max_ℤ_right released floor) le),
      λ nonneg low positive.
          ≤ℤ_trans (min_ℤ wanted ceiling) wanted top (min_ℤ-le_left wanted ceiling) (
            if_le (eqb_ℤ release (pos 0)) top (max_ℤ released floor) top (≤ℤ_refl top) (
              max_ℤ-le released floor top
                (if_le (leb_ℤ top release) (pos 0) (top -ℤ release) top positive
                  (sub_le top release nonneg))
                low)),
      λ ne low high.
          rw (eqb_ℤ_ne release (pos 0) ne, same)
            (between (max_ℤ (pos 0) (top -ℤ release)) floor ceiling low high),
      λ ne low high.
          rw (eqb_ℤ_ne release (pos 0) ne, same)
            (at_floor (max_ℤ (pos 0) (top -ℤ release)) floor ceiling low high),
      λ ne high.
          rw (eqb_ℤ_ne release (pos 0) ne, same)
            (at_ceiling (max_ℤ (pos 0) (top -ℤ release)) floor ceiling high),
    )

-- No request is negative where the request of the control and the ceiling are not.
pub request_state-nonneg :
    (pid hardlimit release floor ceiling : ℤ)
    → pos 0 ≤ℤ pid
    → pos 0 ≤ℤ ceiling
    → pos 0 ≤ℤ request_state pid hardlimit release floor ceiling
unfolding request_state
request_state-nonneg pid hardlimit release floor ceiling low high =
    let top = max_ℤ pid hardlimit in
    let released = if leb_ℤ top release then pos 0 else top -ℤ release in
    let wanted = if eqb_ℤ release (pos 0) then top else max_ℤ released floor in
    le-min_ℤ wanted ceiling (pos 0)
      (le_if (eqb_ℤ release (pos 0)) top (max_ℤ released floor) (pos 0)
        (max_nonneg pid hardlimit low) (max_nonneg released floor (released_nonneg top release)))
      high

module _ {ℓ} {W : Type ℓ} ⦃f : Float W⦄ where
  -- Where a search downwards from `state` may end: no higher, and at the limit or where the power differs.
  abbrev pub Releases : List W → ℤ → W → ℤ → ℤ → Type ℓ
  Releases powers limit curr_power state r =
      (r ≤ℤ state)
      × ((r ≤ℤ limit)
          ⊎ (power : W) × (elem_at powers r ≡ some power) × (f.eq power curr_power ≡ false))

  -- The table has a power for every state above the limit.
  abbrev pub HasPowers : List W → ℤ → ℤ → Type ℓ
  HasPowers powers limit state =
      (s : ℤ) → limit <ℤ s → s ≤ℤ state → (power : W) × (elem_at powers s ≡ some power)

  release_target_lem :
      (powers : List W) (limit : ℤ) (curr_power : W) (fuel : ℕ) (state : ℤ)
      → pos_part (state -ℤ limit) ≤ fuel
      → HasPowers powers limit state
      → (r : ℤ) × (release_target powers limit curr_power fuel state ≡ some r)
        × Releases powers limit curr_power state r
  unfolding release_target
  release_target_lem powers limit p zero state h has =
      (state, refl, (≤ℤ_refl state, inl (omega (arith, -ℤ_parts state limit))))
  release_target_lem powers limit p (suc fuel) state h has = elim (Bool-cases (ltb_ℤ limit state)) [
    | inl above ↦
        let reached = ltb_ℤ→lt limit state above in
        let down = sub_le state (pos 1) (omega arith) in
        let (power, at) = has state reached (≤ℤ_refl state) in
        let (r, found, (low, stop)) =
          release_target_lem powers limit p fuel (state -ℤ pos 1)
            (fuel_down state limit fuel h reached)
            (λ s l u. has s l (≤ℤ_trans s (state -ℤ pos 1) state u down)) in
        elim (Bool-cases (f.eq power p)) [
          | inl equal ↦
              (r, rw (above, at, equal) found, (≤ℤ_trans r (state -ℤ pos 1) state low down, stop))
          | inr other ↦ (state, rw (above, at, other) refl, (≤ℤ_refl state, inr (power, at, other)))
        ]
    | inr below ↦ (state, rw below refl, (≤ℤ_refl state, inl (not_ltb_ℤ→le limit state below)))
  ]

  -- With a step that is not negative and a power for every state above the limit, the search for the
  -- state to release to gives an answer, at least a step below the current state; it stops at the limit
  -- or below it, or else at a state that has another power than the current one.
  pub release_state_lem :
      (powers : List W) (limit curr step : ℤ)
      → pos 0 ≤ℤ step
      → HasPowers powers limit curr
      → (r : ℤ) × (release_state powers limit curr step ≡ some r)
        × (r ≤ℤ curr -ℤ step)
        × ((r ≤ℤ limit)
            ⊎ (power : W) × (curr_power : W) × (elem_at powers r ≡ some power)
              × (elem_at powers curr ≡ some curr_power)
              × (f.eq power curr_power ≡ false))
  unfolding release_state
  release_state_lem powers limit curr step positive has =
      let state = curr -ℤ step in
      let down = sub_le curr step positive in
      elim (Bool-cases (ltb_ℤ limit state)) [
        | inl above ↦
            let reached = ltb_ℤ→lt limit state above in
            let (p, at) = has curr (omega (arith, reached, down)) (≤ℤ_refl curr) in
            let (r, found, (low, stop)) =
              release_target_lem powers limit p (pos_part (state -ℤ limit)) state (omega arith)
                (λ s l u. has s l (≤ℤ_trans s state curr u down)) in
            (
              r,
              rw (above, at) found,
              low,
              elim stop [ inl l ↦ inl l | inr (q, at_r, ne) ↦ inr (q, p, at_r, at, ne) ],
            )
        | inr below ↦ (state, rw below refl, ≤ℤ_refl state, inl (not_ltb_ℤ→le limit state below))
      ]
