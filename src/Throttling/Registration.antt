-- ===== src/Throttling/Registration.antt =====
-- Registering and clearing keep the votes consistent with the requests of the sensors.
use hardware_mediatek.Base.{
  ◌+◌, ◌≤◌, ◌≡◌, ◌≢◌, Bool, true, false, Option, none, some, List, [], ◌∷◌, arith, String, ℤ, pos,
  eqb_ℤ, eqb_ℤ_eq, Map, lookup, insert, contains, if◌then◌else◌, str_eq, str_eq_iff, Bool-cases,
  Option-cases, inl, inr, ap, sym, lookup_of_not_contains,
}
use hardware_mediatek.Floats.{Float}
use hardware_mediatek.ThermalInfo.{ThrottlingInfo, BindedCdevInfo, CdevInfo}
use hardware_mediatek.Throttling.State.{ThermalThrottlingStatus, ThermalThrottling}
use hardware_mediatek.Throttling.Votes.{
  count, insert_vote, count-insert_vote, insert_vote-IsDescending,
}
use hardware_mediatek.Throttling.Tally.{votes_of, votes_of-insert, unit_at, tally, AllDescending}
use hardware_mediatek.Throttling.Consistency.{IsConsistent, requests-insert, requests-insert_new}
use hardware_mediatek.Throttling.Register.{
  Registration, add_zero_vote, register_pid, register_hardlimit, register_release, register_cdev,
  register_cdevs, register_thermal_throttling, cleared, initial_status, clear_throttling_data,
}

count-add_zero_vote :
    (j c : String) (v : ℤ) (votes : Map (List ℤ))
    → count v (votes_of c (add_zero_vote j votes))
      ≡ count v (votes_of c votes) + unit_at j (pos 0) c v
unfolding add_zero_vote unit_at
count-add_zero_vote j c v votes = elim (Bool-cases (str_eq j c)) [
  | inl same ↦
      rw (votes_of-insert j c (insert_vote (pos 0) (votes_of j votes)) votes, same)
        (ground (
          arith,
          ap (λ k. count v (votes_of k votes)) (str_eq_iff j c same),
          count-insert_vote v (pos 0) (votes_of j votes),
        ))
  | inr other ↦
      rw (votes_of-insert j c (insert_vote (pos 0) (votes_of j votes)) votes, other) (omega arith)
]

add_zero_vote-AllDescending :
    (j : String) (votes : Map (List ℤ))
    → AllDescending votes
    → AllDescending (add_zero_vote j votes)
unfolding add_zero_vote
add_zero_vote-AllDescending j votes d c = elim (Bool-cases (str_eq j c)) [
  | inl same ↦
      rw (votes_of-insert j c (insert_vote (pos 0) (votes_of j votes)) votes, same)
        (insert_vote-IsDescending (pos 0) (votes_of j votes) (d j))
  | inr other ↦ rw (votes_of-insert j c (insert_vote (pos 0) (votes_of j votes)) votes, other) (d c)
]

-- An assignment adds at most the new request.
tally-insert_le :
    (j c : String) (w v : ℤ) (m : Map ℤ) → tally c v (insert j w m) ≤ tally c v m + unit_at j w c v
unfolding tally insert unit_at
tally-insert_le j c w v [] = omega arith
tally-insert_le j c w v ((i, x) ∷ m) = elim (Bool-cases (str_eq i j)) [
  | inl hit ↦ rw hit (omega arith)
  | inr miss ↦ rw miss (ground (arith, tally-insert_le j c w v m))
]

unit_at_zero : (j c : String) (v : ℤ) → v ≢ pos 0 → unit_at j (pos 0) c v ≡ 0
unfolding unit_at
unit_at_zero j c v ne = elim (Bool-cases (eqb_ℤ (pos 0) v)) [
  | inl e ↦ absurd (ne (sym (eqb_ℤ_eq (pos 0) v e)))
  | inr e ↦ ground arith
]

-- The requests of a sensor that is being registered are zeros, and each is among the votes.
record Registered {ℓ} {W : Type ℓ} (votes : Map (List ℤ)) (r : Registration W) : Type ℓ where
  ordered : AllDescending r.votes
  covered :
      (c : String) (v : ℤ)
      → tally c v r.status.cdev_status_map + count v (votes_of c votes)
        ≤ count v (votes_of c r.votes)
  exact :
      (c : String) (v : ℤ)
      → v ≢ pos 0
      → (count v (votes_of c r.votes) ≡ count v (votes_of c votes))
        × (tally c v r.status.cdev_status_map ≡ 0)

module _ {ℓ} {W : Type ℓ} ⦃f : Float W⦄ (votes : Map (List ℤ)) where
  register_pid-Registered :
      (j : String) (r : Registration W) → Registered votes r → Registered votes (register_pid j r)
  unfolding register_pid
  register_pid-Registered j r inv = record {
    ordered = add_zero_vote-AllDescending j r.votes inv.ordered;
    covered = λ c v. omega (
      arith,
      inv.covered c v,
      count-add_zero_vote j c v r.votes,
      tally-insert_le j c (pos 0) v r.status.cdev_status_map,
    );
    exact = λ c v ne.
        let zero_unit = unit_at_zero j c v ne in
        omega (
          arith,
          inv.exact c v ne,
          count-add_zero_vote j c v r.votes,
          tally-insert_le j c (pos 0) v r.status.cdev_status_map,
        );
  }

  register_hardlimit-Registered :
      (j : String) (r : Registration W)
      → Registered votes r
      → Registered votes (register_hardlimit j r)
  unfolding register_hardlimit
  register_hardlimit-Registered j r inv = record {
    ordered = add_zero_vote-AllDescending j r.votes inv.ordered;
    covered = λ c v. omega (
      arith,
      inv.covered c v,
      count-add_zero_vote j c v r.votes,
      tally-insert_le j c (pos 0) v r.status.cdev_status_map,
    );
    exact = λ c v ne.
        let zero_unit = unit_at_zero j c v ne in
        omega (
          arith,
          inv.exact c v ne,
          count-add_zero_vote j c v r.votes,
          tally-insert_le j c (pos 0) v r.status.cdev_status_map,
        );
  }

  register_release-Registered :
      (j : String) (r : Registration W)
      → Registered votes r
      → Registered votes (register_release j r)
  unfolding register_release
  register_release-Registered j r inv = record {
    ordered = inv.ordered;
    covered = inv.covered;
    exact = inv.exact;
  }

  if-Registered :
      (b : Bool) (r s : Registration W)
      → Registered votes r
      → Registered votes s
      → Registered votes (if b then r else s)
  if-Registered true r s h k = h
  if-Registered false r s h k = k

  register_cdev-Registered :
      (j : String) (info : BindedCdevInfo W) (r : Registration W)
      → Registered votes r
      → Registered votes (register_cdev j info r)
  unfolding register_cdev
  register_cdev-Registered j info r inv =
      let first = if-Registered _ _ _ (register_pid-Registered j r inv) inv in
      let second = if-Registered _ _ _ (register_hardlimit-Registered j _ first) first in
      if-Registered _ _ _ (register_release-Registered j _ second) second

  register_cdevs-Registered :
      (cooling : Map (CdevInfo W)) (binded : Map (BindedCdevInfo W)) (r : Registration W)
      → Registered votes r
      → Registered votes (register_cdevs cooling binded r).1
  unfolding register_cdevs
  register_cdevs-Registered cooling [] r inv = inv
  register_cdevs-Registered cooling ((j, info) ∷ binded) r inv =
      elim (Bool-cases (contains j cooling)) [
        | inl e ↦ rw e (
            register_cdevs-Registered cooling binded (register_cdev j info r)
              (register_cdev-Registered j info r inv))
        | inr e ↦ rw e inv
      ]

module _ {ℓ} {W : Type ℓ} ⦃f : Float W⦄ where
  -- Registering a sensor keeps the votes consistent, whether it succeeds, refuses or stops half-way.
  pub register-IsConsistent :
      (sensor : String) (throttling_info : Option (ThrottlingInfo W)) (cooling : Map (CdevInfo W))
      (t : ThermalThrottling W)
      → IsConsistent t
      → IsConsistent (register_thermal_throttling sensor throttling_info cooling t).1
  unfolding register_thermal_throttling tally
  register-IsConsistent sensor none cooling t inv = inv
  register-IsConsistent sensor (some info) cooling t inv =
      let done =
        register_cdevs-Registered t.cdev_all_request_map cooling info.binded_cdev_info_map
          (record { status = initial_status; votes = t.cdev_all_request_map })
          (record {
            ordered = inv.ordered;
            covered = λ c v. omega arith;
            exact = λ c v ne. omega arith;
          }) in
      elim (Bool-cases (contains sensor t.thermal_throttling_status_map)) [
        | inl e ↦ rw e inv
        | inr e ↦
            let new = λ (c : String) (v : ℤ) (status : ThermalThrottlingStatus W).
              requests-insert_new c v sensor status t.thermal_throttling_status_map
                (lookup_of_not_contains sensor t.thermal_throttling_status_map e) in
            rw e (record {
              ordered = done.ordered;
              covered = λ c v. omega (arith, inv.covered c v, done.covered c v, new c v _);
              exact = λ c v ne. omega (arith, inv.exact c v ne, done.exact c v ne, new c v _);
            })
      ]

  -- Clearing a sensor leaves its requests in force, so the votes stay consistent.
  pub clear-IsConsistent :
      (sensor : String) (t : ThermalThrottling W)
      → IsConsistent t
      → IsConsistent (clear_throttling_data sensor t)
  unfolding clear_throttling_data
  clear-IsConsistent sensor t inv =
      elim (Option-cases (lookup sensor t.thermal_throttling_status_map)) [
        | inl e ↦ rw (e, clear_throttling_data) inv
        | inr (status, e) ↦
            rw (e, clear_throttling_data)
              (record {
                ordered = inv.ordered;
                covered = λ c v. omega (
                  arith,
                  inv.covered c v,
                  requests-insert c v sensor status (cleared status) t.thermal_throttling_status_map
                      e,
                );
                exact = λ c v ne. omega (
                  arith,
                  inv.exact c v ne,
                  requests-insert c v sensor status (cleared status) t.thermal_throttling_status_map
                      e,
                );
              })
      ]
