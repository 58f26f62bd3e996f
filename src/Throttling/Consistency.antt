-- ===== src/Throttling/Consistency.antt =====
-- The invariant of the throttling state: each cooling device's multiset holds the requests that the
-- sensors have in force, and nothing else but zeros.
use hardware_mediatek.Base.{
  ℕ, ◌+◌, ◌≤◌, ◌≡◌, ◌≢◌, refl, Bool, true, none, some, List, [], ◌∷◌, arith, String, ℤ, pos, eqb_ℤ,
  Map, lookup, insert, contains, str_eq, Bool-cases, inl, inr, All, ap, eqb_ℤ_eq, false,
  contains-lookup, ◌≤ℤ◌, subst, sym,
}
use hardware_mediatek.ThermalInfo.{ThrottlingSeverity, SensorInfo, BindedCdevInfo, ThrottlingInfo}
use hardware_mediatek.Throttling.State.{ThermalThrottlingStatus, ThermalThrottling, binded_map}
use hardware_mediatek.Throttling.Votes.{
  count, get_cdev_max_request, begin-some, begin-max, count-begin,
}
use hardware_mediatek.Throttling.Request.{
  Pass, extend_pass, after_pass, vote, entry_request, compute_entries,
  compute_cooling_devices_request,
}
use hardware_mediatek.Throttling.Tally.{
  votes_of, unit_at, unit_at_self, tally, AllDescending, Covers, Replaced, update_lem,
  lookup_of_count,
}

vote_lem :
    (j : String) (old new : ℤ) (votes : Map (List ℤ))
    → 1 ≤ count old (votes_of j votes)
    → (changed : Bool) × (votes' : Map (List ℤ)) × (vote j old new votes ≡ some (changed, votes'))
      × Replaced j old new votes votes'
unfolding vote
vote_lem j old new votes h = elim (Bool-cases (eqb_ℤ old new)) [
  | inl e ↦ (
    false,
    votes,
    rw e,
    record {
      counts = λ c v. ap (λ w. count v (votes_of c votes) + unit_at j w c v) (eqb_ℤ_eq old new e);
      ordered = λ d. d;
    },
  )
  | inr e ↦
      let (changed, votes', run, r, _) = update_lem j old new votes h in
      (changed, votes', rw e run, r)
]

-- What a pass over the requests `entries` leaves.
pub record Passed (entries : Map ℤ) (votes : Map (List ℤ)) (pass : Pass) : Type 0 where
  pub counts :
      (c : String) (v : ℤ)
      → count v (votes_of c pass.cdev_all_request_map) + tally c v entries
        ≡ count v (votes_of c votes) + tally c v pass.cdev_status_map
  pub ordered : AllDescending votes → AllDescending pass.cdev_all_request_map

module _ {ℓ} {W : Type ℓ} where
  abbrev pub AllBound : Map (BindedCdevInfo W) → Map ℤ → Type 0
  AllBound binded = All λ e. contains e.0 binded ≡ true

  compute_entries_lem :
      (status : ThermalThrottlingStatus W) (binded : Map (BindedCdevInfo W))
      (curr_severity : ThrottlingSeverity) (entries : Map ℤ) (votes : Map (List ℤ))
      → AllBound binded entries
      → Covers votes entries
      → (pass : Pass) × (compute_entries status binded curr_severity entries votes ≡ some pass)
        × Passed entries votes pass
  unfolding compute_entries tally
  compute_entries_lem status binded curr_severity [] votes bound covers =
      (_, refl, record { counts = λ c v. refl; ordered = λ d. d })
  compute_entries_lem status binded curr_severity ((j, old) ∷ entries) votes bound covers =
      let (info, bound_j) = contains-lookup j binded bound.0 in
      let request = entry_request status info curr_severity j in
      let (changed, votes', voted, r) =
        vote_lem j old request votes (omega (arith, covers j old, unit_at_self j old)) in
      let (rest, run, p) =
        compute_entries_lem status binded curr_severity entries votes' bound.1
          (λ c v. omega (arith, covers c v, r.counts c v)) in
      (
        extend_pass j old request changed rest,
        rw bound_j (rw voted (rw run)),
        record {
          counts = λ c v. omega (arith, p.counts c v, r.counts c v);
          ordered = λ d. p.ordered (r.ordered d);
        },
      )

  -- The sensors whose request for the device `c` is `v`.
  unfoldable pub requests : String → ℤ → Map (ThermalThrottlingStatus W) → ℕ
  requests c v [] = 0
  requests c v ((_, status) ∷ m) = tally c v status.cdev_status_map + requests c v m

  pub requests-insert :
      (c : String) (v : ℤ) (sensor : String) (old new : ThermalThrottlingStatus W)
      (m : Map (ThermalThrottlingStatus W))
      → lookup sensor m ≡ some old
      → requests c v (insert sensor new m) + tally c v old.cdev_status_map
        ≡ requests c v m + tally c v new.cdev_status_map
  unfolding requests lookup insert
  requests-insert c v sensor old new [] e = cc
  requests-insert c v sensor old new ((s, x) ∷ m) e = elim (Bool-cases (str_eq s sensor)) [
    | inl hit ↦ rw hit (ground arith)
    | inr miss ↦ rw miss (ground (arith, requests-insert c v sensor old new m))
  ]

  pub requests-insert_new :
      (c : String) (v : ℤ) (sensor : String) (new : ThermalThrottlingStatus W)
      (m : Map (ThermalThrottlingStatus W))
      → lookup sensor m ≡ none
      → requests c v (insert sensor new m) ≡ requests c v m + tally c v new.cdev_status_map
  unfolding requests lookup insert
  requests-insert_new c v sensor new [] e = omega arith
  requests-insert_new c v sensor new ((s, x) ∷ m) e = elim (Bool-cases (str_eq s sensor)) [
    | inl hit ↦ ground arith
    | inr miss ↦ rw miss (ground (arith, requests-insert_new c v sensor new m))
  ]

  tally-le_requests :
      (c : String) (v : ℤ) (sensor : String) (status : ThermalThrottlingStatus W)
      (m : Map (ThermalThrottlingStatus W))
      → lookup sensor m ≡ some status
      → tally c v status.cdev_status_map ≤ requests c v m
  unfolding requests lookup
  tally-le_requests c v sensor status [] e = cc
  tally-le_requests c v sensor status ((s, x) ∷ m) e = elim (Bool-cases (str_eq s sensor)) [
    | inl hit ↦ ground arith
    | inr miss ↦ ground (arith, tally-le_requests c v sensor status m)
  ]

  pub record IsConsistent (t : ThermalThrottling W) : Type 0 where
    pub ordered : AllDescending t.cdev_all_request_map
    pub covered :
        (c : String) (v : ℤ)
        → requests c v t.thermal_throttling_status_map ≤ count v (votes_of c t.cdev_all_request_map)
    pub exact :
        (c : String) (v : ℤ)
        → v ≢ pos 0
        → count v (votes_of c t.cdev_all_request_map) ≡ requests c v t.thermal_throttling_status_map

  -- From a consistent state, a pass for a registered sensor whose devices are bound completes, and
  -- keeps the votes consistent.
  pub compute-IsConsistent :
      (sensor : String) (sensor_info : SensorInfo W) (info : ThrottlingInfo W)
      (curr_severity : ThrottlingSeverity) (t : ThermalThrottling W)
      (status : ThermalThrottlingStatus W)
      → IsConsistent t
      → lookup sensor t.thermal_throttling_status_map ≡ some status
      → sensor_info.throttling_info ≡ some info
      → AllBound (binded_map info status.profile) status.cdev_status_map
      → (t' : ThermalThrottling W) × (updates : List String) × (stats : List (String × ℤ))
        × (compute_cooling_devices_request sensor sensor_info curr_severity t
            ≡ some (t', updates, stats))
        × IsConsistent t'
  unfolding compute_cooling_devices_request
  compute-IsConsistent sensor sensor_info info curr_severity t status inv found throttled bound =
      let (pass, run, p) =
        compute_entries_lem status (binded_map info status.profile) curr_severity
          status.cdev_status_map t.cdev_all_request_map bound
          (λ c v. omega (
            arith,
            inv.covered c v,
            tally-le_requests c v sensor status t.thermal_throttling_status_map found,
          )) in
      let status' = record status { cdev_status_map = pass.cdev_status_map } in
      let moved = λ (c : String) (v : ℤ).
        requests-insert c v sensor status status' t.thermal_throttling_status_map found in
      (
        after_pass sensor status pass t,
        pass.cooling_devices_to_update,
        pass.stats_updates,
        rw (found, compute_cooling_devices_request) (rw throttled (rw run)),
        record {
          ordered = p.ordered inv.ordered;
          covered = λ c v. omega (arith, inv.covered c v, p.counts c v, moved c v);
          exact = λ c v ne. omega (arith, inv.exact c v ne, p.counts c v, moved c v);
        },
      )

  -- In a consistent state, what `getCdevMaxRequest` answers for a device is at least the request of
  -- each sensor that is bound to it, and unless it is 0 some sensor makes it.
  pub get_cdev_max_request_lem :
      (t : ThermalThrottling W) (sensor c : String) (v : ℤ) (status : ThermalThrottlingStatus W)
      → IsConsistent t
      → lookup sensor t.thermal_throttling_status_map ≡ some status
      → 1 ≤ tally c v status.cdev_status_map
      → (m : ℤ) × (get_cdev_max_request c t.cdev_all_request_map ≡ some m)
        × (v ≤ℤ m)
        × (m ≢ pos 0 → 1 ≤ requests c m t.thermal_throttling_status_map)
  unfolding get_cdev_max_request
  get_cdev_max_request_lem t sensor c v status inv found asks =
      let voted : 1 ≤ count v (votes_of c t.cdev_all_request_map) = omega (
        arith,
        inv.covered c v,
        tally-le_requests c v sensor status t.thermal_throttling_status_map found,
      ) in
      let (s, present, same) = lookup_of_count c v t.cdev_all_request_map voted in
      let (m, first) = begin-some v s (rw same at voted) in
      (
        m,
        rw present first,
        begin-max v m s (rw same at (inv.ordered c)) first (rw same at voted),
        λ ne.
            let here : 1 ≤ count m (votes_of c t.cdev_all_request_map) =
              subst (λ x. 1 ≤ count m x) (sym same) (count-begin m s first) in
            omega (arith, inv.exact c m ne),
      )
