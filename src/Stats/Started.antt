-- ===== src/Stats/Started.antt =====
-- What `initializeStats` leaves: records that begin in the first of their states.
use hardware_mediatek.Base.{
  ℕ, suc, ◌≤◌, ◌≡◌, refl, Bool, true, false, Option, some, List, [], ◌∷◌, ◌++◌, String, ℤ, pos,
  ◌+ℤ◌, ◌-ℤ◌, leb_ℤ, Map, lookup, length, is_empty, All, Each, Each-lookup, arith, Bool-cases,
  Option-cases, inl, inr, if_both, length-replicate,
}
use hardware_mediatek.Stats.State.{
  ThresholdList, ThermalStats, StatsInfo, new_record, max_stats_residency_count,
}
use hardware_mediatek.Stats.Requests.{
  is_record_by_default_threshold, new_by_threshold, add_custom, add_customs, entry_or, iota, last?,
  add_all_states, add_request_lists, cdev_stats,
}
use hardware_mediatek.Stats.Fitting.{Fits, CustomFits}
use hardware_mediatek.Stats.Sound.{StatsFit, request_limit}

-- A list with a threshold, and with no more states than the limit.
abbrev pub ListFits {ℓ} : {V : Type ℓ} → ℕ → ThresholdList V → Type 0
ListFits limit list = (is_empty list.thresholds ≡ false) × (suc (length list.thresholds) ≤ limit)

new_record-Fits : (now n : ℕ) → Fits (suc n) (new_record now (suc n) (pos 0))
new_record-Fits now n = (0, refl, omega arith, length-replicate (suc n) 0)

All-append {ℓ κ} :
    {V : Type ℓ} (P : V → Type κ) (xs : List V) (y : V) → All P xs → P y → All P (xs ++ (y ∷ []))
All-append P [] y all p = (p, tt)
All-append P (x ∷ xs) y all p = (all.0, All-append P xs y all.1 p)

module _ {ℓ} {V : Type ℓ} where
  pub entry_or_lem {κ} :
      (P : String → V → Type κ) (default : V) (name : String) (m : Map V)
      → P name default
      → Each P m
      → P name (entry_or default name m)
  entry_or_lem P default name m p each = elim (Option-cases (lookup name m)) [
    | inl absent ↦ rw (absent, entry_or) p
    | inr (v, found) ↦ rw (found, entry_or) (Each-lookup P name v m each found)
  ]

  add_custom-StatsFit :
      (now limit size : ℕ) (list : ThresholdList V) (s : ThermalStats V)
      → ListFits limit list
      → StatsFit limit size s
      → StatsFit limit size (add_custom now list s)
  add_custom-StatsFit now limit size list s fit fits = (
    All-append (CustomFits limit) s.stats_by_custom_threshold (new_by_threshold now list) fits.0
        (fit.0, fit.1, new_record-Fits now (length list.thresholds)),
    fits.1,
  )

  pub add_customs-StatsFit :
      (now limit size : ℕ) (lists : List (ThresholdList V)) (s : ThermalStats V)
      → All (ListFits limit) lists
      → StatsFit limit size s
      → StatsFit limit size (add_customs now lists s)
  unfolding add_customs
  add_customs-StatsFit now limit size [] s fit fits = fits
  add_customs-StatsFit now limit size (list ∷ lists) s fit fits =
      add_customs-StatsFit now limit size lists (add_custom now list s) fit.1
        (add_custom-StatsFit now limit size list s fit.0 fits)

iota_full : (n : ℕ) (start : ℤ) → is_empty (iota (suc n) start) ≡ false
unfolding iota
iota_full n start = refl

one_more : (n : ℕ) → pos n +ℤ pos 1 ≡ pos (suc n)
unfolding ◌+ℤ◌
one_more n = ground arith

-- All the states of a device: one record of them, or one of the highest.
all_states-StatsFit :
    (now n : ℕ) (cdev : String) (s : ThermalStats ℤ)
    → StatsFit request_limit (suc n) s
    → (s' : ThermalStats ℤ) × (add_all_states now cdev (pos n) s ≡ some s')
      × StatsFit request_limit (suc n) s'
unfolding add_all_states
all_states-StatsFit now n cdev s fits =
    let starting_state = pos n -ℤ pos max_stats_residency_count +ℤ pos 1 in
    let combined : ThresholdList ℤ = record {
      logging_name = some (Prim.Native.String.◌++◌ cdev "-CMBN-TH");
      thresholds = iota max_stats_residency_count starting_state;
    } in
    elim (Bool-cases (leb_ℤ (pos max_stats_residency_count) (pos n))) [
      | inl many ↦ (
        add_custom now combined s,
        rw many refl,
        add_custom-StatsFit now request_limit (suc n) combined s
            (iota_full 19 starting_state, omega arith) fits,
      )
      | inr few ↦ (
        record s { stats_by_default_threshold = some (new_record now (suc n) (pos 0)) },
        rw few (rw (one_more n) refl),
        (fits.0, new_record-Fits now n),
      )
    ]

last_there : (xs : List ℤ) → is_empty xs ≡ false → (x : ℤ) × (last? xs ≡ some x)
last_there [] full = absurd (cc)
last_there (x ∷ []) full = (x, refl)
last_there (x ∷ y ∷ xs) full = last_there (y ∷ xs) refl

request_lists-StatsFit :
    (now size : ℕ) (max_state : ℤ) (lists : List (ThresholdList ℤ)) (s : ThermalStats ℤ)
    → All (ListFits request_limit) lists
    → StatsFit request_limit size s
    → (done : Bool) × (s' : ThermalStats ℤ) × (add_request_lists now max_state lists s
        ≡ some (done, s'))
      × StatsFit request_limit size s'
unfolding add_request_lists
request_lists-StatsFit now size max_state [] s fit fits = (true, s, refl, fits)
request_lists-StatsFit now size max_state (list ∷ lists) s fit fits =
    let (back, last) = last_there list.thresholds fit.0.0 in
    elim (Bool-cases (leb_ℤ max_state back)) [
      | inl high ↦ (false, s, rw last (rw high refl), fits)
      | inr low ↦
          let (done, s', run, kept) =
            request_lists-StatsFit now size max_state lists (add_custom now list s) fit.1
              (add_custom-StatsFit now request_limit size list s fit.0 fits) in
          (done, s', rw last (rw low run), kept)
    ]

-- The lists of every device fit.
abbrev pub ListsFit {ℓ} : {V : Type ℓ} → ℕ → StatsInfo V → Type 0
ListsFit limit info = Each (λ _ lists. All (ListFits limit) lists) info.record_by_threshold

pub cdev_stats-StatsFit :
    (now n : ℕ) (info : StatsInfo ℤ) (cdev : String) (s : ThermalStats ℤ)
    → ListsFit request_limit info
    → StatsFit request_limit (suc n) s
    → (done : Bool) × (s' : ThermalStats ℤ) × (cdev_stats now info cdev (pos n) s ≡ some (done, s'))
      × StatsFit request_limit (suc n) s'
unfolding cdev_stats
cdev_stats-StatsFit now n info cdev s lists fits =
    let by_default =
      is_record_by_default_threshold info.record_by_default_threshold_all_or_name_set cdev in
    let (s1, run, kept) =
      if_both
        (λ (r : Option (ThermalStats ℤ)).
          (s1 : ThermalStats ℤ) × (r ≡ some s1) × StatsFit request_limit (suc n) s1)
        by_default (add_all_states now cdev (pos n) s) (some s)
        (all_states-StatsFit now n cdev s fits) (s, refl, fits) in
    elim (Option-cases (lookup cdev info.record_by_threshold)) [
      | inl absent ↦ (true, s1, rw run (rw (absent, cdev_stats) refl), kept)
      | inr (ls, found) ↦
          let (done, s2, runs, keeps) =
            request_lists-StatsFit now (suc n) (pos n) ls s1
              (Each-lookup (λ _ lists. All (ListFits request_limit) lists) cdev ls
                info.record_by_threshold lists found)
              kept in
          (done, s2, rw run (rw (found, cdev_stats) runs), keeps)
    ]
