-- ===== src/Stats/Sent.antt =====
-- The records of the statistics in the order of their reports, and a count of the failures that is read
-- off what the reports did to them.
use hardware_mediatek.Base.{
  ℕ, suc, ◌+◌, ◌≡◌, Bool, true, false, Option, none, some, List, [], ◌∷◌, ◌++◌, ℤ, Map, arith,
  subst,
}
use hardware_mediatek.Stats.State.{
  StatsRecord, StatsByThreshold, ThermalStats, SensorTempStats, StatsHelper,
}
use hardware_mediatek.Stats.Reports.{failed}
use hardware_mediatek.Stats.Reporting.{Reported}

-- The records `rs` have become `rs'` by one report each, of which the service refused this many.
pub data Sent (now later : ℕ) : ℕ → List StatsRecord → List StatsRecord → Type 0 where
  nothing : Sent now later 0 [] []
  taken :
      {n : ℕ} {rs rs' : List StatsRecord} (r r' : StatsRecord)
      → Reported now later true r r'
      → Sent now later n rs rs'
      → Sent now later n (r ∷ rs) (r' ∷ rs')
  refused :
      {n : ℕ} {rs rs' : List StatsRecord} (r r' : StatsRecord)
      → Reported now later false r r'
      → Sent now later n rs rs'
      → Sent now later (suc n) (r ∷ rs) (r' ∷ rs')

module _ {now later : ℕ} where
  pub Sent-add :
      (n : ℕ) (rs rs' : List StatsRecord) (done : Bool) (r r' : StatsRecord)
      → Reported now later done r r'
      → Sent now later n rs rs'
      → Sent now later (failed done + n) (r ∷ rs) (r' ∷ rs')
  Sent-add n rs rs' true r r' reported sent =
      let e : n ≡ 0 + n = omega arith in
      subst (λ k. Sent now later k (r ∷ rs) (r' ∷ rs')) e (taken r r' reported sent)
  Sent-add n rs rs' false r r' reported sent =
      let e : suc n ≡ 1 + n = omega arith in
      subst (λ k. Sent now later k (r ∷ rs) (r' ∷ rs')) e (refused r r' reported sent)

  Sent-refused :
      (n n' : ℕ) {rs rs' : List StatsRecord} (r r' : StatsRecord)
      → Reported now later false r r'
      → Sent now later (n + n') rs rs'
      → Sent now later (suc n + n') (r ∷ rs) (r' ∷ rs')
  Sent-refused n n' {rs = rs} {rs' = rs'} r r' reported sent =
      let e : suc (n + n') ≡ suc n + n' = omega arith in
      subst (λ k. Sent now later k (r ∷ rs) (r' ∷ rs')) e (refused r r' reported sent)

  pub Sent-append :
      (n n' : ℕ) (rs rs' bs bs' : List StatsRecord)
      → Sent now later n rs rs'
      → Sent now later n' bs bs'
      → Sent now later (n + n') (rs ++ bs) (rs' ++ bs')
  Sent-append _ n' _ _ bs bs' nothing sent =
      let e : n' ≡ 0 + n' = omega arith in subst (λ k. Sent now later k bs bs') e sent
  Sent-append _ n' _ _ bs bs' (taken {n = m} {rs = ls} {rs' = ls'} r r' reported rest) sent =
      taken r r' reported (Sent-append m n' ls ls' bs bs' rest sent)
  Sent-append _ n' _ _ bs bs' (refused {n = m} {rs = ls} {rs' = ls'} r r' reported rest) sent =
      Sent-refused m n' r r' reported (Sent-append m n' ls ls' bs bs' rest sent)

abbrev pub records_of_custom {ℓ} : {V : Type ℓ} → List (StatsByThreshold V) → List StatsRecord
records_of_custom [] = []
records_of_custom (s ∷ rest) = s.stats_record ∷ records_of_custom rest

abbrev pub records_of_default : Option StatsRecord → List StatsRecord
records_of_default none = []
records_of_default (some r) = r ∷ []

abbrev pub records_of_stats {ℓ} : {V : Type ℓ} → ThermalStats V → List StatsRecord
records_of_stats s =
    records_of_custom s.stats_by_custom_threshold ++ records_of_default s.stats_by_default_threshold

-- The records of a map, where `records` are those of an entry.
abbrev pub records_of_map {ℓ} : {V : Type ℓ} → (V → List StatsRecord) → Map V → List StatsRecord
records_of_map records [] = []
records_of_map records ((_, v) ∷ rest) = records v ++ records_of_map records rest

abbrev pub records_of_temps {ℓ} : {W : Type ℓ} → Map (SensorTempStats W) → List StatsRecord
records_of_temps = records_of_map (λ s. records_of_stats s.stats)

abbrev pub records_of_requests : Map (Map (ThermalStats ℤ)) → List StatsRecord
records_of_requests = records_of_map (records_of_map records_of_stats)

-- All records: of the temperatures, then of the requests.
abbrev pub records_of {ℓ} : {W : Type ℓ} → StatsHelper W → List StatsRecord
records_of t =
    records_of_temps t.sensor_stats.temp_stats_map
    ++ records_of_requests t.sensor_cdev_request_stats_map
