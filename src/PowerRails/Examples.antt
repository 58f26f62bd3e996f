-- ===== src/PowerRails/Examples.antt =====
-- A physical rail and a virtual one that adds two rails up.
use hardware_mediatek.Base.{
  All, ℕ, pos, some, none, ◌≡◌, refl, true, false, Bool, arith, List, [], ◌∷◌, Map, lookup, insert,
  ◌+ℤ◌, ◌*ℤ◌,
}
use hardware_mediatek.Floats.{Whole, whole_float}
use hardware_mediatek.ThermalInfo.{weighted_avg}
use hardware_mediatek.PowerRails.State.{PowerSample, PowerStatus, PowerRailInfo, PowerFiles}
use hardware_mediatek.PowerRails.Average.{
  calculate_avg_power, update_average_power, combine, virtual_power, rail_power, store_samples,
  update_energy_values, refresh_power_status,
}
use hardware_mediatek.PowerRails.Register.{
  linked_histories, rail_histories, register_rails, register_power_rails_to_watch,
  power_sampling_switch,
}
use hardware_mediatek.PowerRails.Covered.{HasStatus}
use hardware_mediatek.PowerRails.Ready.{IsReady}
use hardware_mediatek.PowerRails.Refresh.{refresh_power_status-IsReady}
use hardware_mediatek.PowerRails.Sampling.{emptied, power_sampling_switch-IsReady}
use hardware_mediatek.PowerRails.Registering.{AreUsable, register_power_rails_to_watch-IsReady}

abbrev num : ℕ → Whole
num n = some (pos n)

abbrev sample : ℕ → ℕ → PowerSample
sample energy duration = record { energy_counter = energy; duration = duration }

abbrev big : PowerRailInfo Whole
big = record {
  power_sample_count = pos 2;
  power_sample_delay = 100;
  virtual_power_rail_info = none;
}

abbrev sum : PowerRailInfo Whole
sum = record {
  power_sample_count = pos 1;
  power_sample_delay = 100;
  virtual_power_rail_info = some (record {
    linked_power_rails = "big" ∷ "small" ∷ [];
    coefficients = num 1 ∷ num 2 ∷ [];
    offset = num 5;
    formula = weighted_avg;
  });
}

abbrev energy : Map PowerSample
energy = ("big", sample 100 10) ∷ ("small", sample 50 10) ∷ []

abbrev later : Map PowerSample
later = ("big", sample 400 20) ∷ ("small", sample 150 20) ∷ []

abbrev parsed_files : PowerFiles Whole
parsed_files = record {
  energy_info_map = [];
  power_status_map = [];
  power_rail_info_map = ("big", big) ∷ ("sum", sum) ∷ [];
}

abbrev status_with : List (List PowerSample) → PowerStatus Whole
status_with history = record {
  last_update_time = none;
  power_history = history;
  last_updated_avg_power = none;
  enabled = true;
}

abbrev files : PowerFiles Whole
files = record {
  energy_info_map = energy;
  power_status_map =
      ("big", status_with ((sample 100 10 ∷ sample 100 10 ∷ []) ∷ []))
      ∷ ("sum", status_with ((sample 100 10 ∷ []) ∷ (sample 50 10 ∷ []) ∷ []))
      ∷ [];
  power_rail_info_map = parsed_files.power_rail_info_map;
}

-- Registering reads the energy and fills the queues.
registers : register_power_rails_to_watch true true (some energy) parsed_files ≡ (true, files)
unfolding register_power_rails_to_watch register_rails rail_histories linked_histories
    update_energy_values store_samples lookup insert
registers = refl

-- 300 units in 10 for the rail `big`, and 30 + 2 * 10 + 5 for the sum.
sums :
    rail_power later "sum" sum ((sample 100 10 ∷ []) ∷ (sample 50 10 ∷ []) ∷ [])
    ≡ some (num 55, (sample 400 20 ∷ []) ∷ (sample 150 20 ∷ []) ∷ [])
unfolding rail_power virtual_power update_average_power calculate_avg_power combine lookup ◌+ℤ◌ ◌*ℤ◌
sums = refl

files-IsReady : IsReady files
unfolding lookup
files-IsReady = ground arith

parsed_files-IsReady : IsReady parsed_files
unfolding lookup
parsed_files-IsReady = ground arith

parsed_files-AreUsable : AreUsable parsed_files.power_rail_info_map parsed_files.power_rail_info_map
unfolding lookup
parsed_files-AreUsable =
    ((refl, λ _. (omega arith, tt)), ((refl, λ _. (omega arith, omega arith)), tt))

big_known : lookup "big" files.power_rail_info_map ≡ some big
unfolding lookup
big_known = refl

big_found :
    lookup "big" files.power_status_map
    ≡ some (status_with ((sample 100 10 ∷ sample 100 10 ∷ []) ∷ []))
unfolding lookup
big_found = refl

refresh_power_status-IsReady_example :
    (done : Bool) × (t' : PowerFiles Whole) × (refresh_power_status
        (some later)
        none
        (λ _. 1_000)
        files
      ≡ some (done, t'))
    × IsReady t'
refresh_power_status-IsReady_example =
    refresh_power_status-IsReady refl (some later) none (λ _. 1_000) files files-IsReady

power_sampling_switch-IsReady_example :
    let t' = record files {
      power_status_map =
          insert "big"
            (emptied (status_with ((sample 100 10 ∷ sample 100 10 ∷ []) ∷ [])))
            files.power_status_map;
    } in
    (power_sampling_switch "big" false files ≡ some t') × IsReady t'
power_sampling_switch-IsReady_example =
    power_sampling_switch-IsReady refl "big" false big
      (status_with ((sample 100 10 ∷ sample 100 10 ∷ []) ∷ [])) files files-IsReady big_known
      big_found

register_power_rails_to_watch-IsReady_example :
    let out = register_power_rails_to_watch true true (some energy) parsed_files in
    IsReady out.1
    × (out.0 ≡ true → All (HasStatus out.1.power_status_map) parsed_files.power_rail_info_map)
register_power_rails_to_watch-IsReady_example =
    register_power_rails_to_watch-IsReady refl true true (some energy) parsed_files
      parsed_files-AreUsable parsed_files-IsReady
