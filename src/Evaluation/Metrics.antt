-- ===== src/Evaluation/Metrics.antt =====
-- src/fedcampaign_emhi/evaluation/metrics.py: the strict ODI outcome, detection and false stop rates,
-- and the order that decides a stop.
pub mod Stops
pub mod Decisive
use fed_campaign_emhi.Prelude.{
  ℕ, ◌+◌, ◌*◌, Bool, Option, none, some, List, [], ◌∷◌, map, ltb, leb, ◌==◌, if◌then◌else◌, length,
  keep, count_if, Result, ok, err, value_error, raise_if, ◌>>=◌, ◌>>◌,
}
use mathlib.Core.List.{foldr}
use fed_campaign_emhi.Prelude.Int.{ℤ, pos, ltb_ℤ, leb_ℤ, ◌-ℤ◌}
use fed_campaign_emhi.Prelude.Extrema.{min_ℤ}
use fed_campaign_emhi.Prelude.Float.{Float, nought, unity, magnitude, larger, ◌⊕◌, ◌⊖◌, ◌⊗◌, ◌⊘◌}
use fed_campaign_emhi.Domain.Enums.{CoalitionOrder, order_value}
use fed_campaign_emhi.Domain.Types.{StrictOdiOutcome}
use fed_campaign_emhi.Structure.Coalitions.{coalition_count}

-- `[epoch for epoch in epochs if epoch is not None]`.
abbrev pub finite_stops : List (Option ℤ) → List ℤ
finite_stops [] = []
finite_stops (none ∷ rest) = finite_stops rest
finite_stops (some epoch ∷ rest) = epoch ∷ finite_stops rest

-- `min` of the epochs, if there are any.
abbrev pub earliest_of : List ℤ → Option ℤ
earliest_of [] = none
earliest_of (epoch ∷ rest) = some (min_ℤ epoch rest)

unfoldable pub earliest_local_stop : List (Option ℤ) → Option ℤ
earliest_local_stop local_stop_epochs = earliest_of (finite_stops local_stop_epochs)

abbrev pub odi_indicator : Option ℤ → Option ℤ → ℕ
odi_indicator none earliest_local = 0
odi_indicator (some stop) none = 1
odi_indicator (some stop) (some local) = if ltb_ℤ stop local then 1 else 0

abbrev pub detection_indicator : Option ℤ → ℕ
detection_indicator none = 0
detection_indicator (some stop) = 1

unfoldable pub strict_odi_outcome : Option ℤ → List (Option ℤ) → StrictOdiOutcome
unfolding earliest_local_stop
strict_odi_outcome global_stop_epoch local_stop_epochs =
    let earliest_local = earliest_local_stop local_stop_epochs in
    record {
      global_stop_epoch = global_stop_epoch;
      earliest_local_stop_epoch = earliest_local;
      indicator = odi_indicator global_stop_epoch earliest_local;
      global_detection_indicator = detection_indicator global_stop_epoch;
    }

unfoldable pub censored_plot_value : ℕ → ℕ → ℕ
censored_plot_value horizon_epochs no_stop_plot_offset_epochs =
    horizon_epochs + no_stop_plot_offset_epochs

abbrev pub stops_within : ℕ → Option ℤ → Bool
stops_within horizon_epochs none = Bool.false
stops_within horizon_epochs (some epoch) = leb_ℤ epoch (pos horizon_epochs)

unfoldable pub paired_stopping_time_difference : ℤ → ℤ → ℤ
paired_stopping_time_difference emhi_stop comparison_stop = emhi_stop -ℤ comparison_stop

abbrev pub of_bool : Bool → ℤ
of_bool Bool.true = pos 1
of_bool Bool.false = pos 0

unfoldable pub paired_detection_indicator_difference : Bool → Bool → ℤ
paired_detection_indicator_difference emhi_detected comparison_detected =
    of_bool emhi_detected -ℤ of_bool comparison_detected

unfoldable pub registry_coalition_count : ℕ → CoalitionOrder → ℕ
registry_coalition_count client_count maximum_order = coalition_count client_count maximum_order

unfoldable pub application_payload_bytes_per_epoch : ℕ → ℕ
application_payload_bytes_per_epoch client_count = 20 * client_count

-- `min` of orders, from the first.
abbrev pub min_order : CoalitionOrder → List CoalitionOrder → CoalitionOrder
min_order least [] = least
min_order least (order ∷ rest) =
    min_order (if ltb (order_value order) (order_value least) then order else least) rest

-- `min` of no orders raises.
abbrev pub least_order : List CoalitionOrder → Result (Option CoalitionOrder)
least_order [] = err value_error
least_order (order ∷ rest) = ok (some (min_order order rest))

module _ {F : Type 0} ⦃f : Float F⦄ where
  -- Division of counts. A count is not negative, so `count <= 0` is `count == 0`.
  abbrev pub ratio : ℕ → ℕ → Result F
  ratio part whole = do raise_if (whole == 0) value_error; ok (f.of_ℕ part ⊘ f.of_ℕ whole)

  unfoldable pub seed_level_odi_rate : List ℕ → Result F
  seed_level_odi_rate odi_indicators = ratio (foldr ◌+◌ 0 odi_indicators) (length odi_indicators)

  unfoldable pub campaign_detection_rate : List (Option ℤ) → ℕ → Result F
  campaign_detection_rate global_stop_epochs horizon_epochs =
      ratio (count_if (stops_within horizon_epochs) global_stop_epochs) (length global_stop_epochs)

  unfoldable pub finite_horizon_pfa_point_estimate : ℕ → ℕ → Result F
  finite_horizon_pfa_point_estimate false_stop_count benign_horizon_count =
      ratio false_stop_count benign_horizon_count

  unfoldable pub false_campaigns_per_ten_thousand_benign_epochs : ℕ → ℕ → Result F
  false_campaigns_per_ten_thousand_benign_epochs false_declarations benign_epochs =
      ratio (10 * 1000 * false_declarations) benign_epochs

  unfoldable pub context_coverage : ℕ → ℕ → Result F
  context_coverage supported_coalition_epochs eligible_coalition_epochs =
      ratio supported_coalition_epochs eligible_coalition_epochs

  unfoldable pub numerical_failure_rate : ℕ → ℕ → Result F
  numerical_failure_rate failing_fits attempted_fits = ratio failing_fits attempted_fits

  unfoldable pub throughput : ℕ → F → Result F
  throughput coalitions_scored server_compute_seconds = do
    raise_if (f.le server_compute_seconds nought) value_error
    ok (f.of_ℕ coalitions_scored ⊘ server_compute_seconds)

  -- `max(eligible, key=lambda pair: pair[1])`, from the first.
  abbrev pub max_factor : CoalitionOrder × F → List (CoalitionOrder × F) → CoalitionOrder × F
  max_factor best [] = best
  max_factor best (pair ∷ rest) = max_factor (if f.lt best.1 pair.1 then pair else best) rest

  -- The factor of a pair ties with the best one.
  abbrev pub ties_with : F → F → CoalitionOrder × F → Bool
  ties_with tolerance best_factor pair =
      f.le (magnitude (f.log pair.1 ⊖ f.log best_factor)) tolerance

  abbrev pub decide_among : F → List (CoalitionOrder × F) → Result (Option CoalitionOrder)
  decide_among tolerance [] = ok none
  decide_among tolerance (pair ∷ rest) =
      let best = max_factor pair rest in
      least_order (
        map (λ (tied : CoalitionOrder × F). tied.0)
          (keep (ties_with tolerance best.1) (pair ∷ rest)))

  unfoldable pub decisive_order : List (CoalitionOrder × F) → F → Result (Option CoalitionOrder)
  decisive_order stop_epoch_factors deterministic_comparison_tolerance =
      decide_among deterministic_comparison_tolerance
        (keep (λ pair. f.lt unity pair.1) stop_epoch_factors)
