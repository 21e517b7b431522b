-- ===== src/Sequential.antt =====
-- src/fedcampaign_emhi/emhi/sequential.py: the e-SR recursion of the global detector, its
-- threshold, and the distributed support of the clients that were active in a trailing window.
pub mod Stop
pub mod Support
use mathlib.Core.List.{foldl}
use fed_campaign_emhi.Prelude.{
  ℕ, zero, suc, ◌≡◌, Bool, true, false, ◌&&◌, not, Option, none, some, List, [], ◌∷◌, ◌++◌, leb,
  ◌==◌, if◌then◌else◌, length, take_last, zip, Result, ok, err, value_error, ◌>>=◌,
}
use fed_campaign_emhi.Prelude.Float.{Float, nought, unity, ◌⊕◌, ◌⊗◌}
use fed_campaign_emhi.Prelude.Str.{Str}
use fed_campaign_emhi.Prelude.Sets.{Eq, str_eq_instance, contains, set_of}

module _ {F : Type 0} ⦃f : Float F⦄ where
  abbrev pub initial_global_state : F
  initial_global_state = nought

  unfoldable pub next_global_state : F → F → F
  next_global_state previous_state evidence_factor = (previous_state ⊕ unity) ⊗ evidence_factor

  unfoldable pub threshold_predicate : F → F → Bool
  threshold_predicate global_state threshold = f.le threshold global_state

unfoldable pub distributed_support_predicate : List Str → ℕ → Bool
distributed_support_predicate window_client_ids minimum_clients =
    leb minimum_clients (length (set_of window_client_ids))

-- The loop variables of `trailing_support_window_client_ids`.
pub record Window : Type 0 where
  pub seen : List Str
  pub union : List Str

see_client : Window → Str → Window
see_client w client_id =
    if contains w.seen client_id
    then w
    else record { seen = client_id ∷ w.seen; union = w.union ++ client_id ∷ [] }

see_epoch : Window → List Str → Window
unfolding see_client
see_epoch = foldl see_client

unfoldable pub trailing_support_window_client_ids : List (List Str) → ℕ → Result (List Str)
unfolding see_epoch
trailing_support_window_client_ids active_client_ids_per_epoch window_epochs =
    if window_epochs == 0
    then err value_error
    else ok
        (foldl see_epoch (record { seen = []; union = [] })
          (take_last window_epochs active_client_ids_per_epoch)).union

unfoldable pub trailing_window_support_predicate : List (List Str) → ℕ → ℕ → Result Bool
trailing_window_support_predicate active_client_ids_per_epoch window_epochs minimum_clients = do
  window ← trailing_support_window_client_ids active_client_ids_per_epoch window_epochs
  ok (distributed_support_predicate window minimum_clients)

module _ {F : Type 0} ⦃f : Float F⦄ where
  unfoldable pub statistical_stop : F → F → List Str → ℕ → Bool
  statistical_stop global_state threshold window_client_ids minimum_clients =
      threshold_predicate global_state threshold
      && distributed_support_predicate window_client_ids minimum_clients

  unfoldable pub coalition_materially_active : F → F → Bool
  coalition_materially_active operational_factor material_threshold =
      f.le material_threshold operational_factor

  -- The loop of `first_global_stop_epoch`, from its state and its index.
  stop_loop : F → F → ℕ → List (F × Bool) → Option ℕ
  stop_loop threshold state index [] = none
  stop_loop threshold state index ((factor, supported) ∷ rest) =
      let next = next_global_state state factor in
      let later = stop_loop threshold next (suc index) rest in
      if threshold_predicate next threshold && supported then some index else later

  unfoldable pub first_global_stop_epoch : List F → List Bool → F → Result (Option ℕ)
  unfolding stop_loop
  first_global_stop_epoch evidence_factors support_predicates threshold =
      if length evidence_factors == length support_predicates
      then ok (stop_loop threshold initial_global_state 0 (zip evidence_factors support_predicates))
      else err value_error
