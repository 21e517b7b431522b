-- ===== src/Datasets/Campaigns/Activity.antt =====
-- Who takes part in a run, and how far the first malicious epochs of its clients lie apart.
use fed_campaign_emhi.Prelude.{
  ◌≤◌, ◌≡◌, refl, sym, ap, ◌≢◌, ◌↔◌, inl, inr, Bool, true, false, some, List, [], ◌∷◌, arith,
  Bool-cases, length, keep, any, traverse, ok, subst,
}
use fed_campaign_emhi.Prelude.Int.{ℤ, pos, ◌+ℤ◌, ◌-ℤ◌, ◌≤ℤ◌, ltb_ℤ, ltb_ℤ_iff, int_laws}
use fed_campaign_emhi.Prelude.Extrema.{min_ℤ, max_ℤ, IsMin, IsMax, min_ℤ-IsMin, max_ℤ-IsMax}
use fed_campaign_emhi.Prelude.Str.{Str}
use fed_campaign_emhi.Prelude.Sets.{str_eq_instance}
use fed_campaign_emhi.Prelude.Membership.{In, any_iff, In-keep}
use fed_campaign_emhi.Prelude.Dict.{dict_get, dict_get-cases}
use fed_campaign_emhi.Datasets.Campaigns.{
  CampaignRules, within, epochs_by_client, or_no_epochs, epochs_of,
  earliest_observed_epoch_by_client, participants_of, min_epoch, first_epoch_of, spread_too_wide,
}
use fed_campaign_emhi.Prelude.Comprehension.{Maps, traverse-ok}

within_iff :
    (start end epoch : ℤ) → (within start end epoch ≡ true) ↔ ((start ≤ℤ epoch) × (epoch ≤ℤ end))
within_iff start end epoch = ground arith

module _ (rules : CampaignRules) where
  -- `first` is the first malicious epoch of the client from `start` to `end`.
  abbrev pub FirstActive : ℤ → ℤ → Str → ℤ → Type 0
  FirstActive start end client_id first =
      In first (epochs_of rules client_id)
      × (start ≤ℤ first)
      × (first ≤ℤ end)
      × ((epoch : ℤ)
          → In epoch (epochs_of rules client_id)
          → start ≤ℤ epoch
          → epoch ≤ℤ end
          → first ≤ℤ epoch)

  -- The client is selected and has a malicious epoch from `start` to `end`.
  abbrev pub Participates : ℤ → ℤ → Str → Type 0
  Participates start end client_id =
      In client_id rules.selected_client_ids
      × ((epoch : ℤ) × In epoch (epochs_of rules client_id) × (start ≤ℤ epoch) × (epoch ≤ℤ end))

  -- What a run has to meet to be a campaign.
  pub record Qualifies (start end : ℤ) : Type 0 where
    pub enough : rules.minimum_clients ≤ length (participants_of rules start end)
    pub close :
        (c d : Str) (first last : ℤ)
        → Participates start end c
        → Participates start end d
        → FirstActive start end c first
        → FirstActive start end d last
        → last ≤ℤ first +ℤ pos rules.distributed_first_activity_window_epochs
    pub long : start +ℤ pos rules.minimum_duration_epochs ≤ℤ end +ℤ pos 1
    pub observed :
        (client_id : Str) (earliest : ℤ)
        → In client_id rules.selected_client_ids
        → dict_get (earliest_observed_epoch_by_client rules) client_id ≡ some earliest
        → earliest ≤ℤ start -ℤ pos rules.prestart_warmup_epochs
    pub clean :
        (client_id : Str) (epoch : ℤ)
        → In client_id rules.selected_client_ids
        → In epoch (epochs_of rules client_id)
        → start -ℤ pos rules.prestart_warmup_epochs ≤ℤ epoch
        → start ≤ℤ epoch

  module _ (start end : ℤ) where
    pub In-participants_of :
        (client_id : Str)
        → In client_id (participants_of rules start end) ↔ Participates start end client_id
    In-participants_of client_id =
        let active = λ (c : Str). any (within start end) (epochs_of rules c) in
        let kept = In-keep active rules.selected_client_ids client_id in
        let found = any_iff (within start end) (epochs_of rules client_id) in
        (
          λ i.
              let (j, q) = kept.0 i in
              let (epoch, k, w) = found.0 q in
              let (low, high) = (within_iff start end epoch).0 w in (j, (epoch, k, low, high)),
          λ (j, (epoch, k, low, high)).
              kept.1 (j, found.1 (epoch, k, (within_iff start end epoch).1 (low, high))),
        )

    min_epoch-ok :
        (epochs : List ℤ) (epoch : ℤ)
        → In epoch epochs
        → (first : ℤ) × (min_epoch epochs ≡ ok first) × IsMin epochs first
    min_epoch-ok [] epoch i = absurd i
    min_epoch-ok (x ∷ xs) epoch i = (min_ℤ x xs, refl, min_ℤ-IsMin x xs)

    first_epoch_of-FirstActive :
        (client_id : Str)
        → Participates start end client_id
        → (first : ℤ) × (first_epoch_of rules start end client_id ≡ ok first)
          × FirstActive start end client_id first
    unfolding epochs_of
    first_epoch_of-FirstActive client_id (_, (epoch, member, low, high)) =
        elim (dict_get-cases (epochs_by_client rules) client_id) [
          | inl (q, _) ↦ absurd (subst (In epoch) (ap or_no_epochs q) member)
          | inr (epochs, q, _) ↦
              let same : epochs_of rules client_id ≡ epochs = ap or_no_epochs q in
              let here : In epoch epochs = rw same at member in
              let kept = In-keep (within start end) epochs in
              let (first, r, (m, least)) =
                min_epoch-ok (keep (within start end) epochs) epoch
                  ((kept epoch).1 (here, (within_iff start end epoch).1 (low, high))) in
              let (j, w) = (kept first).0 m in
              let (a, b) = (within_iff start end first).0 w in
              (
                first,
                rw (q, first_epoch_of) r,
                (
                  rw same j,
                  a,
                  b,
                  λ x k c d. least x ((kept x).1 (rw same at k, (within_iff start end x).1 (c, d))),
                ),
              )
        ]

    abbrev pub Close : Type 0
    Close =
        (c d : Str) (first last : ℤ)
        → Participates start end c
        → Participates start end d
        → FirstActive start end c first
        → FirstActive start end d last
        → last ≤ℤ first +ℤ pos rules.distributed_first_activity_window_epochs

    abbrev window : ℤ
    window = pos rules.distributed_first_activity_window_epochs

    -- The extremes of the first epochs are those of clients that participate.
    spread_of-Close :
        (firsts : List ℤ) (first last : ℤ)
        → Maps (FirstActive start end) (participants_of rules start end) firsts
        → IsMin firsts first
        → IsMax firsts last
        → (ltb_ℤ window (last -ℤ first) ≡ false) ↔ Close
    spread_of-Close firsts first last maps (m, low) (n, high) = (
      λ q c d x y p p' a b.
          let (x', i, a') = maps.every c ((In-participants_of c).1 p) in
          let (y', j, b') = maps.every d ((In-participants_of d).1 p') in
          let narrow : last -ℤ first ≤ℤ window = ground arith in
          omega (int_laws, a'.3 x a.0 a.1 a.2, b.3 y' b'.0 b'.1 b'.2, low x' i, high y' j),
      λ close. elim (Bool-cases (ltb_ℤ window (last -ℤ first))) [
        | inr q ↦ q
        | inl q ↦
            let (c, i, a) = maps.each first m in
            let (d, j, b) = maps.each last n in
            let apart = (ltb_ℤ_iff window (last -ℤ first)).0 q in
            absurd (
              omega (
                int_laws,
                close c d first last ((In-participants_of c).0 i) ((In-participants_of d).0 j) a b,
              ))
      ],
    )

    pub spread_too_wide-Close :
        length (participants_of rules start end) ≢ 0
        → (wide : Bool) × (spread_too_wide rules start end ≡ ok wide) × ((wide ≡ false) ↔ Close)
    unfolding spread_too_wide
    spread_too_wide-Close some_participants =
        let (firsts, e, maps) =
          traverse-ok (FirstActive start end) (first_epoch_of rules start end)
            (participants_of rules start end)
            (λ c i. first_epoch_of-FirstActive c ((In-participants_of c).0 i)) in
        go firsts e maps
      where
        go :
            (firsts : List ℤ)
            → traverse (first_epoch_of rules start end) (participants_of rules start end)
              ≡ ok firsts
            → Maps (FirstActive start end) (participants_of rules start end) firsts
            → (wide : Bool) × (spread_too_wide rules start end ≡ ok wide) × ((wide ≡ false) ↔ Close)
        go [] e maps = absurd (some_participants (sym maps.same_length))
        go (x ∷ xs) e maps = (
          ltb_ℤ window (max_ℤ x xs -ℤ min_ℤ x xs),
          rw e refl,
          spread_of-Close (x ∷ xs) (min_ℤ x xs) (max_ℤ x xs) maps (min_ℤ-IsMin x xs)
              (max_ℤ-IsMax x xs),
        )
