-- ===== src/Datasets/Campaigns/Registry.antt =====
-- Which runs the registry of campaigns takes in.
use fed_campaign_emhi.Prelude.{
  ◌≡◌, refl, sym, ap, ◌∙◌, ◌≢◌, ◌↔◌, inl, inr, Bool, true, false, ◌&&◌, ◌||◌, some, List, [], ◌∷◌,
  arith, ltb, Bool-cases, length, flat_map, ok, true_and, subst, false_or, true≢false,
}
use fed_campaign_emhi.Prelude.Int.{ℤ, pos, ◌+ℤ◌, ◌-ℤ◌, ◌≤ℤ◌, ltb_ℤ, ltb_ℤ_iff, int_laws}
use fed_campaign_emhi.Prelude.Str.{Str}
use fed_campaign_emhi.Prelude.Sets.{str_eq_instance}
use fed_campaign_emhi.Prelude.Membership.{In}
use fed_campaign_emhi.Prelude.Dict.{dict_get, keys}
use fed_campaign_emhi.Domain.Types.{ClientMaliciousEpochs, CampaignRegistryEntry}
use fed_campaign_emhi.Datasets.Campaigns.{
  CampaignRules, epochs_of, earliest_observed_epoch_by_client, participants_of, warmup_clean,
  entry_of, warmed_up, admits, registry_loop, build_campaign_registry, merge_malicious_runs,
}
use fed_campaign_emhi.Datasets.Campaigns.Activity.{Qualifies, spread_too_wide-Close}
use fed_campaign_emhi.Datasets.Campaigns.Warmup.{warmup_observed-ok, warmup_clean_iff}

-- The entries are those of the runs that qualify.
abbrev pub Registers : CampaignRules → List (ℤ × ℤ) → List CampaignRegistryEntry → Type 0
Registers rules runs entries =
    (entry : CampaignRegistryEntry)
    → In entry entries ↔ (
        (run : ℤ × ℤ) × In run runs
        × Qualifies rules run.0 run.1
        × (entry ≡ entry_of rules run.0 run.1))

module _ (rules : CampaignRules)
    (recorded : (client_id : Str)
      → In client_id rules.selected_client_ids
      → In client_id (keys (earliest_observed_epoch_by_client rules)))
    (some_minimum : rules.minimum_clients ≢ 0) where
  abbrev Observed : ℤ → Type 0
  Observed start =
      (client_id : Str) (earliest : ℤ)
      → In client_id rules.selected_client_ids
      → dict_get (earliest_observed_epoch_by_client rules) client_id ≡ some earliest
      → earliest ≤ℤ start -ℤ pos rules.prestart_warmup_epochs

  abbrev Clean : ℤ → Type 0
  Clean start =
      (client_id : Str) (epoch : ℤ)
      → In client_id rules.selected_client_ids
      → In epoch (epochs_of rules client_id)
      → start -ℤ pos rules.prestart_warmup_epochs ≤ℤ epoch
      → start ≤ℤ epoch

  warmed_up-ok :
      (start end : ℤ)
      → (warm : Bool) × (warmed_up rules start end ≡ ok warm)
        × ((warm ≡ true) ↔ (Observed start × Clean start))
  unfolding warmed_up
  warmed_up-ok start end =
      let warmup_start = start -ℤ pos rules.prestart_warmup_epochs in
      let (observed, e, iff) =
        warmup_observed-ok (earliest_observed_epoch_by_client rules) warmup_start
          rules.selected_client_ids recorded in
      let clean = warmup_clean_iff rules warmup_start start in
      (
        observed && warmup_clean rules warmup_start start,
        rw e refl,
        (
          λ q.
              let (a, b) = true_and observed (warmup_clean rules warmup_start start) q in
              (iff.0 a, clean.0 b),
          λ (a, b). rw (iff.1 a, clean.1 b) refl,
        ),
      )

  abbrev too_short : ℤ → ℤ → Bool
  too_short start end = ltb_ℤ ((end -ℤ start) +ℤ pos 1) (pos rules.minimum_duration_epochs)

  too_short_iff :
      (start end : ℤ)
      → (too_short start end ≡ false) ↔ (start +ℤ pos rules.minimum_duration_epochs ≤ℤ end +ℤ pos 1)
  too_short_iff start end =
      let shorter = ltb_ℤ_iff ((end -ℤ start) +ℤ pos 1) (pos rules.minimum_duration_epochs) in
      (
        λ q.
            let long : pos rules.minimum_duration_epochs ≤ℤ (end -ℤ start) +ℤ pos 1 =
              ground arith in
            omega int_laws,
        λ long. elim (Bool-cases (too_short start end)) [
          | inl q ↦ absurd (let short = shorter.0 q in omega int_laws)
          | inr q ↦ q
        ],
      )

  -- The guards pass exactly the runs that qualify.
  admits-Qualifies :
      (start end : ℤ)
      → (admitted : Bool) × (admits rules start end ≡ ok admitted)
        × ((admitted ≡ true) ↔ Qualifies rules start end)
  unfolding admits
  admits-Qualifies start end =
      let people = length (participants_of rules start end) in
      elim (Bool-cases (ltb people rules.minimum_clients)) [
        | inl few ↦ (
          false,
          rw few refl,
          (λ q. absurd (cc), λ qualifies. absurd (let w = qualifies.enough in ground arith)),
        )
        | inr enough ↦
            let (wide, e, close) = spread_too_wide-Close rules start end (ground arith) in
            let (warm, e', clean) = warmed_up-ok start end in
            elim (Bool-cases (wide || too_short start end)) [
              | inl q ↦ (
                false,
                rw (enough, e, q) refl,
                (
                  λ t. absurd (cc),
                  λ qualifies.
                      let passes =
                        (false_or wide (too_short start end)).1
                          (close.1 qualifies.close, (too_short_iff start end).1 qualifies.long) in
                      absurd (true≢false (sym q ∙ passes)),
                ),
              )
              | inr q ↦ (
                warm,
                rw (enough, e, q) e',
                (
                  λ t. record {
                    enough = ground arith;
                    close = close.0 ((false_or wide (too_short start end)).0 q).0;
                    long =
                        (too_short_iff start end).0 ((false_or wide (too_short start end)).0 q).1;
                    observed = (clean.0 t).0;
                    clean = (clean.0 t).1;
                  },
                  λ qualifies. clean.1 (qualifies.observed, qualifies.clean),
                ),
              )
            ]
      ]

  registry_loop-Registers :
      (runs : List (ℤ × ℤ))
      → (entries : List CampaignRegistryEntry) × (registry_loop rules runs ≡ ok entries)
        × Registers rules runs entries
  unfolding registry_loop
  registry_loop-Registers [] = ([], refl, λ entry. (λ i. absurd i, λ (run, i, _, _). absurd i))
  registry_loop-Registers ((start, end) ∷ runs) =
      let (admitted, e, iff) = admits-Qualifies start end in
      let (entries, e', registers) = registry_loop-Registers runs in
      elim (Bool-cases admitted) [
        | inl q ↦ (
          entry_of rules start end ∷ entries,
          rw (e, e', q) refl,
          λ entry. (
            λ i. elim i [
              | inl p ↦ ((start, end), inl refl, iff.0 q, p)
              | inr j ↦ let (run, k, s, p) = (registers entry).0 j in (run, inr k, s, p)
            ],
            λ (run, i, s, p). elim i [
              | inl same ↦ inl (p ∙ ap (λ (r : ℤ × ℤ). entry_of rules r.0 r.1) same)
              | inr j ↦ inr ((registers entry).1 (run, j, s, p))
            ],
          ),
        )
        | inr q ↦ (
          entries,
          rw (e, e', q) refl,
          λ entry. (
            λ i. let (run, k, s, p) = (registers entry).0 i in (run, inr k, s, p),
            λ (run, i, s, p). elim i [
              | inl same ↦
                  let here : Qualifies rules start end =
                    subst (λ (r : ℤ × ℤ). Qualifies rules r.0 r.1) same s in
                  absurd (true≢false (sym (iff.1 here) ∙ q))
              | inr j ↦ (registers entry).1 (run, j, s, p)
            ],
          ),
        )
      ]

  -- If every selected client has a record and at least one client is asked for, the registry is built,
  -- and its entries are exactly those of the merged runs in which enough clients participate, whose
  -- first malicious epochs lie close together, which are long enough, and before which every selected
  -- client was observed, and not malicious, for the warmup.
  pub build_campaign_registry-Registers :
      (entries : List CampaignRegistryEntry) × (build_campaign_registry rules ≡ ok entries)
      × Registers rules
          (merge_malicious_runs
            (flat_map
              (λ (r : ClientMaliciousEpochs). r.malicious_epochs)
              rules.client_malicious_epochs)
            rules.merge_max_intervening_benign_epochs
            rules.fully_benign_epochs)
          entries
  unfolding build_campaign_registry
  build_campaign_registry-Registers = registry_loop-Registers (
      merge_malicious_runs
        (flat_map (λ (r : ClientMaliciousEpochs). r.malicious_epochs) rules.client_malicious_epochs)
        rules.merge_max_intervening_benign_epochs rules.fully_benign_epochs)
