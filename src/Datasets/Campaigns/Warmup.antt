-- ===== src/Datasets/Campaigns/Warmup.antt =====
-- The warmup before a run: every selected client is observed, and none is malicious.
use fed_campaign_emhi.Prelude.{
  ◌≡◌, refl, sym, ◌∙◌, ◌↔◌, inl, inr, Bool, true, false, not, ◌&&◌, some, List, [], ◌∷◌, arith,
  Bool-cases, any, ok, true_and,
}
use fed_campaign_emhi.Prelude.Int.{ℤ, ◌≤ℤ◌, leb_ℤ, ltb_ℤ, leb_ℤ_iff, ltb_ℤ_iff}
use fed_campaign_emhi.Prelude.Str.{Str}
use fed_campaign_emhi.Prelude.Sets.{str_eq_instance}
use fed_campaign_emhi.Prelude.Membership.{In, any_iff, all_iff}
use fed_campaign_emhi.Prelude.Dict.{dict_get, dict_get-cases, keys}
use fed_campaign_emhi.Datasets.Campaigns.{CampaignRules, epochs_of, warmup_observed, warmup_clean}

pub warmup_observed-ok :
    (earliest : List (Str × ℤ)) (warmup_start : ℤ) (clients : List Str)
    → ((client_id : Str) → In client_id clients → In client_id (keys earliest))
    → (observed : Bool) × (warmup_observed earliest warmup_start clients ≡ ok observed)
      × ((observed ≡ true) ↔ (
          (client_id : Str) (epoch : ℤ)
          → In client_id clients
          → dict_get earliest client_id ≡ some epoch
          → epoch ≤ℤ warmup_start))
unfolding warmup_observed
warmup_observed-ok earliest warmup_start [] known =
    (true, refl, (λ q client_id epoch i. absurd i, λ h. refl))
warmup_observed-ok earliest warmup_start (client ∷ clients) known =
    let (later, e, iff) =
      warmup_observed-ok earliest warmup_start clients (λ c i. known c (inr i)) in
    elim (dict_get-cases earliest client) [
      | inl (q, absent) ↦ absurd (absent (known client (inl refl)))
      | inr (epoch, q, _) ↦ elim (Bool-cases (leb_ℤ epoch warmup_start)) [
        | inl h ↦ (
          later,
          rw (q, warmup_observed, h) e,
          (
            λ t c x i k. elim i [
              | inl same ↦
                  let found : dict_get earliest client ≡ some x = rw same at k in
                  let one_value : epoch ≡ x = (let w : some epoch ≡ some x = sym q ∙ found in cc) in
                  rw (← one_value) ((leb_ℤ_iff epoch warmup_start).0 h)
              | inr j ↦ iff.0 t c x j k
            ],
            λ all_early. iff.1 (λ c x i. all_early c x (inr i)),
          ),
        )
        | inr h ↦ (
          false,
          rw (q, warmup_observed, h) refl,
          (
            λ t. absurd (let w : false ≡ true = t in cc),
            λ all_early.
                let early =
                  (leb_ℤ_iff epoch warmup_start).1 (all_early client epoch (inl refl) q) in
                absurd (let w : true ≡ false = sym early ∙ h in cc),
          ),
        )
      ]
    ]

pub warmup_clean_iff :
    (rules : CampaignRules) (warmup_start start : ℤ)
    → (warmup_clean rules warmup_start start ≡ true) ↔ (
        (client_id : Str) (epoch : ℤ)
        → In client_id rules.selected_client_ids
        → In epoch (epochs_of rules client_id)
        → warmup_start ≤ℤ epoch
        → start ≤ℤ epoch)
warmup_clean_iff rules warmup_start start =
    let early = λ (epoch : ℤ). leb_ℤ warmup_start epoch && ltb_ℤ epoch start in
    let quiet = λ (c : Str). not (any early (epochs_of rules c)) in
    let clients = all_iff quiet rules.selected_client_ids in
    (
      λ q c epoch i j h. elim (Bool-cases (ltb_ℤ epoch start)) [
        | inr k ↦ ground arith
        | inl k ↦
            let found =
              (any_iff early (epochs_of rules c)).1
                (epoch, j, rw ((leb_ℤ_iff warmup_start epoch).1 h, k) refl) in
            absurd (
              let w : not (any early (epochs_of rules c)) ≡ true = clients.0 q c i in
              let v : false ≡ true = rw found at w in cc)
      ],
      λ h. clients.1 (λ c i. elim (Bool-cases (any early (epochs_of rules c))) [
        | inr q ↦ rw q refl
        | inl q ↦
            let (epoch, j, both) = (any_iff early (epochs_of rules c)).0 q in
            let (after, before) = true_and (leb_ℤ warmup_start epoch) (ltb_ℤ epoch start) both in
            let late = h c epoch i j ((leb_ℤ_iff warmup_start epoch).0 after) in
            absurd (omega (arith, (ltb_ℤ_iff epoch start).0 before))
      ]),
    )
