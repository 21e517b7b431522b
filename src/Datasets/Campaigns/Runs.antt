-- ===== src/Datasets/Campaigns/Runs.antt =====
-- Which runs the malicious epochs are merged into.
use fed_campaign_emhi.Prelude.{
  ℕ, ◌≡◌, refl, ◌↔◌, ◌⊎◌, inl, inr, true, List, [], ◌∷◌, arith, Bool-cases,
}
use fed_campaign_emhi.Prelude.Int.{ℤ, ◌≤ℤ◌, ◌<ℤ◌, leb_ℤ, ltb_ℤ, leb_ℤ_iff, ltb_ℤ_iff, eq_of_parts}
use fed_campaign_emhi.Prelude.Sets.{int_eq, set_of, In-set_of}
use fed_campaign_emhi.Prelude.Membership.{In, All}
use fed_campaign_emhi.Prelude.Order.{sorted, IsOrder, IsSorted, sorted-IsSorted, In-sorted}
use fed_campaign_emhi.Datasets.Campaigns.{joins_run, merge_loop, runs_of, merge_malicious_runs}
use fed_campaign_emhi.Datasets.Campaigns.Gaps.{Joinable, not_joined, not_joins, joined_gap}

leb_ℤ_total : (a b : ℤ) → (leb_ℤ a b ≡ true) ⊎ (leb_ℤ b a ≡ true)
leb_ℤ_total a b = ground arith

leb_ℤ_trans : (a b c : ℤ) → leb_ℤ a b ≡ true → leb_ℤ b c ≡ true → leb_ℤ a c ≡ true
leb_ℤ_trans a b c h k = (leb_ℤ_iff a c).1 (omega (arith, (leb_ℤ_iff a b).0 h, (leb_ℤ_iff b c).0 k))

leb_ℤ-IsOrder : IsOrder leb_ℤ
leb_ℤ-IsOrder = record { total = leb_ℤ_total; trans = leb_ℤ_trans }

-- A run goes from a malicious epoch to a malicious epoch, and each of its epochs is malicious or fully
-- benign.
pub record IsRun (malicious benign : List ℤ) (run : ℤ × ℤ) : Type 0 where
  pub starts : In run.0 malicious
  pub ends : In run.1 malicious
  pub forward : run.0 ≤ℤ run.1
  pub filled : (epoch : ℤ) → run.0 ≤ℤ epoch → epoch ≤ℤ run.1 → In epoch malicious ⊎ In epoch benign

abbrev pub Covers : ℤ → List (ℤ × ℤ) → Type 0
Covers epoch runs = (run : ℤ × ℤ) × In run runs × (run.0 ≤ℤ epoch) × (epoch ≤ℤ run.1)

-- Each run ends before the next one starts, and the gap between them is too long or not fully benign.
abbrev pub Apart : ℕ → List ℤ → ℤ → List (ℤ × ℤ) → Type 0
Apart max_gap benign end [] = Unit
Apart max_gap benign end ((start, next) ∷ rest) =
    (end <ℤ start) × (¬ Joinable max_gap benign end start) × Apart max_gap benign next rest

abbrev pub Separated : ℕ → List ℤ → List (ℤ × ℤ) → Type 0
Separated max_gap benign [] = Unit
Separated max_gap benign ((start, end) ∷ rest) = Apart max_gap benign end rest

module _ (max_gap : ℕ) (benign : List ℤ) where
  module _ (malicious : List ℤ) where
    -- What the loop appends from `start` and `previous` on.
    record Merges (start previous : ℤ) (rest : List ℤ) (runs : List (ℤ × ℤ)) : Type 0 where
      last : ℤ
      others : List (ℤ × ℤ)
      shape : runs ≡ (start, last) ∷ others
      reaches : previous ≤ℤ last
      first_run : IsRun malicious benign (start, last)
      other_runs : All (IsRun malicious benign) others
      apart : Apart max_gap benign last others
      covered : (epoch : ℤ) → In epoch rest → Covers epoch runs

    extend :
        (start previous epoch : ℤ)
        → IsRun malicious benign (start, previous)
        → In epoch malicious
        → previous ≤ℤ epoch
        → joins_run max_gap benign previous epoch ≡ true
        → IsRun malicious benign (start, epoch)
    extend start previous epoch run m h q = record {
      starts = run.starts;
      ends = m;
      forward = omega (arith, run.forward);
      filled = λ x a b. elim (Bool-cases (leb_ℤ x previous)) [
        | inl k ↦ run.filled x a ((leb_ℤ_iff x previous).0 k)
        | inr k ↦ elim (Bool-cases (ltb_ℤ x epoch)) [
          | inl l ↦ inr (
              joined_gap max_gap benign previous epoch q x (ground arith) ((ltb_ℤ_iff x epoch).0 l))
          | inr l ↦ inl (let same : x ≡ epoch = eq_of_parts x epoch (ground arith) in rw same m)
        ]
      ];
    }

    single : (epoch : ℤ) → In epoch malicious → IsRun malicious benign (epoch, epoch)
    single epoch m = record {
      starts = m;
      ends = m;
      forward = omega arith;
      filled = λ x a b. let same : x ≡ epoch = eq_of_parts x epoch (omega arith) in inl (rw same m);
    }

    later_covered :
        (start previous epoch : ℤ) (rest : List ℤ) (runs : List (ℤ × ℤ))
        → start ≤ℤ epoch
        → Merges start epoch rest runs
        → (x : ℤ) → In x (epoch ∷ rest)
        → Covers x runs
    later_covered start previous epoch rest runs h merged x (inl e) =
        ((start, merged.last), rw merged.shape (inl refl), rw e h, rw e merged.reaches)
    later_covered start previous epoch rest runs h merged x (inr i) = merged.covered x i

    merge_loop-Merges :
        (start previous : ℤ) (rest : List ℤ)
        → IsRun malicious benign (start, previous)
        → IsSorted leb_ℤ (previous ∷ rest)
        → ((epoch : ℤ) → In epoch rest → In epoch malicious)
        → Merges start previous rest (merge_loop max_gap benign start previous rest)
    unfolding merge_loop
    merge_loop-Merges start previous [] run s m = record {
      last = previous;
      others = [];
      shape = refl;
      reaches = omega arith;
      first_run = run;
      other_runs = tt;
      apart = tt;
      covered = λ epoch i. absurd i;
    }
    merge_loop-Merges start previous (epoch ∷ rest) run s m =
        let h : previous ≤ℤ epoch = (leb_ℤ_iff previous epoch).0 s.0.0 in
        let here = m epoch (inl refl) in
        let later = λ (x : ℤ) (i : In x rest). m x (inr i) in
        elim (Bool-cases (joins_run max_gap benign previous epoch)) [
          | inl q ↦
              let merged =
                merge_loop-Merges start epoch rest (extend start previous epoch run here h q) s.1
                  later in
              rw q (record {
                last = merged.last;
                others = merged.others;
                shape = merged.shape;
                reaches = omega (arith, merged.reaches);
                first_run = merged.first_run;
                other_runs = merged.other_runs;
                apart = merged.apart;
                covered =
                    later_covered start previous epoch rest
                      (merge_loop max_gap benign start epoch rest) (omega (arith, run.forward))
                      merged;
              })
          | inr q ↦
              let merged = merge_loop-Merges epoch epoch rest (single epoch here) s.1 later in
              let covered =
                later_covered epoch previous epoch rest (merge_loop max_gap benign epoch epoch rest)
                  (omega arith) merged in
              rw q (record {
                last = previous;
                others = merge_loop max_gap benign epoch epoch rest;
                shape = refl;
                reaches = omega arith;
                first_run = run;
                other_runs = rw merged.shape (merged.first_run, merged.other_runs);
                apart = rw merged.shape (
                  not_joined max_gap benign previous epoch h q,
                  not_joins max_gap benign previous epoch q,
                  merged.apart,
                );
                covered = λ x i. let (r, j, a, b) = covered x i in (r, inr j, a, b);
              })
        ]

-- The runs go from malicious epoch to malicious epoch over epochs that are malicious or fully benign;
-- every malicious epoch lies in one; and the runs are in order and apart.
pub record IsMerged (max_gap : ℕ) (malicious benign : List ℤ) (runs : List (ℤ × ℤ)) : Type 0 where
  pub are_runs : All (IsRun malicious benign) runs
  pub covered : (epoch : ℤ) → In epoch malicious → Covers epoch runs
  pub separated : Separated max_gap benign runs

runs_of-IsMerged :
    (max_gap : ℕ) (malicious benign ordered : List ℤ)
    → IsSorted leb_ℤ ordered
    → ((epoch : ℤ) → In epoch ordered ↔ In epoch malicious)
    → IsMerged max_gap malicious benign (runs_of max_gap benign ordered)
unfolding runs_of
runs_of-IsMerged max_gap malicious benign [] s same = record {
  are_runs = tt;
  covered = λ epoch i. absurd ((same epoch).1 i);
  separated = tt;
}
runs_of-IsMerged max_gap malicious benign (epoch ∷ rest) s same =
    let here = (same epoch).0 (inl refl) in
    let run = single max_gap benign malicious epoch here in
    let merged =
      merge_loop-Merges max_gap benign malicious epoch epoch rest run s
        (λ x i. (same x).0 (inr i)) in
    record {
      are_runs = rw merged.shape (merged.first_run, merged.other_runs);
      covered = λ x i.
          later_covered max_gap benign malicious epoch epoch epoch rest
            (merge_loop max_gap benign epoch epoch rest) (omega arith) merged x ((same x).1 i);
      separated = rw merged.shape merged.apart;
    }

-- The merged runs start and end at malicious epochs, hold only epochs that are malicious or fully
-- benign, and cover every malicious epoch. Each ends before the next one starts, and the
-- gap between them is longer than the maximum or holds an epoch that is not fully benign.
pub merge_malicious_runs-IsMerged :
    (malicious : List ℤ) (max_gap : ℕ) (benign : List ℤ)
    → IsMerged max_gap malicious benign (merge_malicious_runs malicious max_gap benign)
unfolding merge_malicious_runs
merge_malicious_runs-IsMerged malicious max_gap benign =
    runs_of-IsMerged max_gap malicious benign (sorted leb_ℤ (set_of malicious))
      (sorted-IsSorted leb_ℤ leb_ℤ-IsOrder (set_of malicious))
      (λ epoch. (
        λ i. (In-set_of malicious epoch).0 ((In-sorted leb_ℤ (set_of malicious) epoch).0 i),
        λ i. (In-sorted leb_ℤ (set_of malicious) epoch).1 ((In-set_of malicious epoch).1 i),
      ))
