-- ===== src/Artifacts/Searching.antt =====
-- The rounds of a search, and what it found once nothing is pending.
use fed_campaign_emhi.Prelude.{
  ℕ, zero, suc, ◌+◌, ◌≤◌, ◌≡◌, refl, ◌⊎◌, inl, inr, ◌↔◌, some, List, [], ◌∷◌, arith, length,
}
use fed_campaign_emhi.Prelude.Str.{Str}
use fed_campaign_emhi.Prelude.Sets.{str_eq_instance}
use fed_campaign_emhi.Prelude.Membership.{In, Distinct}
use fed_campaign_emhi.Artifacts.{Search, visit_edges, drain}
use fed_campaign_emhi.Artifacts.Visits.{unseen, IsConsistent, visit_edges-Visits}

-- The artifacts that the changes reach along the edges.
pub data Reaches (changed : List Str) (edges : List (Str × Str)) : Str → Type 0 where
  changes : {x : Str} → In x changed → Reaches changed edges x
  passes :
      {upstream x : Str}
      → Reaches changed edges upstream
      → In (upstream, x) edges
      → Reaches changed edges x

-- What holds of a search between two rounds: all that depends on what was seen is seen or pending.
pub record IsSearching (changed : List Str) (edges : List (Str × Str)) (s : Search) : Type 0 where
  pub consistent : IsConsistent changed s
  pub sound : (x : Str) → In x s.seen → Reaches changed edges x
  pub closed :
      (upstream x : Str)
      → In (upstream, x) edges
      → In upstream s.seen
      → In upstream s.pending ⊎ In x s.seen

-- What the search found once nothing is pending.
pub record Found (changed : List Str) (edges : List (Str × Str)) (ids : List Str) : Type 0 where
  pub exactly : (x : Str) → In x ids ↔ (Reaches changed edges x × ¬ In x changed)
  pub distinct : Distinct ids

complete :
    (changed : List Str) (edges : List (Str × Str)) (s : Search) (x : Str)
    → IsSearching changed edges s
    → s.pending ≡ []
    → Reaches changed edges x
    → In x s.seen
complete changed edges s x h e (changes i) = (h.consistent.members x).1 (inl i)
complete changed edges s x h e (passes {upstream} r i) =
    elim (h.closed upstream x i (complete changed edges s upstream h e r)) [
      | inl j ↦ absurd (rw e at j)
      | inr j ↦ j
    ]

finished-Found :
    (changed : List Str) (edges : List (Str × Str)) (s : Search)
    → IsSearching changed edges s
    → s.pending ≡ []
    → Found changed edges s.discovered
finished-Found changed edges s h e = record {
  exactly = λ x. (
    (λ i. (h.sound x ((h.consistent.members x).1 (inr i)), h.consistent.apart x i)),
    λ (r, n). elim ((h.consistent.members x).0 (complete changed edges s x h e r)) [
      | inl i ↦ absurd (n i)
      | inr i ↦ i
    ],
  );
  distinct = h.consistent.fresh;
}

-- One round: `current` is taken off, and its edges are visited.
round-IsSearching :
    (changed : List Str) (edges : List (Str × Str)) (discovered : List Str) (current : Str)
    (pending seen : List Str)
    → IsSearching changed edges
        (record { discovered = discovered; pending = current ∷ pending; seen = seen })
    → let s : Search = record { discovered = discovered; pending = pending; seen = seen } in
      let t = visit_edges current s edges in
      IsSearching changed edges t
      × (length t.pending + unseen edges t.seen ≤ length pending + unseen edges seen)
round-IsSearching changed edges discovered current pending seen h =
    let s : Search = record { discovered = discovered; pending = pending; seen = seen } in
    let (visits, met) = visit_edges-Visits changed edges current s edges (λ edge i. i) in
    let c = h.consistent in
    let current_seen = c.waiting current (inl refl) in
    (
      record {
        consistent = visits.consistent (record {
          members = c.members;
          apart = c.apart;
          fresh = c.fresh;
          waiting = λ x i. c.waiting x (inr i);
        });
        sound = λ x i. elim (visits.found x i) [
          | inl j ↦ h.sound x j
          | inr (_, j) ↦ passes (h.sound current current_seen) j
        ];
        closed = λ upstream x i j. elim (visits.found upstream j) [
          | inr (k, _) ↦ inl k
          | inl k ↦ elim (h.closed upstream x i k) [
            | inl (inl e) ↦ inr (met x (rw e at i))
            | inl (inr m) ↦ inl (visits.still upstream m)
            | inr m ↦ inr (visits.kept x m)
          ]
        ];
      },
      visits.shrinks,
    )

pub drain-Found :
    (changed : List Str) (edges : List (Str × Str)) (fuel : ℕ) (discovered pending seen : List Str)
    → IsSearching changed edges (record { discovered = discovered; pending = pending; seen = seen })
    → length pending + unseen edges seen ≤ fuel
    → (ids : List Str) × (drain edges fuel discovered pending seen ≡ some ids)
      × Found changed edges ids
unfolding drain
drain-Found changed edges fuel discovered [] seen h k =
    (discovered, refl, finished-Found changed edges _ h refl)
drain-Found changed edges zero discovered (current ∷ pending) seen h k = absurd (omega arith)
drain-Found changed edges (suc fuel) discovered (current ∷ pending) seen h k =
    let (h', less) = round-IsSearching changed edges discovered current pending seen h in
    let next =
      visit_edges current (record { discovered = discovered; pending = pending; seen = seen })
        edges in
    drain-Found changed edges fuel next.discovered next.pending next.seen h' (omega arith)
