-- ===== src/Artifacts.antt =====
-- src/fedcampaign_emhi/artifacts/provenance.py: the artifacts that depend on changed ones. The digests
-- of configurations and files are not modelled.
mod Visits
mod Searching
pub mod Descendants
use fed_campaign_emhi.Prelude.{
  ℕ, zero, suc, ◌+◌, not, ◌||◌, Option, none, some, List, [], ◌∷◌, ◌++◌, map, flat_map,
  if◌then◌else◌, length, reversed,
}
use fed_campaign_emhi.Prelude.Str.{Str, str_eq, str_le}
use fed_campaign_emhi.Prelude.Sets.{str_eq_instance, contains, set_of}
use fed_campaign_emhi.Prelude.Order.{sorted}
use fed_campaign_emhi.Domain.Types.{ArtifactDependencyNode}

-- Pairs of an upstream artifact and one that depends on it.
abbrev pub edges_of : List ArtifactDependencyNode → List (Str × Str)
edges_of graph =
    flat_map
      (λ (node : ArtifactDependencyNode).
        map (λ upstream_id. (upstream_id, node.artifact_id)) node.upstream_ids)
      graph

-- The loop variables of `descendant_ids`; the head of `pending` is what `pop` takes off.
pub record Search : Type 0 where
  pub discovered : List Str
  pub pending : List Str
  pub seen : List Str

unfoldable pub visit_edge : Str → Search → Str × Str → Search
visit_edge current search (upstream_id, child) =
    if not (str_eq upstream_id current) || contains search.seen child then search else record {
      discovered = search.discovered ++ child ∷ [];
      pending = child ∷ search.pending;
      seen = child ∷ search.seen;
    }

-- The inner loop, over the edges that are left.
unfoldable pub visit_edges : Str → Search → List (Str × Str) → Search
visit_edges current search [] = search
visit_edges current search (edge ∷ edges) =
    visit_edges current (visit_edge current search edge) edges

-- `while pending`, with at most `fuel` rounds: `none` if they do not suffice.
unfoldable pub drain :
    List (Str × Str) → ℕ → (discovered pending seen : List Str) → Option (List Str)
drain edges fuel discovered [] seen = some discovered
drain edges zero discovered (current ∷ pending) seen = none
drain edges (suc fuel) discovered (current ∷ pending) seen =
    let next =
      visit_edges current (record { discovered = discovered; pending = pending; seen = seen })
        edges in
    drain edges fuel next.discovered next.pending next.seen

abbrev sorted_ids : Option (List Str) → Option (List Str)
sorted_ids none = none
sorted_ids (some discovered) = some (sorted str_le discovered)

unfoldable pub descendant_ids : List ArtifactDependencyNode → List Str → Option (List Str)
unfolding drain
descendant_ids graph changed_ids =
    let edges = edges_of graph in
    sorted_ids (
      drain edges (length changed_ids + length edges) [] (reversed changed_ids)
        (set_of changed_ids))
