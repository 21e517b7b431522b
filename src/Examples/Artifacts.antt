-- ===== src/Examples/Artifacts.antt =====
-- The example of a graph of artifacts.
use fed_campaign_emhi.Prelude.{◌≡◌, ◌↔◌, some, List, [], ◌∷◌}
use fed_campaign_emhi.Prelude.Str.{Str, str_le}
use fed_campaign_emhi.Prelude.Order.{IsSorted}
use fed_campaign_emhi.Prelude.Membership.{In, Distinct}
use fed_campaign_emhi.Domain.Types.{ArtifactDependencyNode}
use fed_campaign_emhi.Artifacts.{descendant_ids}
use fed_campaign_emhi.Artifacts.Descendants.{Affected, descendant_ids-Affected}
use fed_campaign_emhi.Examples.Data.{ann, bob, cy}

abbrev chain : List ArtifactDependencyNode
chain =
    (record { artifact_id = ann; material_fingerprint = ann; upstream_ids = [] })
    ∷ (record { artifact_id = bob; material_fingerprint = ann; upstream_ids = ann ∷ [] })
    ∷ (record { artifact_id = cy; material_fingerprint = ann; upstream_ids = bob ∷ ann ∷ [] })
    ∷ []

descendant_ids-Affected_example :
    (ids : List Str) × (descendant_ids chain (ann ∷ []) ≡ some ids)
    × IsSorted str_le ids
    × Distinct ids
    × ((x : Str) → In x ids ↔ (Affected (ann ∷ []) chain x × ¬ In x (ann ∷ [])))
descendant_ids-Affected_example = descendant_ids-Affected chain (ann ∷ [])
