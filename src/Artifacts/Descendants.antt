-- ===== src/Artifacts/Descendants.antt =====
-- The search finds exactly the artifacts that depend on the changed ones.
use fed_campaign_emhi.Prelude.{
  ◌+◌, ◌≤◌, ◌≡◌, refl, sym, ap, subst, inl, inr, ◌↔◌, some, List, [], arith, length,
  length-reversed, reversed, count_if-le-length, map, not,
}
use fed_campaign_emhi.Prelude.Str.{Str, str_le, str_le-IsOrder}
use fed_campaign_emhi.Prelude.Sets.{str_eq_instance, contains, set_of, In-set_of}
use fed_campaign_emhi.Prelude.Order.{sorted, IsSorted, In-sorted, sorted-IsSorted, Distinct-sorted}
use fed_campaign_emhi.Prelude.Membership.{In, Distinct, In-reversed, In-flat_map, In-map}
use fed_campaign_emhi.Artifacts.{edges_of, descendant_ids}
use fed_campaign_emhi.Artifacts.Visits.{unseen}
use fed_campaign_emhi.Artifacts.Searching.{Reaches, changes, passes, IsSearching, drain-Found}
use fed_campaign_emhi.Domain.Types.{ArtifactDependencyNode}

-- `x` names `upstream` among the artifacts it is made from.
abbrev pub DependsOn : List ArtifactDependencyNode → Str → Str → Type 0
DependsOn graph upstream x =
    (node : ArtifactDependencyNode) × In node graph
    × In upstream node.upstream_ids
    × (x ≡ node.artifact_id)

-- The artifacts that depend on the changed ones, directly or through others, and those themselves.
pub data Affected (changed_ids : List Str) (graph : List ArtifactDependencyNode)
    : Str → Type 0 where
  altered : {x : Str} → In x changed_ids → Affected changed_ids graph x
  depends :
      {upstream x : Str}
      → Affected changed_ids graph upstream
      → DependsOn graph upstream x
      → Affected changed_ids graph x

In-edges_of :
    (graph : List ArtifactDependencyNode) (upstream x : Str)
    → In (upstream, x) (edges_of graph) ↔ DependsOn graph upstream x
In-edges_of graph upstream x = (to, from)
  where
    edges_from : ArtifactDependencyNode → List (Str × Str)
    edges_from node = map (λ upstream_id. (upstream_id, node.artifact_id)) node.upstream_ids

    to : In (upstream, x) (edges_of graph) → DependsOn graph upstream x
    to i =
        let (node, j, k) = (In-flat_map edges_from graph (upstream, x)).0 i in
        let (u, m, e) =
          (In-map (λ upstream_id. (upstream_id, node.artifact_id)) node.upstream_ids
              (upstream, x)).0
            k in
        (
          node,
          j,
          subst (λ v. In v node.upstream_ids) (sym (ap (λ (pair : Str × Str). pair.0) e)) m,
          ap (λ (pair : Str × Str). pair.1) e,
        )

    from : DependsOn graph upstream x → In (upstream, x) (edges_of graph)
    from (node, j, k, e) = (In-flat_map edges_from graph (upstream, x)).1 (
      node,
      j,
      (In-map (λ upstream_id. (upstream_id, node.artifact_id)) node.upstream_ids (upstream, x)).1
          (upstream, k, ap (λ y. (upstream, y)) e),
    )

Affected-iff :
    (changed : List Str) (graph : List ArtifactDependencyNode) (x : Str)
    → Reaches changed (edges_of graph) x ↔ Affected changed graph x
Affected-iff changed graph x = (to, from)
  where
    to : {x : Str} → Reaches changed (edges_of graph) x → Affected changed graph x
    to (changes i) = altered i
    to (passes {upstream} {x} r i) = depends (to r) ((In-edges_of graph upstream x).0 i)

    from : {x : Str} → Affected changed graph x → Reaches changed (edges_of graph) x
    from (altered i) = changes i
    from (depends {upstream} {x} a d) = passes (from a) ((In-edges_of graph upstream x).1 d)

initial-IsSearching :
    (changed : List Str) (edges : List (Str × Str))
    → IsSearching changed edges
        (record { discovered = []; pending = reversed changed; seen = set_of changed })
initial-IsSearching changed edges = record {
  consistent = record {
    members = λ x. (
      (λ i. inl ((In-set_of changed x).0 i)),
      λ i. (In-set_of changed x).1 (elim i [ inl j ↦ j | inr j ↦ absurd j ]),
    );
    apart = λ x i. absurd i;
    fresh = tt;
    waiting = λ x i. (In-set_of changed x).1 ((In-reversed x changed).0 i);
  };
  sound = λ x i. changes ((In-set_of changed x).0 i);
  closed =
      λ upstream x i j. inl ((In-reversed upstream changed).1 ((In-set_of changed upstream).0 j));
}

-- The search ends within its rounds, and returns, in order and each once, exactly the artifacts that
-- depend on a changed one, directly or through others, and that did not change themselves.
pub descendant_ids-Affected :
    (graph : List ArtifactDependencyNode) (changed_ids : List Str)
    → (ids : List Str) × (descendant_ids graph changed_ids ≡ some ids)
      × IsSorted str_le ids
      × Distinct ids
      × ((x : Str) → In x ids ↔ (Affected changed_ids graph x × ¬ In x changed_ids))
unfolding descendant_ids
descendant_ids-Affected graph changed =
    let edges = edges_of graph in
    let enough : length (reversed changed) + unseen edges (set_of changed)
        ≤ length changed + length edges =
      omega (
        arith,
        length-reversed changed,
        count_if-le-length (λ (edge : Str × Str). not (contains (set_of changed) edge.1)) edges,
      ) in
    let (ids, e, found) =
      drain-Found changed edges (length changed + length edges) [] (reversed changed)
        (set_of changed) (initial-IsSearching changed edges) enough in
    (
      sorted str_le ids,
      rw e refl,
      sorted-IsSorted str_le str_le-IsOrder ids,
      Distinct-sorted str_le ids found.distinct,
      λ x. (
        (λ i.
            let (r, n) = (found.exactly x).0 ((In-sorted str_le ids x).0 i) in
            ((Affected-iff changed graph x).0 r, n)),
        λ (a, n).
            (In-sorted str_le ids x).1
              ((found.exactly x).1 ((Affected-iff changed graph x).1 a, n)),
      ),
    )
