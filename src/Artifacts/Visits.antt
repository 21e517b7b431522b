-- ===== src/Artifacts/Visits.antt =====
-- What a pass over the edges does to a search.
use fed_campaign_emhi.Prelude.{
  ℕ, ◌+◌, ◌≤◌, ◌<◌, ◌≡◌, refl, sym, ap, ◌∙◌, subst, ◌⊎◌, inl, inr, ◌↔◌, true, false, not, List, [],
  ◌∷◌, ◌++◌, arith, length, count_if, Bool-cases,
}
use fed_campaign_emhi.Prelude.Str.{Str, str_eq, str_eq_iff}
use fed_campaign_emhi.Prelude.Sets.{
  str_eq_instance, contains, contains_iff, contains_not, Distinct-snoc,
}
use fed_campaign_emhi.Prelude.Membership.{In, Distinct, In-append}
use fed_campaign_emhi.Artifacts.{Search, visit_edge, visit_edges}

-- The edges whose child has not been seen.
abbrev pub unseen : List (Str × Str) → List Str → ℕ
unseen edges seen = count_if (λ (edge : Str × Str). not (contains seen edge.1)) edges

-- What holds of a search between two edges.
pub record IsConsistent (changed : List Str) (s : Search) : Type 0 where
  pub members : (x : Str) → In x s.seen ↔ (In x changed ⊎ In x s.discovered)
  pub apart : (x : Str) → In x s.discovered → ¬ In x changed
  pub fresh : Distinct s.discovered
  pub waiting : (x : Str) → In x s.pending → In x s.seen

pub record Visits (changed : List Str) (edges : List (Str × Str)) (current : Str) (s t : Search)
    : Type 0 where
  pub kept : (x : Str) → In x s.seen → In x t.seen
  pub still : (x : Str) → In x s.pending → In x t.pending
  pub found : (x : Str) → In x t.seen → In x s.seen ⊎ (In x t.pending × In (current, x) edges)
  pub shrinks : length t.pending + unseen edges t.seen ≤ length s.pending + unseen edges s.seen
  pub consistent : IsConsistent changed s → IsConsistent changed t

Visits-refl :
    (changed : List Str) (edges : List (Str × Str)) (current : Str) (s : Search)
    → Visits changed edges current s s
Visits-refl changed edges current s = record {
  kept = λ x i. i;
  still = λ x i. i;
  found = λ x i. inl i;
  shrinks = omega arith;
  consistent = λ c. c;
}

Visits-trans :
    (changed : List Str) (edges : List (Str × Str)) (current : Str) (s t u : Search)
    → Visits changed edges current s t
    → Visits changed edges current t u
    → Visits changed edges current s u
Visits-trans changed edges current s t u h k = record {
  kept = λ x i. k.kept x (h.kept x i);
  still = λ x i. k.still x (h.still x i);
  found = λ x i. elim (k.found x i) [
    | inr j ↦ inr j
    | inl j ↦ elim (h.found x j) [ inl m ↦ inl m | inr (m, n) ↦ inr (k.still x m, n) ]
  ];
  shrinks = let a = h.shrinks in let b = k.shrinks in omega arith;
  consistent = λ c. k.consistent (h.consistent c);
}

unseen_mono :
    (edges : List (Str × Str)) (seen : List Str) (child : Str)
    → unseen edges (child ∷ seen) ≤ unseen edges seen
unfolding contains
unseen_mono [] seen child = omega arith
unseen_mono ((upstream, c) ∷ edges) seen child =
    let rest = unseen_mono edges seen child in ground arith

-- A child that was not seen is the child of an edge that is counted no longer.
unseen-less :
    (edges : List (Str × Str)) (seen : List Str) (upstream child : Str)
    → In (upstream, child) edges
    → contains seen child ≡ false
    → unseen edges (child ∷ seen) < unseen edges seen
unfolding contains
unseen-less [] seen upstream child i h = absurd i
unseen-less ((u, c) ∷ edges) seen upstream child (inl e) h =
    let rest = unseen_mono edges seen child in
    let same : c ≡ child = sym (ap (λ (edge : Str × Str). edge.1) e) in
    let met : str_eq c child ≡ true = (str_eq_iff c child).1 same in
    let unmet : contains seen c ≡ false = ap (contains seen) same ∙ h in ground arith
unseen-less ((u, c) ∷ edges) seen upstream child (inr i) h =
    let rest = unseen-less edges seen upstream child i h in ground arith

visit_edge-pushed :
    (changed : List Str) (edges : List (Str × Str)) (current : Str) (s : Search) (child : Str)
    → In (current, child) edges
    → contains s.seen child ≡ false
    → Visits changed edges current s (record {
      discovered = s.discovered ++ child ∷ [];
      pending = child ∷ s.pending;
      seen = child ∷ s.seen;
    })
visit_edge-pushed changed edges current s child i h =
    let new = contains_not s.seen child h in
    let less = unseen-less edges s.seen current child i h in
    record {
      kept = λ x j. inr j;
      still = λ x j. inr j;
      found = λ x j. elim j [ inl e ↦ inr (inl e, rw e i) | inr k ↦ inl k ];
      shrinks = omega arith;
      consistent = λ (c : IsConsistent changed s). record {
        members = λ x. (
          (λ j. elim j [
            | inl e ↦ inr ((In-append x s.discovered (child ∷ [])).1 (inr (inl e)))
            | inr k ↦ elim ((c.members x).0 k) [
              | inl m ↦ inl m
              | inr m ↦ inr ((In-append x s.discovered (child ∷ [])).1 (inl m))
            ]
          ]),
          λ j. elim j [
            | inl m ↦ inr ((c.members x).1 (inl m))
            | inr k ↦ elim ((In-append x s.discovered (child ∷ [])).0 k) [
              | inl m ↦ inr ((c.members x).1 (inr m))
              | inr (inl e) ↦ inl e
              | inr (inr m) ↦ absurd m
            ]
          ],
        );
        apart = λ x j m. elim ((In-append x s.discovered (child ∷ [])).0 j) [
          | inl k ↦ c.apart x k m
          | inr (inl e) ↦ new (rw e at ((c.members x).1 (inl m)))
          | inr (inr k) ↦ k
        ];
        fresh = Distinct-snoc s.discovered child c.fresh (λ j. new ((c.members child).1 (inr j)));
        waiting = λ x j. elim j [ inl e ↦ inl e | inr k ↦ inr (c.waiting x k) ];
      };
    }

visit_edge-Visits :
    (changed : List Str) (edges : List (Str × Str)) (current : Str) (s : Search) (edge : Str × Str)
    → In edge edges
    → Visits changed edges current s (visit_edge current s edge)
      × (edge.0 ≡ current → In edge.1 (visit_edge current s edge).seen)
unfolding visit_edge
visit_edge-Visits changed edges current s (upstream, child) i =
    elim (Bool-cases (str_eq upstream current)) [
      | inr q ↦ rw q (
        Visits-refl changed edges current s,
        λ e. absurd (let met = (str_eq_iff upstream current).1 e in cc),
      )
      | inl q ↦
          let same = (str_eq_iff upstream current).0 q in
          elim (Bool-cases (contains s.seen child)) [
            | inl r ↦
                rw (q, r)
                  (Visits-refl changed edges current s, λ e. (contains_iff s.seen child).0 r)
            | inr r ↦
                rw (q, r)
                  (visit_edge-pushed changed edges current s child (rw same at i) r, λ e. inl refl)
          ]
    ]

-- A pass over edges keeps what was seen, shrinks the work that is left, and sees all that depends on
-- the current artifact by these edges.
pub visit_edges-Visits :
    (changed : List Str) (edges : List (Str × Str)) (current : Str) (s : Search)
    (es : List (Str × Str))
    → ((edge : Str × Str) → In edge es → In edge edges)
    → Visits changed edges current s (visit_edges current s es)
      × ((x : Str) → In (current, x) es → In x (visit_edges current s es).seen)
unfolding visit_edges
visit_edges-Visits changed edges current s [] h =
    (Visits-refl changed edges current s, λ x i. absurd i)
visit_edges-Visits changed edges current s (edge ∷ es) h =
    let (first, met) = visit_edge-Visits changed edges current s edge (h edge (inl refl)) in
    let next = visit_edge current s edge in
    let (later, met') =
      visit_edges-Visits changed edges current next es (λ other i. h other (inr i)) in
    (
      Visits-trans changed edges current s next (visit_edges current next es) first later,
      λ x i. elim i [
        | inl e ↦ later.kept x (
            subst (λ child. In child next.seen) (sym (ap (λ (pair : Str × Str). pair.1) e))
              (met (sym (ap (λ (pair : Str × Str). pair.0) e))))
        | inr j ↦ met' x j
      ],
    )
