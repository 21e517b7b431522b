-- ===== src/Evaluation/Metrics/Decisive.antt =====
-- Which order decides a stop.
use fed_campaign_emhi.Prelude.{
  ◌≤◌, ◌≡◌, refl, ◌∙◌, ◌↔◌, ◌⊎◌, inl, inr, true, false, none, some, List, [], ◌∷◌, map, arith, ltb,
  if◌then◌else◌, Bool-cases, keep, ok,
}
use fed_campaign_emhi.Prelude.Membership.{In, In-keep, In-map}
use fed_campaign_emhi.Prelude.Float.{Float, IsOrdered, unity, magnitude, ◌⊖◌}
use fed_campaign_emhi.Domain.Enums.{CoalitionOrder, order_value}
use fed_campaign_emhi.Evaluation.Metrics.{
  max_factor, min_order, least_order, ties_with, decide_among, decisive_order,
}

lesser_order : CoalitionOrder → CoalitionOrder → CoalitionOrder
lesser_order order least = if ltb (order_value order) (order_value least) then order else least

lesser_order-le :
    (order least : CoalitionOrder)
    → ((lesser_order order least ≡ least) ⊎ (lesser_order order least ≡ order))
      × (order_value (lesser_order order least) ≤ order_value least)
      × (order_value (lesser_order order least) ≤ order_value order)
unfolding lesser_order
lesser_order-le order least = elim (Bool-cases (ltb (order_value order) (order_value least))) [
  | inl q ↦ rw q (inr refl, ground arith, omega arith)
  | inr q ↦ rw q (inl refl, omega arith, ground arith)
]

min_order-least :
    (least : CoalitionOrder) (orders : List CoalitionOrder)
    → In (min_order least orders) (least ∷ orders)
      × ((order : CoalitionOrder)
          → In order (least ∷ orders)
          → order_value (min_order least orders) ≤ order_value order)
unfolding lesser_order
min_order-least least [] =
    (inl refl, λ order i. elim i [ inl e ↦ rw e (omega arith) | inr n ↦ absurd n ])
min_order-least least (order ∷ orders) =
    let m = lesser_order order least in
    let (which, under, under') = lesser_order-le order least in
    let (member, below) = min_order-least m orders in
    let least_le = below m (inl refl) in
    (
      elim member [
        | inl e ↦ elim which [ inl w ↦ inl (e ∙ w) | inr w ↦ inr (inl (e ∙ w)) ]
        | inr i ↦ inr (inr i)
      ],
      λ x i. elim i [
        | inl e ↦ rw e (omega arith)
        | inr j ↦ elim j [ inl e ↦ rw e (omega arith) | inr k ↦ below x (inr k) ]
      ],
    )

module _ {F : Type 0} ⦃f : Float F⦄ where
  larger_pair : CoalitionOrder × F → CoalitionOrder × F → CoalitionOrder × F
  larger_pair best pair = if f.lt best.1 pair.1 then pair else best

  larger_pair-le :
      IsOrdered F
      → (best pair : CoalitionOrder × F)
      → ((larger_pair best pair ≡ best) ⊎ (larger_pair best pair ≡ pair))
        × (f.le best.1 (larger_pair best pair).1 ≡ true)
        × (f.le pair.1 (larger_pair best pair).1 ≡ true)
  unfolding larger_pair
  larger_pair-le o best pair =
      let self = o.order.total best.1 best.1 in
      let self' = o.order.total pair.1 pair.1 in
      let either = o.order.total best.1 pair.1 in
      let reads = o.lt-eq-not-le best.1 pair.1 in
      elim (Bool-cases (f.lt best.1 pair.1)) [
        | inl q ↦ rw q (inr refl, ground arith, ground arith)
        | inr q ↦ rw q (inl refl, ground arith, ground arith)
      ]

  max_factor-greatest :
      IsOrdered F
      → (best : CoalitionOrder × F) (pairs : List (CoalitionOrder × F))
      → In (max_factor best pairs) (best ∷ pairs)
        × ((pair : CoalitionOrder × F)
            → In pair (best ∷ pairs)
            → f.le pair.1 (max_factor best pairs).1 ≡ true)
  unfolding larger_pair
  max_factor-greatest o best [] = (
    inl refl,
    λ pair i. elim i [
      | inl e ↦ rw e (elim (o.order.total best.1 best.1) [ inl h ↦ h | inr h ↦ h ])
      | inr n ↦ absurd n
    ],
  )
  max_factor-greatest o best (pair ∷ pairs) =
      let m = larger_pair best pair in
      let (which, under, under') = larger_pair-le o best pair in
      let (member, above) = max_factor-greatest o m pairs in
      let top = above m (inl refl) in
      (
        elim member [
          | inl e ↦ elim which [ inl w ↦ inl (e ∙ w) | inr w ↦ inr (inl (e ∙ w)) ]
          | inr i ↦ inr (inr i)
        ],
        λ x i. elim i [
          | inl e ↦ rw e (o.order.trans best.1 m.1 (max_factor m pairs).1 under top)
          | inr j ↦ elim j [
            | inl e ↦ rw e (o.order.trans pair.1 m.1 (max_factor m pairs).1 under' top)
            | inr k ↦ above x (inr k)
          ]
        ],
      )

  -- A pair counts: its factor exceeds one, and ties with the best factor.
  abbrev pub Counts : F → F → List (CoalitionOrder × F) → CoalitionOrder × F → Type 0
  Counts tolerance best_factor factors pair =
      In pair factors × (f.lt unity pair.1 ≡ true) × (ties_with tolerance best_factor pair ≡ true)

  -- `best` has a greatest factor above one, and `order` is the least order that ties with it.
  pub record Decides (tolerance : F) (factors : List (CoalitionOrder × F))
      (best : CoalitionOrder × F) (order : CoalitionOrder) : Type 0 where
    pub member : In best factors
    pub exceeds : f.lt unity best.1 ≡ true
    pub greatest :
        (pair : CoalitionOrder × F)
        → In pair factors
        → f.lt unity pair.1 ≡ true
        → f.le pair.1 best.1 ≡ true
    pub attained :
        (pair : CoalitionOrder × F) × Counts tolerance best.1 factors pair × (order ≡ pair.0)
    pub least :
        (pair : CoalitionOrder × F)
        → Counts tolerance best.1 factors pair
        → order_value order ≤ order_value pair.0

  abbrev exceeding : List (CoalitionOrder × F) → List (CoalitionOrder × F)
  exceeding factors = keep (λ pair. f.lt unity pair.1) factors

  In-exceeding :
      (factors : List (CoalitionOrder × F)) (pair : CoalitionOrder × F)
      → In pair (exceeding factors) ↔ (In pair factors × (f.lt unity pair.1 ≡ true))
  In-exceeding factors pair = In-keep (λ p. f.lt unity p.1) factors pair

  abbrev tied_orders : F → F → List (CoalitionOrder × F) → List CoalitionOrder
  tied_orders tolerance best_factor eligible =
      map (λ (tied : CoalitionOrder × F). tied.0) (keep (ties_with tolerance best_factor) eligible)

  -- The orders that tie are those of the pairs that count.
  In-tied_orders :
      (tolerance best_factor : F) (factors : List (CoalitionOrder × F)) (order : CoalitionOrder)
      → In order (tied_orders tolerance best_factor (exceeding factors)) ↔ (
          (pair : CoalitionOrder × F) × Counts tolerance best_factor factors pair
          × (order ≡ pair.0))
  In-tied_orders tolerance best_factor factors order =
      let ties = ties_with tolerance best_factor in
      let named =
        In-map (λ (tied : CoalitionOrder × F). tied.0) (keep ties (exceeding factors)) order in
      (
        λ i.
            let (pair, j, e) = named.0 i in
            let (k, q) = (In-keep ties (exceeding factors) pair).0 j in
            let (l, r) = (In-exceeding factors pair).0 k in (pair, (l, r, q), e),
        λ (pair, c, e). named.1 (
          pair,
          (In-keep ties (exceeding factors) pair).1 ((In-exceeding factors pair).1 (c.0, c.1), c.2),
          e,
        ),
      )

  -- The least of the orders that tie with the best pair, which is one of them.
  least_order-Decides :
      (tolerance : F) (factors : List (CoalitionOrder × F)) (best : CoalitionOrder × F)
      (orders : List CoalitionOrder)
      → ((order : CoalitionOrder)
          → In order orders ↔ (
              (pair : CoalitionOrder × F) × Counts tolerance best.1 factors pair
              × (order ≡ pair.0)))
      → Counts tolerance best.1 factors best
      → ((pair : CoalitionOrder × F)
          → In pair factors
          → f.lt unity pair.1 ≡ true
          → f.le pair.1 best.1 ≡ true)
      → (order : CoalitionOrder) × (least_order orders ≡ ok (some order))
        × Decides tolerance factors best order
  least_order-Decides tolerance factors best [] same counts greatest =
      absurd ((same best.0).1 (best, counts, refl))
  least_order-Decides tolerance factors best (order ∷ orders) same counts greatest =
      let (member, below) = min_order-least order orders in
      (
        min_order order orders,
        refl,
        record {
          member = counts.0;
          exceeds = counts.1;
          greatest = greatest;
          attained = (same (min_order order orders)).0 member;
          least = λ pair c. below pair.0 ((same pair.0).1 (pair, c, refl));
        },
      )

  -- Where the logarithm of a factor is within the tolerance of itself, the decision is `None` if no
  -- factor exceeds one; otherwise it is the least order among those whose factor exceeds one and whose
  -- logarithm is within the tolerance of that of a greatest factor.
  pub decisive_order-Decides :
      (factors : List (CoalitionOrder × F)) (tolerance : F)
      → IsOrdered F
      → ((a : F) → f.le (magnitude (f.log a ⊖ f.log a)) tolerance ≡ true)
      → (((pair : CoalitionOrder × F) → In pair factors → f.lt unity pair.1 ≡ false)
          × (decisive_order factors tolerance ≡ ok none))
        ⊎ ((best : CoalitionOrder × F) × (order : CoalitionOrder) × (decisive_order factors
                tolerance
              ≡ ok (some order))
            × Decides tolerance factors best order)
  unfolding decisive_order
  decisive_order-Decides factors tolerance o self = go (exceeding factors) refl
    where
      go :
          (eligible : List (CoalitionOrder × F))
          → exceeding factors ≡ eligible
          → (((pair : CoalitionOrder × F) → In pair factors → f.lt unity pair.1 ≡ false)
              × (decide_among tolerance (exceeding factors) ≡ ok none))
            ⊎ ((best : CoalitionOrder × F) × (order : CoalitionOrder) × (decide_among tolerance
                    (exceeding factors)
                  ≡ ok (some order))
                × Decides tolerance factors best order)
      go [] e = inl (
        λ pair i. elim (Bool-cases (f.lt unity pair.1)) [
          | inl q ↦ absurd (rw e at ((In-exceeding factors pair).1 (i, q)))
          | inr q ↦ q
        ],
        rw e refl,
      )
      go (pair ∷ rest) e =
          let best = max_factor pair rest in
          let (member, above) = max_factor-greatest o pair rest in
          let (i, q) = (In-exceeding factors best).0 (rw e member) in
          let same : (order : CoalitionOrder)
              → In order (tied_orders tolerance best.1 (pair ∷ rest))
                ↔ ((p : CoalitionOrder × F) × Counts tolerance best.1 factors p × (order ≡ p.0)) =
            λ order. rw e at (In-tied_orders tolerance best.1 factors order) in
          let (order, r, decides) =
            least_order-Decides tolerance factors best (tied_orders tolerance best.1 (pair ∷ rest))
              same (i, q, self best.1)
              (λ p j k. above p (rw e at ((In-exceeding factors p).1 (j, k)))) in
          inr (best, order, rw e r, decides)
