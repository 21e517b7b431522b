-- ===== src/Structure/Coalitions/Picked.antt =====
-- Which coalitions there are, and what excluding one leaves.
use fed_campaign_emhi.Prelude.{
  ℕ, zero, suc, ◌≤◌, ◌<◌, ◌≡◌, ◌↔◌, refl, ap, subst, true, not, List, [], ◌∷◌, map, arith, length,
  flat_map, inl, inr, Bool-cases,
}
use fed_campaign_emhi.Prelude.Str.{Str, str_le}
use fed_campaign_emhi.Prelude.Membership.{In, In-append, In-keep, In-map, In-flat_map}
use fed_campaign_emhi.Prelude.Sets.{str_eq_instance, contains, contains_iff, contains_not}
use fed_campaign_emhi.Prelude.Order.{sorted}
use fed_campaign_emhi.Domain.Enums.{CoalitionOrder, order_value}
use fed_campaign_emhi.Domain.Types.{CoalitionMembers}
use fed_campaign_emhi.Structure.Coalitions.{
  combinations, coalition_of, coalitions_of, enumerate_coalitions, complement_members,
  proper_subset_members, orders_up_to, orders_below,
}

-- `ys` picks some places of `xs`, in their order.
pub data Picks {A : Type 0} : List A → List A → Type 0 where
  done : Picks [] []
  pick : {x : A} {xs ys : List A} → Picks xs ys → Picks (x ∷ xs) (x ∷ ys)
  skip : {x : A} {xs ys : List A} → Picks xs ys → Picks (x ∷ xs) ys

module _ {A : Type 0} where
  Picks-none : (xs : List A) → Picks xs []
  Picks-none [] = done
  Picks-none (x ∷ xs) = skip (Picks-none xs)

  combinations-Picks :
      (xs : List A) (k : ℕ) (ys : List A)
      → In ys (combinations xs k)
      → Picks xs ys × (length ys ≡ k)
  unfolding combinations
  combinations-Picks xs zero ys (inl e) = rw e (Picks-none xs, refl)
  combinations-Picks xs zero ys (inr i) = absurd i
  combinations-Picks [] (suc k) ys i = absurd i
  combinations-Picks (x ∷ xs) (suc k) ys i =
      let with_x = combinations-Picks xs k in
      let without_x = combinations-Picks xs (suc k) ys in
      elim ((In-append ys (map (λ zs. x ∷ zs) (combinations xs k)) (combinations xs (suc k))).0 i) [
        | inl j ↦
            let (zs, l, e) = (In-map (λ zs. x ∷ zs) (combinations xs k) ys).0 j in
            let (p, n) = with_x zs l in rw e (pick p, ap suc n)
        | inr j ↦ let (p, n) = without_x j in (skip p, n)
      ]

  Picks-combinations : {xs ys : List A} → Picks xs ys → In ys (combinations xs (length ys))
  unfolding combinations
  Picks-combinations done = inl refl
  Picks-combinations (pick {x = x} {xs = xs} {ys = ys} p) =
      (In-append (x ∷ ys) (map (λ zs. x ∷ zs) (combinations xs (length ys)))
          (combinations xs (suc (length ys)))).1
        (inl (
          (In-map (λ zs. x ∷ zs) (combinations xs (length ys)) (x ∷ ys)).1
            (ys, Picks-combinations p, refl)))
  Picks-combinations (skip {x = x} {xs = xs} {ys = []} p) = inl refl
  Picks-combinations (skip {x = x} {xs = xs} {ys = y ∷ ys} p) =
      (In-append (y ∷ ys) (map (λ zs. x ∷ zs) (combinations xs (length ys)))
          (combinations xs (suc (length ys)))).1
        (inr (Picks-combinations p))

  -- `combinations` lists exactly the picks of the asked size.
  combinations_iff :
      (xs : List A) (k : ℕ) (ys : List A)
      → In ys (combinations xs k) ↔ (Picks xs ys × (length ys ≡ k))
  combinations_iff xs k ys = (
    combinations-Picks xs k ys,
    λ (p, e). subst (λ n. In ys (combinations xs n)) e (Picks-combinations p),
  )

In-coalitions_of :
    (ids : List Str) (orders : List CoalitionOrder) (c : CoalitionMembers)
    → In c (flat_map (coalitions_of ids) orders)
      ↔ (Picks ids c.client_ids × (length c.client_ids ≡ order_value c.order) × In c.order orders)
In-coalitions_of ids orders c = (to, from)
  where
    to :
        In c (flat_map (coalitions_of ids) orders)
        → Picks ids c.client_ids × (length c.client_ids ≡ order_value c.order) × In c.order orders
    to i =
        let (order, j, k) = (In-flat_map (coalitions_of ids) orders c).0 i in
        let (members, l, e) =
          (In-map (coalition_of order) (combinations ids (order_value order)) c).0 k in
        let (p, n) = combinations-Picks ids (order_value order) members l in rw e (p, n, j)

    from :
        Picks ids c.client_ids × (length c.client_ids ≡ order_value c.order) × In c.order orders
        → In c (flat_map (coalitions_of ids) orders)
    from (p, n, j) = (In-flat_map (coalitions_of ids) orders c).1 (
      c.order,
      j,
      (In-map (coalition_of c.order) (combinations ids (order_value c.order)) c).1
          (c.client_ids, (combinations_iff ids (order_value c.order) c.client_ids).1 (p, n), refl),
    )

In-orders_up_to :
    (order maximum : CoalitionOrder)
    → In order (orders_up_to maximum) ↔ (order_value order ≤ order_value maximum)
In-orders_up_to order maximum = grind arith

-- The enumeration holds exactly the coalitions whose members are picked from the sorted clients, in
-- that order, whose order is the number of members, and whose order is at most the maximum.
pub In-enumerate_coalitions :
    (client_ids : List Str) (maximum_order : CoalitionOrder) (c : CoalitionMembers)
    → In c (enumerate_coalitions client_ids maximum_order) ↔ (
        Picks (sorted str_le client_ids) c.client_ids
        × (length c.client_ids ≡ order_value c.order)
        × (order_value c.order ≤ order_value maximum_order))
unfolding enumerate_coalitions
In-enumerate_coalitions client_ids maximum_order c =
    let m = In-coalitions_of (sorted str_le client_ids) (orders_up_to maximum_order) c in
    let n = In-orders_up_to c.order maximum_order in
    (λ i. let (p, q, j) = m.0 i in (p, q, n.0 j), λ (p, q, j). m.1 (p, q, n.1 j))

In-orders_below :
    (order maximum : CoalitionOrder)
    → In order (orders_below maximum) ↔ (order_value order < order_value maximum)
In-orders_below order maximum = grind arith

-- The proper subsets of a coalition are exactly the nonempty picks of fewer members than its order.
pub In-proper_subset_members :
    (coalition c : CoalitionMembers)
    → In c (proper_subset_members coalition) ↔ (
        Picks coalition.client_ids c.client_ids
        × (length c.client_ids ≡ order_value c.order)
        × (length c.client_ids < order_value coalition.order))
unfolding proper_subset_members
In-proper_subset_members coalition c =
    let m = In-coalitions_of coalition.client_ids (orders_below coalition.order) c in
    let n = In-orders_below c.order coalition.order in
    (λ i. let (p, q, j) = m.0 i in (p, q, rw q (n.0 j)), λ (p, q, j). m.1 (p, q, n.1 (rw q at j)))

-- What excluding a coalition leaves: the selected clients outside it.
pub In-complement_members :
    (selected coalition : List Str) (a : Str)
    → In a (complement_members selected coalition) ↔ (In a selected × ¬ In a coalition)
unfolding complement_members
In-complement_members selected coalition a =
    let m = In-keep (λ c. not (contains coalition c)) selected a in
    (
      λ i.
          let (j, q) = m.0 i in
          (
            j,
            contains_not coalition a
                (let e : not (contains coalition a) ≡ true = q in ground arith),
          ),
      λ (j, n). m.1 (
        j,
        elim (Bool-cases (contains coalition a)) [
          | inl q ↦ absurd (n ((contains_iff coalition a).0 q))
          | inr q ↦ rw q
        ],
      ),
    )
