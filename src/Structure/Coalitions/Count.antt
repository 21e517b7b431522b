-- ===== src/Structure/Coalitions/Count.antt =====
-- How many coalitions there are.
use fed_campaign_emhi.Prelude.{
  ℕ, zero, suc, ◌+◌, ◌^◌, ◌≡◌, refl, ap, ◌∙◌, List, [], ◌∷◌, map, arith, length, length-append,
  length-map, flat_map,
}
use fed_campaign_emhi.Prelude.Str.{Str, str_le}
use fed_campaign_emhi.Prelude.Order.{sorted, length-sorted}
use fed_campaign_emhi.Domain.Enums.{CoalitionOrder, one, two, three, order_value}
use fed_campaign_emhi.Domain.Types.{CoalitionMembers}
use fed_campaign_emhi.Structure.Coalitions.{
  combinations, comb, coalition_of, coalition_count, coalitions_of, enumerate_coalitions,
  orders_up_to, orders_below, sum, proper_subset_members,
}

length-combinations :
    {A : Type 0} (xs : List A) (k : ℕ) → length (combinations xs k) ≡ comb (length xs) k
unfolding combinations comb
length-combinations xs zero = refl
length-combinations [] (suc k) = refl
length-combinations (x ∷ xs) (suc k) = omega (
  arith,
  length-append (map (λ ys. x ∷ ys) (combinations xs k)) (combinations xs (suc k)),
  length-map (λ ys. x ∷ ys) (combinations xs k),
  length-combinations xs k,
  length-combinations xs (suc k),
)

length-coalitions_of :
    (ids : List Str) (orders : List CoalitionOrder)
    → length (flat_map (coalitions_of ids) orders)
      ≡ sum (map (λ order. comb (length ids) (order_value order)) orders)
length-coalitions_of ids [] = refl
length-coalitions_of ids (order ∷ orders) = omega (
  arith,
  length-append (coalitions_of ids order) (flat_map (coalitions_of ids) orders),
  length-map (coalition_of order) (combinations ids (order_value order)),
  length-combinations ids (order_value order),
  length-coalitions_of ids orders,
)

-- The enumeration has as many coalitions as the closed form counts.
pub length-enumerate_coalitions :
    (client_ids : List Str) (maximum_order : CoalitionOrder)
    → length (enumerate_coalitions client_ids maximum_order)
      ≡ coalition_count (length client_ids) maximum_order
unfolding enumerate_coalitions coalition_count
length-enumerate_coalitions client_ids maximum_order =
    rw (← length-sorted str_le client_ids)
      (length-coalitions_of (sorted str_le client_ids) (orders_up_to maximum_order))

-- A coalition of two clients has two proper subsets and one of three has six; one client has none.
length-proper_subset_members :
    (c : CoalitionMembers)
    → length c.client_ids ≡ order_value c.order
    → length (proper_subset_members c) + 2 ≡ 2 ^ order_value c.order
unfolding proper_subset_members comb
length-proper_subset_members c h = by_order c.client_ids c.order h
  where
    counted :
        (ids : List Str) (order : CoalitionOrder)
        → length ids ≡ order_value order
        → length (flat_map (coalitions_of ids) (orders_below order)) + 2
          ≡ sum (map (λ below. comb (order_value order) (order_value below)) (orders_below order))
            + 2
    counted ids order h =
        ap (λ n. n + 2)
          (length-coalitions_of ids (orders_below order)
            ∙ ap (λ n. sum (map (λ below. comb n (order_value below)) (orders_below order))) h)

    by_order :
        (ids : List Str) (order : CoalitionOrder)
        → length ids ≡ order_value order
        → length (flat_map (coalitions_of ids) (orders_below order)) + 2 ≡ 2 ^ order_value order
    by_order ids one h = refl
    by_order ids two h = counted ids two h
    by_order ids three h = counted ids three h
