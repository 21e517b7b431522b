-- ===== src/Structure/Coalitions.antt =====
-- src/fedcampaign_emhi/emhi/structure.py: the coalitions of clients and their proper subsets.
pub mod Count
pub mod Picked
use fed_campaign_emhi.Prelude.{
  ℕ, zero, suc, ◌+◌, Bool, not, List, [], ◌∷◌, ◌++◌, map, keep, flat_map,
}
use fed_campaign_emhi.Prelude.Str.{Str, str_le}
use fed_campaign_emhi.Prelude.Sets.{str_eq_instance, contains}
use fed_campaign_emhi.Prelude.Order.{sorted}
use fed_campaign_emhi.Domain.Enums.{CoalitionOrder, one, two, three, order_value}
use fed_campaign_emhi.Domain.Types.{CoalitionMembers}

-- `itertools.combinations`.
unfoldable pub combinations {ℓ} : {A : Type ℓ} → List A → ℕ → List (List A)
combinations xs zero = [] ∷ []
combinations [] (suc k) = []
combinations (x ∷ xs) (suc k) = map (λ ys. x ∷ ys) (combinations xs k) ++ combinations xs (suc k)

-- `math.comb`.
unfoldable pub comb : ℕ → ℕ → ℕ
comb n zero = 1
comb zero (suc k) = 0
comb (suc n) (suc k) = comb n k + comb n (suc k)

-- `range(1, maximum + 1)`, as members of `CoalitionOrder`.
abbrev pub orders_up_to : CoalitionOrder → List CoalitionOrder
orders_up_to one = one ∷ []
orders_up_to two = one ∷ two ∷ []
orders_up_to three = one ∷ two ∷ three ∷ []

-- `range(1, order)`, as members of `CoalitionOrder`.
abbrev pub orders_below : CoalitionOrder → List CoalitionOrder
orders_below one = []
orders_below two = one ∷ []
orders_below three = one ∷ two ∷ []

abbrev pub sum : List ℕ → ℕ
sum [] = 0
sum (n ∷ ns) = n + sum ns

unfoldable pub coalition_count : ℕ → CoalitionOrder → ℕ
coalition_count client_count maximum_order =
    sum (map (λ order. comb client_count (order_value order)) (orders_up_to maximum_order))

abbrev pub coalition_of : CoalitionOrder → List Str → CoalitionMembers
coalition_of order members = record { client_ids = members; order = order }

-- The coalitions of one order.
abbrev pub coalitions_of : List Str → CoalitionOrder → List CoalitionMembers
coalitions_of ids order = map (coalition_of order) (combinations ids (order_value order))

unfoldable pub enumerate_coalitions : List Str → CoalitionOrder → List CoalitionMembers
enumerate_coalitions client_ids maximum_order =
    flat_map (coalitions_of (sorted str_le client_ids)) (orders_up_to maximum_order)

unfoldable pub complement_members : List Str → List Str → List Str
complement_members selected_client_ids coalition_client_ids =
    keep (λ client_id. not (contains coalition_client_ids client_id)) selected_client_ids

unfoldable pub proper_subset_members : CoalitionMembers → List CoalitionMembers
proper_subset_members coalition =
    flat_map (coalitions_of coalition.client_ids) (orders_below coalition.order)
