-- ===== src/Contexts/Members.antt =====
-- Which clients the leave-one-out context leaves out.
use fed_campaign_emhi.Prelude.{
  ◌≡◌, refl, ◌∙◌, ◌↔◌, ◌⊎◌, inl, inr, true, List, [], ◌∷◌, arith, if◌then◌else◌, Bool-cases, ok,
  err, value_error,
}
use fed_campaign_emhi.Prelude.Str.{Str, str_le}
use fed_campaign_emhi.Prelude.Sets.{nat_eq, int_eq, str_eq_instance}
use fed_campaign_emhi.Prelude.Membership.{In}
use fed_campaign_emhi.Prelude.Str.{str_le-IsOrder}
use fed_campaign_emhi.Structure.Coalitions.{complement_members}
use fed_campaign_emhi.Structure.Coalitions.Picked.{In-complement_members}
use fed_campaign_emhi.Contexts.{least_id, leave_one_out_context_members}

-- A least member of a list.
pub record IsLeastId (xs : List Str) (a : Str) : Type 0 where
  pub member : In a xs
  pub least : (b : Str) → In b xs → str_le a b ≡ true

lesser_id : Str → Str → Str
lesser_id id least = if str_le least id then least else id

lesser_id-le :
    (id least : Str)
    → ((lesser_id id least ≡ least) ⊎ (lesser_id id least ≡ id))
      × (str_le (lesser_id id least) least ≡ true)
      × (str_le (lesser_id id least) id ≡ true)
unfolding lesser_id
lesser_id-le id least =
    let self = str_le-IsOrder.total id id in
    let self' = str_le-IsOrder.total least least in
    let either = str_le-IsOrder.total least id in
    elim (Bool-cases (str_le least id)) [
      | inl q ↦ rw q (inl refl, ground (arith, self'), q)
      | inr q ↦ rw q (inr refl, ground (arith, either), ground (arith, self))
    ]

least_id-IsLeastId : (least : Str) (xs : List Str) → IsLeastId (least ∷ xs) (least_id least xs)
unfolding lesser_id
least_id-IsLeastId least [] = record {
  member = inl refl;
  least = λ b i. elim i [
    | inl e ↦ rw e (elim (str_le-IsOrder.total least least) [ inl h ↦ h | inr h ↦ h ])
    | inr n ↦ absurd n
  ];
}
least_id-IsLeastId least (id ∷ xs) =
    let m = lesser_id id least in
    let (which, under, under') = lesser_id-le id least in
    let rest = least_id-IsLeastId m xs in
    let below = rest.least m (inl refl) in
    record {
      member = elim rest.member [
        | inl e ↦ elim which [ inl w ↦ inl (e ∙ w) | inr w ↦ inr (inl (e ∙ w)) ]
        | inr j ↦ inr (inr j)
      ];
      least = λ b i. elim i [
        | inl e ↦ rw e (str_le-IsOrder.trans (least_id m xs) m least below under)
        | inr j ↦ elim j [
          | inl e ↦ rw e (str_le-IsOrder.trans (least_id m xs) m id below under')
          | inr k ↦ rest.least b (inr k)
        ]
      ];
    }

-- From a coalition with members, leave-one-out leaves out a least member and no one else; without members it raises `ValueError`.
pub leave_one_out_context_members-leaves :
    (selected coalition : List Str)
    → ((coalition ≡ []) × (leave_one_out_context_members selected coalition ≡ err value_error))
      ⊎ ((left_out : Str) × (members : List Str) × IsLeastId coalition left_out
          × (leave_one_out_context_members selected coalition ≡ ok members)
          × ((a : Str) → In a members ↔ (In a selected × ¬ (a ≡ left_out))))
unfolding leave_one_out_context_members
leave_one_out_context_members-leaves selected [] = inl (refl, refl)
leave_one_out_context_members-leaves selected (id ∷ rest) =
    let left_out = least_id id rest in
    inr (
      left_out,
      complement_members selected (left_out ∷ []),
      least_id-IsLeastId id rest,
      refl,
      λ a.
          let m = In-complement_members selected (left_out ∷ []) a in
          (
            λ i. let (j, n) = m.0 i in (j, λ e. n (inl e)),
            λ (j, n). m.1 (j, λ k. elim k [ inl e ↦ n e | inr z ↦ z ]),
          ),
    )
