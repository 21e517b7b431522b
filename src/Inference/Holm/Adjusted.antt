-- ===== src/Inference/Holm/Adjusted.antt =====
-- What the step-down correction promises of the adjusted p-values.
use fed_campaign_emhi.Prelude.{
  ℕ, ◌≡◌, refl, sym, ap, ◌∙◌, subst, ◌⊎◌, inl, inr, true, List, [], ◌∷◌, arith, some, get_elem?,
  length, replicate, ok, ==_iff,
}
use fed_campaign_emhi.Prelude.Str.{Str, str_le-IsOrder}
use fed_campaign_emhi.Prelude.Membership.{In, All-In}
use fed_campaign_emhi.Prelude.Order.{
  IsOrder, IsSorted, sorted, sorted-IsSorted, In-sorted, Distinct-sorted,
}
use fed_campaign_emhi.Prelude.Float.{Float, IsOrdered, nought, unity}
use fed_campaign_emhi.Inference.Holm.{
  HolmItem, items_from, holm_le, adjust_loop, holm_adjusted_p_values,
}
use fed_campaign_emhi.Inference.Holm.Items.{
  items_from_injective, items_from-Distinct, items_from-at, index-lt,
}
use fed_campaign_emhi.Inference.Holm.Steps.{
  Ascends, Separates, length-adjust_loop, length-replicate, adjust_loop-Ascends,
}

module _ {F : Type 0} ⦃f : Float F⦄ (o : IsOrdered F) where
  -- Where the item of a value stands, the value lies between `running` and 1.0.
  value_of :
      (running : F) (ordered : List (HolmItem F)) (final : List F) (x : HolmItem F)
      → Ascends running ordered final
      → In x ordered
      → (a : F) × (get_elem? final x.original_index ≡ some a)
        × (f.le running a ≡ true)
        × (f.le a unity ≡ true)
  value_of running [] final x h i = absurd i
  value_of running (item ∷ ordered) final x (a, e, up, most, rest) (inl q) =
      (a, ap (λ (y : HolmItem F). get_elem? final y.original_index) q ∙ e, up, most)
  value_of running (item ∷ ordered) final x (a, e, up, most, rest) (inr i) =
      let (b, q, up', most') = value_of a ordered final x rest i in
      (b, q, o.order.trans running a b up up', most')

  -- Of two items whose raw p-values differ, the lesser has the lesser value, or the same.
  values_ascend :
      (running : F) (ordered : List (HolmItem F)) (final : List F) (x y : HolmItem F)
      → Ascends running ordered final
      → IsSorted holm_le ordered
      → In x ordered
      → In y ordered
      → f.lt x.raw_p_value y.raw_p_value ≡ true
      → (a b : F) × (get_elem? final x.original_index ≡ some a)
        × (get_elem? final y.original_index ≡ some b)
        × (f.le a b ≡ true)
  unfolding holm_le
  values_ascend running [] final x y h s i j l = absurd i
  values_ascend running (item ∷ ordered) final x y (a, e, up, most, rest) (low, s) (inl p) (inl q)
        l =
      let strict = o.lt-eq-not-le y.raw_p_value y.raw_p_value in
      let same = o.order.total y.raw_p_value y.raw_p_value in
      let equal : x.raw_p_value ≡ y.raw_p_value =
        ap (λ (z : HolmItem F). z.raw_p_value) (p ∙ sym q) in
      let l' = subst (λ z. f.lt z y.raw_p_value ≡ true) equal l in absurd (ground arith)
  values_ascend running (item ∷ ordered) final x y (a, e, up, most, rest) (low, s) (inl p) (inr j)
        l =
      let (b, q, more, most') = value_of a ordered final y rest j in
      (a, b, ap (λ (z : HolmItem F). get_elem? final z.original_index) p ∙ e, q, more)
  values_ascend running (item ∷ ordered) final x y (a, e, up, most, rest) (low, s) (inr i) (inl q)
        l =
      let before = All-In (λ z. holm_le item z ≡ true) ordered low i in
      let before' : holm_le y x ≡ true = subst (λ z. holm_le z x ≡ true) (sym q) before in
      let strict = o.lt-eq-not-le x.raw_p_value y.raw_p_value in
      let strict' = o.lt-eq-not-le y.raw_p_value x.raw_p_value in
      let equal = o.eq-eq-le-le y.raw_p_value x.raw_p_value in
      let total = o.order.total x.raw_p_value y.raw_p_value in absurd (ground arith)
  values_ascend running (item ∷ ordered) final x y (a, e, up, most, rest) (low, s) (inr i) (inr j)
        l =
      values_ascend a ordered final x y rest s i j l

  holm_le-total : (a b : HolmItem F) → (holm_le a b ≡ true) ⊎ (holm_le b a ≡ true)
  unfolding holm_le
  holm_le-total a b = ground (
    arith,
    o.eq-eq-le-le a.raw_p_value b.raw_p_value,
    o.eq-eq-le-le b.raw_p_value a.raw_p_value,
    o.lt-eq-not-le a.raw_p_value b.raw_p_value,
    o.lt-eq-not-le b.raw_p_value a.raw_p_value,
    o.order.total a.raw_p_value b.raw_p_value,
    str_le-IsOrder.total a.identifier b.identifier,
  )

  holm_le_trans :
      (a b c : HolmItem F) → holm_le a b ≡ true → holm_le b c ≡ true → holm_le a c ≡ true
  unfolding holm_le
  holm_le_trans a b c h k = ground (
    arith,
    str_le-IsOrder.trans a.identifier b.identifier c.identifier,
    o.eq-eq-le-le a.raw_p_value b.raw_p_value,
    o.eq-eq-le-le b.raw_p_value c.raw_p_value,
    o.eq-eq-le-le a.raw_p_value c.raw_p_value,
    o.lt-eq-not-le a.raw_p_value b.raw_p_value,
    o.lt-eq-not-le b.raw_p_value c.raw_p_value,
    o.lt-eq-not-le a.raw_p_value c.raw_p_value,
    o.order.total a.raw_p_value b.raw_p_value,
    o.order.total b.raw_p_value c.raw_p_value,
    o.order.total a.raw_p_value c.raw_p_value,
    o.order.trans a.raw_p_value b.raw_p_value c.raw_p_value,
    o.order.trans c.raw_p_value a.raw_p_value b.raw_p_value,
    o.order.trans b.raw_p_value c.raw_p_value a.raw_p_value,
    o.order.trans c.raw_p_value b.raw_p_value a.raw_p_value,
  )

  by_holm : IsOrder (holm_le {F = F})
  by_holm = record { total = holm_le-total; trans = holm_le_trans }

  sorted-Separates :
      (identifiers : List Str) (raws : List F)
      → Separates
          (sorted holm_le (items_from 0 identifiers raws))
          (length (replicate (length identifiers) (nought {F = F})))
  sorted-Separates identifiers raws =
      let items = items_from 0 identifiers raws in
      record {
        distinct = Distinct-sorted holm_le items (items_from-Distinct 0 identifiers raws);
        determined = λ x y i j e.
            items_from_injective 0 identifiers raws x y ((In-sorted holm_le items x).0 i)
              ((In-sorted holm_le items y).0 j) e;
        inside = λ x i.
            let below = index-lt identifiers raws x ((In-sorted holm_le items x).0 i) in
            let size = length-replicate (length identifiers) (nought {F = F}) in omega arith;
      }

  -- For ordered floats with 0.0 at most 1.0, and as many raw p-values as identifiers, the correction
  -- returns one value for each raw p-value, at most 1.0, and a smaller raw p-value never has a larger
  -- adjusted one.
  pub holm_adjusted_p_values_mono :
      (identifiers : List Str) (raws : List F)
      → length identifiers ≡ length raws
      → f.le nought unity ≡ true
      → (adjusted : List F) × (holm_adjusted_p_values identifiers raws ≡ ok adjusted)
        × (length adjusted ≡ length raws)
        × ((i : ℕ) (p : F)
            → get_elem? raws i ≡ some p
            → (a : F) × (get_elem? adjusted i ≡ some a)
              × (f.le nought a ≡ true)
              × (f.le a unity ≡ true))
        × ((i j : ℕ) (p q : F)
            → get_elem? raws i ≡ some p
            → get_elem? raws j ≡ some q
            → f.lt p q ≡ true
            → (a b : F) × (get_elem? adjusted i ≡ some a)
              × (get_elem? adjusted j ≡ some b)
              × (f.le a b ≡ true))
  unfolding holm_adjusted_p_values
  holm_adjusted_p_values_mono identifiers raws same low =
      let items = items_from 0 identifiers raws in
      let ordered = sorted holm_le items in
      let n = length identifiers in
      let final = adjust_loop n 0 nought ordered (replicate n nought) in
      let ascends =
        adjust_loop-Ascends o n 0 nought ordered (replicate n nought) low
          (sorted-Separates identifiers raws) in
      (
        final,
        rw ((==_iff (length identifiers) (length raws)).1 same) refl,
        length-adjust_loop n 0 nought ordered (replicate n nought)
            ∙ length-replicate n (nought {F = F})
            ∙ same,
        (λ i p h.
            let (x, m, raw, index) = items_from-at 0 i identifiers raws p same h in
            let at : x.original_index ≡ i = omega arith in
            let (a, e, up, most) =
              value_of nought ordered final x ascends ((In-sorted holm_le items x).1 m) in
            (a, ap (get_elem? final) (sym at) ∙ e, up, most)),
        λ i j p q h k l.
            let (x, m, raw, index) = items_from-at 0 i identifiers raws p same h in
            let (y, m', raw', index') = items_from-at 0 j identifiers raws q same k in
            let at : x.original_index ≡ i = omega arith in
            let at' : y.original_index ≡ j = omega arith in
            let less : f.lt x.raw_p_value y.raw_p_value ≡ true = rw (raw, raw') l in
            let (a, b, e, e', more) =
              values_ascend nought ordered final x y ascends (sorted-IsSorted holm_le by_holm items)
                ((In-sorted holm_le items x).1 m) ((In-sorted holm_le items y).1 m') less in
            (a, b, ap (get_elem? final) (sym at) ∙ e, ap (get_elem? final) (sym at') ∙ e', more),
      )
