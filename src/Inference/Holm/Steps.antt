-- ===== src/Inference/Holm/Steps.antt =====
-- The adjusted p-values ascend along the sorted raw p-values.
use fed_campaign_emhi.Prelude.{
  ℕ, zero, suc, ◌<◌, ◌≡◌, ◌≢◌, refl, sym, ap, ◌∙◌, subst, inl, inr, true, List, [], ◌∷◌, arith, ◌-◌,
  some, get_elem?, length, set, replicate,
}
use fed_campaign_emhi.Prelude.Membership.{In, Distinct}
use fed_campaign_emhi.Prelude.Float.{Float, IsOrdered, unity, larger}
use fed_campaign_emhi.Inference.Holm.{HolmItem, candidate_at, adjust_loop}

module _ {A : Type 0} where
  length-set : (xs : List A) (i : ℕ) (a : A) → length (set xs i a) ≡ length xs
  length-set [] i a = refl
  length-set (x ∷ xs) zero a = refl
  length-set (x ∷ xs) (suc i) a = ap suc (length-set xs i a)

  get_elem?-set : (xs : List A) (i : ℕ) (a : A) → i < length xs → get_elem? (set xs i a) i ≡ some a
  get_elem?-set [] i a h = absurd (omega arith)
  get_elem?-set (x ∷ xs) zero a h = refl
  get_elem?-set (x ∷ xs) (suc i) a h = get_elem?-set xs i a (omega arith)

  get_elem?-set_other :
      (xs : List A) (i j : ℕ) (a : A) → j ≢ i → get_elem? (set xs i a) j ≡ get_elem? xs j
  get_elem?-set_other [] i j a n = refl
  get_elem?-set_other (x ∷ xs) zero zero a n = absurd (n refl)
  get_elem?-set_other (x ∷ xs) zero (suc j) a n = refl
  get_elem?-set_other (x ∷ xs) (suc i) zero a n = refl
  get_elem?-set_other (x ∷ xs) (suc i) (suc j) a n =
      get_elem?-set_other xs i j a (λ e. n (ap suc e))

  pub length-replicate : (n : ℕ) (a : A) → length (replicate n a) ≡ n
  length-replicate zero a = refl
  length-replicate (suc n) a = ap suc (length-replicate n a)

module _ {F : Type 0} ⦃f : Float F⦄ where
  -- From `running` on, the values at the indexes of the items ascend, up to 1.0.
  abbrev pub Ascends : F → List (HolmItem F) → List F → Type 0
  Ascends running [] final = Unit
  Ascends running (item ∷ ordered) final =
      (a : F) × (get_elem? final item.original_index ≡ some a)
      × (f.le running a ≡ true)
      × (f.le a unity ≡ true)
      × Ascends a ordered final

  -- No later item overwrites a value.
  adjust_loop-untouched :
      (family_size rank : ℕ) (running : F) (ordered : List (HolmItem F)) (adjusted : List F) (i : ℕ)
      → ((y : HolmItem F) → In y ordered → i ≢ y.original_index)
      → get_elem? (adjust_loop family_size rank running ordered adjusted) i ≡ get_elem? adjusted i
  unfolding adjust_loop
  adjust_loop-untouched family_size rank running [] adjusted i h = refl
  adjust_loop-untouched family_size rank running (item ∷ ordered) adjusted i h =
      let next = larger running (candidate_at family_size rank item.raw_p_value) in
      adjust_loop-untouched family_size (suc rank) next ordered
        (set adjusted item.original_index next) i (λ y j. h y (inr j))
      ∙ get_elem?-set_other adjusted item.original_index i next (h item (inl refl))

  pub length-adjust_loop :
      (family_size rank : ℕ) (running : F) (ordered : List (HolmItem F)) (adjusted : List F)
      → length (adjust_loop family_size rank running ordered adjusted) ≡ length adjusted
  unfolding adjust_loop
  length-adjust_loop family_size rank running [] adjusted = refl
  length-adjust_loop family_size rank running (item ∷ ordered) adjusted =
      let next = larger running (candidate_at family_size rank item.raw_p_value) in
      length-adjust_loop family_size (suc rank) next ordered (set adjusted item.original_index next)
      ∙ length-set adjusted item.original_index next

  -- The indexes of the items tell them apart, and lie in the list.
  pub record Separates (ordered : List (HolmItem F)) (size : ℕ) : Type 0 where
    pub distinct : Distinct ordered
    pub determined :
        (x y : HolmItem F)
        → In x ordered
        → In y ordered
        → x.original_index ≡ y.original_index
        → x ≡ y
    pub inside : (x : HolmItem F) → In x ordered → x.original_index < size

  module _ (o : IsOrdered F) where
    larger-bounds :
        (a b : F)
        → f.le a unity ≡ true
        → f.le b unity ≡ true
        → (f.le a (larger a b) ≡ true) × (f.le (larger a b) unity ≡ true)
    larger-bounds a b h k =
        let same = o.order.total a a in
        let either = o.order.total a b in
        let strict = o.lt-eq-not-le a b in (ground arith, ground arith)

    candidate_at-le :
        (family_size rank : ℕ) (raw : F) → f.le (candidate_at family_size rank raw) unity ≡ true
    candidate_at-le family_size rank raw =
        let scaled = f.mul (f.of_ℕ (family_size - rank)) raw in
        let same = o.order.total (unity {F = F}) (unity {F = F}) in
        let either = o.order.total scaled (unity {F = F}) in
        let strict = o.lt-eq-not-le scaled (unity {F = F}) in ground arith

    pub adjust_loop-Ascends :
        (family_size rank : ℕ) (running : F) (ordered : List (HolmItem F)) (adjusted : List F)
        → f.le running unity ≡ true
        → Separates ordered (length adjusted)
        → Ascends running ordered (adjust_loop family_size rank running ordered adjusted)
    unfolding adjust_loop
    adjust_loop-Ascends family_size rank running [] adjusted h s = tt
    adjust_loop-Ascends family_size rank running (item ∷ ordered) adjusted h s =
        let candidate = candidate_at family_size rank item.raw_p_value in
        let next = larger running candidate in
        let (up, most) =
          larger-bounds running candidate h (candidate_at-le family_size rank item.raw_p_value) in
        let inside = s.inside item (inl refl) in
        let size = length-set adjusted item.original_index next in
        (
          next,
          adjust_loop-untouched family_size (suc rank) next ordered
                (set adjusted item.original_index next) item.original_index
                (λ y j e.
                  s.distinct.0
                    (subst (λ z. In z ordered) (sym (s.determined item y (inl refl) (inr j) e)) j))
              ∙ get_elem?-set adjusted item.original_index next inside,
          up,
          most,
          adjust_loop-Ascends family_size (suc rank) next ordered
              (set adjusted item.original_index next) most
              (record {
                distinct = s.distinct.1;
                determined = λ x y i j e. s.determined x y (inr i) (inr j) e;
                inside = λ x i. let below = s.inside x (inr i) in omega arith;
              }),
        )
