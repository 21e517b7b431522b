-- ===== src/Prelude/Str.antt =====
-- Python's `str`: code points, compared from the left.
use Prim.Native.Nat.{ℕ}
use mathlib.Core.Path.{◌≡◌, refl}
use mathlib.Core.Logic.{◌↔◌, ◌⊎◌, inl, inr}
use mathlib.Core.Bool.{Bool, true, false, ◌&&◌}
use mathlib.Core.List.{List, [], ◌∷◌}
use native.Mathlib.Omega.{arith}
use fed_campaign_emhi.Prelude.Tests.{ltb, ◌==◌, ==_iff, if◌then◌else◌, true_and}
use fed_campaign_emhi.Prelude.Order.{IsOrder}

abbrev pub Str : Type 0
Str = List ℕ

unfoldable pub str_eq : Str → Str → Bool
str_eq [] [] = true
str_eq [] (d ∷ ds) = false
str_eq (c ∷ cs) [] = false
str_eq (c ∷ cs) (d ∷ ds) = (c == d) && str_eq cs ds

-- `a <= b`.
unfoldable pub str_le : Str → Str → Bool
str_le [] ds = true
str_le (c ∷ cs) [] = false
str_le (c ∷ cs) (d ∷ ds) = if c == d then str_le cs ds else ltb c d

str_eq_sound : (a b : Str) → str_eq a b ≡ true → a ≡ b
unfolding str_eq
str_eq_sound [] [] h = refl
str_eq_sound [] (d ∷ ds) h = ground arith
str_eq_sound (c ∷ cs) [] h = ground arith
str_eq_sound (c ∷ cs) (d ∷ ds) h =
    let (p, q) = true_and (c == d) (str_eq cs ds) h in
    let e = (==_iff c d).0 p in let r = str_eq_sound cs ds q in λ i. e i ∷ r i

pub str_eq_refl : (a : Str) → str_eq a a ≡ true
unfolding str_eq
str_eq_refl [] = refl
str_eq_refl (c ∷ cs) = ground (arith, str_eq_refl cs)

pub str_eq_iff : (a b : Str) → (str_eq a b ≡ true) ↔ (a ≡ b)
str_eq_iff a b = (str_eq_sound a b, λ e. rw e (str_eq_refl b))

str_le_total : (a b : Str) → (str_le a b ≡ true) ⊎ (str_le b a ≡ true)
unfolding str_le
str_le_total [] b = inl refl
str_le_total (c ∷ cs) [] = inr refl
str_le_total (c ∷ cs) (d ∷ ds) = ground (arith, str_le_total cs ds)

str_le_trans : (a b c : Str) → str_le a b ≡ true → str_le b c ≡ true → str_le a c ≡ true
unfolding str_le
str_le_trans [] b c h k = refl
str_le_trans (x ∷ a) [] c h k = ground arith
str_le_trans (x ∷ a) (y ∷ b) [] h k = ground arith
str_le_trans (x ∷ a) (y ∷ b) (z ∷ c) h k = ground (arith, str_le_trans a b c)

pub str_le-IsOrder : IsOrder str_le
str_le-IsOrder = record { total = str_le_total; trans = str_le_trans }

pub str_le_antisymm : (a b : Str) → str_le a b ≡ true → str_le b a ≡ true → a ≡ b
unfolding str_le
str_le_antisymm [] [] h k = refl
str_le_antisymm [] (d ∷ ds) h k = ground arith
str_le_antisymm (c ∷ cs) [] h k = ground arith
str_le_antisymm (c ∷ cs) (d ∷ ds) h k = ground (arith, str_le_antisymm cs ds)
