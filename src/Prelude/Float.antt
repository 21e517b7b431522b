-- ===== src/Prelude/Float.antt =====
-- Python's `float`, as an interface: the operations of a double that the program calls, and the
-- laws of its comparisons away from NaN, which the domain types exclude.
use Prim.Native.Nat.{ℕ, suc, ◌+◌, ◌-◌, ◌*◌, ◌/◌, ◌≤◌, ◌<◌}
use mathlib.Core.Path.{◌≡◌}
use mathlib.Core.Logic.{◌↔◌}
use mathlib.Core.Bool.{Bool, true, not, ◌&&◌}
use native.Mathlib.Omega.{arith}
use mathlib.Core.List.{List, foldr}
use fed_campaign_emhi.Prelude.Lists.{replicate}
use fed_campaign_emhi.Prelude.Tests.{leb, ltb, ◌==◌, if◌then◌else◌}
use fed_campaign_emhi.Prelude.Order.{IsOrder}
use fed_campaign_emhi.Prelude.Int.{ℤ, pos, ◌≤ℤ◌}

pub record Float (F : Type 0) : Type 0 where
  pub of_ℕ : ℕ → F
  pub half : F
  pub add : F → F → F
  pub sub : F → F → F
  pub mul : F → F → F
  pub div : F → F → F
  -- `-a`, `abs(a)` and `a ** n`.
  pub neg : F → F
  pub abs : F → F
  pub pow : F → ℕ → F
  pub floor : F → ℤ
  pub ceil : F → ℤ
  pub le : F → F → Bool
  pub lt : F → F → Bool
  pub eq : F → F → Bool
  -- `sum` of floats, which compensates for rounding, and `math.sqrt`, `math.log` and `math.exp`.
  pub sum : List F → F
  pub sqrt : F → F
  pub log : F → F
  pub exp : F → F

module _ {F : Type 0} ⦃f : Float F⦄ where
  infixl 65 ◌⊕◌ ◌⊖◌
  infixl 70 ◌⊗◌ ◌⊘◌
  infixl 75 ◌**◌
  abbrev pub ◌⊕◌ : F → F → F
  a ⊕ b = f.add a b

  abbrev pub ◌⊖◌ : F → F → F
  a ⊖ b = f.sub a b

  abbrev pub ◌⊗◌ : F → F → F
  a ⊗ b = f.mul a b

  abbrev pub ◌⊘◌ : F → F → F
  a ⊘ b = f.div a b

  abbrev pub ◌**◌ : F → ℕ → F
  a ** n = f.pow a n

  -- The literals 0.0 and 1.0.
  abbrev pub nought : F
  nought = f.of_ℕ 0

  abbrev pub unity : F
  unity = f.of_ℕ 1

  -- `abs(a)`, `max(a, b)` and `-a`.
  abbrev pub magnitude : F → F
  magnitude a = f.abs a

  abbrev pub larger : F → F → F
  larger a b = if f.lt a b then b else a

  abbrev pub negated : F → F
  negated a = f.neg a

-- The comparisons of doubles that are not NaN.
pub record IsOrdered (F : Type 0) ⦃f : Float F⦄ : Type 0 where
  pub order : IsOrder f.le
  pub lt-eq-not-le : (a b : F) → f.lt a b ≡ not (f.le b a)
  pub eq-eq-le-le : (a b : F) → f.eq a b ≡ (f.le a b && f.le b a)

-- 2 ** 53: the integers up to it are doubles.
unfoldable pub exact_limit : ℕ
exact_limit = 9007199254740992

-- The integers up to the limit are exact: a finite double compares with them as its floor and its
-- ceiling do, and adding 0.0 or 1.0 to them does not round.
pub record IsExact (F : Type 0) ⦃f : Float F⦄ : Type 0 where
  pub floor_iff :
      (a : F) (n : ℕ) → n ≤ exact_limit → (pos n ≤ℤ f.floor a) ↔ (f.le (f.of_ℕ n) a ≡ true)
  pub ceil_iff :
      (a : F) (n : ℕ) → n ≤ exact_limit → (f.ceil a ≤ℤ pos n) ↔ (f.le a (f.of_ℕ n) ≡ true)
  pub add_nought : (n : ℕ) → n ≤ exact_limit → f.add (f.of_ℕ n) (f.of_ℕ 0) ≡ f.of_ℕ n
  pub add_unity : (n : ℕ) → n < exact_limit → f.add (f.of_ℕ n) (f.of_ℕ 1) ≡ f.of_ℕ (suc n)

-- The interface can be met: numbers of thousandths, whose logarithm and root are the identity.
instance abbrev pub milli : Float ℕ
milli = record {
  of_ℕ = λ n. n * 1000;
  half = 500;
  add = λ a b. a + b;
  sub = λ a b. a - b;
  mul = λ a b. a * b / 1000;
  div = λ a b. a * 1000 / b;
  neg = λ a. 0;
  abs = λ a. a;
  pow = λ a n. foldr (λ b c. b * c / 1000) 1000 (replicate n a);
  floor = λ a. pos (a / 1000);
  ceil = λ a. pos ((a + 999) / 1000);
  le = leb;
  lt = ltb;
  eq = ◌==◌;
  sum = foldr ◌+◌ 0;
  sqrt = λ a. a;
  log = λ a. a;
  exp = λ a. a;
}

pub milli-IsOrdered : IsOrdered ℕ
milli-IsOrdered = record {
  order = record { total = λ a b. ground arith; trans = λ a b c h k. ground arith };
  lt-eq-not-le = λ a b. ground arith;
  eq-eq-le-le = λ a b. ground arith;
}

pub milli-IsExact : IsExact ℕ
milli-IsExact = record {
  floor_iff = λ a n h. (λ k. ground arith, λ k. ground arith);
  ceil_iff = λ a n h. (λ k. ground arith, λ k. ground arith);
  add_nought = λ n h. omega arith;
  add_unity = λ n h. omega arith;
}
