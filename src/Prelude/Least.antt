-- ===== src/Prelude/Least.antt =====
-- The least number that passes a test: what the program's searches for a first stop return.
use Prim.Native.Nat.{ℕ, zero, suc, ◌+◌, ◌<◌, ◌≤◌}
use mathlib.Core.Path.{◌≡◌, refl, ap, sym, ◌∙◌}
use mathlib.Core.Bool.{Bool, true, false}
use mathlib.Core.Option.{Option, none, some}
use native.Mathlib.Omega.{arith}

-- `r` is the least number at which `p` holds, and `none` if it holds nowhere.
abbrev pub IsLeast : (ℕ → Bool) → Option ℕ → Type 0
IsLeast p none = (n : ℕ) → p n ≡ false
IsLeast p (some n) = (p n ≡ true) × ((m : ℕ) → m < n → p m ≡ false)

-- A position counted from `index`.
abbrev pub shift : ℕ → Option ℕ → Option ℕ
shift index none = none
shift index (some n) = some (index + n)

pub shift-shift : (i j : ℕ) (r : Option ℕ) → shift i (shift j r) ≡ shift (i + j) r
shift-shift i j none = refl
shift-shift i j (some n) = ap some (omega arith)

pub shift_zero : (r : Option ℕ) → shift 0 r ≡ r
shift_zero none = refl
shift_zero (some n) = ap some (omega arith)

pub shift-suc : (i : ℕ) (r : Option ℕ) → shift (suc i) r ≡ shift i (shift 1 r)
shift-suc i none = refl
shift-suc i (some n) = ap some (omega arith)

pub IsLeast-here : (p : ℕ → Bool) → p 0 ≡ true → IsLeast p (some 0)
IsLeast-here p h = (h, λ m below. absurd (omega arith))

pub IsLeast-later :
    (p : ℕ → Bool) (r : Option ℕ) → p 0 ≡ false → IsLeast (λ n. p (suc n)) r → IsLeast p (shift 1 r)
IsLeast-later p none h l = all_false
  where
    all_false : (n : ℕ) → p n ≡ false
    all_false zero = h
    all_false (suc n) = l n
IsLeast-later p (some n) h l = (let e : 1 + n ≡ suc n = omega arith in rw e l.0, below)
  where
    below : (m : ℕ) → m < 1 + n → p m ≡ false
    below zero b = h
    below (suc m) b = l.1 m (omega arith)

pub IsLeast-unique : (p : ℕ → Bool) (r s : Option ℕ) → IsLeast p r → IsLeast p s → r ≡ s
IsLeast-unique p none none h k = refl
IsLeast-unique p none (some n) h k = ground (arith, h n)
IsLeast-unique p (some m) none h k = ground (arith, k m)
IsLeast-unique p (some m) (some n) h k = ground (arith, h.1 n, k.1 m)

-- Two tests that agree have one least number.
pub IsLeast-resp :
    (p q : ℕ → Bool) (r : Option ℕ) → ((n : ℕ) → p n ≡ q n) → IsLeast p r → IsLeast q r
IsLeast-resp p q none e h = λ n. sym (e n) ∙ h n
IsLeast-resp p q (some m) e h = (sym (e m) ∙ h.0, λ n b. sym (e n) ∙ h.1 n b)

-- If `q` implies `p`, the least number of `q` is not below that of `p`.
pub IsLeast-mono :
    (p q : ℕ → Bool) (r s : Option ℕ) {n : ℕ}
    → ((n : ℕ) → q n ≡ true → p n ≡ true)
    → IsLeast p r
    → IsLeast q s
    → s ≡ some n
    → (m : ℕ) × (r ≡ some m) × (m ≤ n)
IsLeast-mono p q r none imp h k e = ground arith
IsLeast-mono p q none (some n') imp h k e = ground (arith, h n', imp n' k.0)
IsLeast-mono p q (some m) (some n') imp h k e = (m, refl, ground (arith, h.1 n', imp n' k.0))
