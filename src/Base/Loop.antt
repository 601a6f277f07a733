-- ===== src/Base/Loop.antt =====
-- `for (i = 0; i < n; i++)` over a state, with its invariant rule.
use Prim.Native.Nat.{ℕ, zero, suc, ◌+◌, ◌<◌}
use mathlib.Core.Path.{◌≡◌}
use native.Mathlib.Omega.{arith}

module _ {ℓ} {S : Type ℓ} (body : ℕ → S → S) where
  -- `left` rounds from index `i` on
  unfoldable pub rounds : ℕ → ℕ → S → S
  rounds zero i s = s
  rounds (suc left) i s = rounds left (suc i) (body i s)

  -- What each round below `n` keeps, and takes from `P i` to `P (i + 1)`, holds at the end.
  pub rounds_rule {κ} :
      (P : ℕ → S → Type κ) (n : ℕ)
      → ((i : ℕ) (s : S) → i < n → P i s → P (suc i) (body i s))
      → (left i : ℕ) (s : S) → i + left ≡ n
      → P i s
      → P n (rounds left i s)
  unfolding rounds
  rounds_rule P n keep zero i s e p = let q : i ≡ n = omega arith in rw (← q) p
  rounds_rule P n keep (suc left) i s e p =
      rounds_rule P n keep left (suc i) (body i s) (omega arith) (keep i s (omega arith) p)
