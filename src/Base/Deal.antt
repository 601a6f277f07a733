-- ===== src/Base/Deal.antt =====
-- A list that is dealt out into two, each of which keeps its order.
use Prim.Native.Nat.{◌+◌}
use mathlib.Core.Path.{◌≡◌}
use mathlib.Core.List.{List, [], ◌∷◌}
use native.Mathlib.Omega.{arith}
use dpdk_for_beginners.Base.Lists.{length}

module _ {ℓ} {A : Type ℓ} where
  pub data Shuffle : List A → List A → List A → Type ℓ where
    done : Shuffle [] [] []
    to_left : {x : A} {xs ys zs : List A} → Shuffle xs ys zs → Shuffle (x ∷ xs) ys (x ∷ zs)
    to_right : {y : A} {xs ys zs : List A} → Shuffle xs ys zs → Shuffle xs (y ∷ ys) (y ∷ zs)

  pub Shuffle-length : {xs ys zs : List A} → Shuffle xs ys zs → length xs + length ys ≡ length zs
  Shuffle-length done = omega arith
  Shuffle-length (to_left s) = omega (arith, Shuffle-length s)
  Shuffle-length (to_right s) = omega (arith, Shuffle-length s)
