-- ===== src/Base/Maps.antt =====
-- std::unordered_map with integer keys as a list of entries, in any order.
use cs144_minnow.Base.Lists.{All}
use cs144_minnow.Base.Tests.{◌==◌, if◌then◌else◌}
use Prim.Native.Nat.{ℕ}
use mathlib.Core.Path.{◌≡◌, refl}
use mathlib.Core.Bool.{Bool, true, false}
use mathlib.Core.Option.{Option, none, some}
use mathlib.Core.List.{List, [], ◌∷◌}
use native.Mathlib.Omega.{arith}

module _ {ℓ} {V : Type ℓ} where
  unfoldable pub lookup : ℕ → List (ℕ × V) → Option V
  lookup k [] = none
  lookup k ((j, v) ∷ m) = if j == k then some v else lookup k m

  unfoldable pub assign : ℕ → V → List (ℕ × V) → List (ℕ × V)
  assign k v [] = (k, v) ∷ []
  assign k v ((j, w) ∷ m) = if j == k then (k, v) ∷ m else (j, w) ∷ assign k v m

  unfoldable pub erase : ℕ → List (ℕ × V) → List (ℕ × V)
  erase k [] = []
  erase k ((j, w) ∷ m) = if j == k then erase k m else (j, w) ∷ erase k m

  abbrev pub is_some : Option V → Bool
  is_some none = false
  is_some (some v) = true

  abbrev pub contains : ℕ → List (ℕ × V) → Bool
  contains k m = is_some (lookup k m)

  -- The entries that a loop with erase leaves.
  unfoldable pub keep : (V → Bool) → List (ℕ × V) → List (ℕ × V)
  keep test [] = []
  keep test ((j, w) ∷ m) = if test w then (j, w) ∷ keep test m else keep test m

  pub lookup-assign :
      (k j : ℕ) (v : V) (m : List (ℕ × V))
      → lookup j (assign k v m) ≡ (if k == j then some v else lookup j m)
  unfolding lookup assign
  lookup-assign k j v [] = refl
  lookup-assign k j v ((i, w) ∷ m) = ground (arith, lookup-assign k j v m)

  pub lookup-erase :
      (k j : ℕ) (m : List (ℕ × V)) → lookup j (erase k m) ≡ (if k == j then none else lookup j m)
  unfolding lookup erase
  lookup-erase k j [] = ground arith
  lookup-erase k j ((i, w) ∷ m) = ground (arith, lookup-erase k j m)

  pub assign-All {κ} :
      (P : ℕ × V → Type κ) (k : ℕ) (v : V) (m : List (ℕ × V))
      → P (k, v)
      → All P m
      → All P (assign k v m)
  unfolding assign
  assign-All P k v [] h hs = (h, tt)
  assign-All P k v ((j, w) ∷ m) h (g, hs) =
      let rest = assign-All P k v m h hs in
      elim (j == k) as (λ c. All P (if c then (k, v) ∷ m else (j, w) ∷ assign k v m)) [
        | true ↦ (h, hs)
        | false ↦ (g, rest)
      ]
