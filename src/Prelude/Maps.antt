-- ===== src/Prelude/Maps.antt =====
-- Go's maps as association lists: the first entry of a key counts.
use Prim.Native.Nat.{◌+◌, ◌≤◌}
use mathlib.Core.Path.{◌≡◌, refl}
use mathlib.Core.Option.{Option, none, some}
use mathlib.Core.List.{List, [], ◌∷◌}
use native.Mathlib.Omega.{arith}
use authrim_wordwarden.Prelude.Tests.{if◌then◌else◌}
use authrim_wordwarden.Prelude.Lists.{length}
use authrim_wordwarden.Prelude.Texts.{Eq, ◌==◌}

module _ {ℓ κ} {K : Type ℓ} ⦃e : Eq K⦄ {V : Type κ} where
  unfoldable pub lookup : K → List (K × V) → Option V
  lookup k [] = none
  lookup k ((j, v) ∷ m) = if j == k then some v else lookup k m

  unfoldable pub insert : K → V → List (K × V) → List (K × V)
  insert k v [] = (k, v) ∷ []
  insert k v ((j, w) ∷ m) = if j == k then (j, v) ∷ m else (j, w) ∷ insert k v m

  pub lookup-insert :
      (changed k : K) (new : V) (m : List (K × V))
      → lookup k (insert changed new m) ≡ (if changed == k then some new else lookup k m)
  unfolding lookup insert
  lookup-insert changed k new [] = refl
  lookup-insert changed k new ((first, old) ∷ m) = ground (
    arith,
    e.beq_iff changed k,
    e.beq_iff first changed,
    e.beq_iff first k,
    lookup-insert changed k new m,
  )

  pub length-insert_le : (k : K) (v : V) (m : List (K × V)) → length (insert k v m) ≤ length m + 1
  unfolding insert
  length-insert_le k v [] = omega arith
  length-insert_le k v ((j, w) ∷ m) = ground (arith, length-insert_le k v m)

  pub length-insert_of_some :
      (k : K) (v w : V) (m : List (K × V)) → lookup k m ≡ some w → length (insert k v m) ≡ length m
  unfolding lookup insert
  length-insert_of_some k v w [] h = cc
  length-insert_of_some k v w ((j, u) ∷ m) h = ground (arith, length-insert_of_some k v w m)
