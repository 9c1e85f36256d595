-- ===== src/Prelude/Texts.antt =====
-- Go's strings as lists of bytes, and the interface of a type whose values are compared.
use Prim.Native.Nat.{ℕ}
use Prim.Native.Char.{code}
use Prim.Native.String.{String}
use mathlib.Core.Path.{◌≡◌, refl}
use mathlib.Core.Logic.{◌↔◌}
use mathlib.Core.Bool.{Bool, true, false, ◌&&◌, ◌||◌}
use mathlib.Core.List.{List, [], ◌∷◌}
use native.Mathlib.Omega.{arith}
use authrim_wordwarden.Prelude.Tests.{eqb}

abbrev pub Text : Type 0
Text = List ℕ

-- A literal: its code points, which are its bytes as every literal here is ASCII.
unfoldable pub lit : String → Text
lit String.[] = []
lit (String.◌∷◌ c s) = code c ∷ lit s

pub record Eq {κ} (K : Type κ) : Type κ where
  pub beq : K → K → Bool
  pub beq_iff : (x y : K) → (beq x y ≡ true) ↔ (x ≡ y)

infix 50 ◌==◌
abbrev pub ◌==◌ {κ} : {K : Type κ} ⦃same : Eq K⦄ → K → K → Bool
◌==◌ ⦃same⦄ = same.beq

unfoldable pub text_beq : Text → Text → Bool
text_beq [] [] = true
text_beq (a ∷ s) (b ∷ t) = eqb a b && text_beq s t
text_beq _ _ = false

pub text_beq_refl : (s : Text) → text_beq s s ≡ true
unfolding text_beq
text_beq_refl [] = refl
text_beq_refl (a ∷ s) = ground (arith, text_beq_refl s)

text_beq_sound : (s t : Text) → text_beq s t ≡ true → s ≡ t
unfolding text_beq
text_beq_sound [] [] h = refl
text_beq_sound [] (b ∷ t) h = cc
text_beq_sound (a ∷ s) [] h = cc
text_beq_sound (a ∷ s) (b ∷ t) h = ground (arith, text_beq_sound s t)

pub text_iff : (s t : Text) → (text_beq s t ≡ true) ↔ (s ≡ t)
text_iff s t = (text_beq_sound s t, λ e. rw e (text_beq_refl t))

instance abbrev pub text_eq : Eq Text
text_eq = record { beq = text_beq; beq_iff = text_iff }

-- Is a text among the items?
unfoldable pub contains : Text → List Text → Bool
contains name [] = false
contains name (x ∷ xs) = x == name || contains name xs
