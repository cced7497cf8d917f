-- ===== src/Prelude/Names.antt =====
-- Lists of identifiers as sets: distinct names, and the counting argument for a list inside another.
use Prim.Native.Nat.{ℕ, suc, ◌≤◌}
use mathlib.Core.Path.{◌≡◌, refl}
use mathlib.Core.Bool.{true, false}
use mathlib.Core.List.{List, [], ◌∷◌}
use mathlib.Core.Logic.{inl, inr}
use native.Mathlib.Omega.{arith}
use lldm.Prelude.Tests.{◌==◌, if◌then◌else◌, Bool-cases}
use lldm.Prelude.Lists.{length, includes}

abbrev pub Distinct : List ℕ → Type 0
Distinct [] = Unit
Distinct (x ∷ xs) = (includes x xs ≡ false) × Distinct xs

-- Every name of the first list stands in the second.
abbrev pub Within : List ℕ → List ℕ → Type 0
Within xs ys = (a : ℕ) → includes a xs ≡ true → includes a ys ≡ true

pub erase : ℕ → List ℕ → List ℕ
erase a [] = []
erase a (x ∷ xs) = let rest = x ∷ erase a xs in if a == x then xs else rest

length-erase : (a : ℕ) (xs : List ℕ) → includes a xs ≡ true → suc (length (erase a xs)) ≡ length xs
unfolding erase
length-erase a [] h = ground arith
length-erase a (x ∷ xs) h = ground (arith, length-erase a xs)

includes-erase_ne :
    (a b : ℕ) (xs : List ℕ) → (a == b) ≡ false → includes b (erase a xs) ≡ includes b xs
unfolding erase
includes-erase_ne a b [] h = refl
includes-erase_ne a b (x ∷ xs) h = ground (arith, includes-erase_ne a b xs)

Distinct-erase :
    (a : ℕ) (xs : List ℕ) → Distinct (erase a xs) → includes a (erase a xs) ≡ false → Distinct xs
unfolding erase
Distinct-erase a [] d n = tt
Distinct-erase a (x ∷ xs) d n = ground (arith, Distinct-erase a xs, includes-erase_ne a x xs)

includes-cons_true : (x : ℕ) (xs : List ℕ) → includes x (x ∷ xs) ≡ true
includes-cons_true x xs = ground arith

includes-cons_later : (a x : ℕ) (xs : List ℕ) → includes a xs ≡ true → includes a (x ∷ xs) ≡ true
includes-cons_later a x xs h = ground arith

Within-erase :
    (x : ℕ) (xs ys : List ℕ) → includes x xs ≡ false → Within (x ∷ xs) ys → Within xs (erase x ys)
Within-erase x xs ys n w a h = ground (arith, w a, includes-erase_ne x a ys, n, h)

-- As many distinct names as the other list has entries: the entries are distinct, and the same.
pub counted :
    (xs ys : List ℕ)
    → Distinct xs
    → Within xs ys
    → length ys ≤ length xs
    → Distinct ys × Within ys xs
counted [] [] d w h = (tt, λ a e. e)
counted [] (y ∷ ys) d w h = absurd (omega arith)
counted (x ∷ xs) ys d w h =
    let here : includes x ys ≡ true = w x (includes-cons_true x xs) in
    let (distinct, inside) =
      counted xs (erase x ys) d.1 (Within-erase x xs ys d.0 w)
        (omega (arith, length-erase x ys here)) in
    let gone : includes x (erase x ys) ≡ false = elim (Bool-cases (includes x (erase x ys))) [
      | inl e ↦ absurd (ground (arith, e, d.0, inside x e))
      | inr e ↦ e
    ] in
    (
      Distinct-erase x ys distinct gone,
      λ a e. elim (Bool-cases (x == a)) [
        | inl same ↦ ground (arith, same)
        | inr other ↦ ground (arith, other, includes-erase_ne x a ys other, inside a)
      ],
    )
