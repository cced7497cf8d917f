-- ===== src/Prelude/First.antt =====
-- `Array.prototype.find`, and the change of the found object in place.
use mathlib.Core.Path.{◌≡◌, refl}
use mathlib.Core.Bool.{Bool, true}
use mathlib.Core.List.{List, [], ◌∷◌, ◌++◌, map}
use mathlib.Core.Option.{Option, none, some}
use native.Mathlib.Omega.{arith}
use lldm.Prelude.Tests.{if◌then◌else◌}

module _ {ℓ} {A : Type ℓ} where
  unfoldable pub find : (A → Bool) → List A → Option A
  find p [] = none
  find p (x ∷ xs) = let rest = find p xs in if p x then some x else rest

  -- What a write through the reference that `find` returned leaves of the array.
  unfoldable pub modify : (A → Bool) → (A → A) → List A → List A
  modify p f [] = []
  modify p f (x ∷ xs) = let rest = x ∷ modify p f xs in if p x then f x ∷ xs else rest

  pub find-holds : (p : A → Bool) (xs : List A) (x : A) → find p xs ≡ some x → p x ≡ true
  unfolding find
  find-holds p [] x h = ground arith
  find-holds p (y ∷ xs) x h = ground (arith, find-holds p xs x)

  -- The changed object is found again where the change keeps its key.
  pub find-modify :
      (p : A → Bool) (f : A → A) (xs : List A) (x : A)
      → find p xs ≡ some x
      → p (f x) ≡ true
      → find p (modify p f xs) ≡ some (f x)
  unfolding find modify
  find-modify p f [] x h k = ground arith
  find-modify p f (y ∷ xs) x h k = ground (arith, find-modify p f xs x)

  -- A second change that takes the found object back takes the array back.
  pub modify-modify :
      (p : A → Bool) (f g : A → A) (xs : List A) (x : A)
      → find p xs ≡ some x
      → p (f x) ≡ true
      → g (f x) ≡ x
      → modify p g (modify p f xs) ≡ xs
  unfolding find modify
  modify-modify p f g [] x h k e = refl
  modify-modify p f g (y ∷ xs) x h k e = ground (arith, modify-modify p f g xs x)

  -- A projection that the change keeps is kept along the array.
  pub map-modify {κ} :
      {B : Type κ} (key : A → B) (p : A → Bool) (f : A → A) (xs : List A)
      → ((x : A) → key (f x) ≡ key x)
      → map key (modify p f xs) ≡ map key xs
  unfolding modify
  map-modify key p f [] h = refl
  map-modify key p f (x ∷ xs) h = ground (arith, h x, map-modify key p f xs h)

  -- `array.splice(array.findIndex(p), 1)`.
  unfoldable pub remove_first : (A → Bool) → List A → List A
  remove_first p [] = []
  remove_first p (x ∷ xs) = let rest = x ∷ remove_first p xs in if p x then xs else rest

  pub remove_first-append :
      (p : A → Bool) (xs : List A) (x : A)
      → find p xs ≡ none
      → p x ≡ true
      → remove_first p (xs ++ x ∷ []) ≡ xs
  unfolding find remove_first
  remove_first-append p [] x h k = ground arith
  remove_first-append p (y ∷ xs) x h k = ground (arith, remove_first-append p xs x)

  pub find-append :
      (p : A → Bool) (xs : List A) (x : A)
      → find p xs ≡ none
      → p x ≡ true
      → find p (xs ++ x ∷ []) ≡ some x
  unfolding find
  find-append p [] x h k = ground arith
  find-append p (y ∷ xs) x h k = ground (arith, find-append p xs x)

  -- A change that leaves the found object as it is leaves the array as it is.
  pub modify_same :
      (p : A → Bool) (f : A → A) (xs : List A) (x : A)
      → find p xs ≡ some x
      → f x ≡ x
      → modify p f xs ≡ xs
  unfolding find modify
  modify_same p f [] x h e = refl
  modify_same p f (y ∷ xs) x h e = ground (arith, modify_same p f xs x)
