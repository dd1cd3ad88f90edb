-- ===== src/Prelude/Lists.antt =====
-- Lists measured by native numbers, and lists of names.
use Prim.Native.Nat.{ℕ, zero, suc, ◌+◌}
use Prim.Native.String.{String}
use text.Mathlib.Text.{◌==◌}
use mathlib.Core.Path.{◌≡◌, refl}
use mathlib.Core.Logic.{◌⊎◌, inl, inr}
use parallel_consciousness.Prelude.Tests.{
  ltb, if◌then◌else◌, Bool-cases, eqb, Bool-cases, if◌then◌else◌,
}
use mathlib.Core.Bool.{Bool, true, false, ◌||◌}
use mathlib.Core.List.{List, [], ◌∷◌, ◌++◌}
use native.Mathlib.Omega.{arith}

module _ {ℓ} {A : Type ℓ} where
  abbrev pub length : List A → ℕ
  length [] = 0
  length (x ∷ xs) = suc (length xs)

  pub length-append : (xs ys : List A) → length (xs ++ ys) ≡ length xs + length ys
  length-append [] ys = omega arith
  length-append (x ∷ xs) ys = omega (arith, length-append xs ys)

  abbrev pub All {κ} : (A → Type κ) → List A → Type κ
  All P [] = Unit
  All P (x ∷ xs) = P x × All P xs

  pub length-zero : (xs : List A) → eqb (length xs) 0 ≡ true → xs ≡ []
  length-zero [] e = refl
  length-zero (x ∷ xs) e = absurd (ground arith)

  pub List-cases : (xs : List A) → (xs ≡ []) ⊎ ((x : A) × (ys : List A) × (xs ≡ x ∷ ys))
  List-cases [] = inl refl
  List-cases (x ∷ xs) = inr (x, xs, refl)

  -- The first elements of a list.
  abbrev pub take : ℕ → List A → List A
  take zero xs = []
  take (suc n) [] = []
  take (suc n) (x ∷ xs) = x ∷ take n xs

  pub take-nil : (n : ℕ) → take n [] ≡ []
  take-nil zero = refl
  take-nil (suc n) = refl

  -- A list of bounded length keeps the first elements that it is offered.
  pub put-take :
      (n : ℕ) (l : List A) (x : A)
      → (if ltb (length (take n l)) n then take n l ++ x ∷ [] else take n l) ≡ take n (l ++ x ∷ [])
  put-take zero l x = refl
  put-take (suc n) [] x = let q : ltb 0 (suc n) ≡ true = ground arith in let z = take-nil n in cc
  put-take (suc n) (y ∷ l) x =
      let ih = put-take n l x in
      elim (Bool-cases (ltb (length (take n l)) n)) [
        | inl q ↦ let r : ltb (suc (length (take n l))) (suc n) ≡ true = ground arith in cc
        | inr q ↦ let r : ltb (suc (length (take n l))) (suc n) ≡ false = ground arith in cc
      ]

  -- The elements that pass a Boolean test, in order.
  abbrev pub keep : (A → Bool) → List A → List A
  keep p [] = []
  keep p (x ∷ xs) = if p x then x ∷ keep p xs else keep p xs

  pub keep-append : (p : A → Bool) (xs ys : List A) → keep p (xs ++ ys) ≡ keep p xs ++ keep p ys
  keep-append p [] ys = refl
  keep-append p (x ∷ xs) ys = elim (Bool-cases (p x)) [
    | inl e ↦ let r = keep-append p xs ys in cc
    | inr e ↦ let r = keep-append p xs ys in cc
  ]

-- `contains` of pkg/gate/gate.go: whether a name stands in a list.
unfoldable pub contains : List String → String → Bool
contains [] s = false
contains (x ∷ xs) s = x == s || contains xs s

-- No name stands twice.
abbrev pub Distinct : List String → Type 0
Distinct [] = Unit
Distinct (x ∷ xs) = (contains xs x ≡ false) × Distinct xs
