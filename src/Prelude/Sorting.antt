-- ===== src/Prelude/Sorting.antt =====
-- `sort.Strings`. The sorted list does not depend on the order in which the strings come, such as the
-- order in which Go walks a map.
use mathlib.Core.List.{Permᴰ}
use parallel_consciousness.Prelude.{
  String, ◌≡◌, refl, ◌∙◌, List, [], ◌∷◌, if◌then◌else◌, Bool-cases, inl, inr,
}
use parallel_consciousness.Prelude.Texts.{
  text_leb, text_leb_total, text_leb_trans, text_leb_antisym,
}

-- The step of an insertion sort.
unfoldable pub place : String → List String → List String
place x [] = x ∷ []
place x (y ∷ l) = let rest = place x l in if text_leb x y then x ∷ y ∷ l else y ∷ rest

-- `sort.Strings`
unfoldable pub sort_strings : List String → List String
sort_strings [] = []
sort_strings (x ∷ l) = place x (sort_strings l)

pub place_comm : (x y : String) (l : List String) → place x (place y l) ≡ place y (place x l)
unfolding place
place_comm x y [] =
    let t = text_leb_total x y in
    let a = text_leb_antisym x y in
    elim (Bool-cases (text_leb x y)) [
      | inr p ↦ let q = t p in cc
      | inl p ↦ elim (Bool-cases (text_leb y x)) [ inl q ↦ let e = a p q in cc | inr q ↦ cc ]
    ]
place_comm x y (z ∷ l) =
    let ih = place_comm x y l in
    elim (Bool-cases (text_leb x y)) [
      | inr p ↦
          let q = text_leb_total x y p in
          let t = text_leb_trans y x z q in
          elim (Bool-cases (text_leb x z)) [
            | inl r ↦ let s = t r in cc
            | inr r ↦ elim (Bool-cases (text_leb y z)) [ inl s ↦ cc | inr s ↦ cc ]
          ]
      | inl p ↦ elim (Bool-cases (text_leb y x)) [
        | inl q ↦ let e = text_leb_antisym x y p q in cc
        | inr q ↦ elim (Bool-cases (text_leb y z)) [
          | inl r ↦ let s = text_leb_trans x y z p r in cc
          | inr r ↦ elim (Bool-cases (text_leb x z)) [ inl s ↦ cc | inr s ↦ cc ]
        ]
      ]
    ]

pub sort_strings-Perm : (xs ys : List String) → Permᴰ xs ys → sort_strings xs ≡ sort_strings ys
unfolding sort_strings
sort_strings-Perm [] [] Permᴰ.nil = refl
sort_strings-Perm (a ∷ xs) (b ∷ ys) (Permᴰ.cons e p) = let ih = sort_strings-Perm xs ys p in cc
sort_strings-Perm (a ∷ b ∷ l) (a' ∷ b' ∷ _) (Permᴰ.swap e f) =
    let z = place_comm a b (sort_strings l) in cc
sort_strings-Perm xs zs (Permᴰ.trans {l₂ = ys} p q) =
    sort_strings-Perm xs ys p ∙ sort_strings-Perm ys zs q
