-- ===== src/Prelude/Texts.antt =====
-- The order of Go strings: by their runes, which is the order of their bytes in UTF-8.
use Prim.Native.Char.{Char, code}
use Prim.Native.String.{String, [], ◌∷◌, ◌++◌, count}
use text.Mathlib.TextEquality.{Char-path}
use text.Mathlib.TextLemmas.{length-nil, length-cons}
use parallel_consciousness.Prelude.{
  ℕ, zero, suc, ◌-◌, ◌≤◌, ◌≡◌, refl, Bool, true, false, ◌&&◌, ◌||◌, arith, leb, eqb, if◌then◌else◌,
  ltb,
}

-- `s <= t`
unfoldable pub text_leb : String → String → Bool
text_leb [] t = true
text_leb (c ∷ s) [] = false
text_leb (c ∷ s) (d ∷ t) =
    let rest = text_leb s t in
    if ltb (code c) (code d) then true else if ltb (code d) (code c) then false else rest

pub text_leb_total : (s t : String) → text_leb s t ≡ false → text_leb t s ≡ true
unfolding text_leb
text_leb_total [] t e = absurd cc
text_leb_total (c ∷ s) [] e = refl
text_leb_total (c ∷ s) (d ∷ t) e = ground (arith, text_leb_total s t)

pub text_leb_trans :
    (s t u : String) → text_leb s t ≡ true → text_leb t u ≡ true → text_leb s u ≡ true
unfolding text_leb
text_leb_trans [] t u e f = refl
text_leb_trans (c ∷ s) [] u e f = absurd cc
text_leb_trans (c ∷ s) (d ∷ t) [] e f = absurd cc
text_leb_trans (c ∷ s) (d ∷ t) (x ∷ u) e f = ground (arith, text_leb_trans s t u)

pub text_leb_antisym : (s t : String) → text_leb s t ≡ true → text_leb t s ≡ true → s ≡ t
unfolding text_leb
text_leb_antisym [] [] e f = refl
text_leb_antisym [] (d ∷ t) e f = absurd cc
text_leb_antisym (c ∷ s) [] e f = absurd cc
text_leb_antisym (c ∷ s) (d ∷ t) e f =
    let ih = text_leb_antisym s t in
    let same : code c ≡ code d = ground arith in
    λ i. Char-path c d same i ∷ ih (ground arith) (ground arith) i

-- `unicode.IsSpace`
unfoldable pub is_space : Char → Bool
is_space c =
    let n = code c in
    (leb 9 n && leb n 13)
    || (eqb n 32
        || (eqb n 133
            || (eqb n 160
                || (eqb n 5760
                    || ((leb 8192 n && leb n 8202)
                        || (leb 8232 n && leb n 8233
                            || (eqb n 8239 || (eqb n 8287 || eqb n 12288))))))))

unfoldable pub is_empty : String → Bool
is_empty [] = true
is_empty (c ∷ s) = false

-- A text without the characters of one kind at its start, and at its end.
unfoldable pub trim_left_by : (Char → Bool) → String → String
trim_left_by p [] = []
trim_left_by p (c ∷ s) = let rest = trim_left_by p s in if p c then rest else c ∷ s

unfoldable pub trim_right_by : (Char → Bool) → String → String
trim_right_by p [] = []
trim_right_by p (c ∷ s) =
    let rest = trim_right_by p s in if p c && is_empty rest then [] else c ∷ rest

-- `strings.TrimSpace`
unfoldable pub trim_space : String → String
trim_space s = trim_right_by is_space (trim_left_by is_space s)

-- `strings.TrimRight(s, " ")`
unfoldable pub trim_spaces_right : String → String
trim_spaces_right s = trim_right_by (λ c. eqb (code c) 32) s

-- The first runes of a text.
unfoldable pub take_runes : ℕ → String → String
take_runes zero s = []
take_runes (suc n) [] = []
take_runes (suc n) (c ∷ s) = c ∷ take_runes n s

unfoldable pub starts_with : String → String → Bool
starts_with s [] = true
starts_with [] (d ∷ t) = false
starts_with (c ∷ s) (d ∷ t) = eqb (code c) (code d) && starts_with s t

-- `strings.Contains`
unfoldable pub has_text : String → String → Bool
has_text [] t = starts_with [] t
has_text (c ∷ s) t = starts_with (c ∷ s) t || has_text s t

-- `strings.ReplaceAll` of line feeds by spaces.
unfoldable pub join_lines : String → String
join_lines [] = []
join_lines (c ∷ s) = (if eqb (code c) 10 then " " else c) ∷ join_lines s

-- `%-ns`
unfoldable pub spaces : ℕ → String
spaces zero = []
spaces (suc n) = " " ∷ spaces n

unfoldable pub pad_right : ℕ → String → String
pad_right n s = s ++ spaces (n - count s)

pub count-take_runes : (n : ℕ) (s : String) → count (take_runes n s) ≤ n
unfolding take_runes
count-take_runes zero s = omega (length-nil, arith)
count-take_runes (suc n) [] = omega (length-nil, arith)
count-take_runes (suc n) (c ∷ s) =
    let ih = count-take_runes n s in omega (length-cons c (take_runes n s), arith)
