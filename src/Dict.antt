-- ===== src/Dict.antt =====
-- A Go map with string keys, as an association list. A map that the program builds holds each key
-- once (`Keyed`). `lookup` reads the first binding, and maps that answer alike are the same map.
use parallel_consciousness.Prelude.{
  suc, String, ◌==◌, eq_iff, eq_refl, ◌≡◌, ◌≢◌, refl, Bool, false, Option, none, some, List, [],
  ◌∷◌, arith, if◌then◌else◌, is_some, length,
}

-- `map[string]V`; the nil map answers as the empty one does.
abbrev pub Dict {ℓ} : Type ℓ → Type ℓ
Dict V = List (String × V)

module _ {ℓ} {V : Type ℓ} where
  -- `v, ok := m[k]`
  unfoldable pub lookup : String → Dict V → Option V
  lookup key [] = none
  lookup key ((at, held) ∷ rest) = if at == key then some held else lookup key rest

  -- `_, ok := m[k]`
  abbrev pub has : String → Dict V → Bool
  has k m = is_some (lookup k m)

  -- `delete(m, k)`
  unfoldable pub delete : String → Dict V → Dict V
  delete k [] = []
  delete k ((j, w) ∷ m) = let rest = delete k m in if j == k then rest else (j, w) ∷ rest

  -- `m[k] = v`
  unfoldable pub insert : String → V → Dict V → Dict V
  insert key new [] = (key, new) ∷ []
  insert key new ((at, held) ∷ rest) =
      let behind = insert key new rest in
      if at == key then (at, new) ∷ rest else (at, held) ∷ behind

  -- Every key stands once.
  abbrev pub Keyed : Dict V → Type 0
  Keyed [] = Unit
  Keyed ((k, v) ∷ m) = (has k m ≡ false) × Keyed m

  -- A read after a write.
  pub lookup-insert :
      (key other : String) (new : V) (m : Dict V)
      → lookup other (insert key new m) ≡ (if key == other then some new else lookup other m)
  unfolding lookup insert
  lookup-insert key other new [] = refl
  lookup-insert key other new ((at, held) ∷ rest) =
      let tail = lookup-insert key other new rest in
      ground (arith, eq_iff at key, eq_iff at other, eq_iff key other)

  pub lookup-delete :
      (k j : String) (m : Dict V) → lookup j (delete k m) ≡ (if k == j then none else lookup j m)
  unfolding lookup delete
  lookup-delete k j [] = ground arith
  lookup-delete k j ((i, w) ∷ m) =
      ground (arith, eq_iff k j, eq_iff i k, eq_iff i j, lookup-delete k j m)

  pub insert-Keyed : (k : String) (v : V) (m : Dict V) → Keyed m → Keyed (insert k v m)
  unfolding insert lookup
  insert-Keyed k v [] h = (refl, tt)
  insert-Keyed k v ((i, w) ∷ m) h =
      ground (arith, eq_iff i k, eq_iff k i, lookup-insert k i v m, insert-Keyed k v m)

  -- A write adds a binding when the key is new.
  pub length-insert :
      (k : String) (v : V) (m : Dict V)
      → length (insert k v m) ≡ (if has k m then length m else suc (length m))
  unfolding lookup insert
  length-insert k v [] = refl
  length-insert k v ((i, w) ∷ m) = ground (arith, length-insert k v m)

  -- `copyMap` of pkg/gate/gate.go: a loop of writes into a new map.
  unfoldable pub copy_map : Dict V → Dict V
  copy_map [] = []
  copy_map ((k, v) ∷ m) = insert k v (copy_map m)

  pub lookup-copy_map : (j : String) (m : Dict V) → lookup j (copy_map m) ≡ lookup j m
  unfolding lookup copy_map
  lookup-copy_map j [] = refl
  lookup-copy_map j ((k, v) ∷ m) =
      ground (arith, lookup-insert k j v (copy_map m), lookup-copy_map j m)

  pub copy_map-Keyed : (m : Dict V) → Keyed (copy_map m)
  unfolding copy_map
  copy_map-Keyed [] = tt
  copy_map-Keyed ((k, v) ∷ m) = insert-Keyed k v (copy_map m) (copy_map-Keyed m)

  pub lookup-delete_same : (k : String) (m : Dict V) → lookup k (delete k m) ≡ none
  lookup-delete_same k m = let z = lookup-delete k k m in let r = eq_refl k in cc

  pub lookup-delete_other : (k j : String) (m : Dict V) → j ≢ k → lookup j (delete k m) ≡ lookup j m
  lookup-delete_other k j m n = ground (arith, lookup-delete k j m, eq_iff k j)

  pub lookup-insert_same : (k : String) (v : V) (m : Dict V) → lookup k (insert k v m) ≡ some v
  lookup-insert_same k v m = let z = lookup-insert k k v m in let r = eq_refl k in cc

  pub lookup-insert_other :
      (k j : String) (v : V) (m : Dict V) → j ≢ k → lookup j (insert k v m) ≡ lookup j m
  lookup-insert_other k j v m n = ground (arith, lookup-insert k j v m, eq_iff k j)
