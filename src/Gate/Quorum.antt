-- ===== src/Gate/Quorum.antt =====
-- Quorum is an equality of two lengths (`onReady` of pkg/gate/gate.go): why that count is right.
use parallel_consciousness.Prelude.{
  suc, ◌+◌, String, ◌==◌, eq_iff, ◌≡◌, refl, ap, subst, ◌↔◌, inl, inr, true, false, List, [], ◌∷◌,
  arith, length, contains, Distinct, Bool-cases, eqb,
}
use parallel_consciousness.Dict.{Dict, lookup, has, insert, Keyed, lookup-insert, insert-Keyed}
use parallel_consciousness.Gate.Round.{outstanding_for, merge_tested}

-- Every key is a required participant.
abbrev pub Within : List String → Dict String → Type 0
Within req [] = Unit
Within req ((k, v) ∷ m) = (contains req k ≡ true) × Within req m

-- Every required participant has a recorded version.
abbrev pub Covers : Dict String → List String → Type 0
Covers m [] = Unit
Covers m (p ∷ ps) = (has p m ≡ true) × Covers m ps

pub insert-Within :
    (req : List String) (k v : String) (m : Dict String)
    → contains req k ≡ true
    → Within req m
    → Within req (insert k v m)
unfolding insert
insert-Within req k v [] c w = (c, tt)
insert-Within req k v ((j, x) ∷ m) c w = ground (arith, insert-Within req k v m c w.1)

outstanding_for-cons_other :
    (req : List String) (k v : String) (m : Dict String)
    → contains req k ≡ false
    → outstanding_for req ((k, v) ∷ m) ≡ outstanding_for req m
unfolding outstanding_for contains lookup
outstanding_for-cons_other [] k v m c = refl
outstanding_for-cons_other (p ∷ ps) k v m c =
    ground (arith, eq_iff p k, eq_iff k p, outstanding_for-cons_other ps k v m)

-- A new claim leaves one participant fewer to wait for.
outstanding_for-cons :
    (req : List String) (k v : String) (m : Dict String)
    → Distinct req
    → contains req k ≡ true
    → has k m ≡ false
    → length (outstanding_for req m) ≡ suc (length (outstanding_for req ((k, v) ∷ m)))
unfolding outstanding_for contains lookup
outstanding_for-cons [] k v m d c h = cc
outstanding_for-cons (p ∷ ps) k v m d c h = ground (
  arith,
  eq_iff p k,
  eq_iff k p,
  outstanding_for-cons_other ps k v m,
  outstanding_for-cons ps k v m d.1,
)

outstanding_for-nil : (req : List String) → outstanding_for req [] ≡ req
unfolding outstanding_for lookup
outstanding_for-nil [] = refl
outstanding_for-nil (p ∷ ps) = ground (arith, outstanding_for-nil ps)

-- Recorded claims and outstanding participants add up to the required ones.
pub quorum_count :
    (req : List String) (m : Dict String)
    → Distinct req
    → Keyed m
    → Within req m
    → length m + length (outstanding_for req m) ≡ length req
quorum_count req [] d k w = omega (arith, ap length (outstanding_for-nil req))
quorum_count req ((p, v) ∷ m) d k w =
    omega (arith, quorum_count req m d k.1 w.1, outstanding_for-cons req p v m d w.0 k.0)

outstanding_for-Covers :
    (req : List String) (m : Dict String) → outstanding_for req m ≡ [] → Covers m req
unfolding outstanding_for
outstanding_for-Covers [] m e = tt
outstanding_for-Covers (p ∷ ps) m e = ground (arith, outstanding_for-Covers ps m)

Covers-outstanding_for :
    (req : List String) (m : Dict String) → Covers m req → outstanding_for req m ≡ []
unfolding outstanding_for
Covers-outstanding_for [] m c = refl
Covers-outstanding_for (p ∷ ps) m c = ground (arith, Covers-outstanding_for ps m c.1)

length-nil : {A : Type 0} (xs : List A) → length xs ≡ 0 → xs ≡ []
length-nil [] h = refl
length-nil (x ∷ xs) h = absurd (omega arith)

-- For distinct required participants, and claims of required participants only, the two counts are
-- equal exactly when every required participant has a claim.
pub quorum_exact :
    (req : List String) (m : Dict String)
    → Distinct req
    → Keyed m
    → Within req m
    → (eqb (length m) (length req) ≡ true) ↔ Covers m req
quorum_exact req m d k w = (
  λ e.
      outstanding_for-Covers req m
        (length-nil (outstanding_for req m) (ground (arith, quorum_count req m d k w))),
  λ c. ground (arith, quorum_count req m d k w, ap length (Covers-outstanding_for req m c)),
)

pub Covers-has :
    (m : Dict String) (req : List String) (p : String)
    → Covers m req
    → contains req p ≡ true
    → has p m ≡ true
unfolding contains
Covers-has m [] p c h = cc
Covers-has m (q ∷ qs) p c h = elim (Bool-cases (q == p)) [
  | inl e ↦ subst (λ x. has x m ≡ true) ((eq_iff q p).0 e) c.0
  | inr e ↦ Covers-has m qs p c.1 (ground arith)
]

-- A claim that is written or overwritten loses no other one.
pub insert-Covers :
    (req : List String) (k v : String) (m : Dict String) → Covers m req → Covers (insert k v m) req
insert-Covers [] k v m c = tt
insert-Covers (p ∷ ps) k v m c = (ground (arith, lookup-insert k p v m), insert-Covers ps k v m c.1)

pub merge_tested-Covers :
    (required req : List String) (vs m : Dict String)
    → Covers m req
    → Covers (merge_tested required vs m) req
unfolding merge_tested
merge_tested-Covers required req [] m c = c
merge_tested-Covers required req ((k, v) ∷ vs) m c =
    let ih = merge_tested-Covers required req vs m c in
    ground (arith, ih, insert-Covers req k v (merge_tested required vs m) ih)

pub merge_tested-Keyed :
    (req : List String) (vs m : Dict String) → Keyed m → Keyed (merge_tested req vs m)
unfolding merge_tested
merge_tested-Keyed req [] m k = k
merge_tested-Keyed req ((p, v) ∷ vs) m k =
    let ih = merge_tested-Keyed req vs m k in
    ground (arith, ih, insert-Keyed p v (merge_tested req vs m) ih)

pub merge_tested-Within :
    (req : List String) (vs m : Dict String) → Within req m → Within req (merge_tested req vs m)
unfolding merge_tested
merge_tested-Within req [] m w = w
merge_tested-Within req ((p, v) ∷ vs) m w =
    let ih = merge_tested-Within req vs m w in
    ground (arith, ih, insert-Within req p v (merge_tested req vs m))

-- The list of outstanding participants is empty exactly when every required participant has a claim.
pub outstanding_exact :
    (req : List String) (m : Dict String) → (outstanding_for req m ≡ []) ↔ Covers m req
outstanding_exact req m = (outstanding_for-Covers req m, Covers-outstanding_for req m)
