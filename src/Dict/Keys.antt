-- ===== src/Dict/Keys.antt =====
-- The keys of a `Dict` as a relation.
use bbs.Prelude.{Eq, ◌=?◌, ◌≡◌, refl, true, ◌↔◌, ◌⊎◌, inl, inr, [], ◌∷◌, Bool-cases}
use bbs.Dict.{Dict, has}

module _ {K V : Type 0} where
  abbrev pub IsKey : Dict K V → K → Type 0
  IsKey [] k = ⊥
  IsKey ((j, v) ∷ d) k = (j ≡ k) ⊎ IsKey d k

module _ {K V : Type 0} ⦃e : Eq K⦄ where
  has→IsKey : (d : Dict K V) (k : K) → has d k ≡ true → IsKey d k
  unfolding has
  has→IsKey [] k h = absurd (cc h)
  has→IsKey ((j, v) ∷ d) k h = elim (Bool-cases (j =? k)) [
    | inl p ↦ inl ((e.beq_iff j k).0 p)
    | inr p ↦ inr (has→IsKey d k (rw p at h))
  ]

  IsKey→has : (d : Dict K V) (k : K) → IsKey d k → has d k ≡ true
  unfolding has
  IsKey→has [] k h = absurd h
  IsKey→has ((j, v) ∷ d) k (inl p) = rw ((e.beq_iff j k).1 p) refl
  IsKey→has ((j, v) ∷ d) k (inr p) = elim (Bool-cases (j =? k)) [
    | inl q ↦ rw q refl
    | inr q ↦ rw q (IsKey→has d k p)
  ]

  pub has-IsKey : (d : Dict K V) (k : K) → (has d k ≡ true) ↔ IsKey d k
  has-IsKey d k = (has→IsKey d k, IsKey→has d k)
