-- ===== src/Dict/Totals.antt =====
-- The sum of the values of a `Dict` of counters, and dictionaries whose keys are distinct.
use bbs.Prelude.{ℕ, ◌+◌, ◌≤◌, Eq, ◌≡◌, refl, false, [], ◌∷◌, Option, none, some, arith}
use bbs.Dict.{Dict, get, has, put, remove}
use bbs.Dict.Laws.{has-put, has-remove}

-- d.get(k, 0)
abbrev pub get_or_zero : Option ℕ → ℕ
get_or_zero none = 0
get_or_zero (some n) = n

module _ {ℓ} {K : Type ℓ} where
  abbrev pub total : Dict K ℕ → ℕ
  total [] = 0
  total ((k, n) ∷ d) = n + total d

module _ {ℓ} {K : Type ℓ} ⦃e : Eq K⦄ where
  abbrev pub Distinct {κ} : {V : Type κ} → Dict K V → Type 0
  Distinct [] = Unit
  Distinct ((k, v) ∷ d) = (has d k ≡ false) × Distinct d

  pub Distinct-put {κ} :
      {V : Type κ} (d : Dict K V) (k : K) (v : V) → Distinct d → Distinct (put d k v)
  unfolding put
  Distinct-put [] k v h = (unfold has in refl, tt)
  Distinct-put ((j, w) ∷ d) k v h =
      ground (arith, Distinct-put d k v h.1, has-put d k j v, e.beq_iff j k, e.beq_iff k j)

  pub Distinct-remove {κ} : {V : Type κ} (d : Dict K V) (k : K) → Distinct d → Distinct (remove d k)
  unfolding remove
  Distinct-remove [] k h = tt
  Distinct-remove ((j, w) ∷ d) k h = ground (arith, Distinct-remove d k h.1, has-remove d k j)

  pub total-put :
      (d : Dict K ℕ) (k : K) (n : ℕ) → total (put d k n) + get_or_zero (get d k) ≡ total d + n
  unfolding put get
  total-put [] k n = omega arith
  total-put ((j, m) ∷ d) k n = ground (arith, total-put d k n)

  pub remove_absent {κ} : {V : Type κ} (d : Dict K V) (k : K) → has d k ≡ false → remove d k ≡ d
  unfolding has remove
  remove_absent [] k h = refl
  remove_absent ((j, w) ∷ d) k h = ground (arith, remove_absent d k)

  pub total-remove :
      (d : Dict K ℕ) (k : K) → Distinct d → total (remove d k) + get_or_zero (get d k) ≡ total d
  unfolding remove get
  total-remove [] k h = omega arith
  total-remove ((j, m) ∷ d) k h =
      ground (arith, total-remove d k h.1, remove_absent d k, e.beq_iff j k)

  pub le-total : (d : Dict K ℕ) (k : K) → get_or_zero (get d k) ≤ total d
  unfolding get
  le-total [] k = omega arith
  le-total ((j, m) ∷ d) k = ground (arith, le-total d k)
