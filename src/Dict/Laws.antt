-- ===== src/Dict/Laws.antt =====
-- The laws of `Dict`: what a lookup sees after a write or a deletion, and which keys are there.
use bbs.Prelude.{
  suc, ◌≤◌, Eq, ◌=?◌, beq_refl, ◌≡◌, refl, true, false, [], ◌∷◌, none, some, arith, if◌then◌else◌,
  length,
}
use bbs.Dict.{Dict, get, has, put, remove}

module _ {ℓ κ} {K : Type ℓ} {V : Type κ} ⦃e : Eq K⦄ where
  pub get-put :
      (d : Dict K V) (k j : K) (v : V) → get (put d k v) j ≡ (if k =? j then some v else get d j)
  unfolding get put
  get-put [] k j v = refl
  get-put ((i, w) ∷ d) k j v =
      ground (arith, e.beq_iff k j, e.beq_iff i k, e.beq_iff i j, get-put d k j v)

  pub get-remove :
      (d : Dict K V) (k j : K) → get (remove d k) j ≡ (if k =? j then none else get d j)
  unfolding get remove
  get-remove [] k j = ground arith
  get-remove ((i, w) ∷ d) k j =
      ground (arith, e.beq_iff k j, e.beq_iff i k, e.beq_iff i j, get-remove d k j)

  pub has-put :
      (d : Dict K V) (k j : K) (v : V) → has (put d k v) j ≡ (if k =? j then true else has d j)
  unfolding has put
  has-put [] k j v = refl
  has-put ((i, w) ∷ d) k j v =
      ground (arith, e.beq_iff k j, e.beq_iff i k, e.beq_iff i j, has-put d k j v)

  pub has-remove :
      (d : Dict K V) (k j : K) → has (remove d k) j ≡ (if k =? j then false else has d j)
  unfolding has remove
  has-remove [] k j = ground arith
  has-remove ((i, w) ∷ d) k j =
      ground (arith, e.beq_iff k j, e.beq_iff i k, e.beq_iff i j, has-remove d k j)

  pub get-some-has : (d : Dict K V) (k : K) {v : V} → get d k ≡ some v → has d k ≡ true
  unfolding get has
  get-some-has [] k h = cc
  get-some-has ((i, w) ∷ d) k {v} h = ground (arith, get-some-has d k {v = v})

  pub get-none-has : (d : Dict K V) (k : K) → get d k ≡ none → has d k ≡ false
  unfolding get has
  get-none-has [] k h = refl
  get-none-has ((i, w) ∷ d) k h = ground (arith, get-none-has d k)

  pub get-put_self : (d : Dict K V) (k : K) (v : V) → get (put d k v) k ≡ some v
  get-put_self d k v = ground (arith, get-put d k k v, beq_refl k)

  pub length-put :
      (d : Dict K V) (k : K) (v : V)
      → length (put d k v) ≡ (if has d k then length d else suc (length d))
  unfolding has put
  length-put [] k v = refl
  length-put ((i, w) ∷ d) k v = ground (arith, length-put d k v)

  pub length-remove-le : (d : Dict K V) (k : K) → length (remove d k) ≤ length d
  unfolding remove
  length-remove-le [] k = omega arith
  length-remove-le ((i, w) ∷ d) k = ground (arith, length-remove-le d k)
