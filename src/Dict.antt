-- ===== src/Dict.antt =====
-- Python's `dict` (and `set`, with `Unit` for the values): entries in insertion order. A write to a
-- key that is there keeps its place, a new key goes to the end, and a deletion closes the gap.
pub mod Laws
pub mod Totals
pub mod Keys
use bbs.Prelude.{Eq, ◌=?◌, Bool, true, false, List, [], ◌∷◌, Option, none, some, if◌then◌else◌}

abbrev pub Dict {ℓ κ} : Type ℓ → Type κ → Type (ℓ ⊔ κ)
Dict K V = List (K × V)

module _ {ℓ κ} {K : Type ℓ} {V : Type κ} ⦃e : Eq K⦄ where
  -- d.get(k)
  unfoldable pub get : Dict K V → K → Option V
  get [] k = none
  get ((j, v) ∷ d) k = if j =? k then some v else get d k

  -- k in d
  unfoldable pub has : Dict K V → K → Bool
  has [] k = false
  has ((j, v) ∷ d) k = if j =? k then true else has d k

  -- d[k] = v
  unfoldable pub put : Dict K V → K → V → Dict K V
  put [] k v = (k, v) ∷ []
  put ((j, w) ∷ d) k v = if j =? k then (j, v) ∷ d else (j, w) ∷ put d k v

  -- d.pop(k, None)
  unfoldable pub remove : Dict K V → K → Dict K V
  remove [] k = []
  remove ((j, w) ∷ d) k = let rest = remove d k in if j =? k then rest else (j, w) ∷ rest

-- d.keys(), d.values()
module _ {ℓ κ} {K : Type ℓ} {V : Type κ} where
  abbrev pub keys : Dict K V → List K
  keys [] = []
  keys ((j, v) ∷ d) = j ∷ keys d

  abbrev pub values : Dict K V → List V
  values [] = []
  values ((j, v) ∷ d) = v ∷ values d

  -- `not d`
  abbrev pub is_empty : Dict K V → Bool
  is_empty [] = true
  is_empty (x ∷ d) = false
