-- ===== src/Netrom/Manager/FreeIndex.antt =====
-- The search for a free circuit index.
use bbs.Prelude.{
  ℕ, zero, suc, ◌+◌, ◌≤◌, ◌<◌, ◌≡◌, ◌≢◌, true, false, [], ◌∷◌, none, some, length, arith, ◌==◌,
  nat_eq, pair_eq, Bool-cases, inl, inr, ◌∙◌,
}
use bbs.Dict.{Dict, has, remove}
use bbs.Dict.Laws.{has-remove, length-remove-le}
use bbs.Netrom.Manager.{max_local_circuits}
use bbs.Netrom.Manager.Tables.{first_free}

-- An index that the search returns is free, and lies among those that it looks at.
pub first_free-is_free :
    (rounds i : ℕ) (used : Dict ℕ (Unit {0})) {j : ℕ}
    → first_free rounds i used ≡ some j
    → (has used j ≡ false) × (i ≤ j) × (j < i + rounds)
unfolding first_free
first_free-is_free zero i used h = cc
first_free-is_free (suc rounds) i used {j} h = elim (Bool-cases (has used i)) [
  | inl taken ↦
      let h' : first_free rounds (i + 1) used ≡ some j = ground arith in
      let (free, lo, hi) = first_free-is_free rounds (i + 1) used h' in
      (free, omega arith, omega arith)
  | inr free ↦ ground arith
]

-- A search that fails has found every index in use.
first_free-none :
    (rounds i j : ℕ) (used : Dict ℕ (Unit {0}))
    → first_free rounds i used ≡ none
    → i ≤ j
    → j < i + rounds
    → has used j ≡ true
unfolding first_free
first_free-none zero i j used h lo hi = absurd (omega arith)
first_free-none (suc rounds) i j used h lo hi = elim (Bool-cases (has used i)) [
  | inl taken ↦ elim (Bool-cases (i == j)) [
    | inl same ↦ let e : i ≡ j = ground arith in rw e at taken
    | inr other ↦
        let h' : first_free rounds (i + 1) used ≡ none = ground arith in
        first_free-none rounds (i + 1) j used h' (ground arith) (omega arith)
  ]
  | inr free ↦ ground arith
]

length-remove-lt :
    (used : Dict ℕ (Unit {0})) (j : ℕ) → has used j ≡ true → length (remove used j) < length used
unfolding has remove
length-remove-lt [] j h = cc
length-remove-lt ((i, u) ∷ used) j h =
    ground (arith, length-remove-le used j, length-remove-lt used j)

-- A table that holds every index below `n` has at least `n` entries.
all_used :
    (n : ℕ) (used : Dict ℕ (Unit {0})) → ((j : ℕ) → j < n → has used j ≡ true) → n ≤ length used
all_used zero used h = omega arith
all_used (suc n) used h =
    let rest : (j : ℕ) → j < n → has (remove used n) j ≡ true = λ j lt.
      let ne : (n == j) ≡ false = ground arith in has-remove used n j ∙ rw ne (h j (omega arith)) in
    let last : n < suc n = omega arith in
    omega (arith, all_used n (remove used n) rest, length-remove-lt used n (h n last))

-- With fewer than 256 indices in use the search finds one.
pub first_free_total :
    (used : Dict ℕ (Unit {0}))
    → length used < max_local_circuits
    → first_free max_local_circuits 0 used ≢ none
first_free_total used h e =
    let full : 256 ≤ length used =
      all_used 256 used (λ j lt. first_free-none 256 0 j used e (omega arith) lt) in
    absurd (omega arith)
