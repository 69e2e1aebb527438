-- ===== src/Db/Users/Laws.antt =====
-- What a lookup sees after an UPDATE by id.
use bbs.Prelude.{
  ℕ, ◌≡◌, ◌≢◌, Bool-cases, refl, sym, ap, ◌∙◌, List, [], ◌∷◌, Option, none, some, arith, ◌==◌,
  ==_iff, ◌=?◌, nat_eq, list_eq, if◌then◌else◌, Option-cases, inl, inr,
}
use bbs.Text.{Text, upper, strip}
use bbs.Db.Users.{
  User, Users, row_by_callsign, row_by_id, get_by_callsign, update_rows, update_user, row_to_user,
  with_counter, with_failures,
}

-- The table's key: no two rows have the same id.
abbrev pub IsKeyed : List User → Type 0
IsKeyed [] = Unit
IsKeyed (u ∷ us) = (row_by_id us u.id ≡ none) × IsKeyed us

abbrev at_id : ℕ → (User → User) → User → User
at_id i f u = if u.id == i then f u else u

row_by_callsign-update_rows :
    (us : List User) (i : ℕ) (f : User → User) (call : Text)
    → ((u : User) → (f u).callsign ≡ u.callsign)
    → row_by_callsign (update_rows i f us) call
      ≡ elim (row_by_callsign us call) [ none ↦ none | some u ↦ some (at_id i f u) ]
unfolding row_by_callsign update_rows
row_by_callsign-update_rows [] i f call h = refl
row_by_callsign-update_rows (u ∷ us) i f call h =
    ground (arith, h u, row_by_callsign-update_rows us i f call h)

-- The row behind a user that a lookup returned.
pub get_by_callsign-row :
    (db : Users) (call : Text) {u : User}
    → get_by_callsign db call ≡ some u
    → (row : User) × (row_by_callsign db.rows (strip (upper call)) ≡ some row)
      × (row_to_user row ≡ u)
unfolding get_by_callsign
get_by_callsign-row db call {u} h =
    elim (Option-cases (row_by_callsign db.rows (strip (upper call)))) [
      | inl e ↦ (cc)
      | inr (row, e) ↦ (row, e, cc)
    ]

-- The facts of a column update_rows that the lookups need.
pub record IsColumnUpdate (f : User → User) : Type 0 where
  pub keeps_id : (u : User) → (f u).id ≡ u.id
  pub keeps_callsign : (u : User) → (f u).callsign ≡ u.callsign
  pub commutes : (u : User) → row_to_user (f u) ≡ f (row_to_user u)

pub with_failures-IsColumnUpdate : (n : ℕ) (t : Option ℕ) → IsColumnUpdate (with_failures n t)
unfolding row_to_user
with_failures-IsColumnUpdate n t = record {
  keeps_id = λ u. refl;
  keeps_callsign = λ u. refl;
  commutes = λ u. refl;
}

pub with_counter-IsColumnUpdate : (n : ℕ) → IsColumnUpdate (with_counter n)
unfolding row_to_user
with_counter-IsColumnUpdate n = record {
  keeps_id = λ u. refl;
  keeps_callsign = λ u. refl;
  commutes = λ u. refl;
}

id-row_to_user : (u : User) → (row_to_user u).id ≡ u.id
unfolding row_to_user
id-row_to_user u = refl

pub failures-row_to_user : (u : User) → (row_to_user u).auth_failures ≡ u.auth_failures
unfolding row_to_user
failures-row_to_user u = refl

-- An update_rows by the id of a user is what the next lookup of the user sees.
pub get-update_user :
    (db : Users) (call : Text) {u : User} (f : User → User)
    → IsColumnUpdate f
    → get_by_callsign db call ≡ some u
    → get_by_callsign (update_user u.id f db) call ≡ some (f u)
unfolding get_by_callsign
get-update_user db call {u = u} f c h =
    let (row, found, same) = get_by_callsign-row db call h in
    let moved = row_by_callsign-update_rows db.rows u.id f (strip (upper call)) c.keeps_callsign in
    let same_id : row.id ≡ u.id = sym (id-row_to_user row) ∙ ap (λ v. v.id) same in
    ground (arith, found, moved, same_id, c.commutes row, same)

-- An update_rows by another id is not seen.
pub get-update_other :
    (db : Users) (call : Text) {u : User} (i : ℕ) (f : User → User)
    → IsColumnUpdate f
    → get_by_callsign db call ≡ some u
    → u.id ≢ i
    → get_by_callsign (update_user i f db) call ≡ some u
unfolding get_by_callsign
get-update_other db call {u = u} i f c h other =
    let (row, found, same) = get_by_callsign-row db call h in
    let moved = row_by_callsign-update_rows db.rows i f (strip (upper call)) c.keeps_callsign in
    let same_id : row.id ≡ u.id = sym (id-row_to_user row) ∙ ap (λ v. v.id) same in
    ground (arith, found, moved, same_id, same, other, ==_iff row.id i)

-- A row that is found by its callsign is the row of its id.
pub row_by_id-found :
    (us : List User) (call : Text) {u : User}
    → IsKeyed us
    → row_by_callsign us call ≡ some u
    → row_by_id us u.id ≡ some u
unfolding row_by_callsign row_by_id
row_by_id-found [] call k h = (cc)
row_by_id-found (v ∷ us) call {u = u} k h = elim (Bool-cases (upper v.callsign =? upper call)) [
  | inl e ↦ let same : v ≡ u = ground arith in ground (arith, same, ==_iff v.id u.id)
  | inr e ↦
      let there : row_by_id us u.id ≡ some u = row_by_id-found us call k.1 (ground arith) in
      ground (arith, there, k.0, ==_iff v.id u.id)
]

-- The number of failures that an UPDATE starts from.
pub row_by_id-user :
    (db : Users) (call : Text) {u : User}
    → IsKeyed db.rows
    → get_by_callsign db call ≡ some u
    → (row : User) × (row_by_id db.rows u.id ≡ some row) × (row_to_user row ≡ u)
row_by_id-user db call {u = u} k h =
    let (row, found, same) = get_by_callsign-row db call h in
    let same_id : row.id ≡ u.id = sym (id-row_to_user row) ∙ ap (λ v. v.id) same in
    (row, rw (← same_id) (row_by_id-found db.rows (strip (upper call)) k found), same)

row_by_id-update_rows :
    (us : List User) (i j : ℕ) (f : User → User)
    → ((u : User) → (f u).id ≡ u.id)
    → row_by_id us j ≡ none
    → row_by_id (update_rows i f us) j ≡ none
unfolding row_by_id update_rows
row_by_id-update_rows [] i j f keep h = refl
row_by_id-update_rows (u ∷ us) i j f keep h =
    ground (arith, keep u, row_by_id-update_rows us i j f keep)

pub update_rows-IsKeyed :
    (us : List User) (i : ℕ) (f : User → User)
    → ((u : User) → (f u).id ≡ u.id)
    → IsKeyed us
    → IsKeyed (update_rows i f us)
unfolding update_rows
update_rows-IsKeyed [] i f keep k = tt
update_rows-IsKeyed (u ∷ us) i f keep (fresh, k) =
    let same : (if u.id == i then f u else u).id ≡ u.id = ground (arith, keep u) in
    (rw same (row_by_id-update_rows us i u.id f keep fresh), update_rows-IsKeyed us i f keep k)
