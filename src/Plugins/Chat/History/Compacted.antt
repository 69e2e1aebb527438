-- ===== src/Plugins/Chat/History/Compacted.antt =====
-- What is left of the scrollback when it is compacted.
use bbs.Prelude.{
  ℕ, ◌+◌, ◌≤◌, ◌≡◌, refl, ap, sym, ◌∙◌, List, [], ◌∷◌, ◌++◌, Option, none, some, arith, length,
  length-append, Option-cases, inl, inr,
}
use bbs.Text.{Text}
use bbs.Plugins.Chat.History.{
  notice_call, compact_from, compact_history, flush_visitors, visit, skip_of,
}

-- The lines of a scrollback that are not notices, with their rows.
abbrev pub messages : List (ℕ × Text) → List (ℕ × Text)
messages [] = []
messages ((row_id, line) ∷ rows) = elim (notice_call line) [
  | some call ↦ messages rows
  | none ↦ (row_id, line) ∷ messages rows
]

module _ (row_id : ℕ) (line : Text) (rows : List (ℕ × Text)) where
  messages-message :
      notice_call line ≡ none → messages ((row_id, line) ∷ rows) ≡ (row_id, line) ∷ messages rows
  messages-message e = rw (e, messages) refl

  messages-notice :
      {call : Text}
      → notice_call line ≡ some call
      → messages ((row_id, line) ∷ rows) ≡ messages rows
  messages-notice e = rw (e, messages) refl

-- The lines of a compacted scrollback that have a row.
abbrev pub kept : List (Option ℕ × Text) → List (ℕ × Text)
kept [] = []
kept ((none, line) ∷ out) = kept out
kept ((some row_id, line) ∷ out) = (row_id, line) ∷ kept out

kept-flush_visitors :
    (visitors : List Text) (out : List (Option ℕ × Text))
    → kept (flush_visitors visitors ++ out) ≡ kept out
kept-flush_visitors [] out = refl
kept-flush_visitors (v ∷ vs) out = refl

module _ (skip : Option Text) (visitors : List Text) (row_id : ℕ) (line : Text)
    (rows : List (ℕ × Text)) where
  compact_from-message :
      notice_call line ≡ none
      → compact_from skip visitors ((row_id, line) ∷ rows)
        ≡ flush_visitors visitors ++ (some row_id, line) ∷ compact_from skip [] rows
  unfolding compact_from
  compact_from-message e = rw (e, compact_from) refl

  compact_from-notice :
      {call : Text}
      → notice_call line ≡ some call
      → compact_from skip visitors ((row_id, line) ∷ rows)
        ≡ compact_from skip (visit skip call visitors) rows
  unfolding compact_from
  compact_from-notice e = rw (e, compact_from) refl

kept-compact_from :
    (skip : Option Text) (visitors : List Text) (rows : List (ℕ × Text))
    → kept (compact_from skip visitors rows) ≡ messages rows
unfolding compact_from
kept-compact_from skip [] [] = refl
kept-compact_from skip (v ∷ vs) [] = refl
kept-compact_from skip visitors ((row_id, line) ∷ rows) = elim (Option-cases (notice_call line)) [
  | inl e ↦
      ap kept (compact_from-message skip visitors row_id line rows e)
      ∙ (kept-flush_visitors visitors ((some row_id, line) ∷ compact_from skip [] rows)
          ∙ (ap (◌∷◌ (row_id, line)) (kept-compact_from skip [] rows)
              ∙ sym (messages-message row_id line rows e)))
  | inr (call, e) ↦
      ap kept (compact_from-notice skip visitors row_id line rows e)
      ∙ (kept-compact_from skip (visit skip call visitors) rows
          ∙ sym (messages-notice row_id line rows e))
]

-- One line for the visitors that are waiting.
abbrev waiting : List Text → ℕ
waiting [] = 0
waiting (v ∷ vs) = 1

waiting_le : (visitors : List Text) → waiting visitors ≤ 1
waiting_le [] = omega arith
waiting_le (v ∷ vs) = omega arith

length-flush_visitors : (visitors : List Text) → length (flush_visitors visitors) ≡ waiting visitors
length-flush_visitors [] = refl
length-flush_visitors (v ∷ vs) = refl

length-compact_from :
    (skip : Option Text) (visitors : List Text) (rows : List (ℕ × Text))
    → length (compact_from skip visitors rows) ≤ waiting visitors + length rows
unfolding compact_from
length-compact_from skip visitors [] = omega (arith, length-flush_visitors visitors)
length-compact_from skip visitors ((row_id, line) ∷ rows) = elim (Option-cases (notice_call line)) [
  | inl e ↦ rw (compact_from-message skip visitors row_id line rows e) (
      omega (
        arith,
        length-append (flush_visitors visitors) ((some row_id, line) ∷ compact_from skip [] rows),
        length-flush_visitors visitors,
        length-compact_from skip [] rows,
      ))
  | inr (call, e) ↦ rw (compact_from-notice skip visitors row_id line rows e) (
      omega (
        arith,
        length-compact_from skip (visit skip call visitors) rows,
        waiting_le (visit skip call visitors),
      ))
]

-- Compacting keeps exactly the lines that are not notices, with their rows and in their order, and
-- makes no scrollback longer.
pub compact_history-keeps :
    (rows : List (ℕ × Text)) (exclude : Option Text)
    → (kept (compact_history rows exclude) ≡ messages rows)
      × (length (compact_history rows exclude) ≤ length rows)
unfolding compact_history
compact_history-keeps rows exclude = (
  kept-compact_from (skip_of exclude) [] rows,
  omega (arith, length-compact_from (skip_of exclude) [] rows),
)
