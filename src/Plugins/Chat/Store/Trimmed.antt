-- ===== src/Plugins/Chat/Store/Trimmed.antt =====
-- The lines of a room in the database.
use bbs.Prelude.{
  ℕ, ◌+◌, ◌-◌, suc, ◌≡◌, ◌≢◌, refl, List, [], ◌∷◌, ◌++◌, arith, nat_eq, list_eq, list_beq_iff,
  beq_refl,
}
use Prim.Native.Nat.{min}
use bbs.Text.{Text}
use bbs.Plugins.Chat.Store.{ChatDb, Line, persist, drop_of_room, count_of_room}

pub count-append :
    (room : Text) (ls ms : List Line)
    → count_of_room room (ls ++ ms) ≡ count_of_room room ls + count_of_room room ms
unfolding count_of_room
count-append room [] ms = omega arith
count-append room (l ∷ ls) ms = omega (arith, count-append room ls ms)

count-drop :
    (room : Text) (k : ℕ) (ls : List Line)
    → count_of_room room (drop_of_room room k ls) ≡ count_of_room room ls - k
unfolding count_of_room drop_of_room
count-drop room k [] = omega arith
count-drop room k (l ∷ ls) = ground (arith, count-drop room k ls, count-drop room (k - 1) ls)

count-drop_other :
    (room other : Text) (k : ℕ) (ls : List Line)
    → room ≢ other
    → count_of_room other (drop_of_room room k ls) ≡ count_of_room other ls
unfolding count_of_room drop_of_room
count-drop_other room other k [] ne = refl
count-drop_other room other k (l ∷ ls) ne = ground (
  arith,
  ne,
  list_beq_iff l.room room,
  list_beq_iff l.room other,
  count-drop_other room other k ls ne,
  count-drop_other room other (k - 1) ls ne,
)

-- A persisted line leaves its room with one line more, or with as many as are kept, and every
-- other room with its lines.
pub count-persist :
    (n now : ℕ) (room line other : Text) (db : ChatDb)
    → (count_of_room room (persist n now room line db).lines
        ≡ min (count_of_room room db.lines + 1) n)
      × (room ≢ other
          → count_of_room other (persist n now room line db).lines ≡ count_of_room other db.lines)
unfolding persist count_of_room
count-persist n now room line other db =
    let row : Line = record { id = suc db.last_id; room = room; ts = now; line = line } in
    let rows : List Line = db.lines ++ row ∷ [] in
    (
      ground (
        arith,
        count-append room db.lines (row ∷ []),
        count-drop room (count_of_room room rows - n) rows,
        beq_refl room,
      ),
      λ ne. ground (
        arith,
        ne,
        list_beq_iff room other,
        count-append other db.lines (row ∷ []),
        count-drop_other room other (count_of_room room rows - n) rows ne,
      ),
    )
