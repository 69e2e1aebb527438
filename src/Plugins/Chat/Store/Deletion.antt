-- ===== src/Plugins/Chat/Store/Deletion.antt =====
-- What becomes of a room that the sysop deletes.
use bbs.Prelude.{
  ℕ, ◌≤◌, zero, suc, true, ◌≡◌, refl, ap, List, [], ◌∷◌, ◌++◌, Option, none, some, arith,
  if◌then◌else◌, length, get_elem?, ◌=?◌, nat_eq, list_eq, list_beq_iff, Bool-cases, inl, inr,
}
use bbs.Text.{Text, lower}
use bbs.Dict.{get, has, remove}
use bbs.Dict.Laws.{has-put, get-some-has}
use bbs.Plugins.Chat.{Chat, ChatRoom, at_room, broadcast_line, found_or_made, get_or_create_room}
use bbs.Plugins.Chat.Store.{
  ChatDb, Line, persist, delete_room, close_room, count_of_room, deletion_notice, delete_room_lines,
}
use bbs.Plugins.Chat.Store.Startup.{initialize, rebuilt, configured}
use bbs.Plugins.Chat.Store.Trimmed.{count-persist}

found_or_made-has :
    (name description key : Text) (chat : Chat) (o : Option ℕ)
    → get chat.rooms (lower name) ≡ o
    → has (found_or_made name description chat o).1.rooms key
      ≡ (if lower name =? key then true else has chat.rooms key)
found_or_made-has name description key chat none h =
    has-put chat.rooms (lower name) key (length chat.heap)
found_or_made-has name description key chat (some ref) h =
    ground (arith, get-some-has chat.rooms (lower name) h, list_beq_iff (lower name) key)

get_or_create_room-has :
    (name description key : Text) (chat : Chat)
    → has (get_or_create_room name description chat).1.rooms key
      ≡ (if lower name =? key then true else has chat.rooms key)
unfolding get_or_create_room
get_or_create_room-has name description key chat =
    found_or_made-has name description key chat (get chat.rooms (lower name)) refl

rebuilt-keeps :
    (ls : List Line) (chat : Chat) (key : Text)
    → has chat.rooms key ≡ true
    → has (rebuilt ls chat).rooms key ≡ true
unfolding rebuilt
rebuilt-keeps [] chat key h = h
rebuilt-keeps (l ∷ ls) chat key h =
    rebuilt-keeps ls (get_or_create_room l.room [] chat).1 key
      (ground (arith, h, get_or_create_room-has l.room [] key chat))

rebuilt-has :
    (ls : List Line) (chat : Chat) (room : Text)
    → 1 ≤ count_of_room room ls
    → has (rebuilt ls chat).rooms (lower room) ≡ true
unfolding rebuilt count_of_room
rebuilt-has [] chat room h = absurd (omega arith)
rebuilt-has (l ∷ ls) chat room h = elim (Bool-cases (l.room =? room)) [
  | inl e ↦
      let same : l.room ≡ room = (list_beq_iff l.room room).0 e in
      rebuilt-keeps ls (get_or_create_room l.room [] chat).1 (lower room) (
        ground (
          arith,
          get_or_create_room-has l.room [] (lower room) chat,
          list_beq_iff (lower l.room) (lower room),
          ap lower same,
        ))
  | inr e ↦ rebuilt-has ls (get_or_create_room l.room [] chat).1 room (ground (arith, h, e))
]

at_room_self :
    (f : ChatRoom → ChatRoom) (rs : List ChatRoom) (i : ℕ) {r : ChatRoom}
    → get_elem? rs i ≡ some r
    → get_elem? (at_room f rs i) i ≡ some (f r)
at_room_self f [] i h = (cc)
at_room_self f (s ∷ rs) zero h = ground (arith, h)
at_room_self f (s ∷ rs) (suc i) {r = r} h = at_room_self f rs i {r = r} h

close_room-persisted :
    (key : Text) (room : ChatRoom)
    → room.persists ≡ true
    → (close_room key room).persisted ≡ room.persisted ++ deletion_notice key ∷ []
unfolding broadcast_line
close_room-persisted key room h = rw h refl

-- A deleted room comes back: its notice of deletion is handed to the persistence task, and once the
-- task has written the line, the next start makes a room of it.
pub delete_room-returns :
    (n now : ℕ) (defaults : List (Text × Text)) (key : Text) (chat : Chat) (db : ChatDb) (ref : ℕ)
    (room : ChatRoom)
    → 1 ≤ n
    → get chat.rooms key ≡ some ref
    → get_elem? chat.heap ref ≡ some room
    → room.persists ≡ true
    → ((after : ChatRoom) × (get_elem? (delete_room true key chat db).0.heap ref ≡ some after)
        × (after.persisted ≡ room.persisted ++ deletion_notice key ∷ []))
      × (has
            (initialize defaults n
              (persist n now key (deletion_notice key) (delete_room true key chat db).1.0)).rooms
            (lower key)
          ≡ true)
unfolding delete_room initialize
delete_room-returns n now defaults key chat db ref room pos found object persists =
    let gone : Chat = record chat { rooms = remove chat.rooms key } in
    let left : ChatDb = record db { lines = delete_room_lines key db.lines } in
    let kept : ChatDb = persist n now key (deletion_notice key) left in
    let empty : Chat = record { rooms = []; heap = []; last_whisper = []; history_lines = n } in
    (
      (
        close_room key room,
        rw found (at_room_self (close_room key) chat.heap ref object),
        close_room-persisted key room persists,
      ),
      rebuilt-has kept.lines (configured defaults empty) key
          (omega (arith, count-persist n now key (deletion_notice key) key left)),
    )
