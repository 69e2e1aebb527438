-- ===== src/Plugins/Chat/Store.antt =====
-- The tables of bbs/plugins/chat/chat.py: the persisted lines of the rooms and the whispers held
-- for stations that were away. Times are whole seconds.
pub mod Startup
pub mod Trimmed
pub mod Deletion
use bbs.Prelude.{
  ℕ, ◌+◌, ◌-◌, suc, Bool, true, false, ◌&&◌, not, List, [], ◌∷◌, ◌++◌, Option, none, some,
  if◌then◌else◌, length, ◌==◌, ◌=?◌, nat_eq, list_eq,
}
use bbs.Text.{Text, codes, upper}
use bbs.Dict.{get, put, remove, has}
use bbs.Plugins.Chat.{Chat, ChatRoom, Queue, on_room, broadcast_line, enqueue}

-- A row of chat_history.
pub record Line : Type 0 where
  pub id : ℕ
  pub room : Text
  pub ts : ℕ
  pub line : Text

-- A row of chat_offline_msgs, in the order of the ids.
pub record Whisper : Type 0 where
  pub to_call : Text
  pub from_call : Text
  pub room : Text
  pub ts : ℕ
  pub text : Text

pub record ChatDb : Type 0 where
  pub lines : List Line
  pub last_id : ℕ
  pub held : List Whisper

-- DELETE FROM chat_history WHERE room = ? AND id NOT IN the last n: the first k lines of the room go.
unfoldable pub drop_of_room : Text → ℕ → List Line → List Line
drop_of_room room k [] = []
drop_of_room room k (l ∷ ls) =
    let less = drop_of_room room (k - 1) ls in
    let same = drop_of_room room k ls in
    if l.room =? room then (if k == 0 then l ∷ same else less) else l ∷ same

unfoldable pub count_of_room : Text → List Line → ℕ
count_of_room room [] = 0
count_of_room room (l ∷ ls) = (if l.room =? room then 1 else 0) + count_of_room room ls

-- The task behind a broadcast line: INSERT, then the trim to the configured number of lines.
unfoldable pub persist : ℕ → ℕ → Text → Text → ChatDb → ChatDb
persist history_lines now room line db =
    let row : Line = record { id = suc db.last_id; room = room; ts = now; line = line } in
    let rows = db.lines ++ row ∷ [] in
    record db {
      last_id = suc db.last_id;
      lines = drop_of_room room (count_of_room room rows - history_lines) rows;
    }

unfoldable pub find_line : ℕ → Text → List Line → Option Text
find_line i room [] = none
find_line i room (l ∷ ls) =
    let rest = find_line i room ls in if l.id == i && l.room =? room then some l.line else rest

unfoldable pub delete_line : ℕ → List Line → List Line
delete_line i [] = []
delete_line i (l ∷ ls) = let rest = delete_line i ls in if l.id == i then rest else l ∷ rest

unfoldable pub delete_room_lines : Text → List Line → List Line
delete_room_lines room [] = []
delete_room_lines room (l ∷ ls) =
    let rest = delete_room_lines room ls in if l.room =? room then rest else l ∷ rest

-- history.remove(line), where it is there
unfoldable pub forget_line : Text → List Text → List Text
forget_line line [] = []
forget_line line (h ∷ hs) = let rest = forget_line line hs in if h =? line then hs else h ∷ rest

abbrev pub forget_at : Option ℕ → Text → Chat → Chat
forget_at none line chat = chat
forget_at (some ref) line chat =
    on_room ref (λ r. record r { history = forget_line line r.history }) chat

abbrev pub deleted_line : ℕ → Text → Chat → ChatDb → Option Text → Chat × (ChatDb × Option Text)
deleted_line i room chat db none = (chat, (db, none))
deleted_line i room chat db (some line) = (
  forget_at (get chat.rooms room) line chat,
  (record db { lines = delete_line i db.lines }, some line),
)

unfoldable pub delete_message : Bool → Text → ℕ → Chat → ChatDb → Chat × (ChatDb × Option Text)
delete_message has_db room i chat db =
    if has_db then deleted_line i room chat db (find_line i room db.lines) else (chat, (db, none))

abbrev pub deletion_notice : Text → Text
deletion_notice room =
    codes "*** Room "
    ++ room
    ++ codes " has been deleted by the sysop. Use /JOIN to switch rooms. ***"

-- The sentinel for every reader.
abbrev pub end_queues : List (Text × Queue) → List (Text × Queue)
end_queues [] = []
end_queues ((call, q) ∷ members) = (call, enqueue none q) ∷ end_queues members

abbrev pub close_room : Text → ChatRoom → ChatRoom
close_room key room =
    let told : ChatRoom = broadcast_line (deletion_notice key) none room in
    record told { members = end_queues told.members }

abbrev pub closed_at : Text → Chat → Option ℕ → Chat × Bool
closed_at key chat none = (chat, false)
closed_at key chat (some ref) =
    (on_room ref (close_room key) (record chat { rooms = remove chat.rooms key }), true)

unfoldable pub delete_room : Bool → Text → Chat → ChatDb → Chat × (ChatDb × Bool)
delete_room has_db key chat db =
    let closed : Chat × Bool = closed_at key chat (get chat.rooms key) in
    if has_db
    then (closed.0, (record db { lines = delete_room_lines key db.lines }, closed.1))
    else (chat, (db, false))

unfoldable pub store_offline_msg : Bool → ℕ → Text → Text → Text → Text → ChatDb → ChatDb × Bool
store_offline_msg has_db now from to room text db =
    if has_db
    then (
      record db {
        held =
            db.held
            ++ record {
              to_call = upper to;
              from_call = upper from;
              room = room;
              ts = now;
              text = text;
            }
              ∷ [];
      },
      true,
    )
    else (db, false)

-- The whispers for a callsign, and the others.
unfoldable pub held_for : Text → List Whisper → List Whisper
held_for call [] = []
held_for call (w ∷ ws) =
    let rest = held_for call ws in if upper w.to_call =? upper call then w ∷ rest else rest

unfoldable pub held_others : Text → List Whisper → List Whisper
held_others call [] = []
held_others call (w ∷ ws) =
    let rest = held_others call ws in if upper w.to_call =? upper call then rest else w ∷ rest

-- The sender of the last whisper of a list.
abbrev pub last_sender : Whisper → List Whisper → Text
last_sender w [] = upper w.from_call
last_sender w (v ∷ vs) = last_sender v vs

abbrev pub flush_found : Text → Chat → ChatDb → List Whisper → Chat × (ChatDb × List Whisper)
flush_found call chat db [] = (chat, (db, []))
flush_found call chat db (w ∷ ws) = (
  record chat { last_whisper = put chat.last_whisper (upper call) (last_sender w ws) },
  (record db { held = held_others call db.held }, w ∷ ws),
)

-- The whispers that are shown.
unfoldable pub flush_offline_msgs : Bool → Text → Chat → ChatDb → Chat × (ChatDb × List Whisper)
flush_offline_msgs has_db call chat db =
    if has_db then flush_found call chat db (held_for call db.held) else (chat, (db, []))
