-- ===== src/Plugins/Chat/Store/Startup.antt =====
-- The start of the chat in bbs/plugins/chat/chat.py: the configured rooms, and those that have
-- lines in the database.
use bbs.Prelude.{ℕ, ◌-◌, true, List, [], ◌∷◌, if◌then◌else◌, length, drop, ◌=?◌, nat_eq, list_eq}
use bbs.Text.{Text}
use bbs.Plugins.Chat.{Chat, ChatRoom, get_or_create_room}
use bbs.Plugins.Chat.Store.{ChatDb, Line}

-- The names and the descriptions of the configuration.
unfoldable pub configured : List (Text × Text) → Chat → Chat
configured [] chat = chat
configured ((name, description) ∷ rooms) chat =
    configured rooms (get_or_create_room name description chat).1

-- A room for every name of chat_history; a repeated name finds its room.
unfoldable pub rebuilt : List Line → Chat → Chat
rebuilt [] chat = chat
rebuilt (l ∷ ls) chat = rebuilt ls (get_or_create_room l.room [] chat).1

unfoldable pub lines_of : Text → List Line → List Text
lines_of room [] = []
lines_of room (l ∷ ls) =
    let rest = lines_of room ls in if l.room =? room then l.line ∷ rest else rest

abbrev pub last_of : ℕ → List Text → List Text
last_of n xs = drop (length xs - n) xs

unfoldable pub loaded : ℕ → List Line → List ChatRoom → List ChatRoom
loaded n ls [] = []
loaded n ls (r ∷ rs) =
    record r { history_size = n; history = last_of n (lines_of r.name ls); persists = true }
    ∷ loaded n ls rs

unfoldable pub initialize : List (Text × Text) → ℕ → ChatDb → Chat
initialize defaults n db =
    let empty : Chat = record { rooms = []; heap = []; last_whisper = []; history_lines = n } in
    let named : Chat = rebuilt db.lines (configured defaults empty) in
    record named { heap = loaded n db.lines named.heap }
