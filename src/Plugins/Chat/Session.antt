-- ===== src/Plugins/Chat/Session.antt =====
-- A chat session of bbs/plugins/chat/chat.py: the lines that a user types, and the end of the
-- reader task. What is printed, other than the report on a whisper, is left out.
pub mod Heap
pub mod Keeps
pub mod Delivery
pub mod Members
pub mod Leaving
use bbs.Prelude.{
  ℕ, zero, suc, Bool, true, false, not, ◌&&◌, List, [], ◌∷◌, ◌++◌, Option, none, some,
  if◌then◌else◌, ◌==◌, ◌=?◌, nat_eq, list_eq, length,
}
use bbs.Text.{span_word, all_digits, Text, codes, upper, lower, lstrip, parse_int, is_digit}
use bbs.Dict.{Dict, get}
use bbs.Plugins.Chat.{Chat, ChatRoom, join, leave, broadcast, on_room, get_or_create_room}
use bbs.Plugins.Chat.Store.{ChatDb, delete_message, delete_room, flush_offline_msgs}
use bbs.Plugins.Chat.Private.{ChatEnv, World, Told, deliver_private_msg, name_at}

-- line.split(None, 2)
pub record Parts : Type 0 where
  pub cmd : Text
  pub arg : Text
  pub rest : Text

unfoldable pub split_line : Text → Parts
unfolding span_word lstrip
split_line line =
    let first : Text × Text = span_word (lstrip line) in
    let second : Text × Text = span_word (lstrip first.1) in
    record { cmd = first.0; arg = second.0; rest = lstrip second.1 }

-- line.split(None, 1)[1], or nothing
abbrev pub body_of : Text → Text
body_of line = lstrip (span_word (lstrip line)).1

-- The object of the room that the user is in.
pub record Seat : Type 0 where
  pub room : ℕ
  pub world : World

abbrev pub with_chat : Seat → Chat → Seat
with_chat seat chat = record seat { world = record seat.world { chat = chat } }

-- A line at a time of the day and in seconds, or the end of the reader after the room was deleted.
pub data Event : Type 0 where
  typed : Text → ℕ → Text → Event
  reader_ended : Event

pub record Caller : Type 0 where
  pub callsign : Text
  pub sysop : Bool

-- A room that a user made gets the configured size and the persistence.
abbrev pub wired : Bool → ℕ → ChatRoom → ChatRoom
wired has_db lines room =
    if not room.persists && has_db
    then record room { history_size = lines; persists = true }
    else room

unfoldable pub join_room : ChatEnv → Text → Text → Seat → Seat
join_room env callsign name seat =
    let found : ℕ × Chat = get_or_create_room (lower name) [] seat.world.chat in
    let ready : Chat = on_room found.0 (wired env.has_db found.1.history_lines) found.1 in
    let gone : Chat = on_room seat.room (leave callsign) ready in
    record (with_chat seat (on_room found.0 (join callsign) gone)) { room = found.0 }

unfoldable pub say : Text → Text → Text → Seat → Seat
say ts callsign line seat =
    with_chat seat (on_room seat.room (broadcast ts callsign line) seat.world.chat)

abbrev pub whisper : ChatEnv → Text → ℕ → Text → Text → Text → Seat → Seat
whisper env ts now from dest text seat = record seat {
  world = (deliver_private_msg env ts now seat.room from dest text seat.world).0;
}

-- /R without anybody to answer, or without a text, only prints.
abbrev pub reply_last : ChatEnv → Text → ℕ → Text → Text → Seat → Option Text → Seat
reply_last env ts now from text seat none = seat
reply_last env ts now from text seat (some to) =
    if length to == 0
    then seat
    else if length text == 0
    then seat
    else whisper env ts now from to text seat

abbrev pub number_of : Option ℕ → ℕ
number_of none = 0
number_of (some n) = n

unfoldable pub del : ChatEnv → Text → Seat → Seat
del env arg seat =
    let done : Chat × (ChatDb × Option Text) =
      delete_message env.has_db (name_at seat.world.chat.heap seat.room) (number_of (parse_int arg))
        seat.world.chat seat.world.db in
    if length arg == 0
    then seat
    else if not (all_digits arg)
    then seat
    else record seat { world = record { chat = done.0; db = done.1.0 } }

unfoldable pub delroom : ChatEnv → Text → Seat → Seat
delroom env arg seat =
    let done : Chat × (ChatDb × Bool) =
      delete_room env.has_db (lower arg) seat.world.chat seat.world.db in
    if length arg == 0
    then seat
    else if lower arg =? name_at seat.world.chat.heap seat.room
    then seat
    else record seat { world = record { chat = done.0; db = done.1.0 } }

-- One command other than /QUIT; those that only print, and unknown ones, change nothing.
unfoldable pub command : ChatEnv → Caller → Text → ℕ → Text → Seat → Seat
command env who ts now line seat =
    let parts : Parts = split_line line in
    let cmd = upper parts.cmd in
    let messaged =
      if length parts.rest == 0
      then seat
      else whisper env ts now who.callsign (upper parts.arg) parts.rest seat in
    let replied =
      reply_last env ts now who.callsign (body_of line) seat
        (get seat.world.chat.last_whisper (upper who.callsign)) in
    let moved = if length parts.arg == 0 then seat else join_room env who.callsign parts.arg seat in
    let deleted = del env parts.arg seat in
    let closed = delroom env parts.arg seat in
    if cmd =? codes "/MSG"
    then messaged
    else if cmd =? codes "/R"
    then replied
    else if cmd =? codes "/JOIN"
    then moved
    else if cmd =? codes "/DEL" && who.sysop
    then deleted
    else if cmd =? codes "/DELROOM" && who.sysop
    then closed
    else seat

abbrev pub is_quit : Text → Bool
is_quit line = upper (split_line line).cmd =? codes "/QUIT"

abbrev pub is_command : Text → Bool
is_command [] = false
is_command (c ∷ s) = c == 47

-- What a line does: a command, or something to say; a bare Enter does nothing.
unfoldable pub handle_line : ChatEnv → Caller → Text → ℕ → Text → Seat → Seat
handle_line env who ts now line seat =
    if length line == 0
    then seat
    else if is_command line
    then command env who ts now line seat
    else say ts who.callsign line seat

-- The loop until /QUIT, the end of the reader, or the end of the input.
unfoldable pub chat_loop : ChatEnv → Caller → List Event → Seat → Seat
chat_loop env who [] seat = seat
chat_loop env who (reader_ended ∷ events) seat = seat
chat_loop env who (typed ts now line ∷ events) seat =
    let rest = chat_loop env who events (handle_line env who ts now line seat) in
    if is_command line && is_quit line then seat else rest

-- The first room of the registry, or a new one.
abbrev pub first_room : Chat → Dict Text ℕ → ℕ × Chat
first_room chat [] = get_or_create_room (codes "main") [] chat
first_room chat ((key, ref) ∷ rooms) = (ref, chat)

abbrev pub default_room : Chat → ℕ × Chat
default_room chat = first_room chat chat.rooms

abbrev pub entered : ChatEnv → Caller → World → Seat
entered env who w =
    let first : ℕ × Chat = default_room w.chat in
    let inside : Chat = on_room first.0 (join who.callsign) first.1 in
    let shown = flush_offline_msgs env.has_db who.callsign inside w.db in
    record { room = first.0; world = record { chat = shown.0; db = shown.1.0 } }

-- The whole session. Its last step leaves the room that was entered first, whatever room the user
-- is in by then.
unfoldable pub handle_session : ChatEnv → Caller → List Event → World → World
handle_session env who events w =
    let start : Seat = entered env who w in
    let final : Seat = chat_loop env who events start in
    record final.world { chat = on_room start.room (leave who.callsign) final.world.chat }
