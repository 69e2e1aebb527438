-- ===== src/Plugins/Chat.antt =====
-- bbs/plugins/chat/chat.py: the rooms. The registry leads from a key to a room object, and the
-- heap holds the objects, since a session keeps its room after the registry has dropped it. The
-- lines handed to the persistence task are a field of the room.
pub mod Rooms
pub mod History
pub mod Store
pub mod Private
pub mod Session
mod Tests
use bbs.Prelude.{
  ℕ, ◌+◌, zero, suc, Bool, true, false, ◌&&◌, not, List, [], ◌∷◌, ◌++◌, Option, none, some, ltb,
  if◌then◌else◌, length, drop, get_elem?, set, ◌=?◌, nat_eq, list_eq,
}
use bbs.Text.{Text, codes, upper, lower}
use bbs.Dict.{Dict, get, has, put, remove}

-- An asyncio.Queue; None is the sentinel of a deleted room.
abbrev pub Queue : Type 0
Queue = List (Option Text)

abbrev pub queue_size : ℕ
queue_size = 100

pub record ChatRoom : Type 0 where
  pub name : Text
  pub description : Text
  pub members : Dict Text Queue
  pub history : List Text
  pub history_size : ℕ
  pub persists : Bool
  pub persisted : List Text

-- The rooms by key, the room objects, and the sender who whispered to a callsign last.
pub record Chat : Type 0 where
  pub rooms : Dict Text ℕ
  pub heap : List ChatRoom
  pub last_whisper : Dict Text Text
  pub history_lines : ℕ

-- q.put_nowait(x), where a full queue drops it
unfoldable pub enqueue : Option Text → Queue → Queue
enqueue x q = if ltb (length q) queue_size then q ++ x ∷ [] else q

-- `exclude and call == exclude.upper()`
abbrev pub excluded : Option Text → Text → Bool
excluded none call = false
excluded (some e) call = not (length e =? 0) && call =? upper e

unfoldable pub deliver_to : Text → Option Text → Dict Text Queue → Dict Text Queue
deliver_to line exclude [] = []
deliver_to line exclude ((call, q) ∷ members) =
    (call, if excluded exclude call then q else enqueue (some line) q)
    ∷ deliver_to line exclude members

-- The history grows by a line, and gives one up if it is too long then.
unfoldable pub remember : Text → ℕ → List Text → List Text
remember line size history =
    let longer = history ++ line ∷ [] in if ltb size (length longer) then drop 1 longer else longer

unfoldable pub broadcast_line : Text → Option Text → ChatRoom → ChatRoom
broadcast_line line exclude room = record room {
  history = remember line room.history_size room.history;
  persisted = if room.persists then room.persisted ++ line ∷ [] else room.persisted;
  members = deliver_to line exclude room.members;
}

abbrev pub joined_line : Text → Text → Text
joined_line call name = codes "*** " ++ call ++ codes " joined " ++ name ++ codes " ***"

abbrev pub left_line : Text → Text → Text
left_line call name = codes "*** " ++ call ++ codes " left " ++ name ++ codes " ***"

unfoldable pub join : Text → ChatRoom → ChatRoom
join callsign room =
    broadcast_line (joined_line callsign room.name) (some callsign)
      (record room { members = put room.members (upper callsign) [] })

unfoldable pub leave : Text → ChatRoom → ChatRoom
leave callsign room =
    broadcast_line (left_line callsign room.name) (some callsign)
      (record room { members = remove room.members (upper callsign) })

-- `ts` is the time of the day.
abbrev pub said_line : Text → Text → Text → Text
said_line ts callsign text = codes "[" ++ ts ++ codes "] " ++ callsign ++ codes ": " ++ text

unfoldable pub broadcast : Text → Text → Text → ChatRoom → ChatRoom
broadcast ts callsign text room = broadcast_line (said_line ts callsign text) none room

abbrev pub whisper_line : Text → Text → Text → Text → Text
whisper_line ts from to text =
    codes "[" ++ ts ++ codes "] *" ++ from ++ codes "→" ++ to ++ codes "*: " ++ text

-- A recipient who is not in the room, or whose queue is full, is reported back.
abbrev pub put_whisper : Text → Text → ChatRoom → Option Queue → Bool × ChatRoom
put_whisper line to room none = (false, room)
put_whisper line to room (some q) =
    if ltb (length q) queue_size
    then (true, record room { members = put room.members to (q ++ some line ∷ []) })
    else (false, room)

unfoldable pub private_msg : Text → Text → Text → Text → ChatRoom → Bool × ChatRoom
private_msg ts from to text room =
    put_whisper (whisper_line ts from to text) (upper to) room (get room.members (upper to))

abbrev pub member_count : ChatRoom → ℕ
member_count room = length room.members

-- ChatRoom(name, description)
abbrev pub new_room : Text → Text → ℕ → ChatRoom
new_room name description size = record {
  name = lower name;
  description = description;
  members = [];
  history = [];
  history_size = size;
  persists = false;
  persisted = [];
}

-- The room object, and the registry that has it.
abbrev pub found_or_made : Text → Text → Chat → Option ℕ → ℕ × Chat
found_or_made name description chat (some ref) = (ref, chat)
found_or_made name description chat none = (
  length chat.heap,
  record chat {
    rooms = put chat.rooms (lower name) (length chat.heap);
    heap = chat.heap ++ new_room name description chat.history_lines ∷ [];
  },
)

unfoldable pub get_or_create_room : Text → Text → Chat → ℕ × Chat
get_or_create_room name description chat =
    found_or_made name description chat (get chat.rooms (lower name))

-- A call of a room's method.
abbrev pub at_room : (ChatRoom → ChatRoom) → List ChatRoom → ℕ → List ChatRoom
at_room f [] i = []
at_room f (r ∷ rs) zero = f r ∷ rs
at_room f (r ∷ rs) (suc i) = r ∷ at_room f rs i

abbrev pub on_room : ℕ → (ChatRoom → ChatRoom) → Chat → Chat
on_room ref f chat = record chat { heap = at_room f chat.heap ref }

abbrev pub has_member : List ChatRoom → ℕ → Text → Bool
has_member [] i call = false
has_member (r ∷ rs) zero call = has r.members call
has_member (r ∷ rs) (suc i) call = has_member rs i call

-- The first room of the registry that the callsign sits in.
unfoldable pub first_with : Text → List ChatRoom → Dict Text ℕ → Option ℕ
first_with call heap [] = none
first_with call heap ((key, ref) ∷ rooms) =
    let rest = first_with call heap rooms in if has_member heap ref call then some ref else rest

unfoldable pub find_member_room : Text → Chat → Option ℕ
find_member_room callsign chat = first_with (upper callsign) chat.heap chat.rooms
