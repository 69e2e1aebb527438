-- ===== src/Plugins/Chat/Session/Keeps.antt =====
-- What the changes of the chat keep: the registry, and everybody in their rooms.
use bbs.Prelude.{
  ℕ, ◌<◌, Bool, true, false, ◌≡◌, refl, [], ◌∷◌, Option, none, some, arith, length, length-append,
  nat_eq, list_eq,
}
use bbs.Text.{Text, lower}
use bbs.Dict.{get, remove}
use bbs.Dict.Laws.{get-put, get-remove}
use bbs.Plugins.Chat.{
  Chat, ChatRoom, on_room, has_member, get_or_create_room, found_or_made, new_room,
}
use bbs.Plugins.Chat.Store.{
  ChatDb, delete_message, delete_room, find_line, deleted_line, closed_at, close_room, forget_line,
  forget_at,
}
use bbs.Plugins.Chat.Private.{try_live}
use bbs.Plugins.Chat.Session.{wired}
use bbs.Plugins.Chat.Session.Heap.{
  KeepsMembers, length-at_room, has_member-keeps, has_member-append, close_room-KeepsMembers,
  whisper_at-has, length-whisper_at,
}

-- Every room of the registry is an object of the heap.
abbrev pub IsRegistry : Chat → Type 0
IsRegistry chat = (key : Text) (ref : ℕ) → get chat.rooms key ≡ some ref → ref < length chat.heap

-- A change of the chat that keeps the registry in order and everybody where they are.
pub record KeepsAll (a b : Chat) : Type 0 where
  pub registry : IsRegistry a → IsRegistry b
  pub inside :
      (ref : ℕ) (call : Text)
      → has_member a.heap ref call ≡ true
      → has_member b.heap ref call ≡ true

pub KeepsAll-refl : (a : Chat) → KeepsAll a a
KeepsAll-refl a = record { registry = λ h. h; inside = λ ref call h. h }

pub KeepsAll-trans : (a b c : Chat) → KeepsAll a b → KeepsAll b c → KeepsAll a c
KeepsAll-trans a b c p q = record {
  registry = λ h. q.registry (p.registry h);
  inside = λ ref call h. q.inside ref call (p.inside ref call h);
}

pub on_room-KeepsAll :
    (i : ℕ) (f : ChatRoom → ChatRoom) (chat : Chat)
    → KeepsMembers f
    → KeepsAll chat (on_room i f chat)
on_room-KeepsAll i f chat k = record {
  registry = λ h key ref e. rw (length-at_room f chat.heap i) (h key ref e);
  inside = λ ref call h. rw (has_member-keeps f chat.heap i ref call k) h;
}

found_or_made-KeepsAll :
    (name description : Text) (chat : Chat) (o : Option ℕ)
    → KeepsAll chat (found_or_made name description chat o).1
found_or_made-KeepsAll name description chat (some ref) = KeepsAll-refl chat
found_or_made-KeepsAll name description chat none =
    let made : ChatRoom = new_room name description chat.history_lines in
    record {
      registry = λ h key ref d. ground (
        arith,
        get-put chat.rooms (lower name) key (length chat.heap),
        length-append chat.heap (made ∷ []),
        h key ref,
        d,
      );
      inside = λ ref call h. has_member-append chat.heap (made ∷ []) ref call h;
    }

pub get_or_create_room-KeepsAll :
    (name description : Text) (chat : Chat)
    → KeepsAll chat (get_or_create_room name description chat).1
unfolding get_or_create_room
get_or_create_room-KeepsAll name description chat =
    found_or_made-KeepsAll name description chat (get chat.rooms (lower name))

found_or_made-bound :
    (name description : Text) (chat : Chat) (o : Option ℕ)
    → IsRegistry chat
    → get chat.rooms (lower name) ≡ o
    → (found_or_made name description chat o).0
      < length (found_or_made name description chat o).1.heap
found_or_made-bound name description chat (some ref) h e = h (lower name) ref e
found_or_made-bound name description chat none h e =
    omega (arith, length-append chat.heap (new_room name description chat.history_lines ∷ []))

pub get_or_create_room-bound :
    (name description : Text) (chat : Chat)
    → IsRegistry chat
    → (get_or_create_room name description chat).0
      < length (get_or_create_room name description chat).1.heap
unfolding get_or_create_room
get_or_create_room-bound name description chat h =
    found_or_made-bound name description chat (get chat.rooms (lower name)) h refl

pub wired-KeepsMembers : (has_db : Bool) (lines : ℕ) → KeepsMembers (wired has_db lines)
wired-KeepsMembers has_db lines r call = ground arith

pub try_live-KeepsAll :
    (ts from to text : Text) (chat : Chat) (target : Option ℕ)
    → KeepsAll chat (try_live ts from to text chat target).1
unfolding try_live
try_live-KeepsAll ts from to text chat none = KeepsAll-refl chat
try_live-KeepsAll ts from to text chat (some i) = record {
  registry = λ h key ref e. rw (length-whisper_at ts from to text chat.heap i) (h key ref e);
  inside = λ ref call h. rw (whisper_at-has ts from to text chat.heap i ref call) h;
}

forget_at-KeepsAll :
    (o : Option ℕ) (line : Text) (chat : Chat) → KeepsAll chat (forget_at o line chat)
forget_at-KeepsAll none line chat = KeepsAll-refl chat
forget_at-KeepsAll (some ref) line chat =
    on_room-KeepsAll ref (λ r. record r { history = forget_line line r.history }) chat
      (λ r call. refl)

deleted_line-KeepsAll :
    (i : ℕ) (room : Text) (chat : Chat) (db : ChatDb) (o : Option Text)
    → KeepsAll chat (deleted_line i room chat db o).0
deleted_line-KeepsAll i room chat db none = KeepsAll-refl chat
deleted_line-KeepsAll i room chat db (some line) =
    forget_at-KeepsAll (get chat.rooms room) line chat

pub delete_message-KeepsAll :
    (has_db : Bool) (room : Text) (i : ℕ) (chat : Chat) (db : ChatDb)
    → KeepsAll chat (delete_message has_db room i chat db).0
unfolding delete_message
delete_message-KeepsAll true room i chat db =
    deleted_line-KeepsAll i room chat db (find_line i room db.lines)
delete_message-KeepsAll false room i chat db = KeepsAll-refl chat

closed_at-KeepsAll :
    (key : Text) (chat : Chat) (o : Option ℕ) → KeepsAll chat (closed_at key chat o).0
closed_at-KeepsAll key chat none = KeepsAll-refl chat
closed_at-KeepsAll key chat (some ref) =
    KeepsAll-trans chat (record chat { rooms = remove chat.rooms key })
      (on_room ref (close_room key) (record chat { rooms = remove chat.rooms key }))
      (record {
        registry = λ h k r e. ground (arith, get-remove chat.rooms key k, h k r, e);
        inside = λ r call h. h;
      })
      (on_room-KeepsAll ref (close_room key) _ (close_room-KeepsMembers key))

pub delete_room-KeepsAll :
    (has_db : Bool) (key : Text) (chat : Chat) (db : ChatDb)
    → KeepsAll chat (delete_room has_db key chat db).0
unfolding delete_room
delete_room-KeepsAll true key chat db = closed_at-KeepsAll key chat (get chat.rooms key)
delete_room-KeepsAll false key chat db = KeepsAll-refl chat
