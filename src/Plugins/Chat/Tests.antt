-- ===== src/Plugins/Chat/Tests.antt =====
-- Runs of the chat.
use bbs.Prelude.{
  ℕ, ◌≤◌, ◌<◌, true, false, ◌≡◌, ◌↔◌, refl, List, [], ◌∷◌, ◌++◌, none, some, arith, length,
  get_elem?, ◌=?◌, nat_eq, list_eq,
}
use bbs.Text.{Text, codes}
use bbs.Dict.{get, has}
use bbs.Plugins.Chat.{Chat, ChatRoom, new_room, private_msg, whisper_line, has_member}
use bbs.Plugins.Chat.Rooms.{
  IsBounded, RoomCall, joins, leaves, says, after_calls, after_calls-IsBounded, takes, whispered,
  private_msg-received,
}
use bbs.Plugins.Chat.History.{compact_history}
use bbs.Plugins.Chat.History.Compacted.{messages, kept, compact_history-keeps}
use bbs.Plugins.Chat.Store.{ChatDb, persist, delete_room, deletion_notice}
use bbs.Plugins.Chat.Store.Startup.{initialize}
use bbs.Plugins.Chat.Store.Deletion.{delete_room-returns}
use bbs.Plugins.Chat.Private.{ChatEnv, World}
use bbs.Plugins.Chat.Session.{Caller, Event, typed, chat_loop, entered, handle_session}
use bbs.Plugins.Chat.Session.Leaving.{handle_session-leaves}

abbrev main : ChatRoom
main = new_room (codes "main") [] 20

abbrev calls : List RoomCall
calls =
    joins (codes "K6FB")
    ∷ says (codes "10:00") (codes "K6FB") (codes "hi")
    ∷ leaves (codes "K6FB")
    ∷ []

main-IsBounded : IsBounded main
unfolding get
main-IsBounded = record { history = omega arith; queues = λ call. omega arith }

after_calls-IsBounded_example : IsBounded (after_calls calls main)
after_calls-IsBounded_example = after_calls-IsBounded calls main main-IsBounded

abbrev busy : ChatRoom
busy = after_calls (joins (codes "K6FB") ∷ joins (codes "W6ELA") ∷ []) main

private_msg-received_example :
    ((private_msg (codes "10:00") (codes "K6FB") (codes "w6ela") (codes "hi") busy).0
      ≡ takes (get busy.members (codes "W6ELA")))
    × (get
          (private_msg (codes "10:00") (codes "K6FB") (codes "w6ela") (codes "hi") busy).1.members
          (codes "K6FB")
        ≡ whispered
            (whisper_line (codes "10:00") (codes "K6FB") (codes "w6ela") (codes "hi"))
            (codes "W6ELA" =? codes "K6FB")
            (get busy.members (codes "K6FB")))
private_msg-received_example =
    private_msg-received (codes "10:00") (codes "K6FB") (codes "w6ela") (codes "hi") busy
      (codes "K6FB")

abbrev scrollback : List (ℕ × Text)
scrollback =
    (1, codes "*** K6FB joined main ***")
    ∷ (2, codes "*** W6ELA joined main ***")
    ∷ (3, codes "[10:00] K6FB: hi")
    ∷ []

compact_history-keeps_example :
    (kept (compact_history scrollback none) ≡ messages scrollback)
    × (length (compact_history scrollback none) ≤ length scrollback)
compact_history-keeps_example = compact_history-keeps scrollback none

abbrev env : ChatEnv
env = record {
  has_db = false;
  is_known_user = λ call. true;
  post_bulletin = λ from to room text. none;
}

abbrev who : Caller
who = record { callsign = codes "K6FB"; sysop = false }

abbrev no_lines : ChatDb
no_lines = record { lines = []; last_id = 0; held = [] }

abbrev one_room : Chat
one_room = record {
  rooms = (codes "main", 0) ∷ [];
  heap = record main { persists = true } ∷ [];
  last_whisper = [];
  history_lines = 20;
}

abbrev world : World
world = record { chat = one_room; db = no_lines }

abbrev events : List Event
events = typed (codes "10:00") 5 (codes "/join dx") ∷ typed (codes "10:01") 65 (codes "/quit") ∷ []

registry : (key : Text) (ref : ℕ) → get one_room.rooms key ≡ some ref → ref < length one_room.heap
unfolding get
registry key ref h = ground (arith, h)

handle_session-leaves_example :
    (has_member
        (handle_session env who events world).chat.heap
        (chat_loop env who events (entered env who world)).room
        (codes "K6FB")
      ≡ false)
    ↔ ((chat_loop env who events (entered env who world)).room ≡ (entered env who world).room)
handle_session-leaves_example = handle_session-leaves env who events world registry

found : get one_room.rooms (codes "main") ≡ some 0
unfolding get
found = refl

delete_room-returns_example :
    ((after : ChatRoom) × (get_elem? (delete_room true (codes "main") one_room no_lines).0.heap 0
        ≡ some after)
      × (after.persisted ≡ [] ++ deletion_notice (codes "main") ∷ []))
    × (has
          (initialize [] 20 (
            persist 20 99
              (codes "main")
              (deletion_notice (codes "main"))
              (delete_room true (codes "main") one_room no_lines).1.0)).rooms
          (codes "main")
        ≡ true)
delete_room-returns_example =
    delete_room-returns 20 99 [] (codes "main") one_room no_lines 0
      (record main { persists = true }) (omega arith) found refl refl
