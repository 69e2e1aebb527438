-- ===== src/Plugins/Chat/Session/Members.antt =====
-- Where a user is while a session runs, and when it has ended.
use bbs.Prelude.{
  ℕ, Bool, true, false, not, ◌&&◌, ◌≡◌, List, [], ◌∷◌, Option, none, some, arith, length,
  if◌then◌else◌, ◌=?◌, nat_eq, list_eq, ◌==◌,
}
use bbs.Text.{all_digits, Text, upper, lower, parse_int}
use bbs.Dict.{get}
use bbs.Plugins.Chat.{
  Chat, ChatRoom, on_room, has_member, join, leave, broadcast, get_or_create_room,
}
use bbs.Plugins.Chat.Store.{ChatDb, delete_message, delete_room}
use bbs.Plugins.Chat.Private.{ChatEnv, World, deliver_private_msg, name_at}
use bbs.Plugins.Chat.Session.{
  Seat, Caller, Event, typed, reader_ended, split_line, wired, join_room, say, whisper, reply_last,
  del, delroom, command, handle_line, chat_loop, is_command, is_quit, body_of, number_of,
}
use bbs.Plugins.Chat.Session.Heap.{
  length-at_room, has_member-let_in, broadcast-KeepsMembers, has-join,
}
use bbs.Plugins.Chat.Session.Keeps.{
  IsRegistry, KeepsAll, on_room-KeepsAll, get_or_create_room-KeepsAll, get_or_create_room-bound,
  wired-KeepsMembers, delete_message-KeepsAll, delete_room-KeepsAll,
}
use bbs.Plugins.Chat.Session.Delivery.{deliver-KeepsAll}

-- The registry is in order, and the user is a member of the room of the seat.
pub record IsSeated (callsign : Text) (seat : Seat) : Type 0 where
  pub registry : IsRegistry seat.world.chat
  pub inside : has_member seat.world.chat.heap seat.room (upper callsign) ≡ true

stay :
    (callsign : Text) (seat : Seat) (w : World)
    → KeepsAll seat.world.chat w.chat
    → IsSeated callsign seat
    → IsSeated callsign (record seat { world = w })
stay callsign seat w k s = record {
  registry = k.registry s.registry;
  inside = k.inside seat.room (upper callsign) s.inside;
}

-- A case distinction of the code keeps what both of its branches keep.
if-IsSeated :
    (callsign : Text) (b : Bool) (x y : Seat)
    → IsSeated callsign x
    → IsSeated callsign y
    → IsSeated callsign (if b then x else y)
if-IsSeated callsign true x y p q = p
if-IsSeated callsign false x y p q = q

join_room-IsSeated :
    (env : ChatEnv) (callsign name : Text) (seat : Seat)
    → IsSeated callsign seat
    → IsSeated callsign (join_room env callsign name seat)
unfolding join_room
join_room-IsSeated env callsign name seat s =
    let found : ℕ × Chat = get_or_create_room (lower name) [] seat.world.chat in
    let f : ChatRoom → ChatRoom = wired env.has_db found.1.history_lines in
    let ready : Chat = on_room found.0 f found.1 in
    let gone : Chat = on_room seat.room (leave callsign) ready in
    let made = get_or_create_room-KeepsAll (lower name) [] seat.world.chat in
    let bound = get_or_create_room-bound (lower name) [] seat.world.chat s.registry in
    let last : IsRegistry ready =
      (on_room-KeepsAll found.0 f found.1
          (wired-KeepsMembers env.has_db found.1.history_lines)).registry
        (made.registry s.registry) in
    let size1 = length-at_room f found.1.heap found.0 in
    let size2 = length-at_room (leave callsign) ready.heap seat.room in
    let size3 = length-at_room (join callsign) gone.heap found.0 in
    record {
      registry = λ key ref e. ground (arith, last key ref e, size2, size3);
      inside =
          has_member-let_in (join callsign) gone.heap found.0 (upper callsign) (has-join callsign)
            (omega (arith, size1, size2, bound));
    }

module _ (env : ChatEnv) (callsign : Text) where
  whisper-IsSeated :
      (ts : Text) (now : ℕ) (from dest text : Text) (seat : Seat)
      → IsSeated callsign seat
      → IsSeated callsign (whisper env ts now from dest text seat)
  whisper-IsSeated ts now from dest text seat s =
      stay callsign seat (deliver_private_msg env ts now seat.room from dest text seat.world).0
        (deliver-KeepsAll env ts now seat.room from dest text seat.world) s

  reply_last-IsSeated :
      (ts : Text) (now : ℕ) (from text : Text) (seat : Seat) (o : Option Text)
      → IsSeated callsign seat
      → IsSeated callsign (reply_last env ts now from text seat o)
  reply_last-IsSeated ts now from text seat none s = s
  reply_last-IsSeated ts now from text seat (some to) s =
      let sent : Seat = whisper env ts now from to text seat in
      if-IsSeated callsign (length to == 0) seat (if length text == 0 then seat else sent) s (
        if-IsSeated callsign (length text == 0) seat sent s
          (whisper-IsSeated ts now from to text seat s))

  say-IsSeated :
      (ts line : Text) (seat : Seat)
      → IsSeated callsign seat
      → IsSeated callsign (say ts callsign line seat)
  unfolding say
  say-IsSeated ts line seat s =
      let f : ChatRoom → ChatRoom = broadcast ts callsign line in
      stay callsign seat (record seat.world { chat = on_room seat.room f seat.world.chat })
        (on_room-KeepsAll seat.room f seat.world.chat (broadcast-KeepsMembers ts callsign line)) s

  del-IsSeated :
      (arg : Text) (seat : Seat) → IsSeated callsign seat → IsSeated callsign (del env arg seat)
  unfolding del
  del-IsSeated arg seat s =
      let room : Text = name_at seat.world.chat.heap seat.room in
      let i : ℕ = number_of (parse_int arg) in
      let done : Chat × (ChatDb × Option Text) =
        delete_message env.has_db room i seat.world.chat seat.world.db in
      let w : World = record { chat = done.0; db = done.1.0 } in
      let gone : Seat = record seat { world = w } in
      if-IsSeated callsign (length arg == 0) seat (if not (all_digits arg) then seat else gone) s (
        if-IsSeated callsign (not (all_digits arg)) seat gone s (
          stay callsign seat w
            (delete_message-KeepsAll env.has_db room i seat.world.chat seat.world.db) s))

  delroom-IsSeated :
      (arg : Text) (seat : Seat) → IsSeated callsign seat → IsSeated callsign (delroom env arg seat)
  unfolding delroom
  delroom-IsSeated arg seat s =
      let done : Chat × (ChatDb × Bool) =
        delete_room env.has_db (lower arg) seat.world.chat seat.world.db in
      let w : World = record { chat = done.0; db = done.1.0 } in
      let gone : Seat = record seat { world = w } in
      let here : Bool = lower arg =? name_at seat.world.chat.heap seat.room in
      if-IsSeated callsign (length arg == 0) seat (if here then seat else gone) s (
        if-IsSeated callsign here seat gone s (
          stay callsign seat w
            (delete_room-KeepsAll env.has_db (lower arg) seat.world.chat seat.world.db) s))

  joined-IsSeated :
      (arg : Text) (seat : Seat)
      → IsSeated callsign seat
      → IsSeated callsign (if length arg == 0 then seat else join_room env callsign arg seat)
  joined-IsSeated arg seat s =
      if-IsSeated callsign (length arg == 0) seat (join_room env callsign arg seat) s
        (join_room-IsSeated env callsign arg seat s)

module _ (env : ChatEnv) (who : Caller) where
  command-IsSeated :
      (ts : Text) (now : ℕ) (line : Text) (seat : Seat)
      → IsSeated who.callsign seat
      → IsSeated who.callsign (command env who ts now line seat)
  unfolding command
  command-IsSeated ts now line seat s =
      let arg : Text = (split_line line).arg in
      let rest : Text = (split_line line).rest in
      let messaged : IsSeated who.callsign (
          if length rest == 0
          then seat
          else whisper env ts now who.callsign (upper arg) rest seat) =
        if-IsSeated who.callsign (length rest == 0) seat _ s
          (whisper-IsSeated env who.callsign ts now who.callsign (upper arg) rest seat s) in
      let replied =
        reply_last-IsSeated env who.callsign ts now who.callsign (body_of line) seat
          (get seat.world.chat.last_whisper (upper who.callsign)) s in
      let p = who.callsign in
      if-IsSeated p _ _ _ messaged (
        if-IsSeated p _ _ _ replied (
          if-IsSeated p _ _ _ (joined-IsSeated env p arg seat s) (
            if-IsSeated p _ _ _ (del-IsSeated env p arg seat s)
              (if-IsSeated p _ _ _ (delroom-IsSeated env p arg seat s) s))))

  -- Whatever a user types, the user is a member of the room of the seat.
  pub chat_loop-IsSeated :
      (events : List Event) (seat : Seat)
      → IsSeated who.callsign seat
      → IsSeated who.callsign (chat_loop env who events seat)
  unfolding chat_loop handle_line
  chat_loop-IsSeated [] seat s = s
  chat_loop-IsSeated (reader_ended ∷ events) seat s = s
  chat_loop-IsSeated (typed ts now line ∷ events) seat s =
      if-IsSeated who.callsign (is_command line && is_quit line) seat _ s (
        chat_loop-IsSeated events (handle_line env who ts now line seat) (
          if-IsSeated who.callsign (length line == 0) seat _ s (
            if-IsSeated who.callsign (is_command line) _ _ (command-IsSeated ts now line seat s)
              (say-IsSeated env who.callsign ts line seat s))))
