-- ===== src/Plugins/Chat/Rooms.antt =====
-- The rooms of the chat: who gets a line, and what is bounded.
use bbs.Prelude.{
  ℕ, ◌≤◌, ◌<◌, Bool, true, false, ◌≡◌, refl, List, [], ◌∷◌, ◌++◌, Option, none, some, arith, ltb,
  length, length-append, length-drop, if◌then◌else◌, ◌=?◌, nat_eq, list_eq, list_beq_iff,
  Bool-cases, ltb→lt, inl, inr, Option-cases,
}
use bbs.Text.{Text, upper}
use bbs.Dict.{Dict, get}
use bbs.Dict.Laws.{get-put, get-remove}
use bbs.Plugins.Chat.{
  ChatRoom, Queue, queue_size, enqueue, excluded, deliver_to, remember, broadcast_line, join, leave,
  broadcast, private_msg, put_whisper, joined_line, left_line, said_line, whisper_line,
}

abbrev pub size_of : Option Queue → ℕ
size_of none = 0
size_of (some q) = length q

-- The queues of the members hold a hundred entries at most, and the history its size.
pub record IsBounded (room : ChatRoom) : Type 0 where
  pub history : length room.history ≤ room.history_size
  pub queues : (call : Text) → size_of (get room.members call) ≤ queue_size

length-enqueue :
    (x : Option Text) (q : Queue) → length q ≤ queue_size → length (enqueue x q) ≤ queue_size
unfolding enqueue
length-enqueue x q h = ground (arith, length-append q (x ∷ []), h)

length-remember :
    (line : Text) (size : ℕ) (history : List Text)
    → length history ≤ size
    → length (remember line size history) ≤ size
unfolding remember
length-remember line size history h =
    ground (arith, length-append history (line ∷ []), length-drop 1 (history ++ line ∷ []))

-- What a member's queue gets from a line.
abbrev pub received : Text → Bool → Option Queue → Option Queue
received line is_out none = none
received line is_out (some q) = some (if is_out then q else enqueue (some line) q)

pub get-deliver_to :
    (line : Text) (exclude : Option Text) (members : Dict Text Queue) (call : Text)
    → get (deliver_to line exclude members) call
      ≡ received line (excluded exclude call) (get members call)
unfolding deliver_to get
get-deliver_to line exclude [] call = refl
get-deliver_to line exclude ((c, q) ∷ members) call =
    ground (arith, list_beq_iff c call, get-deliver_to line exclude members call)

size-received :
    (line : Text) (is_out : Bool) (o : Option Queue)
    → size_of o ≤ queue_size
    → size_of (received line is_out o) ≤ queue_size
size-received line is_out none h = h
size-received line true (some q) h = h
size-received line false (some q) h = length-enqueue (some line) q h

broadcast_line-IsBounded :
    (line : Text) (exclude : Option Text) (room : ChatRoom)
    → IsBounded room
    → IsBounded (broadcast_line line exclude room)
unfolding broadcast_line
broadcast_line-IsBounded line exclude room b = record {
  history = length-remember line room.history_size room.history b.history;
  queues = λ call.
      rw (get-deliver_to line exclude room.members call)
        (size-received line (excluded exclude call) (get room.members call) (b.queues call));
}

put_whisper-IsBounded :
    (line to : Text) (room : ChatRoom) (o : Option Queue)
    → IsBounded room
    → size_of o ≤ queue_size
    → IsBounded (put_whisper line to room o).1
put_whisper-IsBounded line to room none b h = b
put_whisper-IsBounded line to room (some q) b h = elim (Bool-cases (ltb (length q) queue_size)) [
  | inr e ↦ rw e b
  | inl e ↦
      let short : length q < queue_size = ltb→lt (length q) queue_size e in
      let longer : List (Option Text) = q ++ some line ∷ [] in
      rw e (record {
        history = b.history;
        queues = λ c. ground (
          arith,
          short,
          get-put room.members to c longer,
          length-append q (some line ∷ []),
          b.queues c,
        );
      })
]

-- The calls of a room's methods.
pub data RoomCall : Type 0 where
  joins leaves : Text → RoomCall
  says : Text → Text → Text → RoomCall
  whispers : Text → Text → Text → Text → RoomCall

abbrev pub called : RoomCall → ChatRoom → ChatRoom
called (joins call) room = join call room
called (leaves call) room = leave call room
called (says ts call text) room = broadcast ts call text room
called (whispers ts from to text) room = (private_msg ts from to text room).1

abbrev pub after_calls : List RoomCall → ChatRoom → ChatRoom
after_calls [] room = room
after_calls (c ∷ cs) room = after_calls cs (called c room)

called-IsBounded : (c : RoomCall) (room : ChatRoom) → IsBounded room → IsBounded (called c room)
unfolding join leave broadcast private_msg
called-IsBounded (joins call) room b =
    broadcast_line-IsBounded (joined_line call room.name) (some call) _ (record {
      history = b.history;
      queues = λ c. ground (arith, get-put room.members (upper call) c [], b.queues c);
    })
called-IsBounded (leaves call) room b =
    broadcast_line-IsBounded (left_line call room.name) (some call) _ (record {
      history = b.history;
      queues = λ c. ground (arith, get-remove room.members (upper call) c, b.queues c);
    })
called-IsBounded (says ts call text) room b =
    broadcast_line-IsBounded (said_line ts call text) none room b
called-IsBounded (whispers ts from to text) room b =
    put_whisper-IsBounded (whisper_line ts from to text) (upper to) room
      (get room.members (upper to)) b (b.queues (upper to))

-- Whatever is called, no queue of a room holds more than a hundred entries, and its history keeps
-- its size.
pub after_calls-IsBounded :
    (cs : List RoomCall) (room : ChatRoom) → IsBounded room → IsBounded (after_calls cs room)
after_calls-IsBounded [] room b = b
after_calls-IsBounded (c ∷ cs) room b =
    after_calls-IsBounded cs (called c room) (called-IsBounded c room b)

-- What is said in a room is put into the queue of every member, and only there; a full queue drops
-- it.
pub broadcast-received :
    (ts callsign text : Text) (room : ChatRoom) (call : Text)
    → get (broadcast ts callsign text room).members call
      ≡ received (said_line ts callsign text) false (get room.members call)
unfolding broadcast broadcast_line
broadcast-received ts callsign text room call =
    get-deliver_to (said_line ts callsign text) none room.members call

-- The queue of a member behind a whisper to `to`.
abbrev pub whispered : Text → Bool → Option Queue → Option Queue
whispered line for_me none = none
whispered line for_me (some q) = some (if for_me then enqueue (some line) q else q)

-- Whether a queue takes one more entry.
abbrev pub takes : Option Queue → Bool
takes none = false
takes (some q) = ltb (length q) queue_size

put_whisper-outcome :
    (line to : Text) (room : ChatRoom) (call : Text) (o : Option Queue)
    → get room.members to ≡ o
    → ((put_whisper line to room o).0 ≡ takes o)
      × (get (put_whisper line to room o).1.members call
          ≡ whispered line (to =? call) (get room.members call))
unfolding enqueue
put_whisper-outcome line to room call none h = (
  refl,
  elim (Option-cases (get room.members call)) [
    | inl e ↦ rw e refl
    | inr (q, e) ↦
        let other : (to =? call) ≡ false = ground (arith, h, e, list_beq_iff to call) in
        rw (e, other) refl
  ],
)
put_whisper-outcome line to room call (some q) h =
    let longer : List (Option Text) = q ++ some line ∷ [] in
    elim (Bool-cases (ltb (length q) queue_size)) [
      | inl e ↦ (
        rw e refl,
        rw e (elim (Option-cases (get room.members call)) [
          | inl d ↦
              let other : (to =? call) ≡ false = ground (arith, h, d, list_beq_iff to call) in
              ground (arith, d, other, get-put room.members to call longer)
          | inr (old, d) ↦
              ground (arith, d, h, e, list_beq_iff to call, get-put room.members to call longer)
        ]),
      )
      | inr e ↦ (
        rw e refl,
        rw e (elim (Option-cases (get room.members call)) [
          | inl d ↦ rw d refl
          | inr (old, d) ↦ ground (arith, d, h, e, list_beq_iff to call)
        ]),
      )
    ]

-- A whisper is reported as delivered exactly if its recipient is in the room and the queue has
-- place, and then it is put into that queue and no other.
pub private_msg-received :
    (ts from to text : Text) (room : ChatRoom) (call : Text)
    → ((private_msg ts from to text room).0 ≡ takes (get room.members (upper to)))
      × (get (private_msg ts from to text room).1.members call
          ≡ whispered (whisper_line ts from to text) (upper to =? call) (get room.members call))
unfolding private_msg
private_msg-received ts from to text room call =
    put_whisper-outcome (whisper_line ts from to text) (upper to) room call
      (get room.members (upper to)) refl
