-- ===== src/Plugins/Chat/Session/Leaving.antt =====
-- Where a user is when a chat session has ended.
use bbs.Prelude.{
  ℕ, ◌<◌, Bool, true, false, ◌≡◌, ◌≢◌, ◌↔◌, refl, sym, ap, ◌∙◌, List, [], ◌∷◌, some, arith, length,
  nat_eq, list_eq, ==_iff, Bool-cases, inl, inr, ◌==◌, true_ne_false, beq_refl,
}
use bbs.Text.{Text, codes, upper}
use bbs.Dict.{Dict, get}
use bbs.Plugins.Chat.{Chat, on_room, has_member, join, leave}
use bbs.Plugins.Chat.Store.{ChatDb, flush_offline_msgs, held_for, flush_found, Whisper}
use bbs.Plugins.Chat.Private.{ChatEnv, World}
use bbs.Plugins.Chat.Session.{
  Seat, Caller, Event, chat_loop, default_room, first_room, entered, handle_session,
}
use bbs.Plugins.Chat.Session.Heap.{
  length-at_room, has_member-other, has_member-let_in, has_member-let_out, has-join, has-leave,
}
use bbs.Plugins.Chat.Session.Keeps.{
  IsRegistry, get_or_create_room-KeepsAll, get_or_create_room-bound,
}
use bbs.Plugins.Chat.Session.Members.{IsSeated, chat_loop-IsSeated}

flush_found-heap :
    (call : Text) (chat : Chat) (db : ChatDb) (ws : List Whisper)
    → ((flush_found call chat db ws).0.heap ≡ chat.heap)
      × ((flush_found call chat db ws).0.rooms ≡ chat.rooms)
flush_found-heap call chat db [] = (refl, refl)
flush_found-heap call chat db (w ∷ ws) = (refl, refl)

flush-heap :
    (has_db : Bool) (call : Text) (chat : Chat) (db : ChatDb)
    → ((flush_offline_msgs has_db call chat db).0.heap ≡ chat.heap)
      × ((flush_offline_msgs has_db call chat db).0.rooms ≡ chat.rooms)
unfolding flush_offline_msgs
flush-heap true call chat db = flush_found-heap call chat db (held_for call db.held)
flush-heap false call chat db = (refl, refl)

first_room-bound :
    (chat : Chat) (rooms : Dict Text ℕ)
    → IsRegistry chat
    → ((key : Text) (ref : ℕ) → get rooms key ≡ some ref → ref < length chat.heap)
    → IsRegistry (first_room chat rooms).1
      × ((first_room chat rooms).0 < length (first_room chat rooms).1.heap)
unfolding get
first_room-bound chat [] h k = (
  (get_or_create_room-KeepsAll (codes "main") [] chat).registry h,
  get_or_create_room-bound (codes "main") [] chat h,
)
first_room-bound chat ((key, ref) ∷ rooms) h k = (h, k key ref (ground (arith, beq_refl key)))

entered-IsSeated :
    (env : ChatEnv) (who : Caller) (w : World)
    → IsRegistry w.chat
    → IsSeated who.callsign (entered env who w)
entered-IsSeated env who w h =
    let first : ℕ × Chat = default_room w.chat in
    let (ordered, bound) = first_room-bound w.chat w.chat.rooms h h in
    let inside : Chat = on_room first.0 (join who.callsign) first.1 in
    let (same_heap, same_rooms) = flush-heap env.has_db who.callsign inside w.db in
    let size = length-at_room (join who.callsign) first.1.heap first.0 in
    record {
      registry = λ key ref e.
          rw (same_heap, size) (ordered key ref (ap (λ r. get r key) (sym same_rooms) ∙ e));
      inside = rw same_heap (
          has_member-let_in (join who.callsign) first.1.heap first.0 (upper who.callsign)
            (has-join who.callsign) bound);
    }

-- A session, whatever is typed in it, ends with its user out of the room that the user is in at
-- the end of the loop exactly if that is the room that was entered first.
pub handle_session-leaves :
    (env : ChatEnv) (who : Caller) (events : List Event) (w : World)
    → IsRegistry w.chat
    → (has_member
          (handle_session env who events w).chat.heap
          (chat_loop env who events (entered env who w)).room
          (upper who.callsign)
        ≡ false)
      ↔ ((chat_loop env who events (entered env who w)).room ≡ (entered env who w).room)
unfolding handle_session
handle_session-leaves env who events w h =
    let start : Seat = entered env who w in
    let final : Seat = chat_loop env who events start in
    let there = (chat_loop-IsSeated env who events start (entered-IsSeated env who w h)).inside in
    let out =
      has_member-let_out (leave who.callsign) final.world.chat.heap start.room (upper who.callsign)
        (has-leave who.callsign) in
    (
      λ e. elim (Bool-cases (start.room == final.room)) [
        | inl same ↦ sym ((==_iff start.room final.room).0 same)
        | inr differ ↦
            let apart : start.room ≢ final.room =
              λ p. true_ne_false (sym ((==_iff start.room final.room).1 p) ∙ differ) in
            absurd (
              true_ne_false (
                sym there
                ∙ (sym (
                      has_member-other (leave who.callsign) final.world.chat.heap start.room
                        final.room (upper who.callsign) apart)
                    ∙ e)))
      ],
      λ same. rw same out,
    )
