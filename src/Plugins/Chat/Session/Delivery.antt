-- ===== src/Plugins/Chat/Session/Delivery.antt =====
-- The delivery of a whisper lets nobody in or out of a room.
use bbs.Prelude.{
  ℕ, Bool, true, false, ◌≡◌, refl, Option, none, some, if◌then◌else◌, ◌=?◌, nat_eq, list_eq,
  Bool-cases, inl, inr,
}
use bbs.Text.{Text, upper}
use bbs.Plugins.Chat.{Chat}
use bbs.Plugins.Chat.Store.{ChatDb}
use bbs.Plugins.Chat.Private.{
  ChatEnv, World, Told, deliver_private_msg, try_live, hold_msg, target_room, stored, offline,
  told_where, yourself,
}
use bbs.Plugins.Chat.Session.Keeps.{KeepsAll, KeepsAll-refl, try_live-KeepsAll}

if-KeepsAll :
    (a : Chat) (b : Bool) (x y : World × Told)
    → KeepsAll a x.0.chat
    → KeepsAll a y.0.chat
    → KeepsAll a (if b then x else y).0.chat
if-KeepsAll a true x y p q = p
if-KeepsAll a false x y p q = q

offline-chat :
    (w : World) (s : ChatDb × Bool) (o : Option (ℕ × Text))
    → (offline w (stored w s) o).0.chat ≡ w.chat
offline-chat w (db, ok) none = refl
offline-chat w (db, ok) (some (n, area)) = refl

hold_msg-chat :
    (env : ChatEnv) (now ref : ℕ) (from dest text : Text) (w : World)
    → (hold_msg env now ref from dest text w).0.chat ≡ w.chat
unfolding hold_msg
hold_msg-chat env now ref from dest text w = elim (Bool-cases (env.is_known_user dest)) [
  | inl e ↦ rw e (offline-chat w _ _)
  | inr e ↦ rw e refl
]

pub deliver-KeepsAll :
    (env : ChatEnv) (ts : Text) (now ref : ℕ) (from dest text : Text) (w : World)
    → KeepsAll w.chat (deliver_private_msg env ts now ref from dest text w).0.chat
unfolding deliver_private_msg
deliver-KeepsAll env ts now ref from dest text w =
    let target : Option ℕ = target_room dest ref w.chat in
    let sent : Bool × Chat = try_live ts from dest text w.chat target in
    let kept : World × Told = hold_msg env now ref from dest text w in
    if-KeepsAll w.chat (dest =? upper from) (w, yourself)
      (if sent.0 then (record w { chat = sent.1 }, told_where ref w.chat target) else kept)
      (KeepsAll-refl w.chat)
      (if-KeepsAll w.chat sent.0 (record w { chat = sent.1 }, told_where ref w.chat target) kept
        (try_live-KeepsAll ts from dest text w.chat target)
        (rw (hold_msg-chat env now ref from dest text w) (KeepsAll-refl w.chat)))
