-- ===== src/Plugins/Chat/Private.antt =====
-- /MSG of bbs/plugins/chat/chat.py: live delivery, or one of the ways to hold a whisper. The user
-- table and the bulletins plugin answer through `ChatEnv`.
use bbs.Prelude.{
  ℕ, zero, suc, Bool, false, List, [], ◌∷◌, Option, none, some, if◌then◌else◌, ◌==◌, ◌=?◌, nat_eq,
  list_eq,
}
use bbs.Text.{Text, upper}
use bbs.Dict.{put}
use bbs.Plugins.Chat.{Chat, ChatRoom, private_msg, has_member, find_member_room}
use bbs.Plugins.Chat.Store.{ChatDb, store_offline_msg}

-- The answers of other parts: whether a callsign has a user record, and the number and the area of
-- a private bulletin (sender, recipient, room, text) if one could be posted.
pub record ChatEnv : Type 0 where
  pub has_db : Bool
  pub is_known_user : Text → Bool
  pub post_bulletin : Text → Text → Text → Text → Option (ℕ × Text)

-- What the sender is told.
pub data Told : Type 0 where
  yourself live unknown_user held lost : Told
  live_elsewhere : Text → Told
  posted : ℕ → Text → Told

pub record World : Type 0 where
  pub chat : Chat
  pub db : ChatDb

-- room.private_msg on the object `ref`
unfoldable pub whisper_at : Text → Text → Text → Text → List ChatRoom → ℕ → Bool × List ChatRoom
whisper_at ts from to text [] i = (false, [])
whisper_at ts from to text (r ∷ rs) zero =
    let sent : Bool × ChatRoom = private_msg ts from to text r in (sent.0, sent.1 ∷ rs)
whisper_at ts from to text (r ∷ rs) (suc i) =
    let sent : Bool × List ChatRoom = whisper_at ts from to text rs i in (sent.0, r ∷ sent.1)

abbrev pub name_at : List ChatRoom → ℕ → Text
name_at [] i = []
name_at (r ∷ rs) zero = r.name
name_at (r ∷ rs) (suc i) = name_at rs i

-- A whisper to a target room; a delivered one is remembered for /R.
unfoldable pub try_live : Text → Text → Text → Text → Chat → Option ℕ → Bool × Chat
try_live ts from to text chat none = (false, chat)
try_live ts from to text chat (some ref) =
    let sent : Bool × List ChatRoom = whisper_at ts from to text chat.heap ref in
    (
      sent.0,
      record chat {
        heap = sent.1;
        last_whisper =
            if sent.0 then put chat.last_whisper (upper to) (upper from) else chat.last_whisper;
      },
    )

abbrev pub stored : World → ChatDb × Bool → World × Told
stored w (db, ok) = (record w { db = db }, if ok then held else lost)

abbrev pub offline : World → World × Told → Option (ℕ × Text) → World × Told
offline w kept none = kept
offline w kept (some (number, area)) = (w, posted number area)

-- Not reachable live: a bulletin, or a held whisper.
unfoldable pub hold_msg : ChatEnv → ℕ → ℕ → Text → Text → Text → World → World × Told
hold_msg env now ref from dest text w =
    let room : Text = name_at w.chat.heap ref in
    if env.is_known_user dest
    then offline w (stored w (store_offline_msg env.has_db now from dest room text w.db))
        (env.post_bulletin from dest room text)
    else (w, unknown_user)

abbrev pub target_room : Text → ℕ → Chat → Option ℕ
target_room dest ref chat =
    if has_member chat.heap ref dest then some ref else find_member_room dest chat

abbrev pub told_where : ℕ → Chat → Option ℕ → Told
told_where ref chat none = live
told_where ref chat (some t) = if t == ref then live else live_elsewhere (name_at chat.heap t)

unfoldable pub deliver_private_msg :
    ChatEnv → Text → ℕ → ℕ → Text → Text → Text → World → World × Told
deliver_private_msg env ts now ref from dest text w =
    let target = target_room dest ref w.chat in
    let sent : Bool × Chat = try_live ts from dest text w.chat target in
    let kept : World × Told = hold_msg env now ref from dest text w in
    if dest =? upper from
    then (w, yourself)
    else if sent.0
    then (record w { chat = sent.1 }, told_where ref w.chat target)
    else kept
