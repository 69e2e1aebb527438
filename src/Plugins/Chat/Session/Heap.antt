-- ===== src/Plugins/Chat/Session/Heap.antt =====
-- Membership in the room objects: what each change of the heap keeps.
use bbs.Prelude.{
  ℕ, ◌<◌, zero, suc, true, false, ◌≡◌, ◌≢◌, refl, ap, ◌∙◌, List, [], ◌∷◌, ◌++◌, Option, none, some,
  arith, length, nat_eq, list_eq, list_beq_iff, beq_refl,
}
use bbs.Text.{Text, upper}
use bbs.Dict.{Dict, get, has}
use bbs.Dict.Laws.{has-put, has-remove, get-some-has}
use bbs.Plugins.Chat.{
  ChatRoom, Queue, at_room, has_member, deliver_to, broadcast_line, join, leave, broadcast,
  put_whisper, private_msg, whisper_line, joined_line, left_line, said_line,
}
use bbs.Plugins.Chat.Store.{end_queues, close_room, deletion_notice}
use bbs.Plugins.Chat.Private.{whisper_at}

-- A room operation that neither lets anybody in nor out.
abbrev pub KeepsMembers : (ChatRoom → ChatRoom) → Type 0
KeepsMembers f = (r : ChatRoom) (call : Text) → has (f r).members call ≡ has r.members call

pub length-at_room :
    (f : ChatRoom → ChatRoom) (rs : List ChatRoom) (i : ℕ) → length (at_room f rs i) ≡ length rs
length-at_room f [] i = refl
length-at_room f (r ∷ rs) zero = refl
length-at_room f (r ∷ rs) (suc i) = ap suc (length-at_room f rs i)

pub has_member-keeps :
    (f : ChatRoom → ChatRoom) (rs : List ChatRoom) (i j : ℕ) (call : Text)
    → KeepsMembers f
    → has_member (at_room f rs i) j call ≡ has_member rs j call
has_member-keeps f [] i j call k = refl
has_member-keeps f (r ∷ rs) zero zero call k = k r call
has_member-keeps f (r ∷ rs) zero (suc j) call k = refl
has_member-keeps f (r ∷ rs) (suc i) zero call k = refl
has_member-keeps f (r ∷ rs) (suc i) (suc j) call k = has_member-keeps f rs i j call k

pub has_member-other :
    (f : ChatRoom → ChatRoom) (rs : List ChatRoom) (i j : ℕ) (call : Text)
    → i ≢ j
    → has_member (at_room f rs i) j call ≡ has_member rs j call
has_member-other f [] i j call ne = refl
has_member-other f (r ∷ rs) zero zero call ne = absurd (ne refl)
has_member-other f (r ∷ rs) zero (suc j) call ne = refl
has_member-other f (r ∷ rs) (suc i) zero call ne = refl
has_member-other f (r ∷ rs) (suc i) (suc j) call ne =
    has_member-other f rs i j call (λ e. ne (ap suc e))

pub has_member-let_in :
    (f : ChatRoom → ChatRoom) (rs : List ChatRoom) (i : ℕ) (call : Text)
    → ((r : ChatRoom) → has (f r).members call ≡ true)
    → i < length rs
    → has_member (at_room f rs i) i call ≡ true
has_member-let_in f [] i call k h = elim h [ ]
has_member-let_in f (r ∷ rs) zero call k h = k r
has_member-let_in f (r ∷ rs) (suc i) call k h = has_member-let_in f rs i call k (omega arith)

pub has_member-let_out :
    (f : ChatRoom → ChatRoom) (rs : List ChatRoom) (i : ℕ) (call : Text)
    → ((r : ChatRoom) → has (f r).members call ≡ false)
    → has_member (at_room f rs i) i call ≡ false
has_member-let_out f [] i call k = refl
has_member-let_out f (r ∷ rs) zero call k = k r
has_member-let_out f (r ∷ rs) (suc i) call k = has_member-let_out f rs i call k

pub has_member-append :
    (rs ss : List ChatRoom) (j : ℕ) (call : Text)
    → has_member rs j call ≡ true
    → has_member (rs ++ ss) j call ≡ true
has_member-append [] ss j call h = (cc)
has_member-append (r ∷ rs) ss zero call h = h
has_member-append (r ∷ rs) ss (suc j) call h = has_member-append rs ss j call h

has-deliver_to :
    (line : Text) (exclude : Option Text) (members : Dict Text Queue) (call : Text)
    → has (deliver_to line exclude members) call ≡ has members call
unfolding deliver_to has
has-deliver_to line exclude [] call = refl
has-deliver_to line exclude ((c, q) ∷ members) call =
    ground (arith, has-deliver_to line exclude members call)

pub broadcast_line-KeepsMembers :
    (line : Text) (exclude : Option Text) → KeepsMembers (broadcast_line line exclude)
unfolding broadcast_line
broadcast_line-KeepsMembers line exclude r call = has-deliver_to line exclude r.members call

pub broadcast-KeepsMembers : (ts callsign text : Text) → KeepsMembers (broadcast ts callsign text)
unfolding broadcast
broadcast-KeepsMembers ts callsign text =
    broadcast_line-KeepsMembers (said_line ts callsign text) none

pub has-join :
    (callsign : Text) (r : ChatRoom) → has (join callsign r).members (upper callsign) ≡ true
unfolding join
has-join callsign r =
    broadcast_line-KeepsMembers (joined_line callsign r.name) (some callsign) _ (upper callsign)
    ∙ ground (
      arith,
      has-put {V = Queue} r.members (upper callsign) (upper callsign) [],
      beq_refl (upper callsign),
    )

pub has-leave :
    (callsign : Text) (r : ChatRoom) → has (leave callsign r).members (upper callsign) ≡ false
unfolding leave
has-leave callsign r =
    broadcast_line-KeepsMembers (left_line callsign r.name) (some callsign) _ (upper callsign)
    ∙ ground
        (arith, has-remove r.members (upper callsign) (upper callsign), beq_refl (upper callsign))

has-end_queues :
    (members : List (Text × Queue)) (call : Text) → has (end_queues members) call ≡ has members call
unfolding has
has-end_queues [] call = refl
has-end_queues ((c, q) ∷ members) call = ground (arith, has-end_queues members call)

pub close_room-KeepsMembers : (key : Text) → KeepsMembers (close_room key)
close_room-KeepsMembers key r call =
    has-end_queues (broadcast_line (deletion_notice key) none r).members call
    ∙ broadcast_line-KeepsMembers (deletion_notice key) none r call

put_whisper-has :
    (line to : Text) (r : ChatRoom) (call : Text) (o : Option Queue)
    → get r.members to ≡ o
    → has (put_whisper line to r o).1.members call ≡ has r.members call
put_whisper-has line to r call none h = refl
put_whisper-has line to r call (some q) h =
    let longer : Queue = q ++ some line ∷ [] in
    ground
      (arith, has-put r.members to call longer, get-some-has r.members to h, list_beq_iff to call)

pub whisper_at-has :
    (ts from to text : Text) (rs : List ChatRoom) (i j : ℕ) (call : Text)
    → has_member (whisper_at ts from to text rs i).1 j call ≡ has_member rs j call
unfolding whisper_at private_msg
whisper_at-has ts from to text [] i j call = refl
whisper_at-has ts from to text (r ∷ rs) zero zero call =
    put_whisper-has (whisper_line ts from to text) (upper to) r call (get r.members (upper to)) refl
whisper_at-has ts from to text (r ∷ rs) zero (suc j) call = refl
whisper_at-has ts from to text (r ∷ rs) (suc i) zero call = refl
whisper_at-has ts from to text (r ∷ rs) (suc i) (suc j) call =
    whisper_at-has ts from to text rs i j call

pub length-whisper_at :
    (ts from to text : Text) (rs : List ChatRoom) (i : ℕ)
    → length (whisper_at ts from to text rs i).1 ≡ length rs
unfolding whisper_at
length-whisper_at ts from to text [] i = refl
length-whisper_at ts from to text (r ∷ rs) zero = refl
length-whisper_at ts from to text (r ∷ rs) (suc i) = ap suc (length-whisper_at ts from to text rs i)
