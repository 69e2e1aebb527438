-- ===== src/Ax25/NetromFrame/NodesSize.antt =====
-- The size of a NODES broadcast of bbs/ax25/netrom_frame.py.
use bbs.Prelude.{◌+◌, ◌*◌, ◌≡◌, refl, List, [], ◌∷◌, ◌++◌, some, length, arith, length-append}
use bbs.Text.{Text}
use bbs.Ax25.NetromFrame.Wire.{Bytes, encode_alias}
use bbs.Ax25.NetromFrame.Nodes.{NodeEntry, encode_entries, encode_nodes_broadcast}
use bbs.Ax25.NetromFrame.NodesLaws.{AllEntries, IsEntry-wire, length-encode_alias}

entries_size :
    (entries : List NodeEntry)
    → AllEntries entries
    → (out : Bytes) × (encode_entries entries ≡ some out) × (length out ≡ length entries * 21)
unfolding encode_entries
entries_size [] v = ([], refl, refl)
entries_size (e ∷ entries) v =
    let w = IsEntry-wire e v.0 in
    let (out, p, l) = entries_size entries v.1 in
    (w.out ++ out, rw (w.encoded, p), omega (arith, w.long out, l))

pub broadcast_size :
    (alias : Text) (entries : List NodeEntry)
    → AllEntries entries
    → (payload : Bytes) × (encode_nodes_broadcast alias entries ≡ some payload)
      × (length payload ≡ 7 + length entries * 21)
broadcast_size alias entries v =
    let (out, p, l) = entries_size entries v in
    (
      255 ∷ encode_alias alias ++ out,
      unfold encode_nodes_broadcast in rw p,
      omega (arith, l, length-append (encode_alias alias) out, length-encode_alias alias),
    )
