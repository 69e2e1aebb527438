-- ===== src/Ax25/NetromFrame/Nodes.antt =====
-- The NODES routing broadcast of bbs/ax25/netrom_frame.py.
use bbs.Prelude.{
  ℕ, zero, suc, ◌%◌, ◌==◌, List, [], ◌∷◌, ◌++◌, Option, none, some, ltb, not, if◌then◌else◌, length,
  take, drop, get_or, ◌>>=◌,
}
use bbs.Text.{Text}
use bbs.Ax25.NetromFrame.Wire.{
  Bytes, decode_alias, encode_alias, encode_wire_call, decode_wire_call,
}

pub record NodeEntry : Type 0 where
  pub dest_call : Text
  pub alias : Text
  pub neighbor_call : Text
  pub quality : ℕ

pub record NodesFrame : Type 0 where
  pub source_call : Text
  pub source_alias : Text
  pub entries : List NodeEntry

abbrev pub routing_discriminator : ℕ
routing_discriminator = 255

abbrev pub node_entry_len : ℕ
node_entry_len = 21

-- The entry of a chunk of 21 bytes.
unfoldable pub decode_entry : Bytes → NodeEntry
decode_entry chunk = record {
  dest_call = decode_wire_call (take 7 chunk);
  alias = decode_alias (take 6 (drop 7 chunk));
  neighbor_call = decode_wire_call (take 7 (drop 13 chunk));
  quality = get_or chunk 20 0;
}

-- `if dest_call:`
abbrev pub keep_entry : Text → NodeEntry → List NodeEntry → List NodeEntry
keep_entry [] e rest = rest
keep_entry (c ∷ s) e rest = e ∷ rest

-- The loop, on the bytes from `offset` on; each round takes 21 of them, and the fuel counts rounds.
unfoldable pub decode_entries : ℕ → Bytes → List NodeEntry
decode_entries zero bytes = []
decode_entries (suc fuel) bytes =
    let more = decode_entries fuel (drop node_entry_len bytes) in
    if ltb (length bytes) node_entry_len
    then []
    else let e = decode_entry (take node_entry_len bytes) in keep_entry e.dest_call e more

unfoldable pub decode_nodes_broadcast : Text → Bytes → Option NodesFrame
decode_nodes_broadcast src_call payload =
    if ltb (length payload) 7
    then none
    else if not (get_or payload 0 0 == routing_discriminator)
    then none
    else some (record {
      source_call = src_call;
      source_alias = decode_alias (take 6 (drop 1 payload));
      entries = decode_entries (length payload) (drop 7 payload);
    })

unfoldable pub encode_entry : NodeEntry → Option Bytes
encode_entry e = do
  dest ← encode_wire_call e.dest_call
  neighbor ← encode_wire_call e.neighbor_call
  some (dest ++ (encode_alias e.alias ++ (neighbor ++ (e.quality % 256) ∷ [])))

unfoldable pub encode_entries : List NodeEntry → Option Bytes
encode_entries [] = some []
encode_entries (e ∷ entries) = do
  out ← encode_entry e
  rest ← encode_entries entries
  some (out ++ rest)

unfoldable pub encode_nodes_broadcast : Text → List NodeEntry → Option Bytes
encode_nodes_broadcast source_alias entries = do
  out ← encode_entries entries
  some (routing_discriminator ∷ encode_alias source_alias ++ out)
