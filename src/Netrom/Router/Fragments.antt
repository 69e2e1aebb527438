-- ===== src/Netrom/Router/Fragments.antt =====
-- The frames of the router's NODES broadcast.
use bbs.Prelude.{
  ℕ, zero, suc, ◌≤◌, ◌≡◌, refl, ap, ◌∙◌, false, List, [], ◌∷◌, ◌++◌, Option, none, some, length,
  take, drop, length-take, length-drop, take-append-drop, arith,
}
use bbs.Text.{Text}
use bbs.Ax25.NetromFrame.Wire.{Bytes}
use bbs.Ax25.NetromFrame.Nodes.{
  NodeEntry, NodesFrame, decode_nodes_broadcast, encode_nodes_broadcast,
}
use bbs.Ax25.NetromFrame.NodesLaws.{IsAlias, AllEntries, decode-encode_nodes_broadcast}
use bbs.Ax25.NetromFrame.NodesSize.{broadcast_size}
use bbs.Netrom.Router.{NetromRouter}
use bbs.Netrom.Router.Broadcast.{
  nodes_entries, chunks, encode_all, build_nodes_payloads, max_entries_per_frame,
}

-- What a receiver that takes `src` for the source collects from a series of frames.
abbrev pub entries_of : Option NodesFrame → List NodeEntry
entries_of none = []
entries_of (some frame) = frame.entries

abbrev pub collected : Text → List Bytes → List NodeEntry
collected src [] = []
collected src (p ∷ ps) = entries_of (decode_nodes_broadcast src p) ++ collected src ps

-- Every frame fits into the information field of an AX.25 frame.
abbrev pub AllFit : List Bytes → Type 0
AllFit [] = Unit
AllFit (p ∷ ps) = (length p ≤ 256) × AllFit ps

abbrev joined : List (List NodeEntry) → List NodeEntry
joined [] = []
joined (es ∷ more) = es ++ joined more

abbrev AllChunks : List (List NodeEntry) → Type 0
AllChunks [] = Unit
AllChunks (es ∷ more) = AllEntries es × (length es ≤ max_entries_per_frame) × AllChunks more

chunks-joined : (fuel : ℕ) (es : List NodeEntry) → length es ≤ fuel → joined (chunks fuel es) ≡ es
unfolding chunks
chunks-joined zero [] h = refl
chunks-joined zero (e ∷ es) h = absurd (omega arith)
chunks-joined (suc fuel) [] h = refl
chunks-joined (suc fuel) (e ∷ es) h =
    rw
      (chunks-joined fuel (drop max_entries_per_frame (e ∷ es))
        (omega (arith, h, length-drop max_entries_per_frame (e ∷ es))))
      (take-append-drop max_entries_per_frame (e ∷ es))

take-AllEntries : (n : ℕ) (es : List NodeEntry) → AllEntries es → AllEntries (take n es)
take-AllEntries zero es v = tt
take-AllEntries (suc n) [] v = tt
take-AllEntries (suc n) (e ∷ es) v = (v.0, take-AllEntries n es v.1)

drop-AllEntries : (n : ℕ) (es : List NodeEntry) → AllEntries es → AllEntries (drop n es)
drop-AllEntries zero es v = v
drop-AllEntries (suc n) [] v = tt
drop-AllEntries (suc n) (e ∷ es) v = drop-AllEntries n es v.1

chunks-AllChunks : (fuel : ℕ) (es : List NodeEntry) → AllEntries es → AllChunks (chunks fuel es)
unfolding chunks
chunks-AllChunks zero es v = tt
chunks-AllChunks (suc fuel) [] v = tt
chunks-AllChunks (suc fuel) (e ∷ es) v = (
  take-AllEntries max_entries_per_frame (e ∷ es) v,
  omega (arith, length-take max_entries_per_frame (e ∷ es)),
  chunks-AllChunks fuel (drop max_entries_per_frame (e ∷ es))
      (drop-AllEntries max_entries_per_frame (e ∷ es) v),
)

-- One frame: its size, and what it is decoded to.
one_frame :
    (src alias : Text) (es : List NodeEntry)
    → IsAlias alias
    → AllEntries es
    → length es ≤ max_entries_per_frame
    → (p : Bytes) × (encode_nodes_broadcast alias es ≡ some p)
      × (length p ≤ 256)
      × (entries_of (decode_nodes_broadcast src p) ≡ es)
one_frame src alias es a v short =
    let (p, e, l) = broadcast_size alias es v in
    let (q, f, d) = decode-encode_nodes_broadcast src alias es a v in
    let same : q ≡ p = ground (arith, e, f) in
    (p, e, omega (arith, l, short), ap entries_of (rw same at d))

encode_all-collected :
    (src alias : Text) (cs : List (List NodeEntry))
    → IsAlias alias
    → AllChunks cs
    → (ps : List Bytes) × (encode_all alias cs ≡ some ps)
      × (collected src ps ≡ joined cs)
      × AllFit ps
unfolding encode_all
encode_all-collected src alias [] a v = ([], refl, refl, tt)
encode_all-collected src alias (es ∷ cs) a v =
    let (p, e, fit, d) = one_frame src alias es a v.0 v.1 in
    let (ps, f, c, fits) = encode_all-collected src alias cs a v.2 in
    (p ∷ ps, rw (e, f), rw (d, c), (fit, fits))

-- A node that advertises its whole table, with an alias of at most six ASCII characters without
-- blanks and small letters, and entries of such aliases, of destinations and neighbours of at most
-- six capital letters and digits with an SSID below 16, the destination not empty, and of
-- qualities below 256, sends frames of at most 256 bytes, from which a receiver collects exactly
-- the advertised entries, in order.
pub build_nodes_payloads-collected :
    (src : Text) (g : NetromRouter)
    → IsAlias g.alias
    → AllEntries (nodes_entries g)
    → g.advertise_self_only ≡ false
    → (ps : List Bytes) × (build_nodes_payloads g ≡ some ps)
      × (collected src ps ≡ nodes_entries g)
      × AllFit ps
unfolding build_nodes_payloads
build_nodes_payloads-collected src g a v transit =
    let es = nodes_entries g in
    let (ps, e, c, fits) =
      encode_all-collected src g.alias (chunks (length es) es) a
        (chunks-AllChunks (length es) es v) in
    (ps, ground (arith, transit, e), c ∙ chunks-joined (length es) es (omega arith), fits)
