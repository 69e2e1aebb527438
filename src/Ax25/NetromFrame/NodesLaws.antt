-- ===== src/Ax25/NetromFrame/NodesLaws.antt =====
-- Round trip of the NODES broadcast.
use bbs.Prelude.{
  ℕ, suc, zero, ◌+◌, ◌-◌, ◌%◌, ◌≤◌, ◌<◌, ◌≡◌, refl, false, List, [], ◌∷◌, ◌++◌, map, some, length,
  arith, ltb, take, drop, replicate, length-append, length-map, length-take, length-replicate,
  take_all, ◌∙◌,
}
use bbs.Text.{Text, upper, upper_char, is_space, rstrip, ljust}
use bbs.Ax25.NetromFrame.Wire.{
  Bytes, decode_alias, encode_alias, ascii_decode, ascii_encode, decode_wire_call,
}
use bbs.Ax25.NetromFrame.WireLaws.{IsWireCall, IsWireCall-wire}
use bbs.Ax25.NetromFrame.HeaderLaws.{Six, Six-length}
use bbs.Ax25.NetromFrame.Nodes.{
  NodeEntry, keep_entry, decode_entry, decode_entries, decode_nodes_broadcast, encode_entry,
  encode_entries, encode_nodes_broadcast,
}

-- An alias as a node spells it: at most six ASCII characters, no lower case and no space.
abbrev pub AliasChars : Text → Type 0
AliasChars [] = Unit
AliasChars (c ∷ s) = (c < 128) × (is_space c ≡ false) × (upper_char c ≡ c) × AliasChars s

pub record IsAlias (s : Text) : Type 0 where
  pub chars : AliasChars s
  pub short : length s ≤ 6

pub record IsEntry (e : NodeEntry) : Type 0 where
  pub dest : IsWireCall e.dest_call
  pub nonempty : 0 < length e.dest_call
  pub alias : IsAlias e.alias
  pub neighbor : IsWireCall e.neighbor_call
  pub quality : e.quality < 256

abbrev pub AllEntries : List NodeEntry → Type 0
AllEntries [] = Unit
AllEntries (e ∷ entries) = IsEntry e × AllEntries entries

upper-AliasChars : (s : Text) → AliasChars s → upper s ≡ s
upper-AliasChars [] h = refl
upper-AliasChars (c ∷ s) h = ground (arith, upper-AliasChars s h.3)

pub length-encode_alias : (s : Text) → length (encode_alias s) ≡ 6
unfolding encode_alias
length-encode_alias s =
    let t = take 6 (upper s) in
    omega (
      arith,
      length-map (ljust 6 t) ascii_encode,
      length-append t (replicate (6 - length t) 32),
      length-replicate {A = ℕ} (6 - length t) 32,
      length-take 6 (upper s),
    )

rstrip-pad : (n : ℕ) → rstrip (map ascii_decode (map ascii_encode (replicate n 32))) ≡ []
unfolding rstrip
rstrip-pad zero = refl
rstrip-pad (suc n) = ground (arith, rstrip-pad n)

rstrip-ljust :
    (s : Text) (n : ℕ)
    → AliasChars s
    → rstrip (map ascii_decode (map ascii_encode (s ++ replicate n 32))) ≡ s
unfolding rstrip
rstrip-ljust [] n h = rstrip-pad n
rstrip-ljust (c ∷ s) n h = ground (arith, rstrip-ljust s n h.3)

pub decode-encode_alias : (s : Text) → IsAlias s → decode_alias (encode_alias s) ≡ s
unfolding decode_alias
decode-encode_alias s h = rw (take_all 6 (encode_alias s) (omega (arith, length-encode_alias s))) (
    unfold encode_alias in
    rw (upper-AliasChars s h.chars)
      (rw (take_all 6 s h.short) (rstrip-ljust s (6 - length s) h.chars)))

-- The 21 bytes of an entry, by its addresses.
entry_bytes : Bytes → ℕ → Bytes → Bytes → ℕ → ℕ → Bytes
entry_bytes d s a n t q = (d ++ s ∷ []) ++ (a ++ ((n ++ t ∷ []) ++ q ∷ []))

decode-entry_bytes :
    (d a n rest : Bytes) (s t q : ℕ)
    → Six d
    → Six a
    → Six n
    → (take 21 (entry_bytes d s a n t q ++ rest) ≡ entry_bytes d s a n t q)
      × (drop 21 (entry_bytes d s a n t q ++ rest) ≡ rest)
      × (length (entry_bytes d s a n t q ++ rest) ≡ 21 + length rest)
      × (decode_entry (entry_bytes d s a n t q) ≡ record {
        dest_call = decode_wire_call (d ++ s ∷ []);
        alias = decode_alias a;
        neighbor_call = decode_wire_call (n ++ t ∷ []);
        quality = q;
      })
unfolding entry_bytes decode_entry
decode-entry_bytes d a n rest s t q x y z = rw (x.is, y.is, z.is) (refl, refl, omega arith, refl)

-- What `encode_entry` makes of an entry is 21 bytes, which `decode_entry` reads back.
pub record EntryWire (e : NodeEntry) : Type 0 where
  pub out : Bytes
  pub encoded : encode_entry e ≡ some out
  pub first : (rest : Bytes) → take 21 (out ++ rest) ≡ out
  pub after : (rest : Bytes) → drop 21 (out ++ rest) ≡ rest
  pub long : (rest : Bytes) → length (out ++ rest) ≡ 21 + length rest
  pub decoded : decode_entry out ≡ e

pub IsEntry-wire : (e : NodeEntry) → IsEntry e → EntryWire e
IsEntry-wire e v =
    let d = IsWireCall-wire v.dest in
    let n = IsWireCall-wire v.neighbor in
    let a = encode_alias e.alias in
    let lem = λ (rest : Bytes).
      decode-entry_bytes d.first a n.first rest d.last n.last e.quality (Six-length d.first d.six)
        (Six-length a (length-encode_alias e.alias)) (Six-length n.first n.six) in
    let q : e.quality % 256 ≡ e.quality = omega (arith, v.quality) in
    record {
      out = entry_bytes d.first d.last a n.first n.last e.quality;
      encoded = unfold encode_entry entry_bytes in rw (d.encoded, n.encoded) (rw q);
      first = λ rest. (lem rest).0;
      after = λ rest. (lem rest).1;
      long = λ rest. (lem rest).2;
      decoded =
          (lem []).3
          ∙ rw (d.decoded d.last refl, n.decoded n.last refl, decode-encode_alias e.alias v.alias);
    }

keep_entry_lem :
    (s : Text) (e : NodeEntry) (rest : List NodeEntry)
    → 0 < length s
    → keep_entry s e rest ≡ e ∷ rest
keep_entry_lem [] e rest h = absurd (omega arith)
keep_entry_lem (c ∷ s) e rest h = refl

decode_entries_step :
    (fuel : ℕ) (e : NodeEntry) (v : IsEntry e) (rest : Bytes)
    → let w = IsEntry-wire e v in
      decode_entries (suc fuel) (w.out ++ rest) ≡ e ∷ decode_entries fuel rest
decode_entries_step fuel e v rest =
    let w = IsEntry-wire e v in
    let enough : ltb (length (w.out ++ rest)) 21 ≡ false = ground (arith, w.long rest) in
    unfold decode_entries in
    rw enough
      (rw (w.first rest, w.after rest) (rw w.decoded (keep_entry_lem e.dest_call e _ v.nonempty)))

decode_entries_nil : (fuel : ℕ) → decode_entries fuel [] ≡ []
unfolding decode_entries
decode_entries_nil zero = refl
decode_entries_nil (suc fuel) = refl

decode-encode_entries :
    (fuel : ℕ) (entries : List NodeEntry)
    → AllEntries entries
    → (out : Bytes) × (encode_entries entries ≡ some out)
      × (length out ≤ fuel → decode_entries fuel out ≡ entries)
unfolding encode_entries
decode-encode_entries fuel [] v = ([], refl, λ h. decode_entries_nil fuel)
decode-encode_entries zero (e ∷ entries) v =
    let w = IsEntry-wire e v.0 in
    let (out, p, _) = decode-encode_entries zero entries v.1 in
    (w.out ++ out, rw (w.encoded, p), λ h. absurd (omega (arith, w.long out)))
decode-encode_entries (suc fuel) (e ∷ entries) v =
    let w = IsEntry-wire e v.0 in
    let (out, p, d) = decode-encode_entries fuel entries v.1 in
    (
      w.out ++ out,
      rw (w.encoded, p),
      λ h. decode_entries_step fuel e v.0 out ∙ rw (d (omega (arith, w.long out))),
    )

-- The bytes do not depend on the fuel that the loop is given.
decode-encode_entries_enough :
    (entries : List NodeEntry)
    → AllEntries entries
    → (out : Bytes) × (encode_entries entries ≡ some out)
      × ((fuel : ℕ) → length out ≤ fuel → decode_entries fuel out ≡ entries)
decode-encode_entries_enough entries v =
    let (out, p, _) = decode-encode_entries 0 entries v in
    (
      out,
      p,
      λ fuel h.
          let (out', p', d) = decode-encode_entries fuel entries v in
          let same : out' ≡ out = ground (arith, p, p') in rw same at d h,
    )

-- A NODES broadcast of a valid alias and valid entries, of any number, encodes without an error, and
-- `decode_nodes_broadcast` reads the same alias and entries back; the rounds of its loop are enough.
pub decode-encode_nodes_broadcast :
    (src alias : Text) (entries : List NodeEntry)
    → IsAlias alias
    → AllEntries entries
    → (payload : Bytes) × (encode_nodes_broadcast alias entries ≡ some payload)
      × (decode_nodes_broadcast src payload
          ≡ some (record { source_call = src; source_alias = alias; entries = entries }))
decode-encode_nodes_broadcast src alias entries va ve =
    let a = Six-length (encode_alias alias) (length-encode_alias alias) in
    let back : decode_alias (a.a ∷ a.b ∷ a.c ∷ a.d ∷ a.e ∷ a.f ∷ []) ≡ alias =
      rw a.is at (decode-encode_alias alias va) in
    let (out, p, d) = decode-encode_entries_enough entries ve in
    (
      255 ∷ encode_alias alias ++ out,
      unfold encode_nodes_broadcast in rw p,
      unfold decode_nodes_broadcast in rw a.is (ground (arith, back, d (7 + length out))),
    )
