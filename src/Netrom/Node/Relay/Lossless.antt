-- ===== src/Netrom/Node/Relay/Lossless.antt =====
-- What the pumps do with the line ends at the borders of their reads.
use bbs.Prelude.{
  ℕ, ◌≤◌, Bool, false, ◌&&◌, ◌≡◌, refl, sym, ap, ◌∙◌, List, [], ◌∷◌, ◌++◌, map, Option, none, some,
  arith, leb, ◌==◌, length, append-nil, append_assoc, Bool-cases, inl, inr,
}
use bbs.Netrom.Node.Relay.{
  Bytes, replace_crlf, swap, to_far, is_newline, split_last, cons_split, flush_lines, absorb,
  a_to_b, bridge_line_max, is_lf,
}

abbrev pub concat : List Bytes → Bytes
concat [] = []
concat (x ∷ xs) = x ++ concat xs

-- The last byte is a CR.
abbrev pub ends_cr : Bytes → Bool
ends_cr [] = false
ends_cr (c ∷ []) = c == 13
ends_cr (c ∷ d ∷ s) = ends_cr (d ∷ s)

abbrev pub AllPlain : Bytes → Type 0
AllPlain [] = Unit
AllPlain (c ∷ s) = (is_newline c ≡ false) × AllPlain s

tail_joins :
    (d : ℕ) (s t : Bytes) → (ends_cr (d ∷ s) && is_lf t) ≡ false → (ends_cr s && is_lf t) ≡ false
tail_joins d [] t h = refl
tail_joins d (c ∷ s) t h = h

replace_crlf-append :
    (s t : Bytes)
    → (ends_cr s && is_lf t) ≡ false
    → replace_crlf 13 (s ++ t) ≡ replace_crlf 13 s ++ replace_crlf 13 t
unfolding replace_crlf
replace_crlf-append [] t h = refl
replace_crlf-append (c ∷ []) [] h = ground (arith, h)
replace_crlf-append (c ∷ []) (d ∷ t) h = ground (arith, h)
replace_crlf-append (c ∷ d ∷ s) t h =
    let later = replace_crlf-append (d ∷ s) t h in
    elim (Bool-cases (c == 13 && d == 10)) [
      | inr e ↦ rw e (ap (◌∷◌ c) later)
      | inl e ↦
          let lf : (d == 13) ≡ false = ground arith in
          rw (e, lf) (ap (◌∷◌ 13) (replace_crlf-append s t (tail_joins d s t h)))
    ]

map-append : (f : ℕ → ℕ) (s t : Bytes) → map f (s ++ t) ≡ map f s ++ map f t
map-append f [] t = refl
map-append f (c ∷ s) t = ap (◌∷◌ (f c)) (map-append f s t)

pub to_far-append :
    (s t : Bytes) → (ends_cr s && is_lf t) ≡ false → to_far (s ++ t) ≡ to_far s ++ to_far t
unfolding to_far
to_far-append s t h =
    ap (map (swap 10 13)) (replace_crlf-append s t h)
    ∙ map-append (swap 10 13) (replace_crlf 13 s) (replace_crlf 13 t)

-- What a split is: the parts in order, and no newline behind the line.
abbrev IsSplit : Bytes → Option (Bytes × Bytes) → Type 0
IsSplit p none = AllPlain p
IsSplit p (some (line, rest)) = (p ≡ line ++ rest) × AllPlain rest

cons_split-IsSplit :
    (c : ℕ) (s : Bytes) (o : Option (Bytes × Bytes))
    → IsSplit s o
    → IsSplit (c ∷ s) (cons_split c s o)
cons_split-IsSplit c s (some (line, rest)) (same, plain) = (ap (◌∷◌ c) same, plain)
cons_split-IsSplit c s none plain = elim (Bool-cases (is_newline c)) [
  | inl e ↦ rw e (refl, plain)
  | inr e ↦ rw e (e, plain)
]

split_last-IsSplit : (p : Bytes) → IsSplit p (split_last p)
unfolding split_last
split_last-IsSplit [] = tt
split_last-IsSplit (c ∷ s) = cons_split-IsSplit c s (split_last s) (split_last-IsSplit s)

pub ends_cr-plain : (p : Bytes) → AllPlain p → ends_cr p ≡ false
ends_cr-plain [] h = refl
ends_cr-plain (c ∷ []) (h, _) = ground (arith, h)
ends_cr-plain (c ∷ d ∷ s) (_, h) = ends_cr-plain (d ∷ s) h

ends_cr-append : (s : Bytes) (c : ℕ) (t : Bytes) → ends_cr (s ++ c ∷ t) ≡ ends_cr (c ∷ t)
ends_cr-append [] c t = refl
ends_cr-append (d ∷ []) c t = refl
ends_cr-append (d ∷ e ∷ s) c t = ends_cr-append (e ∷ s) c t

-- The reads are not empty, and none ends with a CR where the next begins with an LF.
abbrev pub Unsplit : List Bytes → Type 0
Unsplit [] = Unit
Unsplit (chunk ∷ chunks) =
    (1 ≤ length chunk) × ((ends_cr chunk && is_lf (concat chunks)) ≡ false) × Unsplit chunks

line_joins :
    (line rest t : Bytes)
    → AllPlain rest
    → (ends_cr (line ++ rest) && is_lf t) ≡ false
    → (ends_cr line && is_lf (rest ++ t)) ≡ false
line_joins line [] t plain h = ap (λ s. ends_cr s && is_lf t) (sym (append-nil line)) ∙ h
line_joins line (c ∷ r) t (plain, _) h = ground (arith, plain)

flush_lines-lossless :
    (p t : Bytes) (o : Option (Bytes × Bytes))
    → IsSplit p o
    → (ends_cr p && is_lf t) ≡ false
    → AllPlain (flush_lines p o).1
      × (concat (flush_lines p o).0 ++ to_far ((flush_lines p o).1 ++ t) ≡ to_far (p ++ t))
flush_lines-lossless p t (some (line, rest)) (same, plain) h = (
  plain,
  ap (λ s. s ++ to_far (rest ++ t)) (append-nil (to_far line))
      ∙ (sym (
            to_far-append line (rest ++ t)
              (line_joins line rest t plain (ap (λ q. ends_cr q && is_lf t) (sym same) ∙ h)))
          ∙ ap to_far (sym (append_assoc line rest t) ∙ ap (λ q. q ++ t) (sym same))),
)
flush_lines-lossless p t none plain h = elim (Bool-cases (leb bridge_line_max (length p))) [
  | inr e ↦ rw e (plain, refl)
  | inl e ↦ rw e (tt, ap (λ s. s ++ to_far t) (append-nil (to_far p)) ∙ sym (to_far-append p t h))
]

concat-append : (xs ys : List Bytes) → concat (xs ++ ys) ≡ concat xs ++ concat ys
concat-append [] ys = refl
concat-append (x ∷ xs) ys =
    ap (λ s. x ++ s) (concat-append xs ys) ∙ sym (append_assoc x (concat xs) (concat ys))

chunk_joins :
    (pending chunk t : Bytes)
    → 1 ≤ length chunk
    → (ends_cr chunk && is_lf t) ≡ false
    → (ends_cr (pending ++ chunk) && is_lf t) ≡ false
chunk_joins pending [] t pos h = absurd (omega arith)
chunk_joins pending (c ∷ s) t pos h = ap (λ b. b && is_lf t) (ends_cr-append pending c s) ∙ h

pump-lossless :
    (chunks : List Bytes) (pending : Bytes)
    → AllPlain pending
    → Unsplit chunks
    → concat (a_to_b pending chunks) ≡ to_far (pending ++ concat chunks)
unfolding a_to_b absorb
pump-lossless [] [] plain u = unfold to_far replace_crlf in refl
pump-lossless [] (c ∷ s) plain u =
    append-nil (to_far (c ∷ s)) ∙ ap to_far (sym (append-nil (c ∷ s)))
pump-lossless (chunk ∷ chunks) pending plain (pos, joins, u) =
    let p : Bytes = pending ++ chunk in
    let (rest_plain, same) =
      flush_lines-lossless p (concat chunks) (split_last p) (split_last-IsSplit p)
        (chunk_joins pending chunk (concat chunks) pos joins) in
    let out : List Bytes × Bytes = flush_lines p (split_last p) in
    concat-append out.0 (a_to_b out.1 chunks)
    ∙ (ap (λ s. concat out.0 ++ s) (pump-lossless chunks out.1 rest_plain u)
        ∙ (same ∙ ap to_far (append_assoc pending chunk (concat chunks))))

-- Where no read ends with a CR in front of an LF, what the pump writes to the far node, put
-- together, is the whole input with its line ends translated at once, however the input was cut
-- into reads.
pub a_to_b-lossless :
    (chunks : List Bytes) → Unsplit chunks → concat (a_to_b [] chunks) ≡ to_far (concat chunks)
a_to_b-lossless chunks u = pump-lossless chunks [] tt u
