-- ===== src/Netrom/Node/Relay/Border.antt =====
-- A line end that is cut by the border between two reads.
use bbs.Prelude.{
  ℕ, ◌≤◌, Bool, true, false, ◌&&◌, ◌≡◌, refl, ap, ◌∙◌, [], ◌∷◌, ◌++◌, some, arith, length,
  length-append, append-nil, append_assoc,
}
use bbs.Netrom.Node.Relay.{
  Bytes, replace_crlf, to_far, is_newline, is_lf, split_last, cons_split, flush_lines, absorb,
  a_to_b,
}
use bbs.Netrom.Node.Relay.Lossless.{
  AllPlain, concat, ends_cr, to_far-append, ends_cr-plain, a_to_b-lossless,
}

split_last-end :
    (s : Bytes) (c : ℕ) → is_newline c ≡ true → split_last (s ++ c ∷ []) ≡ some (s ++ c ∷ [], [])
unfolding split_last
split_last-end [] c h = ground (arith, h)
split_last-end (d ∷ s) c h = ap (cons_split d (s ++ c ∷ [])) (split_last-end s c h)

to_far-plain : (s : Bytes) → AllPlain s → to_far s ≡ s
unfolding to_far replace_crlf
to_far-plain [] h = refl
to_far-plain (c ∷ s) (h, k) = ground (arith, h, to_far-plain s k)

plain-joins : (s t : Bytes) → AllPlain s → (ends_cr s && is_lf t) ≡ false
plain-joins s t h = ap (λ b. b && is_lf t) (ends_cr-plain s h)

to_far-line : (s t : Bytes) → AllPlain s → to_far (s ++ t) ≡ s ++ to_far t
to_far-line s t h =
    to_far-append s t (plain-joins s t h) ∙ ap (λ q. q ++ to_far t) (to_far-plain s h)

absorb-line :
    (s : Bytes) (c : ℕ)
    → is_newline c ≡ true
    → absorb [] (s ++ c ∷ []) ≡ (to_far (s ++ c ∷ []) ∷ [], [])
unfolding absorb
absorb-line s c h = ap (flush_lines (s ++ c ∷ [])) (split_last-end s c h)

two_reads :
    (s t x y : Bytes)
    → absorb [] s ≡ (x ∷ [], [])
    → absorb [] t ≡ (y ∷ [], [])
    → concat (a_to_b [] (s ∷ t ∷ [])) ≡ x ++ (y ++ [])
unfolding a_to_b
two_reads s t x y e f = rw (e, f) refl

and_false : (b : Bool) → (b && false) ≡ false
and_false true = refl
and_false false = refl

-- A line without line ends in it, ended by CR LF, reaches the far node as that line with one CR if
-- it comes in one read, and with a second CR, an empty line, if the reads part the CR from the LF.
pub a_to_b-border :
    (line : Bytes)
    → AllPlain line
    → (concat (a_to_b [] ((line ++ 13 ∷ 10 ∷ []) ∷ [])) ≡ line ++ 13 ∷ [])
      × (concat (a_to_b [] ((line ++ 13 ∷ []) ∷ (10 ∷ []) ∷ [])) ≡ line ++ 13 ∷ 13 ∷ [])
unfolding to_far replace_crlf a_to_b
a_to_b-border line h =
    let whole : Bytes = line ++ 13 ∷ 10 ∷ [] in
    let pos : 1 ≤ length whole = omega (arith, length-append line (13 ∷ 10 ∷ [])) in
    (
      a_to_b-lossless (whole ∷ []) (pos, and_false (ends_cr whole), tt)
          ∙ (ap to_far (append-nil whole) ∙ to_far-line line (13 ∷ 10 ∷ []) h),
      two_reads (line ++ 13 ∷ []) (10 ∷ []) (to_far (line ++ 13 ∷ [])) (13 ∷ [])
            (absorb-line line 13 refl) (absorb-line [] 10 refl)
          ∙ (ap (λ s. s ++ 13 ∷ []) (to_far-line line (13 ∷ []) h)
              ∙ append_assoc line (13 ∷ []) (13 ∷ [])),
    )
