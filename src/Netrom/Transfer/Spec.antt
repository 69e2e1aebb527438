-- ===== src/Netrom/Transfer/Spec.antt =====
-- What the transfer promises: the texts that a list of fragments stands for, and the invariant of a
-- system.
use bbs.Prelude.{
  ℕ, zero, suc, ◌+◌, ◌%◌, ◌≤◌, ◌<◌, ◌≡◌, refl, ap, Bool, true, false, List, [], ◌∷◌, ◌++◌, length,
  take, drop, ltb, arith, append_assoc, length-append, take_all, take-append-drop, Bool-cases, inl,
  inr, ltb→lt, drop_all, ◌∙◌, length-drop,
}
use bbs.Ax25.NetromFrame.Wire.{Bytes}
use bbs.Ax25.NetromFrame.Header.{L3Header, more_follows}
use bbs.Ax25.NetromFrame.Frame.{Information}
use bbs.Netrom.Circuit.{connected, max_reassembly_bytes, max_window, frames_in_flight}
use bbs.Netrom.Circuit.Outbound.{fragments}
use bbs.Netrom.Transfer.{System}

abbrev pub Fragments : Type 0
Fragments = List (Bytes × Bool)

-- An empty text is not handed to the reader.
abbrev pub cons_text : Bytes → List Bytes → List Bytes
cons_text [] texts = texts
cons_text (b ∷ bytes) texts = (b ∷ bytes) ∷ texts

-- The texts that the fragments make, behind a partial text.
abbrev pub flush : Bytes → Fragments → List Bytes
flush acc [] = []
flush acc ((chunk, true) ∷ fs) = flush (acc ++ chunk) fs
flush acc ((chunk, false) ∷ fs) = cons_text (acc ++ chunk) (flush [] fs)

-- The partial text that is left behind the fragments.
abbrev pub residue : Bytes → Fragments → Bytes
residue acc [] = acc
residue acc ((chunk, true) ∷ fs) = residue (acc ++ chunk) fs
residue acc ((chunk, false) ∷ fs) = residue [] fs

-- No partial text passes the reassembly ceiling.
abbrev pub Fits : Bytes → Fragments → Type 0
Fits acc [] = length acc ≤ max_reassembly_bytes
Fits acc ((chunk, true) ∷ fs) =
    (length (acc ++ chunk) ≤ max_reassembly_bytes) × Fits (acc ++ chunk) fs
Fits acc ((chunk, false) ∷ fs) = (length (acc ++ chunk) ≤ max_reassembly_bytes) × Fits [] fs

pub cons_text-append :
    (t : Bytes) (xs ys : List Bytes) → cons_text t (xs ++ ys) ≡ cons_text t xs ++ ys
cons_text-append [] xs ys = refl
cons_text-append (b ∷ t) xs ys = refl

pub flush-append :
    (acc : Bytes) (xs ys : Fragments)
    → flush acc (xs ++ ys) ≡ flush acc xs ++ flush (residue acc xs) ys
flush-append acc [] ys = refl
flush-append acc ((chunk, true) ∷ xs) ys = flush-append (acc ++ chunk) xs ys
flush-append acc ((chunk, false) ∷ xs) ys =
    rw (flush-append [] xs ys)
      (cons_text-append (acc ++ chunk) (flush [] xs) (flush (residue [] xs) ys))

pub residue-append :
    (acc : Bytes) (xs ys : Fragments) → residue acc (xs ++ ys) ≡ residue (residue acc xs) ys
residue-append acc [] ys = refl
residue-append acc ((chunk, true) ∷ xs) ys = residue-append (acc ++ chunk) xs ys
residue-append acc ((chunk, false) ∷ xs) ys = residue-append [] xs ys

pub Fits-append :
    (acc : Bytes) (xs ys : Fragments) → Fits acc xs → Fits (residue acc xs) ys → Fits acc (xs ++ ys)
Fits-append acc [] ys h k = k
Fits-append acc ((chunk, true) ∷ xs) ys h k = (h.0, Fits-append (acc ++ chunk) xs ys h.1 k)
Fits-append acc ((chunk, false) ∷ xs) ys h k = (h.0, Fits-append [] xs ys h.1 k)

-- The fragments of a text make that text, leave nothing behind, and fit if the text does.
pub record Makes (acc : Bytes) (text : Bytes) (fs : Fragments) : Type 0 where
  pub flushed : flush acc fs ≡ cons_text (acc ++ text) []
  pub settled : residue acc fs ≡ []
  pub fits : length (acc ++ text) ≤ max_reassembly_bytes → Fits acc fs

-- One more fragment in front, of the bytes that the rest does not have.
Makes-more :
    (acc chunk later text : Bytes) (fs : Fragments)
    → chunk ++ later ≡ text
    → Makes (acc ++ chunk) later fs
    → Makes acc text ((chunk, true) ∷ fs)
Makes-more acc chunk later text fs e m =
    let whole : (acc ++ chunk) ++ later ≡ acc ++ text = rw (append_assoc, e) in
    record {
      flushed = m.flushed ∙ ap (λ t. cons_text t []) whole;
      settled = m.settled;
      fits = λ h.
          let fit : length ((acc ++ chunk) ++ later) ≤ max_reassembly_bytes = rw whole h in
          (omega (arith, fit, length-append (acc ++ chunk) later), m.fits fit);
    }

Makes-last : (acc text : Bytes) → Makes acc text ((text, false) ∷ [])
Makes-last acc text = record { flushed = refl; settled = refl; fits = λ h. (h, omega arith) }

fragments-nil : (fuel mtu : ℕ) → fragments fuel mtu [] ≡ []
unfolding fragments
fragments-nil zero mtu = refl
fragments-nil (suc fuel) mtu = refl

pub fragments-Makes :
    (fuel mtu : ℕ) (acc bytes : Bytes)
    → 1 ≤ mtu
    → 0 < length bytes
    → length bytes ≤ fuel
    → Makes acc bytes (fragments fuel mtu bytes)
unfolding fragments
fragments-Makes zero mtu acc bytes m n h = absurd (omega arith)
fragments-Makes (suc fuel) mtu acc [] m n h = absurd (omega arith)
fragments-Makes (suc fuel) mtu acc (b ∷ bs) m n h =
    let text = b ∷ bs in
    let l = length-drop mtu text in
    elim (Bool-cases (ltb mtu (length text))) [
      | inl more ↦
          let lt = ltb→lt mtu (length text) more in
          rw more (
            Makes-more acc (take mtu text) (drop mtu text) text (fragments fuel mtu (drop mtu text))
              (take-append-drop mtu text)
              (fragments-Makes fuel mtu (acc ++ take mtu text) (drop mtu text) m
                (omega (arith, l, lt)) (omega (arith, l))))
      | inr last ↦
          let le : length text ≤ mtu = ground arith in
          rw (last, take_all mtu text le, drop_all mtu text le, fragments-nil fuel mtu)
            (Makes-last acc text)
    ]

abbrev pub frags_of : List Information → Fragments
frags_of [] = []
frags_of (i ∷ is) = (i.info, more_follows i.header) ∷ frags_of is

-- The frames under way carry consecutive numbers from `n` on.
abbrev pub Numbered : ℕ → List Information → Type 0
Numbered n [] = Unit
Numbered n (i ∷ is) = (i.header.tx_seq ≡ n) × Numbered ((n + 1) % 256) is

-- The acknowledgements under way acknowledge one frame each, from `n` on.
abbrev pub AckNumbered : ℕ → List L3Header → Type 0
AckNumbered n [] = Unit
AckNumbered n (h ∷ hs) = (h.rx_seq ≡ (n + 1) % 256) × AckNumbered ((n + 1) % 256) hs

-- The fragments that the receiver has not seen: under way, and then queued.
abbrev pub unseen : System → Fragments
unseen s = frags_of s.forward ++ s.sender.pending_outbound

pub record IsSound (s : System) : Type 0 where
  pub up : s.sender.state ≡ connected
  pub usable : s.sender.writer_closing ≡ false
  pub mtu : 1 ≤ s.sender.info_mtu
  pub window_low : 1 ≤ s.sender.accepted_window
  pub window_high : s.sender.accepted_window ≤ max_window
  pub va_byte : s.sender.va < 256
  pub vs_is : s.sender.vs ≡ (s.sender.va + length s.backward + length s.forward) % 256
  pub vr_is : s.receiver.vr ≡ (s.sender.va + length s.backward) % 256
  pub in_window : length s.backward + length s.forward ≤ s.sender.accepted_window
  pub numbered : Numbered s.receiver.vr s.forward
  pub acked : AckNumbered s.sender.va s.backward
  pub fits : Fits s.receiver.reassembly (unseen s)
  pub settled : residue s.receiver.reassembly (unseen s) ≡ []
  pub delivered : s.receiver.reader_data ++ flush s.receiver.reassembly (unseen s) ≡ s.messages
  pub woken :
      s.waiting ≡ true
      → s.sender.window_event ≡ false
      → s.sender.accepted_window ≤ frames_in_flight s.sender

pub frags_of-append : (xs ys : List Information) → frags_of (xs ++ ys) ≡ frags_of xs ++ frags_of ys
frags_of-append [] ys = refl
frags_of-append (i ∷ xs) ys = rw (frags_of-append xs ys)

pub Numbered-snoc :
    (n : ℕ) (is : List Information) (i : Information)
    → n < 256
    → Numbered n is
    → i.header.tx_seq ≡ (n + length is) % 256
    → Numbered n (is ++ i ∷ [])
Numbered-snoc n [] i b h e = (omega (arith, e), tt)
Numbered-snoc n (x ∷ is) i b h e =
    (h.0, Numbered-snoc ((n + 1) % 256) is i (omega arith) h.1 (omega (arith, e)))

pub AckNumbered-snoc :
    (n : ℕ) (hs : List L3Header) (h : L3Header)
    → n < 256
    → AckNumbered n hs
    → h.rx_seq ≡ (n + length hs + 1) % 256
    → AckNumbered n (hs ++ h ∷ [])
AckNumbered-snoc n [] h b k e = (omega (arith, e), tt)
AckNumbered-snoc n (x ∷ hs) h b k e =
    (k.0, AckNumbered-snoc ((n + 1) % 256) hs h (omega arith) k.1 (omega (arith, e)))
