-- ===== src/Core/EventBus/Spec.antt =====
-- What the bus promises: the set of the registrations that stand, and who hears a topic.
use bbs.Prelude.{
  ℕ, ◌+◌, ◌-◌, ◌*◌, Bool, true, false, not, ◌&&◌, ◌||◌, ◌≡◌, refl, sym, ◌∙◌, List, [], ◌∷◌, ◌++◌,
  map, none, arith, if◌then◌else◌, Eq, ◌=?◌, nat_eq, list_eq, ==_iff, list_beq_iff, ◌==◌,
}
use bbs.Text.{Text, starts_with}
use bbs.Dict.{get, has}
use bbs.Dict.Laws.{get-put}
use bbs.Dict.Totals.{Distinct, Distinct-put}
use bbs.Core.EventBus.{
  Bus, callbacks_of, mem, remove_first, subscribe, unsubscribe, targets, matches,
}

-- The calls of a program, the last one first.
pub data Call {ℓ} (C : Type ℓ) : Type ℓ where
  subscribes unsubscribes : Text → C → Call C

-- The topics that reach a published one: itself, and its beginnings in front of a dot.
abbrev pub heard_as : Text → List Text
heard_as [] = [] ∷ []
heard_as (c ∷ s) = (if c == 46 then [] ∷ [] else []) ++ map (◌∷◌ c) (heard_as s)

module _ {ℓ} {C : Type ℓ} ⦃e : Eq C⦄ where
  abbrev pub step : Call C → Bus C → Bus C
  step (subscribes t c) bus = subscribe t c bus
  step (unsubscribes t c) bus = unsubscribe t c bus

  abbrev pub after : List (Call C) → Bus C
  after [] = []
  after (call ∷ calls) = step call (after calls)

  -- The abstract view: a registration stands if the last call about it made it.
  abbrev pub stands : List (Call C) → Text → C → Bool
  stands [] t c = false
  stands (subscribes s d ∷ calls) t c = (s =? t && d =? c) || stands calls t c
  stands (unsubscribes s d ∷ calls) t c = not (s =? t && d =? c) && stands calls t c

  abbrev pub count : C → List C → ℕ
  count c [] = 0
  count c (d ∷ ds) = (if d =? c then 1 else 0) + count c ds

  -- The number of the topics that stand.
  abbrev pub standing : List (Call C) → C → List Text → ℕ
  standing calls c [] = 0
  standing calls c (t ∷ ts) = (if stands calls t c then 1 else 0) + standing calls c ts

  count-append : (c : C) (xs ys : List C) → count c (xs ++ ys) ≡ count c xs + count c ys
  count-append c [] ys = omega arith
  count-append c (x ∷ xs) ys = omega (arith, count-append c xs ys)

  mem-count : (c : C) (xs : List C) → mem c xs ≡ (if count c xs == 0 then false else true)
  mem-count c [] = refl
  mem-count c (x ∷ xs) = ground (arith, mem-count c xs)

  count-remove_first :
      (c d : C) (xs : List C)
      → count c (remove_first d xs) ≡ (if d =? c then count c xs - 1 else count c xs)
  unfolding remove_first
  count-remove_first c d [] = ground arith
  count-remove_first c d (x ∷ xs) =
      ground (arith, e.beq_iff x d, e.beq_iff x c, e.beq_iff d c, count-remove_first c d xs)

  -- The registry holds each standing registration once, and nothing else.
  count-after :
      (calls : List (Call C)) (t : Text) (c : C)
      → count c (callbacks_of (get (after calls) t)) ≡ (if stands calls t c then 1 else 0)
  unfolding subscribe unsubscribe
  count-after [] t c = unfold get in refl
  count-after (subscribes s d ∷ calls) t c =
      let there : List C = callbacks_of (get (after calls) s) in
      ground (
        arith,
        get-put (after calls) s t (if mem d there then there else there ++ d ∷ []),
        list_beq_iff s t,
        e.beq_iff d c,
        mem-count d there,
        count-append c there (d ∷ []),
        count-after calls t c,
        count-after calls s d,
      )
  count-after (unsubscribes s d ∷ calls) t c =
      let there : List C = callbacks_of (get (after calls) s) in
      ground (
        arith,
        get-put (after calls) s t (remove_first d there),
        list_beq_iff s t,
        e.beq_iff d c,
        count-remove_first c d there,
        count-after calls t c,
        count-after calls s d,
      )

  after-Distinct : (calls : List (Call C)) → Distinct (after calls)
  unfolding subscribe unsubscribe
  after-Distinct [] = tt
  after-Distinct (subscribes s d ∷ calls) = Distinct-put (after calls) s _ (after-Distinct calls)
  after-Distinct (unsubscribes s d ∷ calls) = Distinct-put (after calls) s _ (after-Distinct calls)

occurrences-map :
    (c d : ℕ) (t : Text) (ss : List Text)
    → count (d ∷ t) (map (◌∷◌ c) ss) ≡ (if d == c then count t ss else 0)
occurrences-map c d t [] = ground arith
occurrences-map c d t (s ∷ ss) = ground (arith, ==_iff d c, ==_iff c d, occurrences-map c d t ss)

occurrences-map_nil : (c : ℕ) (ss : List Text) → count [] (map (◌∷◌ c) ss) ≡ 0
occurrences-map_nil c [] = refl
occurrences-map_nil c (s ∷ ss) = omega (arith, occurrences-map_nil c ss)

-- Every topic that matches a published one is heard once.
count-heard_as : (topic t : Text) → count t (heard_as topic) ≡ (if matches topic t then 1 else 0)
unfolding matches starts_with
count-heard_as [] [] = refl
count-heard_as [] (d ∷ t) = ground arith
count-heard_as (c ∷ s) [] = ground (
  arith,
  ==_iff c 46,
  ==_iff 46 c,
  count-append [] (if c == 46 then [] ∷ [] else []) (map (◌∷◌ c) (heard_as s)),
  occurrences-map_nil c (heard_as s),
)
count-heard_as (c ∷ s) (d ∷ t) = ground (
  arith,
  ==_iff c d,
  ==_iff d c,
  count-append (d ∷ t) (if c == 46 then [] ∷ [] else []) (map (◌∷◌ c) (heard_as s)),
  occurrences-map c d t (heard_as s),
  count-heard_as s t,
)

module _ {ℓ} {C : Type ℓ} ⦃e : Eq C⦄ where
  -- The registrations of a callback under a list of topics.
  abbrev listed : C → Bus C → List Text → ℕ
  listed c bus [] = 0
  listed c bus (t ∷ ts) = count c (callbacks_of (get bus t)) + listed c bus ts

  listed-nil : (c : C) (ts : List Text) → listed c [] ts ≡ 0
  unfolding get
  listed-nil c [] = refl
  listed-nil c (t ∷ ts) = omega (arith, listed-nil c ts)

  get-absent : (bus : Bus C) (t : Text) → has bus t ≡ false → get bus t ≡ none
  unfolding get has
  get-absent [] t h = refl
  get-absent ((s, cs) ∷ bus) t h = ground (arith, get-absent bus t)

  listed-cons :
      (c : C) (t : Text) (cs : List C) (bus : Bus C) (ts : List Text)
      → has bus t ≡ false
      → listed c ((t, cs) ∷ bus) ts ≡ count c cs * count t ts + listed c bus ts
  unfolding get
  listed-cons c t cs bus [] h = omega arith
  listed-cons c t cs bus (s ∷ ts) h =
      ground
        (arith, list_beq_iff t s, list_beq_iff s t, get-absent bus t h, listed-cons c t cs bus ts h)

  count-targets :
      (c : C) (bus : Bus C) (topic : Text)
      → Distinct bus
      → count c (targets bus topic) ≡ listed c bus (heard_as topic)
  unfolding targets
  count-targets c [] topic k = sym (listed-nil c (heard_as topic))
  count-targets c ((t, cs) ∷ bus) topic (fresh, k) = ground (
    arith,
    count-append c cs (targets bus topic),
    listed-cons c t cs bus (heard_as topic) fresh,
    count-heard_as topic t,
    count-targets c bus topic k,
  )

  listed-standing :
      (calls : List (Call C)) (c : C) (ts : List Text)
      → listed c (after calls) ts ≡ standing calls c ts
  listed-standing calls c [] = refl
  listed-standing calls c (t ∷ ts) =
      omega (arith, count-after calls t c, listed-standing calls c ts)

  -- After any subscriptions and unsubscriptions, a published topic is delivered to a callback as
  -- many times as there are standing registrations of it under the topic itself or one of its
  -- beginnings in front of a dot.
  pub targets-standing :
      (calls : List (Call C)) (topic : Text) (c : C)
      → count c (targets (after calls) topic) ≡ standing calls c (heard_as topic)
  targets-standing calls topic c =
      count-targets c (after calls) topic (after-Distinct calls)
      ∙ listed-standing calls c (heard_as topic)
