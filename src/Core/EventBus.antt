-- ===== src/Core/EventBus.antt =====
-- bbs/core/event_bus.py: the publish/subscribe bus of the plugins, for any type of callbacks with
-- an equality test. Awaiting the callbacks and logging what they raise is left out.
pub mod Spec
mod Tests
use bbs.Prelude.{
  ℕ, ◌+◌, Bool, true, false, ◌||◌, List, [], ◌∷◌, ◌++◌, Option, none, some, if◌then◌else◌, length,
  Eq, ◌=?◌, nat_eq, list_eq,
}
use bbs.Text.{Text, starts_with}
use bbs.Dict.{Dict, get, put}

abbrev pub Bus {ℓ} : Type ℓ → Type ℓ
Bus C = Dict Text (List C)

abbrev pub callbacks_of {ℓ} : {A : Type ℓ} → Option (List A) → List A
callbacks_of none = []
callbacks_of (some cs) = cs

-- The published topic is the registered one, or extends it behind a dot.
unfoldable pub matches : Text → Text → Bool
matches topic sub_topic = topic =? sub_topic || starts_with (sub_topic ++ 46 ∷ []) topic

module _ {ℓ} {C : Type ℓ} where
  -- The callbacks of every matching topic, in the order of the registrations.
  unfoldable pub targets : Bus C → Text → List C
  targets [] topic = []
  targets ((sub_topic, callbacks) ∷ bus) topic =
      let rest = targets bus topic in if matches topic sub_topic then callbacks ++ rest else rest

  unfoldable pub total_count : Bus C → ℕ
  total_count [] = 0
  total_count ((topic, callbacks) ∷ bus) = length callbacks + total_count bus

  unfoldable pub subscriber_count : Bus C → Option Text → ℕ
  subscriber_count bus none = total_count bus
  subscriber_count bus (some topic) = length (callbacks_of (get bus topic))

module _ {ℓ} {C : Type ℓ} ⦃e : Eq C⦄ where
  -- callback in callbacks
  abbrev pub mem : C → List C → Bool
  mem c [] = false
  mem c (d ∷ ds) = d =? c || mem c ds

  -- callbacks.remove(callback), silent if it is not there
  unfoldable pub remove_first : C → List C → List C
  remove_first c [] = []
  remove_first c (d ∷ ds) = let rest = remove_first c ds in if d =? c then ds else d ∷ rest

  -- Looking at an unknown topic makes an empty entry.
  unfoldable pub subscribe : Text → C → Bus C → Bus C
  subscribe topic c bus =
      let callbacks = callbacks_of (get bus topic) in
      put bus topic (if mem c callbacks then callbacks else callbacks ++ c ∷ [])

  unfoldable pub unsubscribe : Text → C → Bus C → Bus C
  unsubscribe topic c bus = put bus topic (remove_first c (callbacks_of (get bus topic)))
