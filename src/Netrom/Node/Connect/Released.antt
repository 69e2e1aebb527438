-- ===== src/Netrom/Node/Connect/Released.antt =====
-- What a CONNECT leaves behind, and what it asks of the network, whatever the outcomes.
use bbs.Prelude.{
  ℕ, ◌-◌, Bool, true, false, ◌≡◌, ◌≢◌, ◌⊎◌, refl, ◌∙◌, [], ◌∷◌, ◌++◌, Option, none, some, arith,
  if◌then◌else◌, nat_eq, list_eq, Bool-cases, inl, inr,
}
use bbs.Text.{Text, upper, codes}
use bbs.Netrom.Router.{NetromRouter, RouteEntry}
use bbs.Netrom.Router.Lookup.{get_route, best_neighbor_for}
use bbs.Netrom.Gateway.{GatewayGuard, Reason, check, acquire, release, note_refusal}
use bbs.Netrom.Gateway.Permitted.{IsPermitted}
use bbs.Netrom.Node.Connect.{
  Outcomes, Crosslink, link_failed, link_raised, no_manager, manager, Origin, timed_out, refused,
  failed, origin_cancelled, answered, Bridge, Message, NodeConfig, NodeState, NodeResult, Ended,
  returned, raised, bridged, connect_held, conclude, vacate, open_crosslink, originate, occupy,
  gate, reserve, refuse_connect, attempt_of, has_crosslink, tell, connecting, ask, resume,
  reason_text, refused_for, busy,
}
use bbs.Netrom.Node.Connect.Accounts.{
  SameAccounts, SameAccounts-refl, SameAccounts-trans, acquire-refused, release-acquire,
}

-- The conditions under which a circuit to `dest` through `neighbor` is asked for.
pub record IsGranted (now clock : ℕ) (cfg : NodeConfig) (router : NetromRouter) (target : Text)
    (guard : GatewayGuard) (neighbor dest : Text) : Type 0 where
  pub allowed : cfg.may_connect ≡ true
  pub route : (r : RouteEntry) × (get_route target router ≡ some r) × (dest ≡ upper r.dest_call)
  pub elsewhere : dest ≢ cfg.node_call
  pub next_hop : best_neighbor_for target cfg.min_quality now router ≡ some neighbor
  pub crosslink : has_crosslink cfg.transports ≡ true
  pub permitted : IsPermitted clock (attempt_of cfg dest neighbor) guard
  pub slot :
      (acquire clock cfg.user_call (check clock (attempt_of cfg dest neighbor) guard).1).0 ≡ true

-- The slots are as before, and nothing is bridged.
pub record IsReleased (s t : NodeState) : Type 0 where
  pub accounts : SameAccounts s.guard t.guard
  pub gateways : t.active_gateways ≡ s.active_gateways
  pub target : s.current_target ≡ none → t.current_target ≡ none

-- At most one circuit is asked for, and that is granted.
abbrev pub AsksFor : (Text → Text → Type 0) → Text → NodeState → NodeState → Type 0
AsksFor granted user s t =
    (t.originated ≡ s.originated)
    ⊎ ((neighbor : Text) × (dest : Text) × (t.originated
          ≡ s.originated ++ (neighbor, (dest, user)) ∷ [])
        × granted neighbor dest)

-- What the steps between the slot's reservation and its release do to the state.
abbrev Carries : Text → Text → Text → NodeState → NodeState → Type 0
Carries neighbor dest user s t =
    (t.guard ≡ s.guard)
    × (t.active_gateways ≡ s.active_gateways)
    × ((t.originated ≡ s.originated)
        ⊎ (t.originated ≡ s.originated ++ (neighbor, (dest, user)) ∷ []))

originate-keeps :
    (alias : Text) (origin : Origin) (b : Bridge) (s : NodeState)
    → ((originate alias origin b s).0.guard ≡ s.guard)
      × ((originate alias origin b s).0.active_gateways ≡ s.active_gateways)
      × ((originate alias origin b s).0.originated ≡ s.originated)
originate-keeps alias timed_out b s = (refl, refl, refl)
originate-keeps alias refused b s = (refl, refl, refl)
originate-keeps alias failed b s = (refl, refl, refl)
originate-keeps alias origin_cancelled b s = (refl, refl, refl)
originate-keeps alias answered b s = (refl, refl, refl)

open_crosslink-Carries :
    (cfg : NodeConfig) (alias dest neighbor : Text) (o : Outcomes) (l : Crosslink) (s : NodeState)
    → Carries neighbor dest cfg.user_call s (open_crosslink cfg alias dest neighbor o l s).0
open_crosslink-Carries cfg alias dest neighbor o link_failed s = (refl, refl, inl refl)
open_crosslink-Carries cfg alias dest neighbor o link_raised s = (refl, refl, inl refl)
open_crosslink-Carries cfg alias dest neighbor o no_manager s = (refl, refl, inl refl)
open_crosslink-Carries cfg alias dest neighbor o manager s =
    let asked : NodeState = ask neighbor dest cfg.user_call s in
    let (guard, gateways, originated) = originate-keeps alias o.origin o.bridge asked in
    (guard, gateways, inr originated)

-- What is left when the slot is vacated.
abbrev Vacated : NodeConfig → NodeState → NodeState → Type 0
Vacated cfg s t =
    (t.guard ≡ release cfg.user_call s.guard)
    × (t.active_gateways ≡ s.active_gateways - 1)
    × (t.current_target ≡ none)
    × (t.originated ≡ s.originated)

resume-Vacated :
    (cfg : NodeConfig) (s t : NodeState) → Vacated cfg s t → Vacated cfg s (resume cfg t)
resume-Vacated cfg s t v = elim (Bool-cases cfg.reconnect) [ inl e ↦ rw e v | inr e ↦ rw e v ]

conclude-Vacated :
    (cfg : NodeConfig) (s : NodeState) (e : Ended) → Vacated cfg s (conclude cfg (s, e)).0
unfolding vacate
conclude-Vacated cfg s returned = (refl, refl, refl, refl)
conclude-Vacated cfg s raised = (refl, refl, refl, refl)
conclude-Vacated cfg s (bridged true) = (refl, refl, refl, refl)
conclude-Vacated cfg s (bridged false) =
    resume-Vacated cfg s (vacate cfg s) (refl, refl, refl, refl)

-- What a handler must do: free its slot, and ask for granted circuits only.
abbrev pub IsSafe : (Text → Text → Type 0) → Text → NodeState → NodeState → Type 0
IsSafe granted user s t = IsReleased s t × AsksFor granted user s t

connect_held-IsSafe :
    (cfg : NodeConfig) (alias dest neighbor : Text) (o : Outcomes) (clock : ℕ)
    (guard : GatewayGuard) (s : NodeState) (granted : Text → Text → Type 0)
    → SameAccounts s.guard guard
    → (acquire clock cfg.user_call guard).0 ≡ true
    → granted neighbor dest
    → IsSafe granted cfg.user_call s
        (connect_held cfg alias dest neighbor o (acquire clock cfg.user_call guard).1 s).0
unfolding connect_held
connect_held-IsSafe cfg alias dest neighbor o clock guard s granted same slot g =
    let start : NodeState =
      tell (connecting alias dest neighbor)
        (occupy alias (acquire clock cfg.user_call guard).1 s) in
    let (carried, counted, asked) = open_crosslink-Carries cfg alias dest neighbor o o.link start in
    let end : NodeState × Ended = open_crosslink cfg alias dest neighbor o o.link start in
    let (freed, less, empty, kept) = conclude-Vacated cfg end.0 end.1 in
    (
      record {
        accounts =
            rw (freed, carried)
              (SameAccounts-trans s.guard guard
                (release cfg.user_call (acquire clock cfg.user_call guard).1) same
                (release-acquire clock cfg.user_call guard slot));
        gateways = omega (arith, less, counted);
        target = λ h. empty;
      },
      elim asked [ inl e ↦ inl (kept ∙ e) | inr e ↦ inr (neighbor, dest, kept ∙ e, g) ],
    )

-- A handler that touches neither the guard's slots nor the network.
pub quiet :
    (granted : Text → Text → Type 0) (user : Text) (s t : NodeState)
    → SameAccounts s.guard t.guard
    → t.active_gateways ≡ s.active_gateways
    → t.current_target ≡ s.current_target
    → t.originated ≡ s.originated
    → IsSafe granted user s t
quiet granted user s t same gateways target asked =
    (record { accounts = same; gateways = gateways; target = λ h. target ∙ h }, inl asked)

pub tell-IsSafe :
    (granted : Text → Text → Type 0) (user : Text) (s : NodeState) (m : Message)
    → IsSafe granted user s (tell m s)
tell-IsSafe granted user s m =
    quiet granted user s (tell m s) (SameAccounts-refl s.guard) refl refl refl

refuse_connect-IsSafe :
    (granted : Text → Text → Type 0) (clock : ℕ) (cfg : NodeConfig) (dest why : Text) (m : Message)
    (guard : GatewayGuard) (s : NodeState)
    → SameAccounts s.guard guard
    → IsSafe granted cfg.user_call s (refuse_connect clock cfg dest why m guard s).0
unfolding note_refusal
refuse_connect-IsSafe granted clock cfg dest why m guard s same =
    quiet granted cfg.user_call s (refuse_connect clock cfg dest why m guard s).0
      (record { total = same.total; per_user = same.per_user }) refl refl refl

reserve-IsSafe :
    (granted : Text → Text → Type 0) (clock : ℕ) (cfg : NodeConfig) (alias dest neighbor : Text)
    (o : Outcomes) (guard : GatewayGuard) (s : NodeState) (taken : Bool)
    → SameAccounts s.guard guard
    → (acquire clock cfg.user_call guard).0 ≡ taken
    → ((acquire clock cfg.user_call guard).0 ≡ true → granted neighbor dest)
    → IsSafe granted cfg.user_call s
        (reserve clock cfg alias dest neighbor o (taken, (acquire clock cfg.user_call guard).1) s).0
reserve-IsSafe granted clock cfg alias dest neighbor o guard s true same slot g =
    connect_held-IsSafe cfg alias dest neighbor o clock guard s granted same slot (g slot)
reserve-IsSafe granted clock cfg alias dest neighbor o guard s false same slot g =
    refuse_connect-IsSafe granted clock cfg dest (codes "Node busy — circuit cap") busy
      (acquire clock cfg.user_call guard).1 s
      (rw (acquire-refused clock cfg.user_call guard slot) same)

pub gate-IsSafe :
    (granted : Text → Text → Type 0) (clock : ℕ) (cfg : NodeConfig) (alias dest neighbor : Text)
    (o : Outcomes) (s : NodeState) (guard : GatewayGuard) (reason : Option Reason)
    → SameAccounts s.guard guard
    → (reason ≡ none → (acquire clock cfg.user_call guard).0 ≡ true → granted neighbor dest)
    → IsSafe granted cfg.user_call s (gate clock cfg alias dest neighbor o (reason, guard) s).0
gate-IsSafe granted clock cfg alias dest neighbor o s guard (some reason) same g =
    refuse_connect-IsSafe granted clock cfg dest (reason_text reason) (refused_for reason) guard s
      same
gate-IsSafe granted clock cfg alias dest neighbor o s guard none same g =
    reserve-IsSafe granted clock cfg alias dest neighbor o guard s
      (acquire clock cfg.user_call guard).0 same refl (g refl)

pub if-IsSafe :
    (granted : Text → Text → Type 0) (user : Text) (s : NodeState) (b : Bool) (x y : NodeResult)
    → (b ≡ true → IsSafe granted user s x.0)
    → (b ≡ false → IsSafe granted user s y.0)
    → IsSafe granted user s (if b then x else y).0
if-IsSafe granted user s true x y p q = p refl
if-IsSafe granted user s false x y p q = q refl
