-- ===== src/Registry/Expiry.antt =====
-- src/server/registry.rs: what `sweep` takes away.
use tunlet.Prelude.{
  ℕ, ◌≡◌, refl, ◌∙◌, arith, ◌==◌, leb, ltb, if◌then◌else◌, Bool, false, ◌||◌, none, some, Option,
  List, [], ◌∷◌, inl, inr, Option-cases, ℕ_discrete,
}
use tunlet.Prelude.Maps.{lookup, retain, Distinct, lookup-remove, lookup-retain}
use tunlet.Registry.State.{
  Registry, PortSlot, active, reserved, PendingRequest, RequestKey, key_discrete, slot_at,
  request_of,
}
use tunlet.Registry.Lifecycle.{sweep, unexpired, expired_slots, release_all, release_slot}
use tunlet.Registry.Invariant.{Inv}

-- What a moment leaves of a slot and of a request.
abbrev pub live_slot : ℕ → Option PortSlot → Option PortSlot
live_slot now none = none
live_slot now (some slot) = elim slot.state [
  | active s ↦ some slot
  | reserved i g expires_at ↦ if leb expires_at now then none else some slot
]

abbrev pub live_request : ℕ → Option PendingRequest → Option PendingRequest
live_request now none = none
live_request now (some entry) = if ltb now entry.deadline then some entry else none

unfoldable listed : ℕ → List (ℕ × ℕ) → Bool
listed port [] = false
listed port ((p, g) ∷ xs) = port == p || listed port xs

release_slot-slot_at :
    (p port : ℕ) (self : Registry)
    → slot_at (release_slot port self) p ≡ (if p == port then none else slot_at self p)
release_slot-slot_at p port self = elim (Option-cases (slot_at self port)) [
  | inl e ↦ rw (e, release_slot) (ground arith)
  | inr (slot, e) ↦
      rw (e, release_slot) (ground (arith, lookup-remove ℕ_discrete p port self.ports))
]

release_all-slot_at :
    (p : ℕ) (expired : List (ℕ × ℕ)) (self : Registry)
    → slot_at (release_all expired self) p ≡ (if listed p expired then none else slot_at self p)
unfolding release_all listed
release_all-slot_at p [] self = refl
release_all-slot_at p ((port, g) ∷ expired) self = ground (
  arith,
  release_all-slot_at p expired (release_slot port self),
  release_slot-slot_at p port self,
)

not_listed :
    (now p : ℕ) (ports : List (ℕ × PortSlot))
    → lookup ℕ_discrete p ports ≡ none
    → listed p (expired_slots now ports) ≡ false
unfolding listed expired_slots lookup
not_listed now p [] e = refl
not_listed now p ((port, slot) ∷ ports) e = ground (arith, not_listed now p ports)

listed-live_slot :
    (now p : ℕ) (ports : List (ℕ × PortSlot))
    → Distinct ℕ_discrete ports
    → (if listed p (expired_slots now ports) then none else lookup ℕ_discrete p ports)
      ≡ live_slot now (lookup ℕ_discrete p ports)
unfolding listed expired_slots lookup
listed-live_slot now p [] d = refl
listed-live_slot now p ((port, slot) ∷ ports) (absent, d) =
    ground (arith, listed-live_slot now p ports d, not_listed now port ports absent)

release_all_sessions :
    (expired : List (ℕ × ℕ)) (self : Registry) → (release_all expired self).sessions ≡ self.sessions
unfolding release_all
release_all_sessions [] self = refl
release_all_sessions ((port, g) ∷ expired) self =
    release_all_sessions expired (release_slot port self) ∙ ground arith

release_all_pending :
    (expired : List (ℕ × ℕ)) (self : Registry) (key : RequestKey)
    → request_of (release_all expired self) key ≡ request_of self key
unfolding release_all
release_all_pending [] self key = refl
release_all_pending ((port, g) ∷ expired) self key =
    release_all_pending expired (release_slot port self) key ∙ ground arith

live_requests :
    (now : ℕ) (self : Registry) (key : RequestKey)
    → Distinct key_discrete self.pending
    → lookup key_discrete key (retain (unexpired now) self.pending)
      ≡ live_request now (request_of self key)
unfolding unexpired
live_requests now self key d =
    ground (arith, lookup-retain key_discrete (unexpired now) key self.pending d)

-- Where the tables agree, a sweep at a moment removes exactly the slots whose reservation has
-- expired at that moment and exactly the requests whose deadline is not after it; the other slots
-- and requests and all sessions stay as they are.
pub sweep_exact :
    (now : ℕ) (self : Registry)
    → Inv self
    → ((p : ℕ) → slot_at (sweep now self) p ≡ live_slot now (slot_at self p))
      × ((key : RequestKey)
          → request_of (sweep now self) key ≡ live_request now (request_of self key))
      × ((sweep now self).sessions ≡ self.sessions)
unfolding sweep
sweep_exact now self v = (
  λ p.
      release_all-slot_at p (expired_slots now self.ports) _
      ∙ listed-live_slot now p self.ports v.distinct_ports,
  λ key.
      release_all_pending (expired_slots now self.ports) _ key
      ∙ live_requests now self key v.distinct_requests,
  release_all_sessions (expired_slots now self.ports) _,
)
