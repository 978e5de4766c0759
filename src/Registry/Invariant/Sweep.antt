-- ===== src/Registry/Invariant/Sweep.antt =====
-- src/server/registry.rs: the invariant in `sweep` and `shutdown_all`.
use tunlet.Prelude.{
  ℕ, ◌≡◌, ◌≢◌, refl, ◌∙◌, arith, leb, none, All, All-map, ℕ_discrete, List, [], ◌∷◌, inl, inr,
  Bool-cases, Option-cases,
}
use tunlet.Prelude.Maps.{
  lookup, Distinct, lookup-remove, lookup-retain, remove-Distinct, retain-Distinct, length-remove,
}
use tunlet.Protocol.Enums.{SessionId}
use tunlet.Registry.State.{
  Registry, Env, SessionRef, PortSlot, SlotState, active, reserved, key_discrete, slot_at,
}
use tunlet.Registry.Lifecycle.{
  sweep, shutdown_all, release_slot, unexpired, expired_slots, release_all, notify_all,
  cancel_listeners,
}
use tunlet.Registry.Consistent.{active_in, keep-Consistent}
use tunlet.Registry.Invariant.{Holds, Inv, owner_at}

-- A port with a slot that nobody owns.
abbrev pub Reserved : List (ℕ × PortSlot) → ℕ × ℕ → Type 0
Reserved ports (port, generation) =
    (lookup ℕ_discrete port ports ≢ none) × (active_in (lookup ℕ_discrete port ports) ≡ none)

Reserved-cons :
    (port : ℕ) (slot : PortSlot) (ports : List (ℕ × PortSlot)) (x : ℕ × ℕ)
    → lookup ℕ_discrete port ports ≡ none
    → Reserved ports x
    → Reserved ((port, slot) ∷ ports) x
unfolding lookup
Reserved-cons port slot ports (p, g) absent r = ground arith

All-Reserved-cons :
    (port : ℕ) (slot : PortSlot) (ports : List (ℕ × PortSlot)) (xs : List (ℕ × ℕ))
    → lookup ℕ_discrete port ports ≡ none
    → All (Reserved ports) xs
    → All (Reserved ((port, slot) ∷ ports)) xs
All-Reserved-cons port slot ports [] absent h = tt
All-Reserved-cons port slot ports (x ∷ xs) absent (hx, h) =
    (Reserved-cons port slot ports x absent hx, All-Reserved-cons port slot ports xs absent h)

head_Reserved :
    (port l c : ℕ) (i : SessionId) (g t : ℕ) (ports : List (ℕ × PortSlot))
    → Reserved
        ((port, record { listener_id = l; listener_cancel = c; state = reserved i g t }) ∷ ports)
        (port, g)
unfolding lookup
head_Reserved port l c i g t ports = ground arith

abbrev slot_with : ℕ → ℕ → SlotState → PortSlot
slot_with l c st = record { listener_id = l; listener_cancel = c; state = st }

expired_first :
    (now port l c : ℕ) (st : SlotState) (ports : List (ℕ × PortSlot))
    → All (Reserved ((port, slot_with l c st) ∷ ports)) (expired_slots now ports)
    → All
        (Reserved ((port, slot_with l c st) ∷ ports))
        (expired_slots now ((port, slot_with l c st) ∷ ports))
unfolding expired_slots
expired_first now port l c (active s) ports rest = rest
expired_first now port l c (reserved i g t) ports rest = elim (Bool-cases (leb t now)) [
  | inl old ↦ rw old (head_Reserved port l c i g t ports, rest)
  | inr young ↦ rw young rest
]

-- Only reservations expire.
pub expired_slots-Reserved :
    (now : ℕ) (ports : List (ℕ × PortSlot))
    → Distinct ℕ_discrete ports
    → All (Reserved ports) (expired_slots now ports)
unfolding expired_slots
expired_slots-Reserved now [] d = tt
expired_slots-Reserved now ((port, slot) ∷ ports) (absent, d) =
    expired_first now port slot.listener_id slot.listener_cancel slot.state ports (
      All-Reserved-cons port slot ports (expired_slots now ports) absent
        (expired_slots-Reserved now ports d))

release_slot-Inv :
    (port : ℕ) (self : Registry)
    → Inv self
    → owner_at self port ≡ none
    → Inv (release_slot port self)
      × ((p : ℕ) → owner_at self p ≡ none → owner_at (release_slot port self) p ≡ none)
release_slot-Inv port self v vacant = elim (Option-cases (slot_at self port)) [
  | inl e ↦ rw (e, release_slot) (v, λ p h. h)
  | inr (slot, e) ↦
      rw (e, release_slot)
        (
          record {
            agreed =
                keep-Consistent _ _ _ _ _ _ v.agreed
                  (λ p. ground (arith, lookup-remove ℕ_discrete p port self.ports)) (λ id. refl)
                  v.agreed.request_session;
            young = v.young;
            few_slots = omega (arith, length-remove ℕ_discrete port self.ports, v.few_slots);
            control_port = ground (
              arith,
              lookup-remove ℕ_discrete self.config.listen.port port self.ports,
              v.control_port,
            );
            distinct_ports = remove-Distinct ℕ_discrete port self.ports v.distinct_ports;
            distinct_requests = v.distinct_requests;
          },
          λ p h. ground (arith, lookup-remove ℕ_discrete p port self.ports),
        )
]

release_all-Inv :
    (expired : List (ℕ × ℕ)) (self : Registry)
    → Inv self
    → All (λ x. owner_at self x.0 ≡ none) expired
    → Inv (release_all expired self)
unfolding release_all
release_all-Inv [] self v h = v
release_all-Inv ((port, generation) ∷ expired) self v (hx, h) =
    let (v', keeps) = release_slot-Inv port self v hx in
    release_all-Inv expired (release_slot port self) v' (All-map expired (λ x. keeps x.0) h)

pub sweep-Inv : (now : ℕ) (self : Registry) → Inv self → Inv (sweep now self)
unfolding sweep
sweep-Inv now self v =
    release_all-Inv (expired_slots now self.ports) _
      (record {
        agreed =
            keep-Consistent _ _ _ _ _ _ v.agreed (λ p. refl) (λ id. refl)
              λ k e h. v.agreed.request_session k e (
                ground (
                  arith,
                  lookup-retain key_discrete (unexpired now) k self.pending v.distinct_requests,
                ));
        young = v.young;
        few_slots = v.few_slots;
        control_port = v.control_port;
        distinct_ports = v.distinct_ports;
        distinct_requests =
            retain-Distinct key_discrete (unexpired now) self.pending v.distinct_requests;
      })
      (All-map (expired_slots now self.ports) (λ x r. r.1)
        (expired_slots-Reserved now self.ports v.distinct_ports))

notify_all_config :
    (env : Env) (sessions : List (SessionId × SessionRef)) (self : Registry)
    → (notify_all env sessions self).config ≡ self.config
unfolding notify_all
notify_all_config env [] self = refl
notify_all_config env ((id, s) ∷ sessions) self = notify_all_config env sessions _ ∙ ground arith

cancel_listeners_config :
    (ports : List (ℕ × PortSlot)) (self : Registry)
    → (cancel_listeners ports self).config ≡ self.config
unfolding cancel_listeners
cancel_listeners_config [] self = refl
cancel_listeners_config ((port, slot) ∷ ports) self = cancel_listeners_config ports _

cancel_listeners_tables :
    (ports : List (ℕ × PortSlot)) (self : Registry)
    → ((cancel_listeners ports self).ports ≡ self.ports)
      × ((cancel_listeners ports self).pending ≡ self.pending)
unfolding cancel_listeners
cancel_listeners_tables [] self = (refl, refl)
cancel_listeners_tables ((port, slot) ∷ ports) self = cancel_listeners_tables ports _

-- After the shutdown there are no slots, no sessions and no pending requests.
pub shutdown_all_empty :
    (env : Env) (self : Registry)
    → ((shutdown_all env self).ports ≡ [])
      × ((shutdown_all env self).sessions ≡ [])
      × ((shutdown_all env self).pending ≡ [])
unfolding shutdown_all
shutdown_all_empty env self =
    let (p, q) = cancel_listeners_tables (notify_all env self.sessions self).ports _ in (p, refl, q)

empty_Holds : (control generation : ℕ) → Holds control generation [] [] []
unfolding lookup
empty_Holds control generation = record {
  agreed = record {
    slot_session = λ p s h. cc;
    session_slot = λ id s h. cc;
    request_session = λ key e h. absurd (cc);
  };
  young = λ id s h. cc;
  few_slots = omega arith;
  control_port = refl;
  distinct_ports = tt;
  distinct_requests = tt;
}

pub shutdown_all-Inv : (env : Env) (self : Registry) → Inv (shutdown_all env self)
shutdown_all-Inv env self =
    let (p, s, q) = shutdown_all_empty env self in rw (p, s, q) (empty_Holds _ _)
