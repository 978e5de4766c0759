-- ===== src/Registry/Invariant/Lifecycle.antt =====
-- src/server/registry.rs: the invariant in `session_lost` and `goodbye`.
use tunlet.Prelude.{
  ℕ, ◌≡◌, ◌≢◌, sym, ap₂, subst, ◌∙◌, arith, true, none, some, ◌+◌, ℕ_discrete, inl, inr,
  Option-cases,
}
use tunlet.Prelude.Maps.{insert, remove}
use tunlet.Protocol.Enums.{SessionId}
use tunlet.Registry.State.{
  Registry, Env, SessionRef, PortSlot, slot_at, session_of, emit, cancelled,
}
use tunlet.Registry.Register.{drop_pending_for, drop_session}
use tunlet.Registry.Lifecycle.{session_lost, goodbye, is_current}
use tunlet.Registry.Invariant.Ending.{
  current, reserve, own_id, own_known, own_slot, lost_Inv, closed_Inv,
}
use tunlet.Registry.Invariant.{Inv}

-- What is left when a registered session's connection is lost: its port, reserved.
abbrev pub lost_state : Env → Registry → SessionRef → PortSlot → Registry
lost_state env self s slot =
    let self' = emit (cancelled s.control_cancel) (
      emit (cancelled s.data_cancel)
        (drop_pending_for s.session_id (drop_session s.session_id self))) in
    record self' {
      ports =
          insert ℕ_discrete s.port (reserve s (env.now + self.timing.reservation) slot) self'.ports;
    }

pub session_lost_lem :
    (env : Env) (self : Registry) (s : SessionRef) (slot : PortSlot)
    → session_of self s.session_id ≡ some s
    → slot_at self s.port ≡ some slot
    → is_current (slot_at self s.port) s.generation ≡ true
    → session_lost env s.session_id s.generation self ≡ lost_state env self s slot
unfolding session_lost drop_pending_for
session_lost_lem env self s slot known found now = rw (known, session_lost) (ground arith)

-- What is left when a registered session says goodbye: its port is released.
abbrev pub closed_state : Registry → SessionRef → PortSlot → Registry
closed_state self s slot =
    let self' =
      emit (cancelled s.data_cancel)
        (drop_pending_for s.session_id (drop_session s.session_id self)) in
    emit (cancelled slot.listener_cancel)
      (record self' { ports = remove ℕ_discrete s.port self'.ports })

pub goodbye_lem :
    (self : Registry) (s : SessionRef) (slot : PortSlot)
    → session_of self s.session_id ≡ some s
    → slot_at self s.port ≡ some slot
    → is_current (slot_at self s.port) s.generation ≡ true
    → goodbye s.session_id s.generation self ≡ closed_state self s slot
unfolding goodbye drop_pending_for
goodbye_lem self s slot known found now = rw (known, goodbye) (ground arith)

pub session_lost_unknown :
    (env : Env) (self : Registry) (id : SessionId) (generation : ℕ)
    → session_of self id ≡ none
    → session_lost env id generation self ≡ self
unfolding session_lost
session_lost_unknown env self id generation e = rw (e, session_lost)

pub session_lost_stale :
    (env : Env) (self : Registry) (id : SessionId) (s : SessionRef) (generation : ℕ)
    → session_of self id ≡ some s
    → s.generation ≢ generation
    → session_lost env id generation self ≡ self
unfolding session_lost
session_lost_stale env self id s generation e stale = rw (e, session_lost) (ground arith)

pub goodbye_unknown :
    (self : Registry) (id : SessionId) (generation : ℕ)
    → session_of self id ≡ none
    → goodbye id generation self ≡ self
unfolding goodbye
goodbye_unknown self id generation e = rw (e, goodbye)

pub goodbye_stale :
    (self : Registry) (id : SessionId) (s : SessionRef) (generation : ℕ)
    → session_of self id ≡ some s
    → s.generation ≢ generation
    → goodbye id generation self ≡ self
unfolding goodbye
goodbye_stale self id s generation e stale = rw (e, goodbye) (ground arith)

-- A rule for `session_lost`: it does nothing, or the session was registered under the generation.
pub session_lost_cases {ℓ} :
    (P : Registry → Type ℓ) (env : Env) (id : SessionId) (generation : ℕ) (self : Registry)
    → Inv self
    → P self
    → ((s : SessionRef) (slot : PortSlot)
        → session_of self id ≡ some s
        → s.session_id ≡ id
        → s.generation ≡ generation
        → slot_at self s.port ≡ some slot
        → P (lost_state env self s slot))
    → P (session_lost env id generation self)
session_lost_cases P env id generation self v kept lost = elim (Option-cases (session_of self id)) [
  | inl e ↦ subst P (sym (session_lost_unknown env self id generation e)) kept
  | inr (s, e) ↦ elim (ℕ_discrete s.generation generation) [
    | no stale ↦ subst P (sym (session_lost_stale env self id s generation e stale)) kept
    | yes same ↦
        let own = own_id self id s v e in
        let (slot, found, _) = own_slot self id s v e in
        subst P
          (sym (
              session_lost_lem env self s slot (own_known self id s v e) found
                (current self id s v e))
            ∙ ap₂ (λ i g. session_lost env i g self) own same)
          (lost s slot e own same found)
  ]
]

pub goodbye_cases {ℓ} :
    (P : Registry → Type ℓ) (id : SessionId) (generation : ℕ) (self : Registry)
    → Inv self
    → P self
    → ((s : SessionRef) (slot : PortSlot)
        → session_of self id ≡ some s
        → s.session_id ≡ id
        → s.generation ≡ generation
        → slot_at self s.port ≡ some slot
        → P (closed_state self s slot))
    → P (goodbye id generation self)
goodbye_cases P id generation self v kept closed = elim (Option-cases (session_of self id)) [
  | inl e ↦ subst P (sym (goodbye_unknown self id generation e)) kept
  | inr (s, e) ↦ elim (ℕ_discrete s.generation generation) [
    | no stale ↦ subst P (sym (goodbye_stale self id s generation e stale)) kept
    | yes same ↦
        let own = own_id self id s v e in
        let (slot, found, _) = own_slot self id s v e in
        subst P
          (sym (goodbye_lem self s slot (own_known self id s v e) found (current self id s v e))
            ∙ ap₂ (λ i g. goodbye i g self) own same)
          (closed s slot e own same found)
  ]
]

pub session_lost-Inv :
    (env : Env) (id : SessionId) (generation : ℕ) (self : Registry)
    → Inv self
    → Inv (session_lost env id generation self)
unfolding drop_pending_for
session_lost-Inv env id generation self v =
    session_lost_cases Inv env id generation self v v λ s slot known own same found.
      lost_Inv self s.session_id s v (own_known self id s v known)
        (env.now + self.timing.reservation) slot found

pub goodbye-Inv :
    (id : SessionId) (generation : ℕ) (self : Registry)
    → Inv self
    → Inv (goodbye id generation self)
unfolding drop_pending_for
goodbye-Inv id generation self v =
    goodbye_cases Inv id generation self v v
      λ s slot known own same found. closed_Inv self s.session_id s v (own_known self id s v known)
