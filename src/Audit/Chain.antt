-- ===== src/Audit/Chain.antt =====
-- A chain verifies exactly when it was built by `append_event`.
use super_scientist_orchestr.Prelude.{
  ℕ, ◌+◌, String, ◌≡◌, refl, ap, ◌∙◌, ◌↔◌, inl, inr, true, false, Option, none, some, List, [], ◌∷◌,
  arith, Bool-cases, Option-cases, ◌==◌, ==_iff, ==_refl, nat_eq, string_eq, option_eq, list_eq,
  length, strip,
}
use super_scientist_orchestr.Json.{
  Value, Values, Items, null, boolean, integer, float, text, sequence, collection, mapping, other,
  nil, cons, end, item, natural, negative, Frozen, frozen, refused, freeze_json_value,
}
use super_scientist_orchestr.Json.Freezing.{freeze_json_value_iff}
use super_scientist_orchestr.Audit.{
  Digests, AuditEvent, AuditVerification, value_beq, values_beq, items_beq, as_mapping,
  freeze_json_mapping, event_after, append_event, has_valid_replay_metadata, event_beq,
  event_verifies, verify_from, verify_chain,
}

mutual
  unfolding value_beq

  pub value_beq_refl : (v : Value) → value_beq v v ≡ true
  value_beq_refl null = refl
  value_beq_refl (boolean true) = refl
  value_beq_refl (boolean false) = refl
  value_beq_refl (integer (natural n)) = ==_refl n
  value_beq_refl (integer (negative n)) = ==_refl n
  value_beq_refl (float true r) = ==_refl r
  value_beq_refl (float false r) = ==_refl r
  value_beq_refl (text t) = ==_refl t
  value_beq_refl (sequence xs) = values_beq_refl xs
  value_beq_refl (collection xs) = values_beq_refl xs
  value_beq_refl (mapping ms) = items_beq_refl ms
  value_beq_refl (other n) = ==_refl n

  values_beq_refl : (xs : Values) → values_beq xs xs ≡ true
  values_beq_refl nil = refl
  values_beq_refl (cons x xs) = rw (value_beq_refl x, values_beq_refl xs)

  items_beq_refl : (ms : Items) → items_beq ms ms ≡ true
  items_beq_refl end = refl
  items_beq_refl (item k v ms) = rw (value_beq_refl k, value_beq_refl v, items_beq_refl ms)

as_mapping-frozen : (r : Frozen Value) {w : Value} → as_mapping r ≡ some w → r ≡ frozen w
as_mapping-frozen (frozen (mapping ms)) h = cc
as_mapping-frozen (frozen null) h = cc
as_mapping-frozen (frozen (boolean b)) h = cc
as_mapping-frozen (frozen (integer b)) h = cc
as_mapping-frozen (frozen (float b r)) h = cc
as_mapping-frozen (frozen (text b)) h = cc
as_mapping-frozen (frozen (sequence b)) h = cc
as_mapping-frozen (frozen (collection b)) h = cc
as_mapping-frozen (frozen (other b)) h = cc
as_mapping-frozen (refused e) h = cc

-- A frozen payload is the payload.
freeze_json_mapping-eq : (v w : Value) → freeze_json_mapping v ≡ some w → w ≡ v
unfolding freeze_json_mapping
freeze_json_mapping-eq v w h =
    ((freeze_json_value_iff v w).0 (as_mapping-frozen (freeze_json_value v) h)).1

event_beq-eq : (a b : AuditEvent) → event_beq a b ≡ true → a.payload ≡ b.payload → a ≡ b
event_beq-eq a b h same = ground (
  arith,
  ==_iff a.event_id b.event_id,
  ==_iff a.event_type b.event_type,
  ==_iff a.payload_hash b.payload_hash,
  ==_iff a.previous_hash b.previous_hash,
  ==_iff a.event_hash b.event_hash,
)

event_beq_refl : (a : AuditEvent) → event_beq a a ≡ true
event_beq_refl a = ground (
  arith,
  ==_refl a.event_id,
  ==_refl a.event_type,
  ==_refl a.payload_hash,
  ==_refl a.previous_hash,
  ==_refl a.event_hash,
  value_beq_refl a.payload,
)

module _ (digests : Digests) where
  payload-event_after :
      (previous : Option AuditEvent) (event_type : String) (payload : Value) (occurred_at : ℕ)
      → (event_after digests previous event_type payload occurred_at).payload ≡ payload
  unfolding event_after
  payload-event_after previous event_type payload occurred_at = refl

  metadata-event_after :
      (previous : Option AuditEvent) (event_type : String) (payload : Value) (occurred_at : ℕ)
      → has_valid_replay_metadata (event_after digests previous event_type payload occurred_at)
        ≡ true
  unfolding event_after has_valid_replay_metadata
  metadata-event_after previous event_type payload occurred_at = ground arith

  beq_of_verifies :
      (previous : Option AuditEvent) (event expected : AuditEvent)
      → event_verifies digests previous event ≡ true
      → append_event digests previous event.event_type event.payload event.occurred_at
        ≡ some expected
      → event_beq expected event ≡ true
  unfolding event_verifies
  beq_of_verifies previous event expected h made = ground arith

  -- An event is the one that `append_event` makes of its own type, payload and time.
  abbrev pub Follows : Option AuditEvent → AuditEvent → Type 0
  Follows previous event =
      append_event digests previous event.event_type event.payload event.occurred_at ≡ some event

  -- Every event follows the one before it.
  abbrev pub IsChain : Option AuditEvent → List AuditEvent → Type 0
  IsChain previous [] = Unit
  IsChain previous (event ∷ events) = Follows previous event × IsChain (some event) events

  pub append_event-inv :
      (previous : Option AuditEvent) (event_type : String) (payload : Value) (occurred_at : ℕ)
      {event : AuditEvent}
      → append_event digests previous event_type payload occurred_at ≡ some event
      → (freeze_json_mapping payload ≡ some payload)
        × ((strip event_type == "") ≡ false)
        × (event ≡ event_after digests previous event_type payload occurred_at)
  append_event-inv previous event_type payload occurred_at h =
      elim (Option-cases (freeze_json_mapping payload)) [
        | inl refused' ↦ absurd (unfold append_event in ground arith)
        | inr (frozen', found) ↦
            let same = freeze_json_mapping-eq payload frozen' found in
            (
              found ∙ ap some same,
              unfold append_event in ground arith,
              unfold append_event in ground arith,
            )
      ]

  event_verifies-Follows :
      (previous : Option AuditEvent) (event : AuditEvent)
      → event_verifies digests previous event ≡ true
      → Follows previous event
  event_verifies-Follows previous event h =
      elim (Option-cases
        (append_event digests previous event.event_type event.payload event.occurred_at)) [
          | inl none' ↦ absurd (unfold event_verifies in ground arith)
          | inr (expected, made) ↦
              let (_, _, parts) =
                append_event-inv previous event.event_type event.payload event.occurred_at made in
              made
              ∙ ap some (
                  event_beq-eq expected event (beq_of_verifies previous event expected h made) (
                    ap (λ (e : AuditEvent). e.payload) parts
                    ∙ payload-event_after previous event.event_type event.payload
                        event.occurred_at))
        ]

  Follows-event_verifies :
      (previous : Option AuditEvent) (event : AuditEvent)
      → Follows previous event
      → event_verifies digests previous event ≡ true
  unfolding event_verifies
  Follows-event_verifies previous event h =
      let (_, _, made) =
        append_event-inv previous event.event_type event.payload event.occurred_at h in
      let metadata : has_valid_replay_metadata event ≡ true =
        ap has_valid_replay_metadata made
        ∙ metadata-event_after previous event.event_type event.payload event.occurred_at in
      ground (arith, event_beq_refl event)

  verify_from-IsChain :
      (previous : Option AuditEvent) (checked : ℕ) (events : List AuditEvent)
      → (verify_from digests previous checked events).valid ≡ true
      → IsChain previous events
  verify_from-IsChain previous checked [] h = tt
  verify_from-IsChain previous checked (event ∷ events) h =
      elim (Bool-cases (event_verifies digests previous event)) [
        | inl accepted ↦ (
          event_verifies-Follows previous event accepted,
          verify_from-IsChain (some event) (checked + 1) events
              (unfold verify_from in ground arith),
        )
        | inr refused' ↦ absurd (unfold verify_from in ground arith)
      ]

  IsChain-verify_from :
      (previous : Option AuditEvent) (checked : ℕ) (events : List AuditEvent)
      → IsChain previous events
      → verify_from digests previous checked events ≡ record {
        valid = true;
        checked_events = checked + length events;
        first_invalid_sequence = none;
        reason = none;
      }
  unfolding verify_from
  IsChain-verify_from previous checked [] h = ground arith
  IsChain-verify_from previous checked (event ∷ events) h = ground (
    arith,
    Follows-event_verifies previous event h.0,
    IsChain-verify_from (some event) (checked + 1) events h.1,
  )

-- A chain of events verifies exactly when `append_event` makes each event of its own type, payload
-- and time behind the event before it.
pub verify_chain_iff :
    (digests : Digests) (events : List AuditEvent)
    → ((verify_chain digests events).valid ≡ true) ↔ IsChain digests none events
unfolding verify_chain
verify_chain_iff digests events = (
  verify_from-IsChain digests none 0 events,
  λ h. ap (λ (v : AuditVerification). v.valid) (IsChain-verify_from digests none 0 events h),
)
