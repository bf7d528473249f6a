-- ===== src/Audit/Linkage.antt =====
-- What a verified chain says about its events: their numbers and their links.
use super_scientist_orchestr.Prelude.{
  ℕ, ◌+◌, String, ◌≡◌, subst, true, Option, none, some, List, [], ◌∷◌, arith, nat_eq, string_eq,
  option_eq, list_eq,
}
use super_scientist_orchestr.Audit.{
  Digests, AuditEvent, Envelope, envelope_json, genesis_hash, hash_payload, event_after,
  verify_chain, next_sequence, next_previous_hash, event_id_at,
}
use super_scientist_orchestr.Audit.Chain.{Follows, IsChain, append_event-inv, verify_chain_iff}

-- The events are numbered from `number`, and each carries the hash of the one before it.
abbrev pub IsLinked : ℕ → String → List AuditEvent → Type 0
IsLinked number hash [] = Unit
IsLinked number hash (event ∷ events) =
    (event.sequence_number ≡ number)
    × (event.event_id ≡ event_id_at number)
    × (event.previous_hash ≡ hash)
    × IsLinked (number + 1) event.event_hash events

module _ (digests : Digests) where
  open digests use {sha256_hex, canonical_json, isoformat}

  -- The envelope that the hash of an event covers.
  abbrev pub envelope_of : AuditEvent → Envelope
  envelope_of event = record {
    sequence_number = event.sequence_number;
    event_id = event.event_id;
    event_type = event.event_type;
    schema_version = event.schema_version;
    occurred_at = isoformat event.occurred_at;
    payload_hash = event.payload_hash;
    previous_hash = event.previous_hash;
  }

  -- What an event that follows another shows in its own fields.
  pub record IsSealed (previous : Option AuditEvent) (event : AuditEvent) : Type 0 where
    pub number : event.sequence_number ≡ next_sequence previous
    pub id : event.event_id ≡ event_id_at (next_sequence previous)
    pub hash : event.previous_hash ≡ next_previous_hash previous
    pub payload : event.payload_hash ≡ sha256_hex (canonical_json event.payload)
    pub envelope :
        event.event_hash ≡ sha256_hex (canonical_json (envelope_json (envelope_of event)))

  pub Follows-IsSealed :
      (previous : Option AuditEvent) (event : AuditEvent)
      → Follows digests previous event
      → IsSealed previous event
  Follows-IsSealed previous event h = sealed made
    where
      made : event ≡ event_after digests previous event.event_type event.payload event.occurred_at
      made =
          (append_event-inv digests previous event.event_type event.payload event.occurred_at h).2

      sealed :
          event ≡ event_after digests previous event.event_type event.payload event.occurred_at
          → IsSealed previous event
      sealed e = unfold event_after hash_payload in ground arith

  IsChain-IsLinked :
      (previous : Option AuditEvent) (events : List AuditEvent)
      → IsChain digests previous events
      → IsLinked (next_sequence previous) (next_previous_hash previous) events
  IsChain-IsLinked previous [] h = tt
  IsChain-IsLinked previous (event ∷ events) h =
      let s = Follows-IsSealed previous event h.0 in
      (
        s.number,
        s.id,
        s.hash,
        subst (λ n. IsLinked (n + 1) event.event_hash events) s.number
            (IsChain-IsLinked (some event) events h.1),
      )

-- The events of a verified chain are numbered 1, 2, 3 and so on, with the identifiers of those
-- numbers, and each carries the hash of the event before it, the first one the genesis hash.
pub verify_chain-IsLinked :
    (digests : Digests) (events : List AuditEvent)
    → (verify_chain digests events).valid ≡ true
    → IsLinked 1 genesis_hash events
verify_chain-IsLinked digests events h =
    IsChain-IsLinked digests none events ((verify_chain_iff digests events).0 h)
