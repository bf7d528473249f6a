-- ===== src/Audit.antt =====
-- kernel/audit: the tamper-evident chain of audit events.
pub mod Chain
pub mod Linkage
pub mod Tamper
pub mod Growth
use super_scientist_orchestr.Prelude.{
  ℕ, ◌+◌, String, Bool, true, false, not, ◌&&◌, Option, none, some, List, [], ◌∷◌, leb,
  if◌then◌else◌, ◌==◌, nat_eq, string_eq, option_eq, list_eq, join, strip, zero_padded,
}
use super_scientist_orchestr.Json.{
  Value, Values, Items, null, boolean, integer, float, text, sequence, collection, mapping, other,
  nil, cons, end, item, Integer, natural, negative, Frozen, frozen, freeze_json_value,
}

-- The functions of `hashlib`, `json` and `datetime` that the chain calls.
pub record Digests : Type 0 where
  -- `sha256_hex` on the text whose UTF-8 is hashed.
  pub sha256_hex : String → String
  -- `json.dumps` with sorted keys and no spaces.
  pub canonical_json : Value → String
  -- `datetime.isoformat` of a timestamp.
  pub isoformat : ℕ → String

abbrev pub genesis_hash : String
genesis_hash = "0000000000000000000000000000000000000000000000000000000000000000"

abbrev pub audit_schema_version : ℕ
audit_schema_version = 1

-- `sequence_number` is the field `sequence`.
pub record AuditEvent : Type 0 where
  pub sequence_number : ℕ
  pub event_id : String
  pub event_type : String
  pub schema_version : ℕ
  pub occurred_at : ℕ
  pub payload : Value
  pub payload_hash : String
  pub previous_hash : String
  pub event_hash : String

pub record AuditVerification : Type 0 where
  pub valid : Bool
  pub checked_events : ℕ
  pub first_invalid_sequence : Option ℕ
  pub reason : Option String

abbrev pub integer_beq : Integer → Integer → Bool
integer_beq (natural a) (natural b) = a == b
integer_beq (negative a) (negative b) = a == b
integer_beq _ _ = false

-- The equality of payloads. It is only asked of a value and its frozen copy.
unfoldable mutual
  pub value_beq : Value → Value → Bool
  value_beq null null = true
  value_beq (boolean a) (boolean b) = if a then b else not b
  value_beq (integer a) (integer b) = integer_beq a b
  value_beq (float f r) (float g s) = (if f then g else not g) && r == s
  value_beq (text a) (text b) = a == b
  value_beq (sequence xs) (sequence ys) = values_beq xs ys
  value_beq (collection xs) (collection ys) = values_beq xs ys
  value_beq (mapping ms) (mapping ns) = items_beq ms ns
  value_beq (other a) (other b) = a == b
  value_beq _ _ = false

  pub values_beq : Values → Values → Bool
  values_beq nil nil = true
  values_beq (cons x xs) (cons y ys) = value_beq x y && values_beq xs ys
  values_beq _ _ = false

  pub items_beq : Items → Items → Bool
  items_beq end end = true
  items_beq (item j v ms) (item k w ns) = value_beq j k && value_beq v w && items_beq ms ns
  items_beq _ _ = false

abbrev pub as_mapping : Frozen Value → Option Value
as_mapping (frozen (mapping ms)) = some (mapping ms)
as_mapping _ = none

-- `freeze_json_mapping`: `none` is the `ValueError`.
unfoldable pub freeze_json_mapping : Value → Option Value
freeze_json_mapping value = as_mapping (freeze_json_value value)

-- The previous event's number and hash, or the values that the first event starts from.
abbrev pub next_sequence : Option AuditEvent → ℕ
next_sequence none = 1
next_sequence (some previous) = previous.sequence_number + 1

abbrev pub next_previous_hash : Option AuditEvent → String
next_previous_hash none = genesis_hash
next_previous_hash (some previous) = previous.event_hash

-- f"audit-event-{sequence:020d}"
abbrev pub event_id_at : ℕ → String
event_id_at number = join ("audit-event-" ∷ zero_padded 20 number ∷ [])

-- The envelope of an event, over the fields that its hash covers.
pub record Envelope : Type 0 where
  pub sequence_number : ℕ
  pub event_id : String
  pub event_type : String
  pub schema_version : ℕ
  pub occurred_at : String
  pub payload_hash : String
  pub previous_hash : String

abbrev pub envelope_json : Envelope → Value
envelope_json e = mapping (
    item (text "sequence") (integer (natural e.sequence_number)) (
      item (text "event_id") (text e.event_id) (
        item (text "event_type") (text e.event_type) (
          item (text "schema_version") (integer (natural e.schema_version)) (
            item (text "occurred_at") (text e.occurred_at) (
              item (text "payload_hash") (text e.payload_hash)
                (item (text "previous_hash") (text e.previous_hash) end)))))))

unfoldable pub has_valid_replay_metadata : AuditEvent → Bool
has_valid_replay_metadata event =
    leb 1 event.sequence_number && event.schema_version == audit_schema_version

abbrev pub event_beq : AuditEvent → AuditEvent → Bool
event_beq a b =
    a.sequence_number == b.sequence_number
    && a.event_id == b.event_id
    && a.event_type == b.event_type
    && a.schema_version == b.schema_version
    && a.occurred_at == b.occurred_at
    && value_beq a.payload b.payload
    && a.payload_hash == b.payload_hash
    && a.previous_hash == b.previous_hash
    && a.event_hash == b.event_hash

-- The event is the one that `append_event` returned.
abbrev pub is_expected : Option AuditEvent → AuditEvent → Bool
is_expected none event = false
is_expected (some expected) event = event_beq expected event

abbrev pub invalid_verification : AuditEvent → ℕ → AuditVerification
invalid_verification event checked = record {
  valid = false;
  checked_events = checked;
  first_invalid_sequence =
      some (if leb 1 event.sequence_number then event.sequence_number else checked);
  reason = some "audit event hash or linkage mismatch";
}

module _ (digests : Digests) where
  open digests use {sha256_hex, canonical_json, isoformat}

  unfoldable pub hash_payload : Value → String
  hash_payload payload = sha256_hex (canonical_json payload)

  -- The event that follows `previous`, on a payload that is frozen already.
  unfoldable pub event_after : Option AuditEvent → String → Value → ℕ → AuditEvent
  unfolding hash_payload
  event_after previous event_type payload occurred_at =
      let number = next_sequence previous in
      let envelope : Envelope = record {
        sequence_number = number;
        event_id = event_id_at number;
        event_type = event_type;
        schema_version = audit_schema_version;
        occurred_at = isoformat occurred_at;
        payload_hash = hash_payload payload;
        previous_hash = next_previous_hash previous;
      } in
      record {
        sequence_number = number;
        event_id = event_id_at number;
        event_type = strip event_type;
        schema_version = audit_schema_version;
        occurred_at = occurred_at;
        payload = payload;
        payload_hash = hash_payload payload;
        previous_hash = next_previous_hash previous;
        event_hash = sha256_hex (canonical_json (envelope_json envelope));
      }

  -- `append_event`. `none` is a `ValueError`: the payload cannot be frozen, or the model strips the
  -- event type to nothing.
  unfoldable pub append_event : Option AuditEvent → String → Value → ℕ → Option AuditEvent
  unfolding event_after freeze_json_mapping
  append_event previous event_type payload occurred_at = elim (freeze_json_mapping payload) [
    | none ↦ none
    | some frozen_payload ↦
        if strip event_type == ""
        then none
        else some (event_after previous event_type frozen_payload occurred_at)
  ]

  -- One round of the loop accepts the event.
  unfoldable pub event_verifies : Option AuditEvent → AuditEvent → Bool
  unfolding has_valid_replay_metadata
  event_verifies previous event =
      has_valid_replay_metadata event
      && is_expected (append_event previous event.event_type event.payload event.occurred_at) event

  -- The loop of `verify_chain`, from the last event that it accepted and their number.
  unfoldable pub verify_from : Option AuditEvent → ℕ → List AuditEvent → AuditVerification
  verify_from previous checked [] = record {
    valid = true;
    checked_events = checked;
    first_invalid_sequence = none;
    reason = none;
  }
  verify_from previous checked (event ∷ events) =
      let rest = verify_from (some event) (checked + 1) events in
      if event_verifies previous event then rest else invalid_verification event (checked + 1)

  unfoldable pub verify_chain : List AuditEvent → AuditVerification
  unfolding verify_from
  verify_chain events = verify_from none 0 events
