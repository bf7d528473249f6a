-- ===== src/Audit/Growth.antt =====
-- An appended event keeps the log verified.
use super_scientist_orchestr.Prelude.{
  ℕ, String, ◌≡◌, sym, subst, true, Option, none, some, List, [], ◌∷◌, ◌++◌, nat_eq, string_eq,
  option_eq, list_eq, strip,
}
use super_scientist_orchestr.Json.{Value}
use super_scientist_orchestr.Audit.{Digests, AuditEvent, event_after, append_event, verify_chain}
use super_scientist_orchestr.Audit.Chain.{Follows, IsChain, append_event-inv, verify_chain_iff}

-- The last event of a log, behind `previous`.
abbrev pub latest_after : Option AuditEvent → List AuditEvent → Option AuditEvent
latest_after previous [] = previous
latest_after previous (event ∷ events) = latest_after (some event) events

abbrev pub latest : List AuditEvent → Option AuditEvent
latest events = latest_after none events

module _ (digests : Digests) where
  -- An event made with a type that has no spaces around it follows the event that it was made behind.
  append_event-Follows :
      (previous : Option AuditEvent) (event_type : String) (payload : Value) (occurred_at : ℕ)
      {event : AuditEvent}
      → strip event_type ≡ event_type
      → append_event digests previous event_type payload occurred_at ≡ some event
      → Follows digests previous event
  unfolding event_after
  append_event-Follows previous event_type payload occurred_at {event} stripped made =
      subst
        (λ (e : AuditEvent).
          append_event digests previous e.event_type e.payload e.occurred_at ≡ some event)
        (sym shape) (rw stripped' made)
    where
      shape : event ≡ event_after digests previous event_type payload occurred_at
      shape = (append_event-inv digests previous event_type payload occurred_at made).2

      stripped' :
          (event_after digests previous event_type payload occurred_at).event_type ≡ event_type
      stripped' = stripped

  IsChain-append :
      (previous : Option AuditEvent) (events : List AuditEvent) (event : AuditEvent)
      → IsChain digests previous events
      → Follows digests (latest_after previous events) event
      → IsChain digests previous (events ++ (event ∷ []))
  IsChain-append previous [] event h f = (f, tt)
  IsChain-append previous (e ∷ events) event h f = (h.0, IsChain-append (some e) events event h.1 f)

-- To append an event, of a type with no spaces around it, to a log that verifies gives a log that
-- verifies.
pub append_event-verify_chain :
    (digests : Digests) (events : List AuditEvent) (event_type : String) (payload : Value)
    (occurred_at : ℕ) {event : AuditEvent}
    → strip event_type ≡ event_type
    → (verify_chain digests events).valid ≡ true
    → append_event digests (latest events) event_type payload occurred_at ≡ some event
    → (verify_chain digests (events ++ (event ∷ []))).valid ≡ true
append_event-verify_chain digests events event_type payload occurred_at {event} stripped h made =
    (verify_chain_iff digests (events ++ (event ∷ []))).1 (
      IsChain-append digests none events event ((verify_chain_iff digests events).0 h)
        (append_event-Follows digests (latest events) event_type payload occurred_at stripped made))
