-- ===== src/Samples/Audits.antt =====
-- Runs of the audit chain, with digests that are easy to compute: a text is its own hash.
use super_scientist_orchestr.Prelude.{
  ℕ, zero, suc, String, ◌≡◌, refl, ap, ◌∙◌, ◌⊎◌, true, false, none, some, List, [], ◌∷◌, arith,
  nat_eq, string_eq, option_eq, list_eq, strip, zero_padded,
}
use Prim.Native.Char.{Char, code}
use super_scientist_orchestr.Json.{
  Value, Items, integer, text, mapping, end, item, natural, freeze_json_value,
}
use super_scientist_orchestr.Audit.{
  Digests, AuditEvent, value_beq, has_valid_replay_metadata, genesis_hash, event_after,
  append_event, freeze_json_mapping, verify_chain, verify_from, event_verifies,
}
use super_scientist_orchestr.Audit.Chain.{IsChain, verify_chain_iff}
use super_scientist_orchestr.Audit.Linkage.{IsLinked, verify_chain-IsLinked}
use super_scientist_orchestr.Audit.Tamper.{
  IsFaithful, Collision, SameLog, newest_first, verify_chain-SameLog,
}
use super_scientist_orchestr.Audit.Growth.{append_event-verify_chain}
use super_scientist_orchestr.Samples.{payload_example}

-- A text with a mark before every character and another mark at its end.
abbrev quoted : String → String → String
quoted String.[] rest = String.◌∷◌ "." rest
quoted (String.◌∷◌ c s) rest = String.◌∷◌ "x" (String.◌∷◌ c (quoted s rest))

abbrev head : String → Char
head String.[] = "x"
head (String.◌∷◌ c s) = c

abbrev tail : String → String
tail String.[] = ""
tail (String.◌∷◌ c s) = s

abbrev mark : String → ℕ
mark s = code (head s)

quoted_inj : (s t : String) {r r' : String} → quoted s r ≡ quoted t r' → (s ≡ t) × (r ≡ r')
quoted_inj String.[] String.[] h = (refl, ap tail h)
quoted_inj String.[] (String.◌∷◌ d t) h = absurd (omega (arith, ap mark h))
quoted_inj (String.◌∷◌ c s) String.[] h = absurd (omega (arith, ap mark h))
quoted_inj (String.◌∷◌ c s) (String.◌∷◌ d t) h =
    let (p, q) = quoted_inj s t (ap (λ x. tail (tail x)) h) in
    (ap (λ (x : Char). String.◌∷◌ x s) (ap (λ x. head (tail x)) h) ∙ ap (λ x. String.◌∷◌ d x) p, q)

-- A number, as that many strokes.
abbrev tally : ℕ → String → String
tally zero rest = String.◌∷◌ "." rest
tally (suc n) rest = String.◌∷◌ "|" (tally n rest)

tally_inj : (m n : ℕ) {r r' : String} → tally m r ≡ tally n r' → (m ≡ n) × (r ≡ r')
tally_inj zero zero h = (refl, ap tail h)
tally_inj zero (suc n) h = absurd (omega (arith, ap mark h))
tally_inj (suc m) zero h = absurd (omega (arith, ap mark h))
tally_inj (suc m) (suc n) h = let (p, q) = tally_inj m n (ap tail h) in (ap suc p, q)

abbrev mutual
  printed : Value → String → String
  printed (text t) rest = quoted t rest
  printed (integer (natural n)) rest = tally n rest
  printed (mapping ms) rest = printed_items ms rest
  printed _ rest = rest

  printed_items : Items → String → String
  printed_items end rest = rest
  printed_items (item k v ms) rest = printed k (printed v (printed_items ms rest))

abbrev pub digests_example : Digests
digests_example = record {
  sha256_hex = λ t. t;
  canonical_json = λ v. printed v "";
  isoformat = λ n. tally n "";
}

-- One member of an envelope, with its name before it.
member_inj :
    (name s t : String) {r r' : String}
    → quoted name (quoted s r) ≡ quoted name (quoted t r')
    → (s ≡ t) × (r ≡ r')
member_inj name s t h = quoted_inj s t (quoted_inj name name h).1

number_inj :
    (name : String) (m n : ℕ) {r r' : String}
    → quoted name (tally m r) ≡ quoted name (tally n r')
    → (m ≡ n) × (r ≡ r')
number_inj name m n h = tally_inj m n (quoted_inj name name h).1

digests_example-IsFaithful : IsFaithful digests_example
digests_example-IsFaithful = record {
  envelopes = λ a b h.
      let (number, h1) = number_inj "sequence" a.sequence_number b.sequence_number h in
      let (id, h2) = member_inj "event_id" a.event_id b.event_id h1 in
      let (type', h3) = member_inj "event_type" a.event_type b.event_type h2 in
      let (version, h4) = number_inj "schema_version" a.schema_version b.schema_version h3 in
      let (time, h5) = member_inj "occurred_at" a.occurred_at b.occurred_at h4 in
      let (payload, h6) = member_inj "payload_hash" a.payload_hash b.payload_hash h5 in
      let (previous, _) = member_inj "previous_hash" a.previous_hash b.previous_hash h6 in cc;
  times = λ a b h. (tally_inj a b h).0;
}

abbrev first_event : AuditEvent
first_event = event_after digests_example none "transaction_decision" payload_example 5

abbrev second_event : AuditEvent
second_event =
    event_after digests_example (some first_event) "transaction_decision" payload_example 7

abbrev log : List AuditEvent
log = first_event ∷ second_event ∷ []

follow_first :
    append_event digests_example none first_event.event_type first_event.payload
      first_event.occurred_at
    ≡ some first_event
unfolding append_event event_after freeze_json_mapping freeze_json_value strip
follow_first = refl

follow_second :
    append_event digests_example
      (some first_event)
      second_event.event_type
      second_event.payload
      second_event.occurred_at
    ≡ some second_event
unfolding append_event event_after freeze_json_mapping freeze_json_value strip
follow_second = refl

log_run : (verify_chain digests_example log).valid ≡ true
log_run = (verify_chain_iff digests_example log).1 (follow_first, (follow_second, tt))

first_run : (verify_chain digests_example (first_event ∷ [])).valid ≡ true
first_run = (verify_chain_iff digests_example (first_event ∷ [])).1 (follow_first, tt)

-- An event whose type has a space before it does not verify: its hash covers the space.
padded_run :
    (verify_chain digests_example
      (event_after digests_example none " note" payload_example 5 ∷ [])).valid
    ≡ false
unfolding verify_chain verify_from event_verifies append_event event_after freeze_json_mapping
    freeze_json_value strip has_valid_replay_metadata value_beq zero_padded
padded_run = refl

verify_chain_example : IsChain digests_example none log
verify_chain_example = (verify_chain_iff digests_example log).0 log_run

IsLinked_example : IsLinked 1 genesis_hash log
IsLinked_example = verify_chain-IsLinked digests_example log log_run

SameLog_example :
    Collision digests_example (newest_first log) (newest_first log)
    ⊎ SameLog digests_example (newest_first log) (newest_first log)
SameLog_example =
    verify_chain-SameLog digests_example log log {a = second_event} {b = second_event}
      {as' = first_event ∷ []} {bs = first_event ∷ []} digests_example-IsFaithful log_run log_run
      refl refl refl

append_event_example : (verify_chain digests_example (first_event ∷ second_event ∷ [])).valid ≡ true
unfolding strip append_event event_after freeze_json_mapping freeze_json_value
append_event_example =
    append_event-verify_chain digests_example (first_event ∷ []) "transaction_decision"
      payload_example 7 {event = second_event} refl first_run refl
