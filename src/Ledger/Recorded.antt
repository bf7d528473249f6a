-- ===== src/Ledger/Recorded.antt =====
-- The decision, the transaction and the event of a submission can always be written down.
use super_scientist_orchestr.Prelude.{
  ℕ, String, ◌≡◌, refl, sym, ap, ◌⊎◌, inl, inr, Bool, true, false, ◌&&◌, Option, none, some, arith,
  if◌then◌else◌, Bool-cases, ◌==◌, ==_iff, nat_eq, string_eq, option_eq, list_eq, pair_eq, bool_eq,
  any, ◌>>=◌, is_some, some_inj, pair_eq, strip,
}
use super_scientist_orchestr.Json.{Value, Items, text, mapping, end}
use super_scientist_orchestr.Json.Freezing.{is_json, items_are_json, freeze_json_value_iff}
use super_scientist_orchestr.Evidence.{EvidenceRecord}
use super_scientist_orchestr.Admission.Proposals.{
  TransactionDecision, Proposal, proposal_id, idempotency_key,
}
use super_scientist_orchestr.Audit.{Digests, AuditEvent, append_event, freeze_json_mapping}
use super_scientist_orchestr.Audit.Growth.{latest}
use super_scientist_orchestr.Ledger.{
  PolicySnapshot, Ledger, Environment, optional, as_text, snapshot_of, is_persisted,
  get_by_idempotency_key, add_transaction, audit_payload, audit_decision,
}
use super_scientist_orchestr.Ledger.Submission.{store, audit_only}

-- `model_dump(mode="json")` gives values of JSON, and so does the metadata of a snapshot.
pub record IsDumped (env : Environment) : Type 0 where
  pub proposals : (p : Proposal) → is_json (env.dump p) ≡ true
  pub decisions : (d : TransactionDecision) → is_json (env.dump_decision d) ≡ true
  pub snapshots :
      (e : EvidenceRecord) (v : Value) → env.source_snapshot e ≡ some v → is_json v ≡ true

pub returns_if :
    {A : Type 0} (b : Bool) (x y : Option A)
    → is_some x ≡ true
    → is_some y ≡ true
    → is_some (if b then x else y) ≡ true
returns_if true x y h k = h
returns_if false x y h k = k

pub returns_option :
    {A B : Type 0} (o : Option B) (x : Option A) (f : B → Option A)
    → is_some x ≡ true
    → ((b : B) → is_some (f b) ≡ true)
    → is_some (elim o [ none ↦ x | some b ↦ f b ]) ≡ true
returns_option none x f h k = h
returns_option (some b) x f h k = k b

pub returns_sum :
    {A B C : Type 0} (s : B ⊎ C) (f : B → Option A) (g : C → Option A)
    → ((b : B) → is_some (f b) ≡ true)
    → ((c : C) → is_some (g c) ≡ true)
    → is_some (elim s [ inl b ↦ f b | inr c ↦ g c ]) ≡ true
returns_sum (inl b) f g h k = h b
returns_sum (inr c) f g h k = k c

returns_bind :
    {A B : Type 0} (o : Option A) (f : A → Option B)
    → is_some o ≡ true
    → ((a : A) → is_some (f a) ≡ true)
    → is_some (o >>= f) ≡ true
returns_bind none f h k = absurd (ground arith)
returns_bind (some a) f h k = k a

append_event-returns :
    (digests : Digests) (previous : Option AuditEvent) (payload : Items) (now : ℕ)
    → items_are_json payload ≡ true
    → is_some (append_event digests previous "transaction_decision" (mapping payload) now) ≡ true
unfolding append_event freeze_json_mapping strip is_json
append_event-returns digests previous payload now h =
    let json : is_json (mapping payload) ≡ true = h in
    rw (is_some, (freeze_json_value_iff (mapping payload) (mapping payload)).1 (json, refl)) refl

module _ (env : Environment) (dumped : IsDumped env) where
  optional-is_json :
      (name : String) (value : Option Value) (rest : Items)
      → ((v : Value) → value ≡ some v → is_json v ≡ true)
      → items_are_json rest ≡ true
      → items_are_json (optional env name value rest) ≡ true
  unfolding is_json
  optional-is_json name none rest json h = h
  optional-is_json name (some v) rest json h = ground (arith, json v refl)

  snapshot_of-is_json :
      (p : Proposal) (kept : Bool) (v : Value) → snapshot_of env p kept ≡ some v → is_json v ≡ true
  snapshot_of-is_json (Proposal.add_evidence e evidence) true v h =
      elim (Bool-cases (evidence.evidence_type == "procedure-source")) [
        | inl source ↦ dumped.snapshots evidence v (ground arith)
        | inr other ↦ absurd (ground arith)
      ]
  snapshot_of-is_json (Proposal.add_evidence e evidence) false v h = absurd (ground arith)
  snapshot_of-is_json (Proposal.propose_claim e c) kept v h = absurd (ground arith)
  snapshot_of-is_json (Proposal.transition_claim e c) kept v h = absurd (ground arith)
  snapshot_of-is_json (Proposal.unsupported e k) kept v h = absurd (ground arith)
  snapshot_of-is_json (Proposal.invalid p) kept v h = absurd (ground arith)

  as_text-is_json : (t : Option String) (v : Value) → as_text env t ≡ some v → is_json v ≡ true
  unfolding is_json
  as_text-is_json none v h = absurd (ground arith)
  as_text-is_json (some t) v h = ap is_json (sym (some_inj h))

  configured_hash-is_json :
      (known : Bool) (v : Value)
      → (if known then some (text env.configured.policy_hash) else none) ≡ some v
      → is_json v ≡ true
  unfolding is_json
  configured_hash-is_json true v h = ap is_json (sym (some_inj h))
  configured_hash-is_json false v h = absurd (ground arith)

  audit_decision-returns :
      (p : Proposal) (d : TransactionDecision) (policy : PolicySnapshot) (fp : Option String)
      (now : ℕ) (ledger : Ledger)
      → is_some (audit_decision env p d policy fp now ledger) ≡ true
  unfolding audit_decision audit_payload is_json
  audit_decision-returns p d policy fp now ledger =
      let persisted = is_persisted env p d fp (get_by_idempotency_key (idempotency_key p) ledger) in
      let snapshot =
        optional-is_json "procedure_source_snapshot" (snapshot_of env p (d.accepted && persisted))
          end (snapshot_of-is_json p (d.accepted && persisted)) refl in
      let rest =
        optional env "procedure_source_snapshot" (snapshot_of env p (d.accepted && persisted))
          end in
      let intent =
        optional-is_json "intent_fingerprint" (as_text env fp) rest (as_text-is_json fp) snapshot in
      let configured =
        optional-is_json "configured_policy_hash"
          (if any (λ s. s.policy_hash == env.configured.policy_hash) ledger.policies
            then some (text env.configured.policy_hash)
            else none)
          (optional env "intent_fingerprint" (as_text env fp) rest)
          (configured_hash-is_json
            (any (λ s. s.policy_hash == env.configured.policy_hash) ledger.policies))
          intent in
      returns_bind _ _
        (append_event-returns env.digests (latest ledger.audit) _ now
          (ground (arith, dumped.proposals p, dumped.decisions d, configured)))
        (λ event. refl)

  pub store-returns :
      (p : Proposal) (d : TransactionDecision) (policy : PolicySnapshot) (fp : Option String)
      (at now : ℕ) (start : Option Ledger)
      → d.proposal_id ≡ proposal_id p
      → is_some start ≡ true
      → is_some (store env p d policy fp at now start) ≡ true
  unfolding store add_transaction
  store-returns p d policy fp at now start own h =
      returns_bind _ _
        (returns_bind _ _
          (returns_bind start _ h
            (λ l. ground (arith, (==_iff d.proposal_id (proposal_id p)).1 own)))
          (λ l. audit_decision-returns p d policy fp now l))
        (λ l. refl)

  pub audit_only-returns :
      (p : Proposal) (d : TransactionDecision) (policy : PolicySnapshot) (fp : Option String)
      (now : ℕ) (ledger : Ledger)
      → is_some (audit_only env p d policy fp now ledger) ≡ true
  unfolding audit_only
  audit_only-returns p d policy fp now ledger =
      returns_bind _ _ (audit_decision-returns p d policy fp now ledger) (λ l. refl)
