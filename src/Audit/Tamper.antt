-- ===== src/Audit/Tamper.antt =====
-- The hash of the newest event of a verified chain fixes the whole log.
use super_scientist_orchestr.Prelude.{
  ℕ, ◌≤◌, String, ◌≡◌, refl, sym, ap, ◌∙◌, subst, ◌≢◌, ◌⊎◌, inl, inr, true, Option, none, some,
  List, [], ◌∷◌, arith, Bool-cases, ◌==◌, ==_iff, nat_eq, string_eq, option_eq, list_eq,
}
use super_scientist_orchestr.Audit.{
  Digests, AuditEvent, Envelope, envelope_json, verify_chain, next_sequence,
}
use super_scientist_orchestr.Audit.Chain.{IsChain, verify_chain_iff}
use super_scientist_orchestr.Audit.Linkage.{envelope_of, IsSealed, Follows-IsSealed}

-- The newest event first.
abbrev pub newest_onto : List AuditEvent → List AuditEvent → List AuditEvent
newest_onto [] older = older
newest_onto (event ∷ events) older = newest_onto events (event ∷ older)

abbrev pub newest_first : List AuditEvent → List AuditEvent
newest_first events = newest_onto events []

abbrev newest : List AuditEvent → Option AuditEvent
newest [] = none
newest (event ∷ older) = some event

-- What the digests owe the chain: `json.dumps` is injective on envelopes, and `isoformat` on
-- timestamps.
pub record IsFaithful (digests : Digests) : Type 0 where
  pub envelopes :
      (a b : Envelope)
      → digests.canonical_json (envelope_json a) ≡ digests.canonical_json (envelope_json b)
      → a ≡ b
  pub times : (a b : ℕ) → digests.isoformat a ≡ digests.isoformat b → a ≡ b

-- The text is one whose hash stands in an event of the log: an envelope or a payload.
abbrev pub IsHashed : Digests → List AuditEvent → String → Type 0
IsHashed digests [] text = ⊥
IsHashed digests (event ∷ events) text =
    (text ≡ digests.canonical_json (envelope_json (envelope_of digests event)))
    ⊎ (text ≡ digests.canonical_json event.payload)
    ⊎ IsHashed digests events text

-- A text of one log and another text of the other log have one SHA-256.
pub record Collision (digests : Digests) (events events' : List AuditEvent) : Type 0 where
  pub left : String
  pub right : String
  pub left_hashed : IsHashed digests events left
  pub right_hashed : IsHashed digests events' right
  pub different : left ≢ right
  pub same_hash : digests.sha256_hex left ≡ digests.sha256_hex right

-- Two events agree in all that they record; their payloads agree as canonical JSON.
pub record SameEvent (digests : Digests) (a b : AuditEvent) : Type 0 where
  pub sequence_number : a.sequence_number ≡ b.sequence_number
  pub event_id : a.event_id ≡ b.event_id
  pub event_type : a.event_type ≡ b.event_type
  pub occurred_at : a.occurred_at ≡ b.occurred_at
  pub payload : digests.canonical_json a.payload ≡ digests.canonical_json b.payload
  pub previous_hash : a.previous_hash ≡ b.previous_hash

abbrev pub SameLog : Digests → List AuditEvent → List AuditEvent → Type 0
SameLog digests [] [] = Unit
SameLog digests (a ∷ as') (b ∷ bs) = SameEvent digests a b × SameLog digests as' bs
SameLog digests _ _ = ⊥

next_sequence_pos : (previous : Option AuditEvent) → 1 ≤ next_sequence previous
next_sequence_pos none = omega arith
next_sequence_pos (some event) = omega arith

module _ (digests : Digests) (faithful : IsFaithful digests) where
  -- Equal hashes have equal texts behind them, or there is a collision.
  texts_of_hash :
      {events events' : List AuditEvent} (s t : String)
      → IsHashed digests events s
      → IsHashed digests events' t
      → digests.sha256_hex s ≡ digests.sha256_hex t
      → Collision digests events events' ⊎ (s ≡ t)
  texts_of_hash s t p q same = elim (Bool-cases (s == t)) [
    | inl equal ↦ inr ((==_iff s t).0 equal)
    | inr unequal ↦ inl (record {
      left = s;
      right = t;
      left_hashed = p;
      right_hashed = q;
      different = λ e. ground (arith, ==_iff s t);
      same_hash = same;
    })
  ]

  -- A collision within older events is one of the whole logs.
  Collision-older :
      (a b : AuditEvent) {as' bs : List AuditEvent}
      → Collision digests as' bs
      → Collision digests (a ∷ as') (b ∷ bs)
  Collision-older a b c = record {
    left = c.left;
    right = c.right;
    left_hashed = inr (inr c.left_hashed);
    right_hashed = inr (inr c.right_hashed);
    different = c.different;
    same_hash = c.same_hash;
  }

  module _ {p q : Option AuditEvent} (a b : AuditEvent) (as' bs : List AuditEvent)
      (s : IsSealed digests p a) (t : IsSealed digests q b) where
    same_envelope :
        a.event_hash ≡ b.event_hash
        → Collision digests (a ∷ as') (b ∷ bs) ⊎ (envelope_of digests a ≡ envelope_of digests b)
    same_envelope same =
        elim (texts_of_hash {events = a ∷ as'} {events' = b ∷ bs}
          (digests.canonical_json (envelope_json (envelope_of digests a)))
          (digests.canonical_json (envelope_json (envelope_of digests b))) (inl refl) (inl refl)
          (sym s.envelope ∙ same ∙ t.envelope)) [
            | inl c ↦ inl c
            | inr texts ↦
                inr (faithful.envelopes (envelope_of digests a) (envelope_of digests b) texts)
          ]

    same_payload :
        a.payload_hash ≡ b.payload_hash
        → Collision digests (a ∷ as') (b ∷ bs)
          ⊎ (digests.canonical_json a.payload ≡ digests.canonical_json b.payload)
    same_payload same =
        texts_of_hash (digests.canonical_json a.payload) (digests.canonical_json b.payload)
          (inr (inl refl)) (inr (inl refl)) (sym s.payload ∙ same ∙ t.payload)

    same_event :
        a.event_hash ≡ b.event_hash → Collision digests (a ∷ as') (b ∷ bs) ⊎ SameEvent digests a b
    same_event same = elim (same_envelope same) [
      | inl c ↦ inl c
      | inr e ↦ elim (same_payload (ap (λ (x : Envelope). x.payload_hash) e)) [
        | inl c ↦ inl c
        | inr p ↦ inr (record {
          sequence_number = ap (λ (x : Envelope). x.sequence_number) e;
          event_id = ap (λ (x : Envelope). x.event_id) e;
          event_type = ap (λ (x : Envelope). x.event_type) e;
          occurred_at =
              faithful.times a.occurred_at b.occurred_at (ap (λ (x : Envelope). x.occurred_at) e);
          payload = p;
          previous_hash = ap (λ (x : Envelope). x.previous_hash) e;
        })
      ]
    ]

  -- Each event is sealed behind the one after it in the list, which is older.
  abbrev AreSealed : List AuditEvent → Type 0
  AreSealed [] = Unit
  AreSealed (event ∷ older) = IsSealed digests (newest older) event × AreSealed older

  IsChain-AreSealed :
      (older events : List AuditEvent)
      → AreSealed older
      → IsChain digests (newest older) events
      → AreSealed (newest_onto events older)
  IsChain-AreSealed older [] sealed h = sealed
  IsChain-AreSealed older (event ∷ events) sealed h =
      IsChain-AreSealed (event ∷ older) events
        (Follows-IsSealed digests (newest older) event h.0, sealed) h.1

  same_log :
      (a b : AuditEvent) (as' bs : List AuditEvent)
      → AreSealed (a ∷ as')
      → AreSealed (b ∷ bs)
      → a.event_hash ≡ b.event_hash
      → Collision digests (a ∷ as') (b ∷ bs) ⊎ SameLog digests (a ∷ as') (b ∷ bs)
  same_log a b [] [] s t same = elim (same_event a b [] [] s.0 t.0 same) [
    | inl c ↦ inl c
    | inr e ↦ inr (e, tt)
  ]
  same_log a b [] (d ∷ ds) s t same = elim (same_event a b [] (d ∷ ds) s.0 t.0 same) [
    | inl c ↦ inl c
    | inr e ↦ absurd (
        omega (
          arith,
          s.0.number,
          t.0.number,
          t.1.0.number,
          next_sequence_pos (newest ds),
          e.sequence_number,
        ))
  ]
  same_log a b (c ∷ cs) [] s t same = elim (same_event a b (c ∷ cs) [] s.0 t.0 same) [
    | inl c' ↦ inl c'
    | inr e ↦ absurd (
        omega (
          arith,
          s.0.number,
          t.0.number,
          s.1.0.number,
          next_sequence_pos (newest cs),
          e.sequence_number,
        ))
  ]
  same_log a b (c ∷ cs) (d ∷ ds) s t same = elim (same_event a b (c ∷ cs) (d ∷ ds) s.0 t.0 same) [
    | inl c' ↦ inl c'
    | inr e ↦ elim (same_log c d cs ds s.1 t.1 (sym s.0.hash ∙ e.previous_hash ∙ t.0.hash)) [
      | inl c' ↦ inl (Collision-older a b c')
      | inr l ↦ inr (e, l)
    ]
  ]

-- Two verified logs whose newest events have one hash record the same events, from the newest to the
-- oldest, unless a text hashed in one log has the SHA-256 of a different text hashed in the other: no event
-- can be changed, dropped, added or moved.
pub verify_chain-SameLog :
    (digests : Digests) (events events' : List AuditEvent) {a b : AuditEvent}
    {as' bs : List AuditEvent}
    → IsFaithful digests
    → (verify_chain digests events).valid ≡ true
    → (verify_chain digests events').valid ≡ true
    → newest_first events ≡ a ∷ as'
    → newest_first events' ≡ b ∷ bs
    → a.event_hash ≡ b.event_hash
    → Collision digests (newest_first events) (newest_first events')
      ⊎ SameLog digests (newest_first events) (newest_first events')
verify_chain-SameLog digests events events' {a} {b} {as'} {bs} faithful h h' p q same =
    rw (p, q)
      (same_log digests faithful a b as' bs
        (subst (AreSealed digests faithful) p
          (IsChain-AreSealed digests faithful [] events tt ((verify_chain_iff digests events).0 h)))
        (subst (AreSealed digests faithful) q (
          IsChain-AreSealed digests faithful [] events' tt
            ((verify_chain_iff digests events').0 h')))
        same)
