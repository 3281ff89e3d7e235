-- ===== src/Schemas/Payload/Stored.antt =====
-- What was validated before it was stored reads back unchanged.
use work_assistant_agent.Prelude.{
  ◌≡◌, refl, Bool, true, false, ◌&&◌, inl, inr, String, Option, none, some, List, ok, err, arith,
  is_some, Result-cases, subst, if◌then◌else◌, contains, is_unique, str_eq, eq_iff, Option-cases,
  if-eq-ok, Bool-cases,
}
use work_assistant_agent.Capabilities.Values.{Fields}
use work_assistant_agent.Schemas.Fields.{FieldRule, rule_keys, validate_fields}
use work_assistant_agent.Schemas.Fields.Stable.{validate_fields-stable}
use work_assistant_agent.Schemas.Payload.{
  Payload, Message, texts, with_message, with_bare_message, with_status, dumped_message,
  validate_by, runtime_event_types, invalid_product_event_payload, validate_runtime_event,
  StatusPayload, PayloadModel, of_texts, of_message, of_status, payload_model, validate_payload,
  validate_product_event, normalize_stored_product_event, code_fits, current_code, usage_fits,
  fitting, failure_codes,
}

-- A payload but a message that belongs to no Run.
abbrev pub has_run : Payload → Bool
has_run (with_message m) = is_some m.run_id
has_run _ = true

-- The rules of a model name each field once.
abbrev pub has_rules : PayloadModel → Bool
has_rules (of_texts rules) = is_unique (rule_keys rules)
has_rules of_message = true
has_rules (of_status _ _ _) = true

payload_model-has_rules :
    (t : String) (m : PayloadModel) → payload_model t ≡ some m → has_rules m ≡ true
unfolding payload_model
payload_model-has_rules t m h = ground arith

validate_texts-stable :
    (rules : List FieldRule) (d : Fields) (q : Payload)
    → is_unique (rule_keys rules) ≡ true
    → fitting (validate_fields rules d) ≡ ok q
    → validate_payload (of_texts rules) q ≡ ok q
unfolding validate_payload
validate_texts-stable rules d q u h = elim (Option-cases (validate_fields rules d)) [
  | inl refused ↦ absurd (ground arith)
  | inr (e, fits) ↦
      let q_is : q ≡ texts e = ground arith in
      rw (q_is, validate_fields-stable rules d e u fits) refl
]

dumped_message-kept : (m : Message) → is_some m.run_id ≡ true → dumped_message m ≡ with_message m
unfolding dumped_message
dumped_message-kept m h = ground (arith, h)

dumped_message-stable :
    (m : Message) (q : Payload)
    → is_some m.run_id ≡ true
    → validate_payload of_message (with_message m) ≡ ok q
    → validate_payload of_message q ≡ ok q
unfolding validate_payload
dumped_message-stable m q kept h =
    let q_is : dumped_message m ≡ q = ground (arith, h) in
    rw (← q_is, dumped_message-kept m kept, validate_payload, dumped_message-kept m kept) refl

validate_payload-stable :
    (m : PayloadModel) (p q : Payload)
    → has_rules m ≡ true
    → has_run p ≡ true
    → validate_payload m p ≡ ok q
    → validate_payload m q ≡ ok q
unfolding validate_payload
validate_payload-stable (of_texts rules) (texts d) q u k h = validate_texts-stable rules d q u h
validate_payload-stable (of_texts rules) (with_message m) q u k h = absurd (ground arith)
validate_payload-stable (of_texts rules) (with_bare_message m) q u k h = absurd (ground arith)
validate_payload-stable (of_texts rules) (with_status p) q u k h = absurd (ground arith)
validate_payload-stable of_message (texts d) q u k h = absurd (ground arith)
validate_payload-stable of_message (with_message m) q u k h = dumped_message-stable m q k h
validate_payload-stable of_message (with_bare_message m) q u k h = absurd (ground arith)
validate_payload-stable of_message (with_status p) q u k h = absurd (ground arith)
validate_payload-stable (of_status s c l) (texts d) q u k h = absurd (ground arith)
validate_payload-stable (of_status s c l) (with_message m) q u k h = absurd (ground arith)
validate_payload-stable (of_status s c l) (with_bare_message m) q u k h = absurd (ground arith)
validate_payload-stable (of_status s c l) (with_status p) q u k h =
    let (fits, q_is) =
      if-eq-ok (str_eq p.status s && (code_fits c p.error_code && usage_fits l p.usage)) _ h in
    rw (q_is, validate_payload, fits) refl

-- A validated payload validates to itself, whatever the type of the event, but a message that belongs
-- to no Run.
pub validate_product_event-stable :
    (t : String) (p q : Payload)
    → has_run p ≡ true
    → validate_product_event t p ≡ ok q
    → validate_product_event t q ≡ ok q
unfolding validate_product_event
validate_product_event-stable t p q k h = elim (Option-cases (payload_model t)) [
  | inl unsupported ↦ absurd (ground arith)
  | inr (m, supported) ↦
      rw supported
        (validate_payload-stable m p q (payload_model-has_rules t m supported) k (ground arith))
]

-- The dump of a message that belongs to no Run is refused.
validate_payload-bare :
    (m : PayloadModel) (p q : Payload)
    → has_run p ≡ false
    → validate_payload m p ≡ ok q
    → validate_payload m q ≡ err invalid_product_event_payload
unfolding validate_payload dumped_message
validate_payload-bare of_message (with_message m) q k h = elim (Option-cases m.run_id) [
  | inr (r, some_run) ↦ absurd (ground (arith, k, some_run))
  | inl no_run ↦
      let q_is : with_bare_message (record {
        message_id = m.message_id;
        role = m.role;
        content = m.content;
        created_at = m.created_at;
      })
          ≡ q =
        ground (arith, h, no_run) in
      rw (← q_is) refl
]
validate_payload-bare (of_texts rules) (with_message m) q k h = absurd (ground arith)
validate_payload-bare (of_status s c l) (with_message m) q k h = absurd (ground arith)
validate_payload-bare m (texts d) q k h = absurd (ground (arith, k))
validate_payload-bare m (with_bare_message b) q k h = absurd (ground (arith, k))
validate_payload-bare m (with_status p) q k h = absurd (ground (arith, k))

validate_product_event-bare :
    (t : String) (p q : Payload)
    → has_run p ≡ false
    → validate_product_event t p ≡ ok q
    → validate_product_event t q ≡ err invalid_product_event_payload
unfolding validate_product_event
validate_product_event-bare t p q k h = elim (Option-cases (payload_model t)) [
  | inl unsupported ↦ absurd (ground arith)
  | inr (m, supported) ↦ rw supported (validate_payload-bare m p q k (ground arith))
]

abbrev holds_texts : Option PayloadModel → Bool
holds_texts (some (of_texts rules)) = true
holds_texts _ = false

runtime_model :
    (t : String) → contains t runtime_event_types ≡ true → holds_texts (payload_model t) ≡ true
unfolding payload_model
runtime_model t h = elim (Bool-cases (str_eq "tool.started" t)) [
  | inl start ↦ of_name "tool.started" start refl
  | inr s ↦ elim (Bool-cases (str_eq "tool.finished" t)) [
    | inl finish ↦ of_name "tool.finished" finish refl
    | inr f ↦ elim (Bool-cases (str_eq "message.delta" t)) [
      | inl delta ↦ of_name "message.delta" delta refl
      | inr d ↦ elim (Bool-cases (str_eq "source.added" t)) [
        | inl source ↦ of_name "source.added" source refl
        | inr a ↦ absurd (ground (arith, h, s, f, d, a))
      ]
    ]
  ]
]
  where
    of_name :
        (name : String)
        → str_eq name t ≡ true
        → holds_texts (payload_model name) ≡ true
        → holds_texts (payload_model t) ≡ true
    of_name name same known =
        subst (λ x. holds_texts (payload_model x) ≡ true) ((eq_iff name t).0 same) known

texts-has_run :
    (m : Option PayloadModel) (p q : Payload)
    → holds_texts m ≡ true
    → validate_by m p ≡ ok q
    → has_run q ≡ true
unfolding validate_payload
texts-has_run (some (of_texts rules)) (texts d) q k h =
    elim (Option-cases (validate_fields rules d)) [
      | inl refused ↦ absurd (ground (arith, h, refused))
      | inr (e, fits) ↦ let q_is : q ≡ texts e = ground (arith, h, fits) in rw q_is refl
    ]
texts-has_run (some (of_texts rules)) (with_message m) q k h = absurd (ground (arith, h))
texts-has_run (some (of_texts rules)) (with_bare_message m) q k h = absurd (ground (arith, h))
texts-has_run (some (of_texts rules)) (with_status p) q k h = absurd (ground (arith, h))
texts-has_run (some of_message) p q k h = absurd (ground (arith, k))
texts-has_run (some (of_status s c l)) p q k h = absurd (ground (arith, k))
texts-has_run none p q k h = absurd (ground (arith, k))

-- The events of a Runtime hold texts.
pub validate_runtime_event-has_run :
    (t : String) (p : Payload) (x : String × Payload)
    → validate_runtime_event t p ≡ ok x
    → has_run x.1 ≡ true
unfolding validate_runtime_event validate_product_event
validate_runtime_event-has_run t p x h = elim (Bool-cases (contains t runtime_event_types)) [
  | inr other ↦ absurd (ground (arith, h, other))
  | inl allowed ↦ elim (Result-cases (validate_by (payload_model t) p)) [
    | inl (e, bad) ↦ absurd (ground (arith, h, allowed, bad))
    | inr (q, good) ↦
        let q_is : q ≡ x.1 = ground (arith, h, allowed, good) in
        rw (← q_is) (texts-has_run (payload_model t) p q (runtime_model t allowed) good)
  ]
]

current_code-fixes : (o : Option String) → code_fits true o ≡ true → current_code o ≡ o
current_code-fixes none h = refl
current_code-fixes (some c) h = elim (Bool-cases (str_eq c "agent_result_missing")) [
  | inl old ↦ absurd (ground (arith, retired c ((eq_iff c "agent_result_missing").0 old), h))
  | inr current ↦ rw current refl
]
  where
    retired : (c : String) → c ≡ "agent_result_missing" → contains c failure_codes ≡ false
    retired c c_is = rw c_is refl

current_status :
    (t w : String) (c k : Bool) (p : StatusPayload)
    → payload_model t ≡ some (of_status w c k)
    → (str_eq p.status w && (code_fits c p.error_code && usage_fits k p.usage)) ≡ true
    → normalize_stored_product_event t (with_status p) ≡ with_status p
unfolding payload_model normalize_stored_product_event
current_status t w c k p s fits =
    ground (arith, eq_iff t "run.failed", current_code-fixes p.error_code)

normalized_message :
    (t : String) (m : Message)
    → normalize_stored_product_event t (dumped_message m) ≡ dumped_message m
unfolding normalize_stored_product_event dumped_message
normalized_message t m = elim (Option-cases m.run_id) [
  | inl no_run ↦ rw no_run refl
  | inr (r, some_run) ↦ rw some_run refl
]

-- The one failure code that is rewritten on reading is not one that an event may hold now.
current_payload :
    (t : String) (m : PayloadModel) (p q : Payload)
    → payload_model t ≡ some m
    → validate_payload m p ≡ ok q
    → normalize_stored_product_event t q ≡ q
unfolding validate_payload normalize_stored_product_event
current_payload t (of_texts rules) (texts d) q s h = elim (Option-cases (validate_fields rules d)) [
  | inl refused ↦ absurd (ground arith)
  | inr (e, fits) ↦ let q_is : q ≡ texts e = ground arith in rw q_is refl
]
current_payload t of_message (with_message m) q s h =
    let q_is : dumped_message m ≡ q = ground (arith, h) in rw (← q_is) (normalized_message t m)
current_payload t (of_status w c k) (with_status p) q s h =
    let (fits, q_is) =
      if-eq-ok (str_eq p.status w && (code_fits c p.error_code && usage_fits k p.usage)) _ h in
    rw q_is (current_status t w c k p s fits)
current_payload t m p q s h = absurd (ground arith)

current_event :
    (t : String) (p q : Payload)
    → validate_product_event t p ≡ ok q
    → normalize_stored_product_event t q ≡ q
unfolding validate_product_event
current_event t p q h = elim (Option-cases (payload_model t)) [
  | inl unsupported ↦ absurd (ground arith)
  | inr (m, supported) ↦ current_payload t m p q supported (ground arith)
]

pub stored_payload_stays :
    (t : String) (p : Payload)
    → validate_product_event t p ≡ ok p
    → validate_product_event t (normalize_stored_product_event t p) ≡ ok p
stored_payload_stays t p h = rw (current_event t p p h) h

-- What an event was stored with after its validation is what reading it gives: the rewriting of the
-- retired failure code leaves it alone, and validating it once more accepts it unchanged. The one
-- exception is a message that belongs to no Run: its dump lacks the null run_id, and is refused.
pub stored_payload_reads_back :
    (t : String) (p q : Payload)
    → validate_product_event t p ≡ ok q
    → validate_product_event t (normalize_stored_product_event t q)
      ≡ (if has_run p then ok q else err invalid_product_event_payload)
stored_payload_reads_back t p q h = rw (current_event t p q h) (elim (Bool-cases (has_run p)) [
  | inl kept ↦ rw kept (validate_product_event-stable t p q kept h)
  | inr bare ↦ rw bare (validate_product_event-bare t p q bare h)
])
