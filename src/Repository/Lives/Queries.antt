-- ===== src/Repository/Lives/Queries.antt =====
-- How the queries, the guarded update and the insertion of an event end.
use work_assistant_agent.Prelude.{
  ℕ, ◌≡◌, refl, sym, ap, ◌∙◌, inl, inr, Bool, true, false, String, Option, some, [], ◌∷◌, ◌++◌,
  Result, ok, err, pure, lift, ◌>>=◌, ◌>>◌, continue, arith, Bool-cases, Option-cases,
  continue-eq-ok, err_ne_ok,
}
use work_assistant_agent.Prelude.Dict.{lookup}
use work_assistant_agent.Schemas.Payload.{EventFault, Payload, validate_product_event}
use work_assistant_agent.Schemas.Payload.Stored.{has_run, validate_product_event-stable}
use work_assistant_agent.Repository.Records.{
  RunRecord, EventRecord, Store, Repo, Checked, reads, put_run, update_run, add_event, transaction,
}
use work_assistant_agent.Repository.Access.{◌|>=◌}
use work_assistant_agent.Repository.Views.{accepted}
use work_assistant_agent.Repository.Events.{record_event, event_record, after_update}
use work_assistant_agent.Repository.Lives.{Effect, quiet, IsStored}

abbrev pub same_tables : {s : Store} → Effect s s
same_tables = quiet refl refl

module _ {A B : Type 0} where
  pub reads-eq-ok :
      (f : Store → Checked A) (k : A → Repo B) (s : Store) {b : B} {u : Store}
      → (reads f >>= k) s ≡ (ok b, u)
      → (a : A) × (f s ≡ ok a) × (k a s ≡ (ok b, u))
  unfolding reads
  reads-eq-ok f k s {b} {u} h = ended (f s) refl h
    where
      ended :
          (x : Checked A)
          → f s ≡ x
          → continue x k s ≡ (ok b, u)
          → (a : A) × (f s ≡ ok a) × (k a s ≡ (ok b, u))
      ended (ok a) x_is h = (a, x_is, h)
      ended (err e) x_is h = absurd (err_ne_ok h)

  pub lift-eq-ok :
      (x : Checked A) (k : A → Repo B) (s : Store) {b : B} {u : Store}
      → (lift x >>= k) s ≡ (ok b, u)
      → (a : A) × (x ≡ ok a) × (k a s ≡ (ok b, u))
  lift-eq-ok (ok a) k s h = (a, refl, h)
  lift-eq-ok (err e) k s h = absurd (err_ne_ok h)

pub transaction-eq-ok :
    {A : Type 0} (m : Repo A) (s : Store) (a : A) (u : Store)
    → transaction m s ≡ (ok a, u)
    → m s ≡ (ok a, u)
unfolding transaction
transaction-eq-ok {A = A} m s a u h = committed (m s) refl h
  where
    committed :
        (x : Checked A × Store)
        → m s ≡ x
        → ◌≡◌ {A = Checked A × Store} (x.0, elim x.0 [ ok _ ↦ x.1 | err _ ↦ s ]) (ok a, u)
        → m s ≡ (ok a, u)
    committed (ok b, v) x_is h = x_is ∙ h
    committed (err e, v) x_is h = absurd (err_ne_ok h)

-- A guarded update that found no row to change left the tables alone.
pub data Updated {A : Type 0} (id : String) (guard : RunRecord → Bool)
    (change : RunRecord → RunRecord) (body : RunRecord → Repo A) (s : Store) (a : A) (u : Store)
    : Type 0 where
  missed :
      u ≡ s
      → ((r : RunRecord) → lookup id s.runs ≡ some r → guard r ≡ false)
      → Updated id guard change body s a u
  hit :
      (r : RunRecord)
      → lookup id s.runs ≡ some r
      → guard r ≡ true
      → body (change r) (put_run id (change r) s) ≡ (ok a, u)
      → Updated id guard change body s a u

pub reads_same :
    {A : Type 0} (f : Store → Checked A) (s : Store) (a : A) (u : Store)
    → reads f s ≡ (ok a, u)
    → u ≡ s
unfolding reads
reads_same f s a u h = sym (ap (λ x. x.1) h)

pub reads_same_then :
    {A B : Type 0} (f : Store → Checked A) (b : B) (s : Store) (a : B) (u : Store)
    → (reads f >> pure b) s ≡ (ok a, u)
    → u ≡ s
reads_same_then f b s a u h =
    let (_, _, rest) = reads-eq-ok f (λ _. pure b) s h in sym (ap (λ x. x.1) rest)

same_row :
    {x : Option RunRecord} (guard : RunRecord → Bool) (q r : RunRecord)
    → x ≡ some q
    → x ≡ some r
    → guard r ≡ false
    → guard q ≡ false
same_row guard q r found present unfit = ground arith

module _ {A : Type 0} (id : String) (guard : RunRecord → Bool) (change : RunRecord → RunRecord)
    (missing : Repo A) (body : RunRecord → Repo A) where
  pub update_run-ended :
      (s : Store) (a : A) (u : Store)
      → ((b : A) (v : Store) → missing s ≡ (ok b, v) → v ≡ s)
      → (update_run id guard change >>= λ x. after_update x missing body) s ≡ (ok a, u)
      → Updated id guard change body s a u
  unfolding update_run
  update_run-ended s a u reads_only h = elim (Option-cases (lookup id s.runs)) [
    | inl absent ↦
        missed (reads_only a u (ground (arith, h, absent)))
          (λ r found. absurd (ground (arith, absent, found)))
    | inr (r, present) ↦ elim (Bool-cases (guard r)) [
      | inl fits ↦ hit r present fits (ground (arith, h, present, fits))
      | inr unfit ↦
          missed (reads_only a u (ground (arith, h, present, unfit)))
            (λ q found. same_row guard q r found present unfit)
    ]
  ]

-- An event that was added.
pub record Recorded (event_id id type : String) (r : RunRecord) (n : ℕ) (e : EventRecord)
    (s u : Store) : Type 0 where
  pub run_is : e.run_id ≡ id
  pub seq_is : e.seq ≡ n
  pub type_is : e.type ≡ type
  pub is_stored : IsStored e
  pub store_is : u ≡ record s { events = s.events ++ (event_id, e) ∷ [] }

add_event-ended :
    (id : String) (e : EventRecord) (s u : Store) (x : Unit {0})
    → add_event id e s ≡ (ok x, u)
    → u ≡ record s { events = s.events ++ (id, e) ∷ [] }
unfolding add_event
add_event-ended id e s u x h = ground (arith, h)

event_record-ended :
    (event_id id type : String) (r : RunRecord) (p : Payload) (n now : ℕ) (e : EventRecord)
    (s : Store)
    → has_run p ≡ true
    → event_record id r type p n now ≡ ok e
    → Recorded event_id id type r n e s (record s { events = s.events ++ (event_id, e) ∷ [] })
unfolding event_record
event_record-ended event_id id type r p n now e s kept h =
    ended (validate_product_event type p) refl h
  where
    row : Payload → EventRecord
    row v = record {
      run_id = id;
      thread_id = r.thread_id;
      seq = n;
      type = type;
      occurred_at = now;
      payload = v;
    }

    ended :
        (x : Result EventFault Payload)
        → validate_product_event type p ≡ x
        → (accepted x |>= λ v. ok (row v)) ≡ ok e
        → Recorded event_id id type r n e s (record s { events = s.events ++ (event_id, e) ∷ [] })
    ended (err f) x_is h = absurd (ground arith)
    ended (ok q) x_is h =
        let e_is : e ≡ row q = ground arith in
        rw e_is (record {
          run_is = refl;
          seq_is = refl;
          type_is = refl;
          is_stored = validate_product_event-stable type p q kept x_is;
          store_is = refl;
        })

pub record_event-ended :
    (event_id id type : String) (r : RunRecord) (p : Payload) (n now : ℕ) (e : EventRecord)
    (s u : Store)
    → has_run p ≡ true
    → record_event event_id id r type p n now s ≡ (ok e, u)
    → Recorded event_id id type r n e s u
unfolding record_event
record_event-ended event_id id type r p n now e s u runs h =
    let (f, built, rest) = lift-eq-ok (event_record id r type p n now) _ s h in
    let (x, v, added, kept) = continue-eq-ok (add_event event_id f s) (λ _. pure f) rest in
    let v_is = add_event-ended event_id f s v x added in
    let e_is : e ≡ f = ground arith in
    let u_is : u ≡ v = ground arith in
    rw (u_is ∙ v_is, e_is) (event_record-ended event_id id type r p n now f s runs built)
