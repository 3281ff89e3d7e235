-- ===== src/Repository/Lives/Log.antt =====
-- The log of a Run: its events are numbered from one without a gap up to the last number of the Run,
-- and tell its life.
use work_assistant_agent.Prelude.{
  ℕ, suc, ◌+◌, ◌≡◌, ◌≢◌, refl, ap, subst, ◌∙◌, ◌⊎◌, inl, inr, Bool, false, String, none, some, List,
  [], ◌∷◌, ◌++◌, filter, length, All, All-append, arith, str_eq, eq_iff, Bool-cases, length-append,
}
use work_assistant_agent.Prelude.Dict.{
  Dict, lookup, insert, values, lookup-insert, lookup-insert_cases,
}
use work_assistant_agent.Repository.Records.{RunStatus, RunRecord, EventRecord, Store}
use work_assistant_agent.Repository.Lives.{
  Life, types, IsNumbered, IsStored, IsSettled, Advance, Effect, quiet, creates, advances,
}

-- What the abstract machine can have gone through: the status and the log that it has then.
pub data Story : RunStatus → List String → Type 0 where
  born : Story RunStatus.created []
  grown :
      {a b : RunStatus} {log kinds : List String}
      → Story a log
      → Life a b kinds
      → Story b (log ++ kinds)

abbrev pub is_event_of : String → EventRecord → Bool
is_event_of id e = str_eq e.run_id id

-- The events of one Run, in the order in which they were added.
abbrev pub log_in : String → List EventRecord → List EventRecord
log_in id rows = filter (is_event_of id) rows

abbrev pub log_of : String → Store → List EventRecord
log_of id s = log_in id (values s.events)

pub record IsTold (id : String) (r : RunRecord) (log : List EventRecord) : Type 0 where
  pub numbered : IsNumbered id 0 log
  pub counted : r.last_seq ≡ length log
  pub told : Story r.status (types log)
  pub settled : IsSettled r

pub record IsLogged (s : Store) : Type 0 where
  pub known : (id : String) (r : RunRecord) → lookup id s.runs ≡ some r → IsTold id r (log_of id s)
  pub silent : (id : String) → lookup id s.runs ≡ none → log_of id s ≡ []
  pub stored : All IsStored (values s.events)

values-append : {V : Type 0} (d e : Dict V) → values (d ++ e) ≡ values d ++ values e
values-append [] e = refl
values-append ((k, v) ∷ d) e = ap (λ l. v ∷ l) (values-append d e)

length-values : {V : Type 0} (d : Dict V) → length (values d) ≡ length d
length-values [] = refl
length-values ((k, v) ∷ d) = ap suc (length-values d)

log_in-append :
    (id : String) (xs ys : List EventRecord) → log_in id (xs ++ ys) ≡ log_in id xs ++ log_in id ys
log_in-append id [] ys = refl
log_in-append id (x ∷ xs) ys = ground (arith, log_in-append id xs ys)

pub types-append : (xs ys : List EventRecord) → types (xs ++ ys) ≡ types xs ++ types ys
types-append [] ys = refl
types-append (x ∷ xs) ys = ap (λ l. x.type ∷ l) (types-append xs ys)

-- New events are all of one Run.
pub log_in-own :
    (id : String) (n : ℕ) (rows : List EventRecord) → IsNumbered id n rows → log_in id rows ≡ rows
log_in-own id n [] h = refl
log_in-own id n (e ∷ rows) (own, _, rest) =
    rw ((eq_iff e.run_id id).1 own, log_in-own id (suc n) rows rest) refl

pub log_in-other :
    (id j : String) (n : ℕ) (rows : List EventRecord)
    → id ≢ j
    → IsNumbered id n rows
    → log_in j rows ≡ []
log_in-other id j n [] other h = refl
log_in-other id j n (e ∷ rows) other (own, _, rest) =
    let differs : str_eq e.run_id j ≡ false = ground (arith, own, eq_iff e.run_id j, other) in
    rw (differs, log_in-other id j (suc n) rows other rest) refl

IsNumbered-append :
    (id : String) (n m : ℕ) (xs ys : List EventRecord)
    → m ≡ n + length xs
    → IsNumbered id n xs
    → IsNumbered id m ys
    → IsNumbered id n (xs ++ ys)
IsNumbered-append id n m [] ys m_is hx hy =
    let m_is : m ≡ n = omega (arith, m_is) in subst (λ k. IsNumbered id k ys) m_is hy
IsNumbered-append id n m (e ∷ xs) ys m_is (own, at, rest) hy =
    (own, at, IsNumbered-append id (suc n) m xs ys (omega (arith, m_is)) rest hy)

pub append_nil : {A : Type 0} (xs : List A) → xs ++ [] ≡ xs
append_nil [] = refl
append_nil (x ∷ xs) = ap (λ l. x ∷ l) (append_nil xs)

-- A Run that advances has a longer log.
Advance-IsTold :
    (id : String) (r r' : RunRecord) (rows : Dict EventRecord) (log : List EventRecord)
    → IsTold id r log
    → Advance id r r' rows
    → IsTold id r' (log ++ values rows)
Advance-IsTold id r r' rows log h a = record {
  numbered =
      IsNumbered-append id 0 r.last_seq log (values rows) (omega (arith, h.counted)) h.numbered
        a.numbered;
  counted =
      omega (arith, a.counted, h.counted, length-append log (values rows), length-values rows);
  told = rw (types-append log (values rows)) (grown h.told a.life);
  settled = a.settled h.settled;
}

pub lookup-append :
    {V : Type 0} (id j : String) (v w : V) (d : Dict V)
    → lookup j (d ++ (id, v) ∷ []) ≡ some w
    → (lookup j d ≡ some w) ⊎ ((lookup j d ≡ none) × (id ≡ j) × (v ≡ w))
unfolding lookup
lookup-append id j v w [] h = ground (arith, h, eq_iff id j)
lookup-append id j v w ((k, u) ∷ d) h = ground (arith, h, lookup-append id j v w d)

lookup-append_none :
    {V : Type 0} (id j : String) (v : V) (d : Dict V)
    → lookup j (d ++ (id, v) ∷ []) ≡ none
    → lookup j d ≡ none
unfolding lookup
lookup-append_none id j v [] h = refl
lookup-append_none id j v ((k, u) ∷ d) h = ground (arith, h, lookup-append_none id j v d)

-- The part of the invariant that is about one Run, by its row in the table of Runs.
quiet-IsLogged : (s t : Store) → t.runs ≡ s.runs → t.events ≡ s.events → IsLogged s → IsLogged t
quiet-IsLogged s t runs_is events_is h = record {
  known = λ id r found. rw events_is (h.known id r (rw runs_is at found));
  silent = λ id absent. rw events_is (h.silent id (rw runs_is at absent));
  stored = rw events_is h.stored;
}

IsTold-born :
    (id : String) (r : RunRecord) (log : List EventRecord)
    → r.status ≡ RunStatus.created
    → r.last_seq ≡ 0
    → IsSettled r
    → log ≡ []
    → IsTold id r log
IsTold-born id r log status_is seq_is settled log_is =
    rw log_is
      (record { numbered = tt; counted = seq_is; told = rw status_is born; settled = settled })

creates-IsLogged :
    (s : Store) (id : String) (r : RunRecord)
    → r.status ≡ RunStatus.created
    → r.last_seq ≡ 0
    → IsSettled r
    → IsLogged s
    → IsLogged (record s { runs = s.runs ++ (id, r) ∷ [] })
creates-IsLogged s id r status_is seq_is settled h = record {
  known = λ j q found. elim (lookup-append id j r q s.runs found) [
    | inl old ↦ h.known j q old
    | inr (absent, _, r_is) ↦
        subst (λ q. IsTold j q (log_of j s)) r_is
          (IsTold-born j r (log_of j s) status_is seq_is settled (h.silent j absent))
  ];
  silent = λ j absent. h.silent j (lookup-append_none id j r s.runs absent);
  stored = h.stored;
}

pub log_of-advance :
    (j : String) (s : Store) (rows : Dict EventRecord)
    → log_in j (values (s.events ++ rows)) ≡ log_of j s ++ log_in j (values rows)
log_of-advance j s rows =
    ap (log_in j) (values-append s.events rows) ∙ log_in-append j (values s.events) (values rows)

advances-IsLogged :
    (s : Store) (id : String) (r r' : RunRecord) (rows : Dict EventRecord)
    → lookup id s.runs ≡ some r
    → Advance id r r' rows
    → IsLogged s
    → IsLogged (record s { runs = insert id r' s.runs; events = s.events ++ rows })
advances-IsLogged s id r r' rows found a h = record {
  known = λ j q now. elim (lookup-insert_cases id j r' q s.runs now) [
    | inl (here, r'_is) ↦ rw (log_of-advance j s rows) (
        subst (λ k. IsTold k q (log_of k s ++ log_in k (values rows))) here
          (rw (log_in-own id r.last_seq (values rows) a.numbered) (
            subst (λ q. IsTold id q (log_of id s ++ values rows)) r'_is
              (Advance-IsTold id r r' rows (log_of id s) (h.known id r found) a))))
    | inr (other, before) ↦
        rw
          (
            log_of-advance j s rows,
            log_in-other id j r.last_seq (values rows) other a.numbered,
            append_nil (log_of j s),
          )
          (h.known j q before)
  ];
  silent = λ j absent. rw (log_of-advance j s rows) (elim (Bool-cases (str_eq id j)) [
    | inl same ↦ absurd (ground (arith, absent, lookup-insert id j r' s.runs, same))
    | inr other ↦
        let differ : id ≢ j = λ same. ground (arith, same, other, eq_iff id j) in
        rw (log_in-other id j r.last_seq (values rows) differ a.numbered, append_nil (log_of j s))
          (h.silent j (ground (arith, absent, lookup-insert id j r' s.runs, other)))
  ]);
  stored =
      rw (values-append s.events rows)
        (All-append IsStored (values s.events) (values rows) h.stored a.stored);
}

pub Effect-IsLogged : {s t : Store} → Effect s t → IsLogged s → IsLogged t
Effect-IsLogged {s} {t} (quiet runs_is events_is) h = quiet-IsLogged s t runs_is events_is h
Effect-IsLogged {s} {t} (creates id r _ _ status_is seq_is settled runs_is events_is) h =
    quiet-IsLogged (record s { runs = s.runs ++ (id, r) ∷ [] }) t runs_is events_is
      (creates-IsLogged s id r status_is seq_is settled h)
Effect-IsLogged {s} {t} (advances id r r' rows found a runs_is events_is) h =
    quiet-IsLogged (record s { runs = insert id r' s.runs; events = s.events ++ rows }) t runs_is
      events_is (advances-IsLogged s id r r' rows found a h)
