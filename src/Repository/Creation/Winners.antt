-- ===== src/Repository/Creation/Winners.antt =====
-- What a call of `create_run` that creates a Run leaves, as a later call reads it.
use work_assistant_agent.Prelude.{
  ℕ, ◌≡◌, refl, sym, ap, ◌∙◌, inl, inr, Bool, true, false, String, Option, none, some, [], ◌∷◌,
  ◌++◌, ok, err, ◌⊎◌, raise, arith, continue-eq-ok, err_ne_ok, any, eq_iff,
}
use work_assistant_agent.Prelude.Dict.{Dict, lookup, insert, values, lookup-insert}
use work_assistant_agent.Capabilities.Decision.{Principal}
use work_assistant_agent.Policy.Plan.{ExecutionPlanEvidence}
use work_assistant_agent.Repository.Records.{
  RunRecord, ThreadRecord, Store, Repo, Checked, integrity_error, of_thread, add_run, add_message,
  put_thread,
}
use work_assistant_agent.Repository.Access.{
  require_owner, require_run_actor, require_thread_owner, is_inconsistent,
  require_thread_run_consistency,
}
use work_assistant_agent.Repository.Creation.{
  RunIds, new_run, user_message, require_own_thread, run_of_key, existing_run, insert_run, found_or,
  find_or_insert_run, reread_run, on_integrity, recovered,
}
use work_assistant_agent.Repository.Lives.Queries.{reads-eq-ok}

-- What a call that created a Run leaves.
pub record Created (id : String) (r : RunRecord) (t : ThreadRecord) (s u : Store) : Type 0 where
  pub runs_are : u.runs ≡ s.runs ++ (id, r) ∷ []
  pub threads_are :
      u.threads ≡ insert r.thread_id (record t { updated_at = r.created_at }) s.threads
  pub as_open : u.fatal_error ≡ s.fatal_error

insert_run-Created :
    (ids : RunIds) (message : String) (r : RunRecord) (t : ThreadRecord)
    (a : String × RunRecord × Bool) (s u : Store)
    → insert_run ids r.thread_id message r t s ≡ (ok a, u)
    → (a ≡ (ids.run, r, true)) × Created ids.run r t s u
unfolding insert_run add_run add_message put_thread
insert_run-Created ids message r t a s u h =
    let (x, v, added, rest) = continue-eq-ok (add_run ids.run r s) _ h in
    let (y, w, asked, rest) =
      continue-eq-ok
        (add_message ids.message (user_message r.thread_id ids.run message r.created_at) v) _
        rest in
    let v_is : v ≡ record s { runs = s.runs ++ (ids.run, r) ∷ [] } = ground (arith, added) in
    let runs_w : w.runs ≡ v.runs = ground (arith, asked) in
    let threads_w : w.threads ≡ v.threads = ground (arith, asked) in
    let open_w : w.fatal_error ≡ v.fatal_error = ground (arith, asked) in
    let u_is : u ≡ put_thread r.thread_id (record t { updated_at = r.created_at }) w =
      sym (ap (λ x. x.1) rest) in
    (
      ground (arith, rest),
      rw u_is (record {
        runs_are = runs_w ∙ ap (λ (q : Store). q.runs) v_is;
        threads_are =
            ap (insert r.thread_id (record t { updated_at = r.created_at }))
              (threads_w ∙ ap (λ (q : Store). q.threads) v_is);
        as_open = open_w ∙ ap (λ (q : Store). q.fatal_error) v_is;
      }),
    )

run_of_key-append :
    (thread_id key id : String) (r : RunRecord) (d : Dict RunRecord)
    → run_of_key thread_id key d ≡ none
    → r.thread_id ≡ thread_id
    → r.idempotency_key ≡ key
    → run_of_key thread_id key (d ++ (id, r) ∷ []) ≡ some (id, r)
unfolding run_of_key
run_of_key-append thread_id key id r [] h at_thread at_key =
    ground (arith, eq_iff r.thread_id thread_id, eq_iff r.idempotency_key key)
run_of_key-append thread_id key id r ((j, q) ∷ d) h at_thread at_key =
    ground (arith, h, run_of_key-append thread_id key id r d)

existing_run-none :
    (principal : Principal) (thread_id key : String) (s : Store)
    → existing_run principal thread_id key s ≡ ok none
    → run_of_key thread_id key s.runs ≡ none
unfolding existing_run
existing_run-none principal thread_id key s h = ground arith

is_inconsistent-append :
    (thread_id id : String) (t u : ThreadRecord) (r : RunRecord) (d : Dict RunRecord)
    → any (is_inconsistent thread_id t) (values d) ≡ false
    → u.owner_subject ≡ t.owner_subject
    → r.actor_subject ≡ t.owner_subject
    → any (is_inconsistent thread_id u) (values (d ++ (id, r) ∷ [])) ≡ false
unfolding is_inconsistent
is_inconsistent-append thread_id id t u r [] h same_owner own =
    ground (arith, eq_iff r.actor_subject u.owner_subject)
is_inconsistent-append thread_id id t u r ((j, q) ∷ d) h same_owner own =
    ground (arith, h, is_inconsistent-append thread_id id t u r d)

-- The owner of a thread, as `require_own_thread` finds it.
pub record OwnThread (principal : Principal) (thread_id : String) (t : ThreadRecord) (s : Store)
    : Type 0 where
  pub is_there : lookup thread_id s.threads ≡ some t
  pub is_owner : require_owner principal t.owner_subject of_thread ≡ ok tt
  pub is_consistent : any (is_inconsistent thread_id t) (values s.runs) ≡ false

require_own_thread-ended :
    (principal : Principal) (thread_id : String) (t : ThreadRecord) (s : Store)
    → require_own_thread principal thread_id s ≡ ok t
    → OwnThread principal thread_id t s
unfolding require_own_thread require_thread_owner require_thread_run_consistency
require_own_thread-ended principal thread_id t s h = record {
  is_there = ground arith;
  is_owner = ground arith;
  is_consistent = ground arith;
}

owner_subject-eq :
    (principal : Principal) (owner : String)
    → require_owner principal owner of_thread ≡ ok tt
    → principal.subject ≡ owner
unfolding require_owner
owner_subject-eq principal owner h = ground (arith, h, eq_iff principal.subject owner)

pub OwnThread-stays :
    (principal : Principal) (id : String) (r : RunRecord) (t : ThreadRecord) (s u : Store)
    → r.actor_subject ≡ principal.subject
    → OwnThread principal r.thread_id t s
    → Created id r t s u
    → require_own_thread principal r.thread_id u ≡ ok (record t { updated_at = r.created_at })
unfolding require_own_thread require_thread_owner require_thread_run_consistency
OwnThread-stays principal id r t s u own at c =
    let t' : ThreadRecord = record t { updated_at = r.created_at } in
    let there : lookup r.thread_id u.threads ≡ some t' =
      ap (lookup r.thread_id) c.threads_are
      ∙ lookup-insert r.thread_id r.thread_id t' s.threads
      ∙ rw ((eq_iff r.thread_id r.thread_id).1 refl) refl in
    let consistent : any (is_inconsistent r.thread_id t') (values u.runs) ≡ false = rw c.runs_are (
      is_inconsistent-append r.thread_id id t t' r s.runs at.is_consistent refl
        (own ∙ owner_subject-eq principal t.owner_subject at.is_owner)) in
    rw (there, at.is_owner, consistent) refl

pub existing_run-Created :
    (principal : Principal) (id : String) (r : RunRecord) (t : ThreadRecord) (s u : Store)
    → r.actor_subject ≡ principal.subject
    → require_owner principal t.owner_subject of_thread ≡ ok tt
    → existing_run principal r.thread_id r.idempotency_key s ≡ ok none
    → Created id r t s u
    → existing_run principal r.thread_id r.idempotency_key u ≡ ok (some (id, r))
unfolding existing_run require_run_actor
existing_run-Created principal id r t s u own is_owner new c =
    let there : run_of_key r.thread_id r.idempotency_key u.runs ≡ some (id, r) =
      ap (run_of_key r.thread_id r.idempotency_key) c.runs_are
      ∙ run_of_key-append r.thread_id r.idempotency_key id r s.runs
          (existing_run-none principal r.thread_id r.idempotency_key s new) refl refl in
    let acts : require_owner principal r.actor_subject of_thread ≡ ok tt =
      rw (own ∙ owner_subject-eq principal t.owner_subject is_owner) is_owner in
    rw (existing_run, there, acts) refl

pub on_integrity-ended :
    {A : Type 0} (m handler : Repo A) (s : Store) (a : A) (u : Store)
    → on_integrity m handler s ≡ (ok a, u)
    → (m s ≡ (ok a, u)) ⊎ ((v : Store) × (handler v ≡ (ok a, u)))
unfolding on_integrity
on_integrity-ended {A = A} m handler s a u = ended (m s) refl
  where
    ended :
        (x : Checked A × Store)
        → m s ≡ x
        → recovered x.0 handler x.1 ≡ (ok a, u)
        → (m s ≡ (ok a, u)) ⊎ ((v : Store) × (handler v ≡ (ok a, u)))
    ended (ok b, v) x_is h = inl (x_is ∙ h)
    ended (err integrity_error, v) x_is h = inr (v, h)
    ended (err _, v) x_is h = absurd (err_ne_ok h)

-- A Run that was there is never answered as a new one.
found_or-new :
    (x : Option (String × RunRecord)) (m : Repo (String × RunRecord × Bool)) (id : String)
    (r : RunRecord) (s u : Store)
    → found_or x m s ≡ (ok (id, r, true), u)
    → (x ≡ none) × (m s ≡ (ok (id, r, true), u))
found_or-new none m id r s u h = (refl, h)
found_or-new (some (j, q)) m id r s u h = absurd (ground (arith, h))

pub reread_run-old :
    (principal : Principal) (thread_id key id : String) (r : RunRecord) (s u : Store)
    → reread_run principal thread_id key s ≡ (ok (id, r, true), u)
    → ⊥
unfolding reread_run
reread_run-old principal thread_id key id r s u h =
    let (_, _, rest) = reads-eq-ok (require_own_thread principal thread_id) _ s h in
    let (existing, _, rest) = reads-eq-ok (existing_run principal thread_id key) _ s rest in
    err_ne_ok (found_or-new existing (raise integrity_error) id r s u rest).1

-- The call that created a Run.
pub record Winning (ids : RunIds) (principal : Principal) (r : RunRecord) (t : ThreadRecord)
    (s u : Store) : Type 0 where
  pub own_thread : OwnThread principal r.thread_id t s
  pub no_run : existing_run principal r.thread_id r.idempotency_key s ≡ ok none
  pub created : Created ids.run r t s u

pub find_or_insert_run-Winning :
    (ids : RunIds) (principal : Principal) (thread_id message key : String)
    (plan : ExecutionPlanEvidence) (now : ℕ) (id : String) (r : RunRecord) (s u : Store)
    → find_or_insert_run ids principal thread_id message key plan now s ≡ (ok (id, r, true), u)
    → (id ≡ ids.run)
      × (r ≡ new_run principal thread_id key plan now)
      × (t : ThreadRecord) × Winning ids principal (new_run principal thread_id key plan now) t s u
unfolding find_or_insert_run
find_or_insert_run-Winning ids principal thread_id message key plan now id r s u h =
    let q = new_run principal thread_id key plan now in
    let (t, owned, rest) = reads-eq-ok (require_own_thread principal thread_id) _ s h in
    let (existing, none_is, rest) = reads-eq-ok (existing_run principal thread_id key) _ s rest in
    let (is_new, inserted) =
      found_or-new existing (insert_run ids thread_id message q t) id r s u rest in
    let (a_is, c) = insert_run-Created ids message q t (id, r, true) s u inserted in
    (
      ap (λ a. a.0) a_is,
      ap (λ a. a.1) a_is,
      t,
      record {
        own_thread = require_own_thread-ended principal thread_id t s owned;
        no_run = none_is ∙ ap ok is_new;
        created = c;
      },
    )
