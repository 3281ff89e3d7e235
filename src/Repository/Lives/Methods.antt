-- ===== src/Repository/Lives/Methods.antt =====
-- The effect of a method, from what its transaction does where it commits.
use work_assistant_agent.Prelude.{◌≡◌, refl, ok, err, lift, ◌>>=◌, ◌>>◌, continue}
use work_assistant_agent.Repository.Records.{Store, Repo, Checked, transaction, reads}
use work_assistant_agent.Repository.Access.{require_available}
use work_assistant_agent.Repository.Lives.{Effect}
use work_assistant_agent.Repository.Lives.Queries.{same_tables}

module _ {A : Type 0} where
  pub transaction-Effect :
      (m : Repo A) (s : Store)
      → ((a : A) (u : Store) → m s ≡ (ok a, u) → Effect s u)
      → Effect s (transaction m s).1
  unfolding transaction
  transaction-Effect m s h = ended (m s) (λ a u m_is. h a u m_is)
    where
      ended :
          (x : Checked A × Store)
          → ((a : A) (u : Store) → x ≡ (ok a, u) → Effect s u)
          → Effect s (elim x.0 [ ok _ ↦ x.1 | err _ ↦ s ])
      ended (ok a, u) k = k a u refl
      ended (err e, u) k = same_tables

  -- After the check that the store is open.
  pub open-Effect :
      (m : Repo A) (s : Store) → Effect s (m s).1 → Effect s ((reads require_available >> m) s).1
  unfolding reads
  open-Effect m s h = available (require_available s)
    where
      available : (x : Checked (Unit {0})) → Effect s (continue x (λ _. m) s).1
      available (ok _) = h
      available (err e) = same_tables

  -- A method without a check of its arguments and without a view.
  pub plain_method-Effect :
      (body : Repo A) (s : Store)
      → ((a : A) (u : Store) → body s ≡ (ok a, u) → Effect s u)
      → Effect s ((reads require_available >> transaction body) s).1
  plain_method-Effect body s h = open-Effect (transaction body) s (transaction-Effect body s h)

module _ {A B : Type 0} where
  -- Before what only reads.
  pub view-Effect :
      (m : Repo A) (view : A → Repo B) (s : Store)
      → ((a : A) (u : Store) → (view a u).1 ≡ u)
      → Effect s (m s).1
      → Effect s ((m >>= view) s).1
  view-Effect m view s view_reads h = ended (m s) h
    where
      ended : (x : Checked A × Store) → Effect s x.1 → Effect s (continue x.0 view x.1).1
      ended (ok a, u) h = rw (view_reads a u) h
      ended (err e, u) h = h

  -- After a check of the arguments.
  pub checked-Effect :
      (check : Checked A) (k : A → Repo B) (s : Store)
      → ((a : A) → check ≡ ok a → Effect s (k a s).1)
      → Effect s ((lift check >>= k) s).1
  checked-Effect (ok a) k s h = h a refl
  checked-Effect (err e) k s h = same_tables

module _ {A B C : Type 0} where
  -- A method: the check that the store is open, a check of the arguments, a transaction, and the view
  -- of what it answers.
  pub method-Effect :
      (check : Checked C) (body : C → Repo A) (view : A → Repo B) (s : Store)
      → ((a : A) (u : Store) → (view a u).1 ≡ u)
      → ((c : C) (a : A) (u : Store) → check ≡ ok c → body c s ≡ (ok a, u) → Effect s u)
      → Effect s
          ((reads require_available >> lift check >>= λ c. transaction (body c) >>= view) s).1
  method-Effect check body view s view_reads h =
      open-Effect (lift check >>= λ c. transaction (body c) >>= view) s (
        checked-Effect check (λ c. transaction (body c) >>= view) s
          (λ c check_is.
            view-Effect (transaction (body c)) view s view_reads
              (transaction-Effect (body c) s (λ a u. h c a u check_is))))
