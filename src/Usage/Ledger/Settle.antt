-- ===== src/Usage/Ledger/Settle.antt =====
-- `settle_for_terminal` leaves nothing unsaved: no noted finish, and no usage without its row.
use work_assistant_agent.Prelude.{◌≡◌, Bool, true, ◌||◌, ◌&&◌, String, some, is_none}
use work_assistant_agent.Prelude.Dict.{lookup}
use work_assistant_agent.Usage.Ledger.Types.{Attempt, RunUsageLedger}
use work_assistant_agent.Usage.Ledger.Finish.{is_terminal}

-- Terminal, or with no noted finish and no usage that was not written.
abbrev is_flushed : Attempt → Bool
is_flushed a = is_terminal a || (is_none a.pending_finish && (is_none a.usage || a.usage_persisted))

abbrev FlushedAt : String → RunUsageLedger → Type 0
FlushedAt k l = (a : Attempt) → lookup k l.attempts ≡ some a → is_flushed a ≡ true
