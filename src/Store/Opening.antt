-- ===== src/Store/Opening.antt =====
-- internal/store/claim.go: `ClaimReady`, the session of the selected ticket: a new one, or the one that
-- the ticket has, once its run no longer stands in the way.
use ai_engineer_workflow.Prelude.{
  ℕ, ◌+◌, String, Bool, true, false, not, Option, none, some, [], ◌∷◌, ◌++◌, str_eq, if◌then◌else◌,
}
use ai_engineer_workflow.Store.Errors.{err_not_ready}
use ai_engineer_workflow.Store.Tables.{session_running, Session, is_open, update, first}
use ai_engineer_workflow.Store.Ledger.{Ledger}
use ai_engineer_workflow.Store.Attention.{is_session_of}
use ai_engineer_workflow.Store.Claiming.{
  ClaimRequest, FreshIds, Verdict, go, proceed, unless, check_current_run, provision_existing,
  supersede, run_with_lease,
}

-- the session that the claim is for; `generation` is 0 for a new session
pub record OpenSession : Type 0 where
  pub ledger : Ledger
  pub session_id : String
  pub existing : Bool
  pub generation : ℕ
  pub recovery_epoch : ℕ

abbrev pub new_session : ClaimRequest → FreshIds → ℕ → Session
new_session request fresh issue = record {
  session_id = fresh.session_id;
  version_id = request.version_id;
  issue_id = issue;
  owner = request.owner;
  state = session_running;
  current_run_id = "";
  current_lease_generation = 0;
  recovery_epoch = 0;
  delivery_retry_pending = false;
  consecutive_failures = 0;
  workspace_path = "";
  codex_state_path = "";
  accepted_commit = "";
}

-- `UPDATE ticket_sessions SET … WHERE session_id = ?`
abbrev pub update_session : String → (Session → Session) → Ledger → Ledger
update_session id f l = record l {
  tables = record l.tables { sessions = update (λ s. str_eq s.session_id id) f l.tables.sessions };
}

abbrev pub taken_by : String → ℕ → Session → Session
taken_by owner generation s = record s {
  owner = owner;
  state = session_running;
  current_lease_generation = generation;
}

abbrev pub inserted : Ledger → ClaimRequest → FreshIds → ℕ → OpenSession
inserted l request fresh issue = record {
  ledger = record l {
    tables = record l.tables {
      sessions = l.tables.sessions ++ new_session request fresh issue ∷ [];
    };
  };
  session_id = fresh.session_id;
  existing = false;
  generation = 0;
  recovery_epoch = 0;
}

abbrev pub reopened : ClaimRequest → Session → Ledger → OpenSession
reopened request s l = record {
  ledger = update_session s.session_id (taken_by request.owner (s.current_lease_generation + 1)) l;
  session_id = s.session_id;
  existing = true;
  generation = s.current_lease_generation + 1;
  recovery_epoch = s.recovery_epoch;
}

module _ (text_less : String → String → Bool) where
  abbrev pub expired_run_of : Ledger → ClaimRequest → Session → Verdict String
  expired_run_of l request s =
      if str_eq s.current_run_id ""
      then go ""
      else check_current_run text_less l request s (run_with_lease l.tables s.current_run_id)

  -- a session that exists
  unfoldable pub resumed : Ledger → ClaimRequest → Session → Verdict OpenSession
  resumed l request s = unless (not (is_open s.state)) err_not_ready (
      proceed (expired_run_of l request s) (λ expired_run.
        proceed (provision_existing text_less l request s expired_run)
          (λ _. proceed (supersede l request s) (λ after. go (reopened request s after)))))

  abbrev pub opened : Ledger → ClaimRequest → FreshIds → ℕ → Option Session → Verdict OpenSession
  opened l request fresh issue none = go (inserted l request fresh issue)
  opened l request fresh issue (some s) = resumed l request s

  -- the session of the selected ticket
  unfoldable pub open_session : Ledger → ClaimRequest → FreshIds → ℕ → Verdict OpenSession
  open_session l request fresh issue =
      opened l request fresh issue
        (first (is_session_of request.version_id issue) l.tables.sessions)
