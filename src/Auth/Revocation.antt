-- ===== src/Auth/Revocation.antt =====
-- `RevokeSession` and `RevokeAllSessions` (internal/auth/repository/auth.go) as `LogoutSession` and
-- `LogoutAllSessions` use them (internal/auth/service/auth/service.go).
use mini_wallet.Base.{
  not, ℕ, List, [], ◌∷◌, ◌++◌, Option, none, some, String, Bool, true, false, ◌==◌, ◌≡◌, ◌≢◌, refl,
  sym, ap, ◌∙◌, subst, map, select, reject, matching, any, arith,
}
use mini_wallet.RichError.{nil, report, internal}
use mini_wallet.Sql.{
  or_else, rolling_back, ◌>>◌, commit, tx_exec, raise_if, sql, in_open_tx, open_tx, commit_result,
  World, Result, ok, err,
}
use mini_wallet.Sql.Transactions.{
  DonePost, or_else-TxPost, begin_tx-TxPost, raise_if-TxPost, clocked-TxPost, call-TxPost,
  tx_exec-TxPost,
}
use mini_wallet.Sql.Commits.{
  rolling_back-DonePost, bind-DonePost, then-DonePost, commit-DonePost, or_else-DonePost,
}
use mini_wallet.Auth.Tables.{Session, Db, owned}
use mini_wallet.Auth.Repository.Statements.{revoked, archive, delete_sessions}
use mini_wallet.Auth.Repository.Sessions.{
  revoke_failed, revoke_session, revoke_all_sessions, with_arguments, placeholders, select_args,
  lock_rows,
}
use mini_wallet.Auth.Service.Sessions.{logout_session, logout_all_sessions}

abbrev pub filed : (Session → Bool) → ℕ → String → String → Db → Db
filed p now reason revoked_by d = record d {
  history = d.history ++ map (revoked now reason revoked_by) (select p d.sessions);
}

abbrev pub moved : (Session → Bool) → ℕ → String → String → Db → Db
moved p now reason revoked_by d = record (filed p now reason revoked_by d) {
  sessions = reject p d.sessions;
}

any_of_matching :
    (p : Session → Bool) (ss : List Session) → (matching p ss == 0) ≡ false → any p ss ≡ true
any_of_matching p [] h = cc
any_of_matching p (s ∷ ss) h = ground (arith, any_of_matching p ss)

has_moved :
    (d : Db) (p : Session → Bool) (now : ℕ) (reason revoked_by : String) (t₁ t₂ t₃ t₄ : Db)
    {affected : ℕ} {u : Unit {0}}
    → t₁ ≡ d
    → archive p (revoked now reason revoked_by) t₁ ≡ (ok affected, t₂)
    → t₃ ≡ t₂
    → (affected == 0) ≡ false
    → delete_sessions p t₃ ≡ (ok u, t₄)
    → (any p d.sessions ≡ true) × (t₄ ≡ moved p now reason revoked_by d)
unfolding archive delete_sessions
has_moved d p now reason revoked_by t₁ t₂ t₃ t₄ {affected} begun archived same some_rows deleted = (
  any_of_matching p d.sessions (subst (λ n. (n == 0) ≡ false) count some_rows),
  sym (ap (λ x. x.1) deleted)
      ∙ subst (λ x. record x { sessions = reject p x.sessions } ≡ moved p now reason revoked_by d)
          (sym whole) refl,
)
  where
    whole : t₃ ≡ filed p now reason revoked_by d
    whole = same ∙ sym (ap (λ x. x.1) archived) ∙ ap (filed p now reason revoked_by) begun

    count : affected ≡ matching p d.sessions
    count = sym (ok_is (ap (λ x. x.0) archived)) ∙ ap (λ x. matching p x.sessions) begun
      where
        ok_is : {a b : ℕ} → ok a ≡ ok b → a ≡ b
        ok_is e = cc

logout_session-DonePost :
    (user_id public_id : ℕ) (w : World Db)
    → DonePost w.db
        (λ _ d'.
          (any (owned public_id user_id) w.db.sessions ≡ true)
          × (d' ≡ moved (owned public_id user_id) w.now "logout" "user" w.db))
        (logout_session user_id public_id w)
unfolding logout_session revoke_session archive delete_sessions
logout_session-DonePost user_id public_id w = or_else-DonePost _ _ w (
    then-DonePost _ _ w (or_else-TxPost _ _ w (begin_tx-TxPost w)) λ _ t₁ w₁ i₁ begun.
      rolling_back-DonePost _ w₁ (
        then-DonePost _ _ w₁ (or_else-TxPost _ _ w₁ (tx_exec-TxPost _ t₁ w₁ i₁))
          λ _ t₂ w₂ i₂ locked.
            bind-DonePost _ _ w₂
              (or_else-TxPost _ _ w₂ (clocked-TxPost _ t₂ w₂ i₂ (tx_exec-TxPost _ t₂ w₂ i₂)))
              λ affected t₃ w₃ i₃ archived.
                then-DonePost _ _ w₃ (or_else-TxPost _ _ w₃ (call-TxPost t₃ w₃ i₃))
                  λ _ t₄ w₄ i₄ same₄.
                    then-DonePost _ _ w₄ (raise_if-TxPost _ _ t₄ w₄ i₄) λ _ t₅ w₅ i₅ passed.
                      then-DonePost _ _ w₅ (or_else-TxPost _ _ w₅ (tx_exec-TxPost _ t₅ w₅ i₅))
                        λ _ t₆ w₆ i₆ deleted. or_else-DonePost _ _ w₆ (
                          commit-DonePost t₆ w₆ i₆ (
                            has_moved w.db (owned public_id user_id) w.now "logout" "user" t₂ t₃ t₅
                              t₆ (sym (ap (λ x. x.1) locked) ∙ begun) archived (passed.0 ∙ same₄)
                              passed.1 deleted))))

some_matching : (p : Session → Bool) (ss : List Session) → (matching p ss == 0) ≡ not (any p ss)
some_matching p [] = refl
some_matching p (s ∷ ss) = ground (arith, some_matching p ss)

abbrev pub is_ok : {A : Type 0} → Result A → Bool
is_ok (ok a) = true
is_ok (err e) = false

-- The same tables, where every call goes through.
abbrev pub without_faults : World Db → World Db
without_faults w = record w { tx = none; faults = [] }

-- What is left of logging a session out once its copy, or none, is in the history.
abbrev logging_out : ℕ → ℕ → World Db → Bool → Bool
logging_out user_id public_id w none_found =
    is_ok
      (or_else
        (rolling_back (
          raise_if none_found (revoke_failed nil)
          >> (or_else (tx_exec (delete_sessions (owned public_id user_id))) revoke_failed
              >> or_else commit revoke_failed)))
        (λ e. report "auth.LogoutSession" e "failed to revoke session" internal)
        (record w {
          tx = some (filed (owned public_id user_id) w.now "logout" "user" w.db);
          faults = [];
        })).0

logging_out-not :
    (user_id public_id : ℕ) (w : World Db) (b : Bool) → logging_out user_id public_id w b ≡ not b
unfolding delete_sessions sql in_open_tx commit_result
logging_out-not user_id public_id w true = refl
logging_out-not user_id public_id w false = refl

logout_session-logging_out :
    (user_id public_id : ℕ) (w : World Db)
    → is_ok (logout_session user_id public_id (without_faults w)).0
      ≡ logging_out user_id public_id w (matching (owned public_id user_id) w.db.sessions == 0)
unfolding logout_session revoke_session archive delete_sessions sql in_open_tx open_tx commit_result
logout_session-logging_out user_id public_id w = refl

logout_session-without_faults :
    (user_id public_id : ℕ) (w : World Db)
    → is_ok (logout_session user_id public_id (without_faults w)).0
      ≡ any (owned public_id user_id) w.db.sessions
logout_session-without_faults user_id public_id w =
    logout_session-logging_out user_id public_id w
    ∙ logging_out-not user_id public_id w _
    ∙ ap not (some_matching (owned public_id user_id) w.db.sessions)
    ∙ not_not _
  where
    not_not : (b : Bool) → not (not b) ≡ b
    not_not true = refl
    not_not false = refl

-- Logging a session out, whichever calls fail, moves the session, which is the user's own, to the
-- history; or it leaves the tables as they were. Where no call fails, it succeeds if the session is
-- there and the user's own, and else not.
pub logout_session_outcome :
    (user_id public_id : ℕ) (w : World Db)
    → DonePost w.db
        (λ _ d'.
          (any (owned public_id user_id) w.db.sessions ≡ true)
          × (d' ≡ moved (owned public_id user_id) w.now "logout" "user" w.db))
        (logout_session user_id public_id w)
      × (is_ok (logout_session user_id public_id (without_faults w)).0
          ≡ any (owned public_id user_id) w.db.sessions)
logout_session_outcome user_id public_id w =
    (logout_session-DonePost user_id public_id w, logout_session-without_faults user_id public_id w)

no_arguments :
    (user_id : ℕ) (except : Option ℕ) (reason revoked_by : String) (d d' : Db) (u : Unit {0})
    → with_arguments
        (placeholders 1 except)
        (select_args user_id except reason revoked_by)
        lock_rows
        d
      ≡ (ok u, d')
    → ⊥
no_arguments user_id none reason revoked_by d d' u e = cc
no_arguments user_id (some except) reason revoked_by d d' u e = cc

-- Logging all sessions of a user out never succeeds, with a session to leave or without, and leaves
-- the tables as they were: the statement that locks the rows is given another number of arguments
-- than it has placeholders.
pub logout_all_sessions_fails :
    (user_id : ℕ) (except : Option ℕ) (w : World Db)
    → ((logout_all_sessions user_id except w).1.db ≡ w.db)
      × ((u : Unit {0}) → (logout_all_sessions user_id except w).0 ≢ ok u)
unfolding logout_all_sessions revoke_all_sessions
logout_all_sessions_fails user_id except w = settle (logout_all_sessions user_id except w) (
    or_else-DonePost _ _ w (
      then-DonePost _ _ w (or_else-TxPost _ _ w (begin_tx-TxPost w)) λ _ t₁ w₁ i₁ begun.
        rolling_back-DonePost _ w₁ (
          then-DonePost _ _ w₁ (or_else-TxPost _ _ w₁ (tx_exec-TxPost _ t₁ w₁ i₁))
            λ u t₂ w₂ i₂ locked.
              elim (no_arguments user_id except "logout_all" "user" t₁ t₂ u locked) [ ])))
  where
    settle :
        (r : Result (Unit {0}) × World Db)
        → DonePost w.db (λ _ _. ⊥) r
        → (r.1.db ≡ w.db) × ((u : Unit {0}) → r.0 ≢ ok u)
    settle (ok u, w') h = elim h.done [ ]
    settle (err e, w') h = (h.done, λ u e'. cc)
