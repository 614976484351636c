-- ===== src/Auth/Reuse.antt =====
-- A refresh token is good for one rotation (`RotateRefreshToken`, internal/auth/repository/auth.go).
use mini_wallet.Base.{
  ℕ, List, [], ◌∷◌, Option, none, some, Bool, true, false, ◌==◌, ◌≡◌, ◌≢◌, refl, subst, find, sym,
  All, reject, any, update, arith, Bool-cases, inl, inr,
}
use mini_wallet.RichError.{Error}
use mini_wallet.Sql.{World, Result, ok, err}
use mini_wallet.Sql.Transactions.{DonePost}
use mini_wallet.Sql.Commits.{DonePost-ok}
use mini_wallet.Auth.Tables.{
  Session, DeviceContext, Db, has_hash, has_public_id, clashes, keys_hold, owned,
}
use mini_wallet.Auth.Repository.Statements.{scan, renewed}
use mini_wallet.Auth.Repository.Sessions.{rotate_refresh_token}
use mini_wallet.Auth.Service.Sessions.{logout_session}
use mini_wallet.Auth.Revocation.{moved, logout_session_outcome}
use mini_wallet.Auth.Rotation.{given_token, Rotated, rotate_refresh_token_outcome}

module _ (old : ℕ) (p : Session → Bool) (f : Session → Session) (new : ℕ)
    (sets : (s : Session) → (f s).refresh_token_hash ≡ new) (differ : new == old ≡ false) where
  -- Rows whose hashes are none of `old` have none after the update either.
  find-update :
      (s : Session) (ss : List Session)
      → s.refresh_token_hash ≡ old
      → any (clashes s) ss ≡ false
      → find (has_hash old) (update p f ss) ≡ none
  find-update s [] h c = refl
  find-update s (r ∷ ss) h c = ground (arith, sets r, differ, find-update s ss h)

find-renewed :
    (old new expires_at now : ℕ) (ctx : DeviceContext) (push : Option ℕ) (s : Session)
    (ss : List Session)
    → keys_hold ss ≡ true
    → new == old ≡ false
    → find (has_hash old) ss ≡ some s
    → find
        (has_hash old)
        (update (has_public_id s.public_id) (renewed new expires_at ctx push now) ss)
      ≡ none
find-renewed old new expires_at now ctx push s [] k n h = cc
find-renewed old new expires_at now ctx push s (r ∷ ss) k n h = elim (Bool-cases (has_hash old r)) [
  | inl hit ↦ ground (
    arith,
    find-update old (has_public_id s.public_id) (renewed new expires_at ctx push now) new
        (λ x. refl) n r ss,
  )
  | inr miss ↦ ground (arith, find-renewed old new expires_at now ctx push s ss)
]

scanned : (o : Option Session) (s : Session) → scan o ≡ ok s → o ≡ some s
scanned none s e = cc
scanned (some r) s e = cc

unscanned : (o : Option Session) (s : Session) → o ≡ none → scan o ≡ ok s → ⊥
unscanned none s h e = cc
unscanned (some r) s h e = cc

-- No session has this hash.
abbrev Unused : ℕ → Db → Type 0
Unused old d = find (has_hash old) d.sessions ≡ none

find-update-none :
    (old : ℕ) (p : Session → Bool) (f : Session → Session) (ss : List Session)
    → ((s : Session) → ((f s).refresh_token_hash == old) ≡ false)
    → find (has_hash old) ss ≡ none
    → find (has_hash old) (update p f ss) ≡ none
find-update-none old p f [] other h = refl
find-update-none old p f (s ∷ ss) other h =
    ground (arith, other s, find-update-none old p f ss other)

find-reject-none :
    (old : ℕ) (p : Session → Bool) (ss : List Session)
    → find (has_hash old) ss ≡ none
    → find (has_hash old) (reject p ss) ≡ none
find-reject-none old p [] h = refl
find-reject-none old p (s ∷ ss) h = ground (arith, find-reject-none old p ss)

-- What may come between: a rotation of some token to a new hash, or a logout of a session.
pub data Operation : Type 0 where
  rotates : DeviceContext → (token new expires_at : ℕ) → Option ℕ → Operation
  logs_out : (user_id public_id : ℕ) → Operation

-- An operation with its time and with what its calls report.
pub record Turn : Type 0 where
  pub operation : Operation
  pub at : ℕ
  pub faults : List Error

abbrev perform : Operation → World Db → World Db
perform (rotates ctx token new expires_at push) w =
    (rotate_refresh_token ctx token new expires_at push w).1
perform (logs_out user_id public_id) w = (logout_session user_id public_id w).1

abbrev pub perform_all : List Turn → Db → Db
perform_all [] d = d
perform_all (t ∷ ts) d =
    perform_all ts
      (perform t.operation (record { db = d; tx = none; faults = t.faults; now = t.at })).db

-- The operation draws another hash than this one.
abbrev pub DrawsOther : ℕ → Operation → Type 0
DrawsOther old (rotates ctx token new expires_at push) = (new == old) ≡ false
DrawsOther old (logs_out user_id public_id) = Unit

perform-Unused :
    (old : ℕ) (o : Operation) (w : World Db)
    → DrawsOther old o
    → Unused old w.db
    → Unused old (perform o w).db
perform-Unused old (rotates ctx token new expires_at push) w other h =
    go (rotate_refresh_token ctx token new expires_at push w)
      (rotate_refresh_token_outcome ctx token new expires_at push w)
  where
    go :
        (r : Result (ℕ × ℕ × ℕ) × World Db)
        → DonePost w.db (Rotated ctx token new expires_at push w.now w.db) r
        → Unused old r.1.db
    go (ok ids, w') k = subst (Unused old) (sym k.done.becomes) (
        find-update-none old (λ s. s.public_id == k.done.session.public_id)
          (given_token new expires_at ctx push w.now) w.db.sessions (λ s. other) h)
    go (err e, w') k = subst (Unused old) (sym k.done) h
perform-Unused old (logs_out user_id public_id) w other h =
    go (logout_session user_id public_id w) (logout_session_outcome user_id public_id w).0
  where
    go :
        (r : Result (Unit {0}) × World Db)
        → DonePost w.db
            (λ _ d'.
              (any (owned public_id user_id) w.db.sessions ≡ true)
              × (d' ≡ moved (owned public_id user_id) w.now "logout" "user" w.db))
            r
        → Unused old r.1.db
    go (ok u, w') k =
        subst (Unused old) (sym k.done.1)
          (find-reject-none old (owned public_id user_id) w.db.sessions h)
    go (err e, w') k = subst (Unused old) (sym k.done) h

perform_all-Unused :
    (old : ℕ) (ts : List Turn) (d : Db)
    → All (λ t. DrawsOther old t.operation) ts
    → Unused old d
    → Unused old (perform_all ts d)
perform_all-Unused old [] d other h = h
perform_all-Unused old (t ∷ ts) d other h =
    perform_all-Unused old ts _ other.1 (perform-Unused old t.operation _ other.0 h)

Unused-refuses :
    (ctx : DeviceContext) (old new expires_at : ℕ) (push : Option ℕ) (w : World Db)
    (ids : ℕ × ℕ × ℕ)
    → Unused old w.db
    → (rotate_refresh_token ctx old new expires_at push w).0 ≢ ok ids
Unused-refuses ctx old new expires_at push w ids h e =
    let again : Rotated ctx old new expires_at push w.now w.db ids
        (rotate_refresh_token ctx old new expires_at push w).1.db =
      DonePost-ok _ ids (rotate_refresh_token_outcome ctx old new expires_at push w) e in
    unscanned _ again.session h again.found

-- After a rotation, and any number of further rotations and logouts, no rotation takes the old
-- refresh token: whatever request, time and faults, it returns no session. The new hash, and those
-- that the operations between draw, are other than the old one, and the unique keys of the sessions
-- hold before.
pub rotate_refresh_token_once :
    (ctx : DeviceContext) (old new expires_at : ℕ) (push : Option ℕ) (w : World Db)
    (ids : ℕ × ℕ × ℕ)
    → keys_hold w.db.sessions ≡ true
    → new == old ≡ false
    → (rotate_refresh_token ctx old new expires_at push w).0 ≡ ok ids
    → (between : List Turn) → All (λ t. DrawsOther old t.operation) between
    → (ctx' : DeviceContext) (new' expires_at' : ℕ) (push' : Option ℕ) (w' : World Db)
      (ids' : ℕ × ℕ × ℕ)
    → w'.db ≡ perform_all between (rotate_refresh_token ctx old new expires_at push w).1.db
    → (rotate_refresh_token ctx' old new' expires_at' push' w').0 ≢ ok ids'
rotate_refresh_token_once ctx old new expires_at push w ids k n e between other ctx' new'
      expires_at' push' w' ids' after =
    Unused-refuses ctx' old new' expires_at' push' w' ids'
      (subst (Unused old) (sym after) (perform_all-Unused old between _ other unused))
  where
    first :
        Rotated ctx old new expires_at push w.now w.db ids
          (rotate_refresh_token ctx old new expires_at push w).1.db
    first = DonePost-ok _ ids (rotate_refresh_token_outcome ctx old new expires_at push w) e

    unused : Unused old (rotate_refresh_token ctx old new expires_at push w).1.db
    unused = subst (Unused old) (sym first.becomes) (
        find-renewed old new expires_at w.now ctx push first.session w.db.sessions k n
          (scanned _ first.session first.found))
