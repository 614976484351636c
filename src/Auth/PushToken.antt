-- ===== src/Auth/PushToken.antt =====
-- `UpdatePushToken` (internal/auth/repository/auth.go, internal/auth/service/auth/service.go).
use mini_wallet.Base.{
  ℕ, List, [], ◌∷◌, Option, none, some, Bool, true, false, ◌==◌, ◌&&◌, not, ◌≡◌, ◌≢◌, refl, sym, ap,
  ◌∙◌, subst, arith, matching, update,
}
use mini_wallet.RichError.{Error}
use mini_wallet.Sql.{World, Result, ok, err}
use mini_wallet.Sql.Calls.{
  Post, exec-Post, or_else-Post, bind-Post, then-Post, call-Post, raise_if-Post,
}
use mini_wallet.Auth.Tables.{Session, Db, owned}
use mini_wallet.Auth.Repository.Statements.{same_token, set_push_token, nullable}
use mini_wallet.Auth.Repository.Sessions.{update_push_token}

abbrev pub with_token : ℕ → ℕ → Option ℕ → List Session → List Session
with_token public_id user_id token ss =
    update (owned public_id user_id) (λ s. record s { push_token = token }) ss

abbrev to_change : ℕ → ℕ → Option ℕ → Session → Bool
to_change public_id user_id token s =
    owned public_id user_id s && not (same_token s.push_token token)

same_token-itself : (o : Option ℕ) → same_token o o ≡ true
same_token-itself none = refl
same_token-itself (some t) = ground arith

nothing_to_change :
    (public_id user_id : ℕ) (token : Option ℕ) (ss : List Session)
    → matching (to_change public_id user_id token) (with_token public_id user_id token ss) ≡ 0
nothing_to_change public_id user_id token [] = refl
nothing_to_change public_id user_id token (s ∷ ss) =
    ground (arith, same_token-itself token, nothing_to_change public_id user_id token ss)

abbrev Anything : Error → World Db → Type 0
Anything e w = Unit {0}

update_push_token_outcome :
    (public_id user_id token : ℕ) (w : World Db)
    → Post
        (λ _ w'.
          ((matching (to_change public_id user_id (nullable token)) w.db.sessions == 0) ≡ false)
          × (w'.db ≡ record w.db {
            sessions = with_token public_id user_id (nullable token) w.db.sessions;
          }))
        Anything
        (update_push_token public_id user_id token w)
unfolding update_push_token set_push_token
update_push_token_outcome public_id user_id token w =
    bind-Post {F = Anything} _ _ w (or_else-Post _ _ w (exec-Post _ w) (λ e w' h. tt {0}))
      (λ e w' h. h)
      λ affected w₁ ran.
        then-Post {F = Anything} _ _ w₁ (or_else-Post _ _ w₁ (call-Post w₁) (λ e w' h. tt {0}))
          (λ e w' h. h)
          λ _ w₂ same.
            raise_if-Post _ _ w₂ (λ h. tt {0})
              λ some_rows. (
                subst (λ n. (n == 0) ≡ false) (ok_is (sym (ap (λ x. x.0) ran.0))) some_rows,
                same.db ∙ sym (ap (λ x. x.1) ran.0),
              )
  where
    ok_is : {a b : ℕ} → ok a ≡ ok b → a ≡ b
    ok_is e = cc

Post-ok :
    {A : Type 0} {Q : A → World Db → Type 0} (r : Result A × World Db) (a : A)
    → Post Q Anything r
    → r.0 ≡ ok a
    → Q a r.1
Post-ok {Q = Q} (ok b, w) a h e = let same : b ≡ a = cc in subst (λ x. Q x w) same h.holds
Post-ok (err x, w) a h e = cc

-- A push token that a session has cannot be set again: after it was set, setting it once more never
-- succeeds, whichever calls fail.
update_push_token_again :
    (public_id user_id token : ℕ) (w w' : World Db) (u v : Unit {0})
    → (update_push_token public_id user_id token w).0 ≡ ok u
    → w'.db ≡ (update_push_token public_id user_id token w).1.db
    → (update_push_token public_id user_id token w').0 ≢ ok v
update_push_token_again public_id user_id token w w' u v done after again =
    let first : w'.db
        ≡ record w.db { sessions = with_token public_id user_id (nullable token) w.db.sessions } =
      after ∙ (Post-ok _ u (update_push_token_outcome public_id user_id token w) done).1 in
    let second : (matching (to_change public_id user_id (nullable token)) w'.db.sessions == 0)
        ≡ false =
      (Post-ok _ v (update_push_token_outcome public_id user_id token w') again).0 in
    let nothing : matching (to_change public_id user_id (nullable token)) w'.db.sessions ≡ 0 =
      ap (λ x. matching (to_change public_id user_id (nullable token)) x.sessions) first
      ∙ nothing_to_change public_id user_id (nullable token) w.db.sessions in
    ground (arith, second, nothing)
