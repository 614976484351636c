-- ===== src/AccessToken/Tests.antt =====
-- Tokens that are their claims in the clear, on which the theorem about tokens is applied.
use mini_wallet.Base.{
  ℕ, ◌+◌, ◌-◌, ◌<◌, List, [], ◌∷◌, ◌++◌, some, ◌==◌, true, false, ◌≡◌, refl, subst, any, arith,
  if◌then◌else◌, ltb,
}
use mini_wallet.RichError.{plain}
use mini_wallet.Sql.{Result, ok, err}
use mini_wallet.AccessToken.{
  Claims, Token, KeyFunc, Jwt, new_claims, identified, bearer, authenticate, generate_access_token,
}
use mini_wallet.AccessToken.Laws.{Signs, authenticate-generate_access_token}

abbrev written : Claims → ℕ → Result (List ℕ)
written c secret =
    ok ((c.account_id + 33) ∷ (c.session_id + 33) ∷ (c.issued_at + 33) ∷ (c.expires_at + 33) ∷ [])

abbrev claims_of : ℕ → ℕ → ℕ → ℕ → Claims
claims_of account session issued expires = record {
  issuer = "mini-wallet";
  subject = "access";
  issued_at = issued;
  expires_at = expires;
  account_id = account;
  session_id = session;
}

abbrev unexpired : ℕ → Claims → Result Token
unexpired now c =
    if ltb now c.expires_at
    then ok (record { claims = some c; valid = true })
    else err (plain "token is expired")

abbrev keyed : Result ℕ → Result Token → Result Token
keyed (ok secret) r = r
keyed (err e) r = err e

abbrev read : ℕ → List ℕ → KeyFunc → Result Token
read now (a ∷ s ∷ i ∷ e ∷ []) key =
    keyed (key true) (unexpired now (claims_of (a - 33) (s - 33) (i - 33) (e - 33)))
read now _ key = err (plain "token is malformed")

abbrev clear : Jwt
clear = record { sign = written; parse = read }

shifted : (n : ℕ) → n + 33 - 33 ≡ n
shifted n = omega arith

clear-Signs : Signs clear
clear-Signs = record {
  compact = λ account session duration made secret token e.
      no_space account session made (made + duration) token e;
  parses = λ account session duration made secret now token key e k h.
      reads account session duration made secret now token key e k h;
}
  where
    no_space :
        (a s i x : ℕ) (token : List ℕ)
        → ok ((a + 33) ∷ (s + 33) ∷ (i + 33) ∷ (x + 33) ∷ []) ≡ ok token
        → any (λ b. b == 32) token ≡ false
    no_space a s i x token e =
        let same : (a + 33) ∷ (s + 33) ∷ (i + 33) ∷ (x + 33) ∷ [] ≡ token = cc in
        subst (λ t. any (λ b. b == 32) t ≡ false) same (ground arith)

    reads :
        (account session duration made secret now : ℕ) (token : List ℕ) (key : KeyFunc)
        → written (new_claims account session duration made) secret ≡ ok token
        → key true ≡ ok secret
        → now < made + duration
        → read now token key
          ≡ ok (record { claims = some (new_claims account session duration made); valid = true })
    reads account session duration made secret now token key e k h =
        let same : (account + 33) ∷ (session + 33) ∷ (made + 33) ∷ (made + duration + 33) ∷ []
            ≡ token =
          cc in
        let early : ltb now (made + duration) ≡ true = ground (arith, h) in
        subst
          (λ t.
            read now t key
            ≡ ok
                (record { claims = some (new_claims account session duration made); valid = true }))
          same
          (rw (k, shifted account, shifted session, shifted made, shifted (made + duration), early)
            refl)

authenticate-generate_access_token_example :
    authenticate clear 5 120 (bearer ++ 32 ∷ 40 ∷ 36 ∷ 133 ∷ 193 ∷ []) ≡ identified 7 3
unfolding generate_access_token
authenticate-generate_access_token_example =
    authenticate-generate_access_token clear clear-Signs 5 100 120 7 3 60 (40 ∷ 36 ∷ 133 ∷ 193 ∷ [])
      refl (omega arith)
