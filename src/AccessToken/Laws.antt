-- ===== src/AccessToken/Laws.antt =====
-- The way of an access token: pkg/user_access_token/auth.go and pkg/middleware/auth.go.
use mini_wallet.Base.{
  ℕ, ◌+◌, ◌<◌, List, [], ◌∷◌, ◌++◌, none, some, true, false, ◌==◌, ◌≡◌, refl, any, ◌⊎◌, inl, inr,
  Option, ap, ◌∙◌,
}
use mini_wallet.Base.Bytes.{split, split-one, split-append}
use mini_wallet.Sql.{Result, ok, err}
use mini_wallet.AccessToken.{
  Claims, KeyFunc, Jwt, new_claims, key_func, Authenticated, unauthorized, identified, bearer,
  bearer_token, identify, token_status, generate_access_token, verify_access_token, authenticate,
  verify_token_handler,
}

-- What the program relies on of the JWT library: a signed token has no space in it, and parses to
-- its claims, valid, before it expires and where the key function gives the key of its HMAC
-- signature.
pub record Signs (jwt : Jwt) : Type 0 where
  pub compact :
      (account session duration made secret : ℕ) (token : List ℕ)
      → jwt.sign (new_claims account session duration made) secret ≡ ok token
      → any (λ b. b == 32) token ≡ false
  pub parses :
      (account session duration made secret now : ℕ) (token : List ℕ) (key : KeyFunc)
      → jwt.sign (new_claims account session duration made) secret ≡ ok token
      → key true ≡ ok secret
      → now < made + duration
      → jwt.parse now token key
        ≡ ok (record { claims = some (new_claims account session duration made); valid = true })

split-bearer :
    (token : List ℕ)
    → any (λ b. b == 32) token ≡ false
    → split 32 (bearer ++ 32 ∷ token) ≡ bearer ∷ token ∷ []
split-bearer token h = rw (split-append 32 bearer token refl, split-one 32 token h) refl

-- A request that shows the access token of a session in its header, before the token expires, is
-- given the account and the session that the token was made for.
pub authenticate-generate_access_token :
    (jwt : Jwt)
    → Signs jwt
    → (secret made now account session duration : ℕ) (token : List ℕ)
    → generate_access_token jwt secret made account session duration ≡ ok token
    → now < made + duration
    → authenticate jwt secret now (bearer ++ 32 ∷ token) ≡ identified account session
unfolding generate_access_token authenticate identify verify_access_token
authenticate-generate_access_token jwt s secret made now account session duration token e h =
    ap (λ ps. identify jwt secret now (bearer_token ps))
      (split-bearer token (s.compact account session duration made secret token e))
    ∙ rw
        (
          identify,
          verify_access_token,
          s.parses account session duration made secret now token (key_func secret) e refl h,
        )
        refl

same_answer :
    (jwt : Jwt) (secret now : ℕ) (o : Option (List ℕ))
    → ((account : ℕ) × (session : ℕ) × (identify jwt secret now o ≡ identified account session)
        × (token_status jwt secret now o ≡ 200))
      ⊎ ((identify jwt secret now o ≡ unauthorized) × (token_status jwt secret now o ≡ 401))
unfolding identify token_status verify_access_token
same_answer jwt secret now none = inr (refl, refl)
same_answer jwt secret now (some t) = told (verify_access_token jwt secret now t)
  where
    told :
        (r : Result Claims)
        → ((account : ℕ) × (session : ℕ) × (elim r as (λ _. Authenticated) [
          | err e ↦ unauthorized
          | ok c ↦ identified c.account_id c.session_id
        ]
              ≡ identified account session)
            × (elim r as (λ _. ℕ) [ err e ↦ 401 | ok c ↦ 200 ] ≡ 200))
          ⊎ ((elim r as (λ _. Authenticated) [
            | err e ↦ unauthorized
            | ok c ↦ identified c.account_id c.session_id
          ]
                ≡ unauthorized)
              × (elim r as (λ _. ℕ) [ err e ↦ 401 | ok c ↦ 200 ] ≡ 401))
    told (ok c) = inl (c.account_id, c.session_id, refl, refl)
    told (err e) = inr (refl, refl)

-- The handler for verifying a token answers 200 to exactly the headers that the middleware lets
-- through, and 401 to all others.
verify_token_handler-authenticate :
    (jwt : Jwt) (secret now : ℕ) (header : List ℕ)
    → ((account : ℕ) × (session : ℕ) × (authenticate jwt secret now header
          ≡ identified account session)
        × (verify_token_handler jwt secret now header ≡ 200))
      ⊎ ((authenticate jwt secret now header ≡ unauthorized)
          × (verify_token_handler jwt secret now header ≡ 401))
unfolding authenticate verify_token_handler
verify_token_handler-authenticate jwt secret now [] = inr (refl, refl)
verify_token_handler-authenticate jwt secret now (b ∷ bs) =
    same_answer jwt secret now (bearer_token (split 32 (b ∷ bs)))
