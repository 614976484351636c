-- ===== src/Notification/Keys.antt =====
-- What making and using a ticket do (internal/notification/service/notification/service.go).
use mini_wallet.Base.{
  ℕ, ◌+◌, ◌<◌, List, [], Option, none, some, ◌≡◌, ◌≢◌, refl, sym, ap, ◌∙◌, subst,
}
use mini_wallet.RichError.{Error}
use mini_wallet.Sql.{World, Result, ok, err, at_now, returned, required, sql}
use mini_wallet.Sql.Calls.{
  Post, exec-Post, or_else-Post, bind-Post, then-Post, pure-Post, weaker-Post,
}
use mini_wallet.Notification.Tickets.{Redis, Library, create_ticket, consume_ticket}

-- What the service relies on of redis, as its commands are documented: a value that was set is there
-- until its time is over; GETDEL deletes its key; and a key that is not there stays so until it is
-- set, and yields nothing.
pub record Keeps {S : Type 0} (redis : Redis S) : Type 1 where
  pub get-set :
      (key : ℕ) (value : List ℕ) (ttl now now' : ℕ) (s : S)
      → now' < now + ttl
      → (redis.get_del key now' (redis.set key value ttl now s)).0 ≡ some value
  pub IsGone : ℕ → S → Type 0
  pub get-IsGone : (key now : ℕ) (s : S) → IsGone key (redis.get_del key now s).1
  pub get_other-IsGone :
      (key other now : ℕ) (s : S) → IsGone key s → IsGone key (redis.get_del other now s).1
  pub set_other-IsGone :
      (key other : ℕ) (value : List ℕ) (ttl now : ℕ) (s : S)
      → other ≢ key
      → IsGone key s
      → IsGone key (redis.set other value ttl now s)
  pub none_IsGone : (key now : ℕ) (s : S) → IsGone key s → (redis.get_del key now s).0 ≡ none

module _ {S : Type 0} (redis : Redis S) (lib : Library) where
  abbrev pub Anything : Error → World S → Type 0
  Anything e w = Unit {0}

  pub Post-ok :
      {A : Type 0} {Q : A → World S → Type 0} (r : Result A × World S) (a : A)
      → Post Q Anything r
      → r.0 ≡ ok a
      → Q a r.1
  Post-ok {Q = Q} (ok b, w) a h e = let same : b ≡ a = cc in subst (λ x. Q x w) same h.holds
  Post-ok (err x, w) a h e = cc

  required-Post :
      {A : Type 0} (o : Option A) (e : Error) (w : World S)
      → Post (λ a w'. (o ≡ some a) × (w' ≡ w)) Anything (required o e w)
  unfolding required
  required-Post none e w = record { holds = tt }
  required-Post (some a) e w = record { holds = (refl, refl) }

  returned-Post :
      {A : Type 0} (r : Result A) (w : World S)
      → Post (λ a w'. (r ≡ ok a) × (w' ≡ w)) Anything (returned r w)
  unfolding returned
  returned-Post (ok a) w = record { holds = (refl, refl) }
  returned-Post (err e) w = record { holds = tt }

  ok_is : {A : Type 0} {a b : A} → ◌≡◌ {A = Result A} (ok a) (ok b) → a ≡ b
  ok_is e = cc

  pub absent : {A : Type 0} {a : A} → ◌≡◌ {A = Option A} none (some a) → ⊥
  absent e = cc

  abbrev pub quiet : ℕ → S → World S
  quiet now s = record { db = s; tx = none; faults = []; now = now }

  pub consume_ticket-quiet :
      (code now user_id : ℕ) (v : List ℕ) (s : S)
      → (redis.get_del code now s).0 ≡ some v
      → lib.parse_int v ≡ ok user_id
      → (consume_ticket redis lib code (quiet now s)).0 ≡ ok user_id
  unfolding consume_ticket sql returned required
  consume_ticket-quiet code now user_id v s got parsed = rw (got, parsed) refl

  pub create_ticket-Post :
      (ttl user_id : ℕ) (bytes : Result (List ℕ)) (w : World S)
      → Post
          (λ t w'. w'.db ≡ redis.set t (lib.format_int user_id) ttl w.now w.db)
          Anything
          (create_ticket redis lib ttl bytes user_id w)
  unfolding create_ticket at_now
  create_ticket-Post ttl user_id bytes w =
      bind-Post {F = Anything} _ _ w (returned-Post _ w) (λ e w' h. h)
        λ t w₁ made.
          then-Post {F = Anything} _ _ w₁ (or_else-Post _ _ w₁ (exec-Post _ w₁) (λ e w' h. tt {0}))
            (λ e w' h. h)
            λ _ w₂ put. pure-Post t w₂ (
              sym (ap (λ x. x.1) put.0)
              ∙ ap (λ x. redis.set t (lib.format_int user_id) ttl x.now x.db) made.1)

  pub consume_ticket-Post :
      (code : ℕ) (w : World S)
      → Post
          (λ u w'.
            (v : List ℕ) × ((redis.get_del code w.now w.db).0 ≡ some v)
            × (lib.parse_int v ≡ ok u)
            × (w'.db ≡ (redis.get_del code w.now w.db).1))
          Anything
          (consume_ticket redis lib code w)
  unfolding consume_ticket at_now
  consume_ticket-Post code w =
      bind-Post {F = Anything} _ _ w (or_else-Post _ _ w (exec-Post _ w) (λ e w' h. tt {0}))
        (λ e w' h. h)
        λ o w₁ got.
          bind-Post {F = Anything} _ _ w₁ (required-Post o _ w₁) (λ e w' h. h)
            λ v w₂ there.
              or_else-Post _ _ w₂
                (weaker-Post _ (returned-Post _ w₂)
                  (λ u w₃ parsed. (
                    v,
                    ok_is (ap (λ x. x.0) got.0) ∙ there.0,
                    parsed.0,
                    ap (λ x. x.db) parsed.1 ∙ ap (λ x. x.db) there.1 ∙ sym (ap (λ x. x.1) got.0),
                  ))
                  (λ e w' h. h))
                (λ e w' h. h)
