-- ===== src/Notification/Once.antt =====
-- A ticket opens one stream (internal/notification/service/notification/service.go).
use mini_wallet.Base.{
  ℕ, ◌+◌, ◌<◌, List, [], ◌∷◌, Option, none, some, ◌≡◌, ◌≢◌, refl, sym, ap, ◌∙◌, subst, All,
}
use mini_wallet.RichError.{Error}
use mini_wallet.Sql.{World, Result, ok, err, at_now, returned, required, pure}
use mini_wallet.Sql.Calls.{Post, bind-Post, weaker-Post, exec-db, or_else-db, then-db, bind-db}
use mini_wallet.Notification.Tickets.{
  Redis, Library, generate_ticket_id, create_ticket, consume_ticket,
}
use mini_wallet.Notification.Keys.{
  Keeps, Post-ok, absent, quiet, consume_ticket-quiet, create_ticket-Post, consume_ticket-Post,
}

-- What may come between: a ticket is made from some random bytes, or one is used.
pub data Operation : Type 0 where
  makes : (ttl : ℕ) → Result (List ℕ) → (user_id : ℕ) → Operation
  uses : (ticket : ℕ) → Operation

-- An operation with its time and with what its calls report.
pub record Turn : Type 0 where
  pub operation : Operation
  pub at : ℕ
  pub faults : List Error

-- The operation makes no second ticket with this id.
abbrev pub MakesOther : Library → ℕ → Operation → Type 0
MakesOther lib ticket (makes ttl bytes user_id) =
    (t : ℕ) → generate_ticket_id lib bytes ≡ ok t → t ≢ ticket
MakesOther lib ticket (uses t) = Unit

module _ {S : Type 0} (redis : Redis S) (lib : Library) where
  abbrev perform : Operation → World S → World S
  perform (makes ttl bytes user_id) w = (create_ticket redis lib ttl bytes user_id w).1
  perform (uses ticket) w = (consume_ticket redis lib ticket w).1

  abbrev pub perform_all : List Turn → S → S
  perform_all [] s = s
  perform_all (t ∷ ts) s =
      perform_all ts
        (perform t.operation (record { db = s; tx = none; faults = t.faults; now = t.at })).db

  module _ (P : S → Type 0) where
    abbrev Kept : {A : Type 0} → Result A × World S → Type 0
    Kept r = Post (λ _ w'. P w'.db) (λ _ w'. P w'.db) r

    as_Post : {A : Type 0} (r : Result A × World S) → P r.1.db → Kept r
    as_Post (ok a, w) p = record { holds = p }
    as_Post (err e, w) p = record { holds = p }

    of_Post : {A : Type 0} (r : Result A × World S) → Kept r → P r.1.db
    of_Post (ok a, w) p = p.holds
    of_Post (err e, w) p = p.holds

    returned-kept :
        {A : Type 0} (r : Result A) (w : World S)
        → P w.db
        → Post (λ a w'. (r ≡ ok a) × P w'.db) (λ _ w'. P w'.db) (returned r w)
    unfolding returned
    returned-kept (ok a) w p = record { holds = (refl, p) }
    returned-kept (err e) w p = record { holds = p }

    required-kept :
        {A : Type 0} (o : Option A) (e : Error) (w : World S) → P w.db → P (required o e w).1.db
    unfolding required
    required-kept none e w p = p
    required-kept (some a) e w p = p

    create_ticket-kept :
        (ttl user_id : ℕ) (bytes : Result (List ℕ)) (w : World S)
        → P w.db
        → ((t : ℕ)
            → generate_ticket_id lib bytes ≡ ok t
            → (w' : World S) → P w'.db
            → P (redis.set t (lib.format_int user_id) ttl w'.now w'.db))
        → P (create_ticket redis lib ttl bytes user_id w).1.db
    unfolding create_ticket at_now pure
    create_ticket-kept ttl user_id bytes w p sets = of_Post _ (
        bind-Post _ _ w (returned-kept (generate_ticket_id lib bytes) w p) (λ e w' h. h)
          λ t w₁ made. as_Post _ (
            then-db P _ _ w₁
              (or_else-db P _ _ w₁ (
                exec-db P (λ s. (ok tt, redis.set t (lib.format_int user_id) ttl w₁.now s)) w₁
                  made.1 (sets t made.0 w₁ made.1)))
              (λ w' q. q)))

    consume_ticket-kept :
        (code : ℕ) (w : World S)
        → P w.db
        → P (redis.get_del code w.now w.db).1
        → P (consume_ticket redis lib code w).1.db
    unfolding consume_ticket at_now
    consume_ticket-kept code w p gets =
        bind-db P _ _ w
          (or_else-db P _ _ w
            (exec-db P (λ s. let (v, s') = redis.get_del code w.now s in (ok v, s')) w p gets))
          λ o w₁ p₁. bind-db P _ _ w₁ (required-kept o _ w₁ p₁) λ v w₂ p₂. or_else-db P _ _ w₂ (
            of_Post _
              (weaker-Post _ (returned-kept (lib.parse_int v) w₂ p₂) (λ a w' h. h.1) (λ e w' h. h)))

  module _ (laws : Keeps redis) (ticket : ℕ) where
    open laws use {IsGone}

    perform-IsGone :
        (o : Operation) (w : World S)
        → MakesOther lib ticket o
        → IsGone ticket w.db
        → IsGone ticket (perform o w).db
    perform-IsGone (makes ttl bytes user_id) w other h =
        create_ticket-kept (IsGone ticket) ttl user_id bytes w h
          (λ t made w' k. laws.set_other-IsGone ticket t _ ttl w'.now w'.db (other t made) k)
    perform-IsGone (uses code) w other h =
        consume_ticket-kept (IsGone ticket) code w h
          (laws.get_other-IsGone ticket code w.now w.db h)

    perform_all-IsGone :
        (ts : List Turn) (s : S)
        → All (λ t. MakesOther lib ticket t.operation) ts
        → IsGone ticket s
        → IsGone ticket (perform_all ts s)
    perform_all-IsGone [] s other h = h
    perform_all-IsGone (t ∷ ts) s other h =
        perform_all-IsGone ts _ other.1 (perform-IsGone t.operation _ other.0 h)

    IsGone-refuses :
        (w : World S) (v : ℕ) → IsGone ticket w.db → (consume_ticket redis lib ticket w).0 ≢ ok v
    IsGone-refuses w v h e =
        let given = Post-ok redis lib _ v (consume_ticket-Post redis lib ticket w) e in
        absent redis lib (sym (laws.none_IsGone ticket w.now w.db h) ∙ given.1)

-- The ticket that was made for a user gives that user back, once: a use of it that comes next, before
-- its time is over, and whose call of redis goes through, returns the user. After that, and after
-- any number of further tickets made, none with the same id, and of uses of any ticket, no use of it
-- returns any user, at any time and whichever calls fail.
pub consume_ticket-create_ticket :
    {S : Type 0} (redis : Redis S) (lib : Library)
    → Keeps redis
    → ((n : ℕ) → lib.parse_int (lib.format_int n) ≡ ok n)
    → (ttl user_id ticket now : ℕ) (bytes : Result (List ℕ)) (w : World S)
    → (create_ticket redis lib ttl bytes user_id w).0 ≡ ok ticket
    → now < w.now + ttl
    → (between : List Turn) → All (λ t. MakesOther lib ticket t.operation) between
    → (w' : World S) (v : ℕ)
    → w'.db
      ≡ perform_all redis lib between
          (consume_ticket redis lib ticket
            (quiet redis lib now (create_ticket redis lib ttl bytes user_id w).1.db)).1.db
    → ((consume_ticket redis lib ticket
          (quiet redis lib now (create_ticket redis lib ttl bytes user_id w).1.db)).0
        ≡ ok user_id)
      × ((consume_ticket redis lib ticket w').0 ≢ ok v)
consume_ticket-create_ticket {S} redis lib laws formats ttl user_id ticket now bytes w made early
      between other w' v after =
    (first, again)
  where
    s : S
    s = (create_ticket redis lib ttl bytes user_id w).1.db

    stored : s ≡ redis.set ticket (lib.format_int user_id) ttl w.now w.db
    stored = Post-ok redis lib _ ticket (create_ticket-Post redis lib ttl user_id bytes w) made

    there : (redis.get_del ticket now s).0 ≡ some (lib.format_int user_id)
    there =
        ap (λ x. (redis.get_del ticket now x).0) stored
        ∙ laws.get-set ticket (lib.format_int user_id) ttl w.now now w.db early

    first : (consume_ticket redis lib ticket (quiet redis lib now s)).0 ≡ ok user_id
    first =
        consume_ticket-quiet redis lib ticket now user_id (lib.format_int user_id) s there
          (formats user_id)

    again : (consume_ticket redis lib ticket w').0 ≢ ok v
    again =
        let taken =
          Post-ok redis lib _ user_id (consume_ticket-Post redis lib ticket (quiet redis lib now s))
            first in
        IsGone-refuses redis lib laws ticket w' v (
          subst (laws.IsGone ticket) (sym after) (
            perform_all-IsGone redis lib laws ticket between _ other
              (subst (laws.IsGone ticket) (sym taken.3) (laws.get-IsGone ticket now s))))
