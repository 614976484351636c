-- ===== src/Auth/Outbox.antt =====
-- `ProcessEvent` of internal/auth/service/outbox/service.go. The state is the outbox table and the
-- list of what the publishers of pkg/broker have taken.
use text.Mathlib.Text.{◌==◌ as str_eq}
use mini_wallet.Base.{
  ℕ, List, [], ◌∷◌, ◌++◌, Option, none, some, String, if◌then◌else◌, ◌≡◌, refl, sym, ap, ◌∙◌, subst,
  Bool-cases, inl, inr, ◌⊎◌, false,
}
use mini_wallet.Sql.{World, Result, ok, err, Action, exec, is_nil}
use mini_wallet.Sql.Calls.{Post, exec-Post}
use mini_wallet.Outbox.Table.{OutboxEvent}
use mini_wallet.Outbox.Soundness.{Publishes}
use mini_wallet.Outbox.Content.{content}
use mini_wallet.Auth.Tables.{Db, store, Publication, to_notification, to_user}

-- `event.TypeAuthNewSessionLoggedIn` and `event.TypeAuthRegisterNewUser` (pkg/event)
abbrev pub new_session_logged_in : String
new_session_logged_in = "auth.v1.NewSessionLoggedIn"

abbrev pub register_new_user : String
register_new_user = "auth.v1.RegisterNewUser"

abbrev taken : Publication → Db → Result (Unit {0}) × Db
taken x d = (ok tt, record d { published = d.published ++ x ∷ [] })

-- A publisher's `Publish`.
unfoldable pub publish : Publication → Action Db (Unit {0})
publish x = exec (taken x)

unfoldable pub process_event : OutboxEvent → Action Db (Unit {0})
process_event e w =
    if str_eq e.event_type new_session_logged_in
    then publish (to_notification e.payload) w
    else if str_eq e.event_type register_new_user
    then publish (to_user "user.created" e.payload) w
    else (ok tt, w)

-- What an event of some type and payload is published as, if at all.
abbrev pub publication : String × List ℕ → Option Publication
publication c =
    if str_eq c.0 new_session_logged_in
    then some (to_notification c.1)
    else if str_eq c.0 register_new_user
    then some (to_user "user.created" c.1)
    else none

abbrev pub Taken : Option Publication → Db → Type 0
Taken none d = Unit
Taken (some x) d =
    (before : List Publication) × (after : List Publication) × (d.published ≡ before ++ x ∷ after)

append_assoc : (xs ys zs : List Publication) → (xs ++ ys) ++ zs ≡ xs ++ (ys ++ zs)
append_assoc [] ys zs = refl
append_assoc (x ∷ xs) ys zs = ap (λ l. x ∷ l) (append_assoc xs ys zs)

Taken-append :
    (o : Option Publication) (x : Publication) (d d' : Db)
    → d'.published ≡ d.published ++ x ∷ []
    → Taken o d
    → Taken o d'
Taken-append none x d d' e h = tt
Taken-append (some y) x d d' e (before, after, at) = (
  before,
  after ++ x ∷ [],
  e ∙ ap (λ l. l ++ x ∷ []) at ∙ append_assoc before (y ∷ after) (x ∷ []),
)

-- What `Publishes` asks for, of a call that publishes as `o` says.
abbrev pub SendsAs : Option Publication → World Db → Result (Unit {0}) × World Db → Type 0
SendsAs o w r =
    Post
      (λ _ w'.
        (w'.db.events ≡ w.db.events)
        × ((c : String × List ℕ) → Taken (publication c) w.db → Taken (publication c) w'.db)
        × Taken o w'.db)
      (λ _ w'.
        (w'.db.events ≡ w.db.events)
        × ((c : String × List ℕ) → Taken (publication c) w.db → Taken (publication c) w'.db))
      r

publish-SendsAs : (x : Publication) (w : World Db) → SendsAs (some x) w (publish x w)
unfolding publish
publish-SendsAs x w = go (exec (taken x) w) (exec-Post (taken x) w)
  where
    go :
        (r : Result (Unit {0}) × World Db)
        → Post
            (λ a w'. (taken x w.db ≡ (ok a, w'.db)) × (w'.tx ≡ w.tx) × (w'.now ≡ w.now))
            (λ e w'. ((w'.db ≡ w.db) × (is_nil e ≡ false)) ⊎ (taken x w.db ≡ (err e, w'.db)))
            r
        → SendsAs (some x) w r
    go (ok a, w') h =
        let log : w'.db.published ≡ w.db.published ++ x ∷ [] =
          sym (ap (λ y. y.1.published) h.holds.0) in
        record {
          holds = (
            sym (ap (λ y. y.1.events) h.holds.0),
            λ c. Taken-append (publication c) x w.db w'.db log,
            (w.db.published, [], log),
          );
        }
    go (err e, w') h = elim h.holds [
      | inl same ↦ record {
        holds = (ap (λ d. d.events) same.0, λ c k. subst (Taken (publication c)) (sym same.0) k);
      }
      | inr made ↦ cc
    ]

-- Where the call returns nil, the event is among what its publisher has taken.
pub process_event-SendsAs :
    (e : OutboxEvent) (w : World Db) → SendsAs (publication (content e)) w (process_event e w)
unfolding process_event
process_event-SendsAs e w = elim (Bool-cases (str_eq e.event_type new_session_logged_in)) [
  | inl here ↦ rw here (publish-SendsAs (to_notification e.payload) w)
  | inr other ↦ elim (Bool-cases (str_eq e.event_type register_new_user)) [
    | inl here ↦ rw (other, here) (publish-SendsAs (to_user "user.created" e.payload) w)
    | inr none_of_them ↦ rw (other, none_of_them) (record { holds = (refl, (λ c k. k), tt) })
  ]
]

abbrev pub publishes : Publishes store process_event
publishes = record {
  Sent = λ c d. Taken (publication c) d;
  rows-with_rows = λ d es. refl;
  Sent-with_rows = λ c d es h. carried (publication c) d es h;
  sends = process_event-SendsAs;
}
  where
    carried :
        (o : Option Publication) (d : Db) (es : List OutboxEvent)
        → Taken o d
        → Taken o (record d { events = es })
    carried none d es h = tt
    carried (some x) d es h = h
