-- ===== src/Rabbitmq/Lifecycle.antt =====
-- Which channels a subscriber of pkg/rabbitmq/subscriber.go has open: one to publish on and one for
-- each consumer group, until it is closed.

use mini_wallet.Base.{
  ℕ, suc, List, [], ◌∷◌, ◌++◌, Bool, true, false, ◌==◌, ◌||◌, ◌≡◌, inl, inr, refl, sym, ap, ◌∙◌,
  subst, any, reject, All, All-map, arith, Bool-cases,
}
use mini_wallet.RichError.{Error}
use mini_wallet.Sql.{World, Result, ok, err, Action}
use mini_wallet.Sql.Transactions.{call-db}
use mini_wallet.Sql.Calls.{Post}
use mini_wallet.Rabbitmq.Subscriber.{
  ConsumerGroup, Subscriber, without_channel, close_channel, or_close,
}

abbrev pub owned : ℕ → List ConsumerGroup → ℕ → Bool
owned publish gs c = c == publish || any (λ g. g.ch == c) gs

-- Each open channel is the one to publish on, or one of these groups'; what consumes has an open one.
pub record Held (gs : List ConsumerGroup) (d : Subscriber) : Type 0 where
  pub channels : All (λ c. owned d.publish_ch gs c ≡ true) d.channels
  pub backed : All (λ g. any (λ c. c == g.ch) d.channels ≡ true) d.consuming

-- The same, of a subscriber that is not closed and keeps these groups; the channels of the others
-- are open too.
pub record Serving (gs more : List ConsumerGroup) (d : Subscriber) : Type 0 where
  pub going : d.closed ≡ false
  pub groups : d.consumers ≡ gs
  pub held : Held (more ++ gs) d

closing-owned :
    (publish : ℕ) (g : ConsumerGroup) (gs : List ConsumerGroup) (cs : List ℕ)
    → All (λ c. owned publish (g ∷ gs) c ≡ true) cs
    → All (λ c. owned publish gs c ≡ true) (reject (λ x. x == g.ch) cs)
closing-owned publish g gs [] h = tt
closing-owned publish g gs (c ∷ cs) h = elim (Bool-cases (c == g.ch)) [
  | inl hit ↦ rw hit (closing-owned publish g gs cs h.1)
  | inr miss ↦ rw miss (ground (arith, miss, h.0), closing-owned publish g gs cs h.1)
]

still_open :
    (c x : ℕ) (cs : List ℕ)
    → (x == c) ≡ false
    → any (λ y. y == x) cs ≡ true
    → any (λ y. y == x) (reject (λ y. y == c) cs) ≡ true
still_open c x [] m h = cc
still_open c x (y ∷ cs) m h = elim (Bool-cases (y == c)) [
  | inl hit ↦ rw hit (still_open c x cs m (ground (arith, hit, m, h)))
  | inr miss ↦ rw miss (ground (arith, h, still_open c x cs m))
]

pub closing-backed :
    (c : ℕ) (cs : List ℕ) (gs : List ConsumerGroup)
    → All (λ g. any (λ x. x == g.ch) cs ≡ true) gs
    → All (λ g. any (λ x. x == g.ch) (reject (λ x. x == c) cs) ≡ true) (reject (λ g. g.ch == c) gs)
closing-backed c cs [] h = tt
closing-backed c cs (g ∷ gs) h = elim (Bool-cases (g.ch == c)) [
  | inl hit ↦ rw hit (closing-backed c cs gs h.1)
  | inr miss ↦ rw miss (still_open c g.ch cs miss h.0, closing-backed c cs gs h.1)
]

pub without_channel-Held :
    (g : ConsumerGroup) (gs : List ConsumerGroup) (d : Subscriber)
    → Held (g ∷ gs) d
    → Held gs (without_channel g.ch d)
without_channel-Held g gs d h = record {
  channels = closing-owned d.publish_ch g gs d.channels h.channels;
  backed = closing-backed g.ch d.channels d.consuming h.backed;
}

pub close_channel-db :
    (c : ℕ) (w : World Subscriber) → (close_channel c w).1.db ≡ without_channel c w.db
unfolding close_channel
close_channel-db c w = ap (without_channel c) (call-db w)

pub or_close-Post :
    {Q : Unit {0} → World Subscriber → Type 0} {E F : Error → World Subscriber → Type 0} (c : ℕ)
    (m : Action Subscriber (Unit {0})) (w : World Subscriber)
    → Post Q F (m w)
    → ((e : Error) (w' : World Subscriber) → F e w' → E e (close_channel c w').1)
    → Post Q E (or_close c m w)
unfolding or_close
or_close-Post {Q} {E} {F} c m w h fails = settled (m w) h
  where
    settled :
        (r : Result (Unit {0}) × World Subscriber)
        → Post Q F r
        → Post Q E (elim r.0 as (λ _. Result (Unit {0}) × World Subscriber) [
          | ok _ ↦ (ok tt, r.1)
          | err e ↦ (err e, (close_channel c r.1).1)
        ])
    settled (ok u, w') h = record { holds = h.holds }
    settled (err e, w') h = record { holds = fails e w' h.holds }

pub Serving-without :
    (gs : List ConsumerGroup) (g : ConsumerGroup) (w : World Subscriber)
    → Serving gs (g ∷ []) w.db
    → Serving gs [] (close_channel g.ch w).1.db
Serving-without gs g w s =
    subst (Serving gs []) (sym (close_channel-db g.ch w))
      (record { going = s.going; groups = s.groups; held = without_channel-Held g gs w.db s.held })

owned-more :
    (publish : ℕ) (g : ConsumerGroup) (gs : List ConsumerGroup) (c : ℕ)
    → owned publish gs c ≡ true
    → owned publish (g ∷ gs) c ≡ true
owned-more publish g gs c h = ground (arith, h)

open_still :
    (c x : ℕ) (cs : List ℕ) → any (λ y. y == x) cs ≡ true → any (λ y. y == x) (c ∷ cs) ≡ true
open_still c x cs h = ground (arith, h)

pub opened-Serving :
    (gs : List ConsumerGroup) (d d' : Subscriber) (g : ConsumerGroup)
    → Serving gs [] d
    → g.ch ≡ d.next
    → d' ≡ record d { channels = d.next ∷ d.channels; next = suc d.next }
    → Serving gs (g ∷ []) d'
opened-Serving gs d d' g s e made = subst (Serving gs (g ∷ [])) (sym made) (record {
  going = s.going;
  groups = s.groups;
  held = record {
    channels =
        (ground (arith, e), All-map _ _ (owned-more d.publish_ch g gs) d.channels s.held.channels);
    backed = All-map _ _ (λ x h. open_still d.next x.ch d.channels h) d.consuming s.held.backed;
  };
})

pub delivered-Serving :
    (gs : List ConsumerGroup) (d d' : Subscriber) (g : ConsumerGroup)
    → Serving gs (g ∷ []) d
    → any (λ c. c == g.ch) d.channels ≡ true
    → d' ≡ record d { consuming = g ∷ d.consuming }
    → Serving gs (g ∷ []) d'
delivered-Serving gs d d' g s there made = subst (Serving gs (g ∷ [])) (sym made) (record {
  going = s.going;
  groups = s.groups;
  held = record { channels = s.held.channels; backed = (there, s.held.backed) };
})

any-append :
    (p : ConsumerGroup → Bool) (gs : List ConsumerGroup) (g : ConsumerGroup)
    → any p (gs ++ g ∷ []) ≡ any p (g ∷ gs)
any-append p [] g = refl
any-append p (x ∷ gs) g = ground (arith, any-append p gs g)

pub appended-Held :
    (g : ConsumerGroup) (gs : List ConsumerGroup) (d : Subscriber)
    → Held (g ∷ gs) d
    → Held (gs ++ g ∷ []) d
appended-Held g gs d h = record {
  channels =
      All-map _ _ (λ c e. ap (λ b. c == d.publish_ch || b) (any-append (λ x. x.ch == c) gs g) ∙ e)
        d.channels h.channels;
  backed = h.backed;
}
