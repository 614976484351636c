-- ===== src/Rabbitmq/Reconnecting.antt =====
-- What the watcher of pkg/rabbitmq/connection.go keeps, and what `Close` does to it.
use mini_wallet.Base.{
  ℕ, ◌≤◌, [], ◌∷◌, false, ◌==◌, ◌≡◌, ◌⊎◌, refl, sym, ap, ◌∙◌, reject, length, arith, Bool-cases,
  inl, inr,
}
use mini_wallet.RichError.{Error, nil}
use mini_wallet.Sql.{is_nil}
use mini_wallet.Rabbitmq.Connection.{
  listening, retrying, Connection, is_in, connect, new_connection, load, notified, retry, lose,
  close, Step, loads, loses, reads, retries, closes, Reachable, start, after,
}

-- No connection is open but the one that the watcher reads from, and none while it makes another.
record Kept (c : Connection) : Type 0 where
  going : c.closed ≡ false
  one : (c.alive ≡ []) ⊎ (c.alive ≡ c.conn ∷ [])
  watched : (k : ℕ) → c.watcher ≡ listening k → k ≡ c.conn
  gone : c.watcher ≡ retrying → c.alive ≡ []

losing :
    (k : ℕ) (c : Connection)
    → (c.alive ≡ []) ⊎ (c.alive ≡ c.conn ∷ [])
    → (reject (λ x. x == k) c.alive ≡ []) ⊎ (reject (λ x. x == k) c.alive ≡ c.conn ∷ [])
losing k c (inl e) = inl (rw e refl)
losing k c (inr e) = elim (Bool-cases (c.conn == k)) [
  | inl hit ↦ inl (rw (e, hit) refl)
  | inr miss ↦ inr (rw (e, miss) refl)
]

lose-Kept : (k : ℕ) (c : Connection) → Kept c → Kept (lose k c)
lose-Kept k c h = record {
  going = h.going;
  one = losing k c h.one;
  watched = h.watched;
  gone = λ e. ap (reject (λ x. x == k)) (h.gone e);
}

load-Kept : (c : Connection) → Kept c → Kept (load c)
unfolding load
load-Kept c h = record {
  going = h.going;
  one = h.one;
  watched = λ k e. ground (arith, h.going, e);
  gone = λ e. absurd (ground (arith, h.going, e));
}

notified-Kept :
    (k : ℕ) (reason : Error) (c : Connection)
    → Kept c
    → c.watcher ≡ listening k
    → is_in k c.alive ≡ false
    → Kept (notified reason c)
unfolding notified
notified-Kept k reason c h at ended = record {
  going = h.going;
  one = h.one;
  watched = λ j e. absurd (ground (arith, e));
  gone = λ _. none h.one;
}
  where
    none : (c.alive ≡ []) ⊎ (c.alive ≡ c.conn ∷ []) → c.alive ≡ []
    none (inl e) = e
    none (inr e) =
        let same : k ≡ c.conn = h.watched k at in
        let shown : is_in k (c.conn ∷ []) ≡ false = ap (is_in k) (sym e) ∙ ended in
        absurd (ground (arith, same, shown))

retry-Kept :
    (dialled : Error) (c : Connection) → Kept c → c.watcher ≡ retrying → Kept (retry dialled c)
unfolding retry connect
retry-Kept dialled c h at = elim (Bool-cases (is_nil dialled)) [
  | inl fine ↦
      rw (h.going, fine)
        (record {
          going = refl;
          one = inr (ap (λ l. c.next ∷ l) (h.gone at));
          watched = λ k e. cc;
          gone = λ e. cc;
        })
  | inr fails ↦
      rw (h.going, fails)
        (record { going = refl; one = h.one; watched = λ k e. cc; gone = λ _. h.gone at })
]

close-Kept : (c : Connection) → Kept c → Kept (close c).1
unfolding close
close-Kept c h = elim (Bool-cases (is_in c.conn c.alive)) [
  | inl here ↦ rw here (
      let l = lose-Kept c.conn c h in
      record { going = l.going; one = l.one; watched = l.watched; gone = l.gone })
  | inr gone ↦ rw gone h
]

Step-Kept : {c d : Connection} → Step c d → Kept c → Kept d
Step-Kept {c} (loads e) h = load-Kept c h
Step-Kept {c} (loses k) h = lose-Kept k c h
Step-Kept {c} (reads k reason e ended r) h = notified-Kept k reason c h e ended
Step-Kept {c} (retries dialled e) h = retry-Kept dialled c h e
Step-Kept {c} closes h = close-Kept c h

Reachable-Kept : {c : Connection} → Reachable c → Kept c
unfolding new_connection connect
Reachable-Kept (start dialled e) =
    rw e (record { going = refl; one = inr refl; watched = λ k h. cc; gone = λ h. cc })
Reachable-Kept (after r s) = Step-Kept s (Reachable-Kept r)

one_alive : (c : Connection) → (c.alive ≡ []) ⊎ (c.alive ≡ c.conn ∷ []) → length c.alive ≤ 1
one_alive c (inl e) = omega (arith, ap length e)
one_alive c (inr e) = omega (arith, ap length e)

-- However the losses, the reconnections and `Close` interleave, at most one AMQP connection is open,
-- the one that `conn` is; and `closed` is never set.
Reachable-at_most_one :
    (c : Connection)
    → Reachable c
    → (length c.alive ≤ 1) × ((c.alive ≡ []) ⊎ (c.alive ≡ c.conn ∷ [])) × (c.closed ≡ false)
Reachable-at_most_one c r = let h = Reachable-Kept r in (one_alive c h.one, h.one, h.going)

-- `Close`, while the watcher is connecting again, reports an error and changes nothing, and the
-- watcher's next dial that succeeds opens a connection, which it goes on to watch.
pub close_reconnects :
    (c : Connection)
    → Reachable c
    → c.watcher ≡ retrying
    → (is_nil (close c).0 ≡ false)
      × ((close c).1 ≡ c)
      × ((retry nil (close c).1).alive ≡ c.next ∷ [])
      × ((load (retry nil (close c).1)).watcher ≡ listening c.next)
unfolding close retry load connect
close_reconnects c r at =
    let h = Reachable-Kept r in
    let lost : is_in c.conn c.alive ≡ false = ap (is_in c.conn) (h.gone at) in
    (
      rw lost refl,
      rw lost refl,
      rw (lost, h.going) (ap (λ l. c.next ∷ l) (h.gone at)),
      rw (lost, h.going) refl,
    )
