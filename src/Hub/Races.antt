-- ===== src/Hub/Races.antt =====
-- Orders of the steps of pkg/hub/hub.go in which a client loses its messages or the listener panics.
use mini_wallet.Base.{ℕ, List, [], ◌∷◌, none, some, Bool, true, ◌≡◌, refl, find, reject, arith}
use mini_wallet.Hub.{Hub, Entry, is_user, channel_of, connect, disconnect, look_up, send}
use mini_wallet.Hub.Steps.{Reachable, after, connects, disconnects, looks_up, sends}

find-reject : (p : Entry → Bool) (es : List Entry) → find p (reject p es) ≡ none
find-reject p [] = refl
find-reject p (e ∷ es) = ground (arith, find-reject p es)

-- A client that connects again, in every hub that can come about, loses its messages or stops the
-- listener. When the handler of its first connection ends, the client has no channel registered any
-- more, though its second connection is still there. And where the listener has looked up its first
-- channel before, and sends after, the send panics.
pub reconnect_races :
    (h : Hub)
    → Reachable h
    → (user : ℕ) (msg : List ℕ) (e : Entry) → channel_of user h ≡ some e
    → Reachable (disconnect user (connect user h))
      × (channel_of user (disconnect user (connect user h)) ≡ none)
      × Reachable (send (connect user (look_up user msg h)))
      × ((send (connect user (look_up user msg h))).panicked ≡ true)
unfolding disconnect send connect look_up
reconnect_races h r user msg e found = (
  after (after r (connects user)) (disconnects user),
  find-reject (is_user user) (connect user h).online,
  after (after (after r (looks_up user msg)) (connects user)) sends,
  rw found (ground arith),
)
