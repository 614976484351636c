-- ===== src/Hub/Steps.antt =====
-- The steps of pkg/hub/hub.go, in any order, and the hubs that they lead to.
use mini_wallet.Base.{ℕ, List}
use mini_wallet.Hub.{Hub, new_hub, connect, disconnect, close, look_up, send, receive}

pub data Step : Hub → Hub → Type 0 where
  connects : {h : Hub} (user : ℕ) → Step h (connect user h)
  disconnects : {h : Hub} (user : ℕ) → Step h (disconnect user h)
  closes : {h : Hub} → Step h (close h)
  looks_up : {h : Hub} (user : ℕ) (msg : List ℕ) → Step h (look_up user msg h)
  sends : {h : Hub} → Step h (send h)
  receives : {h : Hub} (channel : ℕ) → Step h (receive channel h)

pub data Reachable : Hub → Type 0 where
  start : Reachable new_hub
  after : {h h' : Hub} → Reachable h → Step h h' → Reachable h'
