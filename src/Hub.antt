-- ===== src/Hub.antt =====
-- pkg/hub/hub.go: the channels of the clients that listen for notifications. Channels are numbers in
-- the order in which they are made; a message is its bytes. The operations of connections, of the
-- listener and of `Close` interleave as steps: what runs under the mutex is one step, and the
-- listener's look-up and its send are two. The keys `online:` in redis, which the hub never decides
-- by, are left out.
pub mod Steps
pub mod Live
pub mod Open
pub mod Races
mod Tests
use mini_wallet.Base.{
  ℕ, suc, List, [], ◌∷◌, ◌++◌, Option, none, some, Bool, true, false, ◌==◌, ◌&&◌, ◌||◌, not, any,
  find, reject, length, ltb, if◌then◌else◌,
}

pub record Entry : Type 0 where
  pub user : ℕ
  pub channel : ℕ

-- The listener, between its look-up and its send, holds a channel and a message.
pub record Hub : Type 0 where
  pub online : List Entry
  pub closed : List ℕ
  pub buffer : ℕ → List (List ℕ)
  pub next : ℕ
  pub held : Option (ℕ × List ℕ)
  -- a close of a closed channel, or a send on one
  pub panicked : Bool

-- `NewHub`
abbrev pub new_hub : Hub
new_hub = record {
  online = [];
  closed = [];
  buffer = λ _. [];
  next = 0;
  held = none;
  panicked = false;
}

abbrev pub is_user : ℕ → Entry → Bool
is_user user e = e.user == user

abbrev pub is_closed : ℕ → Hub → Bool
is_closed channel h = any (λ c. c == channel) h.closed

-- `close(ch)`
abbrev pub close_channel : ℕ → Hub → Hub
close_channel channel h = record h {
  closed = channel ∷ h.closed;
  panicked = h.panicked || is_closed channel h;
}

abbrev pub channel_of : ℕ → Hub → Option Entry
channel_of user h = find (is_user user) h.online

abbrev pub close_found : Option Entry → Hub → Hub
close_found none h = h
close_found (some e) h = close_channel e.channel h

abbrev pub register : ℕ → Hub → Hub
register user h = record h {
  online = record { user = user; channel = h.next } ∷ reject (is_user user) h.online;
  next = suc h.next;
}

-- `Connect`, which returns the channel `next`
unfoldable pub connect : ℕ → Hub → Hub
connect user h = register user (close_found (channel_of user h) h)

-- `Disconnect`
unfoldable pub disconnect : ℕ → Hub → Hub
disconnect user h = record h { online = reject (is_user user) h.online }

abbrev pub close_all : List Entry → Hub → Hub
close_all [] h = h
close_all (e ∷ es) h = close_all es (close_channel e.channel h)

-- `Close`
unfoldable pub close : Hub → Hub
close h = record (close_all h.online h) { online = [] }

-- `StartListener`, its look-up for a message
unfoldable pub look_up : ℕ → List ℕ → Hub → Hub
look_up user msg h = record h {
  held = elim (channel_of user h) [ none ↦ none | some e ↦ some (e.channel, msg) ];
}

abbrev pub put : ℕ → List ℕ → (ℕ → List (List ℕ)) → ℕ → List (List ℕ)
put channel msg buffer c = if c == channel then buffer c ++ msg ∷ [] else buffer c

abbrev pub deliver : ℕ → List ℕ → Hub → Hub
deliver channel msg h =
    if is_closed channel h
    then record h { panicked = true }
    else if ltb (length (h.buffer channel)) 10
    then record h { buffer = put channel msg h.buffer }
    else h

-- `StartListener`, its send: a message for a full channel is dropped.
unfoldable pub send : Hub → Hub
send h = elim h.held [ none ↦ h | some m ↦ record (deliver m.0 m.1 h) { held = none } ]

abbrev pub rest : List (List ℕ) → List (List ℕ)
rest [] = []
rest (m ∷ ms) = ms

-- A client takes the first message of its channel.
unfoldable pub receive : ℕ → Hub → Hub
receive channel h = record h {
  buffer = λ c. if c == channel then rest (h.buffer c) else h.buffer c;
}
