-- ===== src/Hub/Open.antt =====
-- What holds of pkg/hub/hub.go whatever the order of its steps.
use mini_wallet.Base.{
  ℕ, ◌+◌, ◌≤◌, ◌<◌, if◌then◌else◌, List, [], ◌∷◌, ◌++◌, Option, none, some, true, ◌==◌, ◌≡◌, refl,
  sym, subst, length, ltb, arith, Bool-cases, inl, inr, length-append,
}
use mini_wallet.Hub.{
  Hub, Entry, is_user, is_closed, close_found, channel_of, connect, close, look_up, send, deliver,
  put, receive, rest,
}
use mini_wallet.Hub.Steps.{
  Step, connects, disconnects, closes, looks_up, sends, receives, Reachable, start, after,
}
use mini_wallet.Hub.Live.{
  Live, Sound, new_hub-Sound, disconnect-Sound, connect-Sound, close-Sound, close_all-Closed,
  All-find, or_false,
}

look_up-Sound : (user : ℕ) (msg : List ℕ) (h : Hub) → Sound h → Sound (look_up user msg h)
unfolding look_up
look_up-Sound user msg h s = record {
  live = s.live;
  apart = s.apart;
  made = s.made;
  small = s.small;
}

put-small :
    (channel : ℕ) (msg : List ℕ) (buffer : ℕ → List (List ℕ)) (c : ℕ)
    → ltb (length (buffer channel)) 10 ≡ true
    → length (buffer c) ≤ 10
    → length (put channel msg buffer c) ≤ 10
put-small channel msg buffer c room h = elim (Bool-cases (c == channel)) [
  | inl same ↦
      let eq : c ≡ channel = ground (arith, same) in
      let size : length (buffer c ++ msg ∷ []) ≡ length (buffer c) + 1 =
        length-append (buffer c) (msg ∷ []) in
      let few : length (buffer c) < 10 =
        subst (λ x. length (buffer x) < 10) (sym eq) (ground (arith, room)) in
      rw same (omega (arith, size, few))
  | inr other ↦ rw other h
]

deliver-Sound : (channel : ℕ) (msg : List ℕ) (h : Hub) → Sound h → Sound (deliver channel msg h)
deliver-Sound channel msg h s = elim (Bool-cases (is_closed channel h)) [
  | inl shut ↦ rw shut (record { live = s.live; apart = s.apart; made = s.made; small = s.small })
  | inr unshut ↦ elim (Bool-cases (ltb (length (h.buffer channel)) 10)) [
    | inl room ↦
        rw (unshut, room)
          (record {
            live = s.live;
            apart = s.apart;
            made = s.made;
            small = λ c. put-small channel msg h.buffer c room (s.small c);
          })
    | inr full ↦ rw (unshut, full) s
  ]
]

send_of :
    (o : Option (ℕ × List ℕ)) (h : Hub)
    → Sound h
    → Sound (elim o [ none ↦ h | some m ↦ record (deliver m.0 m.1 h) { held = none } ])
send_of none h s = s
send_of (some m) h s =
    let d : Sound (deliver m.0 m.1 h) = deliver-Sound m.0 m.1 h s in
    record { live = d.live; apart = d.apart; made = d.made; small = d.small }

send-Sound : (h : Hub) → Sound h → Sound (send h)
unfolding send
send-Sound h s = send_of h.held h s

rest-small : (ms : List (List ℕ)) → length ms ≤ 10 → length (rest ms) ≤ 10
rest-small [] h = h
rest-small (m ∷ ms) h = omega (arith, h)

receive-Sound : (channel : ℕ) (h : Hub) → Sound h → Sound (receive channel h)
unfolding receive
receive-Sound channel h s = record {
  live = s.live;
  apart = s.apart;
  made = s.made;
  small = λ c. taken c (s.small c);
}
  where
    taken :
        (c : ℕ)
        → length (h.buffer c) ≤ 10
        → length (if c == channel then rest (h.buffer c) else h.buffer c) ≤ 10
    taken c small = elim (Bool-cases (c == channel)) [
      | inl same ↦ rw same (rest-small (h.buffer c) small)
      | inr other ↦ rw other small
    ]

step-Sound : {h h' : Hub} → Step h h' → Sound h → Sound h'
step-Sound {h} (connects user) s = connect-Sound user h s
step-Sound {h} (disconnects user) s = disconnect-Sound user h s
step-Sound {h} closes s = close-Sound h s
step-Sound {h} (looks_up user msg) s = look_up-Sound user msg h s
step-Sound {h} sends s = send-Sound h s
step-Sound {h} (receives channel) s = receive-Sound channel h s

Reachable-Sound : {h : Hub} → Reachable h → Sound h
Reachable-Sound start = new_hub-Sound
Reachable-Sound (after r step) = step-Sound step (Reachable-Sound r)

-- Whatever the order in which clients connect and disconnect, the listener looks up and sends,
-- clients receive and the hub is closed: each registered channel is open and one client's, no channel
-- holds more than its ten messages, and neither a connection nor a shutdown closes a channel that is
-- closed already, which would panic.
pub Reachable-bounded :
    (h : Hub)
    → Reachable h
    → Sound h
      × ((user : ℕ) → (connect user h).panicked ≡ h.panicked)
      × ((close h).panicked ≡ h.panicked)
unfolding connect close
Reachable-bounded h r = (
  s,
  λ user.
      calm (channel_of user h)
        (λ x e. All-find (Live h.closed h.next) (is_user user) h.online x s.live e),
  (close_all-Closed h.next h.online h s.live s.apart s.made).calm,
)
  where
    s : Sound h
    s = Reachable-Sound r

    calm :
        (o : Option Entry)
        → ((x : Entry) → o ≡ some x → Live h.closed h.next x)
        → (close_found o h).panicked ≡ h.panicked
    calm none l = refl
    calm (some x) l = or_false h.panicked (is_closed x.channel h) (l x refl).1
