-- ===== src/Hub/Live.antt =====
-- The channels of pkg/hub/hub.go through connections, disconnections and shutdowns.
use mini_wallet.Base.{
  ℕ, suc, ◌≤◌, ◌<◌, List, [], ◌∷◌, Option, none, some, Bool, true, false, ◌==◌, ◌||◌, ◌≡◌, refl,
  sym, ◌∙◌, subst, any, find, reject, length, All, All-reject, arith, Bool-cases, inl, inr,
}
use mini_wallet.Hub.{
  Hub, Entry, new_hub, is_user, is_closed, close_channel, close_found, channel_of, register,
  connect, disconnect, close, close_all,
}

-- A registered channel has been made, and is not closed.
abbrev pub Live : List ℕ → ℕ → Entry → Type 0
Live closed next e = (e.channel < next) × (any (λ c. c == e.channel) closed ≡ false)

-- No channel is registered twice.
abbrev pub Apart : List Entry → Type 0
Apart [] = Unit
Apart (e ∷ es) = All (λ x. (x.channel == e.channel) ≡ false) es × Apart es

-- Each registered channel is open and one client's, and no buffer holds more than ten messages.
pub record Sound (h : Hub) : Type 0 where
  pub live : All (Live h.closed h.next) h.online
  pub apart : Apart h.online
  pub made : All (λ c. c < h.next) h.closed
  pub small : (c : ℕ) → length (h.buffer c) ≤ 10

pub new_hub-Sound : Sound new_hub
new_hub-Sound = record { live = tt; apart = tt; made = tt; small = λ c. omega arith }

Apart-reject : (p : Entry → Bool) (es : List Entry) → Apart es → Apart (reject p es)
Apart-reject p [] h = tt
Apart-reject p (e ∷ es) h = elim (Bool-cases (p e)) [
  | inl hit ↦ rw hit (Apart-reject p es h.1)
  | inr miss ↦
      rw miss (All-reject (λ x. (x.channel == e.channel) ≡ false) p es h.0, Apart-reject p es h.1)
]

pub disconnect-Sound : (user : ℕ) (h : Hub) → Sound h → Sound (disconnect user h)
unfolding disconnect
disconnect-Sound user h s = record {
  live = All-reject (Live h.closed h.next) (is_user user) h.online s.live;
  apart = Apart-reject (is_user user) h.online s.apart;
  made = s.made;
  small = s.small;
}

pub All-find :
    (P : Entry → Type 0) (p : Entry → Bool) (es : List Entry) (e : Entry)
    → All P es
    → find p es ≡ some e
    → P e
All-find P p [] e a h = cc
All-find P p (x ∷ es) e a h = elim (Bool-cases (p x)) [
  | inl hit ↦
      let first : find p (x ∷ es) ≡ some x = rw hit refl in
      let same : x ≡ e = cc in subst P same a.0
  | inr miss ↦
      let later : find p (x ∷ es) ≡ find p es = rw miss refl in
      All-find P p es e a.1 (sym later ∙ h)
]

-- Closing another channel leaves an entry live.
past_closing :
    (c next : ℕ) (closed : List ℕ) (es : List Entry)
    → All (λ x. (x.channel == c) ≡ false) es
    → All (Live closed next) es
    → All (Live (c ∷ closed) next) es
past_closing c next closed [] n l = tt
past_closing c next closed (x ∷ es) n l =
    ((l.0.0, ground (arith, n.0, l.0.1)), past_closing c next closed es n.1 l.1)

-- The entries that are left when the channel that a look-up finds is closed.
closing :
    (user next : ℕ) (closed : List ℕ) (es : List Entry) (e : Entry)
    → find (is_user user) es ≡ some e
    → All (Live closed next) es
    → Apart es
    → All (Live (e.channel ∷ closed) next) (reject (is_user user) es)
closing user next closed [] e h l a = tt
closing user next closed (x ∷ es) e h l a = elim (Bool-cases (is_user user x)) [
  | inl hit ↦
      let first : find (is_user user) (x ∷ es) ≡ some x = rw hit refl in
      let same : x ≡ e = cc in
      rw (hit, ← same)
        (All-reject (Live (x.channel ∷ closed) next) (is_user user) es
          (past_closing x.channel next closed es a.0 l.1))
  | inr miss ↦
      let later : find (is_user user) (x ∷ es) ≡ find (is_user user) es = rw miss refl in
      let apart : (e.channel == x.channel) ≡ false =
        All-find (λ y. (y.channel == x.channel) ≡ false) (is_user user) es e a.0 (sym later ∙ h) in
      rw miss (
        (l.0.0, ground (arith, apart, l.0.1)),
        closing user next closed es e (sym later ∙ h) l.1 a.1,
      )
]

Live-later :
    (closed : List ℕ) (next : ℕ) (es : List Entry)
    → All (Live closed next) es
    → All (Live closed (suc next)) es
Live-later closed next [] h = tt
Live-later closed next (e ∷ es) h = ((omega (arith, h.0.0), h.0.1), Live-later closed next es h.1)

made-later : (next : ℕ) (cs : List ℕ) → All (λ c. c < next) cs → All (λ c. c < suc next) cs
made-later next [] h = tt
made-later next (c ∷ cs) h = (omega (arith, h.0), made-later next cs h.1)

-- A channel that is not made yet is none of these.
unmade : (next : ℕ) (cs : List ℕ) → All (λ c. c < next) cs → any (λ c. c == next) cs ≡ false
unmade next [] h = refl
unmade next (c ∷ cs) h = ground (arith, h.0, unmade next cs h.1)

unmade_entries :
    (next : ℕ) (closed : List ℕ) (es : List Entry)
    → All (Live closed next) es
    → All (λ x. (x.channel == next) ≡ false) es
unmade_entries next closed [] h = tt
unmade_entries next closed (e ∷ es) h = (ground (arith, h.0.0), unmade_entries next closed es h.1)

registered-Sound :
    (user : ℕ) (h : Hub) (closed : List ℕ) (calm : Bool)
    → Sound h
    → All (Live closed h.next) (reject (is_user user) h.online)
    → All (λ c. c < h.next) closed
    → Sound (register user (record h { closed = closed; panicked = calm }))
registered-Sound user h closed calm s live made = record {
  live = ((omega arith, unmade h.next closed made), Live-later closed h.next _ live);
  apart = (unmade_entries h.next closed _ live, Apart-reject (is_user user) h.online s.apart);
  made = made-later h.next closed made;
  small = s.small;
}

pub connect-Sound : (user : ℕ) (h : Hub) → Sound h → Sound (connect user h)
unfolding connect
connect-Sound user h s = found (channel_of user h) refl
  where
    found : (o : Option Entry) → channel_of user h ≡ o → Sound (register user (close_found o h))
    found none e =
        registered-Sound user h h.closed h.panicked s
          (All-reject (Live h.closed h.next) (is_user user) h.online s.live) s.made
    found (some x) e =
        let live : Live h.closed h.next x =
          All-find (Live h.closed h.next) (is_user user) h.online x s.live e in
        registered-Sound user h (x.channel ∷ h.closed) (h.panicked || is_closed x.channel h) s
          (closing user h.next h.closed h.online x e s.live s.apart) (live.0, s.made)

pub or_false : (a b : Bool) → b ≡ false → (a || b) ≡ a
or_false true b e = refl
or_false false b e = e

-- What closing a list of registered channels has done.
pub record Closed (next : ℕ) (h h' : Hub) : Type 0 where
  pub made : All (λ c. c < next) h'.closed
  pub buffers : h'.buffer ≡ h.buffer
  pub calm : h'.panicked ≡ h.panicked
  pub next_same : h'.next ≡ h.next

pub close_all-Closed :
    (next : ℕ) (es : List Entry) (h : Hub)
    → All (Live h.closed next) es
    → Apart es
    → All (λ c. c < next) h.closed
    → Closed next h (close_all es h)
close_all-Closed next [] h l a m = record {
  made = m;
  buffers = refl;
  calm = refl;
  next_same = refl;
}
close_all-Closed next (e ∷ es) h l a m =
    let c : Closed next (close_channel e.channel h) (close_all es (close_channel e.channel h)) =
      close_all-Closed next es (close_channel e.channel h)
        (past_closing e.channel next h.closed es a.0 l.1) a.1 (l.0.0, m) in
    record {
      made = c.made;
      buffers = c.buffers;
      calm = c.calm ∙ or_false h.panicked (is_closed e.channel h) l.0.1;
      next_same = c.next_same;
    }

pub close-Sound : (h : Hub) → Sound h → Sound (close h)
unfolding close
close-Sound h s =
    let c : Closed h.next h (close_all h.online h) =
      close_all-Closed h.next h.online h s.live s.apart s.made in
    record {
      live = tt;
      apart = tt;
      made = subst (λ n. All (λ x. x < n) (close_all h.online h).closed) (sym c.next_same) c.made;
      small = subst (λ b. (x : ℕ) → length (b x) ≤ 10) (sym c.buffers) s.small;
    }
