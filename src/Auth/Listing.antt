-- ===== src/Auth/Listing.antt =====
-- What the lists of sessions hold: `GetUserSessions` (internal/auth/repository/auth.go) and
-- `GetUserActiveSessions` (internal/auth/delivery/grpc/handler.go).
use mini_wallet.Base.{
  ℕ, ◌≤◌, List, [], ◌∷◌, none, some, ◌==◌, ◌≡◌, refl, All, arith, Bool-cases, inl, inr, select,
  find, leb, Option,
}
use mini_wallet.Auth.Tables.{Session, Device, Db}
use mini_wallet.Auth.Repository.Statements.{
  SessionItem, item, joined, insert_by_use, by_use, select_sessions,
}

-- The latest use first.
abbrev pub Sorted : List SessionItem → Type 0
Sorted [] = Unit
Sorted (x ∷ xs) = All (λ y. y.last_used_at ≤ x.last_used_at) xs × Sorted xs

insert_by_use-All :
    (P : SessionItem → Type 0) (x : SessionItem) (xs : List SessionItem)
    → P x
    → All P xs
    → All P (insert_by_use x xs)
insert_by_use-All P x [] px h = (px, tt)
insert_by_use-All P x (y ∷ ys) px h = elim (Bool-cases (leb y.last_used_at x.last_used_at)) [
  | inl le ↦ rw le (px, h)
  | inr gt ↦ rw gt (h.0, insert_by_use-All P x ys px h.1)
]

All-trans :
    (x y : SessionItem) (ys : List SessionItem)
    → y.last_used_at ≤ x.last_used_at
    → All (λ z. z.last_used_at ≤ y.last_used_at) ys
    → All (λ z. z.last_used_at ≤ x.last_used_at) ys
All-trans x y [] h a = tt
All-trans x y (z ∷ ys) h a = (omega (arith, h, a.0), All-trans x y ys h a.1)

insert_by_use-Sorted :
    (x : SessionItem) (xs : List SessionItem) → Sorted xs → Sorted (insert_by_use x xs)
insert_by_use-Sorted x [] h = (tt, tt)
insert_by_use-Sorted x (y ∷ ys) h = elim (Bool-cases (leb y.last_used_at x.last_used_at)) [
  | inl le ↦
      let below : y.last_used_at ≤ x.last_used_at = ground (arith, le) in
      rw le ((below, All-trans x y ys below h.0), h)
  | inr gt ↦
      let above : x.last_used_at ≤ y.last_used_at = ground (arith, gt) in
      rw gt (
        insert_by_use-All (λ z. z.last_used_at ≤ y.last_used_at) x ys above h.0,
        insert_by_use-Sorted x ys h.1,
      )
]

by_use-Sorted : (xs : List SessionItem) → Sorted (by_use xs)
by_use-Sorted [] = tt
by_use-Sorted (x ∷ xs) = insert_by_use-Sorted x (by_use xs) (by_use-Sorted xs)

by_use-All : (P : SessionItem → Type 0) (xs : List SessionItem) → All P xs → All P (by_use xs)
by_use-All P [] h = tt
by_use-All P (x ∷ xs) h = insert_by_use-All P x (by_use xs) h.0 (by_use-All P xs h.1)

-- The item is one of the rows, with its device.
abbrev pub ItemOf : ℕ → Db → SessionItem → Type 0
ItemOf user_id d x =
    (s : Session) × (r : Device) × (x ≡ item s r)
    × (s.user_id ≡ user_id)
    × (find (λ q. q.id == s.device_id) d.devices ≡ some r)

joined-All :
    (user_id : ℕ) (d : Db) (ss : List Session)
    → All (ItemOf user_id d) (joined d.devices (select (λ s. s.user_id == user_id) ss))
joined-All user_id d [] = tt
joined-All user_id d (s ∷ ss) = elim (Bool-cases (s.user_id == user_id)) [
  | inl own ↦ rw own (
      with_device (find (λ r. r.id == s.device_id) d.devices) refl (ground (arith, own))
        (joined-All user_id d ss))
  | inr other ↦ rw other (joined-All user_id d ss)
]
  where
    with_device :
        (o : Option Device)
        → find (λ r. r.id == s.device_id) d.devices ≡ o
        → s.user_id ≡ user_id
        → All (ItemOf user_id d) (joined d.devices (select (λ x. x.user_id == user_id) ss))
        → All (ItemOf user_id d) (elim o as (λ _. List SessionItem) [
          | none ↦ joined d.devices (select (λ x. x.user_id == user_id) ss)
          | some r ↦ item s r ∷ joined d.devices (select (λ x. x.user_id == user_id) ss)
        ])
    with_device none e u h = h
    with_device (some r) e u h = ((s, r, refl, u, e), h)

-- The sessions of a user that the query lists are the user's own, each with its own device, and the
-- one used last comes first.
select_sessions-Sorted :
    (user_id : ℕ) (d : Db)
    → Sorted (select_sessions user_id d) × All (ItemOf user_id d) (select_sessions user_id d)
unfolding select_sessions
select_sessions-Sorted user_id d = (
  by_use-Sorted (joined d.devices (select (λ s. s.user_id == user_id) d.sessions)),
  by_use-All (ItemOf user_id d) _ (joined-All user_id d d.sessions),
)
