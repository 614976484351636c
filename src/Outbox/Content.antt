-- ===== src/Outbox/Content.antt =====
-- What an outbox event is and which row holds it, while its status changes (the unique key of the
-- outbox tables, internal/auth/repository/migrations).
use mini_wallet.Base.{
  ℕ, ◌==◌, Bool, true, false, some, List, [], ◌∷◌, String, find, update, any, All, All-map, ◌≡◌,
  refl, sym, ap, ◌∙◌, subst, if◌then◌else◌, Bool-cases, inl, inr, arith, ==_iff,
}
use mini_wallet.Outbox.Table.{OutboxEvent, has_id}

-- What an event is, apart from how far it has come.
abbrev pub content : OutboxEvent → String × List ℕ
content e = (e.event_type, e.payload)

-- Event ids are a key of the table.
abbrev pub UniqueEvents : List OutboxEvent → Type 0
UniqueEvents [] = Unit
UniqueEvents (e ∷ es) = (any (has_id e.event_id) es ≡ false) × UniqueEvents es

-- The row of the event's id, which the claim may have changed, has the event's content.
abbrev pub Stands : List OutboxEvent → OutboxEvent → Type 0
Stands rows e = (r : OutboxEvent) → find (has_id e.event_id) rows ≡ some r → content r ≡ content e

-- A change of some rows that keeps id and content.
abbrev pub Keeping : (OutboxEvent → OutboxEvent) → Type 0
Keeping f = (e : OutboxEvent) → ((f e).event_id ≡ e.event_id) × (content (f e) ≡ content e)

-- A row as `update p f` leaves it.
abbrev pub changed : (OutboxEvent → Bool) → (OutboxEvent → OutboxEvent) → OutboxEvent → OutboxEvent
changed p f x = if p x then f x else x

pub changed_same :
    (p : OutboxEvent → Bool) (f : OutboxEvent → OutboxEvent) → Keeping f → Keeping (changed p f)
changed_same p f keep e = elim (Bool-cases (p e)) [
  | inl hit ↦ rw hit (keep e)
  | inr miss ↦ rw miss (refl, refl)
]

-- The row of an id after an update comes from the row of that id before.
pub find-update_cases :
    (p : OutboxEvent → Bool) (f : OutboxEvent → OutboxEvent) (k : ℕ) (rows : List OutboxEvent)
    (r : OutboxEvent)
    → Keeping f
    → find (has_id k) (update p f rows) ≡ some r
    → (x : OutboxEvent) × (find (has_id k) rows ≡ some x) × (r ≡ changed p f x)
find-update_cases p f k [] r keep h = cc
find-update_cases p f k (e ∷ es) r keep h = elim (Bool-cases (e.event_id == k)) [
  | inl hit ↦
      let first : find (has_id k) (changed p f e ∷ update p f es) ≡ some (changed p f e) =
        rw ((changed_same p f keep e).0, hit) refl in
      (e, rw hit refl, cc)
  | inr miss ↦
      let later : find (has_id k) (changed p f e ∷ update p f es)
          ≡ find (has_id k) (update p f es) =
        rw ((changed_same p f keep e).0, miss) refl in
      let (x, found, made) = find-update_cases p f k es r keep (sym later ∙ h) in
      (x, rw miss found, made)
]

pub find_id :
    (k : ℕ) (rows : List OutboxEvent) (r : OutboxEvent)
    → find (has_id k) rows ≡ some r
    → r.event_id ≡ k
find_id k [] r h = cc
find_id k (e ∷ es) r h = elim (Bool-cases (e.event_id == k)) [
  | inl hit ↦
      let first : find (has_id k) (e ∷ es) ≡ some e = rw hit refl in
      let same : r ≡ e = cc in
      ap (λ (x : OutboxEvent). x.event_id) same ∙ (==_iff e.event_id k).0 hit
  | inr miss ↦
      find_id k es r
        (let later : find (has_id k) (e ∷ es) ≡ find (has_id k) es = rw miss refl in sym later ∙ h)
]

pub Stands-update :
    (p : OutboxEvent → Bool) (f : OutboxEvent → OutboxEvent) (rows : List OutboxEvent)
    (e : OutboxEvent)
    → Keeping f
    → Stands rows e
    → Stands (update p f rows) e
Stands-update p f rows e keep h r found =
    let (x, old, made) = find-update_cases p f e.event_id rows r keep found in
    ap content made ∙ (changed_same p f keep x).1 ∙ h x old

any_of_found :
    (k : ℕ) (x : OutboxEvent) (es : List OutboxEvent)
    → find (has_id k) es ≡ some x
    → any (has_id k) es ≡ true
any_of_found k x [] e = cc
any_of_found k x (y ∷ es) e = ground (arith, any_of_found k x es)

Stands_later :
    (x : OutboxEvent) (es : List OutboxEvent) (e : OutboxEvent)
    → find (has_id e.event_id) es ≡ some e
    → any (has_id x.event_id) es ≡ false
    → find (has_id e.event_id) (x ∷ es) ≡ some e
Stands_later x es e h none_other = elim (Bool-cases (x.event_id == e.event_id)) [
  | inl hit ↦
      let there : any (has_id e.event_id) es ≡ true = any_of_found e.event_id e es h in
      let here : any (has_id e.event_id) es ≡ false =
        subst (λ (k : ℕ). any (has_id k) es ≡ false) ((==_iff x.event_id e.event_id).0 hit)
          none_other in
      cc
  | inr miss ↦ rw miss h
]

All-itself :
    (rows : List OutboxEvent)
    → UniqueEvents rows
    → All (λ e. find (has_id e.event_id) rows ≡ some e) rows
All-itself [] u = tt
All-itself (x ∷ es) u =
    (rw ((==_iff x.event_id x.event_id).1 refl) refl, later es (All-itself es u.1))
  where
    later :
        (ys : List OutboxEvent)
        → All (λ e. find (has_id e.event_id) es ≡ some e) ys
        → All (λ e. find (has_id e.event_id) (x ∷ es) ≡ some e) ys
    later [] h = tt
    later (y ∷ ys) h = (Stands_later x es y h.0 u.0, later ys h.1)

pub All-Stand : (rows : List OutboxEvent) → UniqueEvents rows → All (Stands rows) rows
All-Stand rows u =
    All-map (λ (e : OutboxEvent). find (has_id e.event_id) rows ≡ some e) (Stands rows)
      (λ e h r found. let same : r ≡ e = cc in ap content same) rows (All-itself rows u)

any_id-update :
    (p : OutboxEvent → Bool) (f : OutboxEvent → OutboxEvent) (k : ℕ) (rows : List OutboxEvent)
    → Keeping f
    → any (has_id k) (update p f rows) ≡ any (has_id k) rows
any_id-update p f k [] keep = refl
any_id-update p f k (e ∷ es) keep =
    rw ((changed_same p f keep e).0, any_id-update p f k es keep) refl

pub UniqueEvents-update :
    (p : OutboxEvent → Bool) (f : OutboxEvent → OutboxEvent) (rows : List OutboxEvent)
    → Keeping f
    → UniqueEvents rows
    → UniqueEvents (update p f rows)
UniqueEvents-update p f [] keep u = tt
UniqueEvents-update p f (e ∷ es) keep u = (
  rw ((changed_same p f keep e).0, any_id-update p f e.event_id es keep) u.0,
  UniqueEvents-update p f es keep u.1,
)
