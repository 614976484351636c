-- ===== src/App/Runs.antt =====
-- What holds of every run of `Start`, whatever its body.
use mini_wallet.Base.{
  Option, none, some, All, ℕ, zero, suc, ◌⊎◌, ◌+◌, List, [], ◌∷◌, ◌++◌, Bool, true, false, ◌==◌,
  ◌||◌, ◌≡◌, inl, inr, refl, sym, ap, ◌∙◌, subst, length, length-append, if◌then◌else◌, arith,
  Bool-cases,
}
use mini_wallet.App.{
  Call, Goroutine, Body, State, Step, Run, begin, step, signals, calls_next, answers, can_return,
  ends, returns, started, can_end, ended_in, ended_by, may_fail, has, code,
}

abbrev pub todo : Bool → ℕ
todo b = if b then 0 else 1

abbrev pub size : State → ℕ
size s = todo s.signalled + length s.left + length s.running + todo s.returned + s.pending

-- Every step leaves less to do.
Step-size : (b : Body) {s t : State} → Step b s t → size s ≡ suc (size t)
Step-size b (signals h) = ground (arith, h)
Step-size b (calls_next c cs h l f) = ground (arith, ap length l)
Step-size b (answers k e) = omega (arith, e)
Step-size b (ends before g after e c) =
    omega (arith, ap length e, length-append before (g ∷ after), length-append before after)
Step-size b (returns h l r n) = ground (arith, n)

-- No run is longer than the calls and the goroutines and two steps more.
pub Run-size : (b : Body) {n : ℕ} {s : State} → Run b n s → n + size s ≡ size (started b)
Run-size b begin = omega arith
Run-size b (step r st e) = omega (arith, Run-size b r, Step-size b st, e)

-- The calls made and left are those of the body.
abbrev pub Divided : Body → State → Type 0
Divided b s = (c : Call) → (has c s.made || has c s.left) ≡ has c b.calls

swapped : (p m l : Bool) → ((if p then true else m) || l) ≡ (m || (if p then true else l))
swapped true true l = refl
swapped true false l = refl
swapped false m l = refl

Step-Divided :
    (b : Body) {s t : State}
    → Step b s t
    → t.returned ≡ false
    → (s.returned ≡ false) × (Divided b s → Divided b t)
Step-Divided b (signals h) k = (k, λ d. d)
Step-Divided b {s} (calls_next c cs h l f) k = (
  k,
  λ d x.
      swapped (code c == code x) (has x s.made) (has x cs)
      ∙ ap (λ ls. has x s.made || has x ls) (sym l)
      ∙ d x,
)
Step-Divided b (answers k' e) k = (k, λ d. d)
Step-Divided b (ends before g after e c) k = (k, λ d. d)
Step-Divided b (returns h l r n) k = cc

pub Run-Divided : (b : Body) {n : ℕ} {s : State} → Run b n s → s.returned ≡ false → Divided b s
Run-Divided b begin k = λ c. refl
Run-Divided b (step r st e) k =
    let before = Step-Divided b st k in before.1 (Run-Divided b r before.0)

-- What the calls end, these calls and more end too.
ended_in-more :
    (cs made : List Call) (o : Option Call)
    → ((c : Call) → has c cs ≡ true → has c made ≡ true)
    → ended_in cs o ≡ true
    → ended_in made o ≡ true
ended_in-more cs made none more h = refl
ended_in-more cs made (some c) more h = more c h

pub can_end-more :
    (cs made : List Call) (g : Goroutine)
    → ((c : Call) → has c cs ≡ true → has c made ≡ true)
    → can_end cs g ≡ true
    → can_end made g ≡ true
can_end-more cs made g more h = elim (Bool-cases (may_fail g)) [
  | inl free ↦ ground (arith, free)
  | inr bound ↦
      let held : ended_in cs (ended_by g) ≡ true = ground (arith, bound, h) in
      ground (arith, ended_in-more cs made (ended_by g) more held)
]

All-without :
    (P : Goroutine → Type 0) (before : List Goroutine) (g : Goroutine) (after : List Goroutine)
    → All P (before ++ g ∷ after)
    → All P (before ++ after)
All-without P [] g after h = h.1
All-without P (x ∷ before) g after h = (h.0, All-without P before g after h.1)

Run-All :
    (b : Body) (P : Goroutine → Type 0)
    → All P b.goroutines
    → {n : ℕ} {s : State} → Run b n s
    → All P s.running
Run-All b P h begin = h
Run-All b P h (step r (signals k) e) = Run-All b P h r
Run-All b P h (step r (calls_next c cs k l f) e) = Run-All b P h r
Run-All b P h (step r (answers k q) e) = Run-All b P h r
Run-All b P h (step r (ends before g after k c) e) =
    All-without P before g after (subst (All P) k (Run-All b P h r))
Run-All b P h (step r (returns k l m n) e) = Run-All b P h r

ℕ-cases : (n : ℕ) → (n ≡ 0) ⊎ ((m : ℕ) × (n ≡ suc m))
ℕ-cases zero = inl refl
ℕ-cases (suc m) = inr (m, refl)

pub or_none : (x : Bool) → (x || false) ≡ true → x ≡ true
or_none true e = refl
or_none false e = e

pub all_made :
    (b : Body) (s : State)
    → Divided b s
    → s.left ≡ []
    → (c : Call) → has c b.calls ≡ true
    → has c s.made ≡ true
all_made b s d l c h =
    or_none (has c s.made) (ap (λ ls. has c s.made || has c ls) (sym l) ∙ d c ∙ h)

-- Where the calls end every goroutine, a run that has not returned goes on.
pub goes_on :
    (b : Body)
    → All (λ g. can_end b.calls g ≡ true) b.goroutines
    → {n : ℕ} {s : State} → Run b n s
    → s.returned ≡ false
    → (t : State) × Step b s t
goes_on b h {s} r going = next s.left s.running refl refl
  where
    next :
        (cs : List Call) (gs : List Goroutine)
        → s.left ≡ cs
        → s.running ≡ gs
        → (t : State) × Step b s t
    next cs gs l k = elim (Bool-cases s.signalled) [
      | inr waiting ↦ (_, signals waiting)
      | inl told ↦ after cs gs l k told
    ]
      where
        after :
            (cs : List Call) (gs : List Goroutine)
            → s.left ≡ cs
            → s.running ≡ gs
            → s.signalled ≡ true
            → (t : State) × Step b s t
        after (c ∷ cs) gs l k told = elim (ℕ-cases s.pending) [
          | inl answered ↦
              (_, calls_next c cs told l (subst (λ p. can_return p c ≡ true) (sym answered) refl))
          | inr (m, waits) ↦ (_, answers m waits)
        ]
        after [] (g ∷ gs) l k told = (
          _,
          ends [] g gs k (
              can_end-more b.calls s.made g (all_made b s (Run-Divided b r going) l)
                (subst (All (λ x. can_end b.calls x ≡ true)) k (Run-All b _ h r)).0),
        )
        after [] [] l k told = (_, returns told l k going)
