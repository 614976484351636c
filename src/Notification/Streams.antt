-- ===== src/Notification/Streams.antt =====
-- A store of keys with times, on which the theorem about tickets is applied.
use mini_wallet.Base.{
  ℕ, ◌+◌, List, [], ◌∷◌, Option, none, some, true, ◌==◌, ◌≡◌, ◌≢◌, refl, arith, if◌then◌else◌, ltb,
}
use mini_wallet.Sql.{World, Result, ok, sql, returned, autocommit}
use mini_wallet.Notification.Tickets.{Redis, Library, create_ticket, consume_ticket}
use mini_wallet.Notification.Keys.{Keeps, quiet}
use mini_wallet.Notification.Once.{Turn, makes, uses, perform_all, consume_ticket-create_ticket}

abbrev Keys : Type 0
Keys = ℕ → Option (ℕ × List ℕ)

abbrev alive : ℕ → Option (ℕ × List ℕ) → Option (List ℕ)
alive now none = none
alive now (some e) = if ltb now e.0 then some e.1 else none

abbrev keys : Redis Keys
keys = record {
  set = λ key value ttl now s k. if k == key then some (now + ttl, value) else s k;
  get_del = λ key now s. (alive now (s key), λ k. if k == key then none else s k);
}

itself : (n : ℕ) → (n == n) ≡ true
itself n = ground arith

keys-Keeps : Keeps keys
keys-Keeps = record {
  get-set = λ key value ttl now now' s h.
      let early : ltb now' (now + ttl) ≡ true = ground (arith, h) in rw (itself key, early) refl;
  IsGone = λ key s. s key ≡ none;
  get-IsGone = λ key now s. rw (itself key) refl;
  get_other-IsGone = λ key other now s h. ground (arith, h);
  set_other-IsGone = λ key other value ttl now s differ h. ground (arith, differ, h);
  none_IsGone = λ key now s h. rw h refl;
}

-- Numbers as one byte, and a ticket as the first of its bytes.
abbrev lib : Library
lib = record {
  encode_to_string = λ bytes. elim bytes [ [] ↦ 0 | b ∷ bs ↦ b ];
  format_int = λ n. n ∷ [];
  parse_int = λ bytes. elim bytes [ [] ↦ ok 0 | b ∷ bs ↦ ok b ];
}

abbrev empty : World Keys
empty = quiet keys lib 10 (λ _. none)

-- Another ticket is made, and the first one is used again.
abbrev between : List Turn
between =
    record { operation = makes 60 (ok (78 ∷ [])) 9; at = 31; faults = [] }
    ∷ record { operation = uses 77; at = 32; faults = [] }
    ∷ []

abbrev used : World Keys
used =
    (consume_ticket keys lib 77
      (quiet keys lib 30 (create_ticket keys lib 60 (ok (77 ∷ [])) 9 empty).1.db)).1

another_ticket : (t : ℕ) → ◌≡◌ {A = Result ℕ} (ok 78) (ok t) → t ≢ 77
another_ticket t made e = ground (arith, made, e)

consume_ticket-create_ticket_example :
    ((consume_ticket keys lib 77
        (quiet keys lib 30 (create_ticket keys lib 60 (ok (77 ∷ [])) 9 empty).1.db)).0
      ≡ ok 9)
    × ((consume_ticket keys lib 77 (quiet keys lib 40 (perform_all keys lib between used.db))).0
        ≢ ok 9)
unfolding create_ticket sql returned autocommit
consume_ticket-create_ticket_example =
    consume_ticket-create_ticket keys lib keys-Keeps (λ n. refl) 60 9 77 30 (ok (77 ∷ [])) empty
      refl (omega arith) between (another_ticket, (tt, tt))
      (quiet keys lib 40 (perform_all keys lib between used.db)) 9 refl
