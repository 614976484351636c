-- ===== src/Inbox/Laws.antt =====
-- What recording a message does to the table of messages (internal/wallet/repository/event.go,
-- internal/notification/repository/event.go).

use mini_wallet.Base.{
  ℕ, ◌==◌, true, Option, none, some, List, [], ◌∷◌, ◌++◌, find, update, any, ◌≡◌, refl, ◌∙◌, ap,
  sym, subst, ◌≢◌, arith, inl, inr, Bool-cases, Option-cases,
}
use mini_wallet.Sql.{World, ok, sql, in_open_tx}
use mini_wallet.Sql.Transactions.{
  InTx, TxPost, DonePost, then-TxPost, or_else-TxPost, raise_if-TxPost, statement-TxPost,
  begin_tx-TxPost, look_up-TxPost, Found, at_now-TxPost,
}
use mini_wallet.Sql.Commits.{
  commit-DonePost, bind-DonePost, then-DonePost, or_else-DonePost, rolling_back-DonePost,
}
use mini_wallet.Sql.Steps.{
  bind_ok, then_ok, or_else_ok, rolling_back_ok, look_up_ok, begin_tx_ok, commit_ok,
}
use mini_wallet.Inbox.Table.{Message, MessageStatus, processing, completed, failed, has_id, Store}
use mini_wallet.Inbox.Repository.{
  scan_status, select_status, insert_ignore, reset_status, changing, record_message, run_process,
}

-- The message is in the table, and the others are as they were.
pub record Recorded (id : ℕ) (ms ms' : List Message) : Type 0 where
  pub present : any (has_id id) ms' ≡ true
  pub others : (j : ℕ) → j ≢ id → find (has_id j) ms' ≡ find (has_id j) ms

any_of_find :
    (id : ℕ) (m : Message) (ms : List Message)
    → find (has_id id) ms ≡ some m
    → any (has_id id) ms ≡ true
any_of_find id m [] e = cc
any_of_find id m (x ∷ ms) e = ground (arith, any_of_find id m ms)

any-reset_status :
    (id j : ℕ) (payload : List ℕ) (ms : List Message)
    → any (has_id j) (reset_status id payload ms) ≡ any (has_id j) ms
unfolding reset_status
any-reset_status id j payload [] = refl
any-reset_status id j payload (m ∷ ms) = ground (arith, any-reset_status id j payload ms)

find-update_other :
    (id j : ℕ) (f : Message → Message) (ms : List Message)
    → ((m : Message) → (f m).message_id ≡ m.message_id)
    → j ≢ id
    → find (has_id j) (update (has_id id) f ms) ≡ find (has_id j) ms
find-update_other id j f [] keeps h = refl
find-update_other id j f (m ∷ ms) keeps h =
    ground (arith, keeps m, find-update_other id j f ms keeps h)

any-append_self :
    (id : ℕ) (x : Message) (ms : List Message)
    → x.message_id ≡ id
    → any (has_id id) (ms ++ x ∷ []) ≡ true
any-append_self id x [] e = ground arith
any-append_self id x (m ∷ ms) e = ground (arith, any-append_self id x ms e)

find-append_other :
    (j : ℕ) (x : Message) (ms : List Message)
    → x.message_id ≢ j
    → find (has_id j) (ms ++ x ∷ []) ≡ find (has_id j) ms
find-append_other j x [] h = ground arith
find-append_other j x (m ∷ ms) h = ground (arith, find-append_other j x ms h)

insert_ignore-Recorded :
    (id : ℕ) (payload : List ℕ) (now : ℕ) (ms : List Message)
    → Recorded id ms (insert_ignore id payload now ms)
unfolding insert_ignore
insert_ignore-Recorded id payload now ms = elim (Bool-cases (any (has_id id) ms)) [
  | inl old ↦ record { present = rw (old, old); others = λ j h. rw old refl }
  | inr new ↦ record {
    present = rw new (any-append_self id _ ms refl);
    others = λ j h. rw new (find-append_other j _ ms (λ e. h (sym e)));
  }
]

reset_status-Recorded :
    (id : ℕ) (payload : List ℕ) (m : Message) (ms : List Message)
    → find (has_id id) ms ≡ some m
    → Recorded id ms (reset_status id payload ms)
unfolding reset_status
reset_status-Recorded id payload m ms e = record {
  present = any-reset_status id id payload ms ∙ any_of_find id m ms e;
  others = λ j h. find-update_other id j _ ms (λ x. refl) h;
}

reset_selected :
    (id : ℕ) (payload : List ℕ) (status : MessageStatus) (ms : List Message)
    → select_status id ms ≡ ok status
    → Recorded id ms (reset_status id payload ms)
reset_selected id payload status ms e = elim (Option-cases (find (has_id id) ms)) [
  | inl gone ↦ cc
  | inr (m, here) ↦ reset_status-Recorded id payload m ms here
]

-- The message processed anew, and the others as they are.
abbrev pub anew : ℕ → List ℕ → List Message → List Message
anew id payload =
    update (λ m. m.message_id == id)
      (λ m. record {
        message_id = m.message_id;
        status = processing;
        event_payload = payload;
        processing_started_at = m.processing_started_at;
        completed_at = m.completed_at;
      })

module _ {D : Type 0} (s : Store D) where
  open s use {rows, with_rows}

  -- The tables with only the messages changed, and those as `Recorded` says.
  pub record Records (id : ℕ) (d d' : D) : Type 0 where
    pub after : List Message
    pub tables : d' ≡ with_rows d after
    pub recorded : Recorded id (rows d) after

  changing-Records :
      {d t t' : D} {a : Unit {0}} (id : ℕ) (f : List Message → List Message)
      → t ≡ d
      → Recorded id (rows d) (f (rows d))
      → changing s f t ≡ (ok a, t')
      → Records id d t'
  changing-Records {d} id f same r e = record {
    after = f (rows d);
    tables = sym (ap (λ x. x.1) e) ∙ ap (λ x. with_rows x (f (rows x))) same;
    recorded = r;
  }

  record_message-TxPost :
      {now : ℕ} {d : D} (id : ℕ) (payload : List ℕ) (o : Option MessageStatus) (t : D) (w : World D)
      → InTx now d t w
      → t ≡ d
      → Found (select_status id (rows t)) o
      → TxPost now d (λ _. Records id d) (record_message s id payload o w)
  unfolding record_message
  record_message-TxPost {d} id payload none t w i same f = or_else-TxPost _ _ w (
      at_now-TxPost _ w (
        statement-TxPost _ t w i λ _ t'.
          changing-Records id (insert_ignore id payload w.now) same
            (insert_ignore-Recorded id payload w.now (rows d))))
  record_message-TxPost {d} id payload (some status) t w i same f =
      then-TxPost _ _ w (raise_if-TxPost _ _ _ w i) λ _ t₁ w₁ i₁ still. or_else-TxPost _ _ w₁ (
        statement-TxPost _ t₁ w₁ i₁ λ _ t'.
          changing-Records id (reset_status id payload) (still.0 ∙ same) (
            reset_selected id payload status (rows d)
              (subst (λ x. select_status id (rows x) ≡ ok status) same f)))

  -- Whichever calls fail, `RunProcess` returns nil with the message in the table, and with every
  -- other message and every other table as they were, or it returns an error and nothing has changed.
  pub run_process_outcome :
      (id : ℕ) (payload : List ℕ) (w : World D)
      → DonePost w.db (λ _. Records id w.db) (run_process s id payload w)
  unfolding run_process
  run_process_outcome id payload w =
      then-DonePost _ _ w (or_else-TxPost _ _ w (begin_tx-TxPost w)) λ _ t w₁ i₁ begun.
        rolling_back-DonePost _ w₁ (
          bind-DonePost _ _ w₁ (or_else-TxPost _ _ w₁ (look_up-TxPost _ t w₁ i₁)) λ o t₂ w₂ i₂ q.
            then-DonePost _ _ w₂
              (record_message-TxPost id payload o t₂ w₂ i₂ (q.0 ∙ begun)
                (subst (λ x. Found (select_status id (rows x)) o) (sym q.0) q.1))
              λ _ t₃ w₃ i₃ r. or_else-DonePost _ _ w₃ (commit-DonePost t₃ w₃ i₃ r))

  record_message-reset :
      (id now : ℕ) (payload : List ℕ) (status : MessageStatus) (d t : D)
      → record_message s id payload
          (some status)
          (record { db = d; tx = some t; faults = []; now = now })
        ≡ (
          ok tt,
          record {
            db = d;
            tx = some (with_rows t (reset_status id payload (rows t)));
            faults = [];
            now = now;
          },
        )
  unfolding record_message sql in_open_tx
  record_message-reset id now payload processing d t = refl
  record_message-reset id now payload completed d t = refl
  record_message-reset id now payload failed d t = refl

  -- Where every call goes through, a message whose id is in the table is accepted once more whatever
  -- its status, a completed one included: its row goes back to processing, with the new
  -- payload, and nothing else changes.
  pub run_process_reprocesses :
      (id now : ℕ) (payload : List ℕ) (m : Message) (d : D)
      → find (has_id id) (rows d) ≡ some m
      → run_process s id payload (record { db = d; tx = none; faults = []; now = now }) ≡ (
        ok tt,
        record { db = with_rows d (anew id payload (rows d)); tx = none; faults = []; now = now },
      )
  unfolding run_process reset_status
  run_process_reprocesses id now payload m d e =
      then_ok _ _ (or_else_ok _ _ (begin_tx_ok d now))
      ∙ rolling_back_ok _ (
          bind_ok _ _ (or_else_ok _ _ (look_up_ok _ d d now (ap scan_status e)))
          ∙ then_ok _ _ (record_message-reset id now payload m.status d d)
          ∙ or_else_ok _ _ (commit_ok d _ now))
