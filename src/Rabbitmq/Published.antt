-- ===== src/Rabbitmq/Published.antt =====
-- What a publisher's answer means (pkg/rabbitmq/publisher.go).
use mini_wallet.Base.{
  List, [], ◌∷◌, ◌++◌, Bool, true, false, ◌≡◌, refl, sym, ap, ◌∙◌, Bool-cases, inl, inr, ◌⊎◌,
}
use mini_wallet.RichError.{Error}
use mini_wallet.Sql.{World, Result, ok, err, exec, is_nil}
use mini_wallet.Sql.Calls.{Post, exec-Post, then-Post, or_else-Post, call-Post}
use mini_wallet.Rabbitmq.Publisher.{Published, publish_with_context, retried, publish}

-- With nil, `PublishWithContext` has returned nil for the message once more than before, with an
-- error no more often.
abbrev pub Reports :
    Published → List Published → Result (Unit {0}) × World (List Published) → Type 0
Reports p before r = Post (λ _ w'. w'.db ≡ before ++ p ∷ []) (λ _ w'. w'.db ≡ before) r

abbrev accept : Published → List Published → Result (Unit {0}) × List Published
accept p ps = (ok tt, ps ++ p ∷ [])

accepted :
    (p : Published) (w : World (List Published)) (r : Result (Unit {0}) × World (List Published))
    → Post
        (λ a w'. (accept p w.db ≡ (ok a, w'.db)) × (w'.tx ≡ w.tx) × (w'.now ≡ w.now))
        (λ e w'. ((w'.db ≡ w.db) × (is_nil e ≡ false)) ⊎ (accept p w.db ≡ (err e, w'.db)))
        r
    → Reports p w.db r
accepted p w (ok a, w') h = record { holds = sym (ap (λ x. x.1) h.holds.0) }
accepted p w (err e, w') h = elim h.holds [ inl same ↦ record { holds = same.0 } | inr made ↦ cc ]

publish_with_context-Reports :
    (p : Published) (w : World (List Published)) → Reports p w.db (publish_with_context p w)
unfolding publish_with_context
publish_with_context-Reports p w = accepted p w (exec _ w) (exec-Post _ w)

moved_on :
    (p : Published) (before : List Published) (w : World (List Published))
    → w.db ≡ before
    → (r : Result (Unit {0}) × World (List Published)) → Reports p w.db r
    → Reports p before r
moved_on p before w e (ok a, w') h = record { holds = h.holds ∙ ap (λ ps. ps ++ p ∷ []) e }
moved_on p before w e (err x, w') h = record { holds = h.holds ∙ e }

module _ (is_channel_error : Error → Bool) where
  retried-Reports :
      (closed : Bool) (p : Published) (before : List Published)
      (r : Result (Unit {0}) × World (List Published))
      → Reports p before r
      → Reports p before (retried is_channel_error closed p r)
  unfolding retried
  retried-Reports closed p before (ok a, w) h = record { holds = h.holds }
  retried-Reports closed p before (err e, w) h = elim (Bool-cases (is_channel_error e)) [
    | inr other ↦ rw other (record { holds = h.holds })
    | inl lost ↦ rw lost (
        then-Post _ _ w (or_else-Post _ _ w (call-Post w) (λ x w' k. k.0.db ∙ h.holds))
          (λ x w' k. k)
          λ _ w₁ k. moved_on p before w₁ (k.db ∙ h.holds) _ (publish_with_context-Reports p w₁))
  ]

  -- A publisher answers nil exactly where one call of `PublishWithContext` with the message has
  -- returned nil, also where it tried again on a new channel, and then no second call has; where it
  -- answers an error, no call has returned nil. (Nothing confirms that the broker has the message.)
  pub publish-Reports :
      (closed : Bool) (p : Published) (w : World (List Published))
      → Reports p w.db (publish is_channel_error closed p w)
  unfolding publish
  publish-Reports true p w = record { holds = refl }
  publish-Reports false p w =
      retried-Reports false p w.db (publish_with_context p w) (publish_with_context-Reports p w)
