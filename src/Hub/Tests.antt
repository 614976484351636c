-- ===== src/Hub/Tests.antt =====
-- A client that connects, on which the theorems about the hub are applied.
use mini_wallet.Base.{ℕ, [], ◌∷◌, none, ◌≡◌, refl, true}
use mini_wallet.Hub.{Hub, new_hub, channel_of, connect, disconnect, close, look_up, send}
use mini_wallet.Hub.Steps.{Reachable, start, after, connects}
use mini_wallet.Hub.Live.{Sound}
use mini_wallet.Hub.Open.{Reachable-bounded}
use mini_wallet.Hub.Races.{reconnect_races}

abbrev one_client : Hub
one_client = connect 7 new_hub

one_client-Reachable : Reachable one_client
one_client-Reachable = after start (connects 7)

Reachable-bounded_example :
    Sound one_client
    × ((user : ℕ) → (connect user one_client).panicked ≡ one_client.panicked)
    × ((close one_client).panicked ≡ one_client.panicked)
Reachable-bounded_example = Reachable-bounded one_client one_client-Reachable

reconnect_races_example :
    Reachable (disconnect 7 (connect 7 one_client))
    × (channel_of 7 (disconnect 7 (connect 7 one_client)) ≡ none)
    × Reachable (send (connect 7 (look_up 7 (104 ∷ []) one_client)))
    × ((send (connect 7 (look_up 7 (104 ∷ []) one_client))).panicked ≡ true)
unfolding connect
reconnect_races_example =
    reconnect_races one_client one_client-Reachable 7 (104 ∷ []) (record { user = 7; channel = 0 })
      refl
