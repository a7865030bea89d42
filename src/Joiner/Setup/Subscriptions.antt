-- ===== src/Joiner/Setup/Subscriptions.antt =====
-- The stream information that the controller writes is what `get_subscription` reads.
use streaming_runtime_go.Prelude.{ℕ, Text, Lacks, split-append, split-Lacks, ◌∷◌, ◌++◌, ok, ◌≡◌}
use streaming_runtime_go.Joiner.Setup.{get_subscription}

abbrev pub bar : ℕ
bar = b'|'

-- `fmt.Sprintf("%s|%s|%s", …)`
abbrev pub bar_separated : Text → Text → Text → Text
bar_separated pubsub topic route = pubsub ++ bar ∷ (topic ++ bar ∷ route)

-- The three parts of a stream information, none of which holds a bar, are read back.
pub get_subscription_lem :
    (pubsub topic route : Text)
    → Lacks bar pubsub
    → Lacks bar topic
    → Lacks bar route
    → get_subscription (bar_separated pubsub topic route)
      ≡ ok (record { pubsub_name = pubsub; topic = topic; route = route })
unfolding get_subscription
get_subscription_lem pubsub topic route hp ht hr = rw (
  split-append pubsub (topic ++ bar ∷ route) bar hp,
  split-append topic route bar ht,
  split-Lacks route bar hr,
)
