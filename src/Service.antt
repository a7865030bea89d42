-- ===== src/Service.antt =====
-- The last call of `main` in components/channel, components/joiner and examples/message-proc:
-- `svc.Start` of dapr's service, whose answer is a parameter.
use streaming_runtime_go.Prelude.{Text, Outcome, ok, fail, panic, Error, Bool, if◌then◌else◌, wrap}

-- `if err := svc.Start(); err != nil && err != http.ErrServerClosed { log.Fatalf(…) }`
unfoldable pub serve : (Error → Bool) → Text → Outcome (Unit {0}) → Outcome (Unit {0})
serve is_server_closed prefix (ok u) = ok tt
serve is_server_closed prefix (fail e) = if is_server_closed e then ok tt else wrap prefix (fail e)
serve is_server_closed prefix (panic m) = panic m
