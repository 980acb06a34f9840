-- ===== src/Command/Daemons.antt =====
-- The ends of a command, and how its goroutines share the channel that tells them to stop.
pub mod Shutdown
use rdns_server.Base.{◌≡◌, List, Bytes, Option}
use rdns_server.Command.Environment.{Error}

-- The daemons that an Action starts.
pub data Daemon : Type 0 where
  metrics core_dns purger : Daemon
  -- http.ListenAndServe at this address
  http : Bytes → Daemon

-- An Action ends with an error, after which a deferred call closes what it opened, or it waits for its
-- daemons.
pub data Outcome (K B : Type 0) : Type 0 where
  stopped : Error → Option K → Outcome K B
  running : B → List Daemon → Outcome K B

-- The goroutine of the HTTP server: it serves, waits to send on `done` after an error, or has sent.
pub data Http : Type 0 where
  serving sending sent : Http

-- A goroutine that receives from `done`: it waits for a value, or has one and has returned.
pub data Receiver : Type 0 where
  waiting returned : Receiver

-- The goroutines of the command route53: Action itself, the metrics daemon and the purger's loop
-- (wait.JitterUntil), all of which receive from the one channel that the HTTP server sends to.
pub record Goroutines : Type 0 where
  pub http_server : Http
  pub main : Receiver
  pub metrics_loop : Receiver
  pub purge_loop : Receiver

abbrev pub launched : Goroutines
launched = record {
  http_server = serving;
  main = waiting;
  metrics_loop = waiting;
  purge_loop = waiting;
}

-- One step of one of them. The channel is not buffered: a value is handed to one receiver.
infix 40 ◌⟶◌ ◌⟶*◌
pub data ◌⟶◌ : Goroutines → Goroutines → Type 0 where
  -- http.ListenAndServe returns an error
  http_fails : {g : Goroutines} → g.http_server ≡ serving → g ⟶ record g { http_server = sending }
  to_main :
      {g : Goroutines}
      → g.http_server ≡ sending
      → g.main ≡ waiting
      → g ⟶ record g { http_server = sent; main = returned }
  to_metrics :
      {g : Goroutines}
      → g.http_server ≡ sending
      → g.metrics_loop ≡ waiting
      → g ⟶ record g { http_server = sent; metrics_loop = returned }
  to_purger :
      {g : Goroutines}
      → g.http_server ≡ sending
      → g.purge_loop ≡ waiting
      → g ⟶ record g { http_server = sent; purge_loop = returned }
  -- a round of one of the loops, which finds no value
  idles : {g : Goroutines} → g ⟶ g

pub data ◌⟶*◌ : Goroutines → Goroutines → Type 0 where
  no_step : {g : Goroutines} → g ⟶* g
  one_step : {g h k : Goroutines} → g ⟶ h → h ⟶* k → g ⟶* k
