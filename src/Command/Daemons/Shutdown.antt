-- ===== src/Command/Daemons/Shutdown.antt =====
-- What the one value on the channel `done` can stop.
use rdns_server.Base.{ℕ, ◌+◌, ◌≡◌, refl, arith}
use rdns_server.Command.Daemons.{
  Http, serving, sending, sent, Receiver, waiting, returned, Goroutines, launched, ◌⟶◌, ◌⟶*◌,
  http_fails, to_main, to_metrics, to_purger, idles, no_step, one_step,
}

unfoldable pub has_returned : Receiver → ℕ
has_returned waiting = 0
has_returned returned = 1

-- How many of the three have returned.
unfoldable pub returns : Goroutines → ℕ
unfolding has_returned
returns g = has_returned g.main + has_returned g.metrics_loop + has_returned g.purge_loop

unfoldable pub values_sent : Http → ℕ
values_sent serving = 0
values_sent sending = 0
values_sent sent = 1

⟶-returns :
    (g h : Goroutines)
    → g ⟶ h
    → returns g ≡ values_sent g.http_server
    → returns h ≡ values_sent h.http_server
unfolding returns has_returned values_sent
⟶-returns g h (http_fails e) i = ground arith
⟶-returns g h (to_main e w) i = ground arith
⟶-returns g h (to_metrics e w) i = ground arith
⟶-returns g h (to_purger e w) i = ground arith
⟶-returns g h idles i = i

⟶*-returns :
    (g h : Goroutines)
    → g ⟶* h
    → returns g ≡ values_sent g.http_server
    → returns h ≡ values_sent h.http_server
⟶*-returns g h no_step i = i
⟶*-returns g h (one_step {h = k} s r) i = ⟶*-returns k h r (⟶-returns g k s i)

-- However the goroutines of the command interleave, as many of Action, the metrics daemon and the purger
-- have returned as values were sent: none before the HTTP server failed, and one of the three after.
pub launched-returns : (g : Goroutines) → launched ⟶* g → returns g ≡ values_sent g.http_server
unfolding returns has_returned values_sent
launched-returns g r = ⟶*-returns launched g r refl

-- A value that another goroutine took is gone: once the HTTP server has sent it and Action did not get it,
-- Action waits whatever happens, and the process runs on without its HTTP server.
pub main-waits :
    (g h : Goroutines)
    → g ⟶* h
    → g.http_server ≡ sent
    → g.main ≡ waiting
    → (h.http_server ≡ sent) × (h.main ≡ waiting)
main-waits g h no_step s w = (s, w)
main-waits g h (one_step {h = k} (http_fails e) r) s w = absurd cc
main-waits g h (one_step {h = k} (to_main e _) r) s w = absurd cc
main-waits g h (one_step {h = k} (to_metrics e _) r) s w = absurd cc
main-waits g h (one_step {h = k} (to_purger e _) r) s w = absurd cc
main-waits g h (one_step {h = k} idles r) s w = main-waits k h r s w
