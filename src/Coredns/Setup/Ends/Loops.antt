-- ===== src/Coredns/Setup/Ends/Loops.antt =====
-- When the loop of etcdParse does not end.
use rdns_server.Base.{ℕ, zero, suc, ◌≡◌, refl, ap, true, List, none, ok}
use rdns_server.Coredns.Setup.{
  Library, Config, Etcd, property, block, connected, etcd_parse, initial, zones_or, setup,
}
use rdns_server.Coredns.Setup.Ends.{Rounds, no_round, round}

module _ (lib : Library) where
  -- A controller that NextBlock leaves where it is, at a property that changes nothing.
  abbrev pub Idle : Config lib → lib.Controller → Type 0
  Idle cfg c = (lib.next_block c ≡ (true, c)) × (property lib (lib.val c) cfg c ≡ (ok cfg, c))

  -- Whatever the bound, it runs out.
  run_out :
      (fuel : ℕ) (cfg : Config lib) (c : lib.Controller)
      → Idle cfg c
      → block lib fuel cfg c ≡ (ok none, c)
  unfolding block
  run_out zero cfg c i = refl
  run_out (suc fuel) cfg c (held, same_here) =
      let again : property lib (lib.val (lib.next_block c).1) cfg (lib.next_block c).1
          ≡ (ok cfg, c) =
        rw held same_here in
      rw (block, ap (λ p. p.0) held, again) (run_out fuel cfg c (held, same_here))

  block-loops :
      (fuel : ℕ) (cfg x : Config lib) (c y : lib.Controller)
      → Rounds lib cfg c x y
      → Idle x y
      → (block lib fuel cfg c).0 ≡ ok none
  unfolding block
  block-loops zero cfg x c y r i = refl
  block-loops (suc fuel) _ _ _ _ (no_round cfg c) i = ap (λ p. p.0) (run_out (suc fuel) cfg c i)
  block-loops (suc fuel) _ _ _ _ (round cfg cfg' x c c' y e q r) i =
      rw (block, e, q) (block-loops fuel cfg' x c' y r i)

  etcd_parse-loops :
      (fuel : ℕ) (c d : lib.Controller) (x : Config lib) (y : lib.Controller)
      → lib.next c ≡ (true, d)
      → Rounds lib
          (initial lib (zones_or lib (lib.server_block_keys d) (lib.remaining_args d).0))
          (lib.remaining_args d).1
          x
          y
      → Idle x y
      → (etcd_parse lib fuel c).0 ≡ ok none
  unfolding etcd_parse connected
  etcd_parse-loops fuel c d x y n r i =
      rw (etcd_parse, n, block-loops fuel _ x (lib.remaining_args d).1 y r i) refl

  -- Setup never ends, whatever the number of rounds, where rounds of the loop that all go well lead from
  -- the plugin's block to a controller that NextBlock leaves where it is, at a property that
  -- changes nothing.
  pub setup-loops :
      (fuel : ℕ) (plugins : List (Etcd lib)) (c d : lib.Controller) (x : Config lib)
      (y : lib.Controller)
      → lib.next c ≡ (true, d)
      → Rounds lib
          (initial lib (zones_or lib (lib.server_block_keys d) (lib.remaining_args d).0))
          (lib.remaining_args d).1
          x
          y
      → Idle x y
      → (setup lib fuel plugins c).0 ≡ ok none
  unfolding setup
  setup-loops fuel plugins c d x y n r i = rw (setup, etcd_parse-loops fuel c d x y n r i) refl
