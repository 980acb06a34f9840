-- ===== src/Coredns/Setup/Ends.antt =====
-- When the loop of etcdParse ends: each of its rounds takes a token, while there are tokens.
pub mod Loops
pub mod Examples
use rdns_server.Base.{
  ℕ, zero, suc, ◌≤◌, ◌<◌, ◌≡◌, ◌≢◌, refl, Bool, Bool-cases, Bool, Bool-cases, true, false, codes,
  inl, inr, List, [], ◌∷◌, ◌++◌, ◌⊎◌, Bytes, Option, none, some, ok, err, Result, if◌then◌else◌,
  length, ◌==◌, arith,
}
use rdns_server.Base.Exec.{Exec-cases, lift, or_raise, ◌>>=◌, continue}
use rdns_server.Coredns.Setup.{
  Library, Config, Etcd, Error, Read, args, next_arg_or_raise, args_or_raise, failing, set_fall,
  set_path, set_endpoints, set_upstream, set_tls, set_credentials, set_bound, property, block,
  connected, new_etcd_client, etcd_parse, in_block, initial, zones_or, setup,
}

-- The tokens that a controller has left: no method gives one back that it did not take, and NextBlock
-- takes one if it succeeds, or else there is none left and it stays where it is, in a block that is not
-- closed.
pub record Consumes (lib : Library) : Type 0 where
  pub left : lib.Controller → ℕ
  pub left-next : (c : lib.Controller) → left (lib.next c).1 ≤ left c
  pub left-next_arg : (c : lib.Controller) → left (lib.next_arg c).1 ≤ left c
  pub left-remaining_args : (c : lib.Controller) → left (lib.remaining_args c).1 ≤ left c
  pub left-next_block :
      (c : lib.Controller)
      → (lib.next_block c).0 ≡ true
      → (left (lib.next_block c).1 < left c) ⊎ ((left c ≡ 0) × (lib.next_block c ≡ (true, c)))

-- Rounds of the loop over the properties, which all went well, from a configuration and a controller to
-- others.
pub data Rounds (lib : Library)
    : Config lib → lib.Controller → Config lib → lib.Controller → Type 0 where
  no_round : (cfg : Config lib) (c : lib.Controller) → Rounds lib cfg c cfg c
  round :
      (cfg cfg' x : Config lib) (c c' y : lib.Controller)
      → (lib.next_block c).0 ≡ true
      → property lib (lib.val (lib.next_block c).1) cfg (lib.next_block c).1 ≡ (ok cfg', c')
      → Rounds lib cfg' c' x y
      → Rounds lib cfg c x y

module _ (lib : Library) (laws : Consumes lib) where
  -- The action gives no token back.
  unfoldable Takes : {A : Type 0} → Read lib A → Type 0
  Takes m = (c : lib.Controller) → laws.left (m c).1 ≤ laws.left c

  module _ {A B : Type 0} (f : A → Read lib B) (k : (a : A) → Takes (f a)) where
    continue-Takes :
        (r : Result Error A) (c : lib.Controller) → laws.left (continue r f c).1 ≤ laws.left c
    unfolding Takes
    continue-Takes (ok a) c = k a c
    continue-Takes (err x) c = omega arith

    >>=-Takes : (m : Read lib A) → Takes m → Takes (m >>= f)
    unfolding Takes
    >>=-Takes m h c = omega (arith, continue-Takes (m c).0 (m c).1, h c)

  stays : {A : Type 0} (r : Result Error A) → Takes (lift r)
  unfolding Takes
  stays r c = omega arith

  or_raise-Takes : {A : Type 0} (x : Error) (o : Option A) → Takes (or_raise x o)
  unfolding Takes
  or_raise-Takes x none c = omega arith
  or_raise-Takes x (some a) c = omega arith

  failing-Takes : {A : Type 0} (r : Result Bytes A) → Takes (failing lib r)
  unfolding Takes
  failing-Takes (ok a) c = omega arith
  failing-Takes (err x) c = omega arith

  next_arg_or_raise-Takes : Takes (next_arg_or_raise lib)
  unfolding Takes
  next_arg_or_raise-Takes c = elim (Bool-cases (lib.next_arg c).0) [
    | inl e ↦ rw e (laws.left-next_arg c)
    | inr e ↦ rw e (laws.left-next_arg c)
  ]

  args_or_raise-Takes : Takes (args_or_raise lib)
  unfolding Takes
  args_or_raise-Takes c = elim (Bool-cases (length (lib.remaining_args c).0 == 0)) [
    | inl e ↦ rw e (laws.left-remaining_args c)
    | inr e ↦ rw e (laws.left-remaining_args c)
  ]

  args-Takes : Takes (args lib)
  unfolding Takes
  args-Takes c = laws.left-remaining_args c

  if-Takes :
      {A : Type 0} (b : Bool) (m n : Read lib A) → Takes m → Takes n → Takes (if b then m else n)
  if-Takes true m n hm hn = hm
  if-Takes false m n hm hn = hn

  set_fall-Takes : (cfg : Config lib) → Takes (set_fall lib cfg)
  set_fall-Takes cfg = search (>>=-Takes, stays, args-Takes)

  set_upstream-Takes : (cfg : Config lib) → Takes (set_upstream lib cfg)
  set_upstream-Takes cfg = search (>>=-Takes, stays, args-Takes)

  set_path-Takes : (cfg : Config lib) → Takes (set_path lib cfg)
  set_path-Takes cfg = search (>>=-Takes, stays, next_arg_or_raise-Takes)

  set_endpoints-Takes : (cfg : Config lib) → Takes (set_endpoints lib cfg)
  set_endpoints-Takes cfg = search (>>=-Takes, stays, args_or_raise-Takes)

  set_tls-Takes : (cfg : Config lib) → Takes (set_tls lib cfg)
  set_tls-Takes cfg = search (>>=-Takes, stays, failing-Takes, args-Takes) depth 8

  set_credentials-Takes : (cfg : Config lib) → Takes (set_credentials lib cfg)
  set_credentials-Takes cfg = search (>>=-Takes, stays, args_or_raise-Takes) depth 8

  set_bound-Takes : (cfg : Config lib) → Takes (set_bound lib cfg)
  set_bound-Takes cfg = search (>>=-Takes, stays, or_raise-Takes, next_arg_or_raise-Takes) depth 8

  property-Takes : (p : Bytes) (cfg : Config lib) → Takes (property lib p cfg)
  unfolding property
  property-Takes p cfg =
      search
        (
          if-Takes, stays, set_fall-Takes, set_path-Takes, set_endpoints-Takes, set_upstream-Takes,
          set_tls-Takes, set_credentials-Takes, set_bound-Takes,
        )
        depth 16

  -- Rounds that went well lead to the end of the tokens, in a block that is not closed.
  abbrev pub Unclosed : Config lib → lib.Controller → Type 0
  Unclosed cfg c =
      (x : Config lib) × (y : lib.Controller) × Rounds lib cfg c x y
      × (laws.left y ≡ 0)
      × (lib.next_block y ≡ (true, y))

  -- What follows an action never runs out of rounds, so neither do the two together.
  continue-ne :
      {A B : Type 0} (f : A → Read lib (Option B)) (r : Result Error A) (c : lib.Controller)
      → ((a : A) → (f a c).0 ≢ ok none)
      → (continue r f c).0 ≢ ok none
  continue-ne f (ok a) c h = h a
  continue-ne f (err x) c h = λ e. cc

  block-ends :
      (fuel : ℕ) (cfg : Config lib) (c : lib.Controller)
      → laws.left c < fuel
      → ((block lib fuel cfg c).0 ≢ ok none) ⊎ Unclosed cfg c
  unfolding Takes block
  block-ends zero cfg c h = absurd (omega arith)
  block-ends (suc fuel) cfg c h = elim (Bool-cases (lib.next_block c).0) [
    | inr e ↦ inl (rw (block, e) (λ p. cc))
    | inl e ↦ elim (laws.left-next_block c e) [
      | inr (out, stays_here) ↦ inr (cfg, c, no_round cfg c, out, stays_here)
      | inl fewer ↦
          let d = (lib.next_block c).1 in
          elim (Exec-cases (property lib (lib.val d) cfg) d) [
            | inr (x, u, q) ↦ inl (rw (block, e, q) (λ p. cc))
            | inl (cfg', u, q) ↦
                let takes : laws.left (property lib (lib.val d) cfg d).1 ≤ laws.left d =
                  property-Takes (lib.val d) cfg d in
                elim (block-ends fuel cfg' u (omega (arith, fewer, rw q at takes))) [
                  | inl ends ↦ inl (rw (block, e, q) ends)
                  | inr (x, y, rounds, out, unclosed) ↦
                      inr (x, y, round cfg cfg' x c u y e q rounds, out, unclosed)
                ]
          ]
    ]
  ]

  connected-ne :
      (r : Result Error (Option (Config lib))) (c : lib.Controller)
      → r ≢ ok none
      → (continue r (connected lib) c).0 ≢ ok none
  unfolding connected
  connected-ne (err x) c h = λ e. cc
  connected-ne (ok none) c h = absurd (h refl)
  connected-ne (ok (some cfg)) c h =
      let client =
        failing lib (new_etcd_client lib cfg.endpoints cfg.tls cfg.username cfg.password) c in
      continue-ne _ client.0 client.1 (λ k. λ e. cc)

  -- The configuration and the controller that the first round starts from, once the plugin's name is read.
  abbrev pub first_config : lib.Controller → Config lib
  first_config d = initial lib (zones_or lib (lib.server_block_keys d) (lib.remaining_args d).0)

  etcd_parse-ends :
      (fuel : ℕ) (c : lib.Controller)
      → laws.left c < fuel
      → ((etcd_parse lib fuel c).0 ≢ ok none)
        ⊎ Unclosed (first_config (lib.next c).1) (lib.remaining_args (lib.next c).1).1
  unfolding etcd_parse
  etcd_parse-ends fuel c h = elim (Bool-cases (lib.next c).0) [
    | inr e ↦ inl (rw e (λ p. cc))
    | inl e ↦
        let d = (lib.next c).1 in
        let u = (lib.remaining_args d).1 in
        let read = block lib fuel (first_config d) u in
        elim (block-ends fuel (first_config d) u
          (omega (arith, laws.left-remaining_args d, laws.left-next c))) [
            | inl ends ↦ inl (rw e (connected-ne read.0 read.1 ends))
            | inr unclosed ↦ inr unclosed
          ]
  ]

  -- With a round for each token that is left, and one more, Setup ends: the server has one more plugin, the
  -- last, or the result is an error under the plugin's name; unless the rounds of its loop, which
  -- all went well, lead to the end of the tokens in a block that is not closed.
  pub setup-ends :
      (fuel : ℕ) (plugins : List (Etcd lib)) (c : lib.Controller)
      → laws.left c < fuel
      → ((e : Etcd lib) × ((setup lib fuel plugins c).0 ≡ ok (some (plugins ++ e ∷ []))))
        ⊎ ((x : Error) × ((setup lib fuel plugins c).0
              ≡ err (record { plugin = codes "rdns"; error = x })))
        ⊎ Unclosed (first_config (lib.next c).1) (lib.remaining_args (lib.next c).1).1
  unfolding setup
  setup-ends fuel plugins c h = made (etcd_parse lib fuel c).0 refl
    where
      made :
          (r : Result Error (Option (Etcd lib)))
          → (etcd_parse lib fuel c).0 ≡ r
          → ((e : Etcd lib) × ((setup lib fuel plugins c).0 ≡ ok (some (plugins ++ e ∷ []))))
            ⊎ ((x : Error) × ((setup lib fuel plugins c).0
                  ≡ err (record { plugin = codes "rdns"; error = x })))
            ⊎ Unclosed (first_config (lib.next c).1) (lib.remaining_args (lib.next c).1).1
      made (ok (some e)) p = inl (e, rw (setup, p) refl)
      made (ok none) p = elim (etcd_parse-ends fuel c h) [
        | inl q ↦ absurd (q p)
        | inr q ↦ inr (inr q)
      ]
      made (err x) p = inr (inl (x, rw (setup, p) refl))
