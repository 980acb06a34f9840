-- ===== src/Coredns/Setup/Ends/Examples.antt =====
-- Setup run over the tokens of a server block, as Caddy's dispenser gives them.
use rdns_server.Base.{
  ◌≤◌, ◌<◌, ◌≡◌, refl, Bool, true, false, List, [], ◌∷◌, ◌++◌, Bytes, codes, length, same,
  if◌then◌else◌, ok, err, none, some, Bool-cases, ◌⊎◌, inl, inr, arith,
}
use rdns_server.Coredns.Setup.{Library, Config, Etcd, Error, initial, setup}
use rdns_server.Coredns.Setup.Ends.{
  Consumes, Rounds, no_round, round, Unclosed, first_config, setup-ends,
}
use rdns_server.Coredns.Setup.Ends.Loops.{setup-loops}

-- A token, and whether it begins a line.
abbrev Token : Type 0
Token = Bool × Bytes

-- Whether a block is open, the token that is read, and those that follow.
abbrev Tokens : Type 0
Tokens = Bool × (Bytes × List Token)

abbrev advance : Tokens → Bool × Tokens
advance (b, (w, [])) = (false, (b, (w, [])))
advance (b, (w, (l, v) ∷ ts)) = (true, (b, (v, ts)))

abbrev advance_on_line : Tokens → Bool × Tokens
advance_on_line (b, (w, [])) = (false, (b, (w, [])))
advance_on_line (b, (w, (true, v) ∷ ts)) = (false, (b, (w, (true, v) ∷ ts)))
advance_on_line (b, (w, (false, v) ∷ ts)) = (true, (b, (v, ts)))

abbrev rest_of_line : Bytes → List Token → List Bytes × (Bytes × List Token)
rest_of_line w [] = ([], (w, []))
rest_of_line w ((true, v) ∷ ts) = ([], (w, (true, v) ∷ ts))
rest_of_line w ((false, v) ∷ ts) =
    let rest = rest_of_line v ts in
    if same v (codes "{") then ([], (w, (false, v) ∷ ts)) else (v ∷ rest.0, rest.1)

-- Is the token that was moved to the end of the block?
abbrev within : Bytes × List Token → Bool × Tokens
within (v, ts) = if same v (codes "}") then (false, (false, (v, ts))) else (true, (true, (v, ts)))

abbrev begin_block : Bytes → List Token → Bool × Tokens
begin_block w [] = (false, (false, (w, [])))
begin_block w ((true, v) ∷ ts) = (false, (false, (w, (true, v) ∷ ts)))
begin_block w ((false, v) ∷ ts) =
    if same v (codes "{")
    then within (advance (false, (v, ts))).1.1
    else (false, (false, (w, (false, v) ∷ ts)))

abbrev advance_in_block : Tokens → Bool × Tokens
advance_in_block (false, (w, ts)) = begin_block w ts
advance_in_block (true, (w, ts)) = within (advance (true, (w, ts))).1.1

abbrev caddy : Library
caddy = record {
  Controller = Tokens;
  Fall = List Bytes;
  Tls = Bytes;
  Upstream = Unit;
  Client = List Bytes;
  next = advance;
  next_block = advance_in_block;
  next_arg = advance_on_line;
  remaining_args = λ c. ((rest_of_line c.1.0 c.1.1).0, (c.0, (rest_of_line c.1.0 c.1.1).1));
  val = λ c. c.1.0;
  server_block_keys = λ c. codes "." ∷ [];
  normalize = λ z. z ++ codes ".";
  no_fall = [];
  fall_of = λ zs. zs;
  new_tls = λ files. err (codes "no files");
  new_upstream = tt;
  new_client = λ cfg. ok cfg.endpoints;
}

-- `rdns lb.cloud {`, `path } debug`: the brace that would close the block is the value of `path`.
abbrev swallowed : Tokens
swallowed = (
  false,
  (
    [],
    (true, codes "rdns")
        ∷ (false, codes "lb.cloud")
        ∷ (false, codes "{")
        ∷ (true, codes "path")
        ∷ (false, codes "}")
        ∷ (false, codes "debug")
        ∷ [],
  ),
)

abbrev at_end : Tokens
at_end = (true, (codes "debug", []))

-- At the plugin's name, and at its last argument.
abbrev named : Tokens
named = (
  false,
  (
    codes "rdns",
    (false, codes "lb.cloud")
        ∷ (false, codes "{")
        ∷ (true, codes "path")
        ∷ (false, codes "}")
        ∷ (false, codes "debug")
        ∷ [],
  ),
)

abbrev started : Tokens
started = (
  false,
  (
    codes "lb.cloud",
    (false, codes "{") ∷ (true, codes "path") ∷ (false, codes "}") ∷ (false, codes "debug") ∷ [],
  ),
)

abbrev after_path : Tokens
after_path = (true, (codes "}", (false, codes "debug") ∷ []))

abbrev plain : Config caddy
plain = initial caddy (codes "lb.cloud." ∷ [])

abbrev with_path : Config caddy
with_path = record plain { path_prefix = codes "}" }

rounds : Rounds caddy plain started with_path at_end
unfolding initial same rdns_server.Coredns.Setup.property
rounds = round plain with_path with_path started after_path at_end refl refl (
    round with_path with_path with_path after_path at_end at_end refl refl
      (no_round with_path at_end))

setup-loops_example : (setup caddy 99 [] swallowed).0 ≡ ok none
unfolding same rdns_server.Coredns.Setup.zones_or rdns_server.Coredns.Setup.property
setup-loops_example =
    setup-loops caddy 99 [] swallowed named with_path at_end refl rounds (refl, refl)

no_truth : {A : Type 0} → false ≡ true → A
no_truth e = absurd cc

within-left : (v : Bytes) (ts : List Token) → length (within (v, ts)).1.1.1 ≡ length ts
within-left v ts = elim (Bool-cases (same v (codes "}"))) [ inl e ↦ rw e refl | inr e ↦ rw e refl ]

within-true :
    (v : Bytes) (ts : List Token)
    → (within (v, ts)).0 ≡ true
    → within (v, ts) ≡ (true, (true, (v, ts)))
within-true v ts h = elim (Bool-cases (same v (codes "}"))) [
  | inl e ↦ no_truth (rw e at h)
  | inr e ↦ rw e refl
]

consumes : Consumes caddy
unfolding same
consumes = record {
  left = λ c. length c.1.1;
  left-next = next_lem;
  left-next_arg = arg_lem;
  left-remaining_args = λ c. line_lem c.1.0 c.1.1;
  left-next_block = block_lem;
}
  where
    next_lem : (c : Tokens) → length (advance c).1.1.1 ≤ length c.1.1
    next_lem (b, (w, [])) = omega arith
    next_lem (b, (w, (l, v) ∷ ts)) = omega arith

    arg_lem : (c : Tokens) → length (advance_on_line c).1.1.1 ≤ length c.1.1
    arg_lem (b, (w, [])) = omega arith
    arg_lem (b, (w, (true, v) ∷ ts)) = omega arith
    arg_lem (b, (w, (false, v) ∷ ts)) = omega arith

    line_lem : (w : Bytes) (ts : List Token) → length (rest_of_line w ts).1.1 ≤ length ts
    line_lem w [] = omega arith
    line_lem w ((true, v) ∷ ts) = omega arith
    line_lem w ((false, v) ∷ ts) = ground (arith, line_lem v ts)

    block_lem :
        (c : Tokens)
        → (advance_in_block c).0 ≡ true
        → (length (advance_in_block c).1.1.1 < length c.1.1)
          ⊎ ((length c.1.1 ≡ 0) × (advance_in_block c ≡ (true, c)))
    block_lem (false, (w, [])) h = absurd cc
    block_lem (false, (w, (true, v) ∷ ts)) h = absurd cc
    block_lem (false, (w, (false, v) ∷ [])) h = elim (Bool-cases (same v (codes "{"))) [
      | inl e ↦ rw e (inl (omega (arith, within-left v [])))
      | inr e ↦ no_truth (rw e at h)
    ]
    block_lem (false, (w, (false, v) ∷ (l, x) ∷ ts)) h = elim (Bool-cases (same v (codes "{"))) [
      | inl e ↦ rw e (inl (omega (arith, within-left x ts)))
      | inr e ↦ no_truth (rw e at h)
    ]
    block_lem (true, (w, [])) h = inr (refl, within-true w [] h)
    block_lem (true, (w, (l, x) ∷ ts)) h = inl (omega (arith, within-left x ts))

-- A block with an unknown property.
abbrev unknown_word : Tokens
unknown_word = (
  false,
  (
    [],
    (true, codes "rdns")
        ∷ (false, codes "lb.cloud")
        ∷ (false, codes "{")
        ∷ (true, codes "wildcards")
        ∷ (false, codes "4")
        ∷ (true, codes "}")
        ∷ [],
  ),
)

enough : consumes.left unknown_word < 9
unfolding consumes
enough = omega arith

setup-ends_example :
    ((e : Etcd caddy) × ((setup caddy 9 [] unknown_word).0 ≡ ok (some (e ∷ []))))
    ⊎ ((x : Error) × ((setup caddy 9 [] unknown_word).0
          ≡ err (record { plugin = codes "rdns"; error = x })))
    ⊎ Unclosed caddy consumes
        (first_config caddy consumes (caddy.next unknown_word).1)
        (caddy.remaining_args (caddy.next unknown_word).1).1
setup-ends_example = setup-ends caddy consumes 9 [] unknown_word enough
