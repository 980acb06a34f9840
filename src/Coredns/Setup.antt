-- ===== src/Coredns/Setup.antt =====
-- coredns/plugin/rdns/setup.go: the plugin's block of the Corefile, read into an ETCD.
pub mod Ends
pub mod Lines
pub mod Examples
use rdns_server.Base.{
  ℕ, zero, suc, ◌==◌, Bool, true, false, not, ◌&&◌, List, [], ◌∷◌, ◌++◌, map, Option, none, some,
  Bytes, codes, length, same, if◌then◌else◌, Result, ok, err,
}
use rdns_server.Base.Int.{ℤ, pos, negsuc}
use rdns_server.Base.Exec.{Exec, pure, raise, lift, or_raise, ◌>>=◌}
use rdns_server.Text.Numbers.{parse_int}

-- clientv3.Config
pub record ClientConfig (T : Type 0) : Type 0 where
  pub endpoints : List Bytes
  pub tls : Option T
  pub username : Bytes
  pub password : Bytes

-- What the code calls: the tokens of a caddy.Controller, fall.SetZonesFromArgs on the value of a
-- fresh F, tls.NewTLSConfigFromArgs, upstream.New, clientv3.New, and Host.Normalize.
pub record Library : Type 1 where
  pub Controller : Type 0
  pub Fall : Type 0
  pub Tls : Type 0
  pub Upstream : Type 0
  pub Client : Type 0
  pub next : Controller → Bool × Controller
  pub next_block : Controller → Bool × Controller
  pub next_arg : Controller → Bool × Controller
  pub remaining_args : Controller → List Bytes × Controller
  pub val : Controller → Bytes
  pub server_block_keys : Controller → List Bytes
  pub normalize : Bytes → Bytes
  pub no_fall : Fall
  pub fall_of : List Bytes → Fall
  pub new_tls : List Bytes → Result Bytes Tls
  pub new_upstream : Upstream
  pub new_client : ClientConfig Tls → Result Bytes Client

pub data Error : Type 0 where
  -- c.ArgErr(), at this token
  arg_err : Bytes → Error
  not_two_credentials : Error
  bad_number : Bytes → Error
  negative_bound : ℤ → Error
  unknown_property : Bytes → Error
  -- an error of a library
  failed : Bytes → Error

-- plugin.Error(name, err)
pub record PluginError : Type 0 where
  pub plugin : Bytes
  pub error : Error

abbrev pub default_endpoint : Bytes
default_endpoint = codes "http://localhost:2379"

-- `int8(v)`, where v is not negative.
unfoldable pub bound_of : ℤ → Result Error ℕ
bound_of (pos n) = ok n
bound_of (negsuc n) = err (negative_bound (negsuc n))

module _ (lib : Library) where
  -- The fields of the ETCD that etcdParse fills, and its other variables.
  pub record Config : Type 0 where
    pub zones : List Bytes
    pub path_prefix : Bytes
    pub fall : lib.Fall
    pub upstream : Option lib.Upstream
    pub wildcard_bound : ℕ
    pub tls : Option lib.Tls
    pub endpoints : List Bytes
    pub username : Bytes
    pub password : Bytes

  pub record Etcd : Type 0 where
    pub zones : List Bytes
    pub path_prefix : Bytes
    pub fall : lib.Fall
    pub upstream : Option lib.Upstream
    pub wildcard_bound : ℕ
    pub client : Option lib.Client
    pub endpoints : List Bytes

  abbrev pub Read : Type 0 → Type 0
  Read A = Exec Error lib.Controller A

  unfoldable pub initial : List Bytes → Config
  initial zones = record {
    zones = zones;
    path_prefix = codes "skydns";
    fall = lib.no_fall;
    upstream = none;
    wildcard_bound = 0;
    tls = none;
    endpoints = default_endpoint ∷ [];
    username = [];
    password = [];
  }

  abbrev pub no_etcd : Etcd
  no_etcd = record {
    zones = [];
    path_prefix = [];
    fall = lib.no_fall;
    upstream = none;
    wildcard_bound = 0;
    client = none;
    endpoints = [];
  }

  abbrev pub args : Read (List Bytes)
  args c = (ok (lib.remaining_args c).0, (lib.remaining_args c).1)

  -- `if !c.NextArg() { return ..., c.ArgErr() }` and c.Val()
  abbrev pub next_arg_or_raise : Read Bytes
  next_arg_or_raise c =
      let (found, d) = lib.next_arg c in
      if found then (ok (lib.val d), d) else (err (arg_err (lib.val d)), d)

  -- c.RemainingArgs(), with the error if there are none
  abbrev pub args_or_raise : Read (List Bytes)
  args_or_raise c =
      let (found, d) = lib.remaining_args c in
      if length found == 0 then (err (arg_err (lib.val d)), d) else (ok found, d)

  abbrev pub failing : {A : Type 0} → Result Bytes A → Read A
  failing (ok a) = pure a
  failing (err e) = raise (failed e)

  abbrev pub two_of : List Bytes → Result Error (Bytes × Bytes)
  two_of (u ∷ p ∷ []) = ok (u, p)
  two_of _ = err not_two_credentials

  -- The cases of the switch that read arguments.
  abbrev pub set_fall : Config → Read Config
  set_fall cfg = do zs ← args; pure (record cfg { fall = lib.fall_of zs })

  abbrev pub set_path : Config → Read Config
  set_path cfg = do v ← next_arg_or_raise; pure (record cfg { path_prefix = v })

  abbrev pub set_endpoints : Config → Read Config
  set_endpoints cfg = do es ← args_or_raise; pure (record cfg { endpoints = es })

  abbrev pub set_upstream : Config → Read Config
  set_upstream cfg = do _ ← args; pure (record cfg { upstream = some lib.new_upstream })

  abbrev pub set_tls : Config → Read Config
  set_tls cfg = do given ← args; t ← failing (lib.new_tls given); pure (record cfg { tls = some t })

  abbrev pub set_credentials : Config → Read Config
  set_credentials cfg = do
    given ← args_or_raise
    (u, w) ← lift (two_of given)
    pure (record cfg { username = u; password = w })

  abbrev pub set_bound : Config → Read Config
  set_bound cfg = do
    v ← next_arg_or_raise
    n ← or_raise (bad_number v) (parse_int 8 v)
    b ← lift (bound_of n)
    pure (record cfg { wildcard_bound = b })

  -- The switch on the token that begins a property.
  unfoldable pub property : Bytes → Config → Read Config
  unfolding bound_of
  property p cfg =
      if same p (codes "stubzones")
      then pure cfg
      else if same p (codes "fallthrough")
      then set_fall cfg
      else if same p (codes "debug")
      then pure cfg
      else if same p (codes "path")
      then set_path cfg
      else if same p (codes "endpoint")
      then set_endpoints cfg
      else if same p (codes "upstream")
      then set_upstream cfg
      else if same p (codes "tls")
      then set_tls cfg
      else if same p (codes "credentials")
      then set_credentials cfg
      else if same p (codes "wildcardbound")
      then set_bound cfg
      else if not (same p (codes "}"))
      then raise (unknown_property p)
      else pure cfg

  -- `for c.NextBlock()`, with this many rounds at most; `none` if there are too few.
  unfoldable pub block : ℕ → Config → Read (Option Config)
  block zero cfg c = (ok none, c)
  block (suc fuel) cfg c = elim (lib.next_block c).0 [
    | true ↦ (property (lib.val (lib.next_block c).1) cfg >>= block fuel) (lib.next_block c).1
    | false ↦ (ok (some cfg), (lib.next_block c).1)
  ]

  -- newEtcdClient
  unfoldable pub new_etcd_client :
      List Bytes → Option lib.Tls → Bytes → Bytes → Result Bytes lib.Client
  new_etcd_client endpoints cc username password = lib.new_client (
      if not (same username []) && not (same password [])
      then record { endpoints = endpoints; tls = cc; username = username; password = password }
      else record { endpoints = endpoints; tls = cc; username = []; password = [] })

  abbrev pub etcd_of : Config → lib.Client → Etcd
  etcd_of cfg client = record {
    zones = cfg.zones;
    path_prefix = cfg.path_prefix;
    fall = cfg.fall;
    upstream = cfg.upstream;
    wildcard_bound = cfg.wildcard_bound;
    client = some client;
    endpoints = cfg.endpoints;
  }

  -- What follows the loop.
  unfoldable pub connected : Option Config → Read (Option Etcd)
  unfolding new_etcd_client
  connected none = pure none
  connected (some cfg) = do
    client ← failing (new_etcd_client cfg.endpoints cfg.tls cfg.username cfg.password)
    pure (some (etcd_of cfg client))

  -- The arguments of the plugin, or the keys of the server block.
  unfoldable pub zones_or : List Bytes → List Bytes → List Bytes
  zones_or keys given = map lib.normalize (if length given == 0 then keys else given)

  abbrev in_block : ℕ → List Bytes → Read (Option Etcd)
  in_block fuel keys = do
    given ← args
    cfg ← block fuel (initial (zones_or keys given))
    connected cfg

  -- etcdParse: the loop over c.Next() returns in its first round.
  unfoldable pub etcd_parse : ℕ → Read (Option Etcd)
  unfolding block connected zones_or initial
  etcd_parse fuel c =
      let (found, d) = lib.next c in
      if found then in_block fuel (lib.server_block_keys d) d else (ok (some no_etcd), d)

  -- Setup: the plugins of the server, each with the ETCD that it holds.
  unfoldable pub setup :
      ℕ → List Etcd → lib.Controller → Result PluginError (Option (List Etcd)) × lib.Controller
  unfolding etcd_parse
  setup fuel plugins c = elim (etcd_parse fuel c).0 [
    | ok (some e) ↦ (ok (some (plugins ++ e ∷ [])), (etcd_parse fuel c).1)
    | ok none ↦ (ok none, (etcd_parse fuel c).1)
    | err x ↦ (err (record { plugin = codes "rdns"; error = x }), (etcd_parse fuel c).1)
  ]
