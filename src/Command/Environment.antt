-- ===== src/Command/Environment.antt =====
-- What both commands do with their flags: cli flags made of a table, and the environment set from them.
pub mod Laws
use rdns_server.Base.{
  ℕ, ◌==◌, Bool, true, false, not, ◌&&◌, ◌||◌, List, [], ◌∷◌, map, Bytes, codes, same, leb, length,
  if◌then◌else◌, Result, ok, err,
}
use rdns_server.Base.Exec.{Exec, pure, raise, ◌>>=◌, ◌>>◌}
use rdns_server.Text.{to_lower, one_of}

pub data Error : Type 0 where
  -- os.Setenv refused this name
  invalid_env : Bytes → Error
  expected_argument : Bytes → Error
  no_core_dns_file no_database : Error
  -- an error of a library, or of the backend
  failed : Bytes → Error
  -- errors.Wrapf
  wrap : Bytes → Error → Error

-- The environment of the process: the first entry of a name counts.
abbrev pub Environment : Type 0
Environment = List (Bytes × Bytes)

-- os.Getenv
unfoldable pub getenv : Environment → Bytes → Bytes
getenv [] k = []
getenv ((n, v) ∷ env) k = if same n k then v else getenv env k

-- The names and values that os.Setenv takes.
unfoldable pub is_settable : Bytes → Bytes → Bool
is_settable k v = leb 1 (length k) && not (one_of k b'=') && not (one_of k 0) && not (one_of v 0)

-- os.Setenv
unfoldable pub setenv : Bytes → Bytes → Exec Error Environment (Unit {0})
unfolding is_settable
setenv k v env = if is_settable k v then (ok tt, (k, v) ∷ env) else (err (invalid_env k), env)

-- One entry of a command's table of flags: a name, a usage and a default value.
pub record Flag : Type 0 where
  pub key : Bytes
  pub usage : Bytes
  pub value : Bytes

-- cli.StringFlag
pub record StringFlag : Type 0 where
  pub name : Bytes
  pub env_var : Bytes
  pub usage : Bytes
  pub value : Bytes

unfoldable pub string_flag : Flag → StringFlag
string_flag f = record { name = to_lower f.key; env_var = f.key; usage = f.usage; value = f.value }

-- Flags(), on the table in the order in which `range` visits it.
unfoldable pub string_flags : List Flag → List StringFlag
unfolding string_flag
string_flags = map string_flag

-- cli.Context: the values of the flags of the command, and of the program.
pub record Context : Type 0 where
  pub string : Bytes → Bytes
  pub global_string : Bytes → Bytes
  pub global_bool : Bytes → Bool

module _ (optional : Bytes → Bool) (c : Context) where
  -- The test of one variable behind its Setenv.
  unfoldable pub check_env : Bytes → Exec Error Environment (Unit {0})
  unfolding getenv
  check_env k env =
      if same (getenv env k) [] && not (optional k)
      then (err (expected_argument (to_lower k)), env)
      else (ok tt, env)

  -- The loop over the names of the flags.
  unfoldable pub set_each : List Bytes → Exec Error Environment (Unit {0})
  unfolding setenv check_env
  set_each [] = pure tt
  set_each (k ∷ ks) = do setenv k (c.string (to_lower k)); check_env k; set_each ks

  -- setEnvironments, but for the level of the log.
  unfoldable pub set_environments : List Bytes → Exec Error Environment (Unit {0})
  unfolding set_each
  set_environments keys = do
    set_each keys
    setenv (codes "FROZEN") (c.global_string (codes "frozen"))
