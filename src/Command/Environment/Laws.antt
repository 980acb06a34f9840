-- ===== src/Command/Environment/Laws.antt =====
-- The environment after setEnvironments.
use rdns_server.Base.{
  ◌≡◌, ◌∙◌, refl, Bool, Bool-cases, inl, inr, true, not, ◌&&◌, ◌||◌, List, [], ◌∷◌, All, Bytes,
  codes, same, same_iff, same_refl, ok, if◌then◌else◌, arith,
}
use rdns_server.Base.Exec.{◌>>◌, >>=-eq-ok}
use rdns_server.Text.{to_lower}
use rdns_server.Etcdv3.Client.{mem}
use rdns_server.Command.Environment.{
  Environment, getenv, is_settable, setenv, Context, check_env, set_each, set_environments,
}

setenv-ok :
    (k v : Bytes) (env env' : Environment) → setenv k v env ≡ (ok tt, env') → env' ≡ (k, v) ∷ env
unfolding setenv
setenv-ok k v env env' h = elim (Bool-cases (is_settable k v)) [
  | inl e ↦ ground arith
  | inr e ↦ ground arith
]

getenv_self : (k v : Bytes) (env : Environment) → getenv ((k, v) ∷ env) k ≡ v
unfolding getenv
getenv_self k v env = rw (same_refl k) refl

module _ (optional : Bytes → Bool) (c : Context) where
  abbrev value : Bytes → Bytes
  value k = c.string (to_lower k)

  -- The flag has a value, or needs none.
  abbrev pub is_given : Bytes → Bool
  is_given k = not (same (value k) []) || optional k

  check_env-ok :
      (k : Bytes) (env env' : Environment)
      → check_env optional c k env ≡ (ok tt, env')
      → (env' ≡ env) × ((not (same (getenv env k) []) || optional k) ≡ true)
  unfolding check_env
  check_env-ok k env env' h = elim (Bool-cases (same (getenv env k) [])) [
    | inl e ↦ elim (Bool-cases (optional k)) [ inl o ↦ ground arith | inr o ↦ ground arith ]
    | inr e ↦ ground arith
  ]

  -- A round that succeeded.
  set_each-cons :
      (k : Bytes) (ks : List Bytes) (env env' : Environment)
      → set_each optional c (k ∷ ks) env ≡ (ok tt, env')
      → (is_given k ≡ true) × (set_each optional c ks ((k, value k) ∷ env) ≡ (ok tt, env'))
  unfolding set_each
  set_each-cons k ks env env' h =
      let rest = λ (_ : Unit {0}). check_env optional c k >> set_each optional c ks in
      let (_, env1, p, q) = >>=-eq-ok (setenv k (value k)) rest env env' tt h in
      let (_, env2, r, t) =
        >>=-eq-ok (check_env optional c k) (λ _. set_each optional c ks) env1 env' tt q in
      let at1 = setenv-ok k (value k) env env1 p in
      let (at2, given) = check_env-ok k env1 env2 r in
      (rw (at1, getenv_self k (value k) env) at given, rw (at2 ∙ at1) at t)

  -- Each variable has the value of its flag, and the others what they had.
  set_each-getenv :
      (ks : List Bytes) (env env' : Environment) (x : Bytes)
      → set_each optional c ks env ≡ (ok tt, env')
      → getenv env' x ≡ (if mem x ks then value x else getenv env x)
  unfolding set_each mem getenv
  set_each-getenv [] env env' x h = ground arith
  set_each-getenv (k ∷ ks) env env' x h =
      let (given, rest) = set_each-cons k ks env env' h in
      ground
        (arith, set_each-getenv ks ((k, value k) ∷ env) env' x rest, same_iff k x, same_iff x k)

  set_each-given :
      (ks : List Bytes) (env env' : Environment) (x : Bytes)
      → set_each optional c ks env ≡ (ok tt, env')
      → mem x ks ≡ true
      → is_given x ≡ true
  unfolding mem
  set_each-given [] env env' x h m = absurd (ground arith)
  set_each-given (k ∷ ks) env env' x h m =
      let (given, rest) = set_each-cons k ks env env' h in
      ground (arith, set_each-given ks ((k, value k) ∷ env) env' x rest, same_iff x k)

  -- After setEnvironments every variable of a flag has the flag's value, which is not empty unless the
  -- flag is optional; FROZEN has that of the program's flag, and any other variable what it had.
  pub set_environments_lem :
      (keys : List Bytes) (env env' : Environment) (x : Bytes)
      → set_environments optional c keys env ≡ (ok tt, env')
      → (getenv env' x ≡ (
          if same (codes "FROZEN") x
          then c.global_string (codes "frozen")
          else if mem x keys
          then value x
          else getenv env x))
        × ((not (mem x keys) || is_given x) ≡ true)
  unfolding set_environments getenv
  set_environments_lem keys env env' x h =
      let frozen = setenv (codes "FROZEN") (c.global_string (codes "frozen")) in
      let (_, env1, p, q) = >>=-eq-ok (set_each optional c keys) (λ _. frozen) env env' tt h in
      let last = setenv-ok (codes "FROZEN") (c.global_string (codes "frozen")) env1 env' q in
      let before = set_each-getenv keys env env1 x p in
      let given = set_each-given keys env env1 x p in
      (
        rw (last, before) refl,
        elim (Bool-cases (mem x keys)) [ inl m ↦ rw (m, given m) refl | inr m ↦ rw m refl ],
      )

  -- The variable of a flag may be set, and the flag is given or optional.
  abbrev pub IsReady : Bytes → Type 0
  IsReady k = (is_settable k (value k) && is_given k) ≡ true

  set_each-succeeds :
      (keys : List Bytes) (env : Environment)
      → All IsReady keys
      → (set_each optional c keys env).0 ≡ ok tt
  unfolding set_each setenv check_env
  set_each-succeeds [] env h = refl
  set_each-succeeds (k ∷ ks) env (hk, hks) =
      ground (arith, set_each-succeeds ks ((k, value k) ∷ env) hks, getenv_self k (value k) env)

  pub set_environments-succeeds :
      (keys : List Bytes) (env : Environment)
      → All IsReady keys
      → is_settable (codes "FROZEN") (c.global_string (codes "frozen")) ≡ true
      → (set_environments optional c keys env).0 ≡ ok tt
  unfolding set_environments setenv
  set_environments-succeeds keys env h k = ground (arith, set_each-succeeds keys env h)
