-- ===== src/Command/Etcdv3/Runs.antt =====
-- What the etcd command runs with: the backend and the plugin are set up from the same flags.
use rdns_server.Base.{
  ℕ, ◌≡◌, ◌<◌, ◌≤◌, ◌^◌, ◌∙◌, refl, sym, ap, true, false, List, [], ◌∷◌, map, none, some, Bytes,
  codes, Result, ok, err, Result-cases, inl, inr, same,
}
use rdns_server.Text.{split, to_lower}
use rdns_server.Coredns.Setup.{Library, etcd_parse, new_etcd_client}
use rdns_server.Coredns.Setup.Lines.{Reading, is_plain, all_plain}
use rdns_server.Etcdv3.Client.{mem}
use rdns_server.Command.Environment.{Error, Environment, getenv, Context, Flag, set_environments}
use rdns_server.Command.Environment.Laws.{set_environments_lem}
use rdns_server.Command.Corefile.{Files, generate_core_file, core_file, block_lines, wildcard_bound}
use rdns_server.Command.Corefile.Reads.{etcd_parse-core_file, serving}
use rdns_server.Command.Backends.{EtcdLibrary, EtcdBackend, new_etcd_backend, library}
use rdns_server.Command.Daemons.{Daemon, running}
use rdns_server.Command.Etcdv3.{
  flags, is_optional, daemons, with_core_file, with_backend, with_environments, action,
}

library-ok : {A : Type 0} (r : Result Bytes A) (a : A) → library r ≡ ok a → r ≡ ok a
library-ok (ok b) a h = cc
library-ok (err e) a h = absurd cc

-- Every flag of the command is visited, and no other name.
abbrev pub Visits : List Bytes → List Flag → Type 0
Visits keys fs = (k : Bytes) → mem k keys ≡ mem k (map (λ f. f.key) fs)

module _ (lib : EtcdLibrary) {S : Type 0} (files : Files S) (c : Context) where
  -- The fields of a backend that was made.
  new_etcd_backend-ok :
      (env : Environment) (b : EtcdBackend lib.Client)
      → new_etcd_backend lib env ≡ ok b
      → (b.domain ≡ getenv env (codes "DOMAIN"))
        × (b.prefix ≡ getenv env (codes "ETCD_PREFIX_PATH"))
        × (lib.new_client (split b',' (getenv env (codes "ETCD_ENDPOINTS"))) ≡ ok b.client)
        × (lib.parse_duration (getenv env (codes "ETCD_LEASE_TIME")) ≡ ok b.lease_time)
        × (lib.parse_duration (getenv env (codes "FROZEN")) ≡ ok b.frozen_ttl)
  unfolding new_etcd_backend
  new_etcd_backend-ok env b h =
      elim (Result-cases (lib.new_client (split b',' (getenv env (codes "ETCD_ENDPOINTS"))))) [
        | inr (e, p) ↦ absurd (refused (rw p at h))
        | inl (k, p) ↦
            elim (Result-cases (lib.parse_duration (getenv env (codes "ETCD_LEASE_TIME")))) [
              | inr (e, q) ↦ absurd (refused (rw (p, q) at h))
              | inl (l, q) ↦
                  elim (Result-cases (lib.parse_duration (getenv env (codes "FROZEN")))) [
                    | inr (e, r) ↦ absurd (refused (rw (p, q, r) at h))
                    | inl (f, r) ↦ let made = rw (p, q, r) at h in (cc, cc, cc, cc, cc)
                  ]
            ]
      ]
    where
      refused : {x : Error} → ◌≡◌ {A = Result Error (EtcdBackend lib.Client)} (err x) (ok b) → ⊥
      refused x = cc

  with_core_file-running :
      (b b' : EtcdBackend lib.Client) (r : Result Error (Unit {0})) (ds : List Daemon)
      → with_core_file lib files c b' r ≡ running b ds
      → (b' ≡ b) × (ds ≡ daemons lib files c)
  with_core_file-running b b' (ok _) ds h = (cc, cc)
  with_core_file-running b b' (err e) ds h = absurd cc

  with_backend-running :
      (r : Result Error (EtcdBackend lib.Client)) (env : Environment) (s t : S)
      (b : EtcdBackend lib.Client) (ds : List Daemon)
      → with_backend lib files c r env s ≡ (running b ds, t)
      → (r ≡ ok b) × (ds ≡ daemons lib files c)
  unfolding with_backend
  with_backend-running (err e) env s t b ds h = absurd cc
  with_backend-running (ok b') env s t b ds h =
      let (made, all) =
        with_core_file-running b b' (generate_core_file files env s).0 ds (ap (λ p. p.0) h) in
      (ap ok made, all)

  with_environments-running :
      (r : Result Error (Unit {0})) (env env' : Environment) (s t : S) (b : EtcdBackend lib.Client)
      (ds : List Daemon)
      → with_environments lib files c r env s ≡ (running b ds, (env', t))
      → (r ≡ ok tt) × (env ≡ env') × (new_etcd_backend lib env ≡ ok b) × (ds ≡ daemons lib files c)
  unfolding with_environments
  with_environments-running (err e) env env' s t b ds h = absurd cc
  with_environments-running (ok _) env env' s t b ds h =
      let (made, all) =
        with_backend-running (new_etcd_backend lib env) env s t b ds (ap (λ p. (p.0, p.1.1)) h) in
      (refl, ap (λ p. p.1.0) h, made, all)

  module _ (keys : List Bytes) (env env' : Environment) (s t : S) (b : EtcdBackend lib.Client)
      (ds : List Daemon) (all : Visits keys flags)
      (runs : action lib files c keys env s ≡ (running b ds, (env', t))) where
    set_and_made :
        (set_environments is_optional c keys env ≡ (ok tt, env'))
        × (new_etcd_backend lib env' ≡ ok b)
        × (ds ≡ daemons lib files c)
    unfolding action
    set_and_made =
        let (r, env1) = set_environments is_optional c keys env in
        let (good, same_env, made, started) = with_environments-running r env1 env' s t b ds runs in
        (ap (λ x. (x, env1)) good ∙ ap (λ e. (ok tt, e)) same_env, rw same_env at made, started)

    getenv-flag :
        (x : Bytes)
        → same (codes "FROZEN") x ≡ false
        → mem x (map (λ f. f.key) flags) ≡ true
        → getenv env' x ≡ c.string (to_lower x)
    getenv-flag x n m =
        (set_environments_lem is_optional c keys env env' x set_and_made.0).0
        ∙ rw (n, all x, m) refl

    -- Where the command runs, its backend has the domain, the prefix, the endpoints and the two durations
    -- of the flags, and metrics, CoreDNS and the HTTP service are started.
    pub action-running :
        (b.domain ≡ c.string (codes "domain"))
        × (b.prefix ≡ c.string (codes "etcd_prefix_path"))
        × (lib.new_client (split b',' (c.string (codes "etcd_endpoints"))) ≡ ok b.client)
        × (lib.parse_duration (c.string (codes "etcd_lease_time")) ≡ ok b.lease_time)
        × (lib.parse_duration (c.global_string (codes "frozen")) ≡ ok b.frozen_ttl)
        × (ds ≡ daemons lib files c)
    unfolding flags same mem to_lower
    action-running =
        let (set, made, started) = set_and_made in
        let (domain, prefix, client, lease, frozen) = new_etcd_backend-ok env' b made in
        (
          domain ∙ getenv-flag (codes "DOMAIN") refl refl,
          prefix ∙ getenv-flag (codes "ETCD_PREFIX_PATH") refl refl,
          rw (getenv-flag (codes "ETCD_ENDPOINTS") refl refl) at client,
          rw (getenv-flag (codes "ETCD_LEASE_TIME") refl refl) at lease,
          rw ((set_environments_lem is_optional c keys env env' (codes "FROZEN") set).0) at frozen,
          started,
        )

    -- The plugin reads etcd where the backend writes: from the Corefile that the command generates, etcdParse
    -- makes an ETCD with the backend's domain for its zone, the backend's prefix for its path, the
    -- same endpoints, and the number of the domain's labels and one for its bound. The prefix and the
    -- endpoints are plain words, the bound has seven bits, and the client is made.
    pub etcd_parse-action :
        (plugin : Library) (r : Reading plugin) (fuel : ℕ) (ctl : plugin.Controller)
        (client : plugin.Client)
        → 5 ≤ fuel
        → is_plain b.prefix ≡ true
        → all_plain (split b',' (c.string (codes "etcd_endpoints"))) ≡ true
        → wildcard_bound b.domain < 2 ^ 7
        → (plugin.next ctl).0 ≡ true
        → r.At
            (plugin.next ctl).1
            (codes "rdns")
            (b.domain ∷ [])
            (map r.words (block_lines (core_file env')))
        → new_etcd_client plugin (split b',' (c.string (codes "etcd_endpoints"))) none [] []
          ≡ ok client
        → (etcd_parse plugin fuel ctl).0
          ≡ ok (
              some (
                serving plugin r b.domain b.prefix
                  (split b',' (c.string (codes "etcd_endpoints")))
                  client))
    unfolding flags same mem to_lower
    etcd_parse-action plugin r fuel ctl client rounds hp he hb found stands made =
        let (domain, prefix, _, _, _, _) = action-running in
        let d = getenv-flag (codes "DOMAIN") refl refl ∙ sym domain in
        let p = getenv-flag (codes "ETCD_PREFIX_PATH") refl refl ∙ sym prefix in
        let e = getenv-flag (codes "ETCD_ENDPOINTS") refl refl in
        rw (sym d, sym p, sym e)
          (etcd_parse-core_file plugin r fuel env' ctl client rounds (rw (sym p) at hp)
            (rw (sym e) at he) (rw (sym d) at hb) found (rw (sym d) at stands) (rw (sym e) at made))
