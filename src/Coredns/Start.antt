-- ===== src/Coredns/Start.antt =====
-- coredns/coredns.go and coredns/plugin/directives.go: how the DNS server is started.
pub mod Examples
pub mod Cpu
use rdns_server.Base.{
  ℕ, ◌-◌, ◌==◌, Bool, true, false, ◌||◌, List, [], ◌∷◌, Option, none, some, Bytes, codes, length,
  take, same, leb, ltb, if◌then◌else◌, Result, ok, err,
}
use rdns_server.Base.Int.{ℤ, pos, negsuc}
use rdns_server.Base.Exec.{Exec, raise, lift, ◌>>=◌, ◌>>◌}
use rdns_server.Text.{has_suffix}
use rdns_server.Text.Numbers.{atoi}

-- The plugins, in the order in which they are run.
unfoldable pub directives : List Bytes
directives =
    codes "metadata"
    ∷ codes "cancel"
    ∷ codes "tls"
    ∷ codes "reload"
    ∷ codes "nsid"
    ∷ codes "root"
    ∷ codes "bind"
    ∷ codes "debug"
    ∷ codes "trace"
    ∷ codes "ready"
    ∷ codes "health"
    ∷ codes "pprof"
    ∷ codes "prometheus"
    ∷ codes "errors"
    ∷ codes "log"
    ∷ codes "dnstap"
    ∷ codes "chaos"
    ∷ codes "loadbalance"
    ∷ codes "cache"
    ∷ codes "rewrite"
    ∷ codes "dnssec"
    ∷ codes "autopath"
    ∷ codes "template"
    ∷ codes "hosts"
    ∷ codes "route53"
    ∷ codes "federation"
    ∷ codes "k8s_external"
    ∷ codes "kubernetes"
    ∷ codes "file"
    ∷ codes "auto"
    ∷ codes "secondary"
    ∷ codes "etcd"
    ∷ codes "rdns"
    ∷ codes "loop"
    ∷ codes "forward"
    ∷ codes "grpc"
    ∷ codes "erratic"
    ∷ codes "whoami"
    ∷ codes "on"
    ∷ []

-- caddy.CaddyfileInput; what CaddyfileFromPipe gives is one too.
pub record Input : Type 0 where
  pub contents : Bytes
  pub filepath : Bytes
  pub server_type : Bytes

pub data Error : Type 0 where
  bad_percentage bad_number : Error
  failed : Bytes → Error

-- ioutil.ReadFile; `missing` is an error of which os.IsNotExist holds.
pub data ReadError : Type 0 where
  missing : ReadError
  unreadable : Bytes → ReadError

-- What the code calls, on the state of the process: the number of CPUs, runtime.GOMAXPROCS, the product
-- of a number of CPUs and a percentage in float32, cut to an `int`, files, the pipe at stdin, and
-- caddy.LoadCaddyfile on what the two loaders return, caddy.Start and flag.Set of dns.port.
pub record Runtime (S : Type 0) : Type 1 where
  pub Instance : Type 0
  pub num_cpu : ℕ
  pub gomaxprocs : ℕ → S → S
  pub share : ℕ → ℕ → ℕ
  pub read_file : Bytes → Result ReadError Bytes
  pub from_pipe : Bytes → Result Bytes (Option Input)
  pub load : Result Bytes (Option Input) → Result Bytes (Option Input) → Result Bytes Input
  pub start : Input → Exec Bytes S Instance
  pub set_port : Bytes → S → S

module _ {S : Type 0} (rt : Runtime S) where
  abbrev text_of : ReadError → Bytes
  text_of missing = codes "file does not exist"
  text_of (unreadable e) = e

  abbrev input_of : Bytes → Bytes → Result ReadError Bytes → Result Bytes (Option Input)
  input_of path server_type (ok contents) =
      ok (some (record { contents = contents; filepath = path; server_type = server_type }))
  input_of path server_type (err e) = err (text_of e)

  -- confLoader
  unfoldable pub conf_loader : Bytes → Bytes → Result Bytes (Option Input)
  conf_loader conf server_type =
      if same conf []
      then ok none
      else if same conf (codes "stdin")
      then rt.from_pipe server_type
      else input_of conf server_type (rt.read_file conf)

  -- defaultLoader
  unfoldable pub default_loader : Bytes → Result Bytes (Option Input)
  default_loader server_type = elim (rt.read_file (codes "Corefile")) [
    | err missing ↦ ok none
    | err (unreadable e) ↦ err e
    | ok contents ↦ ok (
        some
          (record { contents = contents; filepath = codes "Corefile"; server_type = server_type }))
  ]

  -- The number that was read, in these bounds.
  abbrev pub wanted : Error → ℕ → Option ℕ → Option ℤ → Result Error ℕ
  wanted e low high none = err e
  wanted e low high (some (negsuc n)) = err e
  wanted e low none (some (pos n)) = if ltb n low then err e else ok n
  wanted e low (some high) (some (pos n)) = if ltb n low || ltb high n then err e else ok n

  abbrev pub shared : Result Error ℕ → Result Error ℕ
  shared (ok n) = ok (rt.share rt.num_cpu n)
  shared (err e) = err e

  -- The number of CPUs that a setting asks for.
  unfoldable pub asked_cpu : Bytes → Result Error ℕ
  unfolding atoi has_suffix
  asked_cpu cpu =
      if has_suffix cpu (codes "%")
      then shared (wanted bad_percentage 1 (some 100) (atoi (take (length cpu - 1) cpu)))
      else wanted bad_number 1 none (atoi cpu)

  -- What follows: no more than there are.
  unfoldable pub use_cpu : Result Error ℕ → Exec Error S (Unit {0})
  use_cpu (err e) s = (err e, s)
  use_cpu (ok n) s = (ok tt, rt.gomaxprocs (if ltb rt.num_cpu n then rt.num_cpu else n) s)

  -- setCPU
  unfoldable pub set_cpu : Bytes → Exec Error S (Unit {0})
  unfolding asked_cpu use_cpu
  set_cpu cpu = use_cpu (asked_cpu cpu)

  abbrev or_failed : {A : Type 0} → Result Bytes A → Result Error A
  or_failed (ok a) = ok a
  or_failed (err e) = err (failed e)

  abbrev started : Input → Exec Error S rt.Instance
  started f s = (or_failed (rt.start f s).0, (rt.start f s).1)

  -- StartCoreDNSDaemon, with CORE_DNS_FILE, CORE_DNS_CPU and CORE_DNS_PORT of the environment; an error
  -- ends the process, and an instance is waited for. An error of flag.Set is only logged.
  unfoldable pub start_core_dns_daemon : Bytes → Bytes → Bytes → Exec Error S rt.Instance
  unfolding set_cpu conf_loader default_loader
  start_core_dns_daemon conf cpu port s =
      (do
        set_cpu cpu
        f ←
            lift
              (or_failed (rt.load (conf_loader conf (codes "dns")) (default_loader (codes "dns"))))
        started f)
        (rt.set_port port s)
