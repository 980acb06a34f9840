-- ===== src/Command/Corefile.antt =====
-- model/template.go and generateCoreFile of command/etcdv3/etcdv3.go: the Corefile of the etcd command.
pub mod Wildcards
pub mod Reads
use rdns_server.Base.{
  ℕ, suc, ◌+◌, Bool, true, false, not, ◌&&◌, List, [], ◌∷◌, ◌++◌, Bytes, codes, same, length,
  if◌then◌else◌, Result, ok, err,
}
use rdns_server.Base.Exec.{Exec, pure, raise, ◌>>=◌, ◌>>◌}
use rdns_server.Text.{split, join, trim_right_set, dot}
use rdns_server.Text.Numbers.{itoa}
use rdns_server.Coredns.Setup.Lines.{blank, indent}
use rdns_server.Command.Environment.{Error, no_core_dns_file, failed, Environment, getenv}

-- model.CoreFile
pub record CoreFile : Type 0 where
  pub core_dns_db_file : Bytes
  pub core_dns_db_zone : Bytes
  pub domain : Bytes
  pub etcd_prefix_path : Bytes
  pub etcd_endpoints : Bytes
  pub ttl : Bytes
  pub wild_card_bound : Bytes

-- The lines of the block of the plugin rdns, between its braces.
unfoldable pub block_lines : CoreFile → List Bytes
block_lines f =
    (indent ++ codes "path " ++ f.etcd_prefix_path)
    ∷ (indent ++ codes "endpoint " ++ f.etcd_endpoints)
    ∷ (indent ++ codes "upstream 8.8.8.8:53 8.8.4.4:53")
    ∷ (indent ++ codes "wildcardbound " ++ f.wild_card_bound)
    ∷ []

-- The part of the template under `if and .CoreDNSDBFile .CoreDNSDBZone`.
unfoldable pub file_lines : CoreFile → List Bytes
file_lines f =
    if not (same f.core_dns_db_file []) && not (same f.core_dns_db_zone [])
    then (codes "    file " ++ f.core_dns_db_file ++ blank ∷ f.core_dns_db_zone ++ codes " {")
      ∷ codes "        reload 0"
      ∷ codes "    }"
      ∷ []
    else []

-- The template CoreFileTmpl, rendered: it begins with an empty line.
unfoldable pub core_file_lines : CoreFile → List Bytes
unfolding block_lines file_lines
core_file_lines f =
    [] ∷ codes ". {" ∷ []
    ++ file_lines f
    ++ (codes "    rdns " ++ f.domain ++ codes " {") ∷ []
    ++ block_lines f
    ++ codes "    }"
      ∷ (codes "    cache " ++ f.ttl ++ blank ∷ f.domain)
      ∷ codes "    loadbalance"
      ∷ codes "    forward . 8.8.8.8:53 8.8.4.4:53"
      ∷ codes "    log stdout"
      ∷ codes "    errors"
      ∷ codes "}"
      ∷ []

unfoldable pub core_file_text : CoreFile → Bytes
unfolding core_file_lines
core_file_text f = join b'\n' (core_file_lines f)

-- The number of the labels of the domain, and one.
unfoldable pub wildcard_bound : Bytes → ℕ
wildcard_bound domain = length (split dot (trim_right_set (dot ∷ []) domain)) + 1

-- The values of the template.
unfoldable pub core_file : Environment → CoreFile
unfolding wildcard_bound getenv
core_file env = record {
  core_dns_db_file = getenv env (codes "CORE_DNS_DB_FILE");
  core_dns_db_zone = getenv env (codes "CORE_DNS_DB_ZONE");
  domain = getenv env (codes "DOMAIN");
  etcd_prefix_path = getenv env (codes "ETCD_PREFIX_PATH");
  etcd_endpoints = join blank (split b',' (getenv env (codes "ETCD_ENDPOINTS")));
  ttl = getenv env (codes "TTL");
  wild_card_bound = itoa (wildcard_bound (getenv env (codes "DOMAIN")));
}

-- os.Stat without an error, os.OpenFile with O_WRONLY and O_CREATE, and the writes into what it opened.
pub record Files (S : Type 0) : Type 0 where
  pub stat : Bytes → S → Bool
  pub open_file : Bytes → Exec Bytes S (Unit {0})
  pub write : Bytes → Bytes → Exec Bytes S (Unit {0})

module _ {S : Type 0} (files : Files S) where
  abbrev on_files : {A : Type 0} → Exec Bytes S A → Exec Error S A
  on_files m s = elim (m s).0 [ ok a ↦ (ok a, (m s).1) | err e ↦ (err (failed e), (m s).1) ]

  -- generateCoreFile: a file that is there stays as it is.
  unfoldable pub generate_core_file : Environment → Exec Error S (Unit {0})
  unfolding core_file core_file_text getenv
  generate_core_file env s =
      let fp = getenv env (codes "CORE_DNS_FILE") in
      if same fp []
      then (err no_core_dns_file, s)
      else if files.stat fp s
      then (ok tt, s)
      else (do
        on_files (files.open_file fp)
        on_files (files.write fp (core_file_text (core_file env))))
          s
