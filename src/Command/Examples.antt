-- ===== src/Command/Examples.antt =====
-- Runs of the commands on concrete flags, and one instance of each theorem.
use rdns_server.Base.{
  ◌<◌, ◌≡◌, refl, true, false, List, [], ◌∷◌, map, some, Bytes, codes, same, if◌then◌else◌, ok,
  arith,
}
use rdns_server.Base.Int.{pos}
use rdns_server.Text.{split, to_lower, dot}
use rdns_server.Coredns.Setup.{etcd_parse}
use rdns_server.Coredns.Setup.Lines.{is_plain, all_plain}
use rdns_server.Coredns.Setup.Examples.{Tokens, dispenser, reading}
use rdns_server.Command.Environment.{Environment, getenv, Context, set_environments}
use rdns_server.Command.Environment.Laws.{set_environments_lem}
use rdns_server.Command.Corefile.{Files, core_file, block_lines, core_file_text, wildcard_bound}
use rdns_server.Command.Corefile.Reads.{serving}
use rdns_server.Command.Backends.{EtcdLibrary, EtcdBackend}
use rdns_server.Command.Daemons.{
  running, Daemon, metrics, core_dns, http, Goroutines, launched, ◌⟶*◌, http_fails, to_metrics,
  no_step, one_step, idles, sent, waiting, returned,
}
use rdns_server.Command.Daemons.Shutdown.{launched-returns, main-waits, returns, values_sent}
use rdns_server.Coredns.Dns.{type_a}
use rdns_server.Coredns.Etcd.{Etcd, path_exist, bounded_name}
use rdns_server.Coredns.Examples.{toy, store}
use rdns_server.Command.Corefile.Wildcards.{bounded_name-of_slug}
use rdns_server.Command.Etcdv3.{flags, is_optional, action}
use rdns_server.Command.Etcdv3.Runs.{etcd_parse-action}

-- The HTTP server failed, and the metrics daemon took the value.
abbrev failing : Goroutines
failing = record launched { http_server = sent; metrics_loop = returned }

lost : launched ⟶* failing
lost = one_step (http_fails refl) (one_step (to_metrics refl refl) no_step)

launched-returns_example : returns failing ≡ values_sent failing.http_server
launched-returns_example = launched-returns failing lost

main-waits_example : (failing.http_server ≡ sent) × (failing.main ≡ waiting)
main-waits_example = main-waits failing failing (one_step idles no_step) refl refl

-- The values of the flags that are not given on the command line.
abbrev given : Context
given = record {
  string = λ k.
      if same k (codes "domain")
      then codes "lb.cloud"
      else if same k (codes "etcd_endpoints")
      then codes "http://a:2379,http://b:2379"
      else if same k (codes "etcd_prefix_path")
      then codes "/rdnsv3"
      else if same k (codes "core_dns_db_file")
      then []
      else if same k (codes "core_dns_db_zone")
      then []
      else codes "60";
  global_string = λ k. if same k (codes "frozen") then codes "2160h" else codes ":9333";
  global_bool = λ k. false;
}

abbrev no_files : Files (List Bytes)
no_files = record {
  stat = λ p s. false;
  open_file = λ p s. (ok tt, s);
  write = λ p text s. (ok tt, text ∷ s);
}

abbrev etcd : EtcdLibrary
etcd = record { Client = List Bytes; new_client = λ es. ok es; parse_duration = λ s. ok (pos 60) }

abbrev keys : List Bytes
keys = map (λ f. f.key) flags

abbrev after : Environment
after = (set_environments is_optional given keys []).1

abbrev backend : EtcdBackend (List Bytes)
backend = record {
  domain = codes "lb.cloud";
  prefix = codes "/rdnsv3";
  frozen_ttl = pos 60;
  lease_time = pos 60;
  client = codes "http://a:2379" ∷ codes "http://b:2379" ∷ [];
}

abbrev started : List Daemon
started = metrics ∷ core_dns ∷ http (codes ":9333") ∷ []

-- The Corefile that was written.
abbrev written : List Bytes
written = core_file_text (core_file after) ∷ []

runs : action etcd no_files given keys [] [] ≡ (running backend started, (after, written))
unfolding action flags rdns_server.Text.one_of same to_lower
runs = refl

-- The controller before the directive of the plugin.
abbrev before_block : Tokens
before_block =
    ([], (codes "rdns" ∷ codes "lb.cloud" ∷ [], map reading.words (block_lines (core_file after))))

stands :
    reading.At
      (dispenser.next before_block).1
      (codes "rdns")
      (codes "lb.cloud" ∷ [])
      (map reading.words (block_lines (core_file after)))
unfolding reading
stands = refl

plain_prefix : is_plain (codes "/rdnsv3") ≡ true
unfolding is_plain
plain_prefix = refl

plain_endpoints : all_plain (split b',' (codes "http://a:2379,http://b:2379")) ≡ true
unfolding all_plain split
plain_endpoints = refl

few_labels : wildcard_bound (codes "lb.cloud") < 128
unfolding wildcard_bound split rdns_server.Text.trim_right_set
few_labels = omega arith

etcd_parse-action_example :
    (etcd_parse dispenser 5 before_block).0
    ≡ ok (
        some (
          serving dispenser reading
            (codes "lb.cloud")
            (codes "/rdnsv3")
            (codes "http://a:2379" ∷ codes "http://b:2379" ∷ [])
            (codes "http://a:2379" ∷ codes "http://b:2379" ∷ [])))
unfolding same rdns_server.Coredns.Setup.new_etcd_client split
etcd_parse-action_example =
    etcd_parse-action etcd no_files given keys [] after [] written backend started (λ k. refl) runs
      dispenser reading 5 before_block (codes "http://a:2379" ∷ codes "http://b:2379" ∷ [])
      (omega arith) plain_prefix plain_endpoints few_labels refl stands refl

set : set_environments is_optional given keys [] ≡ (ok tt, after)
unfolding set_environments flags rdns_server.Text.one_of same to_lower is_optional
set = refl

set_environments_lem_example : (getenv after (codes "TTL") ≡ codes "60") × (true ≡ true)
unfolding same rdns_server.Etcdv3.Client.mem flags to_lower
set_environments_lem_example =
    set_environments_lem is_optional given keys [] after (codes "TTL") set

-- The plugin with the bound of a domain of two labels.
abbrev bounded : Etcd
bounded = record store { wildcard_bound = 3 }

abbrev deep : Bytes
deep = codes "x.abc.lb.cloud"

absent : path_exist toy bounded (codes "x" ∷ codes "abc" ∷ codes "lb" ∷ codes "cloud" ∷ []) ≡ false
unfolding path_exist rdns_server.Text.has_prefix rdns_server.Coredns.Msg.Path.path_with_wildcard
    rdns_server.Text.join_path
absent = refl

same_bound : 3 ≡ wildcard_bound (codes "lb.cloud")
unfolding wildcard_bound split rdns_server.Text.trim_right_set
same_bound = refl

bounded_name-of_slug_example : bounded_name toy bounded deep type_a ≡ codes "*.abc.lb.cloud"
unfolding split rdns_server.Text.trim_right_set
bounded_name-of_slug_example =
    bounded_name-of_slug toy bounded deep (codes "lb.cloud") (codes "x") (codes "abc") [] type_a
      same_bound refl (omega arith) (λ e. cc) absent
