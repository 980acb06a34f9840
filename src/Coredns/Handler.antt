-- ===== src/Coredns/Handler.antt =====
-- coredns/plugin/rdns/handler.go, BackendError of backend_lookup.go and plugin.go: one query.
pub mod Replies
use rdns_server.Base.{
  ℕ, Bool, true, false, not, ◌&&◌, List, [], ◌∷◌, Option, none, some, Bytes, same, ◌==◌,
  if◌then◌else◌, Result, ok, err,
}
use rdns_server.Coredns.Dns.{
  Dns, Request, Rr, name, named, type_a, type_aaaa, type_txt, type_cname, type_ptr, type_mx,
  type_srv, type_soa, type_ns,
}
use rdns_server.Coredns.Zones.{matches}
use rdns_server.Coredns.Backend.{Error, key_not_found, no_next, ServiceBackend}
use rdns_server.Coredns.Etcd.{Etcd, backend}
use rdns_server.Coredns.Lookup.{a_records, aaaa_records}
use rdns_server.Coredns.Lookup.Single.{cname_records, txt_records, ptr_records, soa_records}
use rdns_server.Coredns.Lookup.Extra.{Float64, Sections, mx_records, ns_records, srv_records}

abbrev pub rcode_success : ℕ
rcode_success = 0

abbrev pub rcode_format_error : ℕ
rcode_format_error = 1

abbrev pub rcode_server_failure : ℕ
rcode_server_failure = 2

abbrev pub rcode_name_error : ℕ
rcode_name_error = 3

abbrev pub rcode_not_implemented : ℕ
rcode_not_implemented = 4

abbrev pub rcode_refused : ℕ
rcode_refused = 5

-- dns.Msg, as far as a reply sets it; `question` is the name that it repeats.
pub record Message : Type 0 where
  pub question : Bytes
  pub rcode : ℕ
  pub authoritative : Bool
  pub answer : List Rr
  pub ns : List Rr
  pub extra : List Rr

-- What ServeDNS writes and returns.
pub record Outcome : Type 0 where
  pub written : Option Message
  pub rcode : ℕ
  pub error : Option Error

-- The next handler in the chain, if there is one.
abbrev pub Next : Type 0
Next = Option (Request → Outcome)

unfoldable pub next_or_failure : Next → Request → Outcome
next_or_failure none state = record {
  written = none;
  rcode = rcode_server_failure;
  error = some no_next;
}
next_or_failure (some next) state = next state

-- ClientWrite
unfoldable pub client_write : ℕ → Bool
client_write rcode =
    not (rcode == rcode_server_failure)
    && not (rcode == rcode_refused)
    && not (rcode == rcode_format_error)
    && not (rcode == rcode_not_implemented)

-- The answer and the additional section, or the error; and the question after the lookup.
pub record Found : Type 0 where
  pub result : Result Error (List Rr × List Rr)
  pub question : Bytes

answers : Result Error (List Rr) → Result Error (List Rr × List Rr)
answers (ok rs) = ok (rs, [])
answers (err x) = err x

-- A lookup whose records are dropped: its error alone counts.
drop_records : Result Error (List Rr) → Result Error (List Rr × List Rr)
drop_records (ok rs) = ok ([], [])
drop_records (err x) = err x

sections : Result Error Sections → Result Error (List Rr × List Rr)
sections (ok s) = ok (s.records, s.extra)
sections (err x) = err x

module _ (dns : Dns) (b : ServiceBackend) (float : Float64) where
  -- The switch on the query type.
  unfoldable pub find : Bytes → Request → Found
  unfolding answers drop_records sections a_records aaaa_records txt_records cname_records
      ptr_records mx_records srv_records soa_records ns_records
  find zone state =
      let t = state.qtype in
      let keep = λ (r : Result Error (List Rr × List Rr)).
        let f : Found = record { result = r; question = state.question } in f in
      if t == type_a
      then keep (answers (a_records dns b zone state []))
      else if t == type_aaaa
      then keep (answers (aaaa_records dns b zone state []))
      else if t == type_txt
      then keep (answers (txt_records dns b state))
      else if t == type_cname
      then keep (answers (cname_records dns b state))
      else if t == type_ptr
      then keep (answers (ptr_records dns b state))
      else if t == type_mx
      then keep (sections (mx_records dns b zone state))
      else if t == type_srv
      then keep (sections (srv_records dns b float zone state))
      else if t == type_soa
      then keep (answers (soa_records dns b zone state))
      else if (t == type_ns) && same (name dns state) zone
      then (let f : Found = record {
        result = (ns_records dns b zone state).0;
        question = (ns_records dns b zone state).1;
      } in
          f)
      else keep (drop_records (a_records dns b zone state []))

  soa_or_none : Result Error (List Rr) → List Rr
  soa_or_none (ok rs) = rs
  soa_or_none (err x) = []

  -- The message of BackendError: empty, with the SOA record.
  unfoldable pub error_message : Bytes → ℕ → Request → Message
  unfolding soa_or_none soa_records
  error_message zone rcode state = record {
    question = state.question;
    rcode = rcode;
    authoritative = true;
    answer = [];
    ns = soa_or_none (soa_records dns b zone state);
    extra = [];
  }

  -- BackendError, which returns success whatever the code of the message.
  unfoldable pub backend_error : Bytes → ℕ → Request → Option Error → Outcome
  unfolding error_message
  backend_error zone rcode state error = record {
    written = some (error_message zone rcode state);
    rcode = rcode_success;
    error = error;
  }

  -- ServeDNS behind the lookup; `falls` is Fall.Through of the name.
  unfoldable pub reply : Bytes → Request → Bool → Next → Result Error (List Rr × List Rr) → Outcome
  unfolding backend_error next_or_failure
  reply zone state falls next (err x) =
      if b.is_name_error x
      then (if falls
          then next_or_failure next state
          else backend_error zone rcode_name_error state none)
      else backend_error zone rcode_server_failure state (some x)
  reply zone state falls next (ok ([], extra)) = backend_error zone rcode_success state none
  reply zone state falls next (ok (r ∷ rs, extra)) = record {
    written = some (record {
      question = state.question;
      rcode = rcode_success;
      authoritative = true;
      answer = r ∷ rs;
      ns = [];
      extra = extra;
    });
    rcode = rcode_success;
    error = none;
  }

-- ServeDNS
unfoldable pub serve_dns : Dns → Etcd → Float64 → Next → Request → Outcome
unfolding named matches backend find reply next_or_failure
serve_dns dns e float next r =
    let state = named dns r in
    let zone = matches dns e.zones (name dns state) in
    let b = backend dns e in
    let f = find dns b float zone state in
    if same zone []
    then next_or_failure next r
    else reply dns b float zone (record state { question = f.question })
        (e.falls_through (name dns state)) next f.result
