-- ===== src/Etcdv3/Examples.antt =====
-- Runs of the etcd backend over a store that is an association list, and one instance of each theorem.
use rdns_server.Base.{
  ℕ, ◌≡◌, refl, ◌⊎◌, List, [], ◌∷◌, Option, none, some, Bytes, codes, same, same_iff, if◌then◌else◌,
  Result, ok, All, arith, sym, ap, inl, inr, true, Bool-cases,
}
use rdns_server.Base.Int.{pos}
use rdns_server.Text.{replace, split, join, has_prefix}
use rdns_server.Text.RoundTrip.{Lacks}
use rdns_server.Coredns.Etcd.{Kv}
use rdns_server.Etcdv3.Names.{get_token_path, format_value}
use rdns_server.Etcdv3.Client.{Client, Config, Error, mem}
use rdns_server.Etcdv3.Client.Laws.{StoreLaws, VisitsAll}
use rdns_server.Etcdv3.Leases.{set_token}
use rdns_server.Etcdv3.Leases.Renewal.{set_token-keeps}
use rdns_server.Etcdv3.Sync.{host_key, sync_records}
use rdns_server.Etcdv3.Sync.View.{sync_records-host}
use rdns_server.Etcdv3.Domains.{choose_slug}
use rdns_server.Etcdv3.Domains.Slugs.{Free, choose_slug-Free}

abbrev pub Entries : Type 0
Entries = List (Bytes × (Bytes × ℕ))

unfoldable pub look_up : Entries → Bytes → Option (Bytes × ℕ)
look_up [] j = none
look_up ((k, v) ∷ es) j = if same k j then some v else look_up es j

unfoldable pub without : Bytes → Entries → Entries
without k [] = []
without k ((j, v) ∷ es) = let rest = without k es in if same k j then rest else (j, v) ∷ rest

unfoldable pub below : Bytes → Entries → List Kv
below p [] = []
below p ((k, v) ∷ es) =
    let rest = below p es in
    if has_prefix k p then record { key = k; value = v.0; lease = v.1 } ∷ rest else rest

unfoldable pub at_key : Bytes → Entries → List Kv
at_key k [] = []
at_key k ((j, v) ∷ es) =
    if same j k then record { key = j; value = v.0; lease = v.1 } ∷ [] else at_key k es

unfoldable pub not_below : Bytes → Entries → Entries
not_below p [] = []
not_below p ((k, v) ∷ es) =
    let rest = not_below p es in if has_prefix k p then rest else (k, v) ∷ rest

-- An etcd with every lease granted, and no lease that runs out.
abbrev pub table : Client
table = record {
  State = Entries;
  get = λ k s. (ok (at_key k s), s);
  get_prefix = λ k s. (ok (below k s), s);
  put = λ k v l s. (ok tt, (k, (v, l)) ∷ s);
  delete = λ k s. (ok tt, without k s);
  delete_prefix = λ k s. (ok tt, not_below k s);
  time_to_live = λ l s. (ok (pos 60), s);
  grant = λ n s. (ok (7, n), s);
  keep_alive_once = λ l s. (ok (pos 60), s);
}

pub look_up-without :
    (k : Bytes) (es : Entries) (j : Bytes)
    → look_up (without k es) j ≡ (if same k j then none else look_up es j)
unfolding look_up without
look_up-without k [] j = ground arith
look_up-without k ((i, v) ∷ es) j =
    ground (arith, look_up-without k es j, same_iff k i, same_iff i j, same_iff k j)

pub look_up-at_key :
    (k : Bytes) (es : Entries) (kv : Kv) (kvs : List Kv)
    → at_key k es ≡ kv ∷ kvs
    → look_up es k ≡ some (kv.value, kv.lease)
unfolding look_up at_key
look_up-at_key k [] kv kvs h = absurd (cc)
look_up-at_key k ((j, v) ∷ es) kv kvs h = elim (Bool-cases (same j k)) [
  | inl e ↦
      let found : ◌≡◌ {A = List Kv} (record { key = j; value = v.0; lease = v.1 } ∷ []) (kv ∷ kvs) =
        rw (e, at_key) at h in
      let same_kv : record { key = j; value = v.0; lease = v.1 } ≡ kv = cc in
      rw (e, look_up) (ap (λ (x : Kv). some (x.value, x.lease)) same_kv)
  | inr e ↦ rw (e, look_up) (look_up-at_key k es kv kvs (rw (e, at_key) at h))
]

unfoldable pub table_laws : StoreLaws table
unfolding look_up
table_laws = record {
  view = look_up;
  view-put = λ k v l s t h j. put_lem k v l s t h j;
  view-delete = λ k s t h j. delete_lem k s t h j;
  view-get = λ k kvs s t h j. ap (λ u. look_up u j) (sym (second _ _ s t h));
  get-view = λ k kv kvs s t h. look_up-at_key k s kv kvs (first_part k s t (kv ∷ kvs) h);
  view-time_to_live = λ l n s t h j. ap (λ u. look_up u j) (sym (second _ _ s t h));
}
  where
    second :
        {A : Type 0} (x y : Result Error A) (s t : Entries)
        → ◌≡◌ {A = Result Error A × Entries} (x, s) (y, t)
        → s ≡ t
    second x y s t h = cc

    first_part :
        (k : Bytes) (s t : Entries) (kvs : List Kv)
        → ◌≡◌ {A = Result Error (List Kv) × Entries} (ok (at_key k s), s) (ok kvs, t)
        → at_key k s ≡ kvs
    first_part k s t kvs h = cc

    put_lem :
        (k v : Bytes) (l : ℕ) (s t : Entries)
        → ◌≡◌ {A = Result Error (Unit {0}) × Entries} (ok tt, (k, (v, l)) ∷ s) (ok tt, t)
        → (j : Bytes) → look_up t j ≡ (if same k j then some (v, l) else look_up s j)
    put_lem k v l s t h j = let e : (k, (v, l)) ∷ s ≡ t = cc in unfold look_up in rw (← e) refl

    delete_lem :
        (k : Bytes) (s t : Entries)
        → ◌≡◌ {A = Result Error (Unit {0}) × Entries} (ok tt, without k s) (ok tt, t)
        → (j : Bytes) → look_up t j ≡ (if same k j then none else look_up s j)
    delete_lem k s t h j = let e : without k s ≡ t = cc in rw (← e) (look_up-without k s j)

abbrev pub config : Config
config = record {
  domain = codes "lb.cloud";
  prefix = codes "/rdnsv3";
  frozen_ttl = pos 100;
  lease_time = pos 60;
  unmarshal = λ v. none;
  order = λ ks. ks;
  draw = λ i. if same (0 ∷ []) (i ∷ []) then codes "aaaaaa" else codes "bbbbbb";
  fresh_token = codes "token";
}

config-VisitsAll : VisitsAll config
config-VisitsAll m k = refl

abbrev pub base_path : Bytes
base_path = codes "/rdnsv3/cloud/lb/abc"

abbrev pub one : Bytes
one = codes "1.1.1.1"

abbrev pub two : Bytes
two = codes "2.2.2.2"

abbrev before : Entries
before = (host_key base_path one, (format_value one, 5)) ∷ []

abbrev after : Entries
after = (sync_records table config (two ∷ []) (one ∷ []) base_path 7 before).1

synced : sync_records table config (two ∷ []) (one ∷ []) base_path 7 before ≡ (ok tt, after)
unfolding sync_records same
synced = refl

pub one-Lacks : All (Lacks b'_') (one ∷ [])
one-Lacks = ground arith

pub two-Lacks : All (Lacks b'_') (two ∷ [])
two-Lacks = ground arith

sync_records-host_example : look_up after (host_key base_path two) ≡ some (format_value two, 7)
unfolding mem table_laws same
sync_records-host_example =
    sync_records-host table table_laws config config-VisitsAll (two ∷ []) (one ∷ []) base_path 7
      before after synced two-Lacks one-Lacks two two-Lacks.0

-- The first draw is taken, the second is free.
abbrev taken : Entries
taken = (codes "/rdnsv3/cloud/lb/aaaaaa", ([], 5)) ∷ []

abbrev choice : Bytes × Bytes × Bytes
choice = (codes "/rdnsv3/cloud/lb/bbbbbb", codes "bbbbbb", codes "bbbbbb.lb.cloud")

chosen : choose_slug table config 100 0 [] [] [] taken ≡ (ok choice, taken)
unfolding choose_slug at_key same join split
chosen = refl

choose_slug-Free_example :
    Free table config 0 100 choice.0 choice.1 choice.2 taken ⊎ (choice.2 ≡ [])
choose_slug-Free_example =
    choose_slug-Free table config 100 0 [] [] [] choice.0 choice.1 choice.2 taken taken chosen

abbrev with_token : Entries
with_token = (codes "/tokenv3/abc_lb_cloud", (codes "secret", 5)) ∷ []

abbrev renewed : Entries
renewed = (set_token table config (codes "abc.lb.cloud") true with_token).1

renewal : set_token table config (codes "abc.lb.cloud") true with_token ≡ (ok (5, pos 60), renewed)
unfolding set_token at_key same replace
renewal = refl

set_token-keeps_example :
    ((token : Bytes) × (look_up with_token (get_token_path (codes "abc.lb.cloud"))
        ≡ some (token, 5)))
    × ((j : Bytes) → look_up renewed j ≡ look_up with_token j)
unfolding table_laws
set_token-keeps_example =
    set_token-keeps table table_laws config (codes "abc.lb.cloud") 5 (pos 60) with_token renewed
      renewal
