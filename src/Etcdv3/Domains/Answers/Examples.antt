-- ===== src/Etcdv3/Domains/Answers/Examples.antt =====
-- An Update over a table of which a read with a prefix gives each key once.
use rdns_server.Base.{
  ℕ, ◌≡◌, ◌∙◌, refl, sym, ap, true, false, not, ◌&&◌, List, [], ◌∷◌, Option, some, Bytes, codes,
  same, same_iff, All, Result, ok, if◌then◌else◌, inl, inr, Bool-cases, arith,
}
use rdns_server.Text.{has_prefix}
use rdns_server.Coredns.Etcd.{Kv}
use rdns_server.Model.{Domain, DomainOptions}
use rdns_server.Etcdv3.Names.{get_path, format_value, get_token_path, get_frozen_path}
use rdns_server.Etcdv3.Client.{Client, Error, mem}
use rdns_server.Etcdv3.Client.Laws.{StoreLaws, PrefixLaw, ReadLaws, has_key, is_present}
use rdns_server.Etcdv3.Examples.{
  Entries, table, table_laws, look_up, one, two, base_path, one-Lacks, two-Lacks,
}
use rdns_server.Etcdv3.Sync.{host_key}
use rdns_server.Etcdv3.Domains.{update}
use rdns_server.Etcdv3.Domains.Examples.{
  decoding, decodes, asked, domain, rooted, one-IsDotted, two-IsDotted,
}
use rdns_server.Etcdv3.Domains.Flat.{IsFlat, flat_base, flat_host}
use rdns_server.Etcdv3.Domains.Writes.{IsFlatBelow}
use rdns_server.Etcdv3.Domains.Answers.{update-hosts}

-- The entries below a prefix that no entry before them hides.
unfoldable visible : Bytes → List Bytes → Entries → List Kv
unfolding mem
visible p seen [] = []
visible p seen ((k, v) ∷ es) =
    let rest = visible p (k ∷ seen) es in
    if has_prefix k p && not (mem k seen)
    then record { key = k; value = v.0; lease = v.1 } ∷ rest
    else rest

abbrev tidy : Client
tidy = record table { get_prefix = λ p s. (ok (visible p [] s), s) }

abbrev tidy_laws : StoreLaws tidy
tidy_laws = record {
  view = table_laws.view;
  view-put = table_laws.view-put;
  view-delete = table_laws.view-delete;
  view-get = table_laws.view-get;
  get-view = table_laws.get-view;
  view-time_to_live = table_laws.view-time_to_live;
}

has_key-visible :
    (p j : Bytes) (seen : List Bytes) (es : Entries)
    → has_prefix j p ≡ true
    → has_key j (visible p seen es) ≡ (is_present (look_up es j) && not (mem j seen))
unfolding has_key visible is_present look_up mem
has_key-visible p j seen [] h = refl
has_key-visible p j seen ((k, v) ∷ es) h =
    ground (arith, has_key-visible p j (k ∷ seen) es h, same_iff k j, same_iff j k)

visible-pairs :
    (p : Bytes) (s : Entries) (seen : List Bytes) (es : Entries)
    → ((j : Bytes) → mem j seen ≡ false → look_up s j ≡ look_up es j)
    → All
        (λ kv. (has_prefix kv.key p ≡ true) × (look_up s kv.key ≡ some (kv.value, kv.lease)))
        (visible p seen es)
unfolding visible look_up mem
visible-pairs p s seen [] h = tt
visible-pairs p s seen ((k, v) ∷ es) h =
    let rest =
      visible-pairs p s (k ∷ seen) es (λ j e. ground (arith, h j, e, same_iff k j, same_iff j k)) in
    elim (Bool-cases (has_prefix k p)) [
      | inr e ↦ rw e rest
      | inl e ↦ elim (Bool-cases (mem k seen)) [
        | inl f ↦ rw (e, f) rest
        | inr f ↦ rw (e, f) ((e, ground (arith, h k f, same_iff k k)), rest)
      ]
    ]

same_end :
    (p : Bytes) (kvs : List Kv) (s t : Entries)
    → tidy.get_prefix p s ≡ (ok kvs, t)
    → (visible p [] s ≡ kvs) × (s ≡ t)
same_end p kvs s t h = (cc, cc)

tidy-PrefixLaw : PrefixLaw tidy tidy_laws
unfolding table_laws mem
tidy-PrefixLaw p j kvs s t r h =
    ap (has_key j) (sym (same_end p kvs s t r).0) ∙ ground (arith, has_key-visible p j [] s h)

tidy-ReadLaws : ReadLaws tidy tidy_laws
unfolding table_laws
tidy-ReadLaws = record {
  read-view = λ p kvs s t h j. ap (λ x. look_up x j) (sym (same_end p kvs s t h).1);
  read-pairs =
      λ p kvs s t h. rw (sym (same_end p kvs s t h).0) (visible-pairs p s [] s (λ j e. refl));
}

-- The domain is held, with one host.
abbrev held : Entries
held =
    (base_path, (format_value [], 5))
    ∷ (host_key base_path one, (format_value one, 5))
    ∷ (get_token_path (codes "abc.lb.cloud"), (codes "token", 5))
    ∷ (get_frozen_path (codes "/rdnsv3") (codes "abc"), ([], 6))
    ∷ []

abbrev wanted : DomainOptions
wanted = record asked { hosts = two ∷ [] }

abbrev answer : Result Error Domain × Entries
answer = update tidy decoding wanted held

answered : answer.0 ≡ ok domain
unfolding update visible has_prefix rdns_server.Text.join rdns_server.Text.split
    rdns_server.Etcdv3.Examples.at_key same rdns_server.Text.replace rdns_server.Text.split_at
    rdns_server.Text.contains rdns_server.Etcdv3.Examples.without rdns_server.Text.split_n
answered = refl

updated : update tidy decoding wanted held ≡ (ok domain, answer.1)
updated = ap (λ r. (r, answer.1)) answered

every_look_up :
    (Q : Kv → Type 0) (j v : Bytes) (l : ℕ) (es : Entries)
    → All (λ e. Q (record { key = e.0; value = e.1.0; lease = e.1.1 })) es
    → look_up es j ≡ some (v, l)
    → Q (record { key = j; value = v; lease = l })
unfolding look_up
every_look_up Q j v l [] a h = absurd cc
every_look_up Q j v l ((k, w) ∷ es) (a, rest) h = elim (Bool-cases (same k j)) [
  | inl e ↦
      let found : ◌≡◌ {A = Option (Bytes × ℕ)} (some w) (some (v, l)) = rw e at h in
      let value_is : w ≡ (v, l) = cc in
      rw (sym ((same_iff k j).0 e), ap (λ x. x.0) (sym value_is), ap (λ x. x.1) (sym value_is)) a
  | inr e ↦ every_look_up Q j v l es rest (rw e at h)
]

held-IsFlatBelow : IsFlatBelow tidy tidy_laws base_path held
unfolding table_laws has_prefix get_token_path get_frozen_path
held-IsFlatBelow j v l p h =
    every_look_up (λ kv. has_prefix kv.key base_path ≡ true → IsFlat base_path kv) j v l held
      (
        λ _. flat_base 5,
        (
          λ _. flat_host 5 one one-IsDotted one-Lacks.0,
          (λ x. absurd (ground arith), (λ x. absurd (ground arith), tt)),
        ),
      )
      h p

update-hosts_example : mem two domain.hosts ≡ mem two (two ∷ [])
unfolding get_path rdns_server.Text.join rdns_server.Text.split rdns_server.Text.split_at same
update-hosts_example =
    update-hosts tidy tidy_laws tidy-PrefixLaw tidy-ReadLaws decoding (λ m k. refl) decodes rooted
      wanted held answer.1 domain two refl ((two-IsDotted, two-Lacks.0), tt) held-IsFlatBelow
      updated two-Lacks.0
