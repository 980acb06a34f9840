-- ===== src/Etcdv3/Names.antt =====
-- The functions on names, keys and values at the end of backend/etcdv3/etcdv3.go.
pub mod Paths
use rdns_server.Base.{
  ℕ, zero, suc, ◌+◌, ◌-◌, ◌≤◌, ◌≡◌, ◌≢◌, refl, sym, ap, ◌∙◌, Bool, List, [], ◌∷◌, ◌++◌, reverse,
  append_assoc, Option, none, some, Bytes, codes, length, length-reverse, same, leb, get_elem?,
  if◌then◌else◌, arith,
}
use mathlib.Core.List.{reverse-append, reverse-cons}
use rdns_server.Base.Int.{ℤ}
use rdns_server.Text.{split, join, split_n, split_at, replace, dot, slash}
use rdns_server.Text.RoundTrip.{Lacks, split-append, split-ne-nil, split-Lacks}

abbrev pub token_path : Bytes
token_path = codes "/tokenv3"

abbrev pub frozen_path : Bytes
frozen_path = codes "/frozenv3"

-- The labels from the root on, each behind a slash.
unfoldable pub convert_to_path : Bytes → Bytes
convert_to_path domain = slash ∷ join slash (reverse (split dot domain))

unfoldable pub get_path : Bytes → Bytes → Bytes
unfolding convert_to_path
get_path path fqdn = path ++ convert_to_path fqdn

unfoldable pub format_key : Bytes → Bytes
format_key = replace dot b'_'

unfoldable pub get_token_path : Bytes → Bytes
unfolding format_key
get_token_path fqdn = token_path ++ slash ∷ format_key fqdn

-- fmt.Sprintf("%s%s/%s", b.Prefix, frozenPath, slug)
unfoldable pub get_frozen_path : Bytes → Bytes → Bytes
get_frozen_path prefix slug = prefix ++ frozen_path ++ slash ∷ slug

unfoldable pub format_value : Bytes → Bytes
format_value value = codes "{\"host\":\"" ++ value ++ codes "\"}"

unfoldable pub format_text_value : Bytes → Bytes
format_text_value value = codes "{\"text\":\"" ++ value ++ codes "\"}"

-- fmt.Sprintf("%s.%s", prefix, fqdn)
abbrev pub sub_name : Bytes → Bytes → Bytes
sub_name prefix fqdn = prefix ++ dot ∷ fqdn

last : List Bytes → Option Bytes
last [] = none
last (s ∷ []) = some s
last (s ∷ t ∷ ss) = last (t ∷ ss)

first_label : Option Bytes → Option Bytes
first_label none = none
first_label (some s) = get_elem? (split dot s) 0

-- SplitN with the difference of the numbers of labels: a negative one splits at every dot, and
-- with 0 there is no piece, so that ss[len(ss)-1] panics, which is `none`.
unfoldable pub find_slug_with_zone : Bytes → Bytes → Option Bytes
unfolding last first_label
find_slug_with_zone fqdn domain =
    let labels = length (split dot fqdn) in
    let zone_labels = length (split dot domain) in
    first_label (
      last (
        if leb zone_labels labels then split_n dot (labels - zone_labels) fqdn else split dot fqdn))

-- The part behind the first slash of the text that follows `base`; `none` is an index out of range.
second_part : Option Bytes → Option Bytes
second_part none = none
second_part (some s) = get_elem? (split slash s) 1

unfoldable pub find_sub_prefix : Bytes → Bytes → Option Bytes
unfolding second_part
find_sub_prefix path base =
    if same path base then some [] else second_part (get_elem? (split_at base path) 1)

-- len(strings.Split(fqdn, ".")) - len(strings.Split(domain, ".")) <= 1
unfoldable pub too_short : Bytes → Bytes → Bool
too_short fqdn domain = leb (length (split dot fqdn)) (length (split dot domain) + 1)

path_runs :
    get_path (codes "/rdnsv3") (codes "sample.lb.rancher.cloud")
    ≡ codes "/rdnsv3/cloud/rancher/lb/sample"
unfolding get_path join split
path_runs = refl

slug_runs :
    find_slug_with_zone (codes "yyyy.xxxx.qrn7oq.lb.rancher.cloud") (codes "lb.rancher.cloud")
    ≡ some (codes "qrn7oq")
unfolding find_slug_with_zone split split_n
slug_runs = refl

sub_prefix_runs :
    find_sub_prefix
      (codes "/rdnsv3/cloud/rancher/lb/jc1af/x1/1_1_1_1")
      (codes "/rdnsv3/cloud/rancher/lb/jc1af")
    ≡ some (codes "x1")
unfolding find_sub_prefix split split_at same
sub_prefix_runs = refl

join-append-one :
    (sep : ℕ) (ps : List Bytes) (q : Bytes)
    → ps ≢ []
    → join sep (ps ++ q ∷ []) ≡ join sep ps ++ sep ∷ q
unfolding join
join-append-one sep [] q h = absurd (h refl)
join-append-one sep (p ∷ []) q h = refl
join-append-one sep (p ∷ r ∷ ps) q h =
    rw (join-append-one sep (r ∷ ps) q (λ e. cc))
      (sym (append_assoc p (sep ∷ join sep (r ∷ ps)) (sep ∷ q)))

reverse-ne-nil : (ps : List Bytes) → ps ≢ [] → reverse ps ≢ []
reverse-ne-nil [] h e = h refl
reverse-ne-nil (p ∷ ps) h e = absurd (omega (arith, ap length e, length-reverse (p ∷ ps)))

-- The path of a sub-domain is one element below the path of its parent.
pub get_path-sub_name :
    (path k fqdn : Bytes)
    → Lacks dot k
    → get_path path (sub_name k fqdn) ≡ get_path path fqdn ++ slash ∷ k
unfolding get_path
get_path-sub_name path k fqdn h =
    rw
      (
        split-append dot k fqdn h,
        reverse-cons k (split dot fqdn),
        join-append-one slash (reverse (split dot fqdn)) k
            (reverse-ne-nil _ (split-ne-nil dot fqdn)),
      )
      (sym (append_assoc path (convert_to_path fqdn) (slash ∷ k)))
