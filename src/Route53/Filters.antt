-- ===== src/Route53/Filters.antt =====
-- The pure functions of backend/route53/route53.go: filterRecords, convertARecords, findSlugWithZone.
use rdns_server.Base.{
  ◌+◌, ◌-◌, ◌==◌, Bool, true, false, not, ◌&&◌, ◌||◌, List, [], ◌∷◌, Option, none, some, Bytes,
  codes, same, leb, length, if◌then◌else◌,
}
use rdns_server.Text.{split, split_after_n, split_after, contains, dot}
use rdns_server.Route53.{
  Kind, kind_a, kind_txt, kind_cname, same_kind, RecordSet, wildcard_name, trimmed,
}

unfoldable pub has_kind : Kind → RecordSet → Bool
unfolding same_kind
has_kind kind rs = elim rs.kind [ none ↦ false | some k ↦ same_kind k kind ]

-- The results of filterRecords: whether there is a record of the name itself, and the record sets of the
-- type A, of sub-domains, of the types TXT and CNAME.
pub record Filtered : Type 0 where
  pub valid : Bool
  pub a : List RecordSet
  pub s : List RecordSet
  pub t : List RecordSet
  pub c : List RecordSet

abbrev pub nothing : Filtered
nothing = record { valid = false; a = []; s = []; t = []; c = [] }

-- The tests of the loops, on a record set's name without the dots at its end.
unfoldable pub is_own : Bytes → Bytes → Bool
is_own fqdn name = same name fqdn || same name (wildcard_name fqdn)

unfoldable pub is_sub : Bytes → Bytes → Bool
is_sub fqdn name =
    (length (split dot name) == length (split dot fqdn) + 1)
    && contains name fqdn
    && not (contains name (b'\\' ∷ codes "052"))

-- A record set put where the two tests of the loop say.
unfoldable pub sort_a : Bool → Bool → RecordSet → Filtered → Filtered
sort_a true sub rs rest = record rest { valid = true; a = rs ∷ rest.a }
sort_a false true rs rest = record rest { s = rs ∷ rest.s }
sort_a false false rs rest = rest

unfoldable pub filter_a : Bytes → List RecordSet → Filtered
unfolding is_own is_sub has_kind sort_a
filter_a fqdn [] = nothing
filter_a fqdn (rs ∷ rrs) =
    sort_a (is_own fqdn (trimmed rs.name) && has_kind kind_a rs)
      (is_sub fqdn (trimmed rs.name) && has_kind kind_a rs) rs (filter_a fqdn rrs)

unfoldable pub filter_cname : Bytes → List RecordSet → Filtered
unfolding is_own has_kind
filter_cname fqdn [] = nothing
filter_cname fqdn (rs ∷ rrs) =
    let rest = filter_cname fqdn rrs in
    if is_own fqdn (trimmed rs.name) && has_kind kind_cname rs
    then record rest { valid = true; c = rs ∷ rest.c }
    else rest

unfoldable pub filter_txt : Bytes → List RecordSet → Filtered
unfolding has_kind
filter_txt fqdn [] = nothing
filter_txt fqdn (rs ∷ rrs) =
    let rest = filter_txt fqdn rrs in
    if same (trimmed rs.name) (trimmed fqdn) && has_kind kind_txt rs
    then record rest { valid = true; t = rs ∷ rest.t }
    else rest

unfoldable pub filter_records : List RecordSet → Bytes → Kind → Filtered
unfolding filter_a filter_cname filter_txt
filter_records rrs fqdn kind_a = filter_a fqdn rrs
filter_records rrs fqdn kind_cname = filter_cname fqdn rrs
filter_records rrs fqdn kind_txt = filter_txt fqdn rrs

-- A Go map from names to lists, as an association list with each key once.
unfoldable pub insert : Bytes → List Bytes → List (Bytes × List Bytes) → List (Bytes × List Bytes)
insert k v [] = (k, v) ∷ []
insert k v ((j, w) ∷ m) = let rest = insert k v m in if same j k then (k, v) ∷ m else (j, w) ∷ rest

unfoldable pub look_up : Bytes → List (Bytes × List Bytes) → Option (List Bytes)
look_up k [] = none
look_up k ((j, w) ∷ m) = if same j k then some w else look_up k m

unfoldable pub first_piece : List Bytes → Bytes
first_piece [] = []
first_piece (p ∷ ps) = p

-- The loops of convertARecords, with the map filled so far.
unfoldable pub convert_a : List (Bytes × List Bytes) → List RecordSet → List (Bytes × List Bytes)
unfolding insert
convert_a m [] = m
convert_a m (rs ∷ rrs) = convert_a (insert (trimmed rs.name) rs.values m) rrs

unfoldable pub convert_sub : List (Bytes × List Bytes) → List RecordSet → List (Bytes × List Bytes)
unfolding insert first_piece
convert_sub m [] = m
convert_sub m (rs ∷ rrs) = convert_sub (insert (first_piece (split dot rs.name)) rs.values m) rrs

unfoldable pub second_or : Bytes → List Bytes → Bytes
second_or s [] = s
second_or s (p ∷ []) = s
second_or s (p ∷ q ∷ ps) = q

-- SplitAfterN at the difference of the numbers of labels, which cuts everywhere if it is negative.
unfoldable pub find_slug_with_zone : Bytes → Bytes → Bytes
unfolding second_or
find_slug_with_zone zone fqdn =
    let labels = length (split dot fqdn) in
    let zone_labels = length (split dot zone) in
    second_or fqdn (
      if leb zone_labels labels
      then split_after_n dot (labels - zone_labels) fqdn
      else split_after dot fqdn)
