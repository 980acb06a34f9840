-- ===== src/Etcdv3/Names/Paths.antt =====
-- What `findSubPrefix` of backend/etcdv3/etcdv3.go reads back from the paths that `getPath` makes.
use rdns_server.Base.{
  ℕ, ◌+◌, ◌≤◌, ◌<◌, ◌≡◌, ◌≢◌, refl, true, false, [], ◌∷◌, ◌++◌, some, Bytes, length, same, arith,
}
use rdns_server.Text.{split, split_at, pieces, has_prefix, contains, count, onto_first, dot, slash}
use rdns_server.Text.RoundTrip.{Lacks, split_one}
use rdns_server.Etcdv3.Names.{
  convert_to_path, get_path, sub_name, find_sub_prefix, get_path-sub_name,
}

pub count-append : (s t : Bytes) (c : ℕ) → count (s ++ t) c ≡ count s c + count t c
unfolding count
count-append [] t c = omega arith
count-append (x ∷ s) t c = ground (arith, count-append s t c)

pub count-Lacks : (c : ℕ) (s : Bytes) → Lacks c s → count s c ≡ 0
unfolding count
count-Lacks c [] h = refl
count-Lacks c (x ∷ s) (hx, h) = ground (arith, count-Lacks c s h)

count-has_prefix : (c : ℕ) (s p : Bytes) → has_prefix s p ≡ true → count p c ≤ count s c
unfolding has_prefix count
count-has_prefix c s [] h = omega arith
count-has_prefix c [] (y ∷ p) h = absurd (cc)
count-has_prefix c (x ∷ s) (y ∷ p) h = ground (arith, count-has_prefix c s p)

count-contains : (c : ℕ) (s p : Bytes) → contains s p ≡ true → count p c ≤ count s c
unfolding contains count
count-contains c [] p h = count-has_prefix c [] p h
count-contains c (x ∷ s) p h = ground (arith, count-contains c s p, count-has_prefix c (x ∷ s) p)

pieces_one : (sep s : Bytes) → contains s sep ≡ false → pieces sep 0 s ≡ s ∷ []
unfolding pieces contains onto_first
pieces_one sep [] h = refl
pieces_one sep (c ∷ s) h = ground (arith, pieces_one sep s)

pieces_skip : (sep b s : Bytes) → pieces sep (length b) (b ++ s) ≡ pieces sep 0 s
unfolding pieces
pieces_skip sep [] s = refl
pieces_skip sep (c ∷ b) s = pieces_skip sep b s

pub has_prefix-append : (p s : Bytes) → has_prefix (p ++ s) p ≡ true
unfolding has_prefix
has_prefix-append [] [] = refl
has_prefix-append [] (x ∷ s) = refl
has_prefix-append (y ∷ p) s = ground (arith, has_prefix-append p s)

split_at-append :
    (sep s : Bytes) → sep ≢ [] → contains s sep ≡ false → split_at sep (sep ++ s) ≡ [] ∷ s ∷ []
unfolding split_at pieces
split_at-append [] s h n = absurd (h refl)
split_at-append (c ∷ sep) s h n =
    ground
      (arith, has_prefix-append (c ∷ sep) s, pieces_skip (c ∷ sep) sep s, pieces_one (c ∷ sep) s n)

pub same_longer : (s : Bytes) (c : ℕ) (t : Bytes) → same (s ++ c ∷ t) s ≡ false
unfolding same
same_longer [] c t = refl
same_longer (x ∷ s) c t = ground (arith, same_longer s c t)

pub below_base :
    (base k : Bytes)
    → Lacks slash k
    → 1 < count base slash
    → find_sub_prefix (base ++ slash ∷ k) base ≡ some k
unfolding find_sub_prefix split count
below_base base k flat two =
    let one : count (slash ∷ k) slash ≡ 1 = ground (arith, count-Lacks slash k flat) in
    let apart : contains (slash ∷ k) base ≡ false =
      ground (arith, count-contains slash (slash ∷ k) base) in
    let filled : base ≢ [] = λ e. ground (arith, e) in
    rw
      (
        same_longer base slash k,
        split_at-append base (slash ∷ k) filled apart,
        split_one slash k flat,
      )
      refl

-- The prefix of a sub-domain is read back from its path: `findSubPrefix` undoes `getPath`, where the
-- prefix is one label without a slash, and the path prefix of the store holds a slash.
pub find_sub_prefix-get_path :
    (path k fqdn : Bytes)
    → Lacks dot k
    → Lacks slash k
    → 0 < count path slash
    → find_sub_prefix (get_path path (sub_name k fqdn)) (get_path path fqdn) ≡ some k
unfolding get_path count
find_sub_prefix-get_path path k fqdn label flat rooted = rw (get_path-sub_name path k fqdn label) (
    below_base (get_path path fqdn) k flat
      (ground (arith, count-append path (convert_to_path fqdn) slash)))
