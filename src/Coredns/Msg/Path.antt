-- ===== src/Coredns/Msg/Path.antt =====
-- coredns/plugin/rdns/msg/path.go: domain names as etcd paths.
use mathlib.Core.List.{reverse-reverse, reverse-cons}
use rdns_server.Base.{
  ℕ, zero, suc, ◌-◌, ◌≡◌, ◌≢◌, refl, ap, ◌∙◌, ◌⊎◌, Bool, true, false, ◌||◌, List, [], ◌∷◌, ◌++◌,
  reverse, Option, none, some, Bytes, codes, length, length-reverse, take, drop, leb, same,
  if◌then◌else◌, arith, All, All-reverse, Bool-cases, inl, inr,
}
use mathlib.Core.Option
use rdns_server.Text.{split, join, join_path, slash}
use rdns_server.Text.RoundTrip.{split-append, split-join}
use rdns_server.Text.Clean.{IsSegment, All-flat, join_path-IsSegment}
use rdns_server.Coredns.Dns.{Dns}

-- `"/" + prefix + "/"`
abbrev pub root : Bytes → Bytes
root prefix = slash ∷ (prefix ++ slash ∷ [])

-- A label that stands for any label.
unfoldable pub is_wildcard : Bytes → Bool
is_wildcard k = same k (codes "*") || same k (codes "any")

-- The labels before the first wildcard, and whether there is one.
unfoldable pub before_wildcard : List Bytes → List Bytes × Bool
unfolding is_wildcard
before_wildcard [] = ([], false)
before_wildcard (k ∷ l) =
    let (ks, found) = before_wildcard l in if is_wildcard k then ([], true) else (k ∷ ks, found)

-- The parts of a key in reverse, without the two at the front of the key; `none` is a panic: there is
-- no slice l[1 : len(l)-1], or dnsutil.Join has no label.
unfoldable pub name_labels : List Bytes → Option (List Bytes)
name_labels l = if leb (length l) 2 then none else some (take (length l - 2) (reverse (drop 1 l)))

module _ (dns : Dns) where
  unfoldable pub path : Bytes → Bytes → Bytes
  path s prefix = join_path (root prefix ∷ reverse (dns.split_domain_name s))

  unfoldable pub domain : Bytes → Option Bytes
  unfolding name_labels
  domain s = Option.map dns.dns_join (name_labels (split slash s))

  unfoldable pub path_with_wildcard : Bytes → Bytes → Bytes × Bool
  unfolding before_wildcard
  path_with_wildcard s prefix =
      let (l, star) = before_wildcard (reverse (dns.split_domain_name s)) in
      (join_path (root prefix ∷ l), star)

take-append_length : (xs ys : List Bytes) (n : ℕ) → length xs ≡ n → take n (xs ++ ys) ≡ xs
take-append_length [] ys zero h = refl
take-append_length [] ys (suc n) h = absurd (omega arith)
take-append_length (x ∷ xs) ys zero h = absurd (omega arith)
take-append_length (x ∷ xs) ys (suc n) h =
    ap (λ t. x ∷ t) (take-append_length xs ys n (omega arith))

name_labels-reverse :
    (e p : Bytes) (xs : List Bytes) → xs ≢ [] → name_labels (e ∷ p ∷ reverse xs) ≡ some xs
unfolding name_labels
name_labels-reverse e p [] h = absurd (h refl)
name_labels-reverse e p (x ∷ xs) h =
    let long : leb (suc (suc (length (reverse (x ∷ xs))))) 2 ≡ false =
      ground (arith, length-reverse (x ∷ xs)) in
    let shape : reverse (p ∷ reverse (x ∷ xs)) ≡ (x ∷ xs) ++ p ∷ [] =
      reverse-cons p (reverse (x ∷ xs)) ∙ ap (λ t. t ++ p ∷ []) (reverse-reverse (x ∷ xs)) in
    rw (long, shape)
      (ap some (take-append_length (x ∷ xs) (p ∷ []) _ (omega (arith, length-reverse (x ∷ xs)))))

module _ (dns : Dns) (prefix : Bytes) (prefixed : IsSegment prefix) where
  -- A domain is read back from its path: `Domain` undoes `Path`, where the prefix is one path
  -- element and the name has labels, each of them a plain path element.
  pub domain-path :
      (s : Bytes)
      → dns.split_domain_name s ≢ []
      → All IsSegment (dns.split_domain_name s)
      → domain dns (path dns s prefix) ≡ some (dns.dns_join (dns.split_domain_name s))
  unfolding domain path
  domain-path s filled plain =
      let ls = reverse (dns.split_domain_name s) in
      rw (
        join_path-IsSegment prefix ls prefixed (All-reverse IsSegment _ plain),
        split-append slash [] (join slash (prefix ∷ ls)) tt,
        split-join slash (prefix ∷ ls) (λ e. cc)
            (prefixed.flat, All-flat ls (All-reverse IsSegment _ plain)),
        name_labels-reverse [] prefix (dns.split_domain_name s) filled,
      )

abbrev pub IsPlain : Bytes → Type 0
IsPlain k = is_wildcard k ≡ false

-- Where the labels, from the root of the name on, first meet a wildcard.
abbrev pub Cut : List Bytes → List Bytes × Bool → Type 0
Cut ls r =
    ((r ≡ (ls, false)) × All IsPlain ls)
    ⊎ ((w : Bytes) × (rest : List Bytes) × (ls ≡ r.0 ++ w ∷ rest)
        × (is_wildcard w ≡ true)
        × All IsPlain r.0
        × (r.1 ≡ true))

Cut-cons :
    (k : Bytes) (l : List Bytes) (r : List Bytes × Bool)
    → IsPlain k
    → Cut l r
    → Cut (k ∷ l) (k ∷ r.0, r.1)
Cut-cons k l r e (inl (p, h)) = inl (ap (λ (x : List Bytes × Bool). (k ∷ x.0, x.1)) p, (e, h))
Cut-cons k l r e (inr (w, rest, p, h, q, t)) = inr (w, rest, ap (λ x. k ∷ x) p, h, (e, q), t)

before_wildcard-Cut : (ls : List Bytes) → Cut ls (before_wildcard ls)
unfolding before_wildcard
before_wildcard-Cut [] = inl (refl, tt)
before_wildcard-Cut (k ∷ l) = elim (Bool-cases (is_wildcard k)) [
  | inl e ↦ rw e (inr (k, l, refl, e, tt, refl))
  | inr e ↦
      let passes : before_wildcard (k ∷ l) ≡ (k ∷ (before_wildcard l).0, (before_wildcard l).1) =
        rw e in
      rw passes (Cut-cons k l (before_wildcard l) e (before_wildcard-Cut l))
]

-- Without a wildcard label the path is that of `Path` and the flag is false. With one, the path is
-- made of the labels before the first wildcard, counted from the root of the name, and the flag is
-- true.
pub path_with_wildcard_lem :
    (dns : Dns) (s prefix : Bytes)
    → (All IsPlain (reverse (dns.split_domain_name s))
        × (path_with_wildcard dns s prefix ≡ (path dns s prefix, false)))
      ⊎ ((ks : List Bytes) × (w : Bytes) × (rest : List Bytes) × (reverse (dns.split_domain_name s)
            ≡ ks ++ w ∷ rest)
          × All IsPlain ks
          × (is_wildcard w ≡ true)
          × (path_with_wildcard dns s prefix ≡ (join_path (root prefix ∷ ks), true)))
unfolding path_with_wildcard path
path_with_wildcard_lem dns s prefix =
    elim (before_wildcard-Cut (reverse (dns.split_domain_name s))) [
      | inl (p, h) ↦ inl (h, rw p)
      | inr (w, rest, p, h, q, t) ↦ inr (_, w, rest, p, q, h, rw t)
    ]
