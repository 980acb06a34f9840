-- ===== src/Text.antt =====
-- The functions of Go's package strings that the program calls, on byte strings; `clean` and
-- `join_path` are those of its package path, for paths that begin with a slash.
pub mod RoundTrip
pub mod Clean
pub mod Numbers
use rdns_server.Base.{
  ℕ, zero, suc, ◌+◌, Bool, true, false, ◌&&◌, ◌||◌, List, [], ◌∷◌, ◌++◌, map, reverse, Bytes, codes,
  ◌==◌, leb, same, length, take, drop, if◌then◌else◌, ◌≡◌, refl,
}

abbrev pub dot : ℕ
dot = b'.'

abbrev pub slash : ℕ
slash = b'/'

-- One more byte at the head of the first piece.
unfoldable pub onto_first : ℕ → List Bytes → List Bytes
onto_first c [] = (c ∷ []) ∷ []
onto_first c (p ∷ ps) = (c ∷ p) ∷ ps

-- strings.Split, at a separator of one byte.
unfoldable pub split : ℕ → Bytes → List Bytes
unfolding onto_first
split sep [] = [] ∷ []
split sep (c ∷ s) = let rest = split sep s in if c == sep then [] ∷ rest else onto_first c rest

-- strings.Join, with a separator of one byte.
unfoldable pub join : ℕ → List Bytes → Bytes
join sep [] = []
join sep (p ∷ []) = p
join sep (p ∷ q ∷ ps) = p ++ sep ∷ join sep (q ∷ ps)

-- At most this many cuts, from the left; `keep` says whether a piece keeps its separator.
unfoldable pub cuts : Bool → ℕ → ℕ → Bytes → List Bytes
unfolding onto_first
cuts keep sep zero s = s ∷ []
cuts keep sep (suc n) [] = [] ∷ []
cuts keep sep (suc n) (c ∷ s) = elim (c == sep) [
  | true ↦ (if keep then c ∷ [] else []) ∷ cuts keep sep n s
  | false ↦ onto_first c (cuts keep sep (suc n) s)
]

-- strings.SplitN and strings.SplitAfterN, at a count that is not negative.
unfoldable pub split_n : ℕ → ℕ → Bytes → List Bytes
unfolding cuts onto_first
split_n sep zero s = []
split_n sep (suc n) s = cuts false sep n s

unfoldable pub split_after_n : ℕ → ℕ → Bytes → List Bytes
unfolding cuts onto_first
split_after_n sep zero s = []
split_after_n sep (suc n) s = cuts true sep n s

-- strings.SplitAfterN at a negative count: every separator is a cut.
unfoldable pub split_after : ℕ → Bytes → List Bytes
unfolding cuts
split_after sep s = cuts true sep (length s) s

-- strings.HasPrefix(s, p)
unfoldable pub has_prefix : Bytes → Bytes → Bool
has_prefix s [] = true
has_prefix [] (y ∷ p) = false
has_prefix (x ∷ s) (y ∷ p) = (x == y) && has_prefix s p

-- strings.HasSuffix(s, p)
unfoldable pub has_suffix : Bytes → Bytes → Bool
unfolding has_prefix
has_suffix s p = has_prefix (reverse s) (reverse p)

-- strings.TrimSuffix(s, p)
unfoldable pub trim_suffix : Bytes → Bytes → Bytes
unfolding has_suffix
trim_suffix s p = if has_suffix s p then reverse (drop (length p) (reverse s)) else s

unfoldable pub one_of : Bytes → ℕ → Bool
one_of [] x = false
one_of (c ∷ set) x = (x == c) || one_of set x

-- strings.TrimLeft(s, set), with a set of bytes
unfoldable pub trim_left_set : Bytes → Bytes → Bytes
unfolding one_of
trim_left_set set [] = []
trim_left_set set (x ∷ s) = if one_of set x then trim_left_set set s else x ∷ s

-- strings.TrimRight(s, set) and strings.Trim(s, set)
unfoldable pub trim_right_set : Bytes → Bytes → Bytes
unfolding trim_left_set
trim_right_set set s = reverse (trim_left_set set (reverse s))

unfoldable pub trim_set : Bytes → Bytes → Bytes
unfolding trim_left_set trim_right_set
trim_set set s = trim_right_set set (trim_left_set set s)

-- strings.Contains(s, p)
unfoldable pub contains : Bytes → Bytes → Bool
unfolding has_prefix
contains [] p = has_prefix [] p
contains (x ∷ s) p = has_prefix (x ∷ s) p || contains s p

-- strings.Count(s, c), for one byte
unfoldable pub count : Bytes → ℕ → ℕ
count [] c = 0
count (x ∷ s) c = if x == c then suc (count s c) else count s c

-- strings.Replace(s, a, b, -1), for one byte by one byte
unfoldable pub replace : ℕ → ℕ → Bytes → Bytes
replace a b = map (λ x. if x == a then b else x)

-- strings.Split at a separator of several bytes; the number counts the bytes of a match that are
-- still to be passed over.
unfoldable pub pieces : Bytes → ℕ → Bytes → List Bytes
unfolding onto_first has_prefix
pieces sep k [] = [] ∷ []
pieces sep (suc k) (c ∷ s) = pieces sep k s
pieces sep zero (c ∷ s) = elim (has_prefix (c ∷ s) sep) [
  | true ↦ [] ∷ pieces sep (length (drop 1 sep)) s
  | false ↦ onto_first c (pieces sep zero s)
]

unfoldable pub split_at : Bytes → Bytes → List Bytes
unfolding pieces has_prefix onto_first
split_at sep s = pieces sep 0 s

-- strings.ToLower, on ASCII
unfoldable pub to_lower : Bytes → Bytes
to_lower = map (λ c. if leb b'A' c && leb c b'Z' then c + 32 else c)

-- One element of a path, on a stack of the elements before it.
unfoldable pub walk : List Bytes → Bytes → List Bytes
unfolding same
walk stack e =
    if same e [] || same e (codes ".")
    then stack
    else if same e (codes "..")
    then drop 1 stack
    else e ∷ stack

unfoldable pub walk_all : List Bytes → List Bytes → List Bytes
unfolding walk
walk_all stack [] = stack
walk_all stack (e ∷ es) = walk_all (walk stack e) es

-- path.Clean, on a path that begins with a slash
unfoldable pub clean : Bytes → Bytes
unfolding walk_all split join
clean s = slash ∷ join slash (reverse (walk_all [] (split slash s)))

-- path.Join, on elements the first of which begins with a slash
unfoldable pub join_path : List Bytes → Bytes
unfolding clean
join_path es = clean (join slash es)

split_runs : split slash (codes "/a//b") ≡ [] ∷ codes "a" ∷ [] ∷ codes "b" ∷ []
unfolding split
split_runs = refl

split_after_n_runs : split_after_n dot 2 (codes "x.y.z") ≡ codes "x." ∷ codes "y.z" ∷ []
unfolding split_after_n
split_after_n_runs = refl

split_n_runs : split_n dot 2 (codes "x.y.z") ≡ codes "x" ∷ codes "y.z" ∷ []
unfolding split_n
split_n_runs = refl

split_at_runs : split_at (codes "ab") (codes "1ab2ab") ≡ codes "1" ∷ codes "2" ∷ [] ∷ []
unfolding split_at
split_at_runs = refl

join_path_runs : join_path (codes "/x/" ∷ codes "a" ∷ codes ".." ∷ codes "b" ∷ []) ≡ codes "/x/b"
unfolding join_path
join_path_runs = refl

trim_runs :
    (trim_left_set (codes "Bearer ") (codes "Bearer JDJh") ≡ codes "JDJh")
    × (trim_suffix (codes "a/") (codes "/") ≡ codes "a")
unfolding trim_left_set trim_suffix
trim_runs = (refl, refl)
