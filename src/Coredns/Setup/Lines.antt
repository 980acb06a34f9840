-- ===== src/Coredns/Setup/Lines.antt =====
-- The block of the plugin as lines of words, and what etcdParse makes of the four that the command writes.
use rdns_server.Base.{
  ℕ, zero, suc, ◌+◌, ◌<◌, ◌≡◌, ◌≢◌, refl, Bool-cases, inl, inr, ◌/◌, ◌%◌, Bool, true, false, not,
  ◌&&◌, List, [], ◌∷◌, ◌++◌, map, some, Bytes, codes, length, same, ltb, leb, ◌==◌, ok, arith,
}
use rdns_server.Base.Int.{pos}
use rdns_server.Base.Exec.{◌>>=◌}
use rdns_server.Text.{join}
use rdns_server.Text.Numbers.{parse_int, digits, digits-ne, itoa}
use rdns_server.Coredns.Setup.{
  Library, Config, property, block, connected, etcd_parse, initial, zones_or, new_etcd_client,
  etcd_of, bound_of,
}

abbrev pub blank : ℕ
blank = b' '

-- What the properties of the block are indented by.
abbrev pub indent : Bytes
indent = codes "        "

-- A byte that has no meaning of its own in a Corefile.
abbrev ordinary : ℕ → Bool
ordinary c =
    ltb blank c
    && not (c == b'"')
    && not (c == b'#')
    && not (c == b'\\')
    && not (c == b'{')
    && not (c == b'}')

unfoldable pub all_ordinary : Bytes → Bool
all_ordinary [] = true
all_ordinary (c ∷ s) = ordinary c && all_ordinary s

-- A word that the lexer takes as it is.
unfoldable pub is_plain : Bytes → Bool
unfolding all_ordinary
is_plain s = leb 1 (length s) && all_ordinary s

unfoldable pub all_plain : List Bytes → Bool
unfolding is_plain
all_plain [] = true
all_plain (w ∷ ws) = is_plain w && all_plain ws

all_ordinary-append :
    (s t : Bytes) → all_ordinary s ≡ true → all_ordinary t ≡ true → all_ordinary (s ++ t) ≡ true
unfolding all_ordinary
all_ordinary-append [] t h k = k
all_ordinary-append (c ∷ s) t h k = ground (arith, all_ordinary-append s t)

digit-ordinary : (d : ℕ) → d < 10 → all_ordinary ((b'0' + d) ∷ []) ≡ true
unfolding all_ordinary
digit-ordinary d h = ground arith

digits-ordinary : (fuel n : ℕ) → all_ordinary (digits fuel n) ≡ true
unfolding digits
digits-ordinary zero n = unfold all_ordinary in refl
digits-ordinary (suc fuel) n = elim (Bool-cases (ltb n 10)) [
  | inl e ↦ rw (digits, e) (digit-ordinary n (ground arith))
  | inr e ↦
      rw (digits, e)
        (all_ordinary-append (digits fuel (n / 10)) ((b'0' + n % 10) ∷ [])
          (digits-ordinary fuel (n / 10)) (digit-ordinary (n % 10) (omega arith)))
]

-- A number is written as one word.
pub is_plain-itoa : (n : ℕ) → is_plain (itoa n) ≡ true
unfolding is_plain itoa
is_plain-itoa n = full (digits (suc n) n) (digits-ne n n) (digits-ordinary (suc n) n)
  where
    full :
        (s : Bytes) → s ≢ [] → all_ordinary s ≡ true → (leb 1 (length s) && all_ordinary s) ≡ true
    full [] h k = absurd (h refl)
    full (c ∷ s) h k = ground arith

length-cons : (w : Bytes) (ws : List Bytes) → (length (w ∷ ws) == 0) ≡ false
length-cons w ws = ground arith

-- What is relied on of the lexer and the dispenser: the words of a line are separated by blanks; a
-- controller stands at a word, with the rest of its line and the lines of the block that follow.
pub record Reading (lib : Library) : Type 1 where
  pub words : Bytes → List Bytes
  pub words-join : (ws : List Bytes) → all_plain ws ≡ true → words (indent ++ join blank ws) ≡ ws
  pub At : lib.Controller → Bytes → List Bytes → List (List Bytes) → Type 0
  pub at-val :
      (c : lib.Controller) (w : Bytes) (ws : List Bytes) (ls : List (List Bytes))
      → At c w ws ls
      → lib.val c ≡ w
  pub at-next_arg :
      (c : lib.Controller) (w v : Bytes) (ws : List Bytes) (ls : List (List Bytes))
      → At c w (v ∷ ws) ls
      → ((lib.next_arg c).0 ≡ true) × At (lib.next_arg c).1 v ws ls
  pub at-remaining_args :
      (c : lib.Controller) (w : Bytes) (ws : List Bytes) (ls : List (List Bytes))
      → At c w ws ls
      → ((lib.remaining_args c).0 ≡ ws) × ((v : Bytes) × At (lib.remaining_args c).1 v [] ls)
  pub at-next_block :
      (c : lib.Controller) (w v : Bytes) (ws : List Bytes) (ls : List (List Bytes))
      → At c w [] ((v ∷ ws) ∷ ls)
      → ((lib.next_block c).0 ≡ true) × At (lib.next_block c).1 v ws ls
  pub at-end : (c : lib.Controller) (w : Bytes) → At c w [] [] → (lib.next_block c).0 ≡ false

module _ (lib : Library) (r : Reading lib) where
  -- A round on a line: its property is set, and the loop goes on.
  pub block-line :
      (fuel : ℕ) (cfg : Config lib) (c : lib.Controller) (w v : Bytes) (ws : List Bytes)
      (ls : List (List Bytes))
      → r.At c w [] ((v ∷ ws) ∷ ls)
      → block lib (suc fuel) cfg c ≡ (property lib v cfg >>= block lib fuel) (lib.next_block c).1
  unfolding block
  block-line fuel cfg c w v ws ls h =
      let (found, at) = r.at-next_block c w v ws ls h in
      rw (block, found, r.at-val (lib.next_block c).1 v ws ls at) refl

  pub block-end :
      (fuel : ℕ) (cfg : Config lib) (c : lib.Controller) (w : Bytes)
      → r.At c w [] []
      → (block lib (suc fuel) cfg c).0 ≡ ok (some cfg)
  unfolding block
  block-end fuel cfg c w h = rw (block, r.at-end c w h) refl

  -- The loop from a configuration on, over these lines, ends with another.
  abbrev pub Becomes : ℕ → Config lib → List (List Bytes) → Config lib → Type 0
  Becomes fuel cfg ls cfg' =
      (c : lib.Controller) (w : Bytes) → r.At c w [] ls → (block lib fuel cfg c).0 ≡ ok (some cfg')

  pub Becomes-path :
      (fuel : ℕ) (cfg cfg' : Config lib) (p : Bytes) (ls : List (List Bytes))
      → Becomes fuel (record cfg { path_prefix = p }) ls cfg'
      → Becomes (suc fuel) cfg ((codes "path" ∷ p ∷ []) ∷ ls) cfg'
  unfolding property same
  Becomes-path fuel cfg cfg' p ls k c w h =
      let d = (lib.next_block c).1 in
      let at = (r.at-next_block c w (codes "path") (p ∷ []) ls h).1 in
      let (found, there) = r.at-next_arg d (codes "path") p [] ls at in
      rw
        (
          block-line fuel cfg c w (codes "path") (p ∷ []) ls h,
          property,
          found,
          r.at-val (lib.next_arg d).1 p [] ls there,
        )
        (k (lib.next_arg d).1 p there)

  pub Becomes-endpoint :
      (fuel : ℕ) (cfg cfg' : Config lib) (e : Bytes) (es : List Bytes) (ls : List (List Bytes))
      → Becomes fuel (record cfg { endpoints = e ∷ es }) ls cfg'
      → Becomes (suc fuel) cfg ((codes "endpoint" ∷ e ∷ es) ∷ ls) cfg'
  unfolding property same
  Becomes-endpoint fuel cfg cfg' e es ls k c w h =
      let d = (lib.next_block c).1 in
      let at = (r.at-next_block c w (codes "endpoint") (e ∷ es) ls h).1 in
      let (found, (v, there)) = r.at-remaining_args d (codes "endpoint") (e ∷ es) ls at in
      rw
        (
          block-line fuel cfg c w (codes "endpoint") (e ∷ es) ls h,
          property,
          found,
          length-cons e es,
        )
        (k (lib.remaining_args d).1 v there)

  pub Becomes-upstream :
      (fuel : ℕ) (cfg cfg' : Config lib) (us : List Bytes) (ls : List (List Bytes))
      → Becomes fuel (record cfg { upstream = some lib.new_upstream }) ls cfg'
      → Becomes (suc fuel) cfg ((codes "upstream" ∷ us) ∷ ls) cfg'
  unfolding property same
  Becomes-upstream fuel cfg cfg' us ls k c w h =
      let d = (lib.next_block c).1 in
      let at = (r.at-next_block c w (codes "upstream") us ls h).1 in
      let (v, there) = (r.at-remaining_args d (codes "upstream") us ls at).1 in
      rw (block-line fuel cfg c w (codes "upstream") us ls h, property)
        (k (lib.remaining_args d).1 v there)

  pub Becomes-wildcardbound :
      (fuel : ℕ) (cfg cfg' : Config lib) (v : Bytes) (n : ℕ) (ls : List (List Bytes))
      → parse_int 8 v ≡ some (pos n)
      → Becomes fuel (record cfg { wildcard_bound = n }) ls cfg'
      → Becomes (suc fuel) cfg ((codes "wildcardbound" ∷ v ∷ []) ∷ ls) cfg'
  unfolding property same bound_of
  Becomes-wildcardbound fuel cfg cfg' v n ls e k c w h =
      let d = (lib.next_block c).1 in
      let at = (r.at-next_block c w (codes "wildcardbound") (v ∷ []) ls h).1 in
      let (found, there) = r.at-next_arg d (codes "wildcardbound") v [] ls at in
      rw
        (
          block-line fuel cfg c w (codes "wildcardbound") (v ∷ []) ls h,
          property,
          found,
          r.at-val (lib.next_arg d).1 v [] ls there,
          e,
        )
        (k (lib.next_arg d).1 v there)

  pub Becomes-end : (fuel : ℕ) (cfg : Config lib) → Becomes (suc fuel) cfg [] cfg
  Becomes-end fuel cfg c w h = block-end fuel cfg c w h

  -- etcdParse of a block whose lines become a configuration, for which the client is made.
  pub etcd_parse-of_lines :
      (fuel : ℕ) (c : lib.Controller) (w z : Bytes) (zs : List Bytes) (ls : List (List Bytes))
      (cfg : Config lib) (client : lib.Client)
      → (lib.next c).0 ≡ true
      → r.At (lib.next c).1 w (z ∷ zs) ls
      → Becomes fuel (initial lib (map lib.normalize (z ∷ zs))) ls cfg
      → new_etcd_client lib cfg.endpoints cfg.tls cfg.username cfg.password ≡ ok client
      → (etcd_parse lib fuel c).0 ≡ ok (some (etcd_of lib cfg client))
  unfolding etcd_parse connected zones_or
  etcd_parse-of_lines fuel c w z zs ls cfg client t h k n =
      let d = (lib.next c).1 in
      let (given, (v, there)) = r.at-remaining_args d w (z ∷ zs) ls h in
      rw (t, given, length-cons z zs, k (lib.remaining_args d).1 v there, n) refl
