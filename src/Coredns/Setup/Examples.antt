-- ===== src/Coredns/Setup/Examples.antt =====
-- A dispenser over lines of words, and setup run with it.
use rdns_server.Base.{
  ◌≡◌, refl, Bool, true, false, List, [], ◌∷◌, ◌++◌, Bytes, codes, same, All, if◌then◌else◌, ok,
  err, arith,
}
use rdns_server.Text.{split, join, to_lower}
use rdns_server.Text.RoundTrip.{Lacks, split-join}
use rdns_server.Coredns.Setup.{Library, unknown_property, bad_number, property, setup}
use rdns_server.Coredns.Setup.Lines.{Reading, blank, indent, all_ordinary, is_plain, all_plain}

-- The word that a controller stands at, the rest of its line, and the lines that follow.
abbrev pub Tokens : Type 0
Tokens = Bytes × (List Bytes × List (List Bytes))

abbrev take_arg : Tokens → Bool × Tokens
take_arg (w, ([], ls)) = (false, (w, ([], ls)))
take_arg (w, (v ∷ ws, ls)) = (true, (v, (ws, ls)))

abbrev take_block : Tokens → Bool × Tokens
take_block (w, ([], [])) = (false, (w, ([], [])))
take_block (w, ([], [] ∷ ls)) = (false, (w, ([], ls)))
take_block (w, ([], (v ∷ ws) ∷ ls)) = (true, (v, (ws, ls)))
take_block (w, (v ∷ ws, ls)) = (true, (v, (ws, ls)))

abbrev pub dispenser : Library
dispenser = record {
  Controller = Tokens;
  Fall = List Bytes;
  Tls = Bytes;
  Upstream = Unit;
  Client = List Bytes;
  next = take_arg;
  next_block = take_block;
  next_arg = take_arg;
  remaining_args = λ c. (c.1.0, (c.0, ([], c.1.1)));
  val = λ c. c.0;
  server_block_keys = λ c. codes "." ∷ [];
  normalize = λ z. to_lower z ++ codes ".";
  no_fall = [];
  fall_of = λ zs. zs;
  new_tls = λ files. err (codes "no files");
  new_upstream = tt;
  new_client = λ cfg. ok cfg.endpoints;
}

-- strings.Fields, on lines without other blanks.
unfoldable pub full_words : List Bytes → List Bytes
full_words [] = []
full_words (w ∷ ws) = let rest = full_words ws in if same w [] then rest else w ∷ rest

plain-Lacks : (w : Bytes) → all_ordinary w ≡ true → Lacks blank w
unfolding all_ordinary
plain-Lacks [] h = tt
plain-Lacks (c ∷ w) h = (ground arith, plain-Lacks w (ground arith))

all_plain-Lacks : (ws : List Bytes) → all_plain ws ≡ true → All (Lacks blank) ws
unfolding all_plain is_plain
all_plain-Lacks [] h = tt
all_plain-Lacks (w ∷ ws) h = (plain-Lacks w (ground arith), all_plain-Lacks ws (ground arith))

full_words-plain : (ws : List Bytes) → all_plain ws ≡ true → full_words ws ≡ ws
unfolding full_words all_plain is_plain same
full_words-plain [] h = refl
full_words-plain ([] ∷ ws) h = absurd cc
full_words-plain ((c ∷ w) ∷ ws) h = ground (arith, full_words-plain ws)

pub words-indented :
    (ws : List Bytes)
    → all_plain ws ≡ true
    → full_words (split blank (indent ++ join blank ws)) ≡ ws
unfolding full_words split same join
words-indented [] h = refl
words-indented (w ∷ ws) h =
    rw (split-join blank (w ∷ ws) (λ e. cc) (all_plain-Lacks (w ∷ ws) h))
      (full_words-plain (w ∷ ws) h)

unfoldable pub reading : Reading dispenser
reading = record {
  words = λ s. full_words (split blank s);
  words-join = words-indented;
  At = λ c w ws ls. c ≡ (w, (ws, ls));
  at-val = λ c w ws ls h. rw h refl;
  at-next_arg = λ c w v ws ls h. rw h (refl, refl);
  at-remaining_args = λ c w ws ls h. rw h (refl, (w, refl));
  at-next_block = λ c w v ws ls h. rw h (refl, refl);
  at-end = λ c w h. rw h refl;
}

-- A block with an unknown property.
abbrev unknown_word : Tokens
unknown_word = (
  [],
  (
    codes "rdns" ∷ codes "lb.cloud" ∷ [],
    (codes "path" ∷ codes "/rdnsv3" ∷ []) ∷ (codes "wildcards" ∷ codes "4" ∷ []) ∷ [],
  ),
)

setup_unknown :
    (setup dispenser 9 [] unknown_word).0
    ≡ err (record { plugin = codes "rdns"; error = unknown_property (codes "wildcards") })
unfolding setup property same
setup_unknown = refl

-- A bound of 128 has too many bits.
setup_bound :
    (setup dispenser 9 [] (
      [],
      (codes "rdns" ∷ codes "lb.cloud" ∷ [], (codes "wildcardbound" ∷ codes "128" ∷ []) ∷ []),
    )).0
    ≡ err (record { plugin = codes "rdns"; error = bad_number (codes "128") })
unfolding setup property same rdns_server.Text.Numbers.parse_int
setup_bound = refl
