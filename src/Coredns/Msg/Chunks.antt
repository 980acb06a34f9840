-- ===== src/Coredns/Msg/Chunks.antt =====
-- `split255` of coredns/plugin/rdns/msg/service.go: the strings of a TXT record.
use mathlib.Core.List.{flatten}
use rdns_server.Base.{
  ℕ, zero, suc, ◌<◌, ◌≡◌, ap, ◌∙◌, Bool-cases, inl, inr, List, [], ◌∷◌, ◌++◌, Bytes, length, take,
  drop, leb, ltb, if◌then◌else◌, arith, take-append-drop, append-nil, length-take, length-drop,
}

-- `for { … }`, on the rest `s[p:]`, with a bound on the rounds: each takes 255 bytes.
chunks : ℕ → Bytes → List Bytes
chunks zero s = []
chunks (suc fuel) s =
    let rest = chunks fuel (drop 255 s) in if leb 255 (length s) then take 255 s ∷ rest else s ∷ []

unfoldable pub split255 : Bytes → List Bytes
unfolding chunks
split255 s = if ltb (length s) 255 then s ∷ [] else chunks (suc (length s)) s

-- What a TXT record holds: full strings of 255 bytes, and one shorter string behind them.
abbrev pub Chunked : List Bytes → Type 0
Chunked [] = ⊥
Chunked (c ∷ []) = length c < 255
Chunked (c ∷ d ∷ cs) = (length c ≡ 255) × Chunked (d ∷ cs)

chunks-Chunked-cons : (c : Bytes) (cs : List Bytes) → length c ≡ 255 → Chunked cs → Chunked (c ∷ cs)
chunks-Chunked-cons c [] h k = absurd k
chunks-Chunked-cons c (d ∷ cs) h k = (h, k)

flatten-chunks : (fuel : ℕ) (s : Bytes) → length s < fuel → flatten (chunks fuel s) ≡ s
unfolding chunks flatten
flatten-chunks zero s h = absurd (omega arith)
flatten-chunks (suc fuel) s h = elim (Bool-cases (leb 255 (length s))) [
  | inl e ↦ rw e (
      ap (λ t. take 255 s ++ t)
        (flatten-chunks fuel (drop 255 s) (ground (arith, length-drop 255 s)))
      ∙ take-append-drop 255 s)
  | inr e ↦ rw e (append-nil s)
]

chunks-Chunked : (fuel : ℕ) (s : Bytes) → length s < fuel → Chunked (chunks fuel s)
unfolding chunks
chunks-Chunked zero s h = absurd (omega arith)
chunks-Chunked (suc fuel) s h = elim (Bool-cases (leb 255 (length s))) [
  | inl e ↦ rw e (
      chunks-Chunked-cons (take 255 s) _ (length-take 255 s (ground arith))
        (chunks-Chunked fuel (drop 255 s) (ground (arith, length-drop 255 s))))
  | inr e ↦ rw e (ground arith)
]

-- The strings of a text spell the text, all but the last have 255 bytes, and the last has fewer
-- (none, where the length is a multiple of 255 and not 0).
pub split255_lem : (s : Bytes) → (flatten (split255 s) ≡ s) × Chunked (split255 s)
unfolding split255 flatten
split255_lem s = elim (Bool-cases (ltb (length s) 255)) [
  | inl e ↦ rw e (append-nil s, ground arith)
  | inr e ↦ rw e (
    flatten-chunks (suc (length s)) s (omega arith),
    chunks-Chunked (suc (length s)) s (omega arith),
  )
]
