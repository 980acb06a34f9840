-- ===== src/Text/Clean.antt =====
-- What path.Join makes of path elements that hold no slash and are not special.
use mathlib.Core.List.{reverse-append, reverse-reverse, reverse-cons}
use rdns_server.Base.{
  ◌≢◌, ◌≡◌, refl, sym, List, [], ◌∷◌, ◌++◌, reverse, append_assoc, Bytes, codes, All, arith,
  same_iff,
}
use rdns_server.Text.{split, join, walk, walk_all, clean, join_path, slash}
use rdns_server.Text.RoundTrip.{Lacks, split-append, split_one, split-join}

-- A path element that path.Clean keeps as it is.
pub record IsSegment (s : Bytes) : Type 0 where
  pub filled : s ≢ []
  pub flat : Lacks slash s
  pub not_dot : s ≢ codes "."
  pub not_up : s ≢ codes ".."

walk-IsSegment : (stack : List Bytes) (e : Bytes) → IsSegment e → walk stack e ≡ e ∷ stack
unfolding walk
walk-IsSegment stack e h = ground (
  arith,
  same_iff e [],
  same_iff e (codes "."),
  same_iff e (codes ".."),
  h.filled,
  h.not_dot,
  h.not_up,
)

walk_all-IsSegment :
    (es stack : List Bytes) → All IsSegment es → walk_all stack es ≡ reverse es ++ stack
unfolding walk_all
walk_all-IsSegment [] stack h = refl
walk_all-IsSegment (e ∷ es) stack (he, hes) =
    rw (walk-IsSegment stack e he, walk_all-IsSegment es (e ∷ stack) hes, reverse-cons e es)
      (sym (append_assoc (reverse es) (e ∷ []) stack))

pub All-flat : (es : List Bytes) → All IsSegment es → All (Lacks slash) es
All-flat [] h = tt
All-flat (e ∷ es) (he, hes) = (he.flat, All-flat es hes)

walk-nil : (stack : List Bytes) → walk stack [] ≡ stack
unfolding walk
walk-nil stack = ground (arith, same_iff [] [])

-- The elements of "/prefix/" and the labels joined by slashes.
split_elements :
    (p : Bytes) (ls : List Bytes)
    → Lacks slash p
    → All (Lacks slash) ls
    → split slash (join slash ((slash ∷ (p ++ slash ∷ [])) ∷ ls)) ≡ [] ∷ p ∷ [] ∷ ls
unfolding join
split_elements p [] hp h =
    rw (
      split-append slash [] (p ++ slash ∷ []) tt,
      split-append slash p [] hp,
      split_one slash [] tt,
    )
split_elements p (l ∷ ls) hp h = rw (
  append_assoc p (slash ∷ []) (slash ∷ join slash (l ∷ ls)),
  split-append slash [] (p ++ slash ∷ slash ∷ join slash (l ∷ ls)) tt,
  split-append slash p (slash ∷ join slash (l ∷ ls)) hp,
  split-append slash [] (join slash (l ∷ ls)) tt,
  split-join slash (l ∷ ls) (λ e. cc) h,
)

pub join_path-IsSegment :
    (p : Bytes) (ls : List Bytes)
    → IsSegment p
    → All IsSegment ls
    → join_path ((slash ∷ (p ++ slash ∷ [])) ∷ ls) ≡ slash ∷ join slash (p ∷ ls)
unfolding join_path clean walk_all
join_path-IsSegment p ls hp h = rw (
  split_elements p ls hp.flat (All-flat ls h),
  walk-nil [],
  walk-IsSegment [] p hp,
  walk-nil (p ∷ []),
  walk_all-IsSegment ls (p ∷ []) h,
  reverse-append (reverse ls) (p ∷ []),
  reverse-reverse ls,
)
