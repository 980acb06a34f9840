-- ===== src/Route53/Records/Quotes.antt =====
-- The quotation marks that SetText puts around a text and GetText takes off.
use rdns_server.Base.{false, [], ◌∷◌, ◌++◌, reverse, Bytes, ◌≡◌, refl, ap, ◌∙◌, arith}
use mathlib.Core.List.{reverse-append, reverse-reverse}
use rdns_server.Text.{has_prefix, has_suffix, one_of, trim_left_set, trim_right_set, trim_set}
use rdns_server.Route53.Records.{quoted}

abbrev quote : Bytes
quote = b'"' ∷ []

trim_left_set-keeps : (s : Bytes) → has_prefix s quote ≡ false → trim_left_set quote s ≡ s
unfolding has_prefix trim_left_set one_of
trim_left_set-keeps [] h = refl
trim_left_set-keeps (x ∷ s) h = ground arith

trim_right_set-quoted :
    (s : Bytes) → has_suffix s quote ≡ false → trim_right_set quote (s ++ quote) ≡ s
unfolding has_suffix trim_right_set trim_left_set one_of
trim_right_set-quoted s h =
    ap (λ x. reverse (trim_left_set quote x)) (reverse-append s quote)
    ∙ ap reverse (trim_left_set-keeps (reverse s) h)
    ∙ reverse-reverse s

-- Trimming the quotation marks off a quoted text gives the text back, where it neither begins nor ends
-- with one.
pub trim_set-quoted :
    (s : Bytes)
    → has_prefix s quote ≡ false
    → has_suffix s quote ≡ false
    → trim_set quote (quoted s) ≡ s
unfolding trim_set quoted trim_left_set one_of has_prefix
trim_set-quoted [] p q = refl
trim_set-quoted (x ∷ s) p q =
    let other : one_of quote x ≡ false = ground (arith, p) in
    rw (other, trim_left_set) (trim_right_set-quoted (x ∷ s) q)
