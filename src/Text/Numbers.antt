-- ===== src/Text/Numbers.antt =====
-- strconv.ParseInt in base 10, strconv.Atoi, and strconv.Itoa on a number that is not negative.
use rdns_server.Base.{
  ℕ, zero, suc, ◌+◌, ◌-◌, ◌*◌, ◌/◌, ◌%◌, ◌^◌, ◌<◌, ◌≡◌, ◌≢◌, refl, ap, ◌∙◌, Bool-cases, inl, inr,
  true, false, ◌&&◌, [], ◌∷◌, ◌++◌, Option, none, some, Bytes, ltb, leb, ◌==◌, if◌then◌else◌, arith,
}
use rdns_server.Base.Int.{ℤ, pos, negsuc}

-- The number that decimal digits stand for, behind the digits before them.
unfoldable pub parse_digits : ℕ → Bytes → Option ℕ
parse_digits n [] = some n
parse_digits n (c ∷ s) =
    let rest = parse_digits (n * 10 + (c - b'0')) s in
    if leb b'0' c && leb c b'9' then rest else none

unfoldable parse_unsigned : Bytes → Option ℕ
unfolding parse_digits
parse_unsigned [] = none
parse_unsigned (c ∷ s) = parse_digits 0 (c ∷ s)

below : ℕ → Option ℕ → Option ℤ
below limit none = none
below limit (some n) = if ltb n limit then some (pos n) else none

not_above : ℕ → Option ℕ → Option ℤ
not_above limit none = none
not_above limit (some zero) = some (pos 0)
not_above limit (some (suc n)) = if leb (suc n) limit then some (negsuc n) else none

-- strconv.ParseInt(s, 10, bits); `none` is its error.
unfoldable pub parse_int : ℕ → Bytes → Option ℤ
unfolding parse_unsigned below not_above
parse_int bits [] = none
parse_int bits (c ∷ s) =
    if c == b'-'
    then not_above (2 ^ (bits - 1)) (parse_unsigned s)
    else if c == b'+'
    then below (2 ^ (bits - 1)) (parse_unsigned s)
    else below (2 ^ (bits - 1)) (parse_unsigned (c ∷ s))

unfoldable pub atoi : Bytes → Option ℤ
unfolding parse_int
atoi = parse_int 64

-- With this many digits at most.
unfoldable pub digits : ℕ → ℕ → Bytes
digits zero n = []
digits (suc fuel) n = elim (ltb n 10) [
  | true ↦ (b'0' + n) ∷ []
  | false ↦ digits fuel (n / 10) ++ (b'0' + n % 10) ∷ []
]

unfoldable pub itoa : ℕ → Bytes
unfolding digits
itoa n = digits (suc n) n

parse_digits-append :
    (xs : Bytes) (m n d : ℕ)
    → d < 10
    → parse_digits m xs ≡ some n
    → parse_digits m (xs ++ (b'0' + d) ∷ []) ≡ some (n * 10 + d)
unfolding parse_digits
parse_digits-append [] m n d h e = ground arith
parse_digits-append (c ∷ xs) m n d h e =
    ground (arith, parse_digits-append xs (m * 10 + (c - b'0')) n d h)

append_one-ne : (xs : Bytes) (c : ℕ) → xs ++ c ∷ [] ≢ []
append_one-ne [] c = λ e. cc
append_one-ne (x ∷ xs) c = λ e. cc

pub digits-ne : (fuel n : ℕ) → digits (suc fuel) n ≢ []
unfolding digits
digits-ne fuel n = elim (Bool-cases (ltb n 10)) [
  | inl e ↦ rw (digits, e) (λ p. cc)
  | inr e ↦ rw (digits, e) (append_one-ne (digits fuel (n / 10)) (b'0' + n % 10))
]

parse_digits-digits : (fuel n : ℕ) → n < fuel → parse_digits 0 (digits fuel n) ≡ some n
unfolding digits
parse_digits-digits zero n h = absurd (omega arith)
parse_digits-digits (suc fuel) n h = elim (Bool-cases (ltb n 10)) [
  | inl e ↦ rw (digits, e) (unfold parse_digits in ground arith)
  | inr e ↦
      rw (digits, e)
        (parse_digits-append (digits fuel (n / 10)) 0 (n / 10) (n % 10) (omega arith)
            (parse_digits-digits fuel (n / 10) (ground arith))
          ∙ ap some (omega arith))
]

-- What is read of the digits of a number, whose first byte is no sign.
parse_int-of_digits :
    (bits n : ℕ) (s : Bytes)
    → s ≢ []
    → parse_digits 0 s ≡ some n
    → parse_int bits s ≡ (if ltb n (2 ^ (bits - 1)) then some (pos n) else none)
unfolding parse_int parse_unsigned below
parse_int-of_digits bits n [] h e = absurd (h refl)
parse_int-of_digits bits n (c ∷ s) h e =
    rw (no_sign b'-' (omega arith), no_sign b'+' (omega arith), e) refl
  where
    no_sign : (x : ℕ) → x < b'0' → (c == x) ≡ false
    no_sign x l = unfold parse_digits in ground arith

-- ParseInt reads back the number that Itoa wrote, where the bits have room for it, and else fails.
pub parse_int-itoa :
    (bits n : ℕ) → parse_int bits (itoa n) ≡ (if ltb n (2 ^ (bits - 1)) then some (pos n) else none)
unfolding itoa
parse_int-itoa bits n =
    parse_int-of_digits bits n (digits (suc n) n) (digits-ne n n)
      (parse_digits-digits (suc n) n (omega arith))
