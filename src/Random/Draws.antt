-- ===== src/Random/Draws.antt =====
-- Which letters the strings of util/random.go have, and when they end.
use rdns_server.Base.{
  ℕ, zero, suc, ◌+◌, ◌-◌, ◌*◌, ◌/◌, ◌%◌, ◌^◌, ◌==◌, ◌≤◌, ◌<◌, ◌≡◌, inl, inr, refl, ap, ◌∙◌, Bool,
  true, false, ◌||◌, [], ◌∷◌, some, Bytes, length, if◌then◌else◌, All, arith, Bool-cases,
}
use rdns_server.Random.{
  bit_length, bit_mask, buffer_size, byte_at, random_byte, index, is_drawn, letters,
}
use native.Mathlib.Nat.{
  mod-add-div, add-mul-div_left, add-mod_right, div-eq_of_lt, mod-eq_of_lt, pow-succ',
  pow-le-pow_right,
}

-- The letter is one of the alphabet.
unfoldable pub one_letter : Bytes → ℕ → Bool
one_letter [] x = false
one_letter (c ∷ cs) x = (x == c) || one_letter cs x

byte_at-one_letter : (cs : Bytes) (i : ℕ) → i < length cs → one_letter cs (byte_at cs i) ≡ true
unfolding one_letter byte_at
byte_at-one_letter [] i h = absurd (omega arith)
byte_at-one_letter (c ∷ cs) zero h = ground arith
byte_at-one_letter (c ∷ cs) (suc i) h = ground (arith, byte_at-one_letter cs i (omega arith))

module _ (fresh : ℕ → Bytes) (alphabet : Bytes) (size : ℕ) where
  -- How many of the rounds from `j` on draw a letter.
  unfoldable pub count_drawn : ℕ → ℕ → ℕ
  count_drawn zero j = 0
  count_drawn (suc rounds) j =
      let rest = count_drawn rounds (j + 1) in
      if is_drawn fresh alphabet size j then suc rest else rest

  is_drawn-lt :
      (j : ℕ)
      → is_drawn fresh alphabet size j ≡ true
      → index fresh alphabet size j < length alphabet
  unfolding is_drawn
  is_drawn-lt j e = ground (arith, e)

  -- Once as many rounds have drawn a letter as the string is to have, the string is complete: it has its
  -- length, and letters of the alphabet only.
  pub letters-count_drawn :
      (rounds j left : ℕ)
      → left ≤ count_drawn rounds j
      → (s : Bytes) × (letters fresh alphabet size rounds j left ≡ some s)
        × (length s ≡ left)
        × All (λ x. one_letter alphabet x ≡ true) s
  unfolding letters count_drawn
  letters-count_drawn zero j zero h = ([], refl, refl, tt)
  letters-count_drawn (suc rounds) j zero h = ([], refl, refl, tt)
  letters-count_drawn zero j (suc left) h = absurd (omega arith)
  letters-count_drawn (suc rounds) j (suc left) h =
      elim (Bool-cases (is_drawn fresh alphabet size j)) [
        | inl e ↦
            let (s, p, q, a) = letters-count_drawn rounds (j + 1) left (ground (arith, h, e)) in
            (
              byte_at alphabet (index fresh alphabet size j) ∷ s,
              rw (e, p, letters) refl,
              ap suc q,
              (byte_at-one_letter alphabet (index fresh alphabet size j) (is_drawn-lt j e), a),
            )
        | inr e ↦
            let (s, p, q, a) =
              letters-count_drawn rounds (j + 1) (suc left) (ground (arith, h, e)) in
            (s, rw (e, letters) p, q, a)
      ]

  -- In the rounds of one buffer behind its first `size`, each byte is read a second time: the same byte is
  -- read as `size` rounds before.
  pub random_byte-again :
      (j : ℕ)
      → 0 < size
      → j % buffer_size size + size < buffer_size size
      → random_byte fresh alphabet size (j + size) ≡ random_byte fresh alphabet size j
  unfolding random_byte buffer_size
  random_byte-again j h l =
      let k = buffer_size size in
      let whole : j + size ≡ (j % k + size) + k * (j / k) = omega (arith, mod-add-div j k) in
      let buffer : (j + size) / k ≡ j / k =
        ap (λ n. n / k) whole
        ∙ add-mul-div_left (j % k + size) (j / k) (omega (arith, l))
        ∙ omega (arith, div-eq_of_lt l) in
      ap (λ n. byte_at (fresh n) ((j + size) % size)) buffer
      ∙ ap (byte_at (fresh (j / k))) (add-mod_right j size)

-- The number of bits suffices for the number, and is no more than needed.
bit_length-lt : (fuel bits : ℕ) → bits ≤ fuel → bits < 2 ^ bit_length fuel bits
unfolding bit_length
bit_length-lt zero bits h = omega arith
bit_length-lt (suc fuel) bits h = elim (Bool-cases (bits == 0)) [
  | inl e ↦ ground (arith, e)
  | inr e ↦
      let half = bit_length-lt fuel (bits / 2) (ground (arith, h, e)) in
      rw e (omega (arith, half, pow-succ' 2 (bit_length fuel (bits / 2))))
]

bit_length-le : (k fuel bits : ℕ) → bits < 2 ^ k → bit_length fuel bits ≤ k
unfolding bit_length
bit_length-le k zero bits h = omega arith
bit_length-le zero (suc fuel) bits h = ground arith
bit_length-le (suc k) (suc fuel) bits h = elim (Bool-cases (bits == 0)) [
  | inl e ↦ ground (arith, e)
  | inr e ↦
      let half = bit_length-le k fuel (bits / 2) (omega (arith, h, pow-succ' 2 k)) in
      rw e (omega (arith, half))
]

-- Every letter of an alphabet that SecureRandomString accepts can be drawn: the mask keeps each index.
pub bit_mask_lem : (n i : ℕ) → n ≤ 256 → i < n → i % (bit_mask n + 1) ≡ i
unfolding bit_mask
bit_mask_lem n i h l =
    let p = 2 ^ bit_length n (n - 1) in
    let enough : n - 1 < p = bit_length-lt n (n - 1) (omega arith) in
    let byte : bit_length n (n - 1) ≤ 8 = bit_length-le 8 n (n - 1) (omega arith) in
    let bound : p ≤ 256 = pow-le-pow_right (omega arith) byte in
    mod-eq_of_lt (omega (arith, enough, bound, l))
