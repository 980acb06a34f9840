-- ===== src/Random.antt =====
-- util/random.go: strings of letters drawn from random bytes.
pub mod Draws
pub mod Examples
use rdns_server.Base.{
  ℕ, zero, suc, ◌+◌, ◌-◌, ◌*◌, ◌/◌, ◌%◌, ◌^◌, ◌==◌, Bool, true, false, ◌||◌, List, [], ◌∷◌, Option,
  none, some, Bytes, codes, length, ltb, if◌then◌else◌, Result, ok, err,
}

abbrev pub small_letters : Bytes
small_letters = codes "0123456789abcdefghijklmnopqrstuvwxyz"

abbrev pub all_letters : Bytes
all_letters = codes "ABCDEFGHIJKLMNOPQRSTUVWXYZabcdefghijklmnopqrstuvwxyz0123456789"

-- `for bits != 0 { bits >>= 1; bitLength++ }`, with this many rounds at most.
unfoldable pub bit_length : ℕ → ℕ → ℕ
bit_length zero bits = 0
bit_length (suc fuel) bits =
    let rest = bit_length fuel (bits / 2) in if bits == 0 then 0 else suc rest

-- 1<<bitLength - 1, as a byte.
unfoldable pub bit_mask : ℕ → ℕ
unfolding bit_length
bit_mask letters = (2 ^ bit_length letters (letters - 1) % 256 + 255) % 256

unfoldable pub buffer_size : ℕ → ℕ
buffer_size length = length + length / 3

-- The byte at an index, which is 0 behind the end.
unfoldable pub byte_at : Bytes → ℕ → ℕ
byte_at [] i = 0
byte_at (x ∷ xs) zero = x
byte_at (x ∷ xs) (suc i) = byte_at xs i

module _ (fresh : ℕ → Bytes) (alphabet : Bytes) (size : ℕ) where
  -- The byte of round `j`: the buffer is filled anew in each round whose number the buffer's size divides,
  -- and `fresh` gives what it is filled with.
  unfoldable pub random_byte : ℕ → ℕ
  unfolding buffer_size byte_at
  random_byte j = byte_at (fresh (j / buffer_size size)) (j % size)

  -- The masked byte: the mask is one less than a power of two, so that `&` is the remainder.
  unfoldable pub index : ℕ → ℕ
  unfolding random_byte bit_mask
  index j = random_byte j % (bit_mask (length alphabet) + 1)

  unfoldable pub is_drawn : ℕ → Bool
  unfolding index
  is_drawn j = ltb (index j) (length alphabet)

  -- The loop from round `j` on, with this many letters left to draw; `none` if there are too few rounds.
  unfoldable pub letters : ℕ → ℕ → ℕ → Option Bytes
  unfolding is_drawn index byte_at
  letters rounds j zero = some []
  letters zero j (suc left) = none
  letters (suc rounds) j (suc left) =
      let drawn = letters rounds (j + 1) left in
      let skipped = letters rounds (j + 1) (suc left) in
      if is_drawn j
      then elim drawn [ none ↦ none | some s ↦ some (byte_at alphabet (index j) ∷ s) ]
      else skipped

  -- SecureRandomString, with this many rounds; the error is its panic.
  unfoldable pub secure_random_string : ℕ → Result Bytes (Option Bytes)
  unfolding letters
  secure_random_string rounds =
      if (length alphabet == 0) || ltb 256 (length alphabet)
      then err
          (codes "availableCharBytes length must be greater than 0 and less than or equal to 256")
      else ok (letters rounds 0 size)

unfoldable pub rand_string_with_small : (ℕ → Bytes) → ℕ → ℕ → Result Bytes (Option Bytes)
unfolding secure_random_string
rand_string_with_small fresh n rounds = secure_random_string fresh small_letters n rounds

unfoldable pub rand_string_with_all : (ℕ → Bytes) → ℕ → ℕ → Result Bytes (Option Bytes)
unfolding secure_random_string
rand_string_with_all fresh n rounds = secure_random_string fresh all_letters n rounds
