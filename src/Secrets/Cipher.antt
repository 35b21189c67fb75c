-- ===== src/Secrets/Cipher.antt =====
-- Encrypting twice with one key is the identity on bytes.
use Prim.Native.Nat.{bit_xor}
use schema_pilot.Base.{
  ℕ, zero, suc, ◌<◌, ◌%◌, Bool, true, ◌&&◌, [], ◌∷◌, ◌≡◌, refl, ap, ◌∙◌, All, length, eqb, arith,
  Bool-cases, inl, inr,
}
use schema_pilot.Secrets.{Bytes, byte_at, xor_bytes}

-- the test holds of the first `size` numbers
each_byte : (ℕ → Bool) → ℕ → Bool
each_byte test zero = true
each_byte test (suc size) = each_byte test size && test size

each_byte-test :
    (test : ℕ → Bool) (b size : ℕ) → b < size → each_byte test size ≡ true → test b ≡ true
unfolding each_byte
each_byte-test test b zero below all = absurd (omega (arith, below))
each_byte-test test b (suc size) below all = elim (Bool-cases (eqb b size)) [
  | inl last ↦ let same : b ≡ size = ground (arith, last) in ap test same ∙ ground (arith, all)
  | inr earlier ↦ each_byte-test test b size (ground (arith, earlier, below)) (ground (arith, all))
]

-- a byte, after the key's byte was applied twice
abbrev is_restored : ℕ → ℕ → Bool
is_restored k b = eqb b (bit_xor (bit_xor b k) k)

each_byte-restored : each_byte (λ k. each_byte (is_restored k) 256) 256 ≡ true
unfolding each_byte
each_byte-restored = refl

xor_twice : (b k : ℕ) → b < 256 → k < 256 → bit_xor (bit_xor b k) k ≡ b
xor_twice b k is_byte key_byte =
    let column =
      each_byte-test (λ i. each_byte (is_restored i) 256) k 256 key_byte each_byte-restored in
    let same = each_byte-test (is_restored k) b 256 is_byte column in ground (arith, same)

-- every element is a byte
abbrev pub IsBytes : Bytes → Type 0
IsBytes bs = All (λ (b : ℕ). b < 256) bs

byte_at-below : (i : ℕ) (key : Bytes) → IsBytes key → byte_at i key < 256
unfolding byte_at
byte_at-below i [] h = omega arith
byte_at-below zero (b ∷ bs) h = h.0
byte_at-below (suc i) (b ∷ bs) h = byte_at-below i bs h.1

pub xor_bytes-xor_bytes :
    (key : Bytes) (i : ℕ) (payload : Bytes)
    → IsBytes key
    → IsBytes payload
    → xor_bytes key i (xor_bytes key i payload) ≡ payload
unfolding xor_bytes
xor_bytes-xor_bytes key i [] h g = refl
xor_bytes-xor_bytes key i (b ∷ bs) h g =
    rw
      (
        xor_twice b (byte_at (i % length key) key) g.0 (byte_at-below (i % length key) key h),
        xor_bytes-xor_bytes key (suc i) bs h g.1,
      )
      refl
