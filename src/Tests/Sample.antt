-- ===== src/Tests/Sample.antt =====
-- A checksum in the place of SHA-256, which meets the interface, and a small transaction.
use mfspv.Base.{
  true, ok, index, ◌==◌, ℕ, ◌+◌, ◌*◌, ◌%◌, ◌<◌, refl, [], ◌∷◌, Bytes, All, IsByte, replicate, arith,
}
use mfspv.Crypto.{Signatures, SignatureLaws}
use mfspv.Commitment.Hashing.{Sha256, Hash, FieldLeaf, TxFields}

abbrev pub checksum : ℕ → Bytes → ℕ
checksum acc [] = acc % 256
checksum acc (b ∷ bs) = checksum ((acc * 31 + b + 7) % 65521) bs

-- The first bits are often 0, for the alerts.
abbrev pub toy_sum : Bytes → Bytes
toy_sum b = checksum 1 b % 4 ∷ checksum 2 b % 8 ∷ checksum 3 b ∷ replicate 29 0

checksum-IsByte : (acc : ℕ) (b : Bytes) → checksum acc b < 256
checksum-IsByte acc [] = omega arith
checksum-IsByte acc (x ∷ b) = checksum-IsByte ((acc * 31 + x + 7) % 65521) b

pub toy_sum-IsByte : (b : Bytes) → All IsByte (toy_sum b)
toy_sum-IsByte b = (omega arith, (omega arith, (checksum-IsByte 3 b, omega arith)))

instance abbrev pub toy_sha : Sha256
toy_sha = record { sum256 = toy_sum; length-sum256 = λ b. refl; sum256-IsByte = toy_sum-IsByte }

abbrev pub hash_of : ℕ → Hash
hash_of n = n ∷ replicate 31 7

abbrev pub field_of_byte : ℕ → FieldLeaf
field_of_byte n = record { index = n; bytes = n ∷ 9 ∷ [] }

abbrev pub three_fields : TxFields
three_fields = field_of_byte 0 ∷ field_of_byte 1 ∷ field_of_byte 2 ∷ []

-- Keys are numbers, and a signature is the sum of the key and a checksum of the digest.
abbrev pub toy_crypto : Signatures
toy_crypto = record {
  PublicKey = ℕ;
  PrivateKey = ℕ;
  Signature = ℕ;
  parse_compressed = λ b. index b 0;
  parse_signature = λ b. index b 0;
  is_low_s = λ s. true;
  verify = λ k h s. s == k + checksum 5 h;
  sign = λ k h. ok (k + checksum 5 h);
  public_of = λ k. k;
  serialize_compressed = λ k. k ∷ replicate 32 1;
  serialize = λ s. s ∷ replicate 63 0;
}

pub toy_laws : SignatureLaws toy_crypto
toy_laws = record {
  parse_key = λ k. refl;
  length-key = λ k. refl;
  parse_sig = λ s. refl;
  length-sig = λ s. refl;
  signed = λ k h s e. ground (arith, e);
  low_s = λ k h s e. refl;
}
