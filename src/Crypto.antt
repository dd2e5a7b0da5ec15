-- ===== src/Crypto.antt =====
-- crypto/secp256k1.go and crypto/ct.go, and their interface.
--
-- The interface of crypto/secp256k1.go that the payment, the wallets and the alerts call: keys,
-- signatures and their encodings. What the laws say of Sign holds of a key that can sign.
pub mod Field
pub mod FieldLaws
pub mod FieldProduct
pub mod Inverse
pub mod Points
pub mod Complete
pub mod Ladder
pub mod Numbers
pub mod Keys
pub mod Canonical
pub mod Signature
pub mod Affine
pub mod Signed
pub mod Malleable
pub mod Masks
use mfspv.Base.{◌≡◌, Bool, true, length, Bytes, Result, ok}
use mfspv.Commitment.Hashing.{Hash}

pub record Signatures : Type 1 where
  pub PublicKey : Type 0
  pub PrivateKey : Type 0
  pub Signature : Type 0
  pub parse_compressed : Bytes → Result PublicKey
  pub parse_signature : Bytes → Result Signature
  pub is_low_s : Signature → Bool
  pub verify : PublicKey → Hash → Signature → Bool
  pub sign : PrivateKey → Hash → Result Signature
  pub public_of : PrivateKey → PublicKey
  pub serialize_compressed : PublicKey → Bytes
  pub serialize : Signature → Bytes

-- What Sign, Public and the two serializations promise to each other.
pub record SignatureLaws (crypto : Signatures) : Type 0 where
  pub parse_key :
      (k : crypto.PrivateKey)
      → crypto.parse_compressed (crypto.serialize_compressed (crypto.public_of k))
        ≡ ok (crypto.public_of k)
  pub length-key :
      (k : crypto.PrivateKey) → length (crypto.serialize_compressed (crypto.public_of k)) ≡ 33
  pub parse_sig : (s : crypto.Signature) → crypto.parse_signature (crypto.serialize s) ≡ ok s
  pub length-sig : (s : crypto.Signature) → length (crypto.serialize s) ≡ 64
  pub signed :
      (k : crypto.PrivateKey) (h : Hash) (s : crypto.Signature)
      → crypto.sign k h ≡ ok s
      → crypto.verify (crypto.public_of k) h s ≡ true
  pub low_s :
      (k : crypto.PrivateKey) (h : Hash) (s : crypto.Signature)
      → crypto.sign k h ≡ ok s
      → crypto.is_low_s s ≡ true
