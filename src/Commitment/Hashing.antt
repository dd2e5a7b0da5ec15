-- ===== src/Commitment/Hashing.antt =====
-- DoubleSHA256, HashPair, leafHash and Fold of commitment/commitment.go.
-- crypto/sha256 is Go's standard library and enters as the interface `Sha256`.
use mfspv.Base.{
  ℕ, ◌≡◌, refl, Bool, true, false, List, [], ◌∷◌, ◌++◌, Bytes, IsByte, All, length, replicate,
  if◌then◌else◌,
}

-- `sha256.Sum256`: a digest has 32 bytes, whatever the message.
pub record Sha256 : Type 0 where
  pub sum256 : Bytes → Bytes
  pub length-sum256 : (b : Bytes) → length (sum256 b) ≡ 32
  pub sum256-IsByte : (b : Bytes) → All IsByte (sum256 b)

-- `type Hash [32]byte`; that a value has 32 bytes is stated where it matters.
abbrev pub Hash : Type 0
Hash = Bytes

abbrev pub IsHash : Hash → Type 0
IsHash h = length h ≡ 32

-- `Hash{}`
abbrev pub zero_hash : Hash
zero_hash = replicate 32 0

pub record PathElem : Type 0 where
  pub sibling : Hash
  pub right : Bool

-- The index is a byte.
pub record FieldLeaf : Type 0 where
  pub index : ℕ
  pub bytes : Bytes

abbrev pub TxFields : Type 0
TxFields = List FieldLeaf

abbrev pub max_depth : ℕ
max_depth = 255

module _ ⦃sha : Sha256⦄ where
  unfoldable pub double_sha256 : Bytes → Hash
  double_sha256 b = sha.sum256 (sha.sum256 b)

  unfoldable pub hash_pair : Hash → Hash → Hash
  hash_pair left right = double_sha256 (left ++ right)

  unfoldable pub leaf_hash : FieldLeaf → Hash
  leaf_hash f = double_sha256 (f.index ∷ f.bytes)

  -- The body of the loop of Fold.
  unfoldable pub fold_step : Hash → PathElem → Hash
  fold_step node e = if e.right then hash_pair node e.sibling else hash_pair e.sibling node

  unfoldable pub fold : Hash → List PathElem → Hash
  fold node [] = node
  fold node (e ∷ path) = fold (fold_step node e) path

  pub length-double_sha256 : (b : Bytes) → length (double_sha256 b) ≡ 32
  unfolding double_sha256
  length-double_sha256 b = sha.length-sum256 (sha.sum256 b)

  pub hash_pair-IsHash : (a b : Hash) → IsHash (hash_pair a b)
  unfolding hash_pair
  hash_pair-IsHash a b = length-double_sha256 (a ++ b)

  pub fold_step-IsHash : (node : Hash) (e : PathElem) → IsHash (fold_step node e)
  unfolding fold_step
  fold_step-IsHash node e = go e.right
    where
      go : (b : Bool) → IsHash (if b then hash_pair node e.sibling else hash_pair e.sibling node)
      go true = hash_pair-IsHash node e.sibling
      go false = hash_pair-IsHash e.sibling node

  pub fold_step_right :
      (node : Hash) (e : PathElem) → e.right ≡ true → fold_step node e ≡ hash_pair node e.sibling
  unfolding fold_step
  fold_step_right node e h = rw h

  pub fold_step_left :
      (node : Hash) (e : PathElem) → e.right ≡ false → fold_step node e ≡ hash_pair e.sibling node
  unfolding fold_step
  fold_step_left node e h = rw h

  pub fold-append : (node : Hash) (p q : List PathElem) → fold node (p ++ q) ≡ fold (fold node p) q
  unfolding fold
  fold-append node [] q = refl
  fold-append node (e ∷ p) q = fold-append (fold_step node e) p q

  pub fold-IsHash : (node : Hash) (p : List PathElem) → IsHash node → IsHash (fold node p)
  unfolding fold
  fold-IsHash node [] h = h
  fold-IsHash node (e ∷ p) h = fold-IsHash (fold_step node e) p (fold_step-IsHash node e)
