-- ===== src/Teranode/Pruned.antt =====
-- StaticHeaderChain of teranode/teranode.go: a view of the headers that it was given.
use mfspv.Base.{
  ℕ, zero, suc, ◌≡◌, refl, sym, ap, ◌∙◌, inl, inr, ◌↔◌, Bool, true, false, Bool-cases, ◌||◌, List,
  [], ◌∷◌, map, get_elem?, some, bytes_eq, bytes_eq→eq, eq→bytes_eq, arith,
}
use mfspv.Commitment.Hashing.{Sha256, Hash, double_sha256}
use mfspv.Teranode.Source.{Header, HeaderChain}

-- The keys of the map `headers`, whose values are all true.
unfoldable pub holds : Hash → List Hash → Bool
holds k [] = false
holds k (x ∷ xs) = bytes_eq k x || holds k xs

module _ ⦃sha : Sha256⦄ where
  unfoldable pub new_static_header_chain : List Header → ℕ → HeaderChain
  new_static_header_chain headers tip = record {
    contains = λ h. holds (double_sha256 h) (map double_sha256 headers);
    best_tip_height = tip;
  }

  -- A header of the list with the digest of `h`.
  pub record IsGiven (headers : List Header) (h : Header) : Type 0 where
    pub place : ℕ
    pub header : Header
    pub there : get_elem? headers place ≡ some header
    pub digests : double_sha256 h ≡ double_sha256 header

  holds-IsGiven :
      (headers : List Header) (h : Header)
      → holds (double_sha256 h) (map double_sha256 headers) ≡ true
      → IsGiven headers h
  unfolding holds
  holds-IsGiven [] h e = cc
  holds-IsGiven (x ∷ headers) h e =
      elim (Bool-cases (bytes_eq (double_sha256 h) (double_sha256 x))) [
        | inl same ↦ record {
          place = 0;
          header = x;
          there = refl;
          digests = bytes_eq→eq (double_sha256 h) (double_sha256 x) same;
        }
        | inr other ↦
            (let g = holds-IsGiven headers h (ground (arith, other, e)) in
              record {
                place = suc g.place;
                header = g.header;
                there = g.there;
                digests = g.digests;
              })
      ]

  holds_at :
      (headers : List Header) (h header : Header) (i : ℕ)
      → get_elem? headers i ≡ some header
      → double_sha256 h ≡ double_sha256 header
      → holds (double_sha256 h) (map double_sha256 headers) ≡ true
  unfolding holds
  holds_at [] h header i at e = cc
  holds_at (x ∷ headers) h header zero at e =
      let same : x ≡ header = cc in
      ground
        (arith, eq→bytes_eq (double_sha256 h) (double_sha256 x) (e ∙ ap double_sha256 (sym same)))
  holds_at (x ∷ headers) h header (suc i) at e = ground (arith, holds_at headers h header i at e)

  -- A pruned view contains exactly the headers with the digest of one that it was given, and it
  -- reports the tip that it was given.
  pub new_static_header_chain-IsGiven :
      (headers : List Header) (tip : ℕ) (h : Header)
      → (((new_static_header_chain headers tip).contains h ≡ true) ↔ IsGiven headers h)
        × ((new_static_header_chain headers tip).best_tip_height ≡ tip)
  unfolding new_static_header_chain
  new_static_header_chain-IsGiven headers tip h =
      ((holds-IsGiven headers h, λ g. holds_at headers h g.header g.place g.there g.digests), refl)
