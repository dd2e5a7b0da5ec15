-- ===== src/Walletalice/Signing.antt =====
-- What FillTemplate of walletalice/walletalice.go made of a template where it returned.
use mfspv.Base.{
  ℕ, zero, suc, ◌+◌, ◌%◌, ◌^◌, ◌<◌, ◌≡◌, refl, sym, ap, ◌∙◌, subst, inl, inr, true, Bool-cases,
  List, [], ◌∷◌, ◌++◌, length, map, length-map, get_elem?, get_elem?-lt, index_of_get_elem?, Bytes,
  le_bytes, Option, none, some, Option-cases, ok, >>=-eq-ok, leb, arith,
}
use mathlib.Core.Option.{some-injective}
use mfspv.Commitment.Hashing.{Sha256, double_sha256}
use mfspv.Crypto.{Signatures, SignatureLaws}
use mfspv.Bundle.Types.{Bundle}
use mfspv.Payment.Types.{TxIn, Tx3}
use mfspv.Payment.Codec.{each, put_out}
use mfspv.Payment.Sighash.{put_signed_in, preimage, sighash, verify_input_signature, blank}
use mfspv.Walletalice.Wallet.{
  out_key_of, set_sig, with_change, Wallet, key_at, attach, sign, sign_held, sign_inputs,
  fill_template,
}

get_elem?-map :
    (f : TxIn → TxIn) (xs : List TxIn) (i : ℕ) {x : TxIn}
    → get_elem? xs i ≡ some x
    → get_elem? (map f xs) i ≡ some (f x)
get_elem?-map f [] i e = cc
get_elem?-map f (y ∷ xs) zero e = cc
get_elem?-map f (y ∷ xs) (suc i) e = get_elem?-map f xs i e

set_sig-blank : (xs : List TxIn) (i : ℕ) (sig : Bytes) → map blank (set_sig xs i sig) ≡ map blank xs
unfolding set_sig blank
set_sig-blank [] i sig = refl
set_sig-blank (x ∷ xs) zero sig = refl
set_sig-blank (x ∷ xs) (suc i) sig = ap (λ l. blank x ∷ l) (set_sig-blank xs i sig)

set_sig_there :
    (xs : List TxIn) (i : ℕ) (sig : Bytes)
    → i < length xs
    → (x : TxIn) × (get_elem? (set_sig xs i sig) i ≡ some x) × (x.sig ≡ sig)
unfolding set_sig
set_sig_there [] i sig h = absurd (omega arith)
set_sig_there (x ∷ xs) zero sig h = (record x { sig = sig }, refl, refl)
set_sig_there (x ∷ xs) (suc i) sig h = set_sig_there xs i sig (omega arith)

set_sig_before :
    (xs : List TxIn) (i j : ℕ) (sig : Bytes)
    → j < i
    → get_elem? (set_sig xs i sig) j ≡ get_elem? xs j
unfolding set_sig
set_sig_before [] i j sig h = refl
set_sig_before (x ∷ xs) zero j sig h = absurd (omega arith)
set_sig_before (x ∷ xs) (suc i) zero sig h = refl
set_sig_before (x ∷ xs) (suc i) (suc j) sig h = set_sig_before xs i j sig (omega arith)

-- Signatures are not among the bytes that are signed.
each-blank : (xs : List TxIn) → each put_signed_in xs ≡ each put_signed_in (map blank xs)
unfolding each put_signed_in blank
each-blank [] = refl
each-blank (x ∷ xs) = ap (λ s. put_signed_in x ++ s) (each-blank xs)

preimage-blank :
    (t t' : Tx3) (i : ℕ)
    → t' ≡ record t { inputs = t'.inputs }
    → map blank t'.inputs ≡ map blank t.inputs
    → preimage t' i ≡ preimage t i
unfolding preimage
preimage-blank t t' i same blanks =
    let long : length t'.inputs ≡ length t.inputs =
      sym (length-map blank t'.inputs) ∙ ap length blanks ∙ length-map blank t.inputs in
    let bytes : each put_signed_in t'.inputs ≡ each put_signed_in t.inputs =
      each-blank t'.inputs ∙ ap (each put_signed_in) blanks ∙ sym (each-blank t.inputs) in
    ap (λ x. preimage x i) same
    ∙ ap (λ n. preimage_of n (each put_signed_in t'.inputs)) long
    ∙ ap (preimage_of (length t.inputs)) bytes
  where
    preimage_of : ℕ → Bytes → Bytes
    preimage_of n s =
        le_bytes 4 t.version
        ++ (le_bytes 4 (n % 2 ^ 32)
            ++ (s
                ++ (le_bytes 4 (length t.outputs % 2 ^ 32)
                    ++ (each put_out t.outputs
                        ++ (le_bytes 4 t.lock_time ++ le_bytes 4 (i % 2 ^ 32))))))

module _ ⦃sha : Sha256⦄ (crypto : Signatures) where
  -- Input `i` has the signature of the key that is held for the bundle.
  record IsSignedAs (w : Wallet crypto) (t : Tx3) (inputs : List TxIn) (i : ℕ) (b : Bundle)
      : Type 0 where
    x : TxIn
    k : crypto.PrivateKey
    s : crypto.Signature
    there : get_elem? inputs i ≡ some x
    held : key_at crypto (out_key_of b) w.keys ≡ some (some k)
    signs : crypto.sign k (sighash t i) ≡ ok s
    carries : x.sig ≡ crypto.serialize s

  record IsSigning (w : Wallet crypto) (bundles : List Bundle) (i : ℕ) (t t' : Tx3) : Type 0 where
    same : t' ≡ record t { inputs = t'.inputs }
    blanks : map blank t'.inputs ≡ map blank t.inputs
    before : (j : ℕ) → j < i → get_elem? t'.inputs j ≡ get_elem? t.inputs j
    signed :
        (j : ℕ) (b : Bundle) → get_elem? bundles j ≡ some b → IsSignedAs w t t'.inputs (i + j) b

  -- What Sign with a held key returned.
  sign_held-ok :
      (w : Wallet crypto) (t : Tx3) (i : ℕ) (b : Bundle) (sig : Bytes)
      → sign_held crypto w t i b ≡ ok sig
      → (i < length t.inputs)
        × ((k : crypto.PrivateKey) × (s : crypto.Signature) × (key_at crypto (out_key_of b) w.keys
              ≡ some (some k))
            × (crypto.sign k (sighash t i) ≡ ok s)
            × (sig ≡ crypto.serialize s))
  unfolding sign_held sign
  sign_held-ok w t i b sig e = elim (Bool-cases (leb (length t.inputs) i)) [
    | inl out ↦ elim (Option-cases (key_at crypto (out_key_of b) w.keys)) [
      | inl missing ↦ cc (rw (sign_held, missing, sign, out) at e)
      | inr (key, there) ↦ cc (rw (sign_held, there, sign, out) at e)
    ]
    | inr within ↦ elim (Option-cases (key_at crypto (out_key_of b) w.keys)) [
      | inl missing ↦ cc (rw (sign_held, missing, sign, within) at e)
      | inr (none, there) ↦ cc (rw (sign_held, there, sign, within) at e)
      | inr (some k, there) ↦
          (let (s, signs, last) =
              >>=-eq-ok (crypto.sign k (sighash t i)) _
                (rw (sign_held, there, sign, within) at e) in
            (ground (arith, within), (k, s, there, signs, cc last)))
    ]
  ]

  -- The signatures so far are not signed.
  IsSignedAs-set :
      (w : Wallet crypto) (t : Tx3) (inputs : List TxIn) (i : ℕ) (sig : Bytes) (j : ℕ) (b : Bundle)
      → IsSignedAs w (record t { inputs = set_sig t.inputs i sig }) inputs j b
      → IsSignedAs w t inputs j b
  unfolding sighash
  IsSignedAs-set w t inputs i sig j b a =
      let u : Tx3 = record t { inputs = set_sig t.inputs i sig } in
      let same : sighash u j ≡ sighash t j =
        ap double_sha256 (preimage-blank t u j refl (set_sig-blank t.inputs i sig)) in
      record {
        x = a.x;
        k = a.k;
        s = a.s;
        there = a.there;
        held = a.held;
        signs = ap (crypto.sign a.k) (sym same) ∙ a.signs;
        carries = a.carries;
      }

  signed-cons :
      (w : Wallet crypto) (t t' : Tx3) (i : ℕ) (b : Bundle) (bundles : List Bundle)
      → IsSignedAs w t t'.inputs i b
      → ((j : ℕ) (b' : Bundle)
          → get_elem? bundles j ≡ some b'
          → IsSignedAs w t t'.inputs (suc i + j) b')
      → (j : ℕ) (b' : Bundle) → get_elem? (b ∷ bundles) j ≡ some b'
      → IsSignedAs w t t'.inputs (i + j) b'
  signed-cons w t t' i b bundles first rest zero b' at' =
      let here : i + 0 ≡ i = omega arith in
      let same : b ≡ b' = cc in rw here (subst (IsSignedAs w t t'.inputs i) same first)
  signed-cons w t t' i b bundles first rest (suc j) b' at' =
      let shift : i + suc j ≡ suc i + j = omega arith in rw shift (rest j b' at')

  sign_inputs-IsSigning :
      (w : Wallet crypto) (bundles : List Bundle) (i : ℕ) (t t' : Tx3)
      → sign_inputs crypto w bundles i t ≡ ok t'
      → IsSigning w bundles i t t'
  unfolding sign_inputs
  sign_inputs-IsSigning w [] i t t' e =
      let same : t ≡ t' = cc in
      subst (IsSigning w [] i t) same
        (record { same = refl; blanks = refl; before = λ j h. refl; signed = λ j b at'. cc })
  sign_inputs-IsSigning w (b ∷ bundles) i t t' e =
      let (sig, own, more) = >>=-eq-ok (sign_held crypto w t i b) _ e in
      let (within, (k, s, held, signs, sig_is)) = sign_held-ok w t i b sig own in
      let u : Tx3 = record t { inputs = set_sig t.inputs i sig } in
      let rest = sign_inputs-IsSigning w bundles (suc i) u t' more in
      let blanks = rest.blanks ∙ set_sig-blank t.inputs i sig in
      let (x, at', carries) = set_sig_there t.inputs i sig within in
      record {
        same = rest.same;
        blanks = blanks;
        before = λ j h. rest.before j (omega arith) ∙ set_sig_before t.inputs i j sig h;
        signed =
            signed-cons w t t' i b bundles
              (record {
                x = x;
                k = k;
                s = s;
                there = rest.before i (omega arith) ∙ at';
                held = held;
                signs = signs;
                carries = carries ∙ sig_is;
              })
              (λ j b' at''.
                IsSignedAs-set w t t'.inputs i sig (suc i + j) b' (rest.signed j b' at''));
      }

  -- The input that FillTemplate adds for a bundle.
  abbrev pub added : Bundle → crypto.PrivateKey → TxIn
  added b k = record {
    prev = out_key_of b;
    sig = [];
    pub_key = crypto.serialize_compressed (crypto.public_of k);
  }

  pub attach-cons :
      (w : Wallet crypto) (b : Bundle) (bundles : List Bundle) (inputs : List TxIn)
      → attach crypto w (b ∷ bundles) ≡ ok inputs
      → (k : crypto.PrivateKey) × (rest : List TxIn) × (key_at crypto (out_key_of b) w.keys
          ≡ some (some k))
        × (attach crypto w bundles ≡ ok rest)
        × (added b k ∷ rest ≡ inputs)
  unfolding attach
  attach-cons w b bundles inputs e = elim (Option-cases (key_at crypto (out_key_of b) w.keys)) [
    | inl missing ↦ cc (rw (attach, missing) at e)
    | inr (none, there) ↦ cc (rw (attach, there) at e)
    | inr (some k, there) ↦
        (let (rest, more, last) = >>=-eq-ok (attach crypto w bundles) _ (rw (attach, there) at e) in
          (k, rest, there, more, cc last))
  ]

  attach-blank :
      (w : Wallet crypto) (bundles : List Bundle) (inputs : List TxIn)
      → attach crypto w bundles ≡ ok inputs
      → map blank inputs ≡ inputs
  unfolding blank attach
  attach-blank w [] inputs e = let same : [] ≡ inputs = cc in subst (λ l. map blank l ≡ l) same refl
  attach-blank w (b ∷ bundles) inputs e =
      let (k, rest, held, more, same) = attach-cons w b bundles inputs e in
      subst (λ l. map blank l ≡ l) same (ap (λ l. added b k ∷ l) (attach-blank w bundles rest more))

  attach_at :
      (w : Wallet crypto) (bundles : List Bundle) (inputs : List TxIn) (i : ℕ) (b : Bundle)
      (k : crypto.PrivateKey)
      → attach crypto w bundles ≡ ok inputs
      → get_elem? bundles i ≡ some b
      → key_at crypto (out_key_of b) w.keys ≡ some (some k)
      → get_elem? inputs i ≡ some (added b k)
  attach_at w [] inputs i b k e at' held = cc
  attach_at w (y ∷ bundles) inputs zero b k e at' held =
      let (k', rest, held', more, same) = attach-cons w y bundles inputs e in
      let own : y ≡ b = cc in
      let key : k' ≡ k = cc (ap (λ v. key_at crypto (out_key_of v) w.keys) own, held, held') in
      subst (λ l. get_elem? l 0 ≡ some (added b k)) same (cc (own, key))
  attach_at w (y ∷ bundles) inputs (suc i) b k e at' held =
      let (k', rest, held', more, same) = attach-cons w y bundles inputs e in
      subst (λ l. get_elem? l (suc i) ≡ some (added b k)) same
        (attach_at w bundles rest i b k more at' held)

  pub attach-length :
      (w : Wallet crypto) (bundles : List Bundle) (inputs : List TxIn)
      → attach crypto w bundles ≡ ok inputs
      → length bundles ≡ length inputs
  unfolding attach
  attach-length w [] inputs e = let same : [] ≡ inputs = cc in ap length same
  attach-length w (b ∷ bundles) inputs e =
      let (k, rest, held, more, same) = attach-cons w b bundles inputs e in
      ap suc (attach-length w bundles rest more) ∙ ap length same

  -- A signature of the held key, and that key, pass the check of the input.
  IsSignedAs-verify :
      (w : Wallet crypto) (t u : Tx3) (i : ℕ) (b : Bundle)
      → SignatureLaws crypto
      → (a : IsSignedAs w t u.inputs i b) → sighash t i ≡ sighash u i
      → blank a.x ≡ added b a.k
      → verify_input_signature crypto u i ≡ true
  unfolding verify_input_signature blank
  IsSignedAs-verify w t u i b laws a digest body =
      let signs : crypto.sign a.k (sighash u i) ≡ ok a.s =
        ap (crypto.sign a.k) (sym digest) ∙ a.signs in
      let key : a.x.pub_key ≡ crypto.serialize_compressed (crypto.public_of a.k) =
        ap (λ x. x.pub_key) body in
      let long : length a.x.sig ≡ 64 = ap length a.carries ∙ laws.length-sig a.s in
      let wide : length a.x.pub_key ≡ 33 = ap length key ∙ laws.length-key a.k in
      rw
        (
          verify_input_signature,
          index_of_get_elem? u.inputs i a.there,
          long,
          wide,
          ap crypto.parse_compressed key ∙ laws.parse_key a.k,
          ap crypto.parse_signature a.carries ∙ laws.parse_sig a.s,
          laws.low_s a.k (sighash u i) a.s signs,
          laws.signed a.k (sighash u i) a.s signs,
        )
        refl

  -- A filled template: the template with an input for every bundle, and with the change.
  pub record IsFilled (w : Wallet crypto) (template : Tx3) (bundles : List Bundle)
      (change_script : Option Bytes) (change_value : ℕ) (t : Tx3) : Type 0 where
    pub same : t ≡ record template {
      inputs = t.inputs;
      outputs = with_change template.outputs change_script change_value;
    }
    pub spends : attach crypto w bundles ≡ ok (map blank t.inputs)
    pub signed : (i : ℕ) → i < length t.inputs → verify_input_signature crypto t i ≡ true

  pub fill_template-IsFilled :
      (w : Wallet crypto) (template : Tx3) (bundles : List Bundle) (change_script : Option Bytes)
      (change_value : ℕ) (t : Tx3)
      → SignatureLaws crypto
      → fill_template crypto w template bundles change_script change_value ≡ ok t
      → IsFilled w template bundles change_script change_value t
  unfolding fill_template sighash
  fill_template-IsFilled w template bundles change_script change_value t laws e =
      let (ins, attached, more) = >>=-eq-ok (attach crypto w bundles) _ e in
      let s = sign_inputs-IsSigning w bundles 0 _ t more in
      let blanks : map blank t.inputs ≡ ins = s.blanks ∙ attach-blank w bundles ins attached in
      record {
        same = s.same;
        spends = attached ∙ ap ok (sym blanks);
        signed = λ i h.
            let (b, at') = get_elem?-lt bundles i (
              omega (
                arith,
                attach-length w bundles ins attached,
                ap length blanks,
                length-map blank t.inputs,
              )) in
            let start : 0 + i ≡ i = omega arith in
            let a =
              subst
                (λ j.
                  IsSignedAs w
                    (record template {
                      inputs = ins;
                      outputs = with_change template.outputs change_script change_value;
                    })
                    t.inputs j b)
                start (s.signed i b at') in
            IsSignedAs-verify w
              (record template {
                inputs = ins;
                outputs = with_change template.outputs change_script change_value;
              })
              t i b laws a (sym (ap double_sha256 (preimage-blank _ t i s.same s.blanks)))
              (some-injective _ _ (
                sym (get_elem?-map blank t.inputs i a.there)
                ∙ ap (λ l. get_elem? l i) blanks
                ∙ attach_at w bundles ins i b a.k attached at' a.held));
      }
