-- ===== src/Walletbob/Owners.antt =====
-- The map of owners that AcceptPayment builds from the inputs, and what QuietForOwners reads of it.
use mfspv.Base.{
  ℕ, ◌≡◌, refl, sym, ◌∙◌, ap, inl, inr, Bool, true, false, Bool-cases, List, [], ◌∷◌, Bytes, Option,
  none, some, ok, >>=-eq-ok, if◌then◌else◌, arith,
}
use mfspv.Teranode.Source.{Outpoint, UtxoClient}
use mfspv.Payment.Types.{TxIn}
use mfspv.Dsalert.Bus.{Owner, Bus, outpoint_eq, recs_of, owner_alerted, quiet_for_owners}
use mfspv.Dsalert.Evidence.{outpoint_eq→eq}
use mfspv.Walletbob.Till.{set_owner, liveness}

-- The first key if there is one.
unfoldable pub latest : Option Bytes → Option Bytes → Option Bytes
latest none older = older
latest (some key) older = some key

-- The key of the last input that spends the outpoint.
unfoldable pub last_key : Outpoint → List TxIn → Option Bytes
last_key op [] = none
last_key op (x ∷ inputs) =
    latest (last_key op inputs) (if outpoint_eq op x.prev then some x.pub_key else none)

unfoldable owner_of : Outpoint → List Owner → Option Bytes
owner_of op [] = none
owner_of op (o ∷ owners) =
    let rest = owner_of op owners in if outpoint_eq op o.outpoint then some o.key else rest

owner_of-set_owner :
    (op to : Outpoint) (key : Bytes) (owners : List Owner)
    → owner_of op (set_owner to key owners)
      ≡ latest (if outpoint_eq op to then some key else none) (owner_of op owners)
unfolding owner_of set_owner latest
owner_of-set_owner op to key [] = elim (Bool-cases (outpoint_eq op to)) [
  | inl same ↦ rw same refl
  | inr other ↦ rw other refl
]
owner_of-set_owner op to key (o ∷ owners) = elim (Bool-cases (outpoint_eq to o.outpoint)) [
  | inl here ↦
      (let place : outpoint_eq op to ≡ outpoint_eq op o.outpoint =
          ap (outpoint_eq op) (outpoint_eq→eq to o.outpoint here) in
        elim (Bool-cases (outpoint_eq op o.outpoint)) [
          | inl same ↦ rw (set_owner, here, owner_of, place, same) refl
          | inr other ↦ rw (set_owner, here, owner_of, place, other) refl
        ])
  | inr later ↦ elim (Bool-cases (outpoint_eq op o.outpoint)) [
    | inl same ↦ (elim (Bool-cases (outpoint_eq op to)) [
      | inl both ↦
          (let e : outpoint_eq op o.outpoint ≡ outpoint_eq to o.outpoint =
              ap (λ p. outpoint_eq p o.outpoint) (outpoint_eq→eq op to both) in
            cc)
      | inr apart ↦ rw (set_owner, later, owner_of, same, apart) refl
    ])
    | inr other ↦ rw (set_owner, later, owner_of, other) (owner_of-set_owner op to key owners)
  ]
]

latest_assoc : (a b c : Option Bytes) → latest a (latest b c) ≡ latest (latest a b) c
unfolding latest
latest_assoc none b c = refl
latest_assoc (some k) b c = refl

-- The map that the loop of step 3 leaves has the last key of each outpoint.
liveness-owner_of :
    (utxo : UtxoClient) (inputs : List TxIn) (all all' : Bool) (owners owners' : List Owner)
    (op : Outpoint)
    → liveness utxo inputs all owners ≡ ok (all', owners')
    → owner_of op owners' ≡ latest (last_key op inputs) (owner_of op owners)
unfolding liveness last_key latest
liveness-owner_of utxo [] all all' owners owners' op h =
    let same : owners ≡ owners' = cc in ap (owner_of op) (sym same)
liveness-owner_of utxo (x ∷ inputs) all all' owners owners' op h =
    let (unspent, asked, rest) = >>=-eq-ok (utxo.is_unspent x.prev) _ h in
    liveness-owner_of utxo inputs _ all' _ owners' op rest
    ∙ ap (latest (last_key op inputs)) (owner_of-set_owner op x.prev x.pub_key owners)
    ∙ latest_assoc (last_key op inputs) _ (owner_of op owners)

quiet_for_owners-each :
    (now window : ℕ) (bus : Bus) (owners : List Owner) (op : Outpoint) (key : Bytes)
    → quiet_for_owners now bus owners window ≡ true
    → owner_of op owners ≡ some key
    → owner_alerted now window key (recs_of op bus.seen) ≡ false
unfolding quiet_for_owners owner_of
quiet_for_owners-each now window bus [] op key quiet found = cc
quiet_for_owners-each now window bus (o ∷ owners) op key quiet found =
    elim (Bool-cases (outpoint_eq op o.outpoint)) [
      | inl same ↦
          (let here : owner_alerted now window o.key (recs_of o.outpoint bus.seen) ≡ false =
              ground arith in
            let place : op ≡ o.outpoint = outpoint_eq→eq op o.outpoint same in
            let held : o.key ≡ key = cc (rw (owner_of, same) at found) in cc)
      | inr other ↦
          quiet_for_owners-each now window bus owners op key (ground arith)
            (rw (owner_of, other) at found)
    ]

-- No recent alert counts against the key of the last input that spends an outpoint, where QuietForOwners is
-- true of the map.
pub liveness-quiet :
    (utxo : UtxoClient) (inputs : List TxIn) (all : Bool) (owners : List Owner) (now window : ℕ)
    (bus : Bus) (op : Outpoint) (key : Bytes)
    → liveness utxo inputs true [] ≡ ok (all, owners)
    → quiet_for_owners now bus owners window ≡ true
    → last_key op inputs ≡ some key
    → owner_alerted now window key (recs_of op bus.seen) ≡ false
unfolding latest
liveness-quiet utxo inputs all owners now window bus op key lived quiet last =
    quiet_for_owners-each now window bus owners op key quiet
      (liveness-owner_of utxo inputs true all [] owners op lived ∙ rw last refl)
