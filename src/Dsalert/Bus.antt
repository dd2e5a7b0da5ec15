-- ===== src/Dsalert/Bus.antt =====
-- The bus of dsalert/dsalert.go: Subscribe, Publish, QuietFor and QuietForOwners. The mutex makes
-- each a step of its own. The clock's answer is an argument `now`. Times and windows are counted in
-- nanoseconds, and windows are not negative.
use mfspv.Base.{
  ℕ, ◌+◌, Bool, true, false, not, ◌&&◌, ◌||◌, List, [], ◌∷◌, ◌++◌, length, map, Bytes, bytes_eq,
  ltb, ◌==◌, if◌then◌else◌,
}
use mfspv.Commitment.Hashing.{Sha256}
use mfspv.Teranode.Source.{Outpoint}
use mfspv.Crypto.{Signatures}
use mfspv.Dsalert.Alert.{Alert, verify_alert}

pub record AlertRec : Type 0 where
  pub ts : ℕ
  pub owner_pub : Bytes

-- The verified alerts of one outpoint: an entry of the map `seen`.
pub record Seen : Type 0 where
  pub outpoint : Outpoint
  pub recs : List AlertRec

-- Each channel of `subs` is the list of the alerts in it.
pub record Bus : Type 0 where
  pub subs : List (List Alert)
  pub seen : List Seen

-- An entry of the map `owners`.
pub record Owner : Type 0 where
  pub outpoint : Outpoint
  pub key : Bytes

abbrev pub new_bus : Bus
new_bus = record { subs = []; seen = [] }

unfoldable pub outpoint_eq : Outpoint → Outpoint → Bool
outpoint_eq a b = bytes_eq a.txid b.txid && a.vout == b.vout

-- `b.seen[op]`, the nil slice where there is none.
unfoldable pub recs_of : Outpoint → List Seen → List AlertRec
recs_of op [] = []
recs_of op (s ∷ seen) =
    let later = recs_of op seen in if outpoint_eq op s.outpoint then s.recs else later

-- `b.seen[op] = append(b.seen[op], rec)`
unfoldable pub record_seen : Outpoint → AlertRec → List Seen → List Seen
record_seen op r [] = record { outpoint = op; recs = r ∷ [] } ∷ []
record_seen op r (s ∷ seen) =
    let later = record_seen op r seen in
    if outpoint_eq op s.outpoint
    then record { outpoint = s.outpoint; recs = s.recs ++ (r ∷ []) } ∷ seen
    else s ∷ later

unfoldable pub subscribe : Bus → Bus
subscribe b = record b { subs = b.subs ++ ([] ∷ []) }

-- A send to a channel of 64 places that never blocks.
unfoldable pub offer : Alert → List Alert → List Alert
offer a ch = if ltb (length ch) 64 then ch ++ (a ∷ []) else ch

-- `rec.ts.After(now.Add(-window))`
unfoldable pub recent : ℕ → ℕ → AlertRec → Bool
recent now window r = ltb now (r.ts + window)

unfoldable pub any_recent : ℕ → ℕ → List AlertRec → Bool
any_recent now window [] = false
any_recent now window (r ∷ recs) = recent now window r || any_recent now window recs

unfoldable pub quiet_for : ℕ → Bus → List Outpoint → ℕ → Bool
quiet_for now b [] window = true
quiet_for now b (op ∷ outpoints) window =
    let rest = quiet_for now b outpoints window in
    if any_recent now window (recs_of op b.seen) then false else rest

-- The loop over the records of one outpoint, for the key that spends it.
unfoldable pub owner_alerted : ℕ → ℕ → Bytes → List AlertRec → Bool
owner_alerted now window want [] = false
owner_alerted now window want (r ∷ recs) =
    let rest = owner_alerted now window want recs in
    if not (recent now window r)
    then rest
    else if length want == 0 || bytes_eq r.owner_pub want
    then true
    else rest

unfoldable pub quiet_for_owners : ℕ → Bus → List Owner → ℕ → Bool
quiet_for_owners now b [] window = true
quiet_for_owners now b (o ∷ owners) window =
    let rest = quiet_for_owners now b owners window in
    if owner_alerted now window o.key (recs_of o.outpoint b.seen) then false else rest

module _ ⦃sha : Sha256⦄ (crypto : Signatures) where
  unfoldable pub publish : ℕ → Bus → Alert → Bus × Bool
  publish now b a =
      let r : AlertRec = record { ts = now; owner_pub = a.evidence.owner_pub_key } in
      if not (verify_alert crypto a)
      then (b, false)
      else (record { subs = map (offer a) b.subs; seen = record_seen a.outpoint r b.seen }, true)
