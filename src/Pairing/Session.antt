-- ===== src/Pairing/Session.antt =====
-- src/hub/pairing.rs: one pairing session, how it times out, how a call changes it, and the comparison
-- of its CSRF token. Instants are nanoseconds.
use Prim.Native.Nat.{bit_or, bit_xor}
use ilink_hub.Base.{
  ℕ, ◌-◌, ◌*◌, ◌^◌, Text, codes, List, [], ◌∷◌, Option, none, some, Bool, true, false, ltb, ◌==◌,
  is_some, if◌then◌else◌, length,
}
use ilink_hub.Base.Utf8.{as_bytes}

abbrev pub seconds : ℕ → ℕ
seconds n = n * 10 ^ 9

abbrev pub pairing_ttl : ℕ
pairing_ttl = seconds 600

abbrev pub scanned_ttl : ℕ
scanned_ttl = seconds 60

abbrev pub confirmed_ttl : ℕ
confirmed_ttl = seconds 86400

abbrev pub vtoken_claim_window : ℕ
vtoken_claim_window = seconds 120

pub data PairingStatus : Type 0 where
  wait scanned confirmed expired : PairingStatus

abbrev pub status_eq : PairingStatus → PairingStatus → Bool
status_eq wait wait = true
status_eq scanned scanned = true
status_eq confirmed confirmed = true
status_eq expired expired = true
status_eq _ _ = false

pub record PairingSession : Type 0 where
  pub code : Text
  pub created_at : ℕ
  pub scanned_at : Option ℕ
  pub status : PairingStatus
  pub vtoken : Option Text
  pub client_name : Option Text
  pub client_label : Option Text
  pub csrf : Option Text

-- `Instant::elapsed` saturates at zero, as `-` does.
abbrev pub elapsed : ℕ → ℕ → ℕ
elapsed now t = now - t

abbrev pub scan_timed_out : ℕ → Option ℕ → ℕ → Bool
scan_timed_out now none created = ltb pairing_ttl (elapsed now created)
scan_timed_out now (some t) created = ltb scanned_ttl (elapsed now t)

abbrev expired_as : ℕ → PairingStatus → PairingSession → Bool
expired_as now confirmed s = false
expired_as now scanned s = scan_timed_out now s.scanned_at s.created_at
expired_as now _ s = ltb pairing_ttl (elapsed now s.created_at)

unfoldable pub is_expired : ℕ → PairingSession → Bool
is_expired now s = expired_as now s.status s

abbrev evicted_as : ℕ → PairingStatus → PairingSession → Bool
evicted_as now confirmed s = ltb confirmed_ttl (elapsed now s.created_at)
evicted_as now scanned s = scan_timed_out now s.scanned_at s.created_at
evicted_as now _ s = ltb pairing_ttl (elapsed now s.created_at)

unfoldable pub should_evict : ℕ → PairingSession → Bool
should_evict now s = evicted_as now s.status s

pub public_status : ℕ → PairingSession → PairingStatus
unfolding is_expired
public_status now s = if is_expired now s then expired else s.status

abbrev status_text : PairingStatus → Text
status_text wait = codes "wait"
status_text scanned = codes "scaned"
status_text confirmed = codes "confirmed"
status_text expired = codes "expired"

pub status_str : ℕ → PairingSession → Text
unfolding public_status
status_str now s = status_text (public_status now s)

unfoldable pub new_session : Text → ℕ → PairingSession
new_session code now = record {
  code = code;
  created_at = now;
  scanned_at = none;
  status = wait;
  vtoken = none;
  client_name = none;
  client_label = none;
  csrf = none;
}

-- The state change of `mark_scanned` on a live session; `csrf` is the drawn token.
unfoldable pub scan : ℕ → Text → PairingSession → PairingSession
scan now csrf s =
    let timed =
      if status_eq s.status wait then record s { status = scanned; scanned_at = some now } else s in
    if is_some s.csrf then timed else record timed { csrf = some csrf }

-- The loop of `constant_time_eq` over the zipped bytes.
unfoldable pub gather : ℕ → List ℕ → List ℕ → ℕ
gather diff [] ys = diff
gather diff (x ∷ xs) [] = diff
gather diff (x ∷ xs) (y ∷ ys) = gather (bit_or diff (bit_xor x y)) xs ys

unfoldable pub constant_time_eq : List ℕ → List ℕ → Bool
constant_time_eq a b = if length a == length b then gather 0 a b == 0 else false

abbrev pub csrf_matches : Option Text → Text → Bool
csrf_matches none header = false
csrf_matches (some token) header = constant_time_eq (as_bytes token) (as_bytes header)

unfoldable pub confirmed_as : Text → Option Text → Text → PairingSession → PairingSession
confirmed_as name label vtoken s = record s {
  csrf = none;
  status = confirmed;
  vtoken = some vtoken;
  client_name = some name;
  client_label = label;
}
