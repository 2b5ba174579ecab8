-- ===== src/Domain.antt =====
-- internal/domain: the entities, the constants and the errors of the service. A time is a number of
-- nanoseconds since Go's zero time, so 0 is the zero time.
pub mod Invites
pub mod ApiTokens
use Prim.Native.Char.{code}
use Prim.Native.String.{[], ◌∷◌}
use orbit_auth.Prelude.{ℕ, ◌*◌, ◌-◌, String, ◌≡◌, refl, Bool, true, false, ◌&&◌, leb, ltb}

abbrev pub Time : Type 0
Time = ℕ

abbrev pub second : Time
second = 1000000000

abbrev pub minute : Time
minute = 60 * second

abbrev pub hour : Time
hour = 60 * minute

abbrev pub otp_ttl : Time
otp_ttl = 10 * minute

abbrev pub max_otp_attempts : ℕ
max_otp_attempts = 5

abbrev pub access_token_ttl : Time
access_token_ttl = 15 * minute

abbrev pub refresh_token_ttl : Time
refresh_token_ttl = 30 * (24 * hour)

abbrev pub invite_ttl : Time
invite_ttl = 7 * (24 * hour)

pub record Organization : Type 0 where
  pub id : String
  pub name : String
  pub created_at : Time
  pub updated_at : Time

pub data MembershipStatus : Type 0 where
  active invited suspended : MembershipStatus

abbrev pub is_active : MembershipStatus → Bool
is_active active = true
is_active invited = false
is_active suspended = false

abbrev pub is_suspended : MembershipStatus → Bool
is_suspended suspended = true
is_suspended active = false
is_suspended invited = false

pub record Membership : Type 0 where
  pub org_id : String
  pub user_id : String
  pub status : MembershipStatus
  pub created_at : Time
  pub updated_at : Time

pub record OtpChallenge : Type 0 where
  pub id : String
  pub identifier : String
  pub channel : String
  pub code_hash : String
  pub expires_at : Time
  pub created_at : Time
  pub attempts : ℕ

-- `users.status` is a text without a check in the schema.
pub record User : Type 0 where
  pub id : String
  pub email : String
  pub mobile : String
  pub password_hash : String
  pub display_name : String
  pub status : String
  pub email_verified : Bool

-- The payloads of the lifecycle events, a constructor for each subject.
pub data Event : Type 0 where
  user_created : String → Time → Event
  org_created : String → String → Time → Event
  membership_added : String → String → MembershipStatus → Time → Event
  membership_removed : String → String → MembershipStatus → Time → Event
  membership_suspended : String → String → MembershipStatus → Time → Event

pub subject : Event → String
subject (user_created user_id at) = "auth.user.created"
subject (org_created org_id name at) = "auth.org.created"
subject (membership_added org_id user_id status at) = "auth.membership.added"
subject (membership_removed org_id user_id status at) = "auth.membership.removed"
subject (membership_suspended org_id user_id status at) = "auth.membership.suspended"

-- The error values that callers tell apart with `errors.Is`; a wrapped error is the error it wraps.
pub data Error : Type 0 where
  database no_rows null_column duplicate_key missing_reference : Error
  invalid_id : String → Error
  required : String → Error
  org_not_found not_member user_not_found last_active_member invalid_org_name : Error
  invite_not_found invalid_invite invalid_email : Error
  email_otp_disabled mobile_otp_disabled unsupported_channel invalid_mobile : Error
  invalid_otp_code too_many_otp_attempts : Error
  invalid_credentials user_disabled invalid_token invalid_refresh : Error
  signup_disabled password_required : Error
  code_failed hash_failed sign_failed notify_failed secret_failed : Error

abbrev pub channel_email : String
channel_email = "email"

abbrev pub channel_sms : String
channel_sms = "sms"

abbrev pub user_active : String
user_active = "active"

abbrev pub user_signup_pending : String
user_signup_pending = "signup_pending"

abbrev pub user_disabled_status : String
user_disabled_status = "disabled"

is_digit : ℕ → Bool
is_digit c = leb b'0' c && leb c b'9'

-- Between `least` and `most` digits and nothing else.
digits_between : ℕ → ℕ → String → Bool
unfolding is_digit
digits_between least most [] = leb least 0
digits_between least most (c ∷ s) =
    is_digit (code c) && ltb 0 most && digits_between (least - 1) (most - 1) s

from_first : String → Bool
unfolding digits_between
from_first [] = false
from_first (c ∷ s) = leb b'1' (code c) && leb (code c) b'9' && digits_between 6 14 s

-- ^\+[1-9]\d{6,14}$
unfoldable pub is_e164 : String → Bool
unfolding from_first
is_e164 [] = false
is_e164 (c ∷ s) = leb b'+' (code c) && leb (code c) b'+' && from_first s

accepts : is_e164 "+989121234567" ≡ true
unfolding is_e164
accepts = refl

rejects : is_e164 "+0123456789" ≡ false
unfolding is_e164
rejects = refl

too_short : is_e164 "+123456" ≡ false
unfolding is_e164
too_short = refl
