-- ===== src/Domain/Invites.antt =====
-- internal/domain/invite.go.
use Prim.Native.Char.{code}
use Prim.Native.String.{[], ◌∷◌}
use orbit_auth.Prelude.{
  ℕ, String, ◌≡◌, refl, Bool, true, false, not, ◌&&◌, ◌||◌, Option, eqb, if◌then◌else◌,
}
use orbit_auth.Domain.{Time}

pub data InviteStatus : Type 0 where
  pending accepted revoked : InviteStatus

abbrev pub is_pending : InviteStatus → Bool
is_pending pending = true
is_pending accepted = false
is_pending revoked = false

pub record Invite : Type 0 where
  pub id : String
  pub org_id : String
  pub email : String
  pub token_hash : String
  pub inviter_id : String
  pub status : InviteStatus
  pub expires_at : Time
  pub accepted_at : Option Time
  pub created_at : Time

pub record InviteNotification : Type 0 where
  pub recipient : String
  pub org_name : String
  pub inviter_name : String
  pub accept_token : String
  pub expires_at : Time
  pub locale : String
  pub correlation_id : String

-- `[^@\s]`
is_plain : ℕ → Bool
is_plain c = not (eqb c b'@' || eqb c 9 || eqb c 10 || eqb c 12 || eqb c 13 || eqb c 32)

-- `[^@\s]*$`
all_plain : String → Bool
unfolding is_plain
all_plain [] = true
all_plain (c ∷ s) = is_plain (code c) && all_plain s

-- `[^@\s]+$`
some_plain : String → Bool
unfolding all_plain is_plain
some_plain [] = false
some_plain (c ∷ s) = is_plain (code c) && all_plain s

-- `[^@\s]*\.[^@\s]+$`
dotted : String → Bool
unfolding is_plain some_plain
dotted [] = false
dotted (c ∷ s) = is_plain (code c) && ((eqb (code c) b'.' && some_plain s) || dotted s)

-- `[^@\s]+\.[^@\s]+$`
host : String → Bool
unfolding is_plain dotted
host [] = false
host (c ∷ s) = is_plain (code c) && dotted s

-- `[^@\s]*@` before the host.
from_local : String → Bool
unfolding is_plain host
from_local [] = false
from_local (c ∷ s) =
    let rest = from_local s in if eqb (code c) b'@' then host s else is_plain (code c) && rest

-- IsEmail, inviteEmailPattern
unfoldable pub is_email : String → Bool
unfolding is_plain from_local
is_email [] = false
is_email (c ∷ s) = is_plain (code c) && from_local s

accepts : is_email "a@b.co" ≡ true
unfolding is_email
accepts = refl

rejects_dotless : is_email "a@bco" ≡ false
unfolding is_email
rejects_dotless = refl

rejects_two : is_email "a@b@c.d" ≡ false
unfolding is_email
rejects_two = refl
