-- ===== src/Transport/Clones/Stages.antt =====
-- The texts of the stages of a clone, in git/transport/model.rs.
use git_ramus.Base.Tests.{◌≡◌, ◌↔◌, refl, ap, ◌∙◌, arith}
use git_ramus.Base.Text.{Text, codes, text_eq, text_eq_iff}
use git_ramus.Base.Error.{ok}
use git_ramus.Transport.Clones.{
  CloneStage, as_str, from_str, validating, awaiting_authentication, transferring, checking_out,
  applying_profile, registering, refreshing, completed, failed, cancelled, partial,
}

from_str-as_str : (s : CloneStage) → from_str (as_str s) ≡ ok s
unfolding from_str as_str text_eq codes
from_str-as_str validating = refl
from_str-as_str awaiting_authentication = refl
from_str-as_str transferring = refl
from_str-as_str checking_out = refl
from_str-as_str applying_profile = refl
from_str-as_str registering = refl
from_str-as_str refreshing = refl
from_str-as_str completed = refl
from_str-as_str failed = refl
from_str-as_str cancelled = refl
from_str-as_str partial = refl

as_str-from_str : (s : CloneStage) (value : Text) → from_str value ≡ ok s → value ≡ as_str s
unfolding from_str as_str
as_str-from_str s value h = ground (
  arith,
  text_eq_iff value (codes "validating"),
  text_eq_iff value (codes "awaitingAuthentication"),
  text_eq_iff value (codes "transferring"),
  text_eq_iff value (codes "checkingOut"),
  text_eq_iff value (codes "applyingProfile"),
  text_eq_iff value (codes "registering"),
  text_eq_iff value (codes "refreshing"),
  text_eq_iff value (codes "completed"),
  text_eq_iff value (codes "failed"),
  text_eq_iff value (codes "cancelled"),
  text_eq_iff value (codes "partial"),
)

-- A text is read as a stage exactly when it is the text of that stage.
from_str_iff : (s : CloneStage) (value : Text) → (from_str value ≡ ok s) ↔ (value ≡ as_str s)
from_str_iff s value = (as_str-from_str s value, λ h. ap from_str h ∙ from_str-as_str s)
