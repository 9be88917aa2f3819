-- ===== src/Cloud/Api/Unlock.antt =====
-- custom_components/ezviz_hp7/api.py: the unlocks.
use ezviz_hp.Base.{ℕ, Bool, false, not, Option, none, some, [], ◌∷◌, if◌then◌else◌}
use ezviz_hp.Base.Bytes.{Bytes}
use ezviz_hp.Cloud.Api.{Api, Setup, ensure_client}

abbrev pub default_gate_lock_no : ℕ
default_gate_lock_no = 1

abbrev pub default_door_lock_no : ℕ
default_door_lock_no = 2

-- a call of `remote_unlock`: the serial, the user, the lock
pub record Unlock : Type 0 where
  pub serial : Bytes
  pub user : Bytes
  pub lock_no : ℕ

user_of : Bytes → Bytes → Bytes
user_of username [] = username
user_of username (c ∷ cs) = c ∷ cs

-- `_try_unlock`: the result, `none` where `ensure_client` raises; the call, if one is made; `accepted`
-- tells whether the call raises
unfoldable pub try_unlock : Bytes → ℕ → Setup → Bool → Api → Option Bool × Option Unlock × Api
unfolding user_of
try_unlock serial lock_no setup accepted s =
    let (ok, s') = ensure_client setup s in
    if not ok then (none, none, s') else elim s'.token [
      | none ↦ (some false, none, s')
      | some name ↦ if not s'.client then (some false, none, s') else (
        some accepted,
        some (record { serial = serial; user = user_of s'.username name; lock_no = lock_no }),
        s',
      )
    ]

-- `unlock_door`
unfoldable pub unlock_door : Bytes → Setup → Bool → Api → Option Bool × Option Unlock × Api
unlock_door serial = try_unlock serial default_door_lock_no

-- `unlock_gate`
unfoldable pub unlock_gate : Bytes → Setup → Bool → Api → Option Bool × Option Unlock × Api
unlock_gate serial = try_unlock serial default_gate_lock_no
