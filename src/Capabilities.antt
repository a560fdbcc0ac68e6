-- ===== src/Capabilities.antt =====
-- runtime/capabilities.py: what a tool call may need, and the tier that gates it. A set of
-- capabilities is a list; `effective_tier` does not depend on its order or on repetitions.
pub mod Tiers
use ai_studio.Prelude.{
  ℕ, String, Bool, true, false, Option, none, some, List, [], ◌∷◌, ◌==◌, ltb, if◌then◌else◌,
}

pub data Capability : Type 0 where
  fs_read fs_write fs_delete shell_exec code_run git_write net_fetch : Capability
  secret_use spend_money deploy comms_human_relay : Capability

abbrev pub cap_index : Capability → ℕ
cap_index fs_read = 0
cap_index fs_write = 1
cap_index fs_delete = 2
cap_index shell_exec = 3
cap_index code_run = 4
cap_index git_write = 5
cap_index net_fetch = 6
cap_index secret_use = 7
cap_index spend_money = 8
cap_index deploy = 9
cap_index comms_human_relay = 10

unfoldable pub cap_eq : Capability → Capability → Bool
cap_eq a b = cap_index a == cap_index b

pub data ActionTier : Type 0 where
  green yellow red : ActionTier

-- `_TIER_RANK`
unfoldable pub tier_rank : ActionTier → ℕ
tier_rank green = 0
tier_rank yellow = 1
tier_rank red = 2

-- `DEFAULT_CAPABILITY_TIER`
unfoldable pub default_tier : Capability → ActionTier
default_tier fs_read = green
default_tier net_fetch = green
default_tier fs_write = yellow
default_tier git_write = yellow
default_tier secret_use = yellow
default_tier comms_human_relay = yellow
default_tier fs_delete = red
default_tier shell_exec = red
default_tier code_run = red
default_tier spend_money = red
default_tier deploy = red

abbrev pub Overrides : Type 0
Overrides = List (Capability × ActionTier)

unfoldable pub override_of : Overrides → Capability → Option ActionTier
override_of [] cap = none
override_of ((c, tier) ∷ rest) cap = if cap_eq c cap then some tier else override_of rest cap

unfoldable pub tier_for_capability : Overrides → Capability → ActionTier
tier_for_capability overrides cap = elim (override_of overrides cap) [
  | none ↦ default_tier cap
  | some tier ↦ tier
]

-- The loop, which keeps the most restrictive tier seen.
unfoldable pub restrict : Overrides → ActionTier → List Capability → ActionTier
restrict overrides tier [] = tier
restrict overrides tier (cap ∷ caps) =
    let cap_tier = tier_for_capability overrides cap in
    restrict overrides (if ltb (tier_rank tier) (tier_rank cap_tier) then cap_tier else tier) caps

unfoldable pub effective_tier : Overrides → List Capability → ActionTier
effective_tier overrides caps = restrict overrides green caps

-- The wire values.
unfoldable pub cap_value : Capability → String
cap_value fs_read = "fs.read"
cap_value fs_write = "fs.write"
cap_value fs_delete = "fs.delete"
cap_value shell_exec = "shell.exec"
cap_value code_run = "code.run"
cap_value git_write = "git.write"
cap_value net_fetch = "net.fetch"
cap_value secret_use = "secret.use"
cap_value spend_money = "spend.money"
cap_value deploy = "deploy"
cap_value comms_human_relay = "comms.human_relay"

-- The tiers' wire values.
unfoldable pub tier_value : ActionTier → String
tier_value green = "green"
tier_value yellow = "yellow"
tier_value red = "red"
