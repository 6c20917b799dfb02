-- ===== src/Device/Action.antt =====
-- A round of the thread of cPluginMcli, Action in mcli.c: the pools follow the NetCeivers, devices are
-- enabled or disabled, and VDR is told to switch to its channel when a tuner is found.
pub mod Follows
use vdr_plugin_mcli.Prelude.{ℕ, ◌&&◌, not, Bool, true, false, List, [], ◌∷◌, if◌then◌else◌}
use vdr_plugin_mcli.Mcli.Scan.{NetceiverInfo, Round, scan}
use vdr_plugin_mcli.Device.{Config, Channel, Device, Pools, World}
use vdr_plugin_mcli.Device.Devices.{init_mcli, update_devices}

-- What a round meets: the time and the list of NetCeivers, the option of CAMPoolAdd, m_tuner_max, a new
-- device, which devices receive, the bit DEBUG_BIT_Action_RetuneOnFirstTuner, whether VDR knows its
-- current channel, and whether its SwitchChannel succeeds.
pub record RoundInput : Type 0 where
  pub now : ℕ
  pub ncis : List NetceiverInfo
  pub skip : Bool
  pub tuner_max : ℕ
  pub new : Device
  pub receivings : ℕ → Bool
  pub retune_bit : Bool
  pub has_channel : Bool
  pub switches : Bool

-- The world, channel_switch_ok, and whether SwitchChannel was called in the round.
pub record Followed : Type 0 where
  pub world : World
  pub switch_ok : Bool
  pub called : Bool

-- The pools as the loop over the NetCeivers finds them.
abbrev pub round_of : Pools → Round
round_of s = record { cams = s.cams; tuners = s.tuners; changed = false; added = false }

-- The loop over the NetCeivers, on the pools behind InitMcli.
unfoldable pub follow : RoundInput → World → World × Bool
unfolding scan init_mcli
follow a w =
    let w' = init_mcli a.tuner_max a.new w in
    let r = scan a.skip a.now a.ncis (round_of w'.pools) in
    (record w' { pools = record { tuners = r.tuners; cams = r.cams } }, r.added)

-- The part that tells VDR to switch; `added` is tpa. Where VDR has no channel, nothing changes.
unfoldable pub retune : RoundInput → (added switch_ok : Bool) → Bool × Bool
retune a added switch_ok =
    if added && a.retune_bit
    then (if not switch_ok && a.has_channel then (a.switches, true) else (switch_ok, false))
    else (false, false)

-- A round of Action.
unfoldable pub action_round : Config → Channel → RoundInput → Followed → Followed
unfolding follow retune update_devices
action_round c ch a f =
    let (w, added) = follow a f.world in
    let (ok, called) = retune a added f.switch_ok in
    record { world = update_devices c ch a.receivings w; switch_ok = ok; called = called }

-- Rounds of Action, from channel_switch_ok = false on.
pub action_rounds : Config → Channel → List RoundInput → Followed → Followed
unfolding action_round
action_rounds c ch [] f = f
action_rounds c ch (a ∷ rounds) f = action_rounds c ch rounds (action_round c ch a f)
