-- ===== src/Device/Tests/Rounds.antt =====
-- Runs of the thread and of the plugin (mcli.c) on small inputs.
use vdr_plugin_mcli.Prelude.{
  ℕ, ◌≡◌, refl, true, Bool, Option, some, List, [], ◌∷◌, if_both, All, All-replicate, subst, sym,
}
use vdr_plugin_mcli.Prelude.Int.{pos}
use vdr_plugin_mcli.Mcli.Scan.{NetceiverInfo}
use vdr_plugin_mcli.Mcli.Start.{Part}
use vdr_plugin_mcli.Mcli.Cams.{free_cam}
use vdr_plugin_mcli.Mcli.Cams.Kept.{Settled}
use vdr_plugin_mcli.Device.{new_device, unset}
use vdr_plugin_mcli.Device.Devices.{init_mcli}
use vdr_plugin_mcli.Device.Ownership.Account.{Account}
use vdr_plugin_mcli.Device.Action.{RoundInput, action_rounds}
use vdr_plugin_mcli.Device.Action.Follows.{MayFollowAll}
use vdr_plugin_mcli.Device.Plugin.{Plugin, PluginInput, new_plugin, initialize, svdrp_reinit}
use vdr_plugin_mcli.Device.Plugin.Runs.{
  begin, initializes, follows, reinits, done, next, PluginSteps-Account,
}
use vdr_plugin_mcli.Device.Tests.{config, channel, no_receivings}

-- A NetCeiver with a second tuner for cable.
abbrev netceiver : NetceiverInfo
netceiver = record {
  uuid = 110 ∷ [];
  lastseen = 5;
  cams = [];
  tuners = record { kind = 1; uuid = 98 ∷ []; sat_list_name = []; preference = pos 0 } ∷ [];
}

abbrev round_input : RoundInput
round_input = record {
  now = 10;
  ncis = netceiver ∷ [];
  skip = true;
  tuner_max = 2;
  new = new_device channel (pos 0) true 0 unset;
  receivings = no_receivings;
  retune_bit = true;
  has_channel = true;
  switches = true;
}

abbrev plugin_input : PluginInput
plugin_input = record {
  config = config;
  channel = channel;
  tuner_max = 2;
  new = new_device channel (pos 0) true 0 unset;
  receivings = no_receivings;
}

-- Behind Initialize, behind a round of the thread, and behind REINIT eth0.
abbrev initialized : Plugin
initialized = (initialize [] (λ part. true) plugin_input new_plugin).1

abbrev followed : Plugin
followed = record initialized {
  world = (action_rounds config channel (round_input ∷ []) (begin initialized.world)).world;
}

abbrev reinited : Plugin
reinited = svdrp_reinit 16 (some (101 ∷ 116 ∷ 104 ∷ 48 ∷ [])) plugin_input followed

initialize-cams :
    (files : List (Option (List (List ℕ)))) (answer : Part → Bool) (a : PluginInput) (p : Plugin)
    → (initialize files answer a p).1.world.pools.cams ≡ p.world.pools.cams
unfolding initialize init_mcli
initialize-cams files answer a p =
    if_both (λ (r : Bool × Plugin). r.1.world.pools.cams ≡ p.world.pools.cams) _ _ _ (λ e. refl)
      λ e. refl

initialized_cams : All (Settled (λ uuid. true)) initialized.world.pools.cams.pool
initialized_cams =
    subst (λ c. All (Settled (λ uuid. true)) c.pool)
      (sym (initialize-cams [] (λ part. true) plugin_input new_plugin))
      (All-replicate (Settled (λ uuid. true)) 10 free_cam refl)

initialized_follows : MayFollowAll config channel (round_input ∷ []) (begin initialized.world)
initialized_follows = (
  record {
    gone = λ uuid. true;
    overdue_gone = (λ e. refl, tt);
    settled = initialized_cams;
    new_empty = (refl, refl, refl);
  },
  tt,
)

PluginSteps-Account_example : Account reinited.world
PluginSteps-Account_example = PluginSteps-Account reinited (
    next new_plugin initialized reinited
      (initializes [] (λ part. true) plugin_input new_plugin (refl, refl, refl))
      (next initialized followed reinited
        (follows config channel (round_input ∷ []) initialized initialized_follows)
        (next followed reinited reinited
          (reinits 16 (some (101 ∷ 116 ∷ 104 ∷ 48 ∷ [])) plugin_input followed (refl, refl, refl))
          (done reinited))))
