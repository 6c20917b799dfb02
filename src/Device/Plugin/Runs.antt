-- ===== src/Device/Plugin/Runs.antt =====
-- The account of the tuners and CAMs behind everything that cPluginMcli and its devices do (mcli.c,
-- device.c).
use vdr_plugin_mcli.Prelude.{
  ℕ, zero, suc, ◌≡◌, refl, sym, ap, ◌∙◌, Bool, true, false, Option, none, List, [], ◌∷◌, map, arith,
  length, replicate, if_both, if◌then◌else◌,
}
use vdr_plugin_mcli.Mcli.Tuners.{free_tuner, new_tuners}
use vdr_plugin_mcli.Mcli.Tuners.Inuse.{inuse_at}
use vdr_plugin_mcli.Mcli.Cams.{CamPool, free_cam}
use vdr_plugin_mcli.Mcli.Cams.Uses.{uses_at}
use vdr_plugin_mcli.Mcli.Start.{Part}
use vdr_plugin_mcli.Device.{Config, Channel, Device, World}
use vdr_plugin_mcli.Device.Tune.{set_enable}
use vdr_plugin_mcli.Device.Devices.{
  free_cams, disable_all, init_mcli, reconfigure, temp_disable_devices,
}
use vdr_plugin_mcli.Device.Devices.Each.{for_devs-Account}
use vdr_plugin_mcli.Device.Devices.Enabled.{disable_all-frees}
use vdr_plugin_mcli.Device.Ownership.Keeps.{set_enable-Owned, set_temp_disable-Owned}
use vdr_plugin_mcli.Device.Ownership.Account.{Account}
use vdr_plugin_mcli.Device.Ownership.Steps.{Step, Step-Account}
use vdr_plugin_mcli.Device.Action.{RoundInput, Followed, action_rounds}
use vdr_plugin_mcli.Device.Action.Follows.{
  HoldsNothing, MayFollowAll, init_mcli-Account, update_devices-Account, action_rounds-Account,
}
use vdr_plugin_mcli.Device.Plugin.{
  Plugin, PluginInput, new_plugin, initialize, stop_plugin, reconfigured, main_thread_hook,
  svdrp_reinit, service_reinit, reinit_iface, service_name,
}

disable_all-Account :
    (c : Config) (ch : Channel) (w : World) → Account w → Account (disable_all c ch w)
unfolding disable_all
disable_all-Account c ch w a =
    (for_devs-Account ch (λ i. set_enable c false) (length w.devs) 0 w
      (λ j rt rc s d o. set_enable-Owned rt rc c false s d o) (omega arith) a).0

temp_disable_devices-Account :
    (ch : Channel) (now : Bool) (receivings : ℕ → Bool) (time : ℕ) (w : World)
    → Account w
    → Account (temp_disable_devices ch now receivings time w)
unfolding temp_disable_devices
temp_disable_devices-Account ch now receivings time w a =
    (for_devs-Account ch _ (length w.devs) 0 w
      (λ j rt rc s d o. set_temp_disable-Owned rt rc now (receivings j) time s d o) (omega arith)
      a).0

inuse_at-new : (n j : ℕ) → inuse_at (replicate n free_tuner) j ≡ false
inuse_at-new zero j = refl
inuse_at-new (suc n) zero = refl
inuse_at-new (suc n) (suc j) = inuse_at-new n j

uses_at-new : (n j : ℕ) → uses_at (replicate n free_cam) j ≡ 0
uses_at-new zero j = refl
uses_at-new (suc n) zero = refl
uses_at-new (suc n) (suc j) = uses_at-new n j

-- Freeing the entries of the CAMs keeps their uses.
uses_at-free_cams :
    (pool : List CamPool) (j : ℕ)
    → uses_at (map (λ (cp : CamPool). record cp { max = none }) pool) j ≡ uses_at pool j
uses_at-free_cams [] j = refl
uses_at-free_cams (cp ∷ pool) zero = refl
uses_at-free_cams (cp ∷ pool) (suc j) = uses_at-free_cams pool j

-- reconfigure empties the pools, of which nothing is in use behind the loop that disables the devices.
reconfigure-Account :
    (c : Config) (ch : Channel) (tuner_max : ℕ) (d : Device) (receivings : ℕ → Bool) (w : World)
    → HoldsNothing d
    → Account w
    → Account (reconfigure c ch tuner_max d receivings w)
unfolding reconfigure
reconfigure-Account c ch tuner_max d receivings w e a =
    let w1 = disable_all c ch w in
    let a1 = disable_all-Account c ch w a in
    let (tuners_free, cams_free, idle) = disable_all-frees c ch w a in
    let w2 : World = record w1 {
      pools = record { tuners = new_tuners; cams = free_cams w1.pools.cams };
    } in
    let a2 : Account w2 = record {
      tuners = λ j.
          ap (λ (u : Bool). if u then 1 else 0) (inuse_at-new 32 j ∙ sym (tuners_free j))
          ∙ a1.tuners j;
      cams = λ j. uses_at-free_cams w1.pools.cams.pool j ∙ a1.cams j;
      marked = a1.marked;
    } in
    update_devices-Account c ch receivings (init_mcli tuner_max d w2)
      (init_mcli-Account tuner_max d w2 e a2)

-- The start of the thread.
abbrev pub begin : World → Followed
begin w = record { world = w; switch_ok = false; called = false }

-- A step of the plugin: Initialize, Stop, reconfigure for the setup menu, for REINIT and for the service
-- "Reinit", TempDisableDevices, rounds of the thread, and the calls of VDR and libmcli at a device. A
-- device that is made holds nothing.
pub data PluginStep : Plugin → Plugin → Type 0 where
  initializes :
      (files : List (Option (List (List ℕ)))) (answer : Part → Bool) (a : PluginInput) (p : Plugin)
      → HoldsNothing a.new
      → PluginStep p (initialize files answer a p).1
  stops : (a : PluginInput) (p : Plugin) → PluginStep p (stop_plugin a p)
  asks_reconf : (p : Plugin) → PluginStep p (record p { reconf = true })
  hooks : (a : PluginInput) (p : Plugin) → HoldsNothing a.new → PluginStep p (main_thread_hook a p)
  reinits :
      (ifnamsiz : ℕ) (option : Option (List ℕ)) (a : PluginInput) (p : Plugin)
      → HoldsNothing a.new
      → PluginStep p (svdrp_reinit ifnamsiz option a p)
  serves_reinit :
      (ifnamsiz : ℕ) (name : Option (List ℕ)) (a : PluginInput) (p : Plugin)
      → HoldsNothing a.new
      → PluginStep p (service_reinit ifnamsiz name a p)
  temp_disables :
      (ch : Channel) (now : Bool) (receivings : ℕ → Bool) (time : ℕ) (p : Plugin)
      → PluginStep p (record p { world = temp_disable_devices ch now receivings time p.world })
  follows :
      (c : Config) (ch : Channel) (rounds : List RoundInput) (p : Plugin)
      → MayFollowAll c ch rounds (begin p.world)
      → PluginStep p (record p { world = (action_rounds c ch rounds (begin p.world)).world })
  calls : (p : Plugin) (w : World) → Step p.world w → PluginStep p (record p { world = w })

pub data PluginSteps : Plugin → Plugin → Type 0 where
  done : (p : Plugin) → PluginSteps p p
  next : (p q r : Plugin) → PluginStep p q → PluginSteps q r → PluginSteps p r

reconfigured-Account :
    (a : PluginInput) (p : Plugin)
    → HoldsNothing a.new
    → Account p.world
    → Account (reconfigured a p).world
unfolding reconfigured
reconfigured-Account a p e acc =
    reconfigure-Account a.config a.channel a.tuner_max a.new a.receivings p.world e acc

PluginStep-Account : (p q : Plugin) → PluginStep p q → Account p.world → Account q.world
unfolding initialize stop_plugin main_thread_hook svdrp_reinit service_reinit
PluginStep-Account _ _ (initializes files answer a p e) acc =
    if_both (λ (r : Bool × Plugin). Account r.1.world) _ _ _
      (λ h. init_mcli-Account a.tuner_max a.new p.world e acc) λ h. acc
PluginStep-Account _ _ (stops a p) acc = disable_all-Account a.config a.channel p.world acc
PluginStep-Account _ _ (asks_reconf p) acc = acc
PluginStep-Account _ _ (hooks a p e) acc =
    if_both (λ (r : Plugin). Account r.world) p.reconf _ p (λ h. reconfigured-Account a p e acc)
      λ h. acc
PluginStep-Account _ _ (reinits ifnamsiz option a p e) acc =
    reconfigured-Account a (record p { iface = reinit_iface ifnamsiz option p.iface }) e acc
PluginStep-Account _ _ (serves_reinit ifnamsiz name a p e) acc =
    reconfigured-Account a (record p { iface = reinit_iface ifnamsiz (service_name name) p.iface })
      e acc
PluginStep-Account _ _ (temp_disables ch now receivings time p) acc =
    temp_disable_devices-Account ch now receivings time p.world acc
PluginStep-Account _ _ (follows c ch rounds p m) acc =
    action_rounds-Account c ch rounds (begin p.world) m acc
PluginStep-Account _ _ (calls p w s) acc = Step-Account p.world w s acc

new_plugin-Account : Account new_plugin.world
new_plugin-Account = record {
  tuners = λ j. rw (inuse_at-new 32 j) refl;
  cams = λ j. uses_at-new 10 j;
  marked = tt;
}

PluginSteps-keep : (p q : Plugin) → PluginSteps p q → Account p.world → Account q.world
PluginSteps-keep _ _ (done p) acc = acc
PluginSteps-keep _ _ (next p q r s ss) acc = PluginSteps-keep q r ss (PluginStep-Account p q s acc)

-- Behind any number of steps of a plugin that is new, in which a device that is made holds nothing and a
-- round of the thread loses no CAM that is in use: each tuner in use is held by exactly one device and
-- each other tuner by none, a CAM has as many uses as there are devices that hold it, and a device is
-- marked as having a CAM exactly if it holds one.
pub PluginSteps-Account : (p : Plugin) → PluginSteps new_plugin p → Account p.world
PluginSteps-Account p ss = PluginSteps-keep new_plugin p ss new_plugin-Account
