-- ===== src/Device/Plugin.antt =====
-- cPluginMcli of mcli.c as a whole: its constructor, Initialize, Stop, MainThreadHook, and what asks for
-- reconfigure.
pub mod Runs
use vdr_plugin_mcli.Prelude.{
  ℕ, ◌-◌, ◌==◌, ◌&&◌, not, ◌||◌, same_text, Bool, true, false, Option, none, some, List, [], ◌∷◌,
  take, length, if◌then◌else◌,
}
use vdr_plugin_mcli.Mcli.Tuners.{new_tuners}
use vdr_plugin_mcli.Mcli.Cams.{new_pool}
use vdr_plugin_mcli.Mcli.Limits.{takes_iface}
use vdr_plugin_mcli.Mcli.Start.{Inits, Part, pre_init_mcli, post_exit_mcli}
use vdr_plugin_mcli.Device.{Config, Channel, Device, Pools, World}
use vdr_plugin_mcli.Device.Devices.{init_mcli, disable_all, reconfigure}

-- The pools and devices, the flags of the parts of the receiver, m_cmd.iface, and the variable reconf,
-- with which the setup menu asks for reconfigure.
pub record Plugin : Type 0 where
  pub world : World
  pub inits : Inits
  pub iface : List ℕ
  pub reconf : Bool

-- What a call meets: the configuration, the channel of a device that is made, m_tuner_max, such a
-- device, and which devices receive.
pub record PluginInput : Type 0 where
  pub config : Config
  pub channel : Channel
  pub tuner_max : ℕ
  pub new : Device
  pub receivings : ℕ → Bool

-- The constructor.
abbrev pub new_plugin : Plugin
new_plugin = record {
  world = record {
    pools = record { tuners = new_tuners; cams = record { pool = new_pool; cam_present = false } };
    devs = [];
  };
  inits = record {
    recv_init_done = false;
    mld_init_done = false;
    api_init_done = false;
    mmi_init_done = false;
    mld_start = true;
  };
  iface = [];
  reconf = false;
}

-- Initialize
unfoldable pub initialize :
    (files : List (Option (List (List ℕ)))) (answer : Part → Bool)
    → PluginInput
    → Plugin
    → Bool × Plugin
unfolding pre_init_mcli init_mcli
initialize files answer a p =
    let o = pre_init_mcli p.iface files answer p.inits in
    let p' : Plugin = record p { inits = o.inits } in
    if o.ok then (true, record p' { world = init_mcli a.tuner_max a.new p.world }) else (false, p')

-- Stop
unfoldable pub stop_plugin : PluginInput → Plugin → Plugin
unfolding disable_all
stop_plugin a p = record p { world = disable_all a.config a.channel p.world }

-- The call of reconfigure.
unfoldable pub reconfigured : PluginInput → Plugin → Plugin
unfolding reconfigure
reconfigured a p = record p {
  world = reconfigure a.config a.channel a.tuner_max a.new a.receivings p.world;
}

-- MainThreadHook
unfoldable pub main_thread_hook : PluginInput → Plugin → Plugin
unfolding reconfigured
main_thread_hook a p = if p.reconf then record (reconfigured a p) { reconf = false } else p

-- The network device that REINIT sets; `option` is none where the command has no option.
unfoldable pub reinit_iface : (ifnamsiz : ℕ) → (option : Option (List ℕ)) → List ℕ → List ℕ
unfolding takes_iface
reinit_iface ifnamsiz none old = old
reinit_iface ifnamsiz (some name) old = if takes_iface name then take (ifnamsiz - 1) name else old

-- REINIT
unfoldable pub svdrp_reinit : (ifnamsiz : ℕ) → Option (List ℕ) → PluginInput → Plugin → Plugin
unfolding reinit_iface reconfigured
svdrp_reinit ifnamsiz option a p =
    reconfigured a (record p { iface = reinit_iface ifnamsiz option p.iface })

-- The service "Reinit", which takes no empty name.
abbrev pub service_name : Option (List ℕ) → Option (List ℕ)
service_name none = none
service_name (some name) = if length name == 0 then none else some name

unfoldable pub service_reinit : (ifnamsiz : ℕ) → Option (List ℕ) → PluginInput → Plugin → Plugin
unfolding reinit_iface reconfigured
service_reinit ifnamsiz data_name a p =
    reconfigured a (record p { iface = reinit_iface ifnamsiz (service_name data_name) p.iface })

-- The destructor: the parts of the receiver that end.
pub destroy : Plugin → List Part
unfolding post_exit_mcli
destroy p = (post_exit_mcli p.inits).0

-- CamPollText, where `text` is what mmi_poll_for_menu_text gives.
unfoldable pub cam_poll_text : {A : Type 0} → Option A → Plugin → Option A
cam_poll_text text p = if p.inits.mmi_init_done && not p.reconf then text else none

-- The test of a multicast group of the text on that of a device, behind mcg_set_id (.., 0).
abbrev pub is_for : (is_unspecified : List ℕ → Bool) → (mcg : List ℕ) → (device_mcg : List ℕ) → Bool
is_for is_unspecified mcg device_mcg = is_unspecified mcg || same_text mcg device_mcg

-- The loop of AltMenuAction over the devices.
abbrev pub any_device : (List ℕ → Bool) → (mcg : List ℕ) → (device_mcgs : List (List ℕ)) → Bool
any_device is_unspecified mcg [] = false
any_device is_unspecified mcg (m ∷ ms) =
    is_for is_unspecified mcg m || any_device is_unspecified mcg ms

-- The loop over the groups of the text.
abbrev pub any_group : (List ℕ → Bool) → (mcgs device_mcgs : List (List ℕ)) → Bool
any_group is_unspecified [] device_mcgs = false
any_group is_unspecified (c ∷ cs) device_mcgs =
    any_device is_unspecified c device_mcgs || any_group is_unspecified cs device_mcgs

-- AltMenuAction: whether it opens the menu of a CAM. The text that waits is the list of its groups;
-- those of the devices are without the id.
pub alt_menu_action :
    (is_unspecified : List ℕ → Bool) (text : Option (List (List ℕ))) (device_mcgs : List (List ℕ))
    → Plugin
    → Bool
unfolding cam_poll_text
alt_menu_action is_unspecified text device_mcgs p = elim (cam_poll_text text p) [
  | none ↦ false
  | some mcgs ↦ any_group is_unspecified mcgs device_mcgs
]
