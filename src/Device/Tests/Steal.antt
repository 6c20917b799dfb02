-- ===== src/Device/Tests/Steal.antt =====
-- A run of CAMSteal (mcli.c) on a device that receives nothing and has the only CAM.
use vdr_plugin_mcli.Prelude.{
  ℕ, zero, suc, ◌≡◌, ◌≢◌, refl, true, false, none, some, [], ◌∷◌, inr, arith,
}
use vdr_plugin_mcli.Mcli.Cams.{CamPool, cam_available}
use vdr_plugin_mcli.Mcli.Cams.Uses.{uses_at}
use vdr_plugin_mcli.Device.{World}
use vdr_plugin_mcli.Device.Provide.{find_victim}
use vdr_plugin_mcli.Device.Tune.{cam_steal}
use vdr_plugin_mcli.Device.Ownership.Account.{Account, owners}
use vdr_plugin_mcli.Device.Ownership.Steal.{cam_steal-available}
use vdr_plugin_mcli.Device.Tests.{channel, cable, device, no_prios, no_receivings, world_tuners}

abbrev used_cam : CamPool
used_cam = record {
  uuid = 110 ∷ [];
  slot = 1;
  use_count = 1;
  max = some 1;
  status = 2;
  trigger = false;
  trigger_sid = 0;
}

abbrev cam_world : World
cam_world = record {
  pools = record {
    tuners = cable ∷ [];
    cams = record { pool = used_cam ∷ []; cam_present = true };
  };
  devs = record device { ca_enable = true; camref = some 0 } ∷ [];
}

cam_world_uses :
    (j : ℕ) → uses_at cam_world.pools.cams.pool j ≡ owners (λ d. d.camref) cam_world.devs j
cam_world_uses zero = refl
cam_world_uses (suc j) = ground arith

cam_world-Account : Account cam_world
cam_world-Account = record { tuners = world_tuners; cams = cam_world_uses; marked = (refl, tt) }

steals : (cam_steal channel (some 1) no_prios no_receivings 5 cam_world).0 ≡ true
unfolding cam_steal find_victim
steals = refl

cam_steal-available_example :
    cam_available none
      (some 1)
      (cam_steal channel (some 1) no_prios no_receivings 5 cam_world).1.pools.cams.pool
    ≢ none
cam_steal-available_example =
    cam_steal-available channel (some 1) no_prios no_receivings 5 cam_world cam_world-Account
      (inr (1, refl, omega arith), tt) steals
