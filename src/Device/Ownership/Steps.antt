-- ===== src/Device/Ownership/Steps.antt =====
-- The steps that the devices (device.c) and the thread that follows the NetCeivers (mcli.c) take on the
-- pools, and the account of the tuners and CAMs behind any number of them.
use vdr_plugin_mcli.Prelude.{ℕ, ◌<◌, refl, ◌∙◌, Bool, Option, none, some, List, get_or, length}
use vdr_plugin_mcli.Prelude.Int.{ℤ}
use vdr_plugin_mcli.Mcli.Tuners.{TunerInfo, tuner_pool_add, tuner_pool_del}
use vdr_plugin_mcli.Mcli.Tuners.Inuse.{inuse_at-add, inuse_at-del}
use vdr_plugin_mcli.Mcli.Cams.{cam_pool_del}
use vdr_plugin_mcli.Mcli.Cams.Uses.{uses_at-del}
use vdr_plugin_mcli.Device.{
  Config, Channel, Device, DvbPid, Pools, World, Ten, set_ten_data, handle_ten,
}
use vdr_plugin_mcli.Device.Tune.{set_enable, set_temp_disable, put_back, no_device}
use vdr_plugin_mcli.Device.SetChannel.{set_channel_device}
use vdr_plugin_mcli.Device.Pids.{set_pid}
use vdr_plugin_mcli.Device.Ownership.{Owned, keep-Owned}
use vdr_plugin_mcli.Device.Ownership.Keeps.{set_enable-Owned, set_temp_disable-Owned}
use vdr_plugin_mcli.Device.Ownership.Pid.{set_pid-Owned}
use vdr_plugin_mcli.Device.Ownership.Account.{Account, put_back-Account}
use vdr_plugin_mcli.Device.Ownership.Switch.{set_channel-Account}

-- The device with an index, where `ch` is the channel of no device.
abbrev pub dev_at : Channel → ℕ → World → Device
dev_at ch i w = get_or w.devs i (no_device ch)

-- A step on the pools: a call of a device of the list -- SetEnable, SetTempDisable, SetChannelDevice with
-- the CAM it may steal, SetPid, the handler of the tuner's status -- or a tuner that the thread finds or
-- loses, or the CAMs of a NetCeiver that it loses.
pub data Step : World → World → Type 0 where
  enables :
      (c : Config) (ch : Channel) (val : Bool) (i : ℕ) (w : World)
      → i < length w.devs
      → Step w (
          put_back i
            (set_enable c val w.pools (dev_at ch i w)).0
            (set_enable c val w.pools (dev_at ch i w)).1
            w)
  disables :
      (ch : Channel) (now receiving : Bool) (time i : ℕ) (w : World)
      → i < length w.devs
      → Step w (
          put_back i
            (set_temp_disable now receiving time w.pools (dev_at ch i w)).1
            (set_temp_disable now receiving time w.pools (dev_at ch i w)).2
            w)
  tunes :
      (c : Config) (ch : Channel) (live : Bool) (prios : ℕ → ℤ) (receivings : ℕ → Bool) (time i : ℕ)
      (w : World)
      → i < length w.devs
      → Step w (set_channel_device c ch live prios receivings time i w).1
  sets_pid :
      (ch : Channel) (pid used : ℕ) (on : Bool) (got : List DvbPid) (time i : ℕ) (w : World)
      → i < length w.devs
      → Step w (
          put_back i
            (set_pid pid used on got time w.pools (dev_at ch i w)).1
            (set_pid pid used on got time w.pools (dev_at ch i w)).2
            w)
  hears :
      (ch : Channel) (ten : Option Ten) (i : ℕ) (w : World)
      → i < length w.devs
      → Step w (put_back i w.pools (handle_ten ten (dev_at ch i w)) w)
  finds_tuner :
      (t : TunerInfo) (w : World)
      → Step w
          (record w { pools = record w.pools { tuners = (tuner_pool_add t w.pools.tuners).1 } })
  loses_tuner :
      (i : ℕ) (w : World)
      → Step w
          (record w { pools = record w.pools { tuners = (tuner_pool_del i w.pools.tuners).1 } })
  loses_cams :
      (uuid : List ℕ) (w : World)
      → Step w (record w {
        pools = record w.pools {
          cams = record w.pools.cams { pool = (cam_pool_del uuid w.pools.cams.pool).1 };
        };
      })

-- Any number of steps.
pub data Steps : World → World → Type 0 where
  done : (w : World) → Steps w w
  next : (u v w : World) → Step u v → Steps v w → Steps u w

handle_ten-Owned :
    (rt rc : ℕ → ℕ) (ten : Option Ten) (s : Pools) (d : Device)
    → Owned rt rc (s, d)
    → Owned rt rc (s, handle_ten ten d)
unfolding handle_ten set_ten_data
handle_ten-Owned rt rc none s d o = keep-Owned rt rc s d (handle_ten none d) refl refl refl o
handle_ten-Owned rt rc (some ten) s d o =
    keep-Owned rt rc s d (handle_ten (some ten) d) refl refl refl o

-- A step keeps the account.
pub Step-Account : (v w : World) → Step v w → Account v → Account w
Step-Account _ _ (enables c ch val i w h) a =
    put_back-Account ch w i (set_enable c val) h (λ rt rc s d o. set_enable-Owned rt rc c val s d o)
      a
Step-Account _ _ (disables ch now receiving time i w h) a =
    put_back-Account ch w i
      (λ s d.
        ((set_temp_disable now receiving time s d).1, (set_temp_disable now receiving time s d).2))
      h (λ rt rc s d o. set_temp_disable-Owned rt rc now receiving time s d o) a
Step-Account _ _ (tunes c ch live prios receivings time i w h) a =
    set_channel-Account c ch live prios receivings time i w h a
Step-Account _ _ (sets_pid ch pid used on got time i w h) a =
    put_back-Account ch w i
      (λ s d. ((set_pid pid used on got time s d).1, (set_pid pid used on got time s d).2)) h
      (λ rt rc s d o. set_pid-Owned rt rc pid used on got time s d o) a
Step-Account _ _ (hears ch ten i w h) a =
    put_back-Account ch w i (λ s d. (s, handle_ten ten d)) h
      (λ rt rc s d o. handle_ten-Owned rt rc ten s d o) a
Step-Account _ _ (finds_tuner t w) a = record {
  tuners = λ j. rw (inuse_at-add t w.pools.tuners j) (a.tuners j);
  cams = a.cams;
  marked = a.marked;
}
Step-Account _ _ (loses_tuner i w) a = record {
  tuners = λ j. rw (inuse_at-del i w.pools.tuners j) (a.tuners j);
  cams = a.cams;
  marked = a.marked;
}
Step-Account _ _ (loses_cams uuid w) a = record {
  tuners = a.tuners;
  cams = λ j. uses_at-del uuid w.pools.cams.pool j ∙ a.cams j;
  marked = a.marked;
}

-- Behind any number of steps from an account that is right, each tuner in use is held by exactly one
-- device and each other tuner by none, a CAM has as many uses as there are devices that hold it, and a
-- device is marked as having a CAM exactly if it holds one.
pub Steps-Account : (v w : World) → Steps v w → Account v → Account w
Steps-Account _ _ (done w) a = a
Steps-Account _ _ (next u v w s ss) a = Steps-Account v w ss (Step-Account u v s a)
