-- ===== src/Device.antt =====
-- The receiving device of VDR, cMcliDevice of device.c and device.h, with the branches for VDR 2.4.4 and
-- later, and with USE_VDR_PACKET_BUFFER. What the code asks of VDR and of libmcli (a channel, a clock,
-- the priority, the answers of recv_pids_get) is an argument; what it tells libmcli is a list of calls.
pub mod Source
pub mod Provide
pub mod Tune
pub mod SetChannel
pub mod Pids
pub mod Stream
pub mod Ownership
pub mod Devices
pub mod Action
pub mod Plugin
pub mod Answers
pub mod Tuned
mod Tests
use vdr_plugin_mcli.Prelude.{
  ℕ, ◌+◌, ◌*◌, ◌/◌, ◌==◌, Bool, true, false, not, Option, none, some, List, [], ◌∷◌, ◌++◌,
  if◌then◌else◌, get_or,
}
use vdr_plugin_mcli.Prelude.Int.{ℤ, pos}
use vdr_plugin_mcli.Mcli.Tuners.{TunerPool, FeTypes, SatLists, Limits, same_kind, tuner_free}
use vdr_plugin_mcli.Mcli.Cams.{Cams, CamPool, free_cam, cam_free}
use vdr_plugin_mcli.Filter.Filters.{McliFilters}

-- The numbers of VDR, of the DVB API and of libmcli that the code names, and the state outside of the
-- device that it reads: the satellites of the NetCeivers, the limits, and the options -- m_cam_disable
-- and the debug bit that skips the trigger of CAMs.
pub record Config : Type 0 where
  pub fe : FeTypes
  pub sat_lists : List SatLists
  pub limits : Limits
  pub cam_disable : Bool
  pub skip_trigger : Bool
  pub st_mask : ℕ
  pub st_sat : ℕ
  pub st_cable : ℕ
  pub st_terr : ℕ
  pub voltage_13 : ℕ
  pub voltage_18 : ℕ
  pub qpsk : ℕ
  pub psk_8 : ℕ
  pub qpsk_s2 : ℕ
  pub psk8 : ℕ
  pub fec_auto : ℕ
  pub scr_not_available : ℕ

-- What is read of cDvbTransponderParameters.
pub record Parameters : Type 0 where
  pub system : ℕ
  pub polarization : ℕ
  pub inversion : ℕ
  pub modulation : ℕ
  pub coderate_h : ℕ
  pub coderate_l : ℕ
  pub bandwidth : ℕ
  pub transmission : ℕ
  pub guard : ℕ
  pub hierarchy : ℕ

-- What is read of cChannel; `ca` is Ca (0).
pub record Channel : Type 0 where
  pub name : List ℕ
  pub provider : List ℕ
  pub source : ℕ
  pub ca : ℕ
  pub sid : ℕ
  pub transponder : ℕ
  pub frequency : ℤ
  pub srate : ℕ
  pub dtp : Parameters

-- What is used of tra_t; `has_lock` is s.st & FE_HAS_LOCK.
pub record Ten : Type 0 where
  pub has_lock : Bool
  pub strength : ℕ
  pub snr : ℕ
  pub lastseen : ℕ

-- What is used of dvb_pid_t.
pub record DvbPid : Type 0 where
  pub pid : ℕ
  pub id : ℕ
  pub priority : ℕ

-- dvb_frontend_parameters: all zero, or the frequency, the inversion and a member of the union.
pub data Frontend : Type 0 where
  unset : Frontend
  qpsk : (frequency inversion symbol_rate fec_inner : ℕ) → Frontend
  qam : (frequency inversion fec_inner modulation symbol_rate : ℕ) → Frontend
  ofdm :
      (frequency inversion bandwidth code_rate_hp code_rate_lp constellation transmission_mode
        guard_interval hierarchy : ℕ)
      → Frontend

-- The calls of libmcli on the receiver m_r.
pub data Call : Type 0 where
  recv_tune : Option ℕ → ℤ → (voltage : ℕ) → Frontend → List DvbPid → Call
  recv_stop : Call
  recv_pid_add : DvbPid → Call
  recv_pid_del : ℕ → Call

-- The members of cMcliDevice. A reference into a pool is an index, and `none` is NULL; in `fetype` it is
-- -1. `voltage` is that of m_sec, of which nothing else is set; `pids` are the entries of m_pids in front
-- of the PID -1; `calls` are those of libmcli so far.
pub record Device : Type 0 where
  pub enable : Bool
  pub tuned : Bool
  pub ca_enable : Bool
  pub ca_override : Bool
  pub showtuning : Bool
  pub tunerref : Option ℕ
  pub camref : Option ℕ
  pub fetype : Option ℕ
  pub pos : ℤ
  pub chan : Channel
  pub ten : Ten
  pub last : ℕ
  pub disabletimeout : ℕ
  pub pidsnum : ℕ
  pub mcpidsnum : ℕ
  pub filternum : ℤ
  pub pids : List DvbPid
  pub voltage : ℕ
  pub fep : Frontend
  pub dvr_open : Bool
  pub delivered : Bool
  pub filters : McliFilters
  pub calls : List Call

-- The pools of cPluginMcli that the devices share.
pub record Pools : Type 0 where
  pub tuners : List TunerPool
  pub cams : Cams

-- The pools and m_devs.
pub record World : Type 0 where
  pub pools : Pools
  pub devs : List Device

abbrev pub no_ten : Ten
no_ten = record { has_lock = false; strength = 0; snr = 0; lastseen = 0 }

-- A device as the constructor leaves it: the channel is VDR's default, and what nothing sets first --
-- m_pos, m_dvr_open, m_sec and m_fep -- are arguments.
abbrev pub new_device : Channel → ℤ → Bool → ℕ → Frontend → Device
new_device chan p dvr voltage fep = record {
  enable = false;
  tuned = false;
  ca_enable = false;
  ca_override = false;
  showtuning = false;
  tunerref = none;
  camref = none;
  fetype = none;
  pos = p;
  chan = chan;
  ten = no_ten;
  last = 0;
  disabletimeout = 10;
  pidsnum = 0;
  mcpidsnum = 0;
  filternum = pos 0;
  pids = [];
  voltage = voltage;
  fep = fep;
  dvr_open = dvr;
  delivered = false;
  filters = record { pb = none; pl = []; filters = [] };
  calls = [];
}

-- A call of libmcli.
abbrev pub tell : Call → Device → Device
tell call d = record d { calls = d.calls ++ call ∷ [] }

-- SetTenData
pub set_ten_data : Ten → Device → Device
set_ten_data ten d = record d {
  ten = if ten.lastseen == 0 then record ten { lastseen = d.ten.lastseen } else ten;
}

-- handle_ten, with `none` for NULL: a signal that is lost.
pub handle_ten : Option Ten → Device → Device
unfolding set_ten_data
handle_ten none d = set_ten_data no_ten d
handle_ten (some ten) d = set_ten_data ten d

-- HasLock; `later` is what m_ten says of the lock when the wait ends.
pub has_lock : ℕ → (later : Bool) → Device → Bool
has_lock timeout later d = if d.ten.has_lock then true else (if timeout == 0 then false else later)

-- SignalStrength and SignalQuality
pub signal_strength : Device → ℕ
signal_strength d = d.ten.strength * 100 / 65536

pub signal_quality : Device → ℕ
signal_quality d = d.ten.snr * 100 / 65536

-- GetCurrentlyTunedTransponder
pub get_currently_tuned_transponder : Device → Option Channel
get_currently_tuned_transponder d =
    if d.enable then (if d.tuned then some d.chan else none) else none

-- TunerFree for a reference that is not NULL.
abbrev pub give_tuner : ℕ → Pools → Pools
give_tuner i s = record s { tuners = (tuner_free i s.tuners).1 }

-- CAMFree; for NULL, with which the code would fail, nothing changes.
unfoldable pub give_cam : Option ℕ → Pools → Pools
give_cam none s = s
give_cam (some i) s = record s { cams = record s.cams { pool = (cam_free i s.cams.pool).1 } }

-- SetCaEnable, SetCaOverride and SetFEType.
pub set_ca_enable : Bool → Device → Device
set_ca_enable val d = record d { ca_enable = val }

pub set_ca_override : Bool → Device → Device
set_ca_override val d = record d { ca_override = val }

pub set_fe_type : ℕ → Device → Device
set_fe_type val d = record d { fetype = some val }
