-- ===== src/Mcli/Args.antt =====
-- The command line: ProcessArgs of mcli.c. What getopt_long_only, atoi and sscanf make of the arguments
-- is a list of options with their values.
pub mod Given
use vdr_plugin_mcli.Prelude.{
  ℕ, ◌+◌, ◌-◌, Bool, true, false, Option, none, some, List, [], ◌∷◌, if◌then◌else◌, take, set,
  replicate, length, bit_and, bit_or, ◌==◌,
}
use vdr_plugin_mcli.Prelude.Int.{ℤ}

-- The options; a mask is `none` where sscanf reads no number, and `other_arg` is one that getopt does
-- not know. The tuners of --dvb-s, --dvb-c, --dvb-t, --atsc and --dvb-s2 have the numbers 0 to 4.
pub data Arg : Type 0 where
  port_arg : ℤ → Arg
  iface_arg : List ℕ → Arg
  tuners_arg : ℕ → ℕ → Arg
  mld_arg : Arg
  sock_path_arg : List ℕ → Arg
  tuner_max_arg : ℤ → Arg
  debugmask_arg : Option ℕ → Arg
  cam_disable_arg : Arg
  logskipmask_arg : Option ℕ → Arg
  lftp_arg : Arg
  debug_arg : Arg
  other_arg : Arg

-- What ProcessArgs sets: members of m_cmd and of cPluginMcli, the masks and flags of the plugin, those
-- of libmcli, and its counter `tuners`.
pub record Options : Type 0 where
  pub port : ℤ
  pub iface : List ℕ
  pub tuner_type_limit : List ℕ
  pub tuners : ℕ
  pub mld_start : Bool
  pub cmd_sock_path : List ℕ
  pub tuner_max : ℤ
  pub debugmask : ℕ
  pub netcv_debugmask : ℕ
  pub cam_disable : Bool
  pub logskipmask : ℕ
  pub netcv_logskipmask : ℕ
  pub use_lftp : Bool
  pub enable_debug : Bool

-- IFNAMSIZ, _POSIX_PATH_MAX, and the bits of the masks with those of libmcli that they set.
pub record ArgSizes : Type 0 where
  pub ifnamsiz : ℕ
  pub path_max : ℕ
  pub debug_pids : ℕ
  pub netcv_debug_pids : ℕ
  pub debug_no_ratelimit : ℕ
  pub netcv_debug_no_ratelimit : ℕ
  pub logskip_data : ℕ
  pub netcv_logskip_data : ℕ

-- if (mask & bit) netcv |= netcv_bit;
abbrev pub pass_bit : (mask bit netcv_bit netcv : ℕ) → ℕ
pass_bit mask bit netcv_bit netcv = if bit_and mask bit == 0 then netcv else bit_or netcv netcv_bit

-- The limits of tuners: the first option of this kind clears the others.
unfoldable pub set_limit : ℕ → ℕ → Options → Options
set_limit k n o =
    let limits =
      if o.tuners == 0 then replicate (length o.tuner_type_limit) 0 else o.tuner_type_limit in
    record o { tuner_type_limit = set limits k n; tuners = o.tuners + n }

-- A mask that is read or kept.
abbrev pub new_mask : Option ℕ → ℕ → ℕ
new_mask none old = old
new_mask (some m) old = m

-- The case of an option; numbers of tuners are not negative.
unfoldable pub process_arg : ArgSizes → Arg → Options → Options
unfolding set_limit
process_arg z (port_arg n) o = record o { port = n }
process_arg z (iface_arg name) o = record o { iface = take (z.ifnamsiz - 1) name }
process_arg z (tuners_arg k n) o = set_limit k n o
process_arg z mld_arg o = record o { mld_start = false }
process_arg z (sock_path_arg path) o = record o { cmd_sock_path = take (z.path_max - 1) path }
process_arg z (tuner_max_arg n) o = record o { tuner_max = n }
process_arg z (debugmask_arg m) o =
    let mask = new_mask m o.debugmask in
    record o {
      debugmask = mask;
      netcv_debugmask =
          pass_bit mask z.debug_no_ratelimit z.netcv_debug_no_ratelimit
            (pass_bit mask z.debug_pids z.netcv_debug_pids o.netcv_debugmask);
    }
process_arg z cam_disable_arg o = record o { cam_disable = true }
process_arg z (logskipmask_arg m) o =
    let mask = new_mask m o.logskipmask in
    record o {
      logskipmask = mask;
      netcv_logskipmask = pass_bit mask z.logskip_data z.netcv_logskip_data o.netcv_logskipmask;
    }
process_arg z lftp_arg o = record o { use_lftp = true }
process_arg z debug_arg o = record o { enable_debug = true }
process_arg z other_arg o = o

-- ProcessArgs
unfoldable pub process_args : ArgSizes → List Arg → Options → Options
unfolding process_arg
process_args z [] o = o
process_args z (a ∷ args) o = process_args z args (process_arg z a o)
