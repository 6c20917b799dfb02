-- ===== src/Mcli/Tests.antt =====
-- Runs of the pools and of the start of cPluginMcli (mcli.c) on small inputs.
use mathlib.Core.List.{reverse}
use vdr_plugin_mcli.Prelude.{
  List, if◌then◌else◌, ℕ, ◌+◌, ◌<◌, ◌≡◌, refl, ◌⊎◌, Bool, true, false, none, some, [], ◌∷◌, All,
  Option, replicate, find_index, same_text, get_or, set, min, leb, ◌&&◌, ◌*◌, ◌-◌, ◌++◌, map, ◌≤◌,
}
use vdr_plugin_mcli.Prelude.Int.{pos}
use vdr_plugin_mcli.Mcli.Cams.{
  CamPool, CamInfo, Cams, ca_single, ca_multi_transponder, free_cam, cam_available, cam_alloc,
  cam_find_by_uuid, cam_pool_find_free, refresh_cam, cam_pool_add,
}
use vdr_plugin_mcli.Mcli.Cams.Alloc.{Serves, cam_alloc_lem}
use vdr_plugin_mcli.Mcli.Cams.Known.{Keyed, first-Keyed, cam_pool_add-Keyed}
use vdr_plugin_mcli.Mcli.Tuners.{
  TunerPool, TunerInfo, FeTypes, Limits, free_tuner, is_usable, at_limit, tuner_count_by_type,
  tuner_alloc, tuner_count,
}
use vdr_plugin_mcli.Mcli.Tuners.Alloc.{Usable, tuner_alloc_lem}
use vdr_plugin_mcli.Mcli.Tuners.Count.{of_kind, capacity, sum_below, tuner_count-min}
use vdr_plugin_mcli.Mcli.Scan.{Round}
use vdr_plugin_mcli.Mcli.Args.{
  Arg, tuners_arg, cam_disable_arg, ArgSizes, Options, set_limit, process_arg, process_args,
}
use vdr_plugin_mcli.Mcli.Start.{Part, pre_init_mcli, post_exit_mcli}
use vdr_plugin_mcli.Mcli.Start.Ready.{stopped, post_exit-pre_init}
use vdr_plugin_mcli.Mcli.Service.{MenuNetceiver, gettc}
use vdr_plugin_mcli.Mcli.Service.Conf.{starts, strstr, name_of, quote, unlimited, read_conf}
use vdr_plugin_mcli.Mcli.Service.Conf.Written.{
  DvbType, dvb_c, dvb_s, Entry, value_entry, empty_entry, other_entry, kind_of, line_of, number_of,
}
use vdr_plugin_mcli.Mcli.Service.Conf.Last.{last_value, read_conf-last}
use vdr_plugin_mcli.Mcli.Service.Bounds.{above_0, gettc-sum}

-- A CAM that decrypts two services, one of which is in use.
abbrev cam : CamPool
cam = record {
  uuid = 97 ∷ [];
  slot = 1;
  use_count = 1;
  max = some 2;
  status = 2;
  trigger = false;
  trigger_sid = 0;
}

abbrev cam_info : CamInfo
cam_info = record { slot = 0; status = 2; flags = ca_single; max_sids = 1 }

-- The pool with this CAM, and nine free entries.
abbrev cams : List CamPool
cams = cam ∷ replicate 9 free_cam

cam_alloc_lem_example :
    let uuid : Option (List ℕ) = some (97 ∷ []) in
    ((cam_alloc uuid (some 1) cams ≡ (none, cams)) × All (λ cp. ¬ Serves uuid (some 1) cp) cams)
    ⊎ ((i : ℕ) × (i < 10)
        × Serves uuid (some 1) (get_or cams i free_cam)
        × (cam_alloc uuid (some 1) cams ≡ (
          some i,
          set cams i (record (get_or cams i free_cam) {
            use_count = (get_or cams i free_cam).use_count + 1;
          }),
        )))
cam_alloc_lem_example = cam_alloc_lem (some (97 ∷ [])) (some 1) cams

-- The CAM is taken for its UUID, and not for another one.
takes_first : (cam_alloc (some (97 ∷ [])) (some 1) cams).0 ≡ some 0
unfolding cam_alloc cam_available find_index same_text
takes_first = refl

other_uuid : (cam_alloc (some (98 ∷ [])) (some 1) cams).0 ≡ none
unfolding cam_alloc cam_available find_index same_text
other_uuid = refl

-- The CAM of slot 1 is known; that of slot 0 is new.
abbrev announced : List CamInfo
announced = record cam_info { slot = 1; flags = ca_multi_transponder; max_sids = 3 } ∷ cam_info ∷ []

abbrev known : Cams
known = record { pool = cams; cam_present = true }

cam_pool_add-Keyed_example : Keyed (cam_pool_add false (97 ∷ []) announced 0 known).1.pool
cam_pool_add-Keyed_example =
    cam_pool_add-Keyed false (97 ∷ []) announced 0 known (first-Keyed cam 9)

-- The known entry is refreshed, and the CAM that is new takes the next one.
adds :
    map (λ (cp : CamPool). cp.max) (cam_pool_add false (97 ∷ []) announced 0 known).1.pool
    ≡ some 3 ∷ some 1 ∷ replicate 8 none
unfolding cam_pool_add cam_find_by_uuid cam_pool_find_free find_index refresh_cam same_text
adds = refl

abbrev fe : FeTypes
fe = record { qpsk = 0; qam = 1; ofdm = 2; dvbs2 = 4; no_sat_pos = pos 4095 }

abbrev cable : TunerPool
cable = record { kind = some 1; uuid = 97 ∷ []; sat_list_name = []; inuse = false }

abbrev limits : Limits
limits k = pos 8

tuner_alloc_lem_example :
    ((tuner_alloc fe [] limits (some 1) (pos 0) (cable ∷ []) ≡ (none, cable ∷ []))
      × ((limits (some 1) ≡ pos (tuner_count_by_type (some 1) (cable ∷ [])))
          ⊎ All (λ tp. is_usable fe [] (some 1) (pos 0) tp ≡ false) (cable ∷ [])))
    ⊎ ((i : ℕ) × (i < 1)
        × (at_limit (tuner_count_by_type (some 1) (cable ∷ [])) (limits (some 1)) ≡ false)
        × Usable fe [] (some 1) (pos 0) (get_or (cable ∷ []) i free_tuner)
        × (tuner_alloc fe [] limits (some 1) (pos 0) (cable ∷ []) ≡ (
          some i,
          set (cable ∷ []) i (record (get_or (cable ∷ []) i free_tuner) { inuse = true }),
        ))
        × (tuner_count_by_type (some 1) (tuner_alloc fe [] limits (some 1) (pos 0) (cable ∷ [])).1
            ≡ tuner_count_by_type (some 1) (cable ∷ []) + 1))
tuner_alloc_lem_example = tuner_alloc_lem fe [] limits (some 1) (pos 0) (cable ∷ [])

tuner_count-min_example :
    tuner_count fe limits (cable ∷ [])
    ≡ sum_below (λ t. min (of_kind t (cable ∷ [])) (capacity (limits (some t)))) (4 + 1)
tuner_count-min_example = tuner_count-min fe limits (cable ∷ [])

abbrev info : TunerInfo
info = record { kind = 1; uuid = 98 ∷ []; sat_list_name = []; preference = pos 0 }

abbrev before : Round
before = record {
  cams = record { pool = []; cam_present = false };
  tuners = free_tuner ∷ [];
  changed = false;
  added = false;
}

-- Every call succeeds.
abbrev answers : Part → Bool
answers part = true

post_exit-pre_init_example :
    ((post_exit_mcli (pre_init_mcli [] [] answers (stopped true)).inits).0
      ≡ reverse (pre_init_mcli [] [] answers (stopped true)).parts)
    × ((post_exit_mcli (pre_init_mcli [] [] answers (stopped true)).inits).1 ≡ stopped true)
post_exit-pre_init_example = post_exit-pre_init [] [] answers true

-- A command line: --dvb-c 2 --cam-disable --dvb-s 3 --dvb-c 1.
abbrev args : List Arg
args = tuners_arg 1 2 ∷ cam_disable_arg ∷ tuners_arg 0 3 ∷ tuners_arg 1 1 ∷ []

abbrev arg_sizes : ArgSizes
arg_sizes = record {
  ifnamsiz = 16;
  path_max = 256;
  debug_pids = 1;
  netcv_debug_pids = 2;
  debug_no_ratelimit = 4;
  netcv_debug_no_ratelimit = 8;
  logskip_data = 1;
  netcv_logskip_data = 1;
}

abbrev options : Options
options = record {
  port = pos 23000;
  iface = [];
  tuner_type_limit = 8 ∷ 8 ∷ 8 ∷ 8 ∷ 8 ∷ [];
  tuners = 0;
  mld_start = true;
  cmd_sock_path = [];
  tuner_max = pos 8;
  debugmask = 0;
  netcv_debugmask = 0;
  cam_disable = false;
  logskipmask = 0;
  netcv_logskipmask = 0;
  use_lftp = false;
  enable_debug = false;
}

-- The limit of each type behind this command line.
args_limits : (process_args arg_sizes args options).tuner_type_limit ≡ 3 ∷ 1 ∷ 0 ∷ 0 ∷ 0 ∷ []
unfolding process_args process_arg set_limit
args_limits = refl

-- The number at the start of a text.
abbrev read_digits : List ℕ → ℕ → ℕ
read_digits [] n = n
read_digits (x ∷ text) n =
    let rest = read_digits text (n * 10 + (x - 48)) in if leb 48 x && leb x 57 then rest else n

-- A file with the lines DVB_C_DEVICES="2", #, DVB_S_DEVICES="" and DVB_C_DEVICES="4".
abbrev entries : List Entry
entries =
    value_entry dvb_c (50 ∷ [])
    ∷ other_entry (35 ∷ [])
    ∷ empty_entry dvb_s
    ∷ value_entry dvb_c (52 ∷ [])
    ∷ []

comment-plain : (t : DvbType) → strstr (name_of (kind_of t) ++ quote ∷ []) (35 ∷ []) ≡ false
unfolding strstr starts
comment-plain t = refl

read_conf-last_example :
    number_of dvb_c (read_conf (λ text. pos (read_digits text 0)) (some (map line_of entries)))
    ≡ last_value (λ text. pos (read_digits text 0)) dvb_c entries (pos 9999)
read_conf-last_example =
    read_conf-last (λ text. pos (read_digits text 0)) dvb_c entries
      ((refl, (refl, tt)), (comment-plain, (tt, ((refl, (refl, tt)), tt))))

last_is_4 : last_value (λ text. pos (read_digits text 0)) dvb_c entries (pos 9999) ≡ pos 4
last_is_4 = refl

abbrev menu_netceiver : MenuNetceiver
menu_netceiver = record {
  lastseen = 5;
  tuners = record { name = 97 ∷ []; kind = 1; preference = pos 0 } ∷ [];
}

abbrev fe_types : FeTypes
fe_types = record { qpsk = 0; qam = 1; ofdm = 2; dvbs2 = 4; no_sat_pos = pos 4095 }

gettc-sum_example :
    let n = gettc fe_types unlimited 10 (menu_netceiver ∷ []) in
    above_0 n.sat + above_0 n.sat_s2 + above_0 n.cable + above_0 n.terr ≤ 16
gettc-sum_example =
    gettc-sum fe_types unlimited 10 (menu_netceiver ∷ []) (refl, refl, refl, refl, refl, refl)
