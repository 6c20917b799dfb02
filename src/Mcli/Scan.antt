-- ===== src/Mcli/Scan.antt =====
-- The round of cPluginMcli::Action in mcli.c in which the pools follow the list of NetCeivers.
pub mod Follow
pub mod Kept
use vdr_plugin_mcli.Prelude.{
  ℕ, ◌+◌, Bool, true, false, not, ◌&&◌, ◌||◌, Option, none, some, List, [], ◌∷◌, ltb, ◌==◌,
  if◌then◌else◌, length,
}
use vdr_plugin_mcli.Prelude.Int.{ℤ, pos, negsuc}
use vdr_plugin_mcli.Mcli.Cams.{CamInfo, Cams, cam_pool_add, cam_pool_del}
use vdr_plugin_mcli.Mcli.Tuners.{
  TunerInfo, TunerPool, tuner_find_by_uuid, tuner_pool_add, tuner_pool_del,
}

-- What the round reads of netceiver_info_t.
pub record NetceiverInfo : Type 0 where
  pub uuid : List ℕ
  pub lastseen : ℕ
  pub cams : List CamInfo
  pub tuners : List TunerInfo

-- The pools, netCVChanged and tpa.
pub record Round : Type 0 where
  pub cams : Cams
  pub tuners : List TunerPool
  pub changed : Bool
  pub added : Bool

-- now - lastseen > MCLI_DEVICE_TIMEOUT
abbrev pub overdue : ℕ → ℕ → Bool
overdue now lastseen = ltb (lastseen + 120) now

abbrev pub negative : ℤ → Bool
negative (pos n) = false
negative (negsuc n) = true

-- The tuner is to leave the pool.
abbrev pub unwanted : Bool → TunerInfo → Bool
unwanted late t = late || negative t.preference || length t.uuid == 0

-- The body of the loop over the tuners of a NetCeiver, which is overdue or not.
pub scan_tuner : Bool → TunerInfo → Round → Round
scan_tuner late t s =
    let found = tuner_find_by_uuid t.uuid s.tuners in
    if unwanted late t
    then elim found [
      | none ↦ s
      | some i ↦ record s { tuners = (tuner_pool_del i s.tuners).1; changed = true }
    ]
    else elim found [
      | some i ↦ s
      | none ↦
          let (ok, pool) = tuner_pool_add t s.tuners in
          record s { tuners = pool; changed = true; added = ok }
    ]

pub scan_tuners : Bool → List TunerInfo → Round → Round
unfolding scan_tuner
scan_tuners late [] s = s
scan_tuners late (t ∷ ts) s = scan_tuners late ts (scan_tuner late t s)

-- The CAMs of a NetCeiver; `skip` is that of CAMPoolAdd.
pub scan_cams : Bool → Bool → NetceiverInfo → Round → Round
scan_cams skip late n s =
    if late
    then (let (gone, pool) = cam_pool_del n.uuid s.cams.pool in
        record s { cams = record s.cams { pool = pool }; changed = s.changed || gone })
    else (let (ret, cams) = cam_pool_add skip n.uuid n.cams 0 s.cams in
        record s { cams = cams; changed = s.changed || ret == 1 })

-- The loop over the NetCeivers.
unfoldable pub scan : Bool → ℕ → List NetceiverInfo → Round → Round
unfolding scan_tuners scan_cams
scan skip now [] s = s
scan skip now (n ∷ ns) s =
    let late = overdue now n.lastseen in
    scan skip now ns (scan_tuners late n.tuners (scan_cams skip late n s))
