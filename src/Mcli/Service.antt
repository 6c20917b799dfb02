-- ===== src/Mcli/Service.antt =====
-- The service "GetTunerInfo" of mcli.c, and the numbers of tuners in the answer to the command GETTC.
pub mod Conf
pub mod Bounds
use vdr_plugin_mcli.Prelude.{ℕ, ◌+◌, ◌==◌, List, [], ◌∷◌, ◌++◌, ltb, if◌then◌else◌, take}
use vdr_plugin_mcli.Prelude.Int.{ℤ, pos, negsuc, eq_ℤ, leb_ℤ}
use vdr_plugin_mcli.Mcli.Tuners.{FeTypes}

-- An entry of mclituner_info_t: the name, the type and the preference of a tuner.
pub record MenuTuner : Type 0 where
  pub name : List ℕ
  pub kind : ℕ
  pub preference : ℤ

-- What the service reads of a netceiver_info_t.
pub record MenuNetceiver : Type 0 where
  pub lastseen : ℕ
  pub tuners : List MenuTuner

-- The tuners of the NetCeivers that were seen in the last MCLI_DEVICE_TIMEOUT seconds.
unfoldable pub all_tuners : (now : ℕ) → List MenuNetceiver → List MenuTuner
all_tuners now [] = []
all_tuners now (n ∷ ns) =
    if ltb (n.lastseen + 120) now then all_tuners now ns else n.tuners ++ all_tuners now ns

-- "GetTunerInfo": the first MAX_TUNERS_IN_MENU of them.
unfoldable pub get_tuner_info : (now : ℕ) → List MenuNetceiver → List MenuTuner
unfolding all_tuners
get_tuner_info now ns = take 16 (all_tuners now ns)

-- The entries in front of the first one without a name or with the preference -1.
unfoldable pub listed : List MenuTuner → List MenuTuner
listed [] = []
listed (t ∷ ts) =
    if eq_ℤ t.preference (negsuc 0) then [] else elim t.name [ [] ↦ [] | x ∷ xs ↦ t ∷ listed ts ]

-- How many are of a type.
unfoldable pub count_type : ℕ → List MenuTuner → ℕ
count_type k [] = 0
count_type k (t ∷ ts) = (if t.kind == k then 1 else 0) + count_type k ts

-- nrTuners_t
pub record NrTuners : Type 0 where
  pub sat : ℤ
  pub sat_s2 : ℤ
  pub cable : ℤ
  pub terr : ℤ

-- if (conf > phys) conf = phys;
abbrev pub capped : ℤ → ℕ → ℤ
capped conf phys = if leb_ℤ conf (pos phys) then conf else pos phys

-- The numbers in the answer to GETTC: those of the configuration file, capped at the numbers of tuners
-- that are listed.
unfoldable pub gettc : FeTypes → NrTuners → (now : ℕ) → List MenuNetceiver → NrTuners
unfolding get_tuner_info listed count_type
gettc fe conf now ns =
    let ts = listed (get_tuner_info now ns) in
    record {
      sat = capped conf.sat (count_type fe.qpsk ts);
      sat_s2 = capped conf.sat_s2 (count_type fe.dvbs2 ts);
      cable = capped conf.cable (count_type fe.qam ts);
      terr = capped conf.terr (count_type fe.ofdm ts);
    }
