-- ===== src/Mcli/Tuners.antt =====
-- The pool of tuners of cPluginMcli in mcli.c. The lock that the callers hold is left out; a pointer
-- into the pool is an index. The numbers of the tuner types and of NO_SAT_POS belong to other headers
-- and are arguments.
pub mod Alloc
pub mod Count
pub mod Inuse
use vdr_plugin_mcli.Prelude.{
  ℕ, zero, suc, ◌+◌, ◌-◌, Bool, true, false, not, ◌&&◌, ◌||◌, Option, none, some, List, [], ◌∷◌,
  map, ltb, leb, ◌==◌, if◌then◌else◌, replicate, length, get_or, set, take, find_index, same_text,
}
use vdr_plugin_mcli.Prelude.Int.{ℤ, pos, negsuc, eq_ℤ, leb_ℤ}

-- tuner_pool_t. `kind` is the member `type`, and `none` for -1, which marks a free entry; the empty
-- text stands for a SatListName that is not set.
pub record TunerPool : Type 0 where
  pub kind : Option ℕ
  pub uuid : List ℕ
  pub sat_list_name : List ℕ
  pub inuse : Bool

-- What is read of tuner_info_t.
pub record TunerInfo : Type 0 where
  pub kind : ℕ
  pub uuid : List ℕ
  pub sat_list_name : List ℕ
  pub preference : ℤ

-- FE_QPSK, FE_QAM, FE_OFDM, FE_DVBS2 and NO_SAT_POS.
pub record FeTypes : Type 0 where
  pub qpsk : ℕ
  pub qam : ℕ
  pub ofdm : ℕ
  pub dvbs2 : ℕ
  pub no_sat_pos : ℤ

-- The kinds of satellite_info_t that the switch tells apart.
pub data SatSource : Type 0 where
  fixed_dish : SatSource
  rotor : SatSource
  other_source : SatSource

-- What is read of satellite_info_t.
pub record SatelliteInfo : Type 0 where
  pub source : SatSource
  pub sat_pos : ℤ
  pub sat_pos_min : ℤ
  pub sat_pos_max : ℤ

pub record SatelliteList : Type 0 where
  pub name : List ℕ
  pub sats : List SatelliteInfo

-- What the pools read of netceiver_info_t for a tuner.
pub record SatLists : Type 0 where
  pub uuid : List ℕ
  pub lists : List SatelliteList

abbrev pub free_tuner : TunerPool
free_tuner = record { kind = none; uuid = []; sat_list_name = []; inuse = false }

-- m_tuner_pool, of TUNER_POOL_MAX entries, as the constructor leaves it.
abbrev pub new_tuners : List TunerPool
new_tuners = replicate 32 free_tuner

-- tp->type == type, where `none` is -1 on both sides.
abbrev pub same_kind : Option ℕ → Option ℕ → Bool
same_kind none none = true
same_kind (some k) (some t) = t == k
same_kind none (some t) = false
same_kind (some k) none = false

abbrev pub is_kind : Option ℕ → TunerPool → Bool
is_kind k tp = same_kind k tp.kind

-- TunerFindSatList
pub tuner_find_sat_list : List SatelliteList → List ℕ → Option SatelliteList
tuner_find_sat_list [] name = none
tuner_find_sat_list (l ∷ ls) name =
    if same_text name l.name then some l else tuner_find_sat_list ls name

-- The switch of SatelitePositionLookup.
abbrev pub reaches : ℤ → SatelliteInfo → Bool
reaches p s = elim s.source [
  | fixed_dish ↦ eq_ℤ p s.sat_pos
  | rotor ↦ leb_ℤ s.sat_pos_min p && leb_ℤ p s.sat_pos_max
  | other_source ↦ false
]

-- SatelitePositionLookup for a list that is not NULL.
pub satelite_position_lookup : List SatelliteInfo → ℤ → Bool
satelite_position_lookup [] p = false
satelite_position_lookup (s ∷ ss) p = reaches p s || satelite_position_lookup ss p

-- strncmp (a, b, l) == 0, where a text ends with its list.
abbrev pub same_start : ℕ → List ℕ → List ℕ → Bool
same_start l a b = same_text (take l a) (take l b)

-- strncmp with strlen (tp->uuid) - 5, where a negative length stands for a length without bound.
abbrev pub same_netceiver : List ℕ → List ℕ → Bool
same_netceiver a b = if ltb (length b) 5 then same_text a b else same_start (length b - 5) a b

-- The loop of TunerSatelitePositionLookup over the NetCeivers.
pub find_sat_list : List SatLists → TunerPool → Option SatelliteList
unfolding tuner_find_sat_list
find_sat_list [] tp = none
find_sat_list (n ∷ ns) tp =
    if same_netceiver n.uuid tp.uuid
    then elim (tuner_find_sat_list n.lists tp.sat_list_name) [
      | some l ↦ some l
      | none ↦ find_sat_list ns tp
    ]
    else find_sat_list ns tp

-- TunerSatelitePositionLookup
unfoldable pub tuner_satelite_position_lookup : FeTypes → List SatLists → ℤ → TunerPool → Bool
unfolding find_sat_list satelite_position_lookup
tuner_satelite_position_lookup fe ns p tp =
    if not (is_kind (some fe.qpsk) tp) && not (is_kind (some fe.dvbs2) tp)
    then true
    else (if eq_ℤ p fe.no_sat_pos then true else elim (find_sat_list ns tp) [
      | none ↦ false
      | some l ↦ satelite_position_lookup l.sats p
    ])

-- tp->type != -1
abbrev pub is_taken : TunerPool → Bool
is_taken tp = elim tp.kind [ none ↦ false | some t ↦ true ]

-- TunerFindByUUID
unfoldable pub tuner_find_by_uuid : List ℕ → List TunerPool → Option ℕ
tuner_find_by_uuid uuid pool = find_index (λ tp. is_taken tp && same_text tp.uuid uuid) pool

-- TunerCountByType
unfoldable pub tuner_count_by_type : Option ℕ → List TunerPool → ℕ
tuner_count_by_type k [] = 0
tuner_count_by_type k (tp ∷ pool) =
    (if tp.inuse && is_kind k tp then 1 else 0) + tuner_count_by_type k pool

-- TunerPoolAdd
unfoldable pub tuner_pool_add : TunerInfo → List TunerPool → Bool × List TunerPool
tuner_pool_add t pool = elim (find_index (λ tp. not (is_taken tp)) pool) [
  | none ↦ (false, pool)
  | some i ↦ (
    true,
    set pool i (record (get_or pool i free_tuner) {
      kind = some t.kind;
      uuid = t.uuid;
      sat_list_name = t.sat_list_name;
    }),
  )
]

-- TunerPoolDel
pub tuner_pool_del : ℕ → List TunerPool → Bool × List TunerPool
tuner_pool_del i pool =
    let tp = get_or pool i free_tuner in
    if is_taken tp then (true, set pool i (record tp { kind = none })) else (false, pool)

-- m_cmd.tuner_type_limit, where a limit may be negative; at `none` it is what lies outside
-- of the array, where the code reads for the type -1.
abbrev pub Limits : Type 0
Limits = Option ℕ → ℤ

-- count == limit
abbrev pub at_limit : ℕ → ℤ → Bool
at_limit n limit = eq_ℤ (pos n) limit

-- The tests of the loop of TunerAvailable.
abbrev pub is_usable : FeTypes → List SatLists → Option ℕ → ℤ → TunerPool → Bool
is_usable fe ns k p tp = not tp.inuse && is_kind k tp && tuner_satelite_position_lookup fe ns p tp

-- TunerAvailable
unfoldable pub tuner_available :
    FeTypes → List SatLists → Limits → Option ℕ → ℤ → List TunerPool → Option ℕ
unfolding tuner_count_by_type
tuner_available fe ns limits k p pool =
    if at_limit (tuner_count_by_type k pool) (limits k)
    then none
    else find_index (is_usable fe ns k p) pool

-- TunerAlloc
unfoldable pub tuner_alloc :
    FeTypes → List SatLists → Limits → Option ℕ → ℤ → List TunerPool → Option ℕ × List TunerPool
unfolding tuner_available
tuner_alloc fe ns limits k p pool = elim (tuner_available fe ns limits k p pool) [
  | none ↦ (none, pool)
  | some i ↦ (some i, set pool i (record (get_or pool i free_tuner) { inuse = true }))
]

-- TunerFree
pub tuner_free : ℕ → List TunerPool → Bool × List TunerPool
tuner_free i pool =
    let tp = get_or pool i free_tuner in
    if tp.inuse then (true, set pool i (record tp { inuse = false })) else (false, pool)

-- tct[tp->type] < limit
abbrev pub below : ℕ → ℤ → Bool
below n (pos limit) = ltb n limit
below n (negsuc limit) = false

-- tct[k] of TunerCount after the loop, from `n` on; each entry of tct is counted on its own.
pub count_kind : Limits → ℕ → List TunerPool → ℕ → ℕ
count_kind limits k [] n = n
count_kind limits k (tp ∷ pool) n =
    count_kind limits k pool (if is_kind (some k) tp && below n (limits (some k)) then n + 1 else n)

-- The sum of tct[0] to tct[k - 1].
pub sum_kinds : Limits → ℕ → List TunerPool → ℕ
unfolding count_kind
sum_kinds limits zero pool = 0
sum_kinds limits (suc k) pool = sum_kinds limits k pool + count_kind limits k pool 0

-- TunerCount, with MAX_TUNER_TYPE_COUNT.
pub tuner_count : FeTypes → Limits → List TunerPool → ℕ
unfolding sum_kinds
tuner_count fe limits pool = sum_kinds limits (fe.dvbs2 + 1) pool
