-- ===== src/Mcli/Cams.antt =====
-- The pool of CAMs of cPluginMcli in mcli.c. The lock that the callers hold is left out; a pointer into
-- the pool is an index.
pub mod Alloc
pub mod Known
pub mod Uses
pub mod Kept
pub mod Room
use vdr_plugin_mcli.Prelude.{
  ℕ, ◌+◌, ◌-◌, Bool, true, false, not, ◌&&◌, ◌||◌, Option, none, some, List, [], ◌∷◌, map, ltb,
  ◌==◌, if◌then◌else◌, replicate, get_or, set, find_index, same_text,
}

-- cam_pool_t. `max` is `none` for -1, which marks a free entry; the slots of CAMs are not negative.
pub record CamPool : Type 0 where
  pub uuid : List ℕ
  pub slot : ℕ
  pub use_count : ℕ
  pub max : Option ℕ
  pub status : ℕ
  pub trigger : Bool
  pub trigger_sid : ℕ

-- The kinds of CAM that the switch on `flags` tells apart.
pub data CamFlags : Type 0 where
  ca_single : CamFlags
  ca_multi_sid : CamFlags
  ca_multi_transponder : CamFlags
  ca_other : CamFlags

-- What is read of an entry of nci->cam.
pub record CamInfo : Type 0 where
  pub slot : ℕ
  pub status : ℕ
  pub flags : CamFlags
  pub max_sids : ℕ

-- m_cam_pool and m_cam_present.
pub record Cams : Type 0 where
  pub pool : List CamPool
  pub cam_present : Bool

-- An entry as the constructor of cPluginMcli leaves it.
abbrev pub free_cam : CamPool
free_cam = record {
  uuid = [];
  slot = 0;
  use_count = 0;
  max = none;
  status = 0;
  trigger = false;
  trigger_sid = 0;
}

-- m_cam_pool, of CAM_POOL_MAX entries, as the constructor leaves it.
abbrev pub new_pool : List CamPool
new_pool = replicate 10 free_cam

-- cp->max >= 0
abbrev pub is_known : Option ℕ → Bool
is_known none = false
is_known (some n) = true

-- slot == -1 || slot == cp->slot, where `none` is -1.
abbrev pub slot_fits : Option ℕ → ℕ → Bool
slot_fits none s = true
slot_fits (some t) s = t == s

-- The test of CAMFindByUUID.
abbrev pub is_cam : List ℕ → Option ℕ → CamPool → Bool
is_cam uuid slot cp = is_known cp.max && same_text cp.uuid uuid && slot_fits slot cp.slot

-- CAMFindByUUID
unfoldable pub cam_find_by_uuid : List ℕ → Option ℕ → List CamPool → Option ℕ
cam_find_by_uuid uuid slot pool = find_index (is_cam uuid slot) pool

-- CAMPoolFindFree
unfoldable pub cam_pool_find_free : List CamPool → Option ℕ
cam_pool_find_free pool = find_index (λ cp. not (is_known cp.max)) pool

-- cp->max after the switch of CAMPoolAdd.
abbrev pub flags_max : CamFlags → ℕ → Option ℕ → Option ℕ
flags_max ca_single sids old = some 1
flags_max ca_multi_sid sids old = some 1
flags_max ca_multi_transponder sids old = some sids
flags_max ca_other sids old = old

abbrev pub new_max : CamInfo → Option ℕ → Option ℕ
new_max c old = if c.status == 0 then some 0 else flags_max c.flags c.max_sids old

-- m_cam_present after the switch.
abbrev pub finds_cam : CamFlags → Bool
finds_cam ca_other = false
finds_cam f = true

-- cp->max != old_max
abbrev pub max_changed : Option ℕ → Option ℕ → Bool
max_changed none none = false
max_changed (some m) (some n) = not (m == n)
max_changed none (some n) = true
max_changed (some m) none = true

-- cp->max in a condition: -1 and the positive numbers hold.
abbrev pub max_holds : Option ℕ → Bool
max_holds none = true
max_holds (some n) = not (n == 0)

-- The entry after a round of CAMPoolAdd; `skip` is m_cam_disable or the debug bit that skips the trigger.
unfoldable pub refresh_cam : Bool → List ℕ → CamInfo → Bool → CamPool → CamPool
refresh_cam skip uuid c update cp =
    let max' = new_max c cp.max in
    let changed = max_changed max' cp.max in
    record cp {
      max = max';
      trigger = if changed then max_holds max' && not skip else cp.trigger;
      trigger_sid = if changed then 0 else cp.trigger_sid;
      status = c.status;
      slot = if update then cp.slot else c.slot;
      uuid = if update then cp.uuid else uuid;
      use_count = if update then cp.use_count else 0;
    }

abbrev pub put_cam : Bool → List ℕ → CamInfo → Bool → ℕ → Cams → Cams
put_cam skip uuid c update i s = record s {
  pool = set s.pool i (refresh_cam skip uuid c update (get_or s.pool i free_cam));
  cam_present = s.cam_present || not (c.status == 0) && finds_cam c.flags;
}

-- CAMPoolAdd from a CAM of the list on, with `ret` so far.
unfoldable pub cam_pool_add : Bool → List ℕ → List CamInfo → ℕ → Cams → ℕ × Cams
unfolding cam_find_by_uuid cam_pool_find_free refresh_cam
cam_pool_add skip uuid [] ret s = (ret, s)
cam_pool_add skip uuid (c ∷ cs) ret s = elim (cam_find_by_uuid uuid (some c.slot) s.pool) [
  | some i ↦ cam_pool_add skip uuid cs 2 (put_cam skip uuid c true i s)
  | none ↦
      let ret' = if ret == 0 then 1 else ret in
      elim (cam_pool_find_free s.pool) [
        | none ↦ (ret', s)
        | some i ↦ cam_pool_add skip uuid cs ret' (put_cam skip uuid c false i s)
      ]
]

-- The test and the body of the loop of CAMPoolDel.
abbrev pub is_of : List ℕ → CamPool → Bool
is_of uuid cp = is_known cp.max && same_text cp.uuid uuid

abbrev pub any_of : List ℕ → List CamPool → Bool
any_of uuid [] = false
any_of uuid (cp ∷ pool) = is_of uuid cp || any_of uuid pool

-- CAMPoolDel
pub cam_pool_del : List ℕ → List CamPool → Bool × List CamPool
cam_pool_del uuid pool =
    (any_of uuid pool, map (λ cp. if is_of uuid cp then record cp { max = none } else cp) pool)

-- cp->max > 0 && (cp->max - cp->use) > 0
abbrev pub has_room : CamPool → Bool
has_room cp = elim cp.max [ none ↦ false | some n ↦ ltb 0 n && ltb cp.use_count n ]

-- !uuid || !strcmp (cp->uuid, uuid), where `none` is NULL.
abbrev pub uuid_fits : Option (List ℕ) → CamPool → Bool
uuid_fits none cp = true
uuid_fits (some uuid) cp = same_text cp.uuid uuid

abbrev pub is_available : Option (List ℕ) → Option ℕ → CamPool → Bool
is_available uuid slot cp = has_room cp && uuid_fits uuid cp && slot_fits slot cp.slot

-- CAMAvailable
unfoldable pub cam_available : Option (List ℕ) → Option ℕ → List CamPool → Option ℕ
cam_available uuid slot pool = find_index (is_available uuid slot) pool

-- CAMAlloc
unfoldable pub cam_alloc : Option (List ℕ) → Option ℕ → List CamPool → Option ℕ × List CamPool
unfolding cam_available
cam_alloc uuid slot pool = elim (cam_available uuid slot pool) [
  | none ↦ (none, pool)
  | some i ↦
      let cp = get_or pool i free_cam in
      (some i, set pool i (record cp { use_count = cp.use_count + 1 }))
]

-- CAMFree; the use after it is returned.
pub cam_free : ℕ → List CamPool → ℕ × List CamPool
cam_free i pool =
    let cp = get_or pool i free_cam in
    let left = if ltb 0 cp.use_count then cp.use_count - 1 else cp.use_count in
    (left, set pool i (record cp { use_count = left }))
