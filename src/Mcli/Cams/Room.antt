-- ===== src/Mcli/Cams/Room.antt =====
-- The room that CAMFree of mcli.c makes for CAMAlloc.
use vdr_plugin_mcli.Prelude.{
  ℕ, ◌<◌, ◌≤◌, ◌≡◌, ◌≢◌, refl, sym, subst, true, false, Option, none, some, List, arith, get_or,
  length, All-get_or, inl, inr, ◌⊎◌, find_index-none, get_or-set_self, get_or-out,
}
use vdr_plugin_mcli.Mcli.Cams.{CamPool, free_cam, slot_fits, is_available, cam_available, cam_free}
use vdr_plugin_mcli.Mcli.Cams.Uses.{uses_at}

-- The uses of a CAM are within its limit.
abbrev pub InLimit : CamPool → Type 0
InLimit cp = (cp.use_count ≡ 0) ⊎ ((n : ℕ) × (cp.max ≡ some n) × (cp.use_count ≤ n))

used_below : (pool : List CamPool) (i : ℕ) → 0 < uses_at pool i → i < length pool
used_below pool i u = grind (arith, u, get_or-out pool i free_cam)

room :
    (slot : Option ℕ) (cp : CamPool) (n left : ℕ)
    → cp.max ≡ some n
    → left < n
    → slot_fits slot cp.slot ≡ true
    → is_available none slot (record cp { use_count = left }) ≡ true
room slot cp n left m below h = rw (m, h) (ground (arith, below))

-- A CAM that was in use within its limit has room behind CAMFree.
pub free-available :
    (slot : Option ℕ) (pool : List CamPool) (i : ℕ)
    → InLimit (get_or pool i free_cam)
    → 0 < uses_at pool i
    → slot_fits slot (get_or pool i free_cam).slot ≡ true
    → is_available none slot (get_or (cam_free i pool).1 i free_cam) ≡ true
unfolding cam_free
free-available slot pool i (inl z) u h = absurd (omega (arith, z, u))
free-available slot pool i (inr (n, m, l)) u h =
    let cp = get_or pool i free_cam in
    subst (λ c. is_available none slot c ≡ true)
      (sym (get_or-set_self pool i _ free_cam (used_below pool i u)))
      (room slot cp n _ m (ground (arith, l, u)) h)

pub available-some :
    (slot : Option ℕ) (pool : List CamPool) (i : ℕ)
    → is_available none slot (get_or pool i free_cam) ≡ true
    → cam_available none slot pool ≢ none
unfolding cam_available
available-some slot pool i h e =
    let none_fits : is_available none slot (get_or pool i free_cam) ≡ false =
      All-get_or (λ cp. is_available none slot cp ≡ false) pool i free_cam
        (find_index-none (is_available none slot) pool e) refl in
    grind (arith, h, none_fits)
