-- ===== src/PacketBuffer/Live.antt =====
-- The packets that wait in the ring of packetbuffer.c, oldest first: the slots from `rp` up to `wp`,
-- going round at posSize.
use mathlib.Core.Path.{ap₂}
use native.Mathlib.Nat.{mod-eq_of_lt, mod-eq-sub-mod}
use vdr_plugin_mcli.Prelude.{
  ℕ, zero, suc, ◌+◌, ◌-◌, ◌%◌, ◌≤◌, ◌<◌, ◌≡◌, refl, ap, sym, ◌∙◌, List, [], ◌∷◌, ◌++◌, arith, leb,
  if◌then◌else◌, get_or, get_or-set_ne, set, length, drop,
}
use vdr_plugin_mcli.PacketBuffer.{PosData, PacketBuffer, zero_pos}

-- The slot `n` steps after `h`.
abbrev pub advance : ℕ → ℕ → ℕ → ℕ
advance slots h n = if leb slots (h + n) then h + n - slots else h + n

pub advance-eq-mod : (slots h n : ℕ) → h < slots → n ≤ slots → advance slots h n ≡ (h + n) % slots
advance-eq-mod slots h n hh hn = ground (
  arith,
  mod-eq_of_lt {n = h + n} {m = slots},
  mod-eq-sub-mod {n = h + n} {m = slots},
  mod-eq_of_lt {n = h + n - slots} {m = slots},
)

advance-advance :
    (slots h n : ℕ)
    → h < slots
    → suc n < slots
    → advance slots (advance slots h 1) n ≡ advance slots h (suc n)
advance-advance slots h n hh hn = ground arith

module _ (pos : List PosData) (slots : ℕ) where
  abbrev pub live_from : ℕ → ℕ → List PosData
  live_from h zero = []
  live_from h (suc n) = get_or pos h zero_pos ∷ live_from (advance slots h 1) n

  pub length-live_from : (h n : ℕ) → length (live_from h n) ≡ n
  length-live_from h zero = refl
  length-live_from h (suc n) = ap suc (length-live_from (advance slots h 1) n)

  pub live_from-snoc :
      (h n : ℕ)
      → h < slots
      → n < slots
      → live_from h (suc n) ≡ live_from h n ++ get_or pos (advance slots h n) zero_pos ∷ []
  live_from-snoc h zero hh hn = ap (λ i. get_or pos i zero_pos ∷ []) (ground arith)
  live_from-snoc h (suc n) hh hn = ap (◌∷◌ (get_or pos h zero_pos)) (
      live_from-snoc (advance slots h 1) n (ground arith) (omega arith)
      ∙ ap (λ i. live_from (advance slots h 1) n ++ get_or pos i zero_pos ∷ [])
          (advance-advance slots h n hh hn))

-- A write to a slot behind a run of packets leaves the run alone.
pub live_from-set :
    (pos : List PosData) (slots i : ℕ) (v : PosData) (h n m : ℕ)
    → i ≡ advance slots h m
    → h < slots
    → n ≤ m
    → m < slots
    → live_from (set pos i v) slots h n ≡ live_from pos slots h n
live_from-set pos slots i v h zero m e hh hn hm = refl
live_from-set pos slots i v h (suc n) zero e hh hn hm = absurd (omega arith)
live_from-set pos slots i v h (suc n) (suc m) e hh hn hm =
    ap₂ ◌∷◌ (get_or-set_ne pos i h v zero_pos (ground arith)) (
      live_from-set pos slots i v (advance slots h 1) n m
        (e ∙ sym (advance-advance slots h m hh hm)) (ground arith) (omega arith) (omega arith))

-- To take packets from the front is to start further on.
pub live_from-drop :
    (pos : List PosData) (slots h m n : ℕ)
    → h < slots
    → m + n < slots
    → drop m (live_from pos slots h (m + n)) ≡ live_from pos slots (advance slots h m) n
live_from-drop pos slots h zero n hh hn = ap₂ (live_from pos slots) (ground arith) (omega arith)
live_from-drop pos slots h (suc m) n hh hn =
    let e : suc m + n ≡ suc (m + n) = omega arith in
    ap (λ t. drop (suc m) (live_from pos slots h t)) e
    ∙ live_from-drop pos slots (advance slots h 1) m n (ground arith) (omega arith)
    ∙ ap (λ i. live_from pos slots i n) (advance-advance slots h m hh (omega arith))

-- How many steps it is from slot `r` to slot `w`.
abbrev pub between : ℕ → ℕ → ℕ → ℕ
between slots r w = if leb r w then w - r else w + slots - r

pub between-advance_write :
    (slots r w : ℕ)
    → r < slots
    → w < slots
    → between slots r w + 1 < slots
    → between slots r (advance slots w 1) ≡ suc (between slots r w)
between-advance_write slots r w hr hw room = ground arith

pub between_full :
    (slots r w : ℕ)
    → r < slots
    → w < slots
    → between slots r w + 1 ≡ slots
    → between slots r (advance slots w 1) ≡ 0
between_full slots r w hr hw full = ground arith

pub between-advance_read :
    (slots r w n : ℕ)
    → r < slots
    → w < slots
    → n ≤ between slots r w
    → n + between slots (advance slots r n) w ≡ between slots r w
between-advance_read slots r w n hr hw h = ground arith

-- How many packets wait, and which.
abbrev pub count : PacketBuffer → ℕ
count b = between b.pos_size b.rp b.wp

abbrev pub live : PacketBuffer → List PosData
live b = live_from b.pos_buffer b.pos_size b.rp (count b)
