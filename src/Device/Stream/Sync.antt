-- ===== src/Device/Stream/Sync.antt =====
-- GetTSPacket and HandleTsData of device.c over the bytes of the ring buffer.
use vdr_plugin_mcli.Prelude.{
  ℕ, suc, ◌≤◌, ◌<◌, leb, ltb, ◌==◌, ◌≡◌, refl, sym, ap, subst, ◌∙◌, ◌⊎◌, inl, inr, Bool, true,
  false, Bool-cases, Option, Option-cases, none, some, List, [], ◌∷◌, ◌++◌, arith, if◌then◌else◌,
  length, take, drop, All, if_both,
}
use vdr_plugin_mcli.Device.Stream.{
  RingBuffer, Taken, to_sync, drop_delivered, take_shown, take_packet, store_ts, handle_ts_data,
  get_ts_packet,
}
use vdr_plugin_mcli.PacketBuffer.{Round}
use vdr_plugin_mcli.Filter.Filters.{put_ts}
use vdr_plugin_mcli.Device.{Device}

-- The bytes that are no sync byte.
abbrev pub NoSync : ℕ → List ℕ → Type 0
NoSync sync xs = All (λ x. (x == sync) ≡ false) xs

to_sync-NoSync : (sync : ℕ) (xs rest : List ℕ) → NoSync sync (take (to_sync sync xs) (xs ++ rest))
unfolding to_sync
to_sync-NoSync sync [] rest = tt
to_sync-NoSync sync (x ∷ xs) rest = elim (Bool-cases (x == sync)) [
  | inl h ↦ rw h tt
  | inr h ↦ rw h (h, to_sync-NoSync sync xs rest)
]

to_sync-le : (sync : ℕ) (xs : List ℕ) → to_sync sync xs ≤ length xs
unfolding to_sync
to_sync-le sync [] = omega arith
to_sync-le sync (x ∷ xs) =
    if_both (λ n. n ≤ suc (length xs)) (x == sync) 0 (suc (to_sync sync xs)) (λ e. omega arith)
      λ e. omega (arith, to_sync-le sync xs)

module _ (R : RingBuffer) (ts_size sync : ℕ) where
  -- What GetTSPacket gives with the bytes `waiting`: no packet, and bytes without a sync byte go; or
  -- the bytes from a sync byte on, of at least the size of a packet, and all bytes stay.
  abbrev pub Outcome : List ℕ → Taken R → Type 0
  Outcome waiting t =
      ((t.data_ptr ≡ none)
        × (t.delivered ≡ false)
        × ((k : ℕ) × (R.bytes t.buffer ≡ drop k waiting) × NoSync sync (take k waiting)))
      ⊎ ((p rest : List ℕ) × (t.data_ptr ≡ some (sync ∷ p))
          × (t.delivered ≡ true)
          × (waiting ≡ (sync ∷ p) ++ rest)
          × (R.bytes t.buffer ≡ waiting)
          × (ts_size ≤ suc (length p)))

  take_shown-Outcome :
      (shown : Option (List ℕ)) (b : R.Buffer)
      → R.get b ≡ shown
      → Outcome (R.bytes b) (take_shown R ts_size sync shown b)
  unfolding take_shown
  take_shown-Outcome none b e = inl (refl, refl, (0, refl, tt))
  take_shown-Outcome (some []) b e = inl (refl, refl, (0, refl, tt))
  take_shown-Outcome (some (x ∷ xs)) b e =
      let (rest, whole) = R.bytes-get b (x ∷ xs) e in
      let nothing : Outcome (R.bytes b)
          (record { data_ptr = none; delivered = false; buffer = b }) =
        inl (refl, refl, (0, refl, tt)) in
      let skip : ℕ = suc (to_sync sync xs) in
      let shown_le : skip ≤ length (x ∷ xs) = omega (arith, to_sync-le sync xs) in
      if_both (Outcome (R.bytes b)) (leb ts_size (suc (length xs)))
        (if x == sync
          then record { data_ptr = some (x ∷ xs); delivered = true; buffer = b }
          else record { data_ptr = none; delivered = false; buffer = R.del skip b })
        (record { data_ptr = none; delivered = false; buffer = b })
        (λ large.
          if_both (Outcome (R.bytes b)) (x == sync)
            (record { data_ptr = some (x ∷ xs); delivered = true; buffer = b })
            (record { data_ptr = none; delivered = false; buffer = R.del skip b })
            (λ h.
              let same : x ≡ sync = ground (arith, h) in
              inr (
                xs,
                rest,
                ap (λ y. some (y ∷ xs)) same,
                refl,
                whole ∙ ap (λ y. (y ∷ xs) ++ rest) same,
                refl,
                ground (arith, large),
              ))
            λ h. inl (
              refl,
              refl,
              (
                skip,
                R.bytes-del skip b (x ∷ xs) e shown_le,
                subst (λ ys. NoSync sync (take skip ys)) (sym whole)
                    (h, to_sync-NoSync sync xs rest),
              ),
            ))
        λ small. nothing

-- GetTSPacket, of an enabled device with an open dvr, and with at least the packet delivered before
-- still shown by Get, drops this packet; then it gives none and skips at most the bytes in front of
-- the next sync byte, or it gives the bytes that begin with a sync byte, at least a packet, and
-- leaves them in place.
pub take_packet-Outcome :
    (R : RingBuffer) (ts_size sync : ℕ) (delivered : Bool) (b : R.Buffer)
    → (delivered ≡ true → (xs : List ℕ) × (R.get b ≡ some xs) × (ts_size ≤ length xs))
    → Outcome R ts_size sync
        (if delivered then drop ts_size (R.bytes b) else R.bytes b)
        (take_packet R ts_size sync delivered b)
unfolding take_packet drop_delivered
take_packet-Outcome R ts_size sync true b h =
    let (xs, shown, enough) = h refl in
    let b1 : R.Buffer = R.del ts_size b in
    subst (λ ys. Outcome R ts_size sync ys (take_shown R ts_size sync (R.get b1) b1))
      (R.bytes-del ts_size b xs shown enough) (take_shown-Outcome R ts_size sync (R.get b1) b1 refl)
take_packet-Outcome R ts_size sync false b h = take_shown-Outcome R ts_size sync (R.get b) b refl

-- HandleTsData appends the bytes it is given, if they fit into the ring buffer, and if not, drops what
-- waits there and keeps the new bytes, where an empty buffer has room for them.
pub store_ts_lem :
    (R : RingBuffer) (xs : List ℕ) (b : R.Buffer)
    → length xs ≤ R.free (R.clear b)
    → ((store_ts R xs b).0 ≡ length xs)
      × (((length xs ≤ R.free b) × (R.bytes (store_ts R xs b).1 ≡ R.bytes b ++ xs))
          ⊎ ((R.free b < length xs) × (R.bytes (store_ts R xs b).1 ≡ xs)))
unfolding store_ts
store_ts_lem R xs b h = elim (Bool-cases (ltb (R.free b) (length xs))) [
  | inl e ↦
      let (all, after) = R.bytes-put xs (R.clear b) h in
      rw (store_ts, e) (all, inr (ground (arith, e), after ∙ ap (λ ys. ys ++ xs) (R.bytes-clear b)))
  | inr e ↦
      let (all, after) = R.bytes-put xs b (ground (arith, e)) in
      rw (store_ts, e) (all, inl (ground (arith, e), after))
]

-- What HandleTsData leaves, if PutTS returns.
abbrev Handled :
    (R : RingBuffer) → List ℕ → R.Buffer → Device → Option (ℕ × R.Buffer × Device) → Type 0
Handled R xs b d none = Unit {0}
Handled R xs b d (some (n, b', d')) =
    (b' ≡ (store_ts R xs b).1)
    × (d'.delivered ≡ d.delivered)
    × (d'.enable ≡ d.enable)
    × (d'.dvr_open ≡ d.dvr_open)

handle_ts_data-Handled :
    (R : RingBuffer) (ts_size : ℕ) (rounds : ℕ → List Round) (mem : ℕ → ℕ) (xs : List ℕ)
    (b : R.Buffer) (d : Device)
    → Handled R xs b d (handle_ts_data R ts_size rounds mem xs b d)
unfolding handle_ts_data
handle_ts_data-Handled R ts_size rounds mem xs b d =
    elim (Option-cases (put_ts ts_size rounds mem (length xs) d.filters)) [
      | inl e ↦ rw (handle_ts_data, e) tt
      | inr (fs, e) ↦ rw (handle_ts_data, e) (refl, refl, refl, refl)
    ]

-- GetTSPacket behind a delivered packet, of an enabled device with an open dvr.
get_ts_packet-delivered :
    (R : RingBuffer) (ts_size sync : ℕ) (b : R.Buffer) (d : Device)
    → d.delivered ≡ true
    → d.enable ≡ true
    → d.dvr_open ≡ true
    → let b1 : R.Buffer = R.del ts_size b in
      let t : Taken R = take_shown R ts_size sync (R.get b1) b1 in
      get_ts_packet R ts_size sync b d ≡ some (t, record d { delivered = t.delivered })
unfolding get_ts_packet take_packet drop_delivered
get_ts_packet-delivered R ts_size sync b d h on opened = rw (h, on, opened) refl

-- When HandleTsData finds the ring buffer too full behind a packet that was delivered, of an
-- enabled device with an open dvr, and the new bytes fit into the cleared buffer, then the buffer
-- holds nothing but the new bytes, and the next GetTSPacket calls Del for a packet's length on it,
-- before it looks at what Get shows: for the packet that was delivered and that is gone.
pub overflow-deletes :
    (R : RingBuffer) (ts_size sync : ℕ) (rounds : ℕ → List Round) (mem : ℕ → ℕ) (xs : List ℕ)
    (b b' : R.Buffer) (d d' : Device) (n : ℕ)
    → d.delivered ≡ true
    → d.enable ≡ true
    → d.dvr_open ≡ true
    → R.free b < length xs
    → length xs ≤ R.free (R.clear b)
    → handle_ts_data R ts_size rounds mem xs b d ≡ some (n, b', d')
    → let b1 : R.Buffer = R.del ts_size b' in
      let t : Taken R = take_shown R ts_size sync (R.get b1) b1 in
      (R.bytes b' ≡ xs)
      × (get_ts_packet R ts_size sync b' d' ≡ some (t, record d' { delivered = t.delivered }))
overflow-deletes R ts_size sync rounds mem xs b b' d d' n h on opened full room handled =
    let (stored, mark, enabled, dvr) =
      subst (Handled R xs b d) handled (handle_ts_data-Handled R ts_size rounds mem xs b d) in
    (
      elim (store_ts_lem R xs b room).1 [
        | inl (fits, after) ↦ absurd (omega (arith, full, fits))
        | inr (over, after) ↦ ap R.bytes stored ∙ after
      ],
      get_ts_packet-delivered R ts_size sync b' d' (mark ∙ h) (enabled ∙ on) (dvr ∙ opened),
    )
