-- ===== src/Device/Stream.antt =====
-- The stream of TS packets through cMcliDevice (device.c): HandleTsData puts what libmcli receives into
-- the ring buffer of VDR (cRingBufferLinear), and GetTSPacket takes packets out of it.
pub mod Sync
use vdr_plugin_mcli.Prelude.{
  ℕ, suc, ◌+◌, ◌≤◌, ◌≡◌, ◌&&◌, not, leb, ltb, ◌==◌, Bool, true, false, Option, none, some, List, [],
  ◌∷◌, ◌++◌, if◌then◌else◌, length, drop, find_index,
}
use vdr_plugin_mcli.PacketBuffer.{Round}
use vdr_plugin_mcli.Filter.Filters.{put_ts}
use vdr_plugin_mcli.Device.{Device}

-- The ring buffer: Free, Clear, Put, Get and Del, over the bytes that wait. Clear drops them all; Put
-- appends what fits; Get shows bytes from the front on, or NULL; Del drops bytes in front, no more than
-- Get shows.
pub record RingBuffer : Type 1 where
  pub Buffer : Type 0
  pub bytes : Buffer → List ℕ
  pub free : Buffer → ℕ
  pub clear : Buffer → Buffer
  pub put : List ℕ → Buffer → ℕ × Buffer
  pub get : Buffer → Option (List ℕ)
  pub del : ℕ → Buffer → Buffer
  pub bytes-clear : (b : Buffer) → bytes (clear b) ≡ []
  pub bytes-put :
      (xs : List ℕ) (b : Buffer)
      → length xs ≤ free b
      → ((put xs b).0 ≡ length xs) × (bytes (put xs b).1 ≡ bytes b ++ xs)
  pub bytes-get :
      (b : Buffer) (xs : List ℕ) → get b ≡ some xs → (rest : List ℕ) × (bytes b ≡ xs ++ rest)
  pub bytes-del :
      (n : ℕ) (b : Buffer) (xs : List ℕ)
      → get b ≡ some xs
      → n ≤ length xs
      → bytes (del n b) ≡ drop n (bytes b)

-- OpenDvr and CloseDvr
pub open_dvr : Device → Bool × Device
open_dvr d = (true, record d { dvr_open = true })

pub close_dvr : Device → Device
close_dvr d = record d { dvr_open = false }

-- The part of HandleTsData on the ring buffer: the number of bytes that Put took.
unfoldable pub store_ts : (R : RingBuffer) → List ℕ → R.Buffer → ℕ × R.Buffer
store_ts R xs b = R.put xs (if ltb (R.free b) (length xs) then R.clear b else b)

-- HandleTsData, with the rounds of PutTS; `none` is a PutTS that has not returned.
unfoldable pub handle_ts_data :
    (R : RingBuffer)
    → ℕ
    → (ℕ → List Round)
    → (ℕ → ℕ)
    → List ℕ
    → R.Buffer
    → Device
    → Option (ℕ × R.Buffer × Device)
unfolding store_ts
handle_ts_data R ts_size rounds mem xs b d =
    elim (put_ts ts_size rounds mem (length xs) d.filters) [
      | none ↦ none
      | some fs ↦ let (n, b') = store_ts R xs b in some (n, b', record d { filters = fs })
    ]

-- The bytes in front of the next sync byte, or all.
unfoldable pub to_sync : (sync : ℕ) → List ℕ → ℕ
to_sync sync [] = 0
to_sync sync (y ∷ ys) = if y == sync then 0 else suc (to_sync sync ys)

-- What GetTSPacket leaves: `data` is Data, where `none` is NULL.
pub record Taken (R : RingBuffer) : Type 0 where
  pub data_ptr : Option (List ℕ)
  pub delivered : Bool
  pub buffer : R.Buffer

-- The bytes in front of the packets that GetTSPacket sees: the packet that was delivered goes first.
unfoldable pub drop_delivered : (R : RingBuffer) → ℕ → Bool → R.Buffer → R.Buffer
drop_delivered R ts_size true b = R.del ts_size b
drop_delivered R ts_size false b = b

-- GetTSPacket on the bytes that Get shows; those in front of a sync byte go.
unfoldable pub take_shown :
    (R : RingBuffer) → (ts_size sync : ℕ) → Option (List ℕ) → R.Buffer → Taken R
unfolding to_sync
take_shown R ts_size sync none b = record { data_ptr = none; delivered = false; buffer = b }
take_shown R ts_size sync (some []) b = record { data_ptr = none; delivered = false; buffer = b }
take_shown R ts_size sync (some (x ∷ xs)) b =
    if leb ts_size (suc (length xs))
    then (if x == sync
        then record { data_ptr = some (x ∷ xs); delivered = true; buffer = b }
        else record {
          data_ptr = none;
          delivered = false;
          buffer = R.del (suc (to_sync sync xs)) b;
        })
    else record { data_ptr = none; delivered = false; buffer = b }

-- GetTSPacket for a device that is enabled and whose dvr is open.
unfoldable pub take_packet : (R : RingBuffer) → (ts_size sync : ℕ) → Bool → R.Buffer → Taken R
unfolding drop_delivered take_shown
take_packet R ts_size sync delivered b =
    let b1 = drop_delivered R ts_size delivered b in take_shown R ts_size sync (R.get b1) b1

-- GetTSPacket; for `none` it answers false, and Data stays as it is.
unfoldable pub get_ts_packet :
    (R : RingBuffer) → (ts_size sync : ℕ) → R.Buffer → Device → Option (Taken R × Device)
unfolding take_packet
get_ts_packet R ts_size sync b d =
    let taken : Taken R = take_packet R ts_size sync d.delivered b in
    if d.enable && d.dvr_open then some (taken, record d { delivered = taken.delivered }) else none
