-- ===== src/PacketBuffer/Bytes.antt =====
-- The bytes of the packets: PutStart, the caller's memcpy and PutEnd of packetbuffer.c leave the
-- packets that wait as they are, and add the new one.
use mathlib.Core.List.{map-append}
use vdr_plugin_mcli.Prelude.{
  ℕ, zero, suc, ◌+◌, ◌≤◌, ◌<◌, ◌≡◌, refl, ap, ap₂, sym, subst, ◌∙◌, List, [], ◌∷◌, ◌++◌, some, true,
  ◌⊎◌, arith, map, length, All,
}
use vdr_plugin_mcli.PacketBuffer.{
  PosData, PacketBuffer, find_space, reserve, put_start, put_start_loop, put_end, store, fill,
}
use vdr_plugin_mcli.PacketBuffer.Live.{count, live}
use vdr_plugin_mcli.PacketBuffer.Valid.{IsValid, Sized}
use vdr_plugin_mcli.PacketBuffer.Fifo.{live-reserve}
use vdr_plugin_mcli.PacketBuffer.Put.{relock-IsValid, live-put}
use vdr_plugin_mcli.PacketBuffer.Space.{IsLinear, Apart, find_space-Apart}

-- The `n` bytes from an offset on.
abbrev pub bytes_at : (ℕ → ℕ) → ℕ → ℕ → List ℕ
bytes_at mem offset zero = []
bytes_at mem offset (suc n) = mem offset ∷ bytes_at mem (offset + 1) n

pub bytes_at-add :
    (mem : ℕ → ℕ) (a m n : ℕ) → bytes_at mem a (m + n) ≡ bytes_at mem a m ++ bytes_at mem (a + m) n
bytes_at-add mem a zero n = ap₂ (bytes_at mem) (omega arith) (omega arith)
bytes_at-add mem a (suc m) n =
    let e : suc m + n ≡ suc (m + n) = omega arith in
    ap (bytes_at mem a) e
    ∙ ap (◌∷◌ (mem a)) (
        bytes_at-add mem (a + 1) m n
        ∙ ap (λ c. bytes_at mem (a + 1) m ++ bytes_at mem c n) (omega arith))

abbrev pub payload : (ℕ → ℕ) → PosData → List ℕ
payload mem e = bytes_at mem e.offset e.size

-- The packets that wait, as byte strings.
unfoldable pub payloads : PacketBuffer → List (List ℕ)
payloads b = map (payload b.data_buffer) (live b)

store_outside :
    (mem : ℕ → ℕ) (offset a : ℕ) (bytes : List ℕ)
    → (a < offset) ⊎ (offset + length bytes ≤ a)
    → store mem offset bytes a ≡ mem a
store_outside mem offset a [] h = refl
store_outside mem offset a (x ∷ bytes) h =
    ground (arith, store_outside mem (offset + 1) a bytes (omega arith))

pub bytes_at-store_apart :
    (mem : ℕ → ℕ) (offset : ℕ) (bytes : List ℕ) (a n : ℕ)
    → (a + n ≤ offset) ⊎ (offset + length bytes ≤ a)
    → bytes_at (store mem offset bytes) a n ≡ bytes_at mem a n
bytes_at-store_apart mem offset bytes a zero h = refl
bytes_at-store_apart mem offset bytes a (suc n) h =
    ap₂ ◌∷◌ (store_outside mem offset a bytes (omega arith))
      (bytes_at-store_apart mem offset bytes (a + 1) n (omega arith))

bytes_at-store_behind :
    (mem : ℕ → ℕ) (offset x : ℕ) (bytes : List ℕ) (a n : ℕ)
    → offset < a
    → bytes_at (store mem offset (x ∷ bytes)) a n ≡ bytes_at (store mem (offset + 1) bytes) a n
bytes_at-store_behind mem offset x bytes a zero h = refl
bytes_at-store_behind mem offset x bytes a (suc n) h =
    ap₂ ◌∷◌ (ground arith) (bytes_at-store_behind mem offset x bytes (a + 1) n (omega arith))

pub bytes_at-store_self :
    (mem : ℕ → ℕ) (offset : ℕ) (bytes : List ℕ)
    → bytes_at (store mem offset bytes) offset (length bytes) ≡ bytes
bytes_at-store_self mem offset [] = refl
bytes_at-store_self mem offset (x ∷ bytes) = ap₂ ◌∷◌ (ground arith) (
    bytes_at-store_behind mem offset x bytes (offset + 1) (length bytes) (omega arith)
    ∙ bytes_at-store_self mem (offset + 1) bytes)

payload-store :
    (mem : ℕ → ℕ) (offset : ℕ) (bytes : List ℕ) (es : List PosData)
    → All (Apart offset (length bytes)) es
    → All Sized es
    → map (payload (store mem offset bytes)) es ≡ map (payload mem) es
payload-store mem offset bytes [] h s = refl
payload-store mem offset bytes (e ∷ es) h s =
    ap₂ ◌∷◌ (bytes_at-store_apart mem offset bytes e.offset e.size (omega arith))
      (payload-store mem offset bytes es h.1 s.1)

pub put_start_inv :
    (size : ℕ) (b : PacketBuffer) {offset : ℕ} {b' : PacketBuffer}
    → put_start [] size b ≡ some (some offset, b')
    → (find_space b size ≡ some offset) × (b' ≡ reserve (record b { locked = true }) offset size)
unfolding put_start put_start_loop find_space
put_start_inv size b e = ground arith

data-put_end :
    (size flags timestamp : ℕ) (b : PacketBuffer)
    → (put_end size flags timestamp b).data_buffer ≡ b.data_buffer
unfolding put_end
data-put_end size flags timestamp b = ground arith

-- On a valid buffer whose packets lie in order and that has a slot left over, a producer that finds
-- a place without waiting, copies a packet of that size to it and closes it adds just this packet
-- to the byte strings that wait, at the end; the bytes of the others stay as they were.
pub payloads-put :
    (size flags timestamp : ℕ) (bytes : List ℕ) (b : PacketBuffer) {offset : ℕ} {b' : PacketBuffer}
    → IsValid b
    → IsLinear (live b)
    → count b + 1 < b.pos_size
    → length bytes ≡ size
    → put_start [] size b ≡ some (some offset, b')
    → payloads (put_end size flags timestamp (fill offset bytes b')) ≡ payloads b ++ bytes ∷ []
unfolding payloads reserve fill
payloads-put size flags timestamp bytes b {offset} {b'} v linear room len placed =
    let (found, shape) = put_start_inv size b placed in
    let mem : ℕ → ℕ = store b.data_buffer offset bytes in
    let e : PosData = record {
      offset = offset;
      size = size;
      real_size = size;
      flags = flags;
      timestamp = timestamp;
    } in
    let same : live b' ≡ live b =
      ap live shape ∙ live-reserve offset size (relock-IsValid true v) in
    let room' : count b' + 1 < b'.pos_size =
      subst (λ x. count x + 1 < x.pos_size) (sym shape) room in
    let stored : (put_end size flags timestamp (fill offset bytes b')).data_buffer ≡ mem =
      data-put_end size flags timestamp (fill offset bytes b')
      ∙ ap (λ (x : PacketBuffer). store x.data_buffer offset bytes) shape in
    let (grown, _) = live-put [] size flags timestamp bytes b tt v placed room' in
    let apart : All (Apart offset (length bytes)) (live b) =
      subst (λ n. All (Apart offset n) (live b)) (sym len)
        (find_space-Apart b size v linear found) in
    ap₂ (λ m l. map (payload m) l) stored (grown ∙ ap (λ l. l ++ e ∷ []) same)
    ∙ map-append (payload mem) (live b) (e ∷ [])
    ∙ ap₂ (λ old new. old ++ new ∷ [])
        (payload-store b.data_buffer offset bytes (live b) apart v.sizes)
        (ap (bytes_at mem offset) (sym len) ∙ bytes_at-store_self b.data_buffer offset bytes)
