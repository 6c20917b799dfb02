-- ===== src/PacketBuffer/Multiple/Uniform.antt =====
-- GetStartMultiple of packetbuffer.c on packets of one size, as the plugin puts them: what it returns
-- is their bytes, one behind the other.
use mathlib.Core.List.{flatten}
use vdr_plugin_mcli.Prelude.{
  ℕ, ◌+◌, ◌≤◌, ◌≡◌, refl, ap, ap₂, subst, ◌∙◌, List, [], ◌∷◌, ◌++◌, some, false, ◌⊎◌, inl, inr,
  arith, map, Bool-cases, take, All,
}
use vdr_plugin_mcli.PacketBuffer.{PosData, PacketBuffer, Round, Packet, packet}
use vdr_plugin_mcli.PacketBuffer.Live.{live}
use vdr_plugin_mcli.PacketBuffer.Valid.{IsValid}
use vdr_plugin_mcli.PacketBuffer.Bytes.{bytes_at, bytes_at-add, payload}
use vdr_plugin_mcli.PacketBuffer.Multiple.{get_start_multiple}
use vdr_plugin_mcli.PacketBuffer.Multiple.Loop.{total, joins, run_length}
use vdr_plugin_mcli.PacketBuffer.Multiple.Laws.{get_multiple_takes_run}

-- All packets hold `s` bytes.
abbrev pub IsUniform : ℕ → List PosData → Type 0
IsUniform s = All (λ e. e.size ≡ s)

run_bytes :
    (mem : ℕ → ℕ) (s maxsize sum last : ℕ) (es : List PosData)
    → IsUniform s es
    → let run = take (run_length maxsize sum last es) es in
      (bytes_at mem (last + s) (total run) ≡ flatten (map (payload mem) run))
      × ((sum + total run ≤ sum) ⊎ (sum + total run ≤ maxsize))
unfolding run_length flatten
run_bytes mem s maxsize sum last [] u = (refl, omega arith)
run_bytes mem s maxsize sum last (e ∷ es) u = elim (Bool-cases (joins maxsize sum last e)) [
  | inr stays ↦ rw stays (refl, omega arith)
  | inl join ↦
      let (same, bound) = run_bytes mem s maxsize (sum + e.size) e.offset es u.1 in
      let next : last + s ≡ e.offset = ground arith in
      let behind : last + s + e.size ≡ e.offset + s = omega (arith, u.0) in
      let rest : ℕ = total (take (run_length maxsize (sum + e.size) e.offset es) es) in
      let fits : sum + e.size ≤ maxsize = ground arith in
      rw join (
        bytes_at-add mem (last + s) e.size rest
            ∙ ap₂ ◌++◌ (ap (λ a. bytes_at mem a e.size) next)
                (ap (λ a. bytes_at mem a rest) behind ∙ same),
        omega arith,
      )
]

-- On a valid buffer with packets waiting, all of s bytes, and no Invalidate outstanding, the region
-- that GetStartMultiple returns holds the bytes of the packets that it takes, in their order and
-- with nothing between them; and it is no longer than s bytes or no longer than maxsize.
pub get_multiple_bytes :
    (rounds : List Round) (starttime maxsize s : ℕ) (b : PacketBuffer) (e : PosData)
    (es : List PosData)
    → IsValid b
    → b.invalidate ≡ false
    → live b ≡ e ∷ es
    → IsUniform s (live b)
    → let run = e ∷ take (run_length maxsize e.size e.offset es) es in
      (p : Packet) × (b' : PacketBuffer) × (get_start_multiple rounds starttime maxsize b
        ≡ some (some p, b'))
      × (bytes_at b.data_buffer p.offset p.size ≡ flatten (map (payload b.data_buffer) run))
      × ((p.size ≤ s) ⊎ (p.size ≤ maxsize))
unfolding flatten
get_multiple_bytes rounds starttime maxsize s b e es v fresh waiting u =
    let (b', got, _, _, _, _) =
      get_multiple_takes_run rounds starttime maxsize b e es v fresh waiting in
    let u' : IsUniform s (e ∷ es) = subst (IsUniform s) waiting u in
    let (same, bound) = run_bytes b.data_buffer s maxsize e.size e.offset es u'.1 in
    (
      record (packet e) { size = e.size + total (take (run_length maxsize e.size e.offset es) es) },
      b',
      got,
      bytes_at-add b.data_buffer e.offset e.size _
          ∙ ap (◌++◌ (payload b.data_buffer e)) (
              ap
                (λ a.
                  bytes_at b.data_buffer (e.offset + a)
                    (total (take (run_length maxsize e.size e.offset es) es)))
                u'.0
              ∙ same),
      omega (arith, u'.0),
    )
