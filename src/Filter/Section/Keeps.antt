-- ===== src/Filter/Section/Keeps.antt =====
-- What PutSection of filter.c leaves of a filter as it is.
use vdr_plugin_mcli.Prelude.{true, ℕ, ◌+◌, length, ◌≡◌, refl, Bool, Option, List, arith}
use vdr_plugin_mcli.PacketBuffer.{store}
use vdr_plugin_mcli.Filter.Section.{
  McliFilter, WriteResult, sent, again, failed, announced, create, matches, reset, drop_rest,
  write_section, append_chunk, put_section,
}

-- The same socket, PID, table and mask.
abbrev pub Same : McliFilter → McliFilter → Type 0
Same f g = (g.pipe ≡ f.pipe) × (g.pid ≡ f.pid) × (g.tid ≡ f.tid) × (g.mask ≡ f.mask)

drop_rest-Same :
    (ts_size len section : ℕ) (f g : McliFilter)
    → Same f g
    → Same f (drop_rest ts_size len section g)
unfolding drop_rest reset
drop_rest-Same ts_size len section f g s = ground arith

write_section-Same :
    (ts_size : ℕ) (r : WriteResult) (len : ℕ) (f g : McliFilter)
    → Same f g
    → Same f (write_section ts_size r len g).filter
unfolding write_section
write_section-Same ts_size sent len f g s = ground (
  arith,
  drop_rest-Same ts_size len (announced g.buffer) f g s,
  drop_rest-Same ts_size len (announced g.buffer) f (record g { used = 0 }) s,
)
write_section-Same ts_size again len f g s = ground (
  arith,
  drop_rest-Same ts_size len (announced g.buffer) f g s,
  drop_rest-Same ts_size len (announced g.buffer) f (record g { used = 0 }) s,
)
write_section-Same ts_size (failed e) len f g s = ground (
  arith,
  drop_rest-Same ts_size len (announced g.buffer) f g s,
  drop_rest-Same ts_size len (announced g.buffer) f (record g { used = 0 }) s,
)

append_chunk-Same :
    (ts_size : ℕ) (r : WriteResult) (chunk : List ℕ) (f g : McliFilter)
    → Same f g
    → Same f (append_chunk ts_size r chunk g).filter
unfolding append_chunk reset
append_chunk-Same ts_size r chunk f g s =
    let g' : McliFilter = record g {
      buffer = store g.buffer g.used chunk;
      used = g.used + length chunk;
    } in
    ground (arith, write_section-Same ts_size r (length chunk) f g' s)

pub put_section-Same :
    (ts_size : ℕ) (r : WriteResult) (chunk : List ℕ) (pusi : Bool) (f : McliFilter)
    → Same f (put_section ts_size r chunk pusi f).filter
unfolding put_section reset
put_section-Same ts_size r chunk pusi f = ground (
  arith,
  append_chunk-Same ts_size r chunk f f (refl, refl, refl, refl),
  append_chunk-Same ts_size r chunk f (record f { used = 0 }) (refl, refl, refl, refl),
)

pub create-pid : (handle : Option ℕ) (pid tid mask : ℕ) → (create handle pid tid mask).pid ≡ pid
unfolding create
create-pid handle pid tid mask = refl

pub matches-Same :
    (f g : McliFilter) (pid tid : ℕ)
    → Same f g
    → matches f pid tid ≡ true
    → matches g pid tid ≡ true
unfolding matches
matches-Same f g pid tid s h = rw (s.1, s.2, s.3) h
