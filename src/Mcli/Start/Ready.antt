-- ===== src/Mcli/Start/Ready.antt =====
-- PreInitMcli and PostExitMcli of mcli.c: what is started is ready, and ended.
use mathlib.Core.List.{reverse}
use vdr_plugin_mcli.Prelude.{
  ℕ, ◌≡◌, refl, ap, sym, inl, inr, Bool, false, Bool-cases, not, ◌&&◌, Option, List, arith, ◌==◌,
  length,
}
use vdr_plugin_mcli.Mcli.Start.{
  Part, Inits, block, is_ready, watch, start_parts, pre_init_mcli, post_exit_mcli,
}

-- No part is started.
abbrev pub stopped : Bool → Inits
stopped mld_start = record {
  recv_init_done = false;
  mld_init_done = false;
  api_init_done = false;
  mmi_init_done = false;
  mld_start = mld_start;
}

start_parts-ready :
    (answer : Part → Bool) (s : Inits)
    → (start_parts answer s).ok ≡ is_ready (start_parts answer s).inits
unfolding start_parts block is_ready
start_parts-ready answer s = ground arith

-- PreInitMcli returns true exactly if, when it returns, all parts that are wanted are started.
pub pre_init_mcli-ready :
    (iface : List ℕ) (files : List (Option (List (List ℕ)))) (answer : Part → Bool) (s : Inits)
    → (pre_init_mcli iface files answer s).ok ≡ is_ready (pre_init_mcli iface files answer s).inits
unfolding pre_init_mcli
pre_init_mcli-ready iface files answer s = elim (Bool-cases (is_ready s)) [
  | inl h ↦ rw (pre_init_mcli, h) (sym h)
  | inr h ↦ elim (Bool-cases (not (length iface == 0) && not (watch iface files 0))) [
    | inl w ↦ rw (pre_init_mcli, h, w) (sym h)
    | inr w ↦ rw (pre_init_mcli, h, w) (start_parts-ready answer s)
  ]
]

start_parts-post_exit :
    (answer : Part → Bool) (ms : Bool)
    → ((post_exit_mcli (start_parts answer (stopped ms)).inits).0
        ≡ reverse (start_parts answer (stopped ms)).parts)
      × ((post_exit_mcli (start_parts answer (stopped ms)).inits).1 ≡ stopped ms)
unfolding start_parts block post_exit_mcli
start_parts-post_exit answer ms =
    (ground arith, ap (λ k. record (stopped ms) { mld_start = k }) (ground arith))

-- From the state in which no part is started, PostExitMcli ends the parts that PreInitMcli started,
-- even where it failed half-way, the last one first, and leaves none started.
pub post_exit-pre_init :
    (iface : List ℕ) (files : List (Option (List (List ℕ)))) (answer : Part → Bool) (ms : Bool)
    → let out = pre_init_mcli iface files answer (stopped ms) in
      ((post_exit_mcli out.inits).0 ≡ reverse out.parts)
      × ((post_exit_mcli out.inits).1 ≡ stopped ms)
unfolding pre_init_mcli post_exit_mcli
post_exit-pre_init iface files answer ms =
    elim (Bool-cases (not (length iface == 0) && not (watch iface files 0))) [
      | inl w ↦ rw w (refl, refl)
      | inr w ↦ rw w (start_parts-post_exit answer ms)
    ]
