-- ===== src/Mcli/Start.antt =====
-- PreInitMcli and PostExitMcli of mcli.c: the start of the four parts of the receiver and their end.
-- What the calls of libmcli answer and what /proc/net/if_inet6 holds are arguments.
pub mod Ready
use vdr_plugin_mcli.Prelude.{
  ℕ, zero, suc, ◌+◌, ◌-◌, Bool, true, false, not, ◌&&◌, ◌||◌, Option, none, some, List, [], ◌∷◌,
  ◌++◌, ltb, leb, ◌==◌, if◌then◌else◌, length, drop, same_text,
}

-- recv_init, mld_client_init, api_sock_init and mmi_broadcast_client_init.
pub data Part : Type 0 where
  recv : Part
  mld : Part
  api : Part
  mmi : Part

-- The flags of cPluginMcli and m_cmd.mld_start.
pub record Inits : Type 0 where
  pub recv_init_done : Bool
  pub mld_init_done : Bool
  pub api_init_done : Bool
  pub mmi_init_done : Bool
  pub mld_start : Bool

-- `while (buf[buflen-1]==c) buf[--buflen] = 0;` for a text that has another character.
pub strip : ℕ → List ℕ → List ℕ
strip c [] = []
strip c (x ∷ xs) = let rest = strip c xs in if x == c && length rest == 0 then [] else x ∷ rest

-- The test of a line, after the line feeds, returns and blanks at its end are taken off.
pub names_iface : List ℕ → List ℕ → Bool
unfolding strip
names_iface iface line =
    let buf = strip 32 (strip 13 (strip 10 line)) in
    leb (length iface) (length buf) && same_text (drop (length buf - length iface) buf) iface

-- The loop over the lines.
pub found_in : List ℕ → List (List ℕ) → Bool
unfolding names_iface
found_in iface [] = false
found_in iface (line ∷ lines) = names_iface iface line || found_in iface lines

-- The loop that watches for the interface, where a round takes IFACE_WATCH_STEP of IFACE_WATCH_TIMEOUT
-- seconds and reads the lines of the file, or `none` if it does not open. Rounds that are not given
-- count as files that do not open.
pub watch : List ℕ → List (Option (List (List ℕ))) → ℕ → Bool
unfolding found_in
watch iface [] waited = false
watch iface (file ∷ files) waited =
    let rest = watch iface files (waited + 5) in
    if ltb waited 180
    then elim file [ none ↦ false | some lines ↦ if found_in iface lines then true else rest ]
    else false

-- The first test of PreInitMcli.
pub is_ready : Inits → Bool
is_ready s =
    s.recv_init_done && (s.mld_init_done || not s.mld_start) && s.api_init_done && s.mmi_init_done

-- One of the four blocks that follow: what it returns early, the flag, and the call that succeeded.
pub record Block : Type 0 where
  pub ok : Bool
  pub done : Bool
  pub started : List Part

pub block : Part → Bool → Bool → Block
block part done answer =
    if done
    then record { ok = true; done = true; started = [] }
    else if answer
    then record { ok = true; done = true; started = part ∷ [] }
    else record { ok = false; done = false; started = [] }

-- What PreInitMcli returns, the parts it started in their order, and the flags.
pub record Outcome : Type 0 where
  pub ok : Bool
  pub parts : List Part
  pub inits : Inits

-- PreInitMcli behind the watch for the interface; `answer` tells which of the calls succeed.
pub start_parts : (Part → Bool) → Inits → Outcome
unfolding block
start_parts answer s =
    let a = block recv s.recv_init_done (answer recv) in
    let b =
      if s.mld_start
      then block mld s.mld_init_done (answer mld)
      else record { ok = true; done = s.mld_init_done; started = [] } in
    let c = block api s.api_init_done (answer api) in
    let d = block mmi s.mmi_init_done (answer mmi) in
    let s1 = record s { recv_init_done = a.done } in
    let s2 = record s1 { mld_init_done = b.done } in
    let s3 = record s2 { api_init_done = c.done } in
    if not a.ok
    then record { ok = false; parts = []; inits = s1 }
    else (if not b.ok
        then record { ok = false; parts = a.started; inits = s2 }
        else (if not c.ok
            then record { ok = false; parts = a.started ++ b.started; inits = s3 }
            else record {
              ok = d.ok;
              parts = a.started ++ (b.started ++ (c.started ++ d.started));
              inits = record s3 { mmi_init_done = d.done };
            }))

-- PreInitMcli
unfoldable pub pre_init_mcli :
    List ℕ → List (Option (List (List ℕ))) → (Part → Bool) → Inits → Outcome
unfolding is_ready start_parts watch
pre_init_mcli iface files answer s =
    if is_ready s
    then record { ok = true; parts = []; inits = s }
    else (if not (length iface == 0) && not (watch iface files 0)
        then record { ok = false; parts = []; inits = s }
        else start_parts answer s)

-- PostExitMcli: the parts that it ends in their order, and the flags.
unfoldable pub post_exit_mcli : Inits → List Part × Inits
post_exit_mcli s = (
  (if s.mmi_init_done then mmi ∷ [] else [])
      ++ ((if s.api_init_done then api ∷ [] else [])
          ++ ((if s.mld_init_done then mld ∷ [] else [])
              ++ (if s.recv_init_done then recv ∷ [] else []))),
  record s {
    recv_init_done = false;
    mld_init_done = false;
    api_init_done = false;
    mmi_init_done = false;
  },
)
