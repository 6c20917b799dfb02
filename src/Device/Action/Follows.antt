-- ===== src/Device/Action/Follows.antt =====
-- The account of the tuners and CAMs behind the rounds of Action (mcli.c).
use vdr_plugin_mcli.Prelude.{
  ℕ, zero, suc, ◌≡◌, refl, sym, ap, ◌∙◌, Bool, true, false, Option, none, List, [], ◌∷◌, ◌++◌,
  arith, All, All-append, All-replicate, replicate, length, ltb, if◌then◌else◌, if_both,
}
use vdr_plugin_mcli.Mcli.Cams.Kept.{Settled}
use vdr_plugin_mcli.Mcli.Scan.Kept.{Gone, scan-Kept}
use vdr_plugin_mcli.Device.{Config, Channel, Device, Pools, World}
use vdr_plugin_mcli.Device.Provide.{is_some}
use vdr_plugin_mcli.Device.Devices.{init_mcli, update_device, update_devices, wanted_count}
use vdr_plugin_mcli.Device.Devices.Each.{for_devs-Account}
use vdr_plugin_mcli.Device.Ownership.{Owned}
use vdr_plugin_mcli.Device.Ownership.Keeps.{set_enable-Owned}
use vdr_plugin_mcli.Device.Ownership.Account.{Account, owners}
use vdr_plugin_mcli.Device.Action.{
  RoundInput, Followed, round_of, follow, action_round, action_rounds,
}

-- A device that holds nothing.
abbrev pub HoldsNothing : Device → Type 0
HoldsNothing d = (d.tunerref ≡ none) × (d.camref ≡ none) × (d.ca_enable ≡ false)

owners-new :
    (ref : Device → Option ℕ) (d : Device) (ds : List Device) (n j : ℕ)
    → ref d ≡ none
    → owners ref (ds ++ replicate n d) j ≡ owners ref ds j
owners-new ref d [] zero j e = refl
owners-new ref d [] (suc n) j e = rw e (omega (arith, owners-new ref d [] n j e))
owners-new ref d (x ∷ ds) n j e = omega (arith, owners-new ref d ds n j e)

pub init_mcli-Account :
    (tuner_max : ℕ) (d : Device) (w : World)
    → HoldsNothing d
    → Account w
    → Account (init_mcli tuner_max d w)
unfolding init_mcli
init_mcli-Account tuner_max d w (et, ec, em) a = record {
  tuners = λ j. a.tuners j ∙ sym (owners-new (λ d. d.tunerref) d w.devs _ j et);
  cams = λ j. a.cams j ∙ sym (owners-new (λ d. d.camref) d w.devs _ j ec);
  marked =
      All-append (λ d. d.ca_enable ≡ is_some d.camref) w.devs _ a.marked
        (All-replicate (λ d. d.ca_enable ≡ is_some d.camref) _ d (rw (em, ec) refl));
}

update_device-Owned :
    (c : Config) (wanted receiving : Bool) (rt rc : ℕ → ℕ) (s : Pools) (d : Device)
    → Owned rt rc (s, d)
    → Owned rt rc (update_device c wanted receiving s d)
unfolding update_device
update_device-Owned c true receiving rt rc s d o =
    if_both (Owned rt rc) _ _ _ (λ e. set_enable-Owned rt rc c true s d o) (λ e. o)
update_device-Owned c false receiving rt rc s d o =
    if_both (Owned rt rc) _ _ _ (λ e. set_enable-Owned rt rc c false s d o) (λ e. o)

pub update_devices-Account :
    (c : Config) (ch : Channel) (receivings : ℕ → Bool) (w : World)
    → Account w
    → Account (update_devices c ch receivings w)
unfolding update_devices
update_devices-Account c ch receivings w a =
    (for_devs-Account ch (λ i. update_device c (ltb i (wanted_count c w)) (receivings i))
      (length w.devs) 0 w
      (λ j rt rc s d o. update_device-Owned c (ltb j (wanted_count c w)) (receivings j) rt rc s d o)
      (omega arith) a).0

-- What a round may meet: no CAM is in use of which the NetCeiver is overdue, or of which the entry was
-- freed; and a new device holds nothing.
pub record MayFollow (a : RoundInput) (w : World) : Type 0 where
  pub gone : List ℕ → Bool
  pub overdue_gone : Gone gone a.now a.ncis
  pub settled : All (Settled gone) w.pools.cams.pool
  pub new_empty : HoldsNothing a.new

follow-Account : (a : RoundInput) (w : World) → MayFollow a w → Account w → Account (follow a w).0
unfolding follow
follow-Account a w m acc =
    let w' = init_mcli a.tuner_max a.new w in
    let b = init_mcli-Account a.tuner_max a.new w m.new_empty acc in
    let k = scan-Kept m.gone a.skip a.now a.ncis (round_of w.pools) m.overdue_gone m.settled in
    record {
      tuners = λ j. ap (λ (u : Bool). if u then 1 else 0) (k.1 j) ∙ b.tuners j;
      cams = λ j. k.0.1 j ∙ b.cams j;
      marked = b.marked;
    }

-- Rounds that may follow one another.
abbrev pub MayFollowAll : Config → Channel → List RoundInput → Followed → Type 0
MayFollowAll c ch [] f = Unit
MayFollowAll c ch (a ∷ rounds) f =
    MayFollow a f.world × MayFollowAll c ch rounds (action_round c ch a f)

action_round-Account :
    (c : Config) (ch : Channel) (a : RoundInput) (f : Followed)
    → MayFollow a f.world
    → Account f.world
    → Account (action_round c ch a f).world
unfolding action_round
action_round-Account c ch a f m acc =
    update_devices-Account c ch a.receivings (follow a f.world).0 (follow-Account a f.world m acc)

-- Behind any number of rounds of the thread, each of which loses no CAM that is in use and adds devices
-- that hold nothing: from an account that is right, each tuner in use is held by exactly one device and
-- each other tuner by none, a CAM has as many uses as there are devices that hold it, and a device is
-- marked as having a CAM exactly if it holds one.
pub action_rounds-Account :
    (c : Config) (ch : Channel) (rounds : List RoundInput) (f : Followed)
    → MayFollowAll c ch rounds f
    → Account f.world
    → Account (action_rounds c ch rounds f).world
unfolding action_rounds
action_rounds-Account c ch [] f m acc = acc
action_rounds-Account c ch (a ∷ rounds) f (m, ms) acc =
    action_rounds-Account c ch rounds (action_round c ch a f) ms
      (action_round-Account c ch a f m acc)
