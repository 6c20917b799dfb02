-- ===== src/Device/Ownership/Account.antt =====
-- The account of the tuners and CAMs over all devices of cPluginMcli (mcli.c, device.c), and the steps
-- that the devices, CAMSteal and the thread that follows the NetCeivers take.
use vdr_plugin_mcli.Prelude.{
  ℕ, zero, suc, ◌+◌, ◌<◌, ◌≡◌, refl, sym, ◌∙◌, Option, List, [], ◌∷◌, arith, get_or, set, length,
  All, All-set, All-get_or,
}
use vdr_plugin_mcli.Mcli.Cams.Uses.{uses_at}
use vdr_plugin_mcli.Device.{Channel, Device, Pools, World}
use vdr_plugin_mcli.Device.Provide.{is_some}
use vdr_plugin_mcli.Device.Tune.{put_back, no_device}
use vdr_plugin_mcli.Device.Ownership.{refers, held, Owned}

-- How many devices refer to the entry `j`.
abbrev pub owners : (Device → Option ℕ) → List Device → ℕ → ℕ
owners ref [] j = 0
owners ref (d ∷ ds) j = refers (ref d) j + owners ref ds j

-- Those but the device with index `i`.
abbrev others : (Device → Option ℕ) → List Device → ℕ → ℕ → ℕ
others ref [] i j = 0
others ref (d ∷ ds) zero j = owners ref ds j
others ref (d ∷ ds) (suc i) j = refers (ref d) j + others ref ds i j

-- Each tuner that is in use has one holder, and the others have none; the uses of a CAM are its holders;
-- and a device has the mark of a CAM if and only if it holds one.
pub record Account (w : World) : Type 0 where
  pub tuners : (j : ℕ) → held w.pools j ≡ owners (λ d. d.tunerref) w.devs j
  pub cams : (j : ℕ) → uses_at w.pools.cams.pool j ≡ owners (λ d. d.camref) w.devs j
  pub marked : All (λ d. d.ca_enable ≡ is_some d.camref) w.devs

owners-others :
    (ref : Device → Option ℕ) (ds : List Device) (i j : ℕ) (e : Device)
    → i < length ds
    → owners ref ds j ≡ others ref ds i j + refers (ref (get_or ds i e)) j
owners-others ref [] i j e h = absurd (omega (arith, h))
owners-others ref (d ∷ ds) zero j e h = omega arith
owners-others ref (d ∷ ds) (suc i) j e h =
    omega (arith, owners-others ref ds i j e (omega (arith, h)))

owners-set :
    (ref : Device → Option ℕ) (ds : List Device) (i j : ℕ) (d : Device)
    → i < length ds
    → owners ref (set ds i d) j ≡ others ref ds i j + refers (ref d) j
owners-set ref [] i j d h = absurd (omega (arith, h))
owners-set ref (x ∷ ds) zero j d h = omega arith
owners-set ref (x ∷ ds) (suc i) j d h = omega (arith, owners-set ref ds i j d (omega (arith, h)))

-- The account of a device of the list, and the account of all behind a change of the device.
Account-Owned :
    (ch : Channel) (w : World) (i : ℕ)
    → i < length w.devs
    → Account w
    → Owned
        (others (λ d. d.tunerref) w.devs i)
        (others (λ d. d.camref) w.devs i)
        (w.pools, get_or w.devs i (no_device ch))
Account-Owned ch w i h a =
    let e = no_device ch in
    record {
      tuners = λ j. a.tuners j ∙ owners-others (λ d. d.tunerref) w.devs i j e h;
      cams = λ j. a.cams j ∙ owners-others (λ d. d.camref) w.devs i j e h;
      marked = All-get_or (λ d. d.ca_enable ≡ is_some d.camref) w.devs i e a.marked refl;
    }

Owned-Account :
    (w : World) (i : ℕ) (s : Pools) (d : Device)
    → i < length w.devs
    → Account w
    → Owned (others (λ d. d.tunerref) w.devs i) (others (λ d. d.camref) w.devs i) (s, d)
    → Account (put_back i s d w)
Owned-Account w i s d h a o = record {
  tuners = λ j. o.tuners j ∙ sym (owners-set (λ d. d.tunerref) w.devs i j d h);
  cams = λ j. o.cams j ∙ sym (owners-set (λ d. d.camref) w.devs i j d h);
  marked = All-set (λ d. d.ca_enable ≡ is_some d.camref) w.devs i d a.marked o.marked;
}

-- An operation of a device that keeps its own account keeps that of all.
pub put_back-Account :
    (ch : Channel) (w : World) (i : ℕ) (op : Pools → Device → Pools × Device)
    → i < length w.devs
    → ((rt rc : ℕ → ℕ) (s : Pools) (d : Device) → Owned rt rc (s, d) → Owned rt rc (op s d))
    → Account w
    → let (s', d') = op w.pools (get_or w.devs i (no_device ch)) in Account (put_back i s' d' w)
put_back-Account ch w i op h keeps a =
    Owned-Account w i _ _ h a
      (keeps _ _ w.pools (get_or w.devs i (no_device ch)) (Account-Owned ch w i h a))
