-- ===== src/Device/Devices/Each.antt =====
-- What the loops of mcli.c over the devices do to each device, and that they keep the account of the
-- tuners and CAMs.
use vdr_plugin_mcli.Prelude.{
  ℕ, zero, suc, ◌+◌, ◌≤◌, ◌<◌, ◌≡◌, ◌≢◌, refl, sym, subst, ◌∙◌, Bool-cases, inl, inr, ◌==◌, arith,
  get_or, set, length, length-set, get_or-set_self, get_or-set_ne,
}
use vdr_plugin_mcli.Device.{Channel, Device, Pools, World}
use vdr_plugin_mcli.Device.Tune.{put_back, no_device}
use vdr_plugin_mcli.Device.Devices.{for_devs}
use vdr_plugin_mcli.Device.Ownership.{Owned}
use vdr_plugin_mcli.Device.Ownership.Account.{Account, put_back-Account}
use vdr_plugin_mcli.Device.Ownership.Steps.{dev_at}

module _ (ch : Channel) (op : ℕ → Pools → Device → Pools × Device) where
  -- The loop changes no device in front of its index.
  for_devs-before :
      (n i k : ℕ) (w : World) → k < i → dev_at ch k (for_devs ch op n i w) ≡ dev_at ch k w
  unfolding for_devs
  for_devs-before zero i k w h = refl
  for_devs-before (suc n) i k w h =
      for_devs-before n (suc i) k _ (omega (arith, h))
      ∙ get_or-set_ne w.devs i k _ (no_device ch) (λ e. omega (arith, h, e))

  -- What the body does to its device holds of each device behind the loop.
  pub for_devs-each :
      (Q : ℕ → Device → Type 0) (n i k : ℕ) (w : World)
      → ((j : ℕ) (s : Pools) (d : Device) → Q j (op j s d).1)
      → i ≤ k
      → k < i + n
      → k < length w.devs
      → Q k (dev_at ch k (for_devs ch op n i w))
  unfolding for_devs
  for_devs-each Q zero i k w q h h' h'' = absurd (omega (arith, h, h'))
  for_devs-each Q (suc n) i k w q h h' h'' =
      let r : Pools × Device = op i w.pools (dev_at ch i w) in
      let w' : World = put_back i r.0 r.1 w in
      elim (Bool-cases (i == k)) [
        | inl e ↦
            let same : i ≡ k = ground (arith, e) in
            let here : dev_at ch k w' ≡ r.1 =
              subst (λ m. get_or (set w.devs i r.1) m (no_device ch) ≡ r.1) same
                (get_or-set_self w.devs i r.1 (no_device ch) (omega (arith, same, h''))) in
            subst (Q k) (sym (for_devs-before n (suc i) k w' (omega (arith, same)) ∙ here))
              (subst (λ m. Q m r.1) same (q i w.pools (dev_at ch i w)))
        | inr e ↦
            let other : i ≢ k = ground (arith, e) in
            for_devs-each Q n (suc i) k w' q (omega (arith, h, other)) (omega (arith, h'))
              (omega (arith, h'', length-set w.devs i r.1))
      ]

  pub for_devs-Account :
      (n i : ℕ) (w : World)
      → ((j : ℕ) (rt rc : ℕ → ℕ) (s : Pools) (d : Device)
          → Owned rt rc (s, d)
          → Owned rt rc (op j s d))
      → i + n ≤ length w.devs
      → Account w
      → Account (for_devs ch op n i w) × (length (for_devs ch op n i w).devs ≡ length w.devs)
  unfolding for_devs
  for_devs-Account zero i w keeps h a = (a, refl)
  for_devs-Account (suc n) i w keeps h a =
      let r : Pools × Device = op i w.pools (dev_at ch i w) in
      let w' : World = put_back i r.0 r.1 w in
      let size = length-set w.devs i r.1 in
      let (a', e) =
        for_devs-Account n (suc i) w' keeps (omega (arith, h, size))
          (put_back-Account ch w i (op i) (omega (arith, h)) (keeps i) a) in
      (a', e ∙ size)
