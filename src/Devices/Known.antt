-- ===== src/Devices/Known.antt =====
-- turbobond/lan/devices.py: what a batch of observations leaves of the devices that are known.
use turbobond.Base.{
  ℕ, ◌≤◌, ◌≡◌, refl, subst, ap, ◌∙◌, false, Option, none, some, List, [], ◌∷◌, if◌then◌else◌,
  if_keeps, arith, Bool-cases, inl, inr,
}
use turbobond.Base.Text.{text_eq, text_eq_iff, is_empty}
use turbobond.Base.TextDict.{TextDict, text_lookup, text_insert, text_lookup-text_insert}
use Prim.Native.String.{String}
use turbobond.Devices.{
  ConnectedDevice, TrackedDevice, DeviceRegistry, fill, observe, key, merge_found, merge_one,
  merge_from, merge,
}

-- What stays of a device: its route, when it was first seen, a name and an address that are there, and
-- counters that do not fall.
pub record Kept {R : Type 0} (t u : TrackedDevice R) : Type 0 where
  pub same_route : u.route ≡ t.route
  pub same_first : u.first_seen ≡ t.first_seen
  pub same_name : is_empty (t.device.name) ≡ false → u.device.name ≡ t.device.name
  pub same_ip : is_empty (t.device.ip) ≡ false → u.device.ip ≡ t.device.ip
  pub rx_grows : t.device.rx_bytes ≤ u.device.rx_bytes
  pub tx_grows : t.device.tx_bytes ≤ u.device.tx_bytes

fill_full : (new old : String) → is_empty old ≡ false → fill new old ≡ old
unfolding fill
fill_full new old e = ground (arith, e)

module _ {R : Type 0} where
  Kept-refl : (t : TrackedDevice R) → Kept t t
  Kept-refl t = record {
    same_route = refl;
    same_first = refl;
    same_name = λ h. refl;
    same_ip = λ h. refl;
    rx_grows = omega arith;
    tx_grows = omega arith;
  }

  Kept-trans : (t u v : TrackedDevice R) → Kept t u → Kept u v → Kept t v
  Kept-trans t u v k l = record {
    same_route = l.same_route ∙ k.same_route;
    same_first = l.same_first ∙ k.same_first;
    same_name = λ h. l.same_name (ap is_empty (k.same_name h) ∙ h) ∙ k.same_name h;
    same_ip = λ h. l.same_ip (ap is_empty (k.same_ip h) ∙ h) ∙ k.same_ip h;
    rx_grows = omega (arith, k.rx_grows, l.rx_grows);
    tx_grows = omega (arith, k.tx_grows, l.tx_grows);
  }

  observe-Kept :
      (d : ConnectedDevice R) (s : String) (now : ℕ) (t : TrackedDevice R)
      → Kept t (observe d s now t)
  unfolding observe
  observe-Kept d s now t = record {
    same_route = refl;
    same_first = refl;
    same_name = fill_full (d.name) (t.device.name);
    same_ip = fill_full (d.ip) (t.device.ip);
    rx_grows = omega arith;
    tx_grows = omega arith;
  }

  -- Whatever is held under the key stays, in this sense.
  abbrev Stays : String → TextDict (TrackedDevice R) → TextDict (TrackedDevice R) → Type 0
  Stays k d e =
      (t : TrackedDevice R)
      → text_lookup k d ≡ some t
      → (u : TrackedDevice R) × (text_lookup k e ≡ some u) × Kept t u

  Stays-refl : (k : String) (d : TextDict (TrackedDevice R)) → Stays k d d
  Stays-refl k d t h = (t, h, Kept-refl t)

  Stays-trans :
      (k : String) (d e f : TextDict (TrackedDevice R)) → Stays k d e → Stays k e f → Stays k d f
  Stays-trans k d e f p q t h =
      let (u, hu, ku) = p t h in let (v, hv, kv) = q u hu in (v, hv, Kept-trans t u v ku kv)

  text_insert-Stays :
      (j k : String) (v : TrackedDevice R) (d : TextDict (TrackedDevice R))
      → ((t : TrackedDevice R) → text_lookup k d ≡ some t → Kept t v)
      → Stays j d (text_insert k v d)
  text_insert-Stays j k v d f t h = elim (Bool-cases (text_eq k j)) [
    | inl e ↦
        let same : k ≡ j = ground (arith, e, text_eq_iff k j) in
        (
          v,
          text_lookup-text_insert k j v d ∙ ap (λ b. if b then some v else text_lookup j d) e,
          f t (ap (λ x. text_lookup x d) same ∙ h),
        )
    | inr e ↦ (
      t,
      text_lookup-text_insert k j v d ∙ ap (λ b. if b then some v else text_lookup j d) e ∙ h,
      Kept-refl t,
    )
  ]

  merge_found-Stays :
      (j k : String) (d : ConnectedDevice R) (s : String) (now : ℕ) (o : Option (TrackedDevice R))
      (n : ℕ) (g : DeviceRegistry R)
      → text_lookup k (g.devices) ≡ o
      → Stays j (g.devices) ((merge_found k d s now o (n, g)).1.devices)
  unfolding merge_found
  merge_found-Stays j k d s now none n g e =
      text_insert-Stays j k _ (g.devices) (λ t q. absurd (ground (arith, e, q)))
  merge_found-Stays j k d s now (some u) n g e =
      text_insert-Stays j k (observe d s now u) (g.devices) (λ t q.
        let same : u ≡ t = ground (arith, e, q) in
        subst (λ x. Kept x (observe d s now u)) same (observe-Kept d s now u))

  merge_one-Stays :
      (j : String) (lower : String → String) (d : ConnectedDevice R) (s : String) (now n : ℕ)
      (g : DeviceRegistry R)
      → Stays j (g.devices) ((merge_one lower d s now (n, g)).1.devices)
  unfolding merge_one
  merge_one-Stays j lower d s now n g =
      let k = key lower d in
      if_keeps (λ (r : ℕ × DeviceRegistry R). Stays j (g.devices) (r.1.devices)) (is_empty k) (n, g)
        (merge_found k d s now (text_lookup k (g.devices)) (n, g)) (Stays-refl j (g.devices))
        (merge_found-Stays j k d s now (text_lookup k (g.devices)) n g refl)

  merge_from-Stays :
      (j : String) (lower : String → String) (ds : List (ConnectedDevice R)) (s : String)
      (now n : ℕ) (g : DeviceRegistry R)
      → Stays j (g.devices) ((merge_from lower ds s now (n, g)).1.devices)
  unfolding merge_from
  merge_from-Stays j lower [] s now n g = Stays-refl j (g.devices)
  merge_from-Stays j lower (d ∷ ds) s now n g =
      let (n1, g1) = merge_one lower d s now (n, g) in
      Stays-trans j (g.devices) (g1.devices) ((merge_from lower ds s now (n1, g1)).1.devices)
        (merge_one-Stays j lower d s now n g) (merge_from-Stays j lower ds s now n1 g1)

  -- A batch of observations leaves every known device in the registry, with its route and the time when
  -- it was first seen; a name or an address that is there is not replaced, and the counters do not fall.
  pub merge-Kept :
      (lower : String → String) (ds : List (ConnectedDevice R)) (source k : String) (now : ℕ)
      (g : DeviceRegistry R) (t : TrackedDevice R)
      → text_lookup k (g.devices) ≡ some t
      → (u : TrackedDevice R) × (text_lookup k ((merge lower ds source now g).1.devices) ≡ some u)
        × Kept t u
  unfolding merge
  merge-Kept lower ds source k now g t h = merge_from-Stays k lower ds source now 0 g t h
