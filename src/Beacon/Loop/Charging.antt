-- ===== src/Beacon/Loop/Charging.antt =====
-- When the beacon charges, and when it restarts.
use warehouse_digital_twin.Base.{
  ◌≡◌, refl, ap, sym, Bool, true, false, not, ◌&&◌, ◌||◌, if◌then◌else◌, ◌∙◌,
}
use warehouse_digital_twin.Base.Float.{Float}
use warehouse_digital_twin.Beacon.{Beacon, emit, publish_charging_goal, start_charging}
use warehouse_digital_twin.Beacon.Loop.{
  at_charging_pad, charge, drain, use_battery, seek_charger, update_battery,
}

want-off : (a b : Bool) → a ≡ true → b ≡ true → (w : Bool) → false ≡ (w && not (a && b))
want-off true true h k true = refl
want-off true true h k false = refl
want-off true false h k w = absurd (cc k)
want-off false b h k w = absurd (cc h)

want-on : (a b w : Bool) → b ≡ false → w ≡ (w && not (a && b))
want-on a true w h = absurd (cc h)
want-on true false true h = refl
want-on false false true h = refl
want-on a false false h = refl

want-stays : (a b w : Bool) → a ≡ false → w ≡ (w && not (a && b))
want-stays true b w h = absurd (cc h)
want-stays false b true h = refl
want-stays false b false h = refl

module _ (fl : Float) where
  open fl use {F, leb_f}

  -- The charging flag, and the wish to charge as a latch: set by a critical battery, and reset when
  -- the charge is complete.
  abbrev pub Latches : Beacon F → Beacon F → Type 0
  Latches s s' =
      (s'.charging ≡ (s.want_charge && at_charging_pad fl s))
      × (s'.want_charge ≡ (
          leb_f s'.battery s.parameters.critical
          || (s.want_charge && not (s'.charging && leb_f s.parameters.charge_complete s'.battery))))

  abbrev Used : Beacon F → Beacon F → Type 0
  Used s s' =
      (s'.parameters ≡ s.parameters)
      × (s'.charging ≡ s.charging)
      × (s'.want_charge
          ≡ (s.want_charge && not (s'.charging && leb_f s.parameters.charge_complete s'.battery)))

  Used-if :
      (s : Beacon F) (c : Bool) (a b : Beacon F)
      → (c ≡ true → Used s a)
      → (c ≡ false → Used s b)
      → Used s (if c then a else b)
  Used-if s true a b h k = h refl
  Used-if s false a b h k = k refl

  Used-use_battery : (dt : F) (s : Beacon F) → Used s (use_battery fl dt s)
  unfolding use_battery charge drain
  Used-use_battery dt s =
      Used-if s s.charging _ _
        (λ c.
          Used-if s (leb_f s.parameters.charge_complete _) _ _
            (λ k. (refl, refl, want-off s.charging _ c k s.want_charge))
            λ k. (refl, refl, want-on s.charging _ s.want_charge k))
        λ c.
          Used-if s _ _ _ (λ _. (refl, refl, want-stays s.charging _ s.want_charge c))
            λ _. (refl, refl, want-stays s.charging _ s.want_charge c)

  abbrev Wants : Bool → Beacon F → Beacon F → Type 0
  Wants w s s' = (s'.charging ≡ s.charging) × (s'.battery ≡ s.battery) × (s'.want_charge ≡ w)

  Wants-if :
      (w : Bool) (s : Beacon F) (c : Bool) (a b : Beacon F)
      → (c ≡ true → Wants w s a)
      → (c ≡ false → Wants w s b)
      → Wants w s (if c then a else b)
  Wants-if w s true a b h k = h refl
  Wants-if w s false a b h k = k refl

  Wants-start_charging : (s : Beacon F) → Wants true s (start_charging fl s)
  unfolding start_charging publish_charging_goal emit
  Wants-start_charging s =
      Wants-if true s s.want_charge s _ (λ w. (refl, refl, w)) λ _. (refl, refl, refl)

  Wants-seek_charger :
      (s : Beacon F)
      → Wants (leb_f s.battery s.parameters.critical || s.want_charge) s (seek_charger fl s)
  unfolding seek_charger
  Wants-seek_charger s =
      let low = leb_f s.battery s.parameters.critical in
      Wants-if (low || s.want_charge) s low _ s
        (λ k.
          let (c, b, w) = Wants-start_charging s in
          (c, b, w ∙ ap (λ x. x || s.want_charge) (sym k)))
        λ k. (refl, refl, ap (λ x. x || s.want_charge) (sym k))

  -- One tick of the battery decides charging: the robot charges exactly where it wants to and stands
  -- on the pad, and after the tick it wants to charge exactly when its battery is critical, or when
  -- it wanted to before and is not on the pad with a complete charge.
  pub update_battery-Latches : (dt : F) (s : Beacon F) → Latches s (update_battery fl dt s)
  unfolding update_battery
  update_battery-Latches dt s =
      let s0 = record s { charging = s.want_charge && at_charging_pad fl s } in
      let (p, c, w) = Used-use_battery dt s0 in
      let (d, b, v) = Wants-seek_charger (use_battery fl dt s0) in (d ∙ c, cc (p, c, w, d, b, v))
