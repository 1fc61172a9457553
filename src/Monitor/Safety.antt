-- ===== src/Monitor/Safety.antt =====
-- The obstacle monitor against a count of the short beams.
use warehouse_digital_twin.Base.{
  ℕ, suc, ◌+◌, ◌≡◌, refl, ap, ◌∙◌, ◌⊎◌, inl, inr, Bool, true, false, ◌&&◌, List, [], ◌∷◌, ◌++◌,
  if◌then◌else◌, arith, ltb, Bool-cases,
}
use warehouse_digital_twin.Base.Int.{pos, leb_ℤ}
use warehouse_digital_twin.Base.Float.{Float}
use warehouse_digital_twin.Monitor.{
  Angles, Twist, Scan, Monitor, is_short, check_beams, check_obstacle, scan_callback, cmd_callback,
  publish_cmd, forward_cmd, Event, scanned, commanded, timer, handle, run,
}

module _ (fl : Float) (an : Angles fl.F) where
  open fl use {F, lit, sub, leb_f}

  -- The number of short beams, from beam i on.
  abbrev pub short_beams : Scan F → Monitor F → ℕ → List F → ℕ
  short_beams scan s i [] = 0
  short_beams scan s i (r ∷ rs) =
      (if is_short fl an scan s i r then 1 else 0) + short_beams scan s (suc i) rs

  -- There is a short beam, and there are at least `min_safe_ranges`.
  abbrev pub is_blocking : Monitor F → ℕ → Bool
  is_blocking s n = ltb 0 n && leb_ℤ s.min_safe (pos n)

  -- Short beams enough: the loop stops, and the count has reached the threshold.
  counts :
      (b rest counted : Bool) (s : Monitor F) (n k : ℕ)
      → leb_ℤ s.min_safe (pos (suc n)) ≡ true
      → rest ≡ is_blocking s (n + k)
      → (if b then (if leb_ℤ s.min_safe (pos (suc n)) then true else counted) else rest)
        ≡ is_blocking s (n + ((if b then 1 else 0) + k))
  counts b rest counted s n k h e = ground arith

  check_beams-is_blocking :
      (scan : Scan F) (s : Monitor F) (i n : ℕ) (rs : List F)
      → (n ≡ 0) ⊎ (leb_ℤ s.min_safe (pos n) ≡ false)
      → check_beams fl an scan s i n rs ≡ is_blocking s (n + short_beams scan s i rs)
  unfolding check_beams
  check_beams-is_blocking scan s i n [] h = ground arith
  check_beams-is_blocking scan s i n (r ∷ rs) h =
      elim (Bool-cases (leb_ℤ s.min_safe (pos (suc n)))) [
        | inl m ↦
            counts (is_short fl an scan s i r) _ _ s n (short_beams scan s (suc i) rs) m
              (check_beams-is_blocking scan s (suc i) n rs h)
        | inr m ↦ ground (
          arith,
          m,
          check_beams-is_blocking scan s (suc i) (suc n) rs (inr m),
          check_beams-is_blocking scan s (suc i) n rs h,
        )
      ]

  -- The check of a scan is a count: the path is blocked exactly where at least one beam, and at
  -- least `min_safe_ranges` of them, is short.
  pub check_obstacle-is_blocking :
      (scan : Scan F) (s : Monitor F)
      → check_obstacle fl an scan s ≡ is_blocking s (short_beams scan s 0 scan.ranges)
  unfolding check_obstacle
  check_obstacle-is_blocking scan s =
      check_beams-is_blocking scan s 0 0 scan.ranges (inl refl) ∙ ap (is_blocking s) (omega arith)

  fresh :
      (c b : Bool) (x y : Twist F)
      → (if (if c then b else false) then x else y) ≡ (if c && b then x else y)
  fresh true b x y = refl
  fresh false b x y = refl

  -- No event of the list is a scan.
  abbrev pub NoScan : List (F × Event F) → Type 0
  NoScan [] = Unit
  NoScan ((now, scanned _) ∷ es) = ⊥
  NoScan ((now, commanded _) ∷ es) = NoScan es
  NoScan ((now, timer) ∷ es) = NoScan es

  -- The last command among the events, else the one given.
  abbrev pub last_command : Twist F → List (F × Event F) → Twist F
  last_command cmd [] = cmd
  last_command cmd ((now, scanned _) ∷ es) = last_command cmd es
  last_command cmd ((now, commanded c) ∷ es) = last_command c es
  last_command cmd ((now, timer) ∷ es) = last_command cmd es

  abbrev pub stopped : Twist F
  stopped = record { linear = lit 0 0; angular = lit 0 0 }

  -- What the next tick reads.
  abbrev Reads : F → F → Bool → Twist F → Monitor F → Type 0
  Reads timeout t b cmd s =
      (s.scan_timeout ≡ timeout) × (s.last_scan ≡ t) × (s.blocked ≡ b) × (s.last_cmd ≡ cmd)

  Reads-run :
      (es : List (F × Event F)) (s : Monitor F)
      → NoScan es
      → Reads s.scan_timeout s.last_scan s.blocked (last_command s.last_cmd es) (run fl an es s)
  unfolding run handle cmd_callback forward_cmd publish_cmd
  Reads-run [] s h = (refl, refl, refl, refl)
  Reads-run ((now, scanned _) ∷ es) s h = absurd h
  Reads-run ((now, commanded c) ∷ es) s h = Reads-run es (cmd_callback fl an c s) h
  Reads-run ((now, timer) ∷ es) s h = Reads-run es (forward_cmd fl an now s) h

  -- What the monitor publishes on a tick, after a scan at time t and any commands and ticks since:
  -- a stop where the scan is not older than the timeout and is blocked by the count of its short
  -- beams, and otherwise the last command that it has heard, unchanged.
  pub forward_cmd-run :
      (t now : F) (scan : Scan F) (es : List (F × Event F)) (s : Monitor F)
      → NoScan es
      → let r = run fl an es (scan_callback fl an t scan s) in
        (forward_cmd fl an now r).out
        ≡ r.out
          ++ (if leb_f (sub now t) s.scan_timeout
                && is_blocking s (short_beams scan s 0 scan.ranges)
              then stopped
              else last_command s.last_cmd es)
            ∷ []
  unfolding forward_cmd publish_cmd scan_callback
  forward_cmd-run t now scan es s h =
      let r = run fl an es (scan_callback fl an t scan s) in
      let (e, l, b, c) = Reads-run es (scan_callback fl an t scan s) h in
      ap (λ w. r.out ++ w ∷ [])
        (fresh (leb_f (sub now r.last_scan) r.scan_timeout) r.blocked stopped r.last_cmd
          ∙ cc (e, l, b ∙ check_obstacle-is_blocking scan s, c))
