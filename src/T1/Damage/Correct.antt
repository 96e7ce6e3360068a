-- ===== src/T1/Damage/Correct.antt =====
-- `changed_region` against the pixels that differ.
use sony_prs.Base.{
  ℕ, ◌+◌, ◌*◌, ◌≤◌, ◌<◌, ◌≡◌, ◌≢◌, ◌⊎◌, inl, inr, subst, true, false, arith, Bool-cases, List,
  length, none, some, ok, err,
}
use sony_prs.T1.{u32_max}
use sony_prs.T1.Region.{
  DisplayRegion, DamageOptions, default_options, expand_region, Covers, Covers-expand_region,
  IsWithin, expand_region_default,
}
use sony_prs.T1.Damage.{Error, Bounds, pixel_differs, to_region, changed_region}
use sony_prs.T1.Damage.Scan.{
  Encloses, scanned, scanned-Encloses, scanned_smallest, scanned-IsFilled,
}

width-le : (width height : ℕ) → 0 < height → width ≤ width * height
width-le width height h = grind arith

height-le : (width height : ℕ) → 0 < width → height ≤ width * height
height-le width height h = grind arith

Covers-to_region : (b : Bounds) (x y : ℕ) → Encloses b x y → Covers (to_region b) x y
Covers-to_region b x y e = record {
  left = omega arith;
  right = omega arith;
  top = omega arith;
  bottom = omega arith;
}

Encloses-edges :
    (c : DisplayRegion) (x y : ℕ)
    → Covers c x y
    → Encloses
        (record { left = c.left; top = c.top; right = c.left + c.width; bottom = c.top + c.height })
        x
        y
Encloses-edges c x y h = record { left = h.left; right = h.right; top = h.top; bottom = h.bottom }

module _ (current previous : List ℕ) (width height : ℕ) (options : DamageOptions) where
  abbrev bounds : Bounds
  bounds = scanned (pixel_differs current previous width) width height

  -- The three ways out of `changed_region`.
  some_cases :
      (r : DisplayRegion)
      → changed_region current previous width height options ≡ ok (some r)
      → (width * height ≤ u32_max)
        × (0 < width)
        × (0 < height)
        × (bounds.left ≢ width)
        × (expand_region (to_region bounds) width height options ≡ r)
  unfolding changed_region
  some_cases r h = ground arith

  none_cases :
      changed_region current previous width height options ≡ ok none
      → (width ≡ 0) ⊎ (height ≡ 0) ⊎ (bounds.left ≡ width)
  unfolding changed_region
  none_cases h = ground arith

  -- A changed pixel of the screen is in the region that is returned, whatever the padding and
  -- the alignment.
  pub changed_region-Covers :
      (r : DisplayRegion) (x y : ℕ)
      → changed_region current previous width height options ≡ ok (some r)
      → x < width
      → y < height
      → pixel_differs current previous width x y ≡ true
      → Covers r x y
  changed_region-Covers r x y h hx hy d =
      let (small, _, _, _, eq) = some_cases r h in
      subst (λ (q : DisplayRegion). Covers q x y) eq
        (Covers-expand_region (to_region bounds) width height options x y
          (omega (arith, width-le width height)) (omega (arith, height-le width height)) hx hy
          (Covers-to_region bounds x y (scanned-Encloses _ width height x y hx hy d)))

  -- Where no region is returned, no pixel of the screen has changed.
  pub changed_region-none :
      (x y : ℕ)
      → changed_region current previous width height options ≡ ok none
      → x < width
      → y < height
      → pixel_differs current previous width x y ≡ false
  changed_region-none x y h hx hy = elim (Bool-cases (pixel_differs current previous width x y)) [
    | inr same ↦ same
    | inl d ↦
        let e = scanned-Encloses (pixel_differs current previous width) width height x y hx hy d in
        absurd (omega (arith, none_cases h, e))
  ]

module _ (current previous : List ℕ) (width height : ℕ) where
  -- With the default options, any region of the screen that holds each changed pixel holds the
  -- returned region: it is the smallest.
  pub changed_region_smallest :
      (r c : DisplayRegion)
      → changed_region current previous width height default_options ≡ ok (some r)
      → ((x y : ℕ)
          → x < width
          → y < height
          → pixel_differs current previous width x y ≡ true
          → Covers c x y)
      → IsWithin c width height
      → (c.left ≤ r.left)
        × (r.left + r.width ≤ c.left + c.width)
        × (c.top ≤ r.top)
        × (r.top + r.height ≤ c.top + c.height)
  changed_region_smallest r c h all within =
      let (small, w, t, found, eq) = some_cases current previous width height default_options r h in
      let differs = pixel_differs current previous width in
      let b = scanned differs width height in
      let edges : Bounds = record {
        left = c.left;
        top = c.top;
        right = c.left + c.width;
        bottom = c.top + c.height;
      } in
      let wide =
        scanned_smallest differs width height edges
          (λ x y hx hy d. Encloses-edges c x y (all x y hx hy d)) (omega arith) (omega arith) in
      let filled = scanned-IsFilled differs width height in
      let fits : IsWithin (to_region b) width height = record {
        right = omega arith;
        bottom = omega arith;
      } in
      let exact =
        expand_region_default (to_region b) width height (omega (arith, width-le width height))
          (omega (arith, height-le width height)) fits in
      rw (← eq, exact) (omega arith)

  -- Images of the right size are never refused, on a screen whose image fits `usize`.
  pub changed_region_total :
      (options : DamageOptions)
      → width * height * 2 ≤ u32_max
      → length current ≡ width * height * 2
      → length previous ≡ width * height * 2
      → (e : Error) → changed_region current previous width height options ≢ err e
  unfolding changed_region
  changed_region_total options h k l e = ground arith
