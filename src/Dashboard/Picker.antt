-- ===== src/Dashboard/Picker.antt =====
-- packages/dashboard-angular/src/components/window-picker.component.ts, as the dashboard of
-- dashboard.component.ts uses it: a click on a button emits its preset, which the dashboard takes
-- for its window.
use webalytics.Common.{
  String, Bool, true, false, List, [], ◌∷◌, map, ◌≡◌, refl, ap, arith, All, if◌then◌else◌,
}
use webalytics.Client.Types.{WindowSpec, w1h, w24h, w7d, w30d, w90d, range}
use webalytics.Client.Query.{Calendar}
use webalytics.Dashboard.Feed.{Dashboard}
use webalytics.Dashboard.Feed as Feed
use webalytics.Dashboard.Tiles.{marked}

module _ (C : Calendar) where
  open C use {Date}

  unfoldable pub presets : List (String × WindowSpec Date)
  presets = ("1H", w1h) ∷ ("24H", w24h) ∷ ("7D", w7d) ∷ ("30D", w30d) ∷ ("90D", w90d) ∷ []

  -- `isActive(v)`: a range is an object of its own, which no preset is.
  unfoldable pub is_active : WindowSpec Date → WindowSpec Date → Bool
  is_active active w1h = elim active [ w1h ↦ true | _ ↦ false ]
  is_active active w24h = elim active [ w24h ↦ true | _ ↦ false ]
  is_active active w7d = elim active [ w7d ↦ true | _ ↦ false ]
  is_active active w30d = elim active [ w30d ↦ true | _ ↦ false ]
  is_active active w90d = elim active [ w90d ↦ true | _ ↦ false ]
  is_active active (range a b) = false

  -- The buttons of the template, each with its attribute `data-active`.
  unfoldable pub buttons : WindowSpec Date → List (String × Bool)
  unfolding presets is_active
  buttons active = map (λ p. (p.0, is_active active p.1)) presets

  -- A click: `pick` emits the value of the button, and the dashboard's `onWindowChange` gets it.
  unfoldable pub click : String × WindowSpec Date → Dashboard C → Dashboard C
  click p d = Feed.on_window_change C p.1 d

  active_after :
      (w : WindowSpec Date) (d : Dashboard C) → (Feed.on_window_change C w d).active_window ≡ w
  unfolding Feed.on_window_change Feed.start
  active_after w d = ground arith

  abbrev pub labels : List (String × Bool) → List String
  labels [] = []
  labels ((l, b) ∷ bs) = if b then l ∷ labels bs else labels bs

  pickers_agree : (w : WindowSpec Date) → labels (buttons w) ≡ map (λ p. p.0) (marked C w)
  unfolding buttons marked
  pickers_agree (range a b) = refl
  pickers_agree w1h = refl
  pickers_agree w24h = refl
  pickers_agree w7d = refl
  pickers_agree w30d = refl
  pickers_agree w90d = refl

  -- After a click on a button, this button is the one that the picker marks, whatever happened to
  -- the dashboard before; and for every window, the buttons that it marks are those that the React
  -- picker marks.
  pub click_marks :
      (d : Dashboard C) (w : WindowSpec Date)
      → All (λ p. labels (buttons (click p d).active_window) ≡ p.0 ∷ []) presets
        × (labels (buttons w) ≡ map (λ p. p.0) (marked C w))
  unfolding click buttons
  click_marks d w = (
    (
      ap (λ v. labels (buttons v)) (active_after w1h d),
      (
        ap (λ v. labels (buttons v)) (active_after w24h d),
        (
          ap (λ v. labels (buttons v)) (active_after w7d d),
          (
            ap (λ v. labels (buttons v)) (active_after w30d d),
            (ap (λ v. labels (buttons v)) (active_after w90d d), tt),
          ),
        ),
      ),
    ),
    pickers_agree w,
  )
