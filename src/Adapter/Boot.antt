-- ===== src/Adapter/Boot.antt =====
-- packages/tracker/src/umd.ts: when the script starts its tracker. A script that runs while the document
-- is loading waits for `DOMContentLoaded`, at which no script is the running one.
use webalytics.Common.{
  Bool, true, false, not, Option, none, some, List, [], ◌∷◌, ◌++◌, ◌≡◌, refl, ap, ◌∙◌, arith, All,
  if◌then◌else◌,
}
use webalytics.Tracker.Browser.{Globals}
use webalytics.Tracker.State.{State}
use webalytics.Tracker.Types.{InitConfig}
use webalytics.Tracker.Core as Core
use webalytics.Adapter.Script.{Dataset, Scripts, auto_init}
use webalytics.Adapter.RoundTrip.{IsTaggable, IsOther, attributes_of, script_roundtrip}

-- What the browser tells the script: it runs it, in a document that is loading or not, or the
-- document is there.
pub data BootSignal : Type 0 where
  script_runs : (loading : Bool) → BootSignal
  dom_content_loaded : BootSignal

pub record Boot (V : Type 0) : Type 0 where
  pub listening : Bool
  pub tracker : Option (State V)

-- The document is there again, and again.
abbrev pub IsReady : (Option Scripts × Globals) × BootSignal → Type 0
IsReady (at, script_runs loading) = ⊥
IsReady (at, dom_content_loaded) = Unit

module _ {V : Type 0} where
  abbrev pub not_booted : Boot V
  not_booted = record { listening = false; tracker = none }

  -- A tracker that was started stays; otherwise `window.webalytics` has `init` alone.
  abbrev pub or_before : Option (State V) → Option (State V) → Option (State V)
  or_before none before = before
  or_before (some t) before = some t

  -- The end of the script, and its listener, which the browser calls once.
  unfoldable pub boot : Bool → Option Scripts → Globals → BootSignal → Boot V → Boot V
  boot has_window doc g (script_runs loading) s =
      if not has_window
      then s
      else if loading
      then record s { listening = true }
      else record s { tracker = or_before (auto_init has_window doc g) s.tracker }
  boot has_window doc g dom_content_loaded s =
      if s.listening
      then record { listening = false; tracker = or_before (auto_init has_window doc g) s.tracker }
      else s

  unfoldable pub boot_all : List ((Option Scripts × Globals) × BootSignal) → Boot V → Boot V
  unfolding boot
  boot_all [] s = s
  boot_all (((doc, g), x) ∷ xs) s = boot_all xs (boot true doc g x s)

  or_before-none : (o : Option (State V)) → or_before o none ≡ o
  or_before-none none = refl
  or_before-none (some t) = refl

  ignored :
      (doc : Option Scripts) (g : Globals) (s : Boot V)
      → s.listening ≡ false
      → boot true doc g dom_content_loaded s ≡ s
  unfolding boot
  ignored doc g s h = ground arith

  silent :
      (xs : List ((Option Scripts × Globals) × BootSignal)) (s : Boot V)
      → All IsReady xs
      → s.listening ≡ false
      → boot_all xs s ≡ s
  unfolding boot_all
  silent [] s r h = refl
  silent (((doc, g), script_runs b) ∷ xs) s (r, rs) h = elim r [ ]
  silent (((doc, g), dom_content_loaded) ∷ xs) s (r, rs) h =
      ap (boot_all xs) (ignored doc g s h) ∙ silent xs s rs h

  -- A script that runs while the document is loading starts its tracker at the first
  -- `DOMContentLoaded`, and never again; since no script is the running one then, the tracker is
  -- that of the configuration in the first script of the document with a site, whatever the
  -- script's own tag says.
  pub deferred_boot :
      (own : Option Dataset) (early before after : List (Option Dataset)) (c : InitConfig)
      (g h : Globals) (again : List ((Option Scripts × Globals) × BootSignal))
      → All IsReady again
      → IsTaggable c
      → All IsOther before
      → let seen : Option Scripts = some (record { current_script = some own; all = early }) in
        let there : Option Scripts =
          some (record { current_script = none; all = before ++ some (attributes_of c) ∷ after }) in
        (boot_all
          (((seen, g), script_runs true) ∷ ((there, h), dom_content_loaded) ∷ again)
          not_booted).tracker
        ≡ some (Core.init c h)
  unfolding boot_all
  deferred_boot own early before after c g h again r said other =
      ap (λ s. s.tracker) (silent again _ r refl)
      ∙ or_before-none _
      ∙ (script_roundtrip c h before after said other).1
