-- ===== src/Web/Preview/Closing.antt =====
-- web/src/hooks/useFullscreenDialog.ts: a closing preview ends closed.
use mailpeek.Prelude.{
  ◌⊎◌, inl, inr, if◌then◌else◌, if-cases, ℕ, ◌≡◌, refl, sym, ap, ◌∙◌, Bool, true, false, not, ◌||◌,
  Option, List, [], ◌∷◌, if◌then◌else◌, if-cases,
}
use mailpeek.Web.Preview.{
  FullscreenState, closed, opened, closing, Preview, Event, width_set, open_asked, close_asked,
  animation_finished, timer_fired, initial, has_clip, open_from, close_from, closed_now,
  start_closing, step, run,
}

abbrev pub is_ending : FullscreenState → Bool
is_ending closing = true
is_ending _ = false

abbrev pub is_closed : FullscreenState → Bool
is_closed closed = true
is_closed _ = false

-- The dialog is modal unless the preview is closed; the timer runs and the end of the animation is
-- heard exactly while it closes.
pub record IsTidy (p : Preview) : Type 0 where
  pub modal : p.is_modal ≡ not (is_closed p.fullscreen)
  pub timer : p.has_timer ≡ is_ending p.fullscreen
  pub hears : p.heard ≡ is_ending p.fullscreen

closed_now-IsTidy : (p : Preview) → IsTidy (closed_now p)
unfolding closed_now
closed_now-IsTidy p = record { modal = refl; timer = refl; hears = refl }

open_from-IsTidy :
    (f : FullscreenState) (p : Preview) → p.fullscreen ≡ f → IsTidy p → IsTidy (open_from f p)
open_from-IsTidy closed p e h = record {
  modal = refl;
  timer = h.timer ∙ ap is_ending e;
  hears = h.hears ∙ ap is_ending e;
}
open_from-IsTidy opened p e h = h
open_from-IsTidy closing p e h = record {
  modal = h.modal ∙ ap (λ f. not (is_closed f)) e;
  timer = refl;
  hears = refl;
}

start_closing-IsTidy :
    (reduced : Bool) (rect : Option (ℕ × ℕ)) (p : Preview)
    → p.fullscreen ≡ closing
    → p.is_modal ≡ true
    → IsTidy (start_closing reduced rect p)
start_closing-IsTidy reduced rect p e m =
    if-cases IsTidy (reduced || not (has_clip rect)) _ _ (closed_now-IsTidy p) (record {
      modal = m ∙ sym (ap (λ f. not (is_closed f)) e);
      timer = sym (ap is_ending e);
      hears = sym (ap is_ending e);
    })

close_from-IsTidy :
    (f : FullscreenState) (reduced : Bool) (rect : Option (ℕ × ℕ)) (p : Preview)
    → p.fullscreen ≡ f
    → IsTidy p
    → IsTidy (close_from f reduced rect p)
close_from-IsTidy closed reduced rect p e h = h
close_from-IsTidy opened reduced rect p e h =
    start_closing-IsTidy reduced rect (record p { fullscreen = closing }) refl
      (h.modal ∙ ap (λ f. not (is_closed f)) e)
close_from-IsTidy closing reduced rect p e h = h

step-IsTidy : (p : Preview) (e : Event) → IsTidy p → IsTidy (step p e)
unfolding step
step-IsTidy p (width_set width) h = record { modal = h.modal; timer = h.timer; hears = h.hears }
step-IsTidy p open_asked h = open_from-IsTidy p.fullscreen p refl h
step-IsTidy p (close_asked reduced rect) h = close_from-IsTidy p.fullscreen reduced rect p refl h
step-IsTidy p animation_finished h = if-cases IsTidy p.heard _ _ (closed_now-IsTidy p) h
step-IsTidy p timer_fired h = if-cases IsTidy p.has_timer _ _ (closed_now-IsTidy p) h

run_from-IsTidy : (p : Preview) (es : List Event) → IsTidy p → IsTidy (run p es)
run_from-IsTidy p [] h = h
run_from-IsTidy p (e ∷ es) h = run_from-IsTidy (step p e) es (step-IsTidy p e h)

-- The preview without its dialog.
abbrev pub gone : Preview → Preview
gone p = record {
  width = p.width;
  fullscreen = closed;
  is_modal = false;
  has_timer = false;
  heard = false;
}

closed_now-gone : (p : Preview) → closed_now p ≡ gone p
unfolding closed_now
closed_now-gone p = refl

-- A preview that was asked to close is closed, or it closes.
close_asked-ends :
    (p : Preview) (reduced : Bool) (rect : Option (ℕ × ℕ))
    → let q = step p (close_asked reduced rect) in
      (q.fullscreen ≡ closed) ⊎ (q.fullscreen ≡ closing)
unfolding step
close_asked-ends p reduced rect = asked p.fullscreen refl
  where
    asked :
        (f : FullscreenState)
        → p.fullscreen ≡ f
        → ((close_from f reduced rect p).fullscreen ≡ closed)
          ⊎ ((close_from f reduced rect p).fullscreen ≡ closing)
    asked closed e = inl e
    asked opened e =
        if-cases (λ (q : Preview). (q.fullscreen ≡ closed) ⊎ (q.fullscreen ≡ closing))
          (reduced || not (has_clip rect)) _ _
          (inl (
            ap (λ (q : Preview). q.fullscreen)
              (closed_now-gone (record p { fullscreen = closing }))))
          (inr refl)
    asked closing e = inr e

timer_fired-gone :
    (p : Preview) → IsTidy p → step p timer_fired ≡ (if is_ending p.fullscreen then gone p else p)
unfolding step
timer_fired-gone p h =
    ap (λ b. if b then closed_now p else p) h.timer
    ∙ ap (λ q. if is_ending p.fullscreen then q else p) (closed_now-gone p)

animation_finished-gone :
    (p : Preview)
    → IsTidy p
    → step p animation_finished ≡ (if is_ending p.fullscreen then gone p else p)
unfolding step
animation_finished-gone p h =
    ap (λ b. if b then closed_now p else p) h.hears
    ∙ ap (λ q. if is_ending p.fullscreen then q else p) (closed_now-gone p)

gone-closed :
    (p : Preview)
    → (p.fullscreen ≡ closed) ⊎ (p.fullscreen ≡ closing)
    → (if is_ending p.fullscreen then gone p else p).fullscreen ≡ closed
gone-closed p (inl e) = ap (λ f. (if is_ending f then gone p else p).fullscreen) e ∙ e
gone-closed p (inr e) = ap (λ f. (if is_ending f then gone p else p).fullscreen) e

-- After any events: the dialog is modal unless the preview is closed, and the timer runs and the end of
-- the animation is heard exactly while it closes. Each of these two takes a closing preview to the
-- closed one, without dialog, timer and animation, and leaves any other as it is. And a preview that is
-- asked to close, whether motion is reduced or not, is closed once the timer is over.
pub run-IsTidy :
    (es : List Event) (reduced : Bool) (rect : Option (ℕ × ℕ))
    → let p = run initial es in
      IsTidy p
      × (step p animation_finished ≡ (if is_ending p.fullscreen then gone p else p))
      × (step p timer_fired ≡ (if is_ending p.fullscreen then gone p else p))
      × ((step (step p (close_asked reduced rect)) timer_fired).fullscreen ≡ closed)
run-IsTidy es reduced rect =
    let p = run initial es in
    let h = run_from-IsTidy initial es (record { modal = refl; timer = refl; hears = refl }) in
    let q = step p (close_asked reduced rect) in
    (
      h,
      animation_finished-gone p h,
      timer_fired-gone p h,
      ap (λ (r : Preview). r.fullscreen)
            (timer_fired-gone q (step-IsTidy p (close_asked reduced rect) h))
          ∙ gone-closed q (close_asked-ends p reduced rect),
    )
