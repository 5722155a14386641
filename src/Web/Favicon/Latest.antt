-- ===== src/Web/Favicon/Latest.antt =====
-- web/src/hooks/useFaviconBadge.ts: the icon is that of the count.
use mailpeek.Prelude.{
  ℕ, zero, suc, ◌≡◌, refl, sym, ap, subst, ◌∙◌, Bool, true, false, not, ◌&&◌, Option, none, some,
  List, [], ◌∷◌, ◌==◌, All, Text, if-cases,
}
use mailpeek.Web.Favicon.{
  Outcome, drawn, Drawing, Icon, as_served, plain, badge, Favicon, Event, count_changed, ended,
  cancel_latest, drawing_at, mark, outcome_of, is_over, show_drawn, end_at, end_drawing, title_for,
  show_count, step, run, mounted,
}

abbrev AllCancelled : List Drawing → Type 0
AllCancelled ds = All (λ (d : Drawing). d.is_cancelled ≡ true) ds

-- How far the drawing for the count has come.
pub HasOutcome : Outcome → ℕ → Icon → Type 0
HasOutcome drawn count icon = icon ≡ badge count
HasOutcome _ count icon = Unit

-- The icon is plain for a count of 0; for another one the latest drawing is for the count, not
-- cancelled, and the icon once it is done; all other drawings are cancelled.
pub IsLatest : (count : ℕ) → Icon → List Drawing → Type 0
IsLatest zero icon ds = (icon ≡ plain) × AllCancelled ds
IsLatest (suc n) icon [] = false ≡ true
IsLatest (suc n) icon (d ∷ ds) =
    (d.count ≡ suc n)
    × (d.is_cancelled ≡ false)
    × HasOutcome d.outcome (suc n) icon
    × AllCancelled ds

mark-AllCancelled :
    (o : Outcome) (ds : List Drawing) (i : ℕ) → AllCancelled ds → AllCancelled (mark o ds i)
mark-AllCancelled o [] i h = tt
mark-AllCancelled o (d ∷ ds) zero h = h
mark-AllCancelled o (d ∷ ds) (suc i) h = (h.0, mark-AllCancelled o ds i h.1)

cancelled-at :
    (ds : List Drawing) (i : ℕ) (d : Drawing)
    → AllCancelled ds
    → drawing_at ds i ≡ some d
    → d.is_cancelled ≡ true
cancelled-at [] i d h e = cc
cancelled-at (c ∷ ds) zero d h e = let b = h.0 in cc
cancelled-at (c ∷ ds) (suc i) d h e = cancelled-at ds i d h.1 e

cancel_latest-AllCancelled :
    (count : ℕ) (icon : Icon) (ds : List Drawing)
    → IsLatest count icon ds
    → AllCancelled (cancel_latest ds)
unfolding IsLatest
cancel_latest-AllCancelled zero icon [] h = tt
cancel_latest-AllCancelled zero icon (d ∷ ds) h = (refl, h.1.1)
cancel_latest-AllCancelled (suc n) icon [] h = tt
cancel_latest-AllCancelled (suc n) icon (d ∷ ds) h = (refl, h.3)

abbrev IsLatestIn : Favicon → Type 0
IsLatestIn f = IsLatest f.count f.icon f.drawings

-- The end of a cancelled drawing leaves the icon.
show_cancelled :
    (d : Drawing) (succeeded : Bool) (f : Favicon)
    → d.is_cancelled ≡ true
    → show_drawn d succeeded f ≡ f
show_cancelled d true f c = rw c refl
show_cancelled d false f c = refl

end_cancelled :
    (P : Favicon → Type 0) (o : Option Drawing) (i : ℕ) (succeeded : Bool) (f : Favicon)
    → ((d : Drawing) → o ≡ some d → d.is_cancelled ≡ true)
    → P f
    → P (record f { drawings = mark (outcome_of succeeded) f.drawings i })
    → P (end_at o i succeeded f)
end_cancelled P none i succeeded f c still marked = still
end_cancelled P (some d) i succeeded f c still marked =
    if-cases P (is_over d.outcome) _ _ still
      (subst P (sym (show_cancelled d succeeded _ (c d refl))) marked)

show_latest :
    (n : ℕ) (d : Drawing) (ds : List Drawing) (succeeded : Bool) (f : Favicon)
    → IsLatest (suc n) f.icon (d ∷ ds)
    → IsLatestIn (
        show_drawn d succeeded
          (record f { count = suc n; drawings = record d { outcome = outcome_of succeeded } ∷ ds }))
unfolding IsLatest HasOutcome
show_latest n d ds false f h = (h.0, h.1, tt, h.3)
show_latest n d ds true f h =
    let g = record f { count = suc n; drawings = record d { outcome = drawn } ∷ ds } in
    let e : show_drawn d true g ≡ record g { icon = badge d.count } = rw (h.1) refl in
    subst IsLatestIn (sym e) (h.0, h.1, ap badge h.0, h.3)

-- A list of drawings as that of the state it stands in.
abbrev with_drawings : ℕ → List Drawing → Favicon → Favicon
with_drawings count ds f = record f { count = count; drawings = ds }

end_at-IsLatest :
    (count : ℕ) (ds : List Drawing) (i : ℕ) (succeeded : Bool) (f : Favicon)
    → IsLatest count f.icon ds
    → IsLatestIn (end_at (drawing_at ds i) i succeeded (with_drawings count ds f))
unfolding IsLatest
end_at-IsLatest zero ds i succeeded f h =
    end_cancelled IsLatestIn (drawing_at ds i) i succeeded (with_drawings 0 ds f)
      (λ d e. cancelled-at ds i d h.1 e) h (h.0, mark-AllCancelled (outcome_of succeeded) ds i h.1)
end_at-IsLatest (suc n) [] i succeeded f h = h
end_at-IsLatest (suc n) (d ∷ ds) zero succeeded f h =
    if-cases IsLatestIn (is_over d.outcome) _ _ h (show_latest n d ds succeeded f h)
end_at-IsLatest (suc n) (d ∷ ds) (suc i) succeeded f h =
    end_cancelled IsLatestIn (drawing_at ds i) (suc i) succeeded (with_drawings (suc n) (d ∷ ds) f)
      (λ c e. cancelled-at ds i c h.3 e) h
      (h.0, h.1, h.2, mark-AllCancelled (outcome_of succeeded) ds i h.3)

-- An end of a drawing leaves the count and the title.
end_at-title :
    (o : Option Drawing) (i : ℕ) (succeeded : Bool) (f : Favicon)
    → ((end_at o i succeeded f).title ≡ f.title) × ((end_at o i succeeded f).count ≡ f.count)
end_at-title none i succeeded f = (refl, refl)
end_at-title (some d) i succeeded f =
    if-cases (λ (g : Favicon). (g.title ≡ f.title) × (g.count ≡ f.count)) (is_over d.outcome) _ _
      (refl, refl)
      (if-cases (λ (g : Favicon). (g.title ≡ f.title) × (g.count ≡ f.count))
        (succeeded && not d.is_cancelled) _ _ (refl, refl) (refl, refl))

module _ (show : ℕ → Text) (title : Text) where
  abbrev Agrees : Favicon → Type 0
  Agrees f = (f.title ≡ title_for show title f.count) × IsLatestIn f

  show_count-Agrees :
      (count : ℕ) (ds : List Drawing) (icon : Icon)
      → AllCancelled ds
      → Agrees (show_count show title count ds icon)
  unfolding show_count IsLatest HasOutcome
  show_count-Agrees zero ds icon h = (refl, (refl, h))
  show_count-Agrees (suc n) ds icon h = (refl, (refl, refl, tt, h))

  step-Agrees : (f : Favicon) (e : Event) → Agrees f → Agrees (step show title f e)
  unfolding step end_drawing
  step-Agrees f (count_changed count) h = if-cases Agrees (count == f.count) _ _ h (
      show_count-Agrees count (cancel_latest f.drawings) f.icon
        (cancel_latest-AllCancelled f.count f.icon f.drawings h.1))
  step-Agrees f (ended i succeeded) h =
      let same = end_at-title (drawing_at f.drawings i) i succeeded f in
      (
        same.0 ∙ h.0 ∙ ap (title_for show title) (sym same.1),
        end_at-IsLatest f.count f.drawings i succeeded f h.1,
      )

  run_from-Agrees : (f : Favicon) (es : List Event) → Agrees f → Agrees (run show title f es)
  run_from-Agrees f [] h = h
  run_from-Agrees f (e ∷ es) h = run_from-Agrees (step show title f e) es (step-Agrees f e h)

  -- After any changes of the count and any ends of drawings, in any order: the title is that of the
  -- count; for a count of 0 the icon is the plain one; and for another, the latest drawing is for it,
  -- not cancelled, and the icon is its badge once it has succeeded; every other drawing is cancelled.
  pub run-IsLatest :
      (count : ℕ) (es : List Event)
      → let f = run show title (mounted show title count) es in
        (f.title ≡ title_for show title f.count) × IsLatest f.count f.icon f.drawings
  run-IsLatest count es =
      run_from-Agrees (mounted show title count) es (show_count-Agrees count [] as_served tt)
