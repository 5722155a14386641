-- ===== src/Web/Favicon.antt =====
-- web/src/hooks/useFaviconBadge.ts: the title and the icon of the page for a count. A drawing may fail;
-- the drawings stand in the order of their start, the latest first. The clean-up of an effect cancels
-- the drawing that the effect started; that of a count of 0 finds the latest one cancelled already.
pub mod Latest
mod Tests
use mailpeek.Prelude.{
  ℕ, zero, suc, Bool, true, false, not, ◌&&◌, Option, none, some, List, [], ◌∷◌, ◌++◌, ltb, ◌==◌,
  if◌then◌else◌, Text, codes,
}

pub data Outcome : Type 0 where
  in_progress drawn failed : Outcome

pub record Drawing : Type 0 where
  pub count : ℕ
  pub is_cancelled : Bool
  pub outcome : Outcome

-- The icon before the first effect, `favicon.svg`, or what `drawBadge` makes for a count.
pub data Icon : Type 0 where
  as_served plain : Icon
  badge : ℕ → Icon

pub record Favicon : Type 0 where
  pub count : ℕ
  pub title : Text
  pub icon : Icon
  pub drawings : List Drawing

pub data Event : Type 0 where
  count_changed : ℕ → Event
  ended : (drawing : ℕ) → (succeeded : Bool) → Event

-- What `drawBadge` writes, and the size of the font.
abbrev pub badge_text : (ℕ → Text) → ℕ → Text
badge_text show count = if ltb 9 count then codes "9+" else show count

abbrev pub font_size : ℕ → ℕ
font_size count = if ltb 9 count then 20 else 26

abbrev pub cancel_latest : List Drawing → List Drawing
cancel_latest [] = []
cancel_latest (d ∷ ds) = record d { is_cancelled = true } ∷ ds

abbrev pub drawing_at : List Drawing → ℕ → Option Drawing
drawing_at [] i = none
drawing_at (d ∷ ds) zero = some d
drawing_at (d ∷ ds) (suc i) = drawing_at ds i

abbrev pub mark : Outcome → List Drawing → ℕ → List Drawing
mark o [] i = []
mark o (d ∷ ds) zero = record d { outcome = o } ∷ ds
mark o (d ∷ ds) (suc i) = d ∷ mark o ds i

abbrev pub outcome_of : (succeeded : Bool) → Outcome
outcome_of true = drawn
outcome_of false = failed

-- A promise is settled once.
abbrev pub is_over : Outcome → Bool
is_over in_progress = false
is_over _ = true

abbrev pub show_drawn : Drawing → (succeeded : Bool) → Favicon → Favicon
show_drawn d succeeded f =
    if succeeded && not d.is_cancelled then record f { icon = badge d.count } else f

abbrev pub end_at : Option Drawing → (drawing : ℕ) → (succeeded : Bool) → Favicon → Favicon
end_at none i succeeded f = f
end_at (some d) i succeeded f =
    if is_over d.outcome
    then f
    else show_drawn d succeeded (record f { drawings = mark (outcome_of succeeded) f.drawings i })

unfoldable pub end_drawing : (drawing : ℕ) → (succeeded : Bool) → Favicon → Favicon
end_drawing i succeeded f = end_at (drawing_at f.drawings i) i succeeded f

-- `show` writes a number; `title` is that of the page.
module _ (show : ℕ → Text) (title : Text) where
  abbrev pub title_for : ℕ → Text
  title_for zero = title
  title_for (suc n) = codes "(" ++ (show (suc n) ++ (codes ") " ++ title))

  -- The effect.
  unfoldable pub show_count : ℕ → List Drawing → Icon → Favicon
  show_count zero ds icon = record { count = 0; title = title_for 0; icon = plain; drawings = ds }
  show_count (suc n) ds icon = record {
    count = suc n;
    title = title_for (suc n);
    icon = icon;
    drawings = record { count = suc n; is_cancelled = false; outcome = in_progress } ∷ ds;
  }

  unfoldable pub step : Favicon → Event → Favicon
  step f (count_changed count) =
      if count == f.count then f else show_count count (cancel_latest f.drawings) f.icon
  step f (ended i succeeded) = end_drawing i succeeded f

  abbrev pub run : Favicon → List Event → Favicon
  run f [] = f
  run f (e ∷ es) = run (step f e) es

  abbrev pub mounted : ℕ → Favicon
  mounted count = show_count count [] as_served
