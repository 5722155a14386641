-- ===== src/Web/Sound/Spacing.antt =====
-- web/src/lib/sound.ts: chimes are at least a second apart.
use mailpeek.Prelude.{
  ℕ, ◌+◌, ◌≤◌, ◌≡◌, refl, sym, subst, inl, inr, Bool, false, not, ◌&&◌, ◌||◌, List, [], ◌∷◌, arith,
  ltb, Bool-cases, if-cases,
}
use mailpeek.Web.Sound.{
  Sound, Event, audio_unlocked, context_became, server_event, silent, is_running, play_chime,
  is_created, step, run,
}

-- Of two chimes in a row, the later one is at least a second after the other, and the last one is at
-- the time `last`.
pub IsSpaced : (last : ℕ) → List ℕ → Type 0
IsSpaced last [] = Unit
IsSpaced last (t ∷ []) = t ≡ last
IsSpaced last (t ∷ (u ∷ ts)) = (t ≡ last) × (u + 1000 ≤ t) × IsSpaced u (u ∷ ts)

IsSpaced-from : (t last : ℕ) (ts : List ℕ) → t ≡ last → IsSpaced last ts → IsSpaced t ts
unfolding IsSpaced
IsSpaced-from t last ts e h = subst (λ n. IsSpaced n ts) (sym e) h

add-IsSpaced :
    (now last : ℕ) (ts : List ℕ) → last + 1000 ≤ now → IsSpaced last ts → IsSpaced now (now ∷ ts)
unfolding IsSpaced
add-IsSpaced now last [] l h = refl
add-IsSpaced now last (t ∷ []) l h = (refl, (omega arith), refl)
add-IsSpaced now last (t ∷ (u ∷ ts)) l h =
    (refl, (omega arith), IsSpaced-from t last (t ∷ (u ∷ ts)) h.0 h)

play_chime-IsSpaced :
    (now : ℕ) (s : Sound)
    → IsSpaced s.last_played s.played
    → IsSpaced (play_chime now s).last_played (play_chime now s).played
unfolding play_chime
play_chime-IsSpaced now s h =
    elim (Bool-cases (not (is_running s.context) || ltb now (s.last_played + 1000))) [
      | inl e ↦ rw e h
      | inr e ↦ rw e (add-IsSpaced now s.last_played s.played (late (is_running s.context) e) h)
    ]
  where
    late :
        (b : Bool) → (not b || ltb now (s.last_played + 1000)) ≡ false → s.last_played + 1000 ≤ now
    late b e = grind arith

step-IsSpaced :
    (s : Sound) (e : Event)
    → IsSpaced s.last_played s.played
    → IsSpaced (step s e).last_played (step s e).played
unfolding step
step-IsSpaced s (audio_unlocked made) h = h
step-IsSpaced s (context_became c) h = h
step-IsSpaced s (server_event type id enabled now) h =
    if-cases (λ r. IsSpaced r.last_played r.played) (is_created type id && enabled)
      (play_chime now s) s (play_chime-IsSpaced now s h) h

run_from-IsSpaced :
    (s : Sound) (es : List Event)
    → IsSpaced s.last_played s.played
    → IsSpaced (run s es).last_played (run s es).played
run_from-IsSpaced s [] h = h
run_from-IsSpaced s (e ∷ es) h = run_from-IsSpaced (step s e) es (step-IsSpaced s e h)

-- After any events, each chime that was made is at least a second after the one before it, and the
-- last of them is at the time that the next one is measured from.
pub run-IsSpaced : (es : List Event) → IsSpaced (run silent es).last_played (run silent es).played
unfolding IsSpaced
run-IsSpaced es = run_from-IsSpaced silent es tt
