-- ===== src/Web/Layout/Menu.antt =====
-- web/src/hooks/useListboxMenu.ts: the active option is one of the list.
use mailpeek.Prelude.{
  ◌⊎◌, true, refl, ◌∙◌, ℕ, zero, suc, ◌-◌, ◌≤◌, ◌<◌, ◌≡◌, sym, ap, inl, inr, Bool, false, some,
  get_or, List, [], ◌∷◌, arith, Bool-cases, Option-cases, length, get_elem?, Text, text_eq,
  text_eq_sound, text_eq_iff, Memᴰ, find_index, find_index_sound,
}
use mailpeek.Web.Layout.{
  Listbox, MenuEvent, toggled, trigger_arrow, arrow_down, arrow_up, home_pressed, end_pressed,
  escape, chosen, left, menu_step, menu_run,
}

get-lt : {x : Text} (xs : List Text) (i : ℕ) → get_elem? xs i ≡ some x → i < length xs
get-lt [] i h = cc
get-lt (y ∷ xs) zero h = omega arith
get-lt (y ∷ xs) (suc i) h = omega (arith, get-lt xs i h)

find_value :
    (value : Text) (xs : List Text)
    → Memᴰ value xs
    → (i : ℕ) × (find_index (text_eq value) xs ≡ some i) × (get_elem? xs i ≡ some value)
find_value value [] m = elim m [ ]
find_value value (y ∷ xs) m = elim (Bool-cases (text_eq value y)) [
  | inl hit ↦ (0, ground arith, ap some (sym (text_eq_sound value y hit)))
  | inr miss ↦ elim m [
    | Memᴰ.head e ↦ ground (arith, text_eq_iff value y)
    | Memᴰ.tail rest ↦ let (i, e, at) = find_value value xs rest in (suc i, ground (arith, e), at)
  ]
]

indexed : (p : Text → Bool) (xs : List Text) → get_or (find_index p xs) 0 ≤ length xs - 1
indexed p [] = omega arith
indexed p (x ∷ xs) = elim (Option-cases (find_index p xs)) [
  | inl e ↦ ground arith
  | inr (i, e) ↦ ground (arith, indexed p xs, index-lt p xs i e)
]
  where
    index-lt : (p : Text → Bool) (xs : List Text) (i : ℕ) → find_index p xs ≡ some i → i < length xs
    index-lt p xs i e = get-lt xs i (find_index_sound p xs i e).1

module _ (options : List Text) (value : Text) where
  step-active :
      (m : Listbox) (e : MenuEvent)
      → m.active ≤ length options - 1
      → (menu_step options value m e).active ≤ length options - 1
  unfolding menu_step
  step-active m toggled h = ground (arith, indexed (text_eq value) options)
  step-active m trigger_arrow h = indexed (text_eq value) options
  step-active m arrow_down h = omega arith
  step-active m arrow_up h = omega (arith, h)
  step-active m home_pressed h = omega arith
  step-active m end_pressed h = omega arith
  step-active m escape h = h
  step-active m chosen h = h
  step-active m left h = h

  run-active :
      (m : Listbox) (es : List MenuEvent)
      → m.active ≤ length options - 1
      → (menu_run options value m es).active ≤ length options - 1
  run-active m [] h = h
  run-active m (e ∷ es) h = run-active (menu_step options value m e) es (step-active m e h)

  -- Where an event opens a list that was closed, an option that equals the value is the active one.
  opens_at-value :
      (m : Listbox) (e : MenuEvent) (i : ℕ)
      → find_index (text_eq value) options ≡ some i
      → (m.is_open ≡ true)
        ⊎ ((menu_step options value m e).is_open ≡ false)
        ⊎ ((menu_step options value m e).active ≡ i)
  unfolding menu_step
  opens_at-value m toggled i h = elim (Bool-cases m.is_open) [
    | inl shown ↦ inl shown
    | inr hidden ↦ inr (inr (ground arith))
  ]
  opens_at-value m trigger_arrow i h = inr (inr (ground arith))
  opens_at-value m arrow_down i h = elim (Bool-cases m.is_open) [
    | inl shown ↦ inl shown
    | inr hidden ↦ inr (inl hidden)
  ]
  opens_at-value m arrow_up i h = elim (Bool-cases m.is_open) [
    | inl shown ↦ inl shown
    | inr hidden ↦ inr (inl hidden)
  ]
  opens_at-value m home_pressed i h = elim (Bool-cases m.is_open) [
    | inl shown ↦ inl shown
    | inr hidden ↦ inr (inl hidden)
  ]
  opens_at-value m end_pressed i h = elim (Bool-cases m.is_open) [
    | inl shown ↦ inl shown
    | inr hidden ↦ inr (inl hidden)
  ]
  opens_at-value m escape i h = inr (inl refl)
  opens_at-value m chosen i h = inr (inl refl)
  opens_at-value m left i h = inr (inl refl)

  -- If there are options, after any events the active one is one of them. A click on a closed list
  -- opens it, and an arrow key on its trigger leaves it open; and if the value is among the options,
  -- whatever event opens the closed list makes an option that equals the value the active one, as an
  -- arrow key on the trigger always does.
  pub menu_run-active :
      (es : List MenuEvent)
      → 0 < length options
      → let m = menu_run options value (record { is_open = false; active = 0 }) es in
        (m.active < length options)
        × ((m.is_open ≡ true) ⊎ ((menu_step options value m toggled).is_open ≡ true))
        × ((menu_step options value m trigger_arrow).is_open ≡ true)
        × (Memᴰ value options
            → (get_elem? options (menu_step options value m trigger_arrow).active ≡ some value)
              × ((e : MenuEvent)
                  → (m.is_open ≡ true)
                    ⊎ ((menu_step options value m e).is_open ≡ false)
                    ⊎ (get_elem? options (menu_step options value m e).active ≡ some value)))
  unfolding menu_step
  menu_run-active es some_option =
      let start : Listbox = record { is_open = false; active = 0 } in
      let range = run-active start es (omega arith) in
      let m = menu_run options value start es in
      (
        omega (arith, range, some_option),
        (elim (Bool-cases m.is_open) [ inl shown ↦ inl shown | inr hidden ↦ inr (ground arith) ]),
        refl,
        λ listed.
            let (i, e, at) = find_value value options listed in
            (
              ground (arith, e, at),
              λ event. elim (opens_at-value m event i e) [
                | inl shown ↦ inl shown
                | inr (inl hidden) ↦ inr (inl hidden)
                | inr (inr active) ↦ inr (inr (ap (get_elem? options) active ∙ at))
              ],
            ),
      )
