-- ===== src/Web/Problems.antt =====
-- web/src/lib/errors.ts with web/src/i18n: the text of a problem. `show` prints a number.
use mailpeek.Prelude.{ℕ, refl, Option, none, some, [], ◌∷◌, leb, ◌==◌, All, Text, codes, if-cases}
use mailpeek.I18n.EnUs.{en_us}
use mailpeek.I18n.Translate.{Locale, messages, parts, parts_from, Vars, translate}
use mailpeek.I18n.Placeholders.{names, Gives, Fills, translate-Fills}
use mailpeek.Web.Types.{Thrown, api_error, type_error, other_error, Problem, describe_error}

-- `vars` of a problem.
abbrev pub vars_of : (ℕ → Text) → Option ℕ → Vars
vars_of show none = []
vars_of show (some status) = (codes "status", show status) ∷ []

abbrev HasVars : (ℕ → Text) → Problem → Type 0
HasVars show p = All (Gives (vars_of show p.status)) (names (parts (en_us p.key)))

given : (show : ℕ → Text) (t : Thrown) → HasVars show (describe_error t)
unfolding en_us parts parts_from
given show (api_error status) = if-cases (HasVars show) (status == 401) _ _ tt (
    if-cases (HasVars show) (status == 404) _ _ tt (
      if-cases (HasVars show) (leb 500 status) _ _ ((show status, refl), tt)
        ((show status, refl), tt)))
given show type_error = tt
given show other_error = tt

-- Whatever is thrown, its problem has a value for each placeholder of its text, so the text in each
-- language is that of its key with each placeholder replaced by the value of its name.
pub translate-describe_error :
    (show : ℕ → Text) (l : Locale) (thrown : Thrown)
    → let p = describe_error thrown in
      Fills
        (vars_of show p.status)
        (parts (messages l p.key))
        (translate l p.key (vars_of show p.status))
translate-describe_error show l thrown =
    let p = describe_error thrown in
    (translate-Fills l p.key (vars_of show p.status) (given show thrown)).0
