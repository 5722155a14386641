-- ===== src/Client/Html/Found.antt =====
-- packages/client/src/email.ts: what `findCode` finds, and when it does.
use mailpeek.Prelude.{
  ◌≤◌, ◌≡◌, ap, ◌∙◌, true, false, Option, none, some, get_or, [], ◌∷◌, ◌++◌, arith, length, all,
  Text,
}
use mailpeek.Client.Email.{Email}
use mailpeek.Client.Code.{is_digit, starts_word, guess_code}
use mailpeek.Client.Code.Found.{IsFound, guess_code-IsFound}
use mailpeek.Client.Code.Complete.{ends_word, guess_code_complete}
use mailpeek.Client.Html.{found, truthy_code, found_or, searched_text, find_code}

-- A code that is found is one that `guessCode` gave.
found_or_sound :
    (s code : Text) (o : Option Text) → found_or s (truthy_code o) ≡ found code → o ≡ some code
found_or_sound s code none h = ground arith
found_or_sound s code (some []) h = ground arith
found_or_sound s code (some (c ∷ t)) h = ground arith

found_or_complete :
    (s code : Text) (o : Option Text)
    → 4 ≤ length code
    → o ≡ some code
    → found_or s (truthy_code o) ≡ found code
found_or_complete s code none l h = ground arith
found_or_complete s code (some []) l h =
    let e : 0 ≡ length code = ap (λ (x : Option Text). length (get_or x [])) h in
    absurd (omega arith)
found_or_complete s code (some (c ∷ t)) l h = ground arith

-- With no pattern, a code that is found stands in the text of the email, or if that is blank in the text
-- of its HTML; it has 4 to 12 units, each a capital letter, a digit or a dash.
pub find_code-IsFound :
    (e : Email) (code : Text) → find_code e none ≡ found code → IsFound (searched_text e) code
unfolding find_code
find_code-IsFound e code h =
    guess_code-IsFound (searched_text e) code
      (found_or_sound (searched_text e) code (guess_code (searched_text e)) h)

-- With no pattern, a code is found in an email whose text, or if that is blank the text of whose HTML,
-- holds a number of 4 to 8 digits that is no part of a longer word.
pub find_code_complete :
    (e : Email) (before number behind : Text)
    → searched_text e ≡ before ++ (number ++ behind)
    → ends_word false before ≡ false
    → all is_digit number ≡ true
    → 4 ≤ length number
    → length number ≤ 8
    → starts_word behind ≡ false
    → (code : Text) × (find_code e none ≡ found code)
unfolding find_code IsFound
find_code_complete e before number behind at w ds low high w' =
    let (code, h) = guess_code_complete before number behind w ds low high w' in
    let h' : guess_code (searched_text e) ≡ some code = ap guess_code at ∙ h in
    (
      code,
      found_or_complete (searched_text e) code (guess_code (searched_text e))
          (guess_code-IsFound (searched_text e) code h').1 h',
    )
