-- ===== src/Client/Code/Tests.antt =====
-- Codes in texts.
use mailpeek.Prelude.{◌≡◌, refl, some, codes}
use mailpeek.Client.Code.{
  keyword_at, behind_keywords, is_word, greatest, digits, code_token, search_from, first_code,
  guess_code,
}

guessing : Unit {0}
unfolding guess_code first_code search_from code_token digits greatest behind_keywords keyword_at
    is_word
guessing = tt

keyword_test : guess_code (codes "Order 123456. Your CODE: AB-12x AB-1C.") ≡ some (codes "AB-1C")
unfolding guessing
keyword_test = refl

digits_test : guess_code (codes "Call 5550 or 123456, decode 99999") ≡ some (codes "123456")
unfolding guessing
digits_test = refl

-- A code that reaches past the 60 units behind its keyword is cut off.
cut_test :
    guess_code (codes "Your code were below, please do not share it with anybody else: 123456")
    ≡ some (codes "12345")
unfolding guessing
cut_test = refl

-- A word with no digit is taken for a code if a digit follows it after a dash.
dash_test : guess_code (codes "Your code: REFERENCE-12345") ≡ some (codes "REFERENCE")
unfolding guessing
dash_test = refl
