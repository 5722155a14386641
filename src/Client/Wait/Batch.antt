-- ===== src/Client/Wait/Batch.antt =====
-- `waitForEmails` takes the oldest of the messages listed, in the order of their arrival.
use mailpeek.Prelude.{
  ℕ, suc, ◌-◌, ◌≤◌, ◌<◌, ◌≡◌, refl, sym, ap, ◌∙◌, inl, inr, true, false, List, [], ◌∷◌, ◌++◌,
  reverse, arith, leb, ◌==◌, if◌then◌else◌, Bool-cases, length, take, drop, length-reverse,
  length-drop, take-append-drop,
}
use mathlib.Core.List.{reverse-append}
use mailpeek.Client.Types.{MessageSummary}
use mailpeek.Client.Platform.{Platform, done}
use mailpeek.Client.Requests.{Config, messages}
use mailpeek.Client.Ensures.{bind_done}
use mailpeek.Client.Wait.{WaitOptions, slice_last, get_all, batch_loop, wait_for_emails}

module _ {ℓ} {A : Type ℓ} where
  take-append : (xs ys : List A) → take (length xs) (xs ++ ys) ≡ xs
  take-append [] ys = refl
  take-append (x ∷ xs) ys = ap (◌∷◌ x) (take-append xs ys)

  -- A listing has the newest message first, so its end reversed is the start of the arrivals.
  pub reverse-slice_last :
      (n : ℕ) (xs : List A)
      → 0 < n
      → n ≤ length xs
      → reverse (slice_last n xs) ≡ take n (reverse xs)
  reverse-slice_last n xs h le =
      let k = length xs - n in
      let last = reverse (drop k xs) in
      let size : length last ≡ n = omega (arith, length-reverse (drop k xs), length-drop k xs) in
      let split : reverse xs ≡ last ++ reverse (take k xs) =
        ap reverse (sym (take-append-drop k xs)) ∙ reverse-append (take k xs) (drop k xs) in
      let nonzero : (n == 0) ≡ false = ground arith in
      rw nonzero (cc (split, take-append last (reverse (take k xs)), size))

module _ (p : Platform) (c : Config) where
  -- As soon as a listing, newest first, holds `count` messages, the call fetches and returns the first
  -- `count` of them in the order of arrival. For a count of 0 it returns all that are listed.
  pub wait_for_emails_ready :
      (fuel rounds count : ℕ) (o : WaitOptions) (w w' : p.World) (list : List MessageSummary)
      → messages p c.request_timeout o.filter (p.now w).1 ≡ done list w'
      → count ≤ length list
      → wait_for_emails p c fuel (suc rounds) count o w
        ≡ get_all p c (if count == 0 then reverse list else take count (reverse list)) w'
  unfolding wait_for_emails batch_loop
  wait_for_emails_ready fuel rounds count o w w' list listed enough =
      let many : leb count (length list) ≡ true = ground arith in
      bind_done (messages p c.request_timeout o.filter) _ (p.now w).1 listed
      ∙ rw many (elim (Bool-cases (count == 0)) [
        | inl none_asked ↦ rw none_asked refl
        | inr some_asked ↦
            let positive : 0 < count = ground arith in
            let same = reverse-slice_last count list positive enough in
            rw some_asked (rw some_asked at (ap (λ l. get_all p c l w') same))
      ])
