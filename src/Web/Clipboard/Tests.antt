-- ===== src/Web/Clipboard/Tests.antt =====
-- web/src/hooks/useCopyToClipboard.ts: runs at concrete inputs.
use mailpeek.Prelude.{◌≡◌, refl, true, false, [], ◌∷◌, codes}
use mailpeek.Web.Clipboard.{copy_ended, timer_fired, initial, step, run}

-- A text area whose copy is refused is noted as a copy.
refused_test :
    ((run initial (
      copy_ended (record { value = codes "a"; is_secure = false; is_accepted = false })
      ∷ []))).copied
    ≡ true
unfolding step
refused_test = refl

taken_back_test :
    ((run initial (
      copy_ended (record { value = codes "a"; is_secure = true; is_accepted = true })
      ∷ (timer_fired ∷ [])))).copied
    ≡ false
unfolding step
taken_back_test = refl
