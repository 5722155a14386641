-- ===== src/Web/ServerInfo/First.antt =====
-- web/src/hooks/useServerInfo.ts: the first reply counts.
use mailpeek.Prelude.{◌≡◌, refl, sym, subst, ap, Option, some, List, [], ◌∷◌, true, if◌then◌else◌}
use mailpeek.Web.ServerInfo.{
  Info, Known, Event, ended, unmounted, mounted, kept_of, keep, step, run,
}

step-ended : (k : Known) (o : Option Info) → k.is_settled ≡ true → step k (ended o) ≡ k
unfolding step
step-ended k o h = ap (λ b. if b then k else keep o (record k { is_settled = true })) h

settled-kept : (k : Known) (es : List Event) → k.is_settled ≡ true → (run k es).kept ≡ k.kept
unfolding step
settled-kept k [] h = refl
settled-kept k (ended o ∷ es) h =
    subst (λ (l : Known). (run l es).kept ≡ k.kept) (sym (step-ended k o h)) (settled-kept k es h)
settled-kept k (unmounted ∷ es) h = settled-kept (record k { is_cancelled = true }) es h

-- What the server tells first, before the component goes, is kept whatever happens later.
run-kept : (i : Info) (es : List Event) → (run mounted (ended (some i) ∷ es)).kept ≡ kept_of i
unfolding step
run-kept i es = settled-kept (step mounted (ended (some i))) es refl
