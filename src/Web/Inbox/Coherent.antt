-- ===== src/Web/Inbox/Coherent.antt =====
-- web/src/hooks/useInboxState.ts: the hooks agree on what is selected.
use mailpeek.Prelude.{
  ◌≡◌, refl, sym, ap, subst, ◌⊎◌, ◌∙◌, inl, inr, Bool, true, false, not, ◌||◌, Option, none, some,
  List, [], ◌∷◌, arith, Bool-cases, get_elem?, any, Text, text_eq, text_eq_sound, text_eq_refl,
  is_empty, if-cases,
}
use mailpeek.Web.Types.{MessageSummary}
use mailpeek.Web.Messages as MessagesHook
use mailpeek.Web.Messages.{change_query, load}
use mailpeek.Web.Selection.{
  Selection, has_id, id_of, selected_id, same_id, neighbour_of, select, render,
}
use mailpeek.Web.Viewer.{Viewer, is_cached, change_id}
use mailpeek.Web.Inbox.{
  Page, Event, server_event, list_event, removal, removed, cleared, answered, pruning, messages,
  selected, handle, follow, choose, commit, run, opened,
}

-- Whether the selected message, if there is one with an id, counts as seen.
pub IsSeen : Option Text → List Text → Type 0
IsSeen none seen = Unit
IsSeen (some id) seen = (is_empty id || any (text_eq id) seen) ≡ true

unfoldable pub IsListed : Option Text → List MessageSummary → Type 0
IsListed none ms = Unit
IsListed (some id) ms = any (has_id id) ms ≡ true

-- A choice that is listed is what is selected.
pub KeepsChoice : (chosen selected : Option Text) → List MessageSummary → Type 0
KeepsChoice none selected ms = Unit
KeepsChoice (some id) selected ms = (any (has_id id) ms ≡ false) ⊎ (selected ≡ some id)

pub record IsCoherent {A : Type 0} (p : Page A) : Type 0 where
  pub follows : p.viewer.id ≡ selected p
  pub listed : IsListed (selected p) (messages p)
  pub agrees : (not p.store.state.loaded || same_id (selected p) p.selection.chosen) ≡ true
  pub seen : IsSeen p.selection.chosen p.selection.seen
  pub keeps : KeepsChoice p.selection.chosen (selected p) (messages p)

same_id_sound : (a b : Option Text) → same_id a b ≡ true → a ≡ b
same_id_sound none none h = refl
same_id_sound (some a) (some b) h = ap some (text_eq_sound a b h)
same_id_sound none (some b) h = cc
same_id_sound (some a) none h = cc

change_id-id : {A : Type 0} (id : Option Text) (v : Viewer A) → (change_id id v).id ≡ id
unfolding change_id
change_id-id none v = refl
change_id-id (some id) v =
    if-cases (λ (w : Viewer _). w.id ≡ some id) (is_empty id || is_cached v.cache id) _ _ refl refl

pub follow-id : {A : Type 0} (id : Option Text) (v : Viewer A) → (follow id v).id ≡ id
follow-id id v = elim (Bool-cases (same_id id v.id)) [
  | inl same ↦ let e = same_id_sound id v.id same in ground arith
  | inr other ↦ let e = change_id-id id v in ground arith
]

first-listed : (m : MessageSummary) (ms : List MessageSummary) → any (has_id m.id) (m ∷ ms) ≡ true
first-listed m ms = let e = text_eq_refl m.id in ground arith

first-cases :
    (ms : List MessageSummary) (P : Option Text → Type 0)
    → (ms ≡ [] → P none)
    → ((id : Text) → any (has_id id) ms ≡ true → P (some id))
    → P (id_of (get_elem? ms 0))
first-cases [] P no_id with_id = no_id refl
first-cases (m ∷ ms) P no_id with_id = with_id m.id (first-listed m ms)

selected_id-cases :
    (ms : List MessageSummary) (chosen : Option Text) (P : Option Text → Type 0)
    → (ms ≡ [] → P none)
    → ((id : Text) → any (has_id id) ms ≡ true → P (some id))
    → P (selected_id ms chosen)
selected_id-cases ms none P no_id with_id = first-cases ms P no_id with_id
selected_id-cases ms (some c) P no_id with_id = elim (Bool-cases (any (has_id c) ms)) [
  | inl hit ↦
      let e : selected_id ms (some c) ≡ some c = ground arith in subst P (sym e) (with_id c hit)
  | inr miss ↦
      let e : selected_id ms (some c) ≡ id_of (get_elem? ms 0) = ground arith in
      subst P (sym e) (first-cases ms P no_id with_id)
]

selected_id-IsListed :
    (ms : List MessageSummary) (chosen : Option Text) → IsListed (selected_id ms chosen) ms
unfolding IsListed
selected_id-IsListed ms chosen =
    selected_id-cases ms chosen (λ o. IsListed o ms) (λ _. tt) (λ id listed. listed)

same_id_refl : (a : Option Text) → same_id a a ≡ true
same_id_refl none = refl
same_id_refl (some a) = text_eq_refl a

selected_id_again :
    (ms : List MessageSummary) (chosen : Option Text)
    → same_id (selected_id ms (selected_id ms chosen)) (selected_id ms chosen) ≡ true
selected_id_again ms chosen =
    selected_id-cases ms chosen (λ o. same_id (selected_id ms o) o ≡ true) (λ e. rw e refl)
      (λ id listed. let e = text_eq_refl id in ground arith)

render-agrees :
    (ms : List MessageSummary) (loaded : Bool) (s : Selection)
    → (not loaded
        || same_id (selected_id ms (render ms loaded s).chosen) (render ms loaded s).chosen)
      ≡ true
render-agrees ms false s = refl
render-agrees ms true s = elim (Bool-cases (same_id (selected_id ms s.chosen) s.chosen)) [
  | inl same ↦
      let e : render ms true s ≡ s = ground arith in
      subst (λ (t : Selection). same_id (selected_id ms t.chosen) t.chosen ≡ true) (sym e) same
  | inr other ↦
      let e : render ms true s ≡ select (selected_id ms s.chosen) s = ground arith in
      subst (λ (t : Selection). same_id (selected_id ms t.chosen) t.chosen ≡ true) (sym e)
        (selected_id_again ms s.chosen)
]

select-IsSeen : (id : Option Text) (s : Selection) → IsSeen (select id s).chosen (select id s).seen
unfolding IsSeen
select-IsSeen none s = tt
select-IsSeen (some id) s = let e = text_eq_refl id in ground arith

render-IsSeen :
    (ms : List MessageSummary) (loaded : Bool) (s : Selection)
    → IsSeen s.chosen s.seen
    → IsSeen (render ms loaded s).chosen (render ms loaded s).seen
render-IsSeen ms loaded s h =
    if-cases (λ (t : Selection). IsSeen t.chosen t.seen) _ _ _
      (select-IsSeen (selected_id ms s.chosen) s) h

selected_id-KeepsChoice :
    (ms : List MessageSummary) (chosen : Option Text)
    → KeepsChoice chosen (selected_id ms chosen) ms
unfolding KeepsChoice
selected_id-KeepsChoice ms none = tt
selected_id-KeepsChoice ms (some id) = elim (Bool-cases (any (has_id id) ms)) [
  | inl hit ↦ inr (ground arith)
  | inr miss ↦ inl miss
]

commit-IsCoherent :
    {A : Type 0} (p : Page A) → IsSeen p.selection.chosen p.selection.seen → IsCoherent (commit p)
unfolding commit
commit-IsCoherent p h = record {
  follows = follow-id (selected (choose p)) p.viewer;
  agrees = render-agrees (messages p) p.store.state.loaded p.selection;
  listed = selected_id-IsListed (messages p) (choose p).selection.chosen;
  seen = render-IsSeen (messages p) p.store.state.loaded p.selection h;
  keeps = selected_id-KeepsChoice (messages p) (choose p).selection.chosen;
}

handle-IsSeen :
    {A : Type 0} (e : Event A) (p : Page A)
    → IsSeen p.selection.chosen p.selection.seen
    → IsSeen (handle e p).selection.chosen (handle e p).selection.seen
unfolding handle
handle-IsSeen (server_event type id) p h = h
handle-IsSeen (list_event e) p h = h
handle-IsSeen (Event.chosen id) p h = select-IsSeen id p.selection
handle-IsSeen (removal id) p h = select-IsSeen (neighbour_of (messages p) id) p.selection
handle-IsSeen removed p h = h
handle-IsSeen cleared p h = h
handle-IsSeen (answered i reply) p h = h
handle-IsSeen pruning p h = h

run-IsCoherent :
    {A : Type 0} (p : Page A) (es : List (Event A)) → IsCoherent p → IsCoherent (run p es)
run-IsCoherent p [] h = h
run-IsCoherent p (e ∷ es) h =
    run-IsCoherent (commit (handle e p)) es
      (commit-IsCoherent (handle e p) (handle-IsSeen e p h.seen))

pub IsCoherent-run :
    {A : Type 0} (query : Text) (es : List (Event A)) → IsCoherent (run (opened query) es)
unfolding MessagesHook.step change_query load IsListed IsSeen KeepsChoice
IsCoherent-run query es =
    run-IsCoherent (opened query) es
      (record { follows = refl; listed = tt; agrees = refl; seen = tt; keeps = tt })

-- A listed message that is chosen is selected and open once the page is rendered.
chosen-opens :
    {A : Type 0} (p : Page A) (id : Text)
    → (any (has_id id) (messages p) ≡ false)
      ⊎ ((selected (commit (handle (Event.chosen (some id)) p)) ≡ some id)
          × ((commit (handle (Event.chosen (some id)) p)).viewer.id ≡ some id))
unfolding commit handle
chosen-opens p id = elim (Bool-cases (any (has_id id) (messages p))) [
  | inr miss ↦ inl miss
  | inl hit ↦
      let e = text_eq_refl id in
      let q = handle (Event.chosen (some id)) p in
      let now : selected (commit q) ≡ some id = ground arith in
      inr (now, follow-id (selected (choose q)) q.viewer ∙ now)
]

-- Whatever happens to the page, in any order: the message that is open is the selected one, which is
-- listed, and is the one that was chosen last if that is listed; once the list is loaded the selection
-- is the one that was chosen, and what was chosen counts as seen. A listed message that is chosen then
-- is selected and open.
pub run-opened-IsCoherent :
    {A : Type 0} (query : Text) (es : List (Event A)) (id : Text)
    → let p = run (opened query) es in
      IsCoherent p
      × ((any (has_id id) (messages p) ≡ false)
          ⊎ ((selected (commit (handle (Event.chosen (some id)) p)) ≡ some id)
              × ((commit (handle (Event.chosen (some id)) p)).viewer.id ≡ some id)))
run-opened-IsCoherent query es id =
    (IsCoherent-run query es, chosen-opens (run (opened query) es) id)
