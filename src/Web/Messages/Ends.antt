-- ===== src/Web/Messages/Ends.antt =====
-- web/src/hooks/useMessages.ts: the end of a load, which counts for the latest load only.

use mailpeek.Prelude.{
  ℕ, zero, suc, ◌≡◌, refl, sym, ap, subst, inl, inr, true, false, none, some, List, [], ◌∷◌, arith,
  Bool-cases, Option-cases, length, All, Text,
}
use mailpeek.Web.Types.{MessageSummary, MessagePage, Thrown, describe_error}
use mailpeek.Web.Messages.{
  append_page, show_page, Load, Store, Reply, page, failed, settle, load_at, finish,
}
use mailpeek.Web.Messages.Latest.{IsAborted, HasLatest}

-- An older load that ends changes nothing.
load_at-aborted :
    (ls : List Load) (i : ℕ) (l : Load)
    → All IsAborted ls
    → load_at ls i ≡ some l
    → l.is_aborted ≡ true
load_at-aborted [] i l h e = cc
load_at-aborted (k ∷ ls) zero l h e = ground arith
load_at-aborted (k ∷ ls) (suc i) l h e = load_at-aborted ls i l h.1 e

pub settle-cases {ℓ} :
    (l : Load) (p : MessagePage) (total : ℕ) (s : Store) (P : Store → Type ℓ)
    → (l.appended ≡ none → P (show_page l.gen p total s))
    → ((ms : List MessageSummary) (c : Text) → l.appended ≡ some (ms, c) → P (append_page ms p s))
    → P (settle l (page p total) s)
settle-cases l p total s P fresh more =
    elim l.appended
        as (λ o.
          l.appended ≡ o
          → P (elim o [ some (ms, c) ↦ append_page ms p s | none ↦ show_page l.gen p total s ])) [
            | some (ms, c) ↦ λ e. more ms c e
            | none ↦ λ e. fresh e
          ]
      refl

module _ (s : Store) (h : HasLatest s) (active : h.latest.is_settled ≡ false) where
  -- The store in which the latest load has settled.
  abbrev pub settled : Store
  settled = record s { loads = record h.latest { is_settled = true } ∷ h.older }

  append-HasLatest :
      (ms : List MessageSummary) (c : Text) (p : MessagePage)
      → h.latest.appended ≡ some (ms, c)
      → HasLatest (append_page ms p settled)
  append-HasLatest ms c p e = record {
    latest = record h.latest { is_settled = true };
    older = h.older;
    loads_are = refl;
    older_aborted = h.older_aborted;
    not_aborted = h.not_aborted;
    gen_le = h.gen_le;
    same_query = h.same_query;
    synced_le = h.synced_le;
    goes_on = λ ms c never. ground arith;
    on_its_way = elim h.on_its_way [
      | inl pending ↦ inl pending
      | inr (now, rest) ↦ inr (now, inr (inl (cc ((h.goes_on ms c active e).1.1, now))))
    ];
  }

  reload-HasLatest :
      (p : MessagePage) (total : ℕ) → HasLatest (show_page h.latest.gen p total settled)
  reload-HasLatest p total = record {
    latest = record h.latest { is_settled = true };
    older = h.older;
    loads_are = refl;
    older_aborted = h.older_aborted;
    not_aborted = h.not_aborted;
    gen_le = h.gen_le;
    same_query = h.same_query;
    synced_le = λ g e. ground arith;
    goes_on = λ ms c never. ground arith;
    on_its_way = elim h.on_its_way [
      | inl pending ↦ inl pending
      | inr (now, rest) ↦ inr (now, inr (inl (ap some now)))
    ];
  }

  fail-HasLatest :
      (e : Thrown)
      → HasLatest (record settled {
        wanted = length s.state.messages;
        state = record s.state { loaded = true; error = some (describe_error e) };
      })
  fail-HasLatest e = record {
    latest = record h.latest { is_settled = true };
    older = h.older;
    loads_are = refl;
    older_aborted = h.older_aborted;
    not_aborted = h.not_aborted;
    gen_le = h.gen_le;
    same_query = h.same_query;
    synced_le = h.synced_le;
    goes_on = λ ms c never. ground arith;
    on_its_way = elim h.on_its_way [
      | inl pending ↦ inl pending
      | inr (now, rest) ↦ inr (now, inr (inr (λ never. cc)))
    ];
  }

  pub settle-HasLatest : (r : Reply) → HasLatest (settle h.latest r settled)
  settle-HasLatest (page p total) =
      settle-cases h.latest p total settled HasLatest (λ e. reload-HasLatest p total)
        (λ ms c e. append-HasLatest ms c p e)
  settle-HasLatest (failed e) = fail-HasLatest e

finish-latest :
    (s : Store) (r : Reply) (h : HasLatest s) (active : h.latest.is_settled ≡ false)
    → finish 0 r s ≡ settle h.latest r (settled s h active)
unfolding finish
finish-latest s r h active = ground (arith, h.loads_are, h.not_aborted)

finish-settled :
    (s : Store) (r : Reply) (h : HasLatest s) → h.latest.is_settled ≡ true → finish 0 r s ≡ s
unfolding finish
finish-settled s r h over = ground (arith, h.loads_are, h.not_aborted)

pub finish-older : (s : Store) (i : ℕ) (r : Reply) → HasLatest s → finish (suc i) r s ≡ s
unfolding finish
finish-older s i r h = elim (Option-cases (load_at h.older i)) [
  | inl e ↦ ground (arith, h.loads_are, e)
  | inr (l, e) ↦ ground (arith, h.loads_are, e, load_at-aborted h.older i l h.older_aborted e)
]

-- A load that ends leaves the store, or is the latest and settles it.
pub finish-cases {ℓ} :
    (s : Store) (P : Store → Type ℓ) (i : ℕ) (r : Reply) (h : HasLatest s)
    → P s
    → ((active : h.latest.is_settled ≡ false) → i ≡ 0 → P (settle h.latest r (settled s h active)))
    → P (finish i r s)
finish-cases s P zero r h still ended = elim (Bool-cases h.latest.is_settled) [
  | inl over ↦ subst P (sym (finish-settled s r h over)) still
  | inr active ↦ subst P (sym (finish-latest s r h active)) (ended active refl)
]
finish-cases s P (suc i) r h still ended = subst P (sym (finish-older s i r h)) still
