-- ===== src/Web/Messages/Latest.antt =====
-- web/src/hooks/useMessages.ts: the invariant of a store and its latest load, which the start of a
-- load and the calls of the hook preserve.
use mailpeek.Prelude.{
  ℕ, ◌+◌, ◌≤◌, ◌≡◌, refl, ◌≢◌, ◌⊎◌, inl, inr, Bool, true, false, none, some, List, [], ◌∷◌, arith,
  ltb, if◌then◌else◌, length, drop, All, Text,
}
use mailpeek.Web.Types.{MessageSummary}
use mailpeek.Web.Messages.{
  Load, Store, page_size, append_from, start_load, abort_latest, load, refresh, fire_timer,
  load_more, change_query,
}

abbrev pub IsAborted : Load → Type 0
IsAborted l = l.is_aborted ≡ true

-- The latest load fits the store, and every older one is aborted.
pub record HasLatest (s : Store) : Type 0 where
  pub latest : Load
  pub older : List Load
  pub loads_are : s.loads ≡ latest ∷ older
  pub older_aborted : All IsAborted older
  pub not_aborted : latest.is_aborted ≡ false
  pub gen_le : latest.gen ≤ s.generation
  pub same_query : latest.gen ≡ s.generation → latest.query ≡ s.query
  pub synced_le : (g : ℕ) → s.synced ≡ some g → g ≤ latest.gen
  pub goes_on :
      (ms : List MessageSummary) (c : Text)
      → latest.is_settled ≡ false
      → latest.appended ≡ some (ms, c)
      → (ms ≡ s.state.messages) × ((s.state.next_cursor ≡ some c) × (s.synced ≡ some latest.gen))
  pub on_its_way :
      (s.is_pending ≡ true)
      ⊎ ((latest.gen ≡ s.generation)
          × ((latest.is_settled ≡ false)
              ⊎ ((s.synced ≡ some s.generation) ⊎ (s.state.error ≢ none))))

append_from-goes_on :
    (s : Store) (ms : List MessageSummary) (c : Text)
    → append_from s ≡ some (ms, c)
    → (ms ≡ s.state.messages) × ((s.state.next_cursor ≡ some c) × (s.synced ≡ some s.generation))
append_from-goes_on s ms c h = ground arith

abort_latest-IsAborted :
    (ls : List Load) → All IsAborted (drop 1 ls) → All IsAborted (abort_latest ls)
abort_latest-IsAborted [] h = tt
abort_latest-IsAborted (l ∷ ls) h = (refl, h)

-- Starting a load makes a store fit, if its older loads are aborted and its `synced` is not ahead.
pub load-HasLatest :
    (s : Store)
    → All IsAborted (drop 1 s.loads)
    → ((g : ℕ) → s.synced ≡ some g → g ≤ s.generation)
    → HasLatest (load s)
unfolding load
load-HasLatest s aborted behind = record {
  latest = start_load s;
  older = abort_latest s.loads;
  loads_are = refl;
  older_aborted = abort_latest-IsAborted s.loads aborted;
  not_aborted = refl;
  gen_le = omega arith;
  same_query = λ e. refl;
  synced_le = behind;
  goes_on = λ ms c active e. append_from-goes_on s ms c e;
  on_its_way = inr (refl, inl refl);
}

module _ {ℓ} (s : Store) (P : Store → Type ℓ) where
  pub fire_timer-cases : P s → P (load (record s { is_pending = false })) → P (fire_timer s)
  unfolding fire_timer
  fire_timer-cases still started =
      elim s.is_pending as (λ b. P (if b then load (record s { is_pending = false }) else s)) [
        | true ↦ started
        | false ↦ still
      ]

  pub load_more-cases :
      P s → P (load (record s { wanted = length s.state.messages + page_size })) → P (load_more s)
  unfolding load_more
  load_more-cases still started =
      let more = load (record s { wanted = length s.state.messages + page_size }) in
      let choose : (b : Bool) → P (if b then s else more) =
        λ b. elim b as (λ b. P (if b then s else more)) [ true ↦ still | false ↦ started ] in
      elim s.state.next_cursor
        as (λ o. P (elim o [
          | none ↦ s
          | some c ↦ if ltb (length s.state.messages) s.wanted then s else more
        ])) [ none ↦ still | some c ↦ choose (ltb (length s.state.messages) s.wanted) ]

module _ (s : Store) (h : HasLatest s) where
  pub older_lem : All IsAborted (drop 1 s.loads)
  older_lem = rw h.loads_are h.older_aborted

  pub behind_lem : (g : ℕ) → s.synced ≡ some g → g ≤ s.generation
  behind_lem g e = omega (arith, h.synced_le g e, h.gen_le)

  pub change_query-HasLatest : (q : Text) → HasLatest (change_query q s)
  unfolding change_query
  change_query-HasLatest q =
      load-HasLatest (record s { query = q; wanted = page_size; generation = s.generation + 1 })
        older_lem (λ g e. omega (arith, behind_lem g e))

  pub refresh-HasLatest : HasLatest (refresh s)
  unfolding refresh
  refresh-HasLatest = record {
    latest = h.latest;
    older = h.older;
    loads_are = h.loads_are;
    older_aborted = h.older_aborted;
    not_aborted = h.not_aborted;
    gen_le = omega (arith, h.gen_le);
    same_query = λ e. absurd (omega (arith, h.gen_le, e));
    synced_le = h.synced_le;
    goes_on = h.goes_on;
    on_its_way = inl refl;
  }

  pub fire_timer-HasLatest : HasLatest (fire_timer s)
  fire_timer-HasLatest =
      fire_timer-cases s HasLatest h
        (load-HasLatest (record s { is_pending = false }) older_lem behind_lem)

  pub load_more-HasLatest : HasLatest (load_more s)
  load_more-HasLatest = load_more-cases s HasLatest h (
      load-HasLatest (record s { wanted = length s.state.messages + page_size }) older_lem
        behind_lem)
