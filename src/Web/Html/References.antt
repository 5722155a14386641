-- ===== src/Web/Html/References.antt =====
-- web/src/lib/html.ts: where the regular expression finds a reference.
use mailpeek.Prelude.{
  ℕ, zero, suc, ◌+◌, ◌≡◌, refl, sym, ap, subst, ◌∙◌, ◌≢◌, inl, inr, Bool, true, false, ◌&&◌, Option,
  none, some, [], ◌∷◌, ◌++◌, map, arith, ◌==◌, if◌then◌else◌, ==_iff, Bool-cases, length, take,
  drop, all, length-append, take-append-drop, length-map, Text, codes, is_empty,
}
use mathlib.Core.List.{append_assoc}
use mailpeek.Client.Html.{begins, fold}
use mailpeek.Web.Html.{is_cid_unit, cid_run, non_empty, cid_at}

abbrev pub IsMark : Text → Type 0
IsMark mark = map fold mark ≡ codes "cid:"

-- No unit of a content id begins the text.
abbrev pub Stops : Text → Type 0
Stops [] = Unit
Stops (c ∷ s) = is_cid_unit c ≡ false

and_parts : (a b : Bool) → (a && b) ≡ true → (a ≡ true) × (b ≡ true)
and_parts true b h = (refl, h)
and_parts false b h = cc

head_of : {x y : ℕ} {xs ys : Text} → (x ∷ xs) ≡ y ∷ ys → x ≡ y
head_of h = cc

tail_of : {x y : ℕ} {xs ys : Text} → (x ∷ xs) ≡ y ∷ ys → xs ≡ ys
tail_of h = cc

drop-mark :
    (name mark rest : Text) → map fold mark ≡ name → drop (length name) (mark ++ rest) ≡ rest
drop-mark [] [] rest h = refl
drop-mark [] (c ∷ mark) rest h = cc
drop-mark (d ∷ name) [] rest h = cc
drop-mark (d ∷ name) (c ∷ mark) rest h = drop-mark name mark rest (tail_of h)

begins-mark : (name mark rest : Text) → map fold mark ≡ name → begins name (mark ++ rest) ≡ true
begins-mark [] [] rest h = refl
begins-mark [] (c ∷ mark) rest h = cc
begins-mark (d ∷ name) [] rest h = cc
begins-mark (d ∷ name) (c ∷ mark) rest h =
    let ih = begins-mark name mark rest (tail_of h) in
    let e : d == fold c ≡ true = (==_iff d (fold c)).1 (sym (head_of h)) in rw (e, ih) refl

mark-begins : (name s : Text) → begins name s ≡ true → map fold (take (length name) s) ≡ name
mark-begins [] s h = refl
mark-begins (d ∷ name) [] h = cc
mark-begins (d ∷ name) (c ∷ s) h =
    let both = and_parts (d == fold c) (begins name s) h in
    ap (λ x. x ∷ map fold (take (length name) s)) (sym ((==_iff d (fold c)).0 both.0))
    ∙ ap (◌∷◌ d) (mark-begins name s both.1)

cid_run-all : (s : Text) → all is_cid_unit (cid_run s) ≡ true
cid_run-all [] = refl
cid_run-all (c ∷ s) = let ih = cid_run-all s in ground arith

cid_run-drop : (s : Text) → s ≡ cid_run s ++ drop (length (cid_run s)) s
cid_run-drop [] = refl
cid_run-drop (c ∷ s) = elim (Bool-cases (is_cid_unit c)) [
  | inl hit ↦ rw hit (ap (◌∷◌ c) (cid_run-drop s))
  | inr miss ↦ rw miss refl
]

cid_run-Stops : (s : Text) → Stops (drop (length (cid_run s)) s)
cid_run-Stops [] = tt
cid_run-Stops (c ∷ s) = elim (Bool-cases (is_cid_unit c)) [
  | inl hit ↦ rw hit (cid_run-Stops s)
  | inr miss ↦ rw miss miss
]

-- What `cid_at` finds.
pub record IsReference (s cid : Text) : Type 0 where
  pub mark : Text
  pub is_mark : IsMark mark
  pub some_unit : is_empty cid ≡ false
  pub units : all is_cid_unit cid ≡ true
  pub stops : Stops (drop (length cid + 4) s)
  pub whole : s ≡ mark ++ (cid ++ drop (length cid + 4) s)
  pub match : take (length cid + 4) s ≡ mark ++ cid

non_empty-some : (s t : Text) → non_empty s ≡ some t → (s ≡ t) × (is_empty s ≡ false)
non_empty-some [] t h = cc
non_empty-some (c ∷ s) t h = (cc, refl)

drop-none : (n : ℕ) → drop {A = ℕ} n [] ≡ []
drop-none zero = refl
drop-none (suc n) = refl

drop-drop : (m n : ℕ) (s : Text) → drop m (drop n s) ≡ drop (m + n) s
drop-drop m zero s = ap (λ k. drop k s) (omega arith)
drop-drop m (suc n) [] = drop-none m ∙ sym (drop-none (m + suc n))
drop-drop m (suc n) (c ∷ s) =
    let e : m + suc n ≡ suc (m + n) = omega arith in
    drop-drop m n s ∙ sym (ap (λ k. drop k (c ∷ s)) e)

split_length : (x y : Text) → take (length x) (x ++ y) ≡ x
split_length [] y = refl
split_length (c ∷ x) y = ap (◌∷◌ c) (split_length x y)

if_true : (b : Bool) (o p : Option Text) → b ≡ true → (if b then o else none) ≡ p → o ≡ p
if_true true o p h e = e
if_true false o p h e = cc

if_some : (b : Bool) (o : Option Text) (t : Text) → (if b then o else none) ≡ some t → b ≡ true
if_some true o t e = refl
if_some false o t e = cc

cid_run-IsReference :
    (s : Text)
    → begins (codes "cid:") s ≡ true
    → is_empty (cid_run (drop 4 s)) ≡ false
    → IsReference s (cid_run (drop 4 s))
cid_run-IsReference s hit filled =
    let r = drop 4 s in
    let cid = cid_run r in
    let tail : drop (length cid) r ≡ drop (length cid + 4) s = drop-drop (length cid) 4 s in
    let is_mark : IsMark (take 4 s) = mark-begins (codes "cid:") s hit in
    let whole : s ≡ take 4 s ++ (cid ++ drop (length cid + 4) s) =
      sym (take-append-drop 4 s) ∙ ap (◌++◌ (take 4 s)) (cid_run-drop r ∙ ap (◌++◌ cid) tail) in
    let sized : length (take 4 s ++ cid) ≡ length cid + 4 =
      omega (arith, length-append (take 4 s) cid, length-map (take 4 s) fold, ap length is_mark) in
    record {
      mark = take 4 s;
      is_mark = is_mark;
      some_unit = filled;
      units = cid_run-all r;
      stops = subst Stops tail (cid_run-Stops r);
      whole = whole;
      match =
          ap (take (length cid + 4))
            (whole ∙ sym (append_assoc (take 4 s) cid (drop (length cid + 4) s)))
          ∙ ap (λ n. take n ((take 4 s ++ cid) ++ drop (length cid + 4) s)) (sym sized)
          ∙ split_length (take 4 s ++ cid) (drop (length cid + 4) s);
    }

pub cid_at-IsReference : (s cid : Text) → cid_at s ≡ some cid → IsReference s cid
unfolding cid_at
cid_at-IsReference s cid h =
    let hit = if_some (begins (codes "cid:") s) (non_empty (cid_run (drop 4 s))) cid h in
    let found =
      non_empty-some (cid_run (drop 4 s)) cid (if_true (begins (codes "cid:") s) _ _ hit h) in
    subst (IsReference s) found.0 (cid_run-IsReference s hit found.1)

cid_run-unit : (d : ℕ) (rest : Text) → is_cid_unit d ≡ true → non_empty (cid_run (d ∷ rest)) ≢ none
cid_run-unit d rest u h =
    let e : non_empty (cid_run (d ∷ rest)) ≡ some (d ∷ cid_run rest) = rw u refl in cc

pub cid_at-none :
    (s mark : Text) (d : ℕ) (rest : Text)
    → cid_at s ≡ none
    → IsMark mark
    → is_cid_unit d ≡ true
    → s ≢ mark ++ (d ∷ rest)
unfolding cid_at
cid_at-none s mark d rest h m u e =
    let begun : begins (codes "cid:") s ≡ true =
      ap (begins (codes "cid:")) e ∙ begins-mark (codes "cid:") mark (d ∷ rest) m in
    let tail : drop 4 s ≡ d ∷ rest = ap (drop 4) e ∙ drop-mark (codes "cid:") mark (d ∷ rest) m in
    cid_run-unit d rest u (
      sym (ap (λ t. non_empty (cid_run t)) tail)
      ∙ if_true (begins (codes "cid:") s) (non_empty (cid_run (drop 4 s))) none begun h)
