-- ===== src/Track/Distinct.antt =====
-- bridge_track.c: the daemon knows each interface once.
use rstp.Prelude.{
  ℕ, ◌≡◌, refl, ap, ◌∙◌, sym, Bool, true, false, ◌||◌, some, if◌then◌else◌, ◌==◌, List, [], ◌∷◌,
  map, if_ap, if_or, arith,
}
use rstp.Library.Table.{has, drop_port}
use rstp.Library.Entries.{is_some}
use rstp.Track.{IfData, find_if, remove_if}

abbrev pub Unique : List ℕ → Type 0
Unique [] = Unit
Unique (x ∷ xs) = (has x xs ≡ false) × Unique xs

abbrev pub index_list : {I : Type 0} → List (IfData I) → List ℕ
index_list ifs = map (λ p. p.if_index) ifs

pub has-find_if :
    {I : Type 0} (if_index : ℕ) (ifs : List (IfData I))
    → has if_index (index_list ifs) ≡ is_some (find_if if_index ifs)
unfolding find_if
has-find_if if_index [] = refl
has-find_if if_index (p ∷ rest) = rw (has-find_if if_index rest) (
    sym (
      if_ap is_some (p.if_index == if_index) (some p) (find_if if_index rest)
      ∙ if_or (p.if_index == if_index) (is_some (find_if if_index rest))))

pub remove_if-drop :
    {I : Type 0} (if_index : ℕ) (ifs : List (IfData I))
    → index_list (remove_if if_index ifs) ≡ drop_port if_index (index_list ifs)
unfolding remove_if drop_port
remove_if-drop if_index [] = refl
remove_if-drop if_index (p ∷ rest) =
    if_ap index_list (p.if_index == if_index) rest (p ∷ remove_if if_index rest)
    ∙ rw (remove_if-drop if_index rest) refl

or_false : (b c : Bool) → (b || c) ≡ false → (b ≡ false) × (c ≡ false)
or_false true c e = cc
or_false false c e = (refl, e)

drop_step :
    (b : Bool) (x y : ℕ) (rest later : List ℕ)
    → has x (y ∷ rest) ≡ false
    → (has x rest ≡ false → has x later ≡ false)
    → has x (if b then rest else y ∷ later) ≡ false
drop_step true x y rest later e h = (or_false (y == x) (has x rest) e).1
drop_step false x y rest later e h =
    let (p, q) = or_false (y == x) (has x rest) e in rw (p, h q) refl

has-drop_other : (x i : ℕ) (l : List ℕ) → has x l ≡ false → has x (drop_port i l) ≡ false
unfolding drop_port
has-drop_other x i [] e = refl
has-drop_other x i (y ∷ rest) e =
    drop_step (y == i) x y rest (drop_port i rest) e (has-drop_other x i rest)

Unique-step :
    (b : Bool) (y : ℕ) (rest later : List ℕ)
    → has y later ≡ false
    → Unique rest
    → Unique later
    → Unique (if b then rest else y ∷ later)
Unique-step true y rest later e h g = h
Unique-step false y rest later e h g = (e, g)

pub drop_port-Unique : (i : ℕ) (l : List ℕ) → Unique l → Unique (drop_port i l)
unfolding drop_port
drop_port-Unique i [] h = tt
drop_port-Unique i (y ∷ rest) h =
    Unique-step (y == i) y rest (drop_port i rest) (has-drop_other y i rest h.0) h.1
      (drop_port-Unique i rest h.1)

pub eq_of : (a b : ℕ) → (a == b) ≡ true → a ≡ b
eq_of a b e = ground arith

dropped_step :
    (b : Bool) (i y : ℕ) (rest : List ℕ)
    → b ≡ (y == i)
    → has y rest ≡ false
    → has i (drop_port i rest) ≡ false
    → has i (if b then rest else y ∷ drop_port i rest) ≡ false
dropped_step true i y rest e h g = ap (λ n. has n rest) (sym (eq_of y i (sym e))) ∙ h
dropped_step false i y rest e h g = rw (sym e, g) refl

-- What has been dropped is gone.
pub has-drop_port : (i : ℕ) (l : List ℕ) → Unique l → has i (drop_port i l) ≡ false
unfolding drop_port
has-drop_port i [] h = refl
has-drop_port i (y ∷ rest) h = dropped_step (y == i) i y rest refl h.0 (has-drop_port i rest h.1)
